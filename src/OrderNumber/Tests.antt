-- ===== src/OrderNumber/Tests.antt =====
-- Order 42 as it is shown, and as a search may have it.
use item_lending_management.Prelude.{Text, [], arith, none, refl, some, ◌∷◌, ◌≡◌}
use item_lending_management.OrderNumber.{
  decimal, format_order_number, is_order_number, order_number_of, repeat, to_western_digits,
  western_digit,
}
use item_lending_management.OrderNumber.RoundTrip.{order_number_of-format_order_number}

-- 000042
shows_42 : format_order_number 42 ≡ 48 ∷ 48 ∷ 48 ∷ 48 ∷ 52 ∷ 50 ∷ []
unfolding format_order_number decimal
shows_42 = refl

-- A longer run of digits, or other text, is no order number.
not_numbers : (order_number_of (repeat 10 49) ≡ none) × (order_number_of (65 ∷ 49 ∷ []) ≡ none)
unfolding order_number_of to_western_digits western_digit is_order_number
not_numbers = (refl, refl)

-- The same digits from an Arabic keyboard.
abbrev typed : Text
typed = 1632 ∷ 1632 ∷ 1632 ∷ 1632 ∷ 1636 ∷ 1634 ∷ []

typed_42 : to_western_digits typed ≡ format_order_number 42
unfolding format_order_number decimal to_western_digits western_digit
typed_42 = refl

order_number_of-format_order_number_example :
    (order_number_of (format_order_number 42) ≡ some 42)
    × (order_number_of typed ≡ some 42)
    × (order_number_of (35 ∷ typed) ≡ some 42)
order_number_of-format_order_number_example =
    order_number_of-format_order_number 42 typed (omega arith) typed_42
