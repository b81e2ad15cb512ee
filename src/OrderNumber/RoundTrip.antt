-- ===== src/OrderNumber/RoundTrip.antt =====
-- A shown order number is read back by a search, typed with any digits and with or without its hash.
use mathlib.Core.Path.{ap₂}
use item_lending_management.Prelude.{
  Text, [], ap, arith, if◌then◌else◌, length, length-append, none, refl, some, suc, true, zero, ℕ,
  ◌++◌, ◌-◌, ◌<◌, ◌∙◌, ◌∷◌, ◌≡◌, ◌≤◌,
}
use item_lending_management.OrderNumber.{
  all_digits, between, decimal, format_order_number, is_order_number, number_from, order_number_of,
  repeat, strip_hash, to_western_digits, western_digit,
}
use item_lending_management.OrderNumber.Digits.{IsDigits, decimal-IsDigits, length-decimal}

repeat-zeros :
    (n : ℕ) (text : Text) (value : ℕ) → IsDigits value text → IsDigits value (repeat n 48 ++ text)
unfolding number_from
repeat-zeros zero text value h = h
repeat-zeros (suc n) text value h =
    let (d, v, l) = repeat-zeros n text value h in (ground (arith, d), v, omega arith)

length-repeat : (n c : ℕ) → length (repeat n c) ≡ n
length-repeat zero c = refl
length-repeat (suc n) c = ap suc (length-repeat n c)

format_order_number-IsDigits : (value : ℕ) → IsDigits value (format_order_number value)
unfolding format_order_number
format_order_number-IsDigits value =
    repeat-zeros (6 - length (decimal (suc value) value)) (decimal (suc value) value) value
      (decimal-IsDigits (suc value) value (omega arith))

length-format_order_number :
    (value : ℕ) → value < 1000000000 → length (format_order_number value) ≤ 9
unfolding format_order_number
length-format_order_number value h =
    let text = decimal (suc value) value in
    omega (
      arith,
      length-append (repeat (6 - length text) 48) text,
      length-repeat (6 - length text) 48,
      length-decimal (suc value) 8 value h,
    )

-- A digit is no hash.
strip_hash-digits : (text : Text) → all_digits text ≡ true → strip_hash text ≡ text
strip_hash-digits [] h = refl
strip_hash-digits (c ∷ cs) h = ground arith

read_digits :
    (digits : Text) (value : ℕ)
    → IsDigits value digits
    → length digits ≤ 9
    → (if is_order_number digits then some (number_from 0 digits) else none) ≡ some value
unfolding is_order_number
read_digits digits value (d, v, l) h = ground (arith, d, v)

-- Western digits stay as they are.
western_digit-digit : (c : ℕ) → between 48 57 c ≡ true → western_digit c ≡ c
unfolding western_digit
western_digit-digit c h = ground arith

to_western_digits-digits : (text : Text) → all_digits text ≡ true → to_western_digits text ≡ text
unfolding to_western_digits
to_western_digits-digits [] h = refl
to_western_digits-digits (c ∷ cs) h =
    let first : between 48 57 c ≡ true = ground arith in
    let others : all_digits cs ≡ true = ground arith in
    ap₂ ◌∷◌ (western_digit-digit c first) (to_western_digits-digits cs others)

-- A search that in Western digits is the shown number.
order_number_of-shown :
    (q : Text) (value : ℕ)
    → value < 1000000000
    → strip_hash (to_western_digits q) ≡ format_order_number value
    → order_number_of q ≡ some value
unfolding order_number_of
order_number_of-shown q value h e =
    ap (λ digits. if is_order_number digits then some (number_from 0 digits) else none) e
    ∙ read_digits (format_order_number value) value (format_order_number-IsDigits value)
        (length-format_order_number value h)

hash_stripped : (q : Text) → strip_hash (to_western_digits (35 ∷ q)) ≡ to_western_digits q
unfolding to_western_digits western_digit
hash_stripped q = refl

-- For a number of at most nine digits, a search for the number as it is shown finds that number, and
-- so does any text that the mapping of Eastern digits turns into it, with or without a hash before.
pub order_number_of-format_order_number :
    (value : ℕ) (typed : Text)
    → value < 1000000000
    → to_western_digits typed ≡ format_order_number value
    → (order_number_of (format_order_number value) ≡ some value)
      × (order_number_of typed ≡ some value)
      × (order_number_of (35 ∷ typed) ≡ some value)
order_number_of-format_order_number value typed h e =
    let digits = (format_order_number-IsDigits value).0 in
    let no_hash = strip_hash-digits (format_order_number value) digits in
    (
      order_number_of-shown (format_order_number value) value h
          (ap strip_hash (to_western_digits-digits (format_order_number value) digits) ∙ no_hash),
      order_number_of-shown typed value h (ap strip_hash e ∙ no_hash),
      order_number_of-shown (35 ∷ typed) value h (hash_stripped typed ∙ e),
    )
