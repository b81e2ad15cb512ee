-- ===== src/OrderNumber.antt =====
-- How an order number is shown (packages/shared/src/format.ts) and how a search reads one back
-- (apps/api/src/modules/orders/order-search.ts). A text is the list of its code units.
use item_lending_management.Prelude.{
  Bool, Option, Text, [], if◌then◌else◌, leb, length, ltb, map, none, some, suc, true, zero, ℕ, ◌%◌,
  ◌&&◌, ◌*◌, ◌++◌, ◌+◌, ◌-◌, ◌/◌, ◌==◌, ◌||◌, ◌∷◌,
}
pub mod Digits
pub mod RoundTrip
mod Tests

-- `String(value)`: the decimal digits, of which there are at most `value + 1`.
unfoldable pub decimal : ℕ → ℕ → Text
decimal zero value = []
decimal (suc fuel) value =
    let rest = decimal fuel (value / 10) in
    if ltb value 10 then (48 + value) ∷ [] else rest ++ (48 + value % 10) ∷ []

abbrev pub repeat : ℕ → ℕ → Text
repeat zero c = []
repeat (suc n) c = c ∷ repeat n c

-- `text.padStart(width, c)` of one code unit
abbrev pub pad_start : ℕ → ℕ → Text → Text
pad_start width c text = repeat (width - length text) c ++ text

unfoldable pub format_order_number : ℕ → Text
format_order_number value = pad_start 6 48 (decimal (suc value) value)

abbrev pub between : ℕ → ℕ → ℕ → Bool
between low high c = leb low c && leb c high

-- One code unit of `toWesternDigits`: the Eastern digits start at 1632 (0x0660) and 1776 (0x06f0).
unfoldable pub western_digit : ℕ → ℕ
western_digit c =
    if between 1632 1641 c || between 1776 1785 c
    then 48 + (c - (if leb 1776 c then 1776 else 1632))
    else c

unfoldable pub to_western_digits : Text → Text
to_western_digits value = map western_digit value

-- `.replace(/^#/, '')`
abbrev pub strip_hash : Text → Text
strip_hash [] = []
strip_hash (c ∷ cs) = if c == 35 then cs else c ∷ cs

abbrev pub all_digits : Text → Bool
all_digits [] = true
all_digits (c ∷ cs) = let rest = all_digits cs in between 48 57 c && rest

-- `ORDER_NUMBER_QUERY.test(digits)`
unfoldable pub is_order_number : Text → Bool
is_order_number digits = leb 1 (length digits) && (leb (length digits) 9 && all_digits digits)

-- `Number(digits)`, of a text of digits
unfoldable pub number_from : ℕ → Text → ℕ
number_from read [] = read
number_from read (c ∷ cs) = number_from (read * 10 + (c - 48)) cs

unfoldable pub order_number_of : Text → Option ℕ
order_number_of q =
    let digits = strip_hash (to_western_digits q) in
    if is_order_number digits then some (number_from 0 digits) else none
