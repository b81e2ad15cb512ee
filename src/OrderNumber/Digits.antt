-- ===== src/OrderNumber/Digits.antt =====
-- Decimal digits: what they say, and how many there are.
use item_lending_management.Prelude.{
  Bool-cases, Text, [], arith, false, inl, inr, length, length-append, ltb, refl, suc, true, zero,
  ℕ, ◌%◌, ◌*◌, ◌++◌, ◌+◌, ◌-◌, ◌/◌, ◌<◌, ◌∙◌, ◌∷◌, ◌≡◌, ◌≤◌,
}
use item_lending_management.OrderNumber.{all_digits, decimal, number_from}

pub number_from-append :
    (read : ℕ) (xs ys : Text) → number_from read (xs ++ ys) ≡ number_from (number_from read xs) ys
unfolding number_from
number_from-append read [] ys = refl
number_from-append read (x ∷ xs) ys = number_from-append (read * 10 + (x - 48)) xs ys

pub all_digits-append :
    (xs ys : Text) → all_digits xs ≡ true → all_digits ys ≡ true → all_digits (xs ++ ys) ≡ true
all_digits-append [] ys a b = b
all_digits-append (x ∷ xs) ys a b = ground (arith, all_digits-append xs ys)

abbrev pub IsDigits : ℕ → Text → Type 0
IsDigits value text = (all_digits text ≡ true) × (number_from 0 text ≡ value) × (1 ≤ length text)

last_digit : (value : ℕ) → all_digits ((48 + value % 10) ∷ []) ≡ true
last_digit value = ground arith

small_digit : (value : ℕ) → ltb value 10 ≡ true → all_digits ((48 + value) ∷ []) ≡ true
small_digit value h = ground arith

one_digit : (value : ℕ) → 0 * 10 + (48 + value - 48) ≡ value
one_digit value = omega arith

smaller : (value fuel : ℕ) → ltb value 10 ≡ false → value < suc fuel → value / 10 < fuel
smaller value fuel e h = omega (arith, (ltb_false value 10 e))
  where
    ltb_false : (a b : ℕ) → ltb a b ≡ false → b ≤ a
    ltb_false a b q = ground arith

pub decimal-IsDigits : (fuel value : ℕ) → value < fuel → IsDigits value (decimal fuel value)
unfolding decimal number_from
decimal-IsDigits zero value h = absurd (omega arith)
decimal-IsDigits (suc fuel) value h = elim (Bool-cases (ltb value 10)) [
  | inl e ↦ rw e (small_digit value e, one_digit value, omega arith)
  | inr e ↦
      let (d, n, l) = decimal-IsDigits fuel (value / 10) (smaller value fuel e h) in
      let rest = decimal fuel (value / 10) in
      rw e (
        all_digits-append rest ((48 + value % 10) ∷ []) d (last_digit value),
        number_from-append 0 rest ((48 + value % 10) ∷ []) ∙ omega (arith, n),
        omega (arith, length-append rest ((48 + value % 10) ∷ [])),
      )
]

-- Ten to the n, by its own recursion.
abbrev pub power_of_ten : ℕ → ℕ
power_of_ten zero = 1
power_of_ten (suc n) = 10 * power_of_ten n

-- A number below ten to the n has at most n digits.
pub length-decimal :
    (fuel n value : ℕ) → value < power_of_ten (suc n) → length (decimal fuel value) ≤ suc n
unfolding decimal
length-decimal zero n value h = omega arith
length-decimal (suc fuel) zero value h =
    let small : ltb value 10 ≡ true = ground arith in rw small (omega arith)
length-decimal (suc fuel) (suc n) value h = elim (Bool-cases (ltb value 10)) [
  | inl e ↦ rw e (omega arith)
  | inr e ↦ rw e (
      omega (
        arith,
        length-append (decimal fuel (value / 10)) ((48 + value % 10) ∷ []),
        length-decimal fuel n (value / 10) (omega arith),
      ))
]
