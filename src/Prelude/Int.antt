-- ===== src/Prelude/Int.antt =====
-- Signed integers over the native numbers, for the differences of the source's whole numbers.
-- Sums and orders go through the two parts of an integer, which are numbers that `omega` reads.
use Prim.Native.Nat.{ℕ, suc, ◌+◌, ◌-◌, ◌≤◌}
use mathlib.Core.Path.{◌≡◌}
use mathlib.Core.Bool.{Bool}
use mathlib.Core.List.{List, [], ◌∷◌, ◌++◌}
use native.Mathlib.Omega.{arith}
use item_lending_management.Prelude.Tests.{if◌then◌else◌, leb, ltb, ◌==◌}

-- `negsuc n` is -(n + 1).
pub data ℤ : Type 0 where
  pos : ℕ → ℤ
  negsuc : ℕ → ℤ

abbrev pub pos_part : ℤ → ℕ
pos_part (pos n) = n
pos_part (negsuc n) = 0

abbrev pub neg_part : ℤ → ℕ
neg_part (pos n) = 0
neg_part (negsuc n) = suc n

-- a - b, as an integer.
abbrev pub sub_ℕ : ℕ → ℕ → ℤ
sub_ℕ a b = if leb b a then pos (a - b) else negsuc (b - a - 1)

infixl 65 ◌+ℤ◌ ◌-ℤ◌
infix 50 ◌≤ℤ◌
unfoldable pub ◌+ℤ◌ : ℤ → ℤ → ℤ
a +ℤ b = sub_ℕ (pos_part a + pos_part b) (neg_part a + neg_part b)

unfoldable pub ◌-ℤ◌ : ℤ → ℤ → ℤ
a -ℤ b = sub_ℕ (pos_part a + neg_part b) (neg_part a + pos_part b)

abbrev pub ◌≤ℤ◌ : ℤ → ℤ → Type 0
a ≤ℤ b = pos_part a + neg_part b ≤ pos_part b + neg_part a

abbrev pub ltb_ℤ : ℤ → ℤ → Bool
ltb_ℤ a b = ltb (pos_part a + neg_part b) (pos_part b + neg_part a)

abbrev pub eqb_ℤ : ℤ → ℤ → Bool
eqb_ℤ a b = (pos_part a + neg_part b) == (pos_part b + neg_part a)

abbrev pub neg : ℤ → ℤ
neg a = sub_ℕ (neg_part a) (pos_part a)

-- With these the operations can stay shut.
pub +ℤ_parts :
    (a b : ℤ)
    → pos_part (a +ℤ b) + neg_part a + neg_part b ≡ neg_part (a +ℤ b) + pos_part a + pos_part b
unfolding ◌+ℤ◌
+ℤ_parts a b = ground arith

pub -ℤ_parts :
    (a b : ℤ)
    → pos_part (a -ℤ b) + neg_part a + pos_part b ≡ neg_part (a -ℤ b) + pos_part a + neg_part b
unfolding ◌-ℤ◌
-ℤ_parts a b = ground arith

pub eq_of_parts : (a b : ℤ) → pos_part a + neg_part b ≡ pos_part b + neg_part a → a ≡ b
eq_of_parts a b h = ground arith

pub parts_of_eq : {a b : ℤ} → a ≡ b → pos_part a + neg_part b ≡ pos_part b + neg_part a
parts_of_eq {a} {b} h = ground arith

pub ruleset int_laws = (arith, +ℤ_parts, -ℤ_parts, eq_of_parts)

abbrev pub sum_ℤ : List ℤ → ℤ
sum_ℤ [] = pos 0
sum_ℤ (x ∷ xs) = x +ℤ sum_ℤ xs

pub sum_ℤ-append : (xs ys : List ℤ) → sum_ℤ (xs ++ ys) ≡ sum_ℤ xs +ℤ sum_ℤ ys
sum_ℤ-append [] ys = omega int_laws
sum_ℤ-append (x ∷ xs) ys = rw (sum_ℤ-append xs ys) (omega int_laws)
