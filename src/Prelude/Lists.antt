-- ===== src/Prelude/Lists.antt =====
-- Lists measured and indexed by native numbers, under the library's names, and the array methods
-- that the source uses (`filter` by a Boolean test, sums, `slice`).
use Prim.Native.Nat.{ℕ, zero, suc, ◌+◌, ◌-◌, ◌≤◌, ◌<◌, min}
use mathlib.Core.Path.{◌≡◌, ◌∙◌, ap, refl, subst, sym}
use mathlib.Core.Logic.{inl, inr}
use mathlib.Core.Bool.{Bool, false, true, ◌||◌}
use mathlib.Core.List.{List, [], ◌∷◌, ◌++◌}
use mathlib.Core.Option.{Option, none, some}
use native.Mathlib.Omega.{arith}
use item_lending_management.Prelude.Tests.{Bool-cases, if◌then◌else◌, ◌==◌}

module _ {ℓ} {A : Type ℓ} where
  abbrev pub length : List A → ℕ
  length [] = 0
  length (x ∷ xs) = suc (length xs)

  abbrev pub get_elem? : List A → ℕ → Option A
  get_elem? [] i = none
  get_elem? (x ∷ xs) zero = some x
  get_elem? (x ∷ xs) (suc i) = get_elem? xs i

  abbrev pub take : ℕ → List A → List A
  take zero xs = []
  take (suc n) [] = []
  take (suc n) (x ∷ xs) = x ∷ take n xs

  abbrev pub drop : ℕ → List A → List A
  drop zero xs = xs
  drop (suc n) [] = []
  drop (suc n) (x ∷ xs) = drop n xs

  -- `xs.filter(p)`
  abbrev pub keep : (A → Bool) → List A → List A
  keep p [] = []
  keep p (x ∷ xs) = let rest = keep p xs in if p x then x ∷ rest else rest

  -- `xs.some(p)`
  abbrev pub any : (A → Bool) → List A → Bool
  any p [] = false
  any p (x ∷ xs) = p x || any p xs

  -- `xs.find(p)`
  abbrev pub find : (A → Bool) → List A → Option A
  find p [] = none
  find p (x ∷ xs) = let rest = find p xs in if p x then some x else rest

  -- Every element has the property; it computes to a tuple.
  abbrev pub All {κ} : (A → Type κ) → List A → Type κ
  All P [] = Unit
  All P (x ∷ xs) = P x × All P xs

module _ {ℓ} {A : Type ℓ} where
  pub length-append : (xs ys : List A) → length (xs ++ ys) ≡ length xs + length ys
  length-append [] ys = omega arith
  length-append (x ∷ xs) ys = omega (arith, length-append xs ys)

  pub take-append-drop : (n : ℕ) (xs : List A) → take n xs ++ drop n xs ≡ xs
  take-append-drop zero xs = refl
  take-append-drop (suc n) [] = refl
  take-append-drop (suc n) (x ∷ xs) = rw (take-append-drop n xs)

  pub length-take : (n : ℕ) (xs : List A) → length (take n xs) ≡ min n (length xs)
  length-take zero xs = omega arith
  length-take (suc n) [] = omega arith
  length-take (suc n) (x ∷ xs) = omega (arith, length-take n xs)

  pub length-drop : (n : ℕ) (xs : List A) → length (drop n xs) ≡ length xs - n
  length-drop zero xs = omega arith
  length-drop (suc n) [] = omega arith
  length-drop (suc n) (x ∷ xs) = omega (arith, length-drop n xs)

pub All-mono {ℓ κ μ} :
    {A : Type ℓ} (P : A → Type κ) (Q : A → Type μ) (xs : List A)
    → ((x : A) → P x → Q x)
    → All P xs
    → All Q xs
All-mono P Q [] h a = tt
All-mono P Q (x ∷ xs) h a = (h x a.0, All-mono P Q xs h a.1)

pub All-zip {ℓ κ μ} :
    {A : Type ℓ} (P : A → Type κ) (Q : A → Type μ) (xs : List A)
    → All P xs
    → All Q xs
    → All (λ x. P x × Q x) xs
All-zip P Q [] a b = tt
All-zip P Q (x ∷ xs) a b = ((a.0, b.0), All-zip P Q xs a.1 b.1)

module _ {ℓ} {A : Type ℓ} where
  pub drop-nil : (n : ℕ) → drop {A = A} n [] ≡ []
  drop-nil zero = refl
  drop-nil (suc n) = refl

  pub drop-drop : (m n : ℕ) (xs : List A) → drop n (drop m xs) ≡ drop (m + n) xs
  drop-drop zero n xs = let e : zero + n ≡ n = omega arith in rw e
  drop-drop (suc m) n [] = rw (drop-nil n, drop-nil (suc m + n))
  drop-drop (suc m) n (x ∷ xs) =
      let e : suc m + n ≡ suc (m + n) = omega arith in rw e (drop-drop m n xs)

  pub drop-all : (n : ℕ) (xs : List A) → length xs ≤ n → drop n xs ≡ []
  drop-all zero [] h = refl
  drop-all zero (x ∷ xs) h = absurd (omega arith)
  drop-all (suc n) [] h = refl
  drop-all (suc n) (x ∷ xs) h = drop-all n xs (omega arith)

  pub get_elem?-drop : (i k : ℕ) (xs : List A) → get_elem? (drop i xs) k ≡ get_elem? xs (i + k)
  get_elem?-drop zero k xs = let e : zero + k ≡ k = omega arith in rw e
  get_elem?-drop (suc i) k [] = refl
  get_elem?-drop (suc i) k (x ∷ xs) =
      let e : suc i + k ≡ suc (i + k) = omega arith in rw e (get_elem?-drop i k xs)

  pub get_elem?-take : (n k : ℕ) (xs : List A) → k < n → get_elem? (take n xs) k ≡ get_elem? xs k
  get_elem?-take zero k xs h = absurd (omega arith)
  get_elem?-take (suc n) k [] h = refl
  get_elem?-take (suc n) zero (x ∷ xs) h = refl
  get_elem?-take (suc n) (suc k) (x ∷ xs) h = get_elem?-take n k xs (omega arith)

-- `xs.flatMap(f)`
abbrev pub concat_map {ℓ κ} : {A : Type ℓ} {B : Type κ} → (A → List B) → List A → List B
concat_map f [] = []
concat_map f (x ∷ xs) = f x ++ concat_map f xs

-- The source's `sum`, from the left with 0; over exact integers it is the plain recursion.
abbrev pub sum : List ℕ → ℕ
sum [] = 0
sum (x ∷ xs) = x + sum xs

abbrev pub sum_by {ℓ} : {A : Type ℓ} → (A → ℕ) → List A → ℕ
sum_by f [] = 0
sum_by f (x ∷ xs) = f x + sum_by f xs

pub sum_by-append {ℓ} :
    {A : Type ℓ} (f : A → ℕ) (xs ys : List A) → sum_by f (xs ++ ys) ≡ sum_by f xs + sum_by f ys
sum_by-append f [] ys = omega arith
sum_by-append f (x ∷ xs) ys = omega (arith, sum_by-append f xs ys)

abbrev pub includes : ℕ → List ℕ → Bool
includes k [] = false
includes k (x ∷ xs) = k == x || includes k xs

pub find-holds {ℓ} :
    {A : Type ℓ} (p : A → Bool) (xs : List A) {a : A} → find p xs ≡ some a → p a ≡ true
find-holds p [] h = cc
find-holds p (x ∷ xs) {a} h = elim (Bool-cases (p x)) [
  | inl e ↦ let q : some x ≡ some a = rw e at h in let q' : x ≡ a = cc in ap p (sym q') ∙ e
  | inr e ↦ find-holds p xs (rw e at h)
]

pub find-All {ℓ κ} :
    {A : Type ℓ} (P : A → Type κ) (p : A → Bool) (xs : List A) {a : A}
    → find p xs ≡ some a
    → All P xs
    → P a
find-All P p [] h all = cc
find-All P p (x ∷ xs) {a} h all = elim (Bool-cases (p x)) [
  | inl e ↦ let q : some x ≡ some a = rw e at h in let q' : x ≡ a = cc in subst P q' all.0
  | inr e ↦ find-All P p xs (rw e at h) all.1
]
