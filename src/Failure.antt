-- ===== src/Failure.antt =====
-- What the source throws, as values: `ApiError` (packages/shared/src/error-codes.ts and
-- apps/api/src/common/errors/api-error.ts) with the details that its callers give,
-- `LedgerInvariantError` (packages/shared/src/domain/ledger-math.ts), and the plain `Error` of a
-- caller's bug; the database's refusal of a second row for one idempotency key; and the result of code that may throw. An `await`ed rejection is a throw.

use item_lending_management.Prelude.{
  Bool, List, Option, [], false, if◌then◌else◌, inl, inr, none, refl, some, sym, true, ℕ, ℤ, ◌∷◌,
  ◌≡◌, ◌⊎◌,
}

pub data ApiError : Type 0 where
  validation_failed : ApiError
  version_conflict : ℕ → ApiError
  unit_deposit_not_permitted : List ℕ → ApiError
  admin_only : ApiError
  customer_not_found : ℕ → ApiError
  customer_archived : ℕ → ApiError
  driver_not_found : ℕ → ApiError
  driver_archived : ℕ → ApiError
  item_not_found : ℕ → ApiError
  item_archived : ℕ → ApiError
  stock_insufficient : List (ℕ × ℤ × ℤ) → ApiError
  credit_limit_exceeded : ℕ → ℕ → ℤ → ℤ → Bool → ApiError
  order_not_found : ℕ → ApiError
  order_cancelled : ℕ → ApiError
  order_has_activity : ℕ → ℕ → ApiError
  return_empty : ApiError
  return_duplicate_line : ℕ → ApiError
  return_line_not_in_order : ℕ → ApiError
  return_date_before_order_date : ℕ → ApiError
  damaged_refund_too_high : ℕ → ℕ → ApiError
  return_exceeds_out : List (ℕ × ℕ × ℕ) → ApiError
  payment_order_not_lent : ApiError
  payment_date_before_order_date : ℕ → ApiError
  payment_exceeds_owed : ℕ → ℕ → ApiError
  ledger_entry_not_found : ℕ → ApiError
  ledger_entry_not_reversible : ApiError
  ledger_entry_already_reversed : ℕ → ApiError
  business_date_in_future : ℕ → ApiError
  batch_not_found : ℕ → ApiError
  idempotency_key_reused : ApiError

pub data Failure : Type 0 where
  api : ApiError → Failure
  unsafe_integer : Failure
  unknown_order_line : ℕ → Failure
  out_quantity_negative : ℕ → Failure
  owed_negative : Failure
  caller_bug : Failure
  idempotency_key_taken : Failure

-- A value, or what was thrown instead.
pub data Result {ℓ} (V : Type ℓ) : Type ℓ where
  err : Failure → Result V
  ok : V → Result V

infixl 5 ◌>>=◌ ◌>>◌
abbrev pub ◌>>=◌ {ℓ κ} : {V : Type ℓ} {W : Type κ} → Result V → (V → Result W) → Result W
err thrown >>= next = err thrown
ok value >>= next = next value

-- A check that only throws, then the rest.
abbrev pub ◌>>◌ {ℓ} : {W : Type ℓ} → Result (Unit {0}) → Result W → Result W
check >> rest = check >>= λ _. rest

-- `if (c) throw e`
abbrev pub throw_if : Bool → Failure → Result (Unit {0})
throw_if true e = err e
throw_if false e = ok tt

-- `xs.map(f)` for an `f` that may throw
abbrev pub traverse {ℓ κ} : {A : Type ℓ} {B : Type κ} → (A → Result B) → List A → Result (List B)
traverse f [] = ok []
traverse f (x ∷ xs) = let rest = traverse f xs in f x >>= λ y. rest >>= λ ys. ok (y ∷ ys)

-- `if (!found) throw …`
abbrev pub or_throw {ℓ} : {A : Type ℓ} → Failure → Option A → Result A
or_throw e none = err e
or_throw e (some found) = ok found

-- Inversion of a successful bind, for proofs where the parts stay shut.
pub >>=-eq-ok {ℓ κ} :
    {V : Type ℓ} {W : Type κ} (r : Result V) (next : V → Result W) {w : W}
    → (r >>= next) ≡ ok w
    → (v : V) × (r ≡ ok v) × (next v ≡ ok w)
>>=-eq-ok (err thrown) next h = cc
>>=-eq-ok (ok value) next h = (value, refl, h)

pub ok-injective {ℓ} : {A : Type ℓ} {a b : A} → ok a ≡ ok b → a ≡ b
ok-injective h = cc

pub if-false {ℓ} : {A : Type ℓ} (b : Bool) (x y : A) → b ≡ false → (if b then x else y) ≡ y
if-false true x y h = cc
if-false false x y h = refl

pub if-true {ℓ} : {A : Type ℓ} (b : Bool) (x y : A) → b ≡ true → (if b then x else y) ≡ x
if-true true x y h = refl
if-true false x y h = cc

pub traverse-cons {ℓ κ} :
    {A : Type ℓ} {B : Type κ} (f : A → Result B) (x : A) (xs : List A) {ys : List B}
    → traverse f (x ∷ xs) ≡ ok ys
    → (z : B) × (zs : List B) × (f x ≡ ok z) × (traverse f xs ≡ ok zs) × (ys ≡ z ∷ zs)
traverse-cons f x xs h =
    let (z, e, h₁) = >>=-eq-ok (f x) _ h in
    let (zs, e₁, h₂) = >>=-eq-ok (traverse f xs) _ h₁ in (z, zs, e, e₁, sym (ok-injective h₂))

pub Result-cases {ℓ} :
    {V : Type ℓ} (r : Result V) → ((e : Failure) × (r ≡ err e)) ⊎ ((v : V) × (r ≡ ok v))
Result-cases (err e) = inl (e, refl)
Result-cases (ok v) = inr (v, refl)
