-- ===== src/Orders/Activity.antt =====
-- When the activity of an order (apps/api/src/modules/orders/order-rules.ts) lets it be changed.
use item_lending_management.Prelude.{
  ==_iff, All, All-mono, Bool, Bool-cases, List, Option, [], ap, arith, false, inl, inr, keep,
  length, ltb, none, not, refl, some, true, ℕ, ◌+◌, ◌==◌, ◌||◌, ◌↔◌, ◌∷◌, ◌≡◌, ◌≢◌, ◌⊎◌,
}
use item_lending_management.Failure.{Failure, ok, throw_if}
use item_lending_management.Domain.{
  LedgerEntryType, payment, payment_reversal, refund, refund_reversal,
}
use item_lending_management.Store.{
  LedgerEntry, LedgerEntrySource, Order, PalletReturn, manual, order_cancel, order_create,
  order_line_edit, payment_delete, return_create, return_delete, return_edit,
}
use item_lending_management.Orders.State.{is_some}
use item_lending_management.Orders.Rules.{
  ReturnWith, assert_no_activity, is_standing_manual, order_activity,
}
use item_lending_management.Ledger.{is_manual, is_payment, is_reversed}

keep-none {ℓ} :
    {A : Type ℓ} (p : A → Bool) (xs : List A) → (length (keep p xs) ≡ 0) ↔ All (λ x. p x ≡ false) xs
keep-none p [] = (λ h. tt, λ h. refl)
keep-none p (x ∷ xs) = elim (Bool-cases (p x)) [
  | inl e ↦ rw e ((λ h. absurd (omega arith)), λ h. cc)
  | inr e ↦ let ih = keep-none p xs in rw e ((λ h. (refl, ih.0 h)), λ h. ih.1 h.1)
]

throw_if-zero :
    (n m k : ℕ) (e : Failure) → throw_if (ltb 0 (n + m + k)) e ≡ ok tt → (n ≡ 0) × (m ≡ 0) × (k ≡ 0)
throw_if-zero n m k e h = ground arith

-- The row of this id is reversed by one of the rows.
abbrev pub IsUndone : ℕ → List LedgerEntry → Type 0
IsUndone id [] = ⊥
IsUndone id (r ∷ rs) = (r.reverses_entry_id ≡ some id) ⊎ IsUndone id rs

-- The row is no manual payment that stands.
abbrev pub IsNoStanding : List LedgerEntry → LedgerEntry → Type 0
IsNoStanding entries e = (e.type ≢ payment) ⊎ ((e.source ≢ manual) ⊎ IsUndone e.id entries)

reverses_iff :
    (id : ℕ) (o : Option ℕ)
    → (elim o [ none ↦ false | some reversed ↦ reversed == id ] ≡ true) ↔ (o ≡ some id)
reverses_iff id none = (λ h. cc, λ h. cc)
reverses_iff id (some r) = (λ h. ap some ((==_iff r id).0 h), λ h. (==_iff r id).1 cc)

or_iff : (a b : Bool) {P Q : Type 0} → (a ≡ true) ↔ P → (b ≡ true) ↔ Q → (a || b ≡ true) ↔ (P ⊎ Q)
or_iff true b p q = (λ h. inl (p.0 refl), λ h. refl)
or_iff false b p q = (λ h. inr (q.0 h), λ h. elim h [ inl x ↦ cc (p.1 x) | inr y ↦ q.1 y ])

is_reversed-IsUndone :
    (id : ℕ) (entries : List LedgerEntry) → (is_reversed id entries ≡ true) ↔ IsUndone id entries
is_reversed-IsUndone id [] = (λ h. cc, λ h. absurd h)
is_reversed-IsUndone id (r ∷ rs) =
    or_iff _ _ (reverses_iff id r.reverses_entry_id) (is_reversed-IsUndone id rs)

is_payment_iff : (t : LedgerEntryType) → (is_payment t ≡ true) ↔ (t ≡ payment)
is_payment_iff payment = (λ h. refl, λ h. refl)
is_payment_iff refund = (λ h. cc, λ h. cc)
is_payment_iff payment_reversal = (λ h. cc, λ h. cc)
is_payment_iff refund_reversal = (λ h. cc, λ h. cc)

is_manual_iff : (s : LedgerEntrySource) → (is_manual s ≡ true) ↔ (s ≡ manual)
is_manual_iff manual = (λ h. refl, λ h. refl)
is_manual_iff order_create = (λ h. cc, λ h. cc)
is_manual_iff order_line_edit = (λ h. cc, λ h. cc)
is_manual_iff order_cancel = (λ h. cc, λ h. cc)
is_manual_iff payment_delete = (λ h. cc, λ h. cc)
is_manual_iff return_create = (λ h. cc, λ h. cc)
is_manual_iff return_edit = (λ h. cc, λ h. cc)
is_manual_iff return_delete = (λ h. cc, λ h. cc)

is_standing_manual-IsNoStanding :
    (entries : List LedgerEntry) (e : LedgerEntry)
    → (is_standing_manual entries e ≡ false) ↔ IsNoStanding entries e
is_standing_manual-IsNoStanding entries e =
    let p = is_payment_iff e.type in
    let m = is_manual_iff e.source in
    let u = is_reversed-IsUndone e.id entries in
    elim (Bool-cases (is_payment e.type)) [
      | inr a ↦ rw a (λ h. inl (λ q. cc (p.1 q)), λ h. refl)
      | inl a ↦ elim (Bool-cases (is_manual e.source)) [
        | inr b ↦ rw (a, b) (λ h. inr (inl (λ q. cc (m.1 q))), λ h. refl)
        | inl b ↦ elim (Bool-cases (is_reversed e.id entries)) [
          | inl c ↦ rw (a, b, c) (λ h. inr (inr (u.0 c)), λ h. refl)
          | inr c ↦
              rw (a, b, c)
                (
                  λ h. cc,
                  λ h. elim h [
                    | inl q ↦ absurd (q (p.0 a))
                    | inr (inl q) ↦ absurd (q (m.0 b))
                    | inr (inr q) ↦ cc (u.1 q)
                  ],
                )
        ]
      ]
    ]

All_iff {ℓ κ μ} :
    {A : Type ℓ} (P : A → Type κ) (Q : A → Type μ) (xs : List A)
    → ((x : A) → P x ↔ Q x)
    → All P xs ↔ All Q xs
All_iff P Q xs e = (All-mono P Q xs (λ x. (e x).0), All-mono Q P xs (λ x. (e x).1))

is_some_iff : {A : Type 0} (m : Option A) → (not (is_some m) ≡ false) ↔ (m ≢ none)
is_some_iff none = (λ h. cc, λ h. absurd (h refl))
is_some_iff (some a) = (λ h e. cc, λ h. refl)

not_iff : (a b : ℕ) → (not (a == b) ≡ false) ↔ (a ≡ b)
not_iff a b = (λ h. ground arith, λ h. ground arith)

-- The check on activity passes exactly when each return of the order is reversed, each return
-- recorded from its page is of the order itself, and each of its ledger rows that is a manual
-- payment is reversed by one of the rows.
pub assert_no_activity-exact :
    (order : Order) (returns_with : List ReturnWith) (entries : List LedgerEntry)
    → (assert_no_activity (order_activity order returns_with entries) ≡ ok tt) ↔ (
        All (λ (pr : PalletReturn). pr.reversed_at ≢ none) order.returns
        × All (λ (pr : ReturnWith). pr.order_id ≡ order.id) returns_with
        × All (IsNoStanding entries) entries)
unfolding assert_no_activity order_activity
assert_no_activity-exact order returns_with entries =
    let a = keep-none (λ (pr : PalletReturn). not (is_some pr.reversed_at)) order.returns in
    let b = keep-none (λ (pr : ReturnWith). not (pr.order_id == order.id)) returns_with in
    let c = keep-none (is_standing_manual entries) entries in
    let a' =
      All_iff _ (λ (pr : PalletReturn). pr.reversed_at ≢ none) order.returns
        (λ pr. is_some_iff pr.reversed_at) in
    let b' =
      All_iff _ (λ (pr : ReturnWith). pr.order_id ≡ order.id) returns_with
        (λ pr. not_iff pr.order_id order.id) in
    let c' = All_iff _ (IsNoStanding entries) entries (is_standing_manual-IsNoStanding entries) in
    (
      (λ h. let (x, y, z) = throw_if-zero _ _ _ _ h in (a'.0 (a.0 x), b'.0 (b.0 y), c'.0 (c.0 z))),
      λ h. rw (a.1 (a'.1 h.0), b.1 (b'.1 h.1), c.1 (c'.1 h.2)) refl,
    )
