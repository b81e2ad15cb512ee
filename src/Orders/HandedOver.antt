-- ===== src/Orders/HandedOver.antt =====
-- The steps of `create` of apps/api/src/modules/orders/orders.service.ts: the credit rule, the
-- automatic payment and the history row.
use item_lending_management.Prelude.{
  Bool, Bool-cases, List, Option, [], ap, arith, find, inl, inr, ltb, none, pos, refl, some, sym,
  true, ℕ, ◌++◌, ◌+◌, ◌<◌, ◌∙◌, ◌∷◌, ◌≡◌, ◌⊎◌,
}
use item_lending_management.Failure.{>>=-eq-ok, if-false, if-true, ok, ok-injective}
use item_lending_management.Domain.{payment}
use item_lending_management.Store.{LedgerEntry, Order, PaymentType, Rows, cash, find_order, lent}
use item_lending_management.Ledger.{audit_entry, ledger_audit_entry, order_found, record_entry}
use item_lending_management.Ledger.Payments.{or_throw-eq}
use item_lending_management.Ledger.Entries.{record_entry-eq}
use item_lending_management.Orders.Rules.{Actor}
use item_lending_management.Orders.CreditLimit.{CreditOverride, assert_credit_allows}
use item_lending_management.Orders.WithinLimit.{IsAnswered, credit_answer_holds, standing_out_value}
use item_lending_management.Orders.Create.{audit_payment, hand_over_payment, pay_cash}

-- The credit rule as it was answered, for a customer with or without a limit.
abbrev pub IsAllowed : Option ℕ → ℕ → ℕ → Bool → Actor → Option CreditOverride → Type 0
IsAllowed none added standing confirm_override actor override = override ≡ none
IsAllowed (some limit) added standing confirm_override actor override =
    IsAnswered limit added standing confirm_override actor override

pub assert_credit_allows-IsAllowed :
    (customer_id : ℕ) (limit : Option ℕ) (added : ℕ) (confirm_override : Bool) (actor : Actor)
    (orders : List Order) (override : Option CreditOverride)
    → assert_credit_allows customer_id limit (pos added) confirm_override actor orders ≡ ok override
    → IsAllowed limit added
        (added + standing_out_value customer_id orders)
        confirm_override
        actor
        override
unfolding assert_credit_allows
assert_credit_allows-IsAllowed customer_id none added confirm_override actor orders override h =
    sym (ok-injective h)
assert_credit_allows-IsAllowed customer_id (some limit) added confirm_override actor orders override
      h =
    credit_answer_holds limit customer_id added confirm_override actor orders override h

pub audit_payment-keeps :
    (entry : Option LedgerEntry) (order_number : ℕ) (rows : Rows) {rows' : Rows}
    → audit_payment entry order_number rows ≡ ok rows'
    → (rows'.orders ≡ rows.orders) × (rows'.ledger_entries ≡ rows.ledger_entries)
unfolding audit_payment audit_entry
audit_payment-keeps none order_number rows h =
    let e = ok-injective h in
    (sym (ap (λ (r : Rows). r.orders) e), sym (ap (λ (r : Rows). r.ledger_entries) e))
audit_payment-keeps (some entry) order_number rows h =
    let (audit, _, h₁) = >>=-eq-ok (ledger_audit_entry entry order_number) _ h in
    let e = ok-injective h₁ in
    (sym (ap (λ (r : Rows). r.orders) e), sym (ap (λ (r : Rows). r.ledger_entries) e))

pub order_found-eq :
    (id : ℕ) (rows : Rows) {o : Order} → order_found id rows ≡ ok o → find_order id rows ≡ some o
unfolding order_found
order_found-eq id rows {o} h = or_throw-eq _ (find_order id rows) h

-- A cash order with a deposit is paid by one automatic payment of all of it, and no other order is.
abbrev pub IsHandOverPaid : PaymentType → ℕ → ℕ → List LedgerEntry → List LedgerEntry → Type 0
IsHandOverPaid payment_type id deposit before after =
    ((payment_type ≡ cash)
      × (0 < deposit)
      × (row : LedgerEntry) × (after ≡ before ++ row ∷ [])
      × (row.order_id ≡ id)
      × (row.type ≡ payment)
      × (row.amount ≡ deposit)
      × (row.is_automatic ≡ true))
    ⊎ (((payment_type ≡ lent) ⊎ (deposit ≡ 0)) × (after ≡ before))

pub pay_cash-IsHandOverPaid :
    (payment_type : PaymentType) (id deposit user_id : ℕ) (rows : Rows)
    {paid : Rows × Option LedgerEntry}
    → pay_cash payment_type id deposit user_id rows ≡ ok paid
    → (paid.0.orders ≡ rows.orders)
      × IsHandOverPaid payment_type id deposit rows.ledger_entries paid.0.ledger_entries
unfolding pay_cash
pay_cash-IsHandOverPaid lent id deposit user_id rows h =
    let e = sym (ap (λ (x : Rows × Option LedgerEntry). x.0) (ok-injective h)) in
    (ap (λ (r : Rows). r.orders) e, inr (inl refl, ap (λ (r : Rows). r.ledger_entries) e))
pay_cash-IsHandOverPaid cash id deposit user_id rows h = elim (Bool-cases (ltb 0 deposit)) [
  | inr nothing ↦
      let h' = sym (if-false (ltb 0 deposit) _ _ nothing) ∙ h in
      let e = sym (ap (λ (x : Rows × Option LedgerEntry). x.0) (ok-injective h')) in
      (
        ap (λ (r : Rows). r.orders) e,
        inr (inr (ground arith), ap (λ (r : Rows). r.ledger_entries) e),
      )
  | inl some_due ↦
      let h' = sym (if-true (ltb 0 deposit) _ _ some_due) ∙ h in
      let (written, w, h₁) =
        >>=-eq-ok (record_entry (hand_over_payment id deposit) user_id rows) _ h' in
      let (owed, positive, _, _, row, appended) =
        record_entry-eq (hand_over_payment id deposit) user_id rows w in
      let e = sym (ap (λ (x : Rows × Option LedgerEntry). x.0) (ok-injective h₁)) ∙ appended in
      (
        ap (λ (r : Rows). r.orders) e,
        inl (
          refl,
          positive,
          written.1,
          ap (λ (r : Rows). r.ledger_entries) e,
          ap (λ (x : LedgerEntry). x.order_id) row,
          ap (λ (x : LedgerEntry). x.type) row,
          ap (λ (x : LedgerEntry). x.amount) row,
          ap (λ (x : LedgerEntry). x.is_automatic) row,
        ),
      )
]

pub find-append {ℓ} :
    {A : Type ℓ} (p : A → Bool) (xs : List A) (x : A)
    → find p xs ≡ none
    → p x ≡ true
    → find p (xs ++ x ∷ []) ≡ some x
find-append p [] x h e = rw e refl
find-append p (y ∷ xs) x h e = elim (Bool-cases (p y)) [
  | inl t ↦ absurd (let c = sym (if-true (p y) _ _ t) ∙ h in cc)
  | inr f ↦ rw f (find-append p xs x (sym (if-false (p y) _ _ f) ∙ h) e)
]
