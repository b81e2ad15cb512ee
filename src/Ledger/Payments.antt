-- ===== src/Ledger/Payments.antt =====
-- What recording and undoing a manual payment does
-- (apps/api/src/modules/ledger/payments.service.ts).
use mathlib.Core.Path.{subst}
use item_lending_management.Prelude.{
  Bool, List, Option, [], ap, arith, false, ltb, none, not, refl, some, suc, sym, true, ℕ, ◌++◌,
  ◌+◌, ◌<◌, ◌∙◌, ◌∷◌, ◌≡◌, ◌≤◌,
}
use item_lending_management.Failure.{
  >>=-eq-ok, Failure, api, ok, ok-injective, or_throw, order_cancelled, payment_exceeds_owed,
  payment_order_not_lent, throw_if, ◌>>◌,
}
use item_lending_management.Domain.{OrderState, OrderTotals, compute_order_totals}
use item_lending_management.Domain.Entry.{compute-paid, paid, with_entry}
use item_lending_management.Store.{
  AuditEntry, LedgerEntry, Order, Rows, entries_of_order, find_order, update_order,
}
use item_lending_management.Orders.State.{
  cache_order, find_order_or_throw, is_some, order_totals, recompute_order, to_order_state,
}
use item_lending_management.Ledger.{
  MoneyEntryInput, PaymentCreateBody, PaymentResult, append_entry, assert_payable, audit_entry,
  create_payment, dated, entry_row, is_lent, ledger_audit_entry, of_payment, order_found,
  payment_input, record_entry, stored_owed_before, stored_type, write_entry,
}
use item_lending_management.Ledger.Entries.{
  Recomputed, append_entry-Recomputed, order_totals-found, record_entry-eq, to_db_money-bind,
  to_order_state-cancelled,
}

le-of_ltb : (a b : ℕ) → ltb b a ≡ false → a ≤ b
le-of_ltb a b h = ground arith

pub or_throw-eq {ℓ} :
    {A : Type ℓ} (e : Failure) (m : Option A) {v : A} → or_throw e m ≡ ok v → m ≡ some v
or_throw-eq e none h = cc
or_throw-eq e (some v) h = cc

pub some-injective {ℓ} : {A : Type ℓ} {a b : A} → some a ≡ some b → a ≡ b
some-injective h = cc

pub throw_if-eq : (c : Bool) (e : Failure) {u : Unit {0}} → throw_if c e ≡ ok u → c ≡ false
throw_if-eq true e h = cc
throw_if-eq false e h = refl

audit_entry-eq :
    (row : LedgerEntry) (order_number : ℕ) (rows : Rows) {rows' : Rows}
    → audit_entry row order_number rows ≡ ok rows'
    → (audit : AuditEntry) × (rows' ≡ record rows { history = rows.history ++ audit ∷ [] })
unfolding audit_entry
audit_entry-eq row order_number rows h =
    let (audit, ha, h₁) = >>=-eq-ok (ledger_audit_entry row order_number) _ h in
    (audit, sym (ok-injective h₁))

Recomputed-history :
    (order_id : ℕ) (rows : Rows) (o : Order) (row : LedgerEntry) (t : OrderTotals) (rows' : Rows)
    (history : List AuditEntry)
    → Recomputed order_id rows o row t rows'
    → Recomputed order_id rows o row t (record rows' { history = history })
unfolding order_totals find_order_or_throw
Recomputed-history order_id rows o row t rows' history r = record {
  found = r.found;
  figures = r.figures;
  appended = r.appended;
  orders = r.orders;
}

assert_payable-eq :
    (order : Order) (order_id : ℕ) (body : PaymentCreateBody) {u : Unit {0}}
    → assert_payable order order_id body ≡ ok u
    → (is_some order.cancelled_at ≡ false)
      × (is_lent order.payment_type ≡ true)
      × (order.date ≤ body.date)
unfolding assert_payable
assert_payable-eq order order_id body h =
    let (u₂, h₂, k₂) =
      >>=-eq-ok
        (throw_if (is_some order.cancelled_at) (api (order_cancelled order_id))
          >> throw_if (not (is_lent order.payment_type)) (api payment_order_not_lent))
        _ h in
    let (u₀, h₀, h₁) =
      >>=-eq-ok (throw_if (is_some order.cancelled_at) (api (order_cancelled order_id))) _ h₂ in
    let a = throw_if-eq _ _ h₀ in
    let b = throw_if-eq _ _ h₁ in
    let c = throw_if-eq _ _ k₂ in (a, ground (arith, b), ground (arith, c))

-- The row that a payment adds.
abbrev pub payment_row : ℕ → PaymentCreateBody → ℕ → ℕ → ℕ → LedgerEntry
payment_row order_id body owed user_id id =
    entry_row (payment_input order_id body owed) body.amount (some owed) user_id id

-- What the writes of either operation come to.
pub write_entry-Recomputed :
    (input : MoneyEntryInput) (order_number user_id : ℕ) (rows : Rows) (o : Order) (s : OrderState)
    {rows' : Rows} {result : PaymentResult}
    → find_order input.order_id rows ≡ some o
    → to_order_state o (entries_of_order input.order_id rows.ledger_entries) ≡ ok s
    → write_entry input order_number user_id rows ≡ ok (rows', result)
    → (owed : Option ℕ) × (t : OrderTotals) × (0 < input.amount)
      × (stored_owed_before input.type ≡ ok owed)
      × (compute_order_totals (with_entry (stored_type input.type) input.amount s) ≡ ok t)
      × Recomputed input.order_id rows o
          (entry_row input input.amount owed user_id rows.next_entry_id)
          t
          rows'
      × (find_order input.order_id rows' ≡ some result.order)
unfolding write_entry order_found
write_entry-Recomputed input order_number user_id rows o s hf hs h =
    let ((rows₁, row), h₁, k₁) = >>=-eq-ok (record_entry input user_id rows) _ h in
    let ((rows₂, t), h₂, k₂) = >>=-eq-ok (recompute_order input.order_id true rows₁) _ k₁ in
    let (rows₃, h₃, k₃) = >>=-eq-ok (audit_entry row order_number rows₂) _ k₂ in
    let (detail, h₄, k₄) = >>=-eq-ok (order_found input.order_id rows₃) _ k₃ in
    let (owed, pos_amount, safe, ho, er, e₁) = record_entry-eq input user_id rows h₁ in
    let (audit, e₃) = audit_entry-eq row order_number rows₂ h₃ in
    let row₀ = entry_row input input.amount owed user_id rows.next_entry_id in
    let h₂' : recompute_order input.order_id true (append_entry row₀ rows) ≡ ok (rows₂, t) =
      ap (λ (x : Rows). recompute_order input.order_id true x)
        (sym (e₁ ∙ ap (λ (x : LedgerEntry). append_entry x rows) er))
      ∙ h₂ in
    let (ht, r) = append_entry-Recomputed input.order_id rows o row₀ s hf hs refl safe h₂' in
    let e = ok-injective k₄ in
    let same_rows = ap (λ (x : Rows × PaymentResult). x.0) e in
    let r' =
      Recomputed-history input.order_id rows o row₀ t rows₂ (rows₂.history ++ audit ∷ []) r in
    (
      owed,
      t,
      pos_amount,
      ho,
      ht,
      subst (Recomputed input.order_id rows o row₀ t) (sym e₃ ∙ same_rows) r',
      ap (find_order input.order_id) (sym same_rows)
          ∙ or_throw-eq _ _ h₄
          ∙ ap (λ (x : Rows × PaymentResult). some x.1.order) e,
    )

create_payment-parts :
    (order_id : ℕ) (body : PaymentCreateBody) (user_id : ℕ) (rows : Rows) {w : Rows × PaymentResult}
    → create_payment order_id body user_id rows ≡ ok w
    → (o : Order) × (s : OrderState) × (t : OrderTotals) × (find_order order_id rows ≡ some o)
      × ((is_some o.cancelled_at ≡ false) × (is_lent o.payment_type ≡ true) × (o.date ≤ body.date))
      × (to_order_state o (entries_of_order order_id rows.ledger_entries) ≡ ok s)
      × (compute_order_totals s ≡ ok t)
      × (body.amount ≤ t.owed)
      × (write_entry (payment_input order_id body t.owed) o.order_number user_id rows ≡ ok w)
unfolding create_payment order_found
create_payment-parts order_id body user_id rows h =
    let (o, h₁, k₁) = >>=-eq-ok (order_found order_id rows) _ h in
    let (u, h₂, k₂) = >>=-eq-ok (assert_payable o order_id body) _ k₁ in
    let (s, h₃, k₃) =
      >>=-eq-ok (to_order_state o (entries_of_order order_id rows.ledger_entries)) _ k₂ in
    let (t, h₄, k₄) = >>=-eq-ok (compute_order_totals s) _ k₃ in
    let (u', h₅, k₅) =
      >>=-eq-ok (throw_if (ltb t.owed body.amount) (api (payment_exceeds_owed t.owed body.amount)))
        _ k₄ in
    (
      o,
      s,
      t,
      or_throw-eq _ _ h₁,
      assert_payable-eq o order_id body h₂,
      h₃,
      h₄,
      le-of_ltb body.amount t.owed (throw_if-eq _ _ h₅),
      k₅,
    )

paid-owed :
    (amount : ℕ) (t : OrderTotals) → amount ≤ t.owed → (paid amount t).owed + amount ≡ t.owed
unfolding paid
paid-owed amount t h = omega arith

stored_owed_before-payment :
    (n : ℕ) {owed : Option ℕ} → stored_owed_before (of_payment n) ≡ ok owed → owed ≡ some n
stored_owed_before-payment n h = sym (ok-injective (to_db_money-bind n _ h))

abbrev pub Paid : ℕ → PaymentCreateBody → ℕ → Rows → Rows → PaymentResult → Type 0
Paid order_id body user_id rows rows' result =
    (o : Order) × (t : OrderTotals) × (find_order order_id rows ≡ some o)
    × (is_some o.cancelled_at ≡ false)
    × (is_lent o.payment_type ≡ true)
    × (o.date ≤ body.date)
    × (order_totals order_id rows ≡ ok t)
    × (0 < body.amount)
    × (body.amount ≤ t.owed)
    × (find_order order_id rows' ≡ some result.order)
    × (result.order ≡ cache_order true (paid body.amount t) o)
    × (result.order.owed + body.amount ≡ t.owed)
    × (result.order.version ≡ suc o.version)
    × (order_totals order_id rows' ≡ ok (paid body.amount t))
    × (rows'.ledger_entries
        ≡ rows.ledger_entries ++ payment_row order_id body t.owed user_id rows.next_entry_id ∷ [])
    × (rows'.orders ≡ update_order order_id (cache_order true (paid body.amount t)) rows.orders)

-- If a payment is recorded, the order was there, on credit, not cancelled and not dated after the
-- payment, its figures were computed, and the amount was positive and at most what was owed. After
-- it the ledger has one row more, with what was owed before; the figures of the order computed from
-- the ledger are the old ones with the payment taken off; the order's cache says the same, its
-- version is one higher, it is the answer's order, and no other order changed.
pub create_payment-effect :
    (order_id : ℕ) (body : PaymentCreateBody) (user_id : ℕ) (rows : Rows) {rows' : Rows}
    {result : PaymentResult}
    → create_payment order_id body user_id rows ≡ ok (rows', result)
    → Paid order_id body user_id rows rows' result
create_payment-effect order_id body user_id rows {rows'} {result} h =
    let (o, s, t, hf, (live, credit, dated), hs, ht, le, hw) =
      create_payment-parts order_id body user_id rows h in
    let (owed, t', positive, ho, ht', r, hr) =
      write_entry-Recomputed (payment_input order_id body t.owed) o.order_number user_id rows o s hf
        hs hw in
    let live' : s.cancelled ≡ false = to_order_state-cancelled o _ hs ∙ live in
    let same : t' ≡ paid body.amount t =
      ok-injective (sym ht' ∙ compute-paid s body.amount live' ht le) in
    let cached : result.order ≡ cache_order true (paid body.amount t) o =
      some-injective (sym hr ∙ r.found) ∙ ap (λ (x : OrderTotals). cache_order true x o) same in
    let same_owed = stored_owed_before-payment t.owed ho in
    (
      o,
      t,
      hf,
      live,
      credit,
      dated,
      order_totals-found order_id rows hf hs ht,
      positive,
      le,
      hr,
      cached,
      ap (λ (x : Order). x.owed + body.amount) cached ∙ paid-owed body.amount t le,
      ap (λ (x : Order). x.version) cached,
      r.figures ∙ ap (λ (x : OrderTotals). ok x) same,
      r.appended
          ∙ ap
              (λ (x : Option ℕ).
                rows.ledger_entries
                ++ entry_row (payment_input order_id body t.owed) body.amount x user_id
                    rows.next_entry_id
                  ∷ [])
              same_owed,
      r.orders
          ∙ ap (λ (x : OrderTotals). update_order order_id (cache_order true x) rows.orders) same,
    )
