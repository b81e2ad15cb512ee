-- ===== src/Ledger/Reversals.antt =====
-- What undoing a manual payment does, and that it is done once
-- (apps/api/src/modules/ledger/payments.service.ts).
use item_lending_management.Prelude.{
  Bool, Bool-cases, List, Option, Text, [], any, ap, arith, false, find, find-holds, inl, inr, none,
  not, refl, some, sym, true, ℕ, ◌&&◌, ◌++◌, ◌+◌, ◌==◌, ◌||◌, ◌∙◌, ◌∷◌, ◌≡◌,
}
use item_lending_management.Failure.{
  >>=-eq-ok, api, err, if-false, if-true, ledger_entry_already_reversed,
  ledger_entry_not_reversible, ok, ok-injective, throw_if,
}
use item_lending_management.Domain.{OrderTotals}
use item_lending_management.Domain.Entry.{unpaid-owed}
use item_lending_management.Store.{LedgerEntry, Order, Rows, entries_of_order, find_order}
use item_lending_management.Orders.State.{
  cache_order, is_some, order_totals, to_order_state, to_safe_money,
}
use item_lending_management.Ledger.{
  PaymentResult, entry_found, entry_row, is_manual, is_payment, is_reversed, reversal_input,
  reverse, write_entry,
}
use item_lending_management.Ledger.Entries.{find_order_or_throw-some, to_order_state-cancelled}
use item_lending_management.Ledger.Payments.{or_throw-eq, throw_if-eq, write_entry-Recomputed}

find-append {ℓ} :
    {A : Type ℓ} (p : A → Bool) (xs ys : List A) {a : A}
    → find p xs ≡ some a
    → find p (xs ++ ys) ≡ some a
find-append p [] ys h = cc
find-append p (x ∷ xs) ys h = elim (Bool-cases (p x)) [
  | inl e ↦ rw e (sym (if-true (p x) _ _ e) ∙ h)
  | inr e ↦ rw e (find-append p xs ys (sym (if-false (p x) _ _ e) ∙ h))
]

or_true : (b : Bool) → (b || true) ≡ true
or_true true = refl
or_true false = refl

not-false : (b : Bool) → not b ≡ false → b ≡ true
not-false true h = refl
not-false false h = cc

any-snoc {ℓ} :
    {A : Type ℓ} (p : A → Bool) (xs : List A) (x : A) → p x ≡ true → any p (xs ++ x ∷ []) ≡ true
any-snoc p [] x h = rw h refl
any-snoc p (y ∷ xs) x h = rw (any-snoc p xs x h) (or_true (p y))

entry_found-eq :
    (entry_id : ℕ) (rows : Rows) {e : LedgerEntry}
    → entry_found entry_id rows ≡ ok e
    → find (λ (x : LedgerEntry). x.id == entry_id) rows.ledger_entries ≡ some e
unfolding entry_found
entry_found-eq entry_id rows h = or_throw-eq _ _ h

to_safe_money-same : (n : ℕ) {m : ℕ} → to_safe_money n ≡ ok m → m ≡ n
unfolding to_safe_money
to_safe_money-same n h = ground arith

reverse-parts :
    (today entry_id : ℕ) (text : Option Text) (user_id : ℕ) (rows : Rows) (e : LedgerEntry)
    (o : Order) {w : Rows × PaymentResult}
    → entry_found entry_id rows ≡ ok e
    → find_order e.order_id rows ≡ some o
    → reverse today entry_id text user_id rows ≡ ok w
    → ((is_payment e.type && is_manual e.source) ≡ true)
      × (is_reversed entry_id rows.ledger_entries ≡ false)
      × (write_entry (reversal_input e e.amount today text) o.order_number user_id rows ≡ ok w)
unfolding reverse
reverse-parts today entry_id text user_id rows e o he hf h =
    let k₂ = rw (he, find_order_or_throw-some e.order_id rows hf) at h in
    let (u, h₃, k₃) =
      >>=-eq-ok
        (throw_if (not (is_payment e.type && is_manual e.source)) (api ledger_entry_not_reversible))
        _ k₂ in
    let (u', h₄, k₄) =
      >>=-eq-ok
        (throw_if (is_reversed entry_id rows.ledger_entries)
          (api (ledger_entry_already_reversed entry_id)))
        _ k₃ in
    let (amount, h₅, k₅) = >>=-eq-ok (to_safe_money e.amount) _ k₄ in
    (
      not-false _ (throw_if-eq _ _ h₃),
      throw_if-eq _ _ h₄,
      ap (λ (n : ℕ). write_entry (reversal_input e n today text) o.order_number user_id rows)
            (sym (to_safe_money-same e.amount h₅))
          ∙ k₅,
    )

reverse-again :
    (today entry_id : ℕ) (text : Option Text) (user_id : ℕ) (rows : Rows) (e : LedgerEntry)
    (o : Order)
    → find (λ (x : LedgerEntry). x.id == entry_id) rows.ledger_entries ≡ some e
    → find_order e.order_id rows ≡ some o
    → (is_payment e.type && is_manual e.source) ≡ true
    → is_reversed entry_id rows.ledger_entries ≡ true
    → reverse today entry_id text user_id rows ≡ err (api (ledger_entry_already_reversed entry_id))
unfolding reverse entry_found
reverse-again today entry_id text user_id rows e o he hf hk hr =
    rw (he, find_order_or_throw-some e.order_id rows hf, hk, hr) refl

abbrev pub Undone :
    ℕ → ℕ → Option Text → ℕ → Rows → LedgerEntry → Order → OrderTotals → Rows → Type 0
Undone today entry_id text user_id rows e o t rows' =
    (t' : OrderTotals) × ((is_payment e.type && is_manual e.source) ≡ true)
    × (is_reversed entry_id rows.ledger_entries ≡ false)
    × (order_totals e.order_id rows' ≡ ok t')
    × (t'.owed ≡ t.owed + e.amount)
    × (find_order e.order_id rows' ≡ some (cache_order true t' o))
    × ((cache_order true t' o).owed ≡ t.owed + e.amount)
    × (rows'.ledger_entries
        ≡ rows.ledger_entries
          ++ entry_row (reversal_input e e.amount today text) e.amount none user_id
              rows.next_entry_id
            ∷ [])
    × ((later : ℕ) (other : Option Text) (who : ℕ)
        → reverse later entry_id other who rows'
          ≡ err (api (ledger_entry_already_reversed entry_id)))

-- If a payment is undone, its order is not cancelled and the order's figures are computed before,
-- then the entry was a manual payment that no row reversed; after it the ledger has one row more,
-- which reverses it, the order owes the payment's amount more by the ledger and by its cache, and
-- every further attempt to undo the payment, whenever and whoever by, is refused as already done.
pub reverse-effect :
    (today entry_id : ℕ) (text : Option Text) (user_id : ℕ) (rows : Rows) (e : LedgerEntry)
    (o : Order) {t : OrderTotals} {rows' : Rows} {result : PaymentResult}
    → entry_found entry_id rows ≡ ok e
    → find_order e.order_id rows ≡ some o
    → is_some o.cancelled_at ≡ false
    → order_totals e.order_id rows ≡ ok t
    → reverse today entry_id text user_id rows ≡ ok (rows', result)
    → Undone today entry_id text user_id rows e o t rows'
unfolding order_totals
reverse-effect today entry_id text user_id rows e o {t} {rows'} {result} he hf live ht h =
    let (kind, fresh, hw) = reverse-parts today entry_id text user_id rows e o he hf h in
    let ht₁ = rw (find_order_or_throw-some e.order_id rows hf) at ht in
    let (s, hs, hc) =
      >>=-eq-ok (to_order_state o (entries_of_order e.order_id rows.ledger_entries)) _ ht₁ in
    let (owed, t', positive, ho, ht', r, hr) =
      write_entry-Recomputed (reversal_input e e.amount today text) o.order_number user_id rows o s
        hf hs hw in
    let none_owed : owed ≡ none = ok-injective (sym ho) in
    let appended : rows'.ledger_entries
        ≡ rows.ledger_entries
          ++ entry_row (reversal_input e e.amount today text) e.amount none user_id
              rows.next_entry_id
            ∷ [] =
      r.appended
      ∙ ap
          (λ (x : Option ℕ).
            rows.ledger_entries
            ++ entry_row (reversal_input e e.amount today text) e.amount x user_id
                rows.next_entry_id
              ∷ [])
          none_owed in
    let owed_more = unpaid-owed s e.amount (to_order_state-cancelled o _ hs ∙ live) hc ht' in
    let found = entry_found-eq entry_id rows he in
    let is_it = find-holds (λ (x : LedgerEntry). x.id == entry_id) rows.ledger_entries found in
    (
      t',
      kind,
      fresh,
      r.figures,
      owed_more,
      r.found,
      owed_more,
      appended,
      λ later other who.
          reverse-again later entry_id other who rows' e (cache_order true t' o)
            (ap (find (λ (x : LedgerEntry). x.id == entry_id)) appended
              ∙ find-append _ rows.ledger_entries _ found)
            r.found kind
            (ap (is_reversed entry_id) appended ∙ any-snoc _ rows.ledger_entries _ is_it),
    )
