-- ===== src/Orders/Cleared.antt =====
-- What the writes of a cancelling leave of the order and of its ledger.
use mathlib.Core.Path.{subst}
use mathlib.Core.List.{append-nil}
use item_lending_management.Prelude.{
  Bool, List, Option, [], ap, arith, find, none, pos, refl, some, suc, sym, true, ℕ, ◌++◌, ◌==◌,
  ◌∙◌, ◌∷◌, ◌≡◌,
}
use item_lending_management.Failure.{>>=-eq-ok, if-true, ok, ok-injective, traverse}
use item_lending_management.Domain.{
  OrderState, OrderTotals, compute_order_totals, is_cancelled, payment_reversal, raw_line,
}
use item_lending_management.Store.{LedgerEntry, Order, Rows, entries_of_order, find_order}
use item_lending_management.Orders.State.{
  cache_order, is_some, recompute_order, to_order_state, to_safe_money,
}
use item_lending_management.Orders.Rules.{standing_automatic_payment}
use item_lending_management.Orders.Cancel.{
  CancelRows, audit_reversal, cancel_reversal, cancelled_mark, mark_cancelled, reverse_automatic,
  stock_back, write_cancel,
}
use item_lending_management.Ledger.{audit_entry, ledger_audit_entry, record_entry}
use item_lending_management.Ledger.Entries.{
  find-update_order, find_order_or_throw-some, recompute_order-eq, record_entry-eq,
  to_order_state-cancelled,
}
use item_lending_management.PalletCredits.{reverse_for_order}

-- The figures of a cancelled order: it owes nothing and has nothing out.
pub record IsCleared (o : Order) : Type 0 where
  pub status : o.status ≡ is_cancelled
  pub owed : o.owed ≡ 0
  pub out_quantity_total : o.out_quantity_total ≡ 0
  pub out_value : o.out_value ≡ 0
  pub held : o.held ≡ 0
  pub payments_net : o.payments_net ≡ pos 0
  pub marked : is_some o.cancelled_at ≡ true

compute-cancelled :
    (s : OrderState) {t : OrderTotals}
    → s.cancelled ≡ true
    → compute_order_totals s ≡ ok t
    → (t.status ≡ is_cancelled)
      × (t.owed ≡ 0)
      × (t.out_quantity_total ≡ 0)
      × (t.out_value ≡ 0)
      × (t.held ≡ 0)
      × (t.payments_net ≡ pos 0)
unfolding compute_order_totals
compute-cancelled s {t} dead h =
    let (raw, e, h') = >>=-eq-ok (traverse raw_line s.lines) _ h in
    let q = ok-injective (sym (if-true s.cancelled _ _ dead) ∙ h') in
    (
      sym (ap (λ (x : OrderTotals). x.status) q),
      sym (ap (λ (x : OrderTotals). x.owed) q),
      sym (ap (λ (x : OrderTotals). x.out_quantity_total) q),
      sym (ap (λ (x : OrderTotals). x.out_value) q),
      sym (ap (λ (x : OrderTotals). x.held) q),
      sym (ap (λ (x : OrderTotals). x.payments_net) q),
    )

pub recompute-state :
    (order_id : ℕ) (bump : Bool) (rows : Rows) {w : Rows × OrderTotals} {o : Order}
    → find_order order_id rows ≡ some o
    → recompute_order order_id bump rows ≡ ok w
    → (s : OrderState) × (to_order_state o (entries_of_order order_id rows.ledger_entries) ≡ ok s)
unfolding recompute_order
recompute-state order_id bump rows {o = o} found h =
    let h₁ = rw (find_order_or_throw-some order_id rows found) at h in
    let (s, hs, _) =
      >>=-eq-ok (to_order_state o (entries_of_order order_id rows.ledger_entries)) _ h₁ in
    (s, hs)

-- A recompute of an order that is marked leaves it cleared.
recompute-IsCleared :
    (order_id : ℕ) (bump : Bool) (rows : Rows) {rows' : Rows} {t : OrderTotals} {o : Order}
    → find_order order_id rows ≡ some o
    → is_some o.cancelled_at ≡ true
    → recompute_order order_id bump rows ≡ ok (rows', t)
    → (find_order order_id rows' ≡ some (cache_order bump t o))
      × IsCleared (cache_order bump t o)
      × (rows'.ledger_entries ≡ rows.ledger_entries)
recompute-IsCleared order_id bump rows {rows'} {t} {o} found dead h =
    let (s, hs) = recompute-state order_id bump rows found h in
    let (ht, e) = recompute_order-eq order_id bump rows h found hs in
    let mark : s.cancelled ≡ true =
      to_order_state-cancelled o (entries_of_order order_id rows.ledger_entries) hs ∙ dead in
    let (status, owed, out_total, value, kept, payments) = compute-cancelled s mark ht in
    (
      ap (find_order order_id) e
          ∙ find-update_order order_id (cache_order bump t) rows.orders (λ x. refl) found,
      record {
        status = status;
        owed = owed;
        out_quantity_total = out_total;
        out_value = value;
        held = kept;
        payments_net = payments;
        marked = dead;
      },
      ap (λ (r : Rows). r.ledger_entries) e,
    )

-- The marked order.
find-mark_cancelled :
    (now order_id : ℕ) (rows : Rows) {o : Order}
    → find_order order_id rows ≡ some o
    → find_order order_id (mark_cancelled now order_id rows) ≡ some (cancelled_mark now o)
unfolding mark_cancelled
find-mark_cancelled now order_id rows found =
    find-update_order order_id (cancelled_mark now) rows.orders (λ x. refl) found

-- The row that reverses the standing automatic payment, if there is one.
pub data ReversalOf (order_id : ℕ) : Option LedgerEntry → List LedgerEntry → Type 0 where
  no_payment : ReversalOf order_id none []
  one_reversal :
      {entry row : LedgerEntry}
      → row.order_id ≡ order_id
      → row.type ≡ payment_reversal
      → row.amount ≡ entry.amount
      → row.reverses_entry_id ≡ some entry.id
      → ReversalOf order_id (some entry) (row ∷ [])

to_safe_money-same : (n : ℕ) {m : ℕ} → to_safe_money n ≡ ok m → m ≡ n
unfolding to_safe_money
to_safe_money-same n h = ground arith

reverse_automatic-ReversalOf :
    (order_id today : ℕ) (standing : Option LedgerEntry) (user_id : ℕ) (rows : Rows)
    {written : Rows × Option LedgerEntry}
    → reverse_automatic order_id today standing user_id rows ≡ ok written
    → (new : List LedgerEntry) × ReversalOf order_id standing new
      × (written.0.orders ≡ rows.orders)
      × (written.0.ledger_entries ≡ rows.ledger_entries ++ new)
unfolding reverse_automatic
reverse_automatic-ReversalOf order_id today none user_id rows h =
    let e = ok-injective h in
    (
      [],
      no_payment,
      sym (ap (λ (w : Rows × Option LedgerEntry). w.0.orders) e),
      sym (ap (λ (w : Rows × Option LedgerEntry). w.0.ledger_entries) e)
          ∙ sym (append-nil rows.ledger_entries),
    )
reverse_automatic-ReversalOf order_id today (some entry) user_id rows h =
    let (amount, ha, h₁) = >>=-eq-ok (to_safe_money entry.amount) _ h in
    let input = cancel_reversal order_id today amount entry in
    let (recorded, hr, h₂) = >>=-eq-ok (record_entry input user_id rows) _ h₁ in
    let (owed, _, _, _, row, after) = record_entry-eq input user_id rows hr in
    let e = ok-injective h₂ in
    (
      recorded.1 ∷ [],
      one_reversal (ap (λ (r : LedgerEntry). r.order_id) row) (ap (λ (r : LedgerEntry). r.type) row)
          (ap (λ (r : LedgerEntry). r.amount) row ∙ to_safe_money-same entry.amount ha)
          (ap (λ (r : LedgerEntry). r.reverses_entry_id) row),
      sym (ap (λ (w : Rows × Option LedgerEntry). w.0.orders) e)
          ∙ ap (λ (r : Rows). r.orders) after,
      sym (ap (λ (w : Rows × Option LedgerEntry). w.0.ledger_entries) e)
          ∙ ap (λ (r : Rows). r.ledger_entries) after,
    )

audit_reversal-keeps :
    (reversal : Option LedgerEntry) (order_number : ℕ) (rows : Rows) {rows' : Rows}
    → audit_reversal reversal order_number rows ≡ ok rows'
    → (rows'.orders ≡ rows.orders) × (rows'.ledger_entries ≡ rows.ledger_entries)
unfolding audit_reversal audit_entry
audit_reversal-keeps none order_number rows h =
    let e = ok-injective h in
    (sym (ap (λ (r : Rows). r.orders) e), sym (ap (λ (r : Rows). r.ledger_entries) e))
audit_reversal-keeps (some reversal) order_number rows h =
    let (audit, _, h₁) = >>=-eq-ok (ledger_audit_entry reversal order_number) _ h in
    let e = ok-injective h₁ in
    (sym (ap (λ (r : Rows). r.orders) e), sym (ap (λ (r : Rows). r.ledger_entries) e))

-- The order as it is left, and the ledger with its reversal.
pub record Cleared (now : ℕ) (order : Order) (before after : Rows) (standing : Option LedgerEntry)
    : Type 0 where
  pub left : Order
  pub new : List LedgerEntry
  pub found : find_order order.id after ≡ some left
  pub cleared : IsCleared left
  pub version : left.version ≡ suc order.version
  pub marked_at : left.cancelled_at ≡ some now
  pub reversal : ReversalOf order.id standing new
  pub appended : after.ledger_entries ≡ before.ledger_entries ++ new

-- The three writes of the order and its ledger, in their order.
writes-Cleared :
    (now today : ℕ) (order : Order) (user_id : ℕ) (standing : Option LedgerEntry)
    (rows reversed recomputed audited : Rows) (reversal : Option LedgerEntry) (t : OrderTotals)
    → find_order order.id rows ≡ some order
    → reverse_automatic order.id today standing user_id rows ≡ ok (reversed, reversal)
    → recompute_order order.id true (mark_cancelled now order.id reversed) ≡ ok (recomputed, t)
    → audit_reversal reversal order.order_number recomputed ≡ ok audited
    → Cleared now order rows audited standing
unfolding mark_cancelled
writes-Cleared now today order user_id standing rows reversed recomputed audited reversal t found h
      k a =
    let (new, is_reversal, same_orders, appended) =
      reverse_automatic-ReversalOf order.id today standing user_id rows h in
    let found' : find_order order.id reversed ≡ some order =
      ap (find (λ (o : Order). o.id == order.id)) same_orders ∙ found in
    let (there, cleared, ledger) =
      recompute-IsCleared order.id true (mark_cancelled now order.id reversed)
        (find-mark_cancelled now order.id reversed found') refl k in
    let (kept_orders, kept_ledger) =
      audit_reversal-keeps reversal order.order_number recomputed a in
    record {
      left = cache_order true t (cancelled_mark now order);
      new = new;
      found = ap (find (λ (o : Order). o.id == order.id)) kept_orders ∙ there;
      cleared = cleared;
      version = refl;
      marked_at = refl;
      reversal = is_reversal;
      appended = kept_ledger ∙ (ledger ∙ appended);
    }

pub write_cancel-Cleared :
    (now today : ℕ) (order : Order) (user_id : ℕ) (state : CancelRows) {after : CancelRows}
    → find_order order.id state.rows ≡ some order
    → write_cancel now today order user_id state ≡ ok after
    → Cleared now order state.rows after.rows
        (standing_automatic_payment (entries_of_order order.id state.rows.ledger_entries))
unfolding write_cancel
write_cancel-Cleared now today order user_id state {after} found h =
    let standing =
      standing_automatic_payment (entries_of_order order.id state.rows.ledger_entries) in
    let (came_back, _, h₁) = >>=-eq-ok (stock_back order user_id state.credit_rows) _ h in
    let (credit_rows, _, h₂) =
      >>=-eq-ok (reverse_for_order order.id order.customer_id today user_id came_back) _ h₁ in
    let (written, r, h₃) =
      >>=-eq-ok (reverse_automatic order.id today standing user_id state.rows) _ h₂ in
    let (computed, c, h₄) =
      >>=-eq-ok (recompute_order order.id true (mark_cancelled now order.id written.0)) _ h₃ in
    let (audited, a, h₅) =
      >>=-eq-ok (audit_reversal written.1 order.order_number computed.0) _ h₄ in
    subst (λ (s : CancelRows). Cleared now order state.rows s.rows standing) (ok-injective h₅)
      (writes-Cleared now today order user_id standing state.rows written.0 computed.0 audited
        written.1 computed.1 found r c a)
