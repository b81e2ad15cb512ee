-- ===== src/Reconciliation/Clean.antt =====
-- An order that was just recomputed is one that the reconciliation finds nothing wrong with.
use mathlib.Core.Path.{subst}
use item_lending_management.Prelude.{
  ==-refl, ==_iff, Bool, Bool-cases, List, Option-cases, [], ap, arith, false, find-holds, inl, inr,
  leb, length, map, neg_part, not, pos_part, refl, some, suc, sym, true, ℕ, ℤ, ◌&&◌, ◌+◌, ◌==◌, ◌∙◌,
  ◌∷◌, ◌≡◌,
}
use item_lending_management.Failure.{
  >>=-eq-ok, Result, if-false, if-true, ok, ok-injective, traverse, traverse-cons,
}
use item_lending_management.Domain.{
  LineTotals, OrderLineState, OrderState, OrderStatus, OrderTotals, ReturnLineState,
  active_return_lines, compute_order_totals, is_cancelled, is_open, line_totals, max_safe, raw_line,
  settled, unreturned,
}
use item_lending_management.Store.{
  LedgerEntry, Order, OrderLine, Rows, entries_of_order, find_order,
}
use item_lending_management.Orders.State.{
  cache_line, cache_lines, cache_order, db_totals, entry_state, find_order_or_throw, line_changed,
  line_state, recompute_order, return_state, to_db_money, to_db_money_ℤ, to_order_state,
  to_safe_money,
}
use item_lending_management.Reconciliation.{
  Entity, Field, OrderFields, check_figures, check_line, check_lines, check_order,
  check_order_fields, compare_number, compare_signed, compare_status, compensation_field,
  credits_total_field, deposit_total_field, held_field, on_totals, order_entity, order_fields,
  order_line_entity, out_quantity_field, out_quantity_total_field, out_value_field, owed_field,
  payments_net_field, refunds_net_field, returned_accepted_field, returned_damaged_field,
  to_safe_money_ℤ,
}
use item_lending_management.Domain.Lines.{line_totals-cons, totals-Parts}
use item_lending_management.Ledger.Entries.{
  db_totals-eq, find-update_order, to_order_state-cache_order,
}

compare_number_nil :
    (entity : Entity) (id : ℕ) (field : Field) (n : ℕ) → compare_number entity id field n n ≡ []
compare_number_nil entity id field n = rw (==-refl n) refl

compare_signed_nil : (id : ℕ) (field : Field) (n : ℤ) → compare_signed id field n n ≡ []
compare_signed_nil id field n = rw (==-refl (pos_part n + neg_part n)) refl

compare_status_nil : (id : ℕ) (status : OrderStatus) → compare_status id status status ≡ []
compare_status_nil id is_open = refl
compare_status_nil id settled = refl
compare_status_nil id is_cancelled = refl

-- The figures that `toDbMoney` let through are read back as they are.
to_safe_money-stored : (n : ℕ) {m : ℕ} → to_db_money n ≡ ok m → to_safe_money n ≡ ok n
unfolding to_db_money to_safe_money
to_safe_money-stored n h = ground arith

to_safe_money_ℤ-stored : (n : ℤ) {m : ℤ} → to_db_money_ℤ n ≡ ok m → to_safe_money_ℤ n ≡ ok n
unfolding to_db_money_ℤ to_safe_money_ℤ
to_safe_money_ℤ-stored n h =
    elim (Bool-cases (not (leb (pos_part n) max_safe && leb (neg_part n) max_safe))) [
      | inl e ↦ absurd (let c = rw e at h in cc)
      | inr e ↦ rw e refl
    ]

-- The cached figures of an order.
abbrev cached_fields : OrderTotals → OrderFields
cached_fields t = record {
  status = t.status;
  deposit_total = t.deposit_total;
  payments_net = t.payments_net;
  credits_total = t.credits_total;
  refunds_net = t.refunds_net;
  owed = t.owed;
  out_quantity_total = t.out_quantity_total;
  out_value = t.out_value;
  held = t.held;
  compensation = t.compensation;
}

order_fields-cache_order :
    (bump : Bool) (t : OrderTotals) (o : Order) {s : OrderTotals}
    → db_totals t ≡ ok s
    → order_fields (cache_order bump t o) ≡ ok (cached_fields t)
unfolding db_totals order_fields
order_fields-cache_order bump t o h =
    let (d, hd, h₁) = >>=-eq-ok (to_db_money t.deposit_total) _ h in
    let (p, hp, h₂) = >>=-eq-ok (to_db_money_ℤ t.payments_net) _ h₁ in
    let (c, hc, h₃) = >>=-eq-ok (to_db_money t.credits_total) _ h₂ in
    let (r, hr, h₄) = >>=-eq-ok (to_db_money_ℤ t.refunds_net) _ h₃ in
    let (w, hw, h₅) = >>=-eq-ok (to_db_money t.owed) _ h₄ in
    let (v, hv, h₆) = >>=-eq-ok (to_db_money t.out_value) _ h₅ in
    let (k, hk, h₇) = >>=-eq-ok (to_db_money t.held) _ h₆ in
    let (m, hm, h₈) = >>=-eq-ok (to_db_money_ℤ t.compensation) _ h₇ in
    rw
      (
        to_safe_money-stored t.deposit_total hd,
        to_safe_money_ℤ-stored t.payments_net hp,
        to_safe_money-stored t.credits_total hc,
        to_safe_money_ℤ-stored t.refunds_net hr,
        to_safe_money-stored t.owed hw,
        to_safe_money-stored t.out_value hv,
        to_safe_money-stored t.held hk,
        to_safe_money_ℤ-stored t.compensation hm,
      )
      refl

check_order_fields-cached :
    (id : ℕ) (t : OrderTotals) → check_order_fields id (cached_fields t) t ≡ []
unfolding check_order_fields
check_order_fields-cached id t =
    rw
      (
        compare_status_nil id t.status,
        compare_number_nil order_entity id deposit_total_field t.deposit_total,
        compare_signed_nil id payments_net_field t.payments_net,
        compare_number_nil order_entity id credits_total_field t.credits_total,
        compare_signed_nil id refunds_net_field t.refunds_net,
        compare_number_nil order_entity id owed_field t.owed,
        compare_number_nil order_entity id out_quantity_total_field t.out_quantity_total,
        compare_number_nil order_entity id out_value_field t.out_value,
        compare_number_nil order_entity id held_field t.held,
        compare_signed_nil id compensation_field t.compensation,
      )
      refl

line_unchanged :
    (l : OrderLine) (t : LineTotals)
    → line_changed l t ≡ false
    → (l.returned_accepted ≡ t.returned_accepted)
      × (l.returned_damaged ≡ t.returned_damaged)
      × (l.out_quantity ≡ t.out_quantity)
line_unchanged l t h = ground arith

cache_line-same : (l : OrderLine) (t : LineTotals) → line_changed l t ≡ false → cache_line l t ≡ l
cache_line-same l t h = if-false (line_changed l t) _ _ h

check_line_nil :
    (l : OrderLine) (t : LineTotals)
    → l.returned_accepted ≡ t.returned_accepted
    → l.returned_damaged ≡ t.returned_damaged
    → l.out_quantity ≡ t.out_quantity
    → check_line l t ≡ []
unfolding check_line
check_line_nil l t a d q =
    rw
      (
        a,
        d,
        q,
        compare_number_nil order_line_entity l.id returned_accepted_field t.returned_accepted,
        compare_number_nil order_line_entity l.id returned_damaged_field t.returned_damaged,
        compare_number_nil order_line_entity l.id out_quantity_field t.out_quantity,
      )
      refl

check_line-cache_line : (l : OrderLine) (t : LineTotals) → check_line (cache_line l t) t ≡ []
check_line-cache_line l t = elim (Bool-cases (line_changed l t)) [
  | inl e ↦
      ap (λ x. check_line x t) (if-true (line_changed l t) _ _ e)
      ∙ check_line_nil
          (record l {
            returned_accepted = t.returned_accepted;
            returned_damaged = t.returned_damaged;
            out_quantity = t.out_quantity;
          })
          t refl refl refl
  | inr e ↦
      let (a, d, q) = line_unchanged l t e in
      ap (λ x. check_line x t) (cache_line-same l t e) ∙ check_line_nil l t a d q
]

check_lines-cache_lines :
    (ls : List OrderLine) (ts : List LineTotals)
    → length ls ≡ length ts
    → check_lines (cache_lines ls ts) ts ≡ ok []
unfolding check_lines
check_lines-cache_lines [] ts h = refl
check_lines-cache_lines (l ∷ ls) [] h = absurd (omega arith)
check_lines-cache_lines (l ∷ ls) (t ∷ ts) h =
    rw (check_lines-cache_lines ls ts (omega arith), check_line-cache_line l t) refl

-- The formulas give one element for each line.
length-line_totals :
    (rls : List ReturnLineState) (ls : List OrderLineState) {raw : List (ℕ × ℕ)}
    {ts : List LineTotals}
    → traverse raw_line ls ≡ ok raw
    → line_totals rls ls raw ≡ ok ts
    → length ls ≡ length ts
unfolding line_totals
length-line_totals rls [] hr h = ap length (ok-injective h)
length-line_totals rls (l ∷ ls) {raw} hr h =
    let (r, rs, e, es, er) = traverse-cons raw_line l ls hr in
    let (z, zs, f, fs, et) = line_totals-cons rls l ls r rs (rw er at h) in
    ap suc (length-line_totals rls ls es fs) ∙ sym (ap length et)

length-traverse {ℓ κ} :
    {A : Type ℓ} {B : Type κ} (f : A → Result B) (xs : List A) {ys : List B}
    → traverse f xs ≡ ok ys
    → length xs ≡ length ys
length-traverse f [] h = ap length (ok-injective h)
length-traverse f (x ∷ xs) h =
    let (z, zs, e, es, eq) = traverse-cons f x xs h in
    ap suc (length-traverse f xs es) ∙ sym (ap length eq)

length-map {ℓ κ} :
    {A : Type ℓ} {B : Type κ} (f : A → B) (xs : List A) → length (map f xs) ≡ length xs
length-map f [] = refl
length-map f (x ∷ xs) = ap suc (length-map f xs)

length-cancelled :
    (s : OrderState) {t : OrderTotals}
    → s.cancelled ≡ true
    → compute_order_totals s ≡ ok t
    → length s.lines ≡ length t.lines
unfolding compute_order_totals
length-cancelled s dead h =
    let (raw, e, h') = >>=-eq-ok (traverse raw_line s.lines) _ h in
    let q = ok-injective (sym (if-true s.cancelled _ _ dead) ∙ h') in
    length-traverse raw_line s.lines e
    ∙ (sym (length-map unreturned raw) ∙ ap (λ (x : OrderTotals). length x.lines) q)

length-compute_order_totals :
    (s : OrderState) {t : OrderTotals}
    → compute_order_totals s ≡ ok t
    → length s.lines ≡ length t.lines
length-compute_order_totals s {t} h = elim (Bool-cases s.cancelled) [
  | inl dead ↦ length-cancelled s dead h
  | inr live ↦
      let p = totals-Parts s live h in
      length-line_totals (active_return_lines s.returns) s.lines p.raw_ok p.lines_ok
]

length-to_order_state :
    (o : Order) (es : List LedgerEntry) {s : OrderState}
    → to_order_state o es ≡ ok s
    → length o.lines ≡ length s.lines
unfolding to_order_state
length-to_order_state o es h =
    let (ls, hl, h₁) = >>=-eq-ok (traverse line_state o.lines) _ h in
    let (rs, hr, h₂) = >>=-eq-ok (traverse return_state o.returns) _ h₁ in
    let (en, he, h₃) = >>=-eq-ok (traverse entry_state es) _ h₂ in
    length-traverse line_state o.lines hl
    ∙ ap (λ (x : OrderState). length x.lines) (ok-injective h₃)

check_figures-cache_order :
    (bump : Bool) (t : OrderTotals) (o : Order) {s : OrderTotals}
    → db_totals t ≡ ok s
    → length o.lines ≡ length t.lines
    → check_figures (cache_order bump t o) t ≡ ok []
unfolding check_figures
check_figures-cache_order bump t o h l =
    rw
      (
        order_fields-cache_order bump t o h,
        check_lines-cache_lines o.lines t.lines l,
        check_order_fields-cached o.id t,
      )
      refl

check_order-cache_order :
    (bump : Bool) (t : OrderTotals) (o : Order) (ledger : List LedgerEntry) {s : OrderState}
    {stored : OrderTotals}
    → to_order_state o (entries_of_order o.id ledger) ≡ ok s
    → compute_order_totals s ≡ ok t
    → db_totals t ≡ ok stored
    → check_order ledger (cache_order bump t o) ≡ ok []
unfolding check_order on_totals
check_order-cache_order bump t o ledger hs ht hd =
    let lines =
      length-to_order_state o (entries_of_order o.id ledger) hs
      ∙ length-compute_order_totals _ ht in
    rw
      (
        to_order_state-cache_order bump t o (entries_of_order o.id ledger),
        hs,
        ht,
        check_figures-cache_order bump t o hd lines,
      )
      refl

find_order_or_throw-eq :
    (id : ℕ) (rows : Rows) {o : Order}
    → find_order_or_throw id rows ≡ ok o
    → find_order id rows ≡ some o
unfolding find_order_or_throw
find_order_or_throw-eq id rows {o} h = elim (Option-cases (find_order id rows)) [
  | inl e ↦ absurd (let c = rw e at h in cc)
  | inr (p, e) ↦ e ∙ (let c : ok p ≡ ok o = rw e at h in ap some (ok-injective c))
]

-- After a successful recompute the order is there, and the reconciliation finds nothing wrong with
-- its figures, its status or its lines.
pub recompute_order-clean :
    (order_id : ℕ) (bump : Bool) (rows : Rows) {rows' : Rows} {t : OrderTotals}
    → recompute_order order_id bump rows ≡ ok (rows', t)
    → (o : Order) × (find_order order_id rows' ≡ some o)
      × (check_order rows'.ledger_entries o ≡ ok [])
unfolding recompute_order
recompute_order-clean order_id bump rows {rows'} {t} h =
    let (o, ho, h₁) = >>=-eq-ok (find_order_or_throw order_id rows) _ h in
    let found = find_order_or_throw-eq order_id rows ho in
    let same : o.id ≡ order_id =
      (==_iff o.id order_id).0 (find-holds (λ (x : Order). x.id == order_id) rows.orders found) in
    let (s, hs, h₂) =
      >>=-eq-ok (to_order_state o (entries_of_order order_id rows.ledger_entries)) _ h₁ in
    let (totals, ht, h₃) = >>=-eq-ok (compute_order_totals s) _ h₂ in
    let (stored, hd, h₄) = >>=-eq-ok (db_totals totals) _ h₃ in
    let rows_eq = ap (λ (x : Rows × OrderTotals). x.0) (ok-injective h₄) in
    let hs' =
      subst (λ i. to_order_state o (entries_of_order i rows.ledger_entries) ≡ ok s) (sym same) hs in
    let clean = check_order-cache_order bump totals o rows.ledger_entries hs' ht hd in
    (
      cache_order bump stored o,
      sym (ap (find_order order_id) rows_eq)
          ∙ find-update_order order_id (cache_order bump stored) rows.orders (λ x. refl) found,
      subst (λ (r : Rows). check_order r.ledger_entries (cache_order bump stored o) ≡ ok []) rows_eq
          (subst (λ x. check_order rows.ledger_entries (cache_order bump x o) ≡ ok [])
            (db_totals-eq totals hd) clean),
    )
