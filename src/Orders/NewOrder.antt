-- ===== src/Orders/NewOrder.antt =====
-- The figures of an order just created (apps/api/src/modules/orders/orders.service.ts): its lines are
-- the priced ones, and its deposit is out on it.
use mathlib.Core.Path.{subst}
use item_lending_management.Prelude.{
  Bool-cases, List, [], ap, arith, false, inl, inr, map, refl, some, suc, sum_by, sym, ℕ, ◌*◌, ◌∙◌,
  ◌∷◌, ◌≡◌,
}
use item_lending_management.Failure.{
  >>=-eq-ok, if-false, if-true, ok, ok-injective, traverse, traverse-cons,
}
use item_lending_management.Domain.{
  LineTotals, OrderLineState, OrderState, OrderTotals, ReturnState, active_return_lines,
  assert_safe, compute_order_totals, out_value_of, raw_line,
}
use item_lending_management.Domain.Lines.{Accounts, totals-Parts}
use item_lending_management.Domain.Money.{compute-Accounts}
use item_lending_management.Store.{LedgerEntry, OrderLine, Rows, find_order}
use item_lending_management.Ledger.Entries.{find-update_order, recompute_order-eq}
use item_lending_management.Orders.State.{
  cache_line, cache_lines, cache_order, entry_state, line_changed, line_state, recompute_order,
  to_db_money, to_order_state, to_safe_money,
}
use item_lending_management.Orders.Rules.{PricedLine}
use item_lending_management.Orders.Pricing.{OrderCreateBody}
use item_lending_management.Orders.Create.{new_line, new_lines, new_order}
use item_lending_management.Orders.Cleared.{recompute-state}

-- A stored line as it was priced.
abbrev pub line_price : OrderLine → PricedLine
line_price l = record {
  item_id = l.item_id;
  quantity = l.quantity;
  unit_deposit = l.unit_deposit;
  line_total = l.line_total;
}

abbrev pub price_of : PricedLine → ℕ
price_of l = l.quantity * l.unit_deposit

to_db_money-eq : (n : ℕ) {m : ℕ} → to_db_money n ≡ ok m → n ≡ m
unfolding to_db_money
to_db_money-eq n h = ground arith

new_line-line_price :
    (id : ℕ) (line : PricedLine) {l : OrderLine} → new_line id line ≡ ok l → line_price l ≡ line
unfolding new_line
new_line-line_price id line h =
    let (u, hu, h₁) = >>=-eq-ok (to_db_money line.unit_deposit) _ h in
    let (t, ht, h₂) = >>=-eq-ok (to_db_money line.line_total) _ h₁ in
    let a = to_db_money-eq line.unit_deposit hu in
    let b = to_db_money-eq line.line_total ht in
    sym (ap line_price (ok-injective h₂)) ∙ rw (← a, ← b) refl

pub new_lines-line_price :
    (next : ℕ) (lines : List PricedLine) {stored : List OrderLine}
    → new_lines next lines ≡ ok stored
    → map line_price stored ≡ lines
unfolding new_lines
new_lines-line_price next [] h = sym (ap (map line_price) (ok-injective h))
new_lines-line_price next (line ∷ lines) h =
    let (l, hl, h₁) = >>=-eq-ok (new_line next line) _ h in
    let (ls, hls, h₂) = >>=-eq-ok (new_lines (suc next) lines) _ h₁ in
    sym (ap (map line_price) (ok-injective h₂))
    ∙ rw (new_line-line_price next line hl, new_lines-line_price (suc next) lines hls) refl

cache_line-line_price :
    (l : OrderLine) (t : LineTotals) → line_price (cache_line l t) ≡ line_price l
cache_line-line_price l t = elim (Bool-cases (line_changed l t)) [
  | inl e ↦ ap line_price (if-true (line_changed l t) _ _ e)
  | inr e ↦ ap line_price (if-false (line_changed l t) _ _ e)
]

pub cache_lines-line_price :
    (ls : List OrderLine) (ts : List LineTotals)
    → map line_price (cache_lines ls ts) ≡ map line_price ls
cache_lines-line_price [] ts = refl
cache_lines-line_price (l ∷ ls) [] = refl
cache_lines-line_price (l ∷ ls) (t ∷ ts) =
    rw (cache_line-line_price l t, cache_lines-line_price ls ts) refl

abbrev state_price : OrderLineState → ℕ
state_price l = l.quantity * l.unit_deposit

line_state-price :
    (l : OrderLine) {s : OrderLineState}
    → line_state l ≡ ok s
    → state_price s ≡ price_of (line_price l)
unfolding line_state to_safe_money
line_state-price l h = ground arith

lines_state-price :
    (ls : List OrderLine) {ss : List OrderLineState}
    → traverse line_state ls ≡ ok ss
    → sum_by state_price ss ≡ sum_by price_of (map line_price ls)
lines_state-price [] h = sym (ap (sum_by state_price) (ok-injective h))
lines_state-price (l ∷ ls) h =
    let (s, ss, e, es, q) = traverse-cons line_state l ls h in
    ap (sum_by state_price) q ∙ omega (arith, line_state-price l e, lines_state-price ls es)

raw_line-price : (s : OrderLineState) {r : ℕ × ℕ} → raw_line s ≡ ok r → r.1 ≡ state_price s
unfolding raw_line assert_safe
raw_line-price s h = ground arith

raw_lines-price :
    (ss : List OrderLineState) {raw : List (ℕ × ℕ)}
    → traverse raw_line ss ≡ ok raw
    → sum_by (λ (r : ℕ × ℕ). r.1) raw ≡ sum_by state_price ss
raw_lines-price [] h = sym (ap (sum_by (λ (r : ℕ × ℕ). r.1)) (ok-injective h))
raw_lines-price (s ∷ ss) h =
    let (r, raw, e, es, q) = traverse-cons raw_line s ss h in
    ap (sum_by (λ (r : ℕ × ℕ). r.1)) q ∙ omega (arith, raw_line-price s e, raw_lines-price ss es)

-- With nothing returned, all of every line is out.
all_out :
    (ss : List OrderLineState) (ts : List LineTotals)
    → Accounts [] ss ts
    → out_value_of ss ts ≡ sum_by state_price ss
unfolding out_value_of
all_out [] [] a = refl
all_out [] (t ∷ ts) a = absurd a
all_out (s ∷ ss) [] a = absurd a
all_out (s ∷ ss) (t ∷ ts) a =
    let (_, _, accepted, damaged, whole, rest) = a in
    let out : t.out_quantity ≡ s.quantity = omega arith in rw (out, all_out ss ts rest) refl

-- The figures of an order with nothing returned.
fresh-figures :
    (o : OrderState) (ls : List OrderLine) {t : OrderTotals}
    → o.cancelled ≡ false
    → o.returns ≡ []
    → traverse line_state ls ≡ ok o.lines
    → compute_order_totals o ≡ ok t
    → (t.deposit_total ≡ sum_by price_of (map line_price ls))
      × (t.out_value ≡ sum_by price_of (map line_price ls))
fresh-figures o ls {t} live none_back hl h =
    let p = totals-Parts o live h in
    let lines = lines_state-price ls hl in
    let a : Accounts [] o.lines t.lines =
      subst (λ (rs : List ReturnState). Accounts (active_return_lines rs) o.lines t.lines) none_back
        (compute-Accounts o live h) in
    (
      p.deposit_eq ∙ (raw_lines-price o.lines p.raw_ok ∙ lines),
      p.value_eq ∙ (all_out o.lines t.lines a ∙ lines),
    )

-- The state of a new order.
new_order-state :
    (id number : ℕ) (body : OrderCreateBody) (ls : List OrderLine) (entries : List LedgerEntry)
    {s : OrderState}
    → to_order_state (new_order id number body ls) entries ≡ ok s
    → (s.cancelled ≡ false) × (s.returns ≡ []) × (traverse line_state ls ≡ ok s.lines)
unfolding to_order_state
new_order-state id number body ls entries h =
    let (ss, hs, h₁) = >>=-eq-ok (traverse line_state ls) _ h in
    let (es, he, h₂) = >>=-eq-ok (traverse entry_state entries) _ h₁ in
    let e = ok-injective h₂ in
    (
      sym (ap (λ (x : OrderState). x.cancelled) e),
      sym (ap (λ (x : OrderState). x.returns) e),
      hs ∙ ap (λ (x : OrderState). ok x.lines) e,
    )

-- What the recompute of a new order leaves.
pub recompute-new_order :
    (id number : ℕ) (body : OrderCreateBody) (ls : List OrderLine) (rows : Rows) {rows' : Rows}
    {t : OrderTotals}
    → find_order id rows ≡ some (new_order id number body ls)
    → recompute_order id false rows ≡ ok (rows', t)
    → (find_order id rows' ≡ some (cache_order false t (new_order id number body ls)))
      × (t.deposit_total ≡ sum_by price_of (map line_price ls))
      × (t.out_value ≡ sum_by price_of (map line_price ls))
      × (rows'.ledger_entries ≡ rows.ledger_entries)
recompute-new_order id number body ls rows {rows'} {t} found h =
    let o = new_order id number body ls in
    let (s, hs) = recompute-state id false rows found h in
    let (ht, e) = recompute_order-eq id false rows h found hs in
    let (live, none_back, hl) = new_order-state id number body ls _ hs in
    let (deposit, value) = fresh-figures s ls live none_back hl ht in
    (
      ap (find_order id) e
          ∙ find-update_order id (cache_order false t) rows.orders (λ x. refl) found,
      deposit,
      value,
      ap (λ (r : Rows). r.ledger_entries) e,
    )
