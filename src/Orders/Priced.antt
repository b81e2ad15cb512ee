-- ===== src/Orders/Priced.antt =====
-- What `priceLines` of apps/api/src/modules/orders/orders.service.ts prices an order at.
use mathlib.Core.Path.{subst}
use item_lending_management.Prelude.{
  Bool-cases, List, Option, [], arith, inl, inr, keep, ltb, map, neg, none, pos, refl, some, sum_by,
  sym, ℕ, ◌∙◌, ◌∷◌, ◌≡◌,
}
use item_lending_management.Failure.{>>=-eq-ok, ok, ok-injective, traverse, traverse-cons}
use item_lending_management.Domain.{net}
use item_lending_management.Stock.{assert_available}
use item_lending_management.Versioning.{safe_product}
use item_lending_management.Orders.State.{to_safe_money}
use item_lending_management.Orders.Rules.{
  PricedLine, RequestedLine, assert_item_orderable, deposit_total_of, price_line,
}
use item_lending_management.Orders.Pricing.{
  CreateRows, OrderableItem, find_orderable, price_found, price_lines,
}
use item_lending_management.Orders.NewOrder.{price_of}

price_line-price :
    (line : RequestedLine) (default_deposit : ℕ) {l : PricedLine}
    → price_line line default_deposit ≡ ok l
    → l.line_total ≡ price_of l
unfolding price_line safe_product
price_line-price line default_deposit h = ground arith

price_found-price :
    (item : Option OrderableItem) (line : RequestedLine) {l : PricedLine}
    → price_found item line ≡ ok l
    → l.line_total ≡ price_of l
unfolding price_found
price_found-price none line h = cc
price_found-price (some item) line h =
    let (_, _, h₁) = >>=-eq-ok (assert_item_orderable (some item.archived_at) line.item_id) _ h in
    let (deposit_price, _, h₂) = >>=-eq-ok (to_safe_money item.deposit_price) _ h₁ in
    price_line-price line deposit_price h₂

abbrev IsPriced : List PricedLine → Type 0
IsPriced lines = sum_by (λ (l : PricedLine). l.line_total) lines ≡ sum_by price_of lines

traverse-IsPriced :
    (find_row : RequestedLine → Option OrderableItem) (input : List RequestedLine)
    {lines : List PricedLine}
    → traverse (λ (l : RequestedLine). price_found (find_row l) l) input ≡ ok lines
    → IsPriced lines
traverse-IsPriced find_row [] h = subst IsPriced (ok-injective h) refl
traverse-IsPriced find_row (r ∷ input) h =
    let (l, ls, e, es, q) =
      traverse-cons (λ (l : RequestedLine). price_found (find_row l) l) r input h in
    subst IsPriced (sym q)
      (omega (arith, price_found-price (find_row r) r e, traverse-IsPriced find_row input es))

deposit_total_of-eq :
    (lines : List PricedLine) {total : ℕ}
    → deposit_total_of lines ≡ ok total
    → total ≡ sum_by (λ (l : PricedLine). l.line_total) lines
unfolding deposit_total_of
deposit_total_of-eq lines h = ground arith

-- The lines of nothing add nothing.
keep-price :
    (lines : List PricedLine)
    → sum_by price_of (keep (λ (l : PricedLine). ltb 0 l.quantity) lines) ≡ sum_by price_of lines
keep-price [] = refl
keep-price (l ∷ lines) = elim (Bool-cases (ltb 0 l.quantity)) [
  | inl e ↦ rw e (omega (arith, keep-price lines))
  | inr e ↦
      let none_out : l.quantity ≡ 0 = ground arith in
      rw (e, none_out) (omega (arith, keep-price lines))
]

-- The deposit is the value of the lines that are written.
pub price_lines-price :
    (state : CreateRows) (input : List RequestedLine) (handed : List (ℕ × ℕ))
    {priced : List PricedLine × ℕ}
    → price_lines state input handed ≡ ok priced
    → priced.1 ≡ sum_by price_of (keep (λ (l : PricedLine). ltb 0 l.quantity) priced.0)
unfolding price_lines
price_lines-price state input handed h =
    let (lines, e, h₁) =
      >>=-eq-ok
        (traverse (λ (l : RequestedLine). price_found (find_orderable l.item_id state.items) l)
          input)
        _ h in
    let (net, _, h₂) =
      >>=-eq-ok
        (assert_available state.credit_rows.stock.items
          (map (λ ((item_id, quantity) : ℕ × ℕ). (item_id, neg (pos quantity))) handed))
        _ h₁ in
    let (total, d, h₃) = >>=-eq-ok (deposit_total_of lines) _ h₂ in
    let sums = deposit_total_of-eq lines d in
    let prices = traverse-IsPriced (λ l. find_orderable l.item_id state.items) input e in
    subst
      (λ (p : List PricedLine × ℕ).
        p.1 ≡ sum_by price_of (keep (λ (l : PricedLine). ltb 0 l.quantity) p.0))
      (ok-injective h₃) (sums ∙ (prices ∙ sym (keep-price lines)))
