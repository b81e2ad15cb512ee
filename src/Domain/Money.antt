-- ===== src/Domain/Money.antt =====
-- The money of `computeOrderTotals` and `returnMoney` (packages/shared/src/domain/ledger-math.ts).
use item_lending_management.Prelude.{
  List, [], arith, false, int_laws, pos, refl, sum_by, ℕ, ℤ, ◌+ℤ◌, ◌+◌, ◌↔◌, ◌∷◌, ◌≡◌, ◌⊎◌,
}
use item_lending_management.Failure.{ok}
use item_lending_management.Domain.Order.{
  LineTotals, OrderLineState, OrderState, OrderTotals, is_open, settled,
}
use item_lending_management.Domain.Totals.{
  active_return_lines, compute_order_totals, out_value_of, owed_of, return_money,
}
use item_lending_management.Domain.Lines.{Accounts, line_totals-Accounts, totals-Parts}

-- If the totals of an order that is not cancelled are computed, every order line has exactly one
-- line of totals, in order: its total is quantity times unit deposit, its returned figures are the
-- sums over the active (not reversed) return lines that name it, and whole returns, damaged returns
-- and pallets still out add up to its quantity.
pub compute-Accounts :
    (o : OrderState) {t : OrderTotals}
    → o.cancelled ≡ false
    → compute_order_totals o ≡ ok t
    → Accounts (active_return_lines o.returns) o.lines t.lines
compute-Accounts o live h =
    let p = totals-Parts o live h in line_totals-Accounts _ o.lines p.raw_ok p.lines_ok

owed_of-parts :
    (d : ℕ) (p : ℤ) (c : ℕ) (r : ℤ) {w : ℕ}
    → owed_of d p c r ≡ pos w
    → pos w +ℤ p +ℤ pos c ≡ pos d +ℤ r
unfolding owed_of
owed_of-parts d p c r h = rw (← h) (omega int_laws)

-- If the totals of an order that is not cancelled are computed, what is owed, plus the net payments,
-- plus what the active returns credit, is the deposit total plus the net refunds.
pub compute-balance :
    (o : OrderState) {t : OrderTotals}
    → o.cancelled ≡ false
    → compute_order_totals o ≡ ok t
    → pos t.owed +ℤ t.payments_net +ℤ pos t.credits_total ≡ pos t.deposit_total +ℤ t.refunds_net
compute-balance o {t} live h =
    let p = totals-Parts o live h in
    owed_of-parts t.deposit_total t.payments_net t.credits_total t.refunds_net p.owed_eq

out_value_of-zero :
    (ls : List OrderLineState) (ts : List LineTotals)
    → sum_by (λ (l : LineTotals). l.out_quantity) ts ≡ 0
    → out_value_of ls ts ≡ 0
unfolding out_value_of
out_value_of-zero [] ts h = refl
out_value_of-zero (l ∷ ls) [] h = refl
out_value_of-zero (l ∷ ls) (t ∷ ts) h =
    let e : t.out_quantity ≡ 0 = omega arith in
    rw e (omega (arith, out_value_of-zero ls ts (omega arith)))

-- If the totals of an order that is not cancelled are computed, its status is OPEN or SETTLED, and it
-- is SETTLED exactly when no pallet is out and nothing is owed; a settled order has no value out and
-- holds no money.
pub compute-settled :
    (o : OrderState) {t : OrderTotals}
    → o.cancelled ≡ false
    → compute_order_totals o ≡ ok t
    → ((t.status ≡ is_open) ⊎ (t.status ≡ settled))
      × ((t.status ≡ settled) ↔ ((t.out_quantity_total ≡ 0) × (t.owed ≡ 0)))
      × (t.status ≡ settled → (t.out_value ≡ 0) × (t.held ≡ 0))
compute-settled o {t} live h =
    let p = totals-Parts o live h in
    let s = p.status_eq in
    let v = p.value_eq in
    let z = out_value_of-zero o.lines t.lines in
    let q = p.out_eq in
    let e = p.held_eq in
    (
      ground (arith, s),
      (λ k. ground (arith, s), λ k. ground (arith, s)),
      λ k. ground (arith, s, v, z, q, e),
    )

-- What a return settles and what it pays out: the refund due and what was owed before net out, and
-- money is paid out only when nothing stays owed.
pub return_money_balance :
    (owed_before refund_due : ℕ)
    → let m = return_money owed_before refund_due in
      (m.cash_refund + owed_before ≡ m.owed_after + refund_due)
      × ((m.cash_refund ≡ 0) ⊎ (m.owed_after ≡ 0))
unfolding return_money
return_money_balance owed_before refund_due = ground arith
