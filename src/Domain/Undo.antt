-- ===== src/Domain/Undo.antt =====
-- `orderStateWithoutReturn` of packages/shared/src/domain/ledger-math.ts: the order as it would stand
-- had one of its returns been reversed.
use item_lending_management.Prelude.{
  Bool-cases, List, [], arith, false, get_elem?, if◌then◌else◌, inl, inr, int_laws, ltb, not,
  parts_of_eq, pos, refl, some, suc, sum, sym, true, zero, ℕ, ◌++◌, ◌+ℤ◌, ◌+◌, ◌∙◌, ◌∷◌, ◌≡◌,
}
use item_lending_management.Failure.{Result, ok, ok-injective, traverse, traverse-cons}
use item_lending_management.Domain.Order.{
  LedgerEntryState, LedgerEntryType, OrderState, OrderTotals, ReturnState, payment,
  payment_reversal, refund, refund_reversal,
}
use item_lending_management.Domain.Totals.{
  active_returns, amount_of, compute_order_totals, net, return_credit, same_type,
  unit_deposit_by_line,
}
use item_lending_management.Domain.Lines.{totals-Parts}
use item_lending_management.Domain.Money.{compute-balance}

-- `returns.map((pr, at) => (at === index ? { ...pr, reversed: true } : pr))`
unfoldable pub mark_reversed : ℕ → List ReturnState → List ReturnState
mark_reversed i [] = []
mark_reversed zero (r ∷ rs) = record r { reversed = true } ∷ rs
mark_reversed (suc i) (r ∷ rs) = r ∷ mark_reversed i rs

unfoldable pub order_state_without_return : OrderState → ℕ → ℕ → OrderState
order_state_without_return state return_index standing_refund = record state {
  returns = mark_reversed return_index state.returns;
  ledger =
      if ltb 0 standing_refund
      then state.ledger ++ record { type = refund_reversal; amount = standing_refund } ∷ []
      else state.ledger;
}

pub amount_of-append :
    (ty : LedgerEntryType) (xs ys : List LedgerEntryState)
    → amount_of ty (xs ++ ys) ≡ amount_of ty xs + amount_of ty ys
amount_of-append ty [] ys = omega arith
amount_of-append ty (x ∷ xs) ys = elim (Bool-cases (same_type x.type ty)) [
  | inl e ↦ rw e (omega (arith, amount_of-append ty xs ys))
  | inr e ↦ rw e (amount_of-append ty xs ys)
]

-- One return less among the active ones, and the rest in their order.
mark_reversed-credits :
    (f : ReturnState → Result ℕ) (i : ℕ) (rs : List ReturnState) {r : ReturnState} {cs : List ℕ}
    → get_elem? rs i ≡ some r
    → r.reversed ≡ false
    → traverse f (active_returns rs) ≡ ok cs
    → (c : ℕ) × (cs' : List ℕ) × (f r ≡ ok c)
      × (traverse f (active_returns (mark_reversed i rs)) ≡ ok cs')
      × (sum cs' + c ≡ sum cs)
unfolding mark_reversed
mark_reversed-credits f i [] e live h = cc
mark_reversed-credits f zero (x ∷ rs) {r} e live h =
    let p : not x.reversed ≡ true = cc in
    let (z, zs, hz, hs, eq) = traverse-cons f x (active_returns rs) (rw p at h) in
    (z, zs, cc, hs, rw eq (omega arith))
mark_reversed-credits f (suc i) (x ∷ rs) e live h = elim (Bool-cases (not x.reversed)) [
  | inl p ↦
      let (z, zs, hz, hs, eq) = traverse-cons f x (active_returns rs) (rw p at h) in
      let (c, cs', hc, hcs, s) = mark_reversed-credits f i rs e live hs in
      (c, z ∷ cs', hc, rw (p, hz, hcs), rw eq (omega (arith, s)))
  | inr p ↦
      let (c, cs', hc, hcs, s) = mark_reversed-credits f i rs e live (rw p at h) in
      (c, cs', hc, rw p hcs, s)
]

ledger-without :
    (l : List LedgerEntryState) (s : ℕ)
    → let l' = if ltb 0 s then l ++ record { type = refund_reversal; amount = s } ∷ [] else l in
      (net l' refund refund_reversal +ℤ pos s ≡ net l refund refund_reversal)
      × (net l' payment payment_reversal ≡ net l payment payment_reversal)
unfolding net
ledger-without l s = elim (Bool-cases (ltb 0 s)) [
  | inl e ↦
      rw
        (
          e,
          amount_of-append refund,
          amount_of-append refund_reversal,
          amount_of-append payment,
          amount_of-append payment_reversal,
        )
        (omega int_laws, omega int_laws)
  | inr e ↦ let z : s ≡ 0 = ground arith in rw (e, z) (omega int_laws, refl)
]

-- What a return counts for in the formulas: if an order is not cancelled and the totals of it before
-- and after are both computed, setting an active return aside, with the refund that it paid out, adds
-- back to what is owed exactly the return's credit less that refund, takes its credit off the
-- credits, and leaves the deposit total and the net payments as they are.
pub order_state_without_return-owed :
    (o : OrderState) (i s : ℕ) {r : ReturnState} {t t' : OrderTotals}
    → o.cancelled ≡ false
    → get_elem? o.returns i ≡ some r
    → r.reversed ≡ false
    → compute_order_totals o ≡ ok t
    → compute_order_totals (order_state_without_return o i s) ≡ ok t'
    → (c : ℕ) × (return_credit (unit_deposit_by_line o.lines) r ≡ ok c)
      × (t'.owed + s ≡ t.owed + c)
      × (t'.credits_total + c ≡ t.credits_total)
      × (t'.deposit_total ≡ t.deposit_total)
      × (t'.payments_net ≡ t.payments_net)
unfolding order_state_without_return
order_state_without_return-owed o i s {r} {t} {t'} live at act h h' =
    let o' = order_state_without_return o i s in
    let p = totals-Parts o live h in
    let q = totals-Parts o' live h' in
    let f = return_credit (unit_deposit_by_line o.lines) in
    let (c, cs, hc, hcs, e) = mark_reversed-credits f i o.returns at act p.credits_ok in
    let same : q.credits ≡ cs = ok-injective (sym q.credits_ok ∙ hcs) in
    let raws : q.raw ≡ p.raw = ok-injective (sym q.raw_ok ∙ p.raw_ok) in
    let (ref, pay) = ledger-without o.ledger s in
    let credits : t'.credits_total + c ≡ t.credits_total =
      rw (q.credits_eq, same, p.credits_eq) e in
    let deposits : t'.deposit_total ≡ t.deposit_total =
      rw (q.deposit_eq, raws, p.deposit_eq) refl in
    let payments : t'.payments_net ≡ t.payments_net = rw (q.payments_eq, p.payments_eq) pay in
    let refunds : t'.refunds_net +ℤ pos s ≡ t.refunds_net = rw (q.refunds_eq, p.refunds_eq) ref in
    let before = compute-balance o live h in
    let after = compute-balance o' live h' in
    let owed : t'.owed + s ≡ t.owed + c = omega (
      int_laws,
      parts_of_eq before,
      parts_of_eq after,
      parts_of_eq refunds,
      parts_of_eq payments,
      credits,
      deposits,
    ) in
    (c, hc, owed, credits, deposits, payments)
