-- ===== src/Domain/Entry.antt =====
-- One more ledger entry on an order: what it does to the formulas of
-- packages/shared/src/domain/ledger-math.ts. Every writer of the money ledger goes by these.
use item_lending_management.Prelude.{
  Bool, Bool-cases, List, [], ap, arith, false, inl, inr, int_laws, keep, parts_of_eq, pos, refl,
  sum, sum_by, sum_ℤ, sym, ℕ, ℤ, ◌++◌, ◌+ℤ◌, ◌+◌, ◌-ℤ◌, ◌-◌, ◌∙◌, ◌∷◌, ◌≡◌, ◌≤◌,
}
use item_lending_management.Failure.{ok, ok-injective, traverse}
use item_lending_management.Domain.Order.{
  LedgerEntryState, LedgerEntryType, LineTotals, OrderState, OrderTotals, payment, payment_reversal,
  refund, refund_reversal,
}
use item_lending_management.Domain.Totals.{
  active_return_lines, active_returns, assert_safe, assert_safe_ℤ, compensation_of,
  compute_order_totals, line_totals, live_totals, max_safe, net, out_value_of, owed_of, raw_line,
  return_credit, status_of, unit_deposit_by_line,
}
use item_lending_management.Domain.Lines.{Parts, totals-Parts}
use item_lending_management.Domain.Undo.{amount_of-append}

-- The totals of a live order from their parts.
totals_from :
    (o : OrderState) (t : OrderTotals) (raw : List (ℕ × ℕ)) (credits : List ℕ) (comps : List ℤ)
    → traverse raw_line o.lines ≡ ok raw
    → o.cancelled ≡ false
    → line_totals (active_return_lines o.returns) o.lines raw ≡ ok t.lines
    → traverse (return_credit (unit_deposit_by_line o.lines)) (active_returns o.returns)
      ≡ ok credits
    → traverse (compensation_of (unit_deposit_by_line o.lines)) (active_return_lines o.returns)
      ≡ ok comps
    → assert_safe_ℤ (
        owed_of
          (sum_by (λ (l : ℕ × ℕ). l.1) raw)
          (net o.ledger payment payment_reversal)
          (sum credits)
          (net o.ledger refund refund_reversal))
      ≡ ok (pos t.owed)
    → assert_safe (out_value_of o.lines t.lines) ≡ ok t.out_value
    → assert_safe_ℤ (sum_ℤ comps) ≡ ok t.compensation
    → compute_order_totals o
      ≡ ok (record {
        lines = t.lines;
        deposit_total = sum_by (λ (l : ℕ × ℕ). l.1) raw;
        payments_net = net o.ledger payment payment_reversal;
        credits_total = sum credits;
        refunds_net = net o.ledger refund refund_reversal;
        owed = t.owed;
        out_quantity_total = sum_by (λ (l : LineTotals). l.out_quantity) t.lines;
        out_value = t.out_value;
        held = t.out_value - t.owed;
        compensation = t.compensation;
        status = status_of (sum_by (λ (l : LineTotals). l.out_quantity) t.lines) t.owed;
      })
unfolding compute_order_totals live_totals
totals_from o t raw credits comps e₀ live e₁ e₂ e₃ e₄ e₅ e₆ = rw (e₀, live, e₁, e₂, e₄, e₅, e₃, e₆)

pub keep-append {ℓ} :
    {A : Type ℓ} (p : A → Bool) (xs ys : List A) → keep p (xs ++ ys) ≡ keep p xs ++ keep p ys
keep-append p [] ys = refl
keep-append p (x ∷ xs) ys =
    rw (keep-append p xs ys) (elim (Bool-cases (p x)) [ inl e ↦ rw e refl | inr e ↦ rw e refl ])

-- The order with one more row of money.
unfoldable pub with_entry : LedgerEntryType → ℕ → OrderState → OrderState
with_entry type amount o = record {
  cancelled = o.cancelled;
  lines = o.lines;
  returns = o.returns;
  ledger = o.ledger ++ record { type = type; amount = amount } ∷ [];
}

-- The figures after a payment of an order with these figures.
unfoldable pub paid : ℕ → OrderTotals → OrderTotals
paid amount t = record {
  lines = t.lines;
  deposit_total = t.deposit_total;
  payments_net = t.payments_net +ℤ pos amount;
  credits_total = t.credits_total;
  refunds_net = t.refunds_net;
  owed = t.owed - amount;
  out_quantity_total = t.out_quantity_total;
  out_value = t.out_value;
  held = t.out_value - (t.owed - amount);
  compensation = t.compensation;
  status = status_of t.out_quantity_total (t.owed - amount);
}

payments-append :
    (ledger : List LedgerEntryState) (amount : ℕ)
    → net (ledger ++ record { type = payment; amount = amount } ∷ []) payment payment_reversal
      ≡ net ledger payment payment_reversal +ℤ pos amount
unfolding net
payments-append ledger amount =
    rw (amount_of-append payment ledger _, amount_of-append payment_reversal ledger _)
      (omega int_laws)

payments-append_refunds :
    (ledger : List LedgerEntryState) (amount : ℕ)
    → net (ledger ++ record { type = payment; amount = amount } ∷ []) refund refund_reversal
      ≡ net ledger refund refund_reversal
unfolding net
payments-append_refunds ledger amount =
    rw (amount_of-append refund ledger _, amount_of-append refund_reversal ledger _)
      (omega int_laws)

owed_of-paid :
    (d : ℕ) (p : ℤ) (c : ℕ) (r : ℤ) (amount : ℕ) {w : ℕ}
    → owed_of d p c r ≡ pos w
    → amount ≤ w
    → owed_of d (p +ℤ pos amount) c r ≡ pos (w - amount)
unfolding owed_of
owed_of-paid d p c r amount {w} h le = omega (int_laws, parts_of_eq h)

-- The figures after a payment was undone.
unfoldable pub unpaid : ℕ → OrderTotals → OrderTotals
unpaid amount t = record {
  lines = t.lines;
  deposit_total = t.deposit_total;
  payments_net = t.payments_net -ℤ pos amount;
  credits_total = t.credits_total;
  refunds_net = t.refunds_net;
  owed = t.owed + amount;
  out_quantity_total = t.out_quantity_total;
  out_value = t.out_value;
  held = t.out_value - (t.owed + amount);
  compensation = t.compensation;
  status = status_of t.out_quantity_total (t.owed + amount);
}

reversals-append :
    (ledger : List LedgerEntryState) (amount : ℕ)
    → net
        (ledger ++ record { type = payment_reversal; amount = amount } ∷ [])
        payment
        payment_reversal
      ≡ net ledger payment payment_reversal -ℤ pos amount
unfolding net
reversals-append ledger amount =
    rw (amount_of-append payment ledger _, amount_of-append payment_reversal ledger _)
      (omega int_laws)

reversals-append_refunds :
    (ledger : List LedgerEntryState) (amount : ℕ)
    → net
        (ledger ++ record { type = payment_reversal; amount = amount } ∷ [])
        refund
        refund_reversal
      ≡ net ledger refund refund_reversal
unfolding net
reversals-append_refunds ledger amount =
    rw (amount_of-append refund ledger _, amount_of-append refund_reversal ledger _)
      (omega int_laws)

owed_of-unpaid :
    (d : ℕ) (p : ℤ) (c : ℕ) (r : ℤ) (amount : ℕ) {w : ℕ}
    → owed_of d p c r ≡ pos w
    → owed_of d (p -ℤ pos amount) c r ≡ pos (w + amount)
unfolding owed_of
owed_of-unpaid d p c r amount {w} h = omega (int_laws, parts_of_eq h)

safe-pos : (n : ℕ) → n ≤ max_safe → assert_safe_ℤ (pos n) ≡ ok (pos n)
unfolding assert_safe_ℤ
safe-pos n h = ground arith

safe-bound : (n : ℕ) → assert_safe_ℤ (pos n) ≡ ok (pos n) → n ≤ max_safe
unfolding assert_safe_ℤ
safe-bound n h = ground arith

pub owed-bound : (o : OrderState) {t : OrderTotals} → Parts o t → t.owed ≤ max_safe
owed-bound o {t} p = safe-bound t.owed (ap assert_safe_ℤ (sym p.owed_eq) ∙ p.owed_safe)

-- If the totals of an order that is not cancelled are computed, a payment of at most what is owed
-- leaves an order whose totals are computed too, and they are the old ones with the payment taken
-- off what is owed: lines, deposit, credits, refunds and compensation stay, and the money held and
-- the status follow.
pub compute-paid :
    (o : OrderState) (amount : ℕ) {t : OrderTotals}
    → o.cancelled ≡ false
    → compute_order_totals o ≡ ok t
    → amount ≤ t.owed
    → compute_order_totals (with_entry payment amount o) ≡ ok (paid amount t)
unfolding with_entry paid
compute-paid o amount {t} live h le =
    let p = totals-Parts o live h in
    let e =
      owed_of-paid t.deposit_total t.payments_net t.credits_total t.refunds_net amount p.owed_eq
        le in
    let q =
      totals_from (with_entry payment amount o) (paid amount t) p.raw p.credits p.compensations
        p.raw_ok live p.lines_ok p.credits_ok p.compensations_ok
        (rw
          (
            payments-append o.ledger amount,
            payments-append_refunds o.ledger amount,
            ← p.payments_eq,
            ← p.refunds_eq,
            ← p.deposit_eq,
            ← p.credits_eq,
            e,
          )
          (safe-pos (t.owed - amount) (let b = owed-bound o p in omega arith)))
        p.value_safe p.compensation_safe in
    q
    ∙ rw
        (
          payments-append o.ledger amount,
          payments-append_refunds o.ledger amount,
          ← p.payments_eq,
          ← p.refunds_eq,
          ← p.deposit_eq,
          ← p.credits_eq,
          ← p.out_eq,
        )
        refl

-- If the totals of an order that is not cancelled are computed, undoing a payment of an amount that
-- keeps what is owed within the safe integers leaves an order whose totals are computed too, and
-- they are the old ones with the amount owed again.
pub compute-unpaid :
    (o : OrderState) (amount : ℕ) {t : OrderTotals}
    → o.cancelled ≡ false
    → compute_order_totals o ≡ ok t
    → t.owed + amount ≤ max_safe
    → compute_order_totals (with_entry payment_reversal amount o) ≡ ok (unpaid amount t)
unfolding with_entry unpaid
compute-unpaid o amount {t} live h le =
    let p = totals-Parts o live h in
    let e =
      owed_of-unpaid t.deposit_total t.payments_net t.credits_total t.refunds_net amount
        p.owed_eq in
    let q =
      totals_from (with_entry payment_reversal amount o) (unpaid amount t) p.raw p.credits
        p.compensations p.raw_ok live p.lines_ok p.credits_ok p.compensations_ok
        (rw
          (
            reversals-append o.ledger amount,
            reversals-append_refunds o.ledger amount,
            ← p.payments_eq,
            ← p.refunds_eq,
            ← p.deposit_eq,
            ← p.credits_eq,
            e,
          )
          (safe-pos (t.owed + amount) le))
        p.value_safe p.compensation_safe in
    q
    ∙ rw
        (
          reversals-append o.ledger amount,
          reversals-append_refunds o.ledger amount,
          ← p.payments_eq,
          ← p.refunds_eq,
          ← p.deposit_eq,
          ← p.credits_eq,
          ← p.out_eq,
        )
        refl

-- If the totals of an order that is not cancelled are computed, and those of the order with a
-- payment undone too, the second order owes the amount more.
pub unpaid-owed :
    (o : OrderState) (amount : ℕ) {t t' : OrderTotals}
    → o.cancelled ≡ false
    → compute_order_totals o ≡ ok t
    → compute_order_totals (with_entry payment_reversal amount o) ≡ ok t'
    → t'.owed ≡ t.owed + amount
unfolding with_entry
unpaid-owed o amount {t} {t'} live h h' =
    let p = totals-Parts o live h in
    let q = totals-Parts (with_entry payment_reversal amount o) live h' in
    let e =
      owed_of-unpaid t.deposit_total t.payments_net t.credits_total t.refunds_net amount
        p.owed_eq in
    let raw : q.raw ≡ p.raw = ok-injective (sym q.raw_ok ∙ p.raw_ok) in
    let credits : q.credits ≡ p.credits = ok-injective (sym q.credits_ok ∙ p.credits_ok) in
    let d : t'.deposit_total ≡ t.deposit_total =
      q.deposit_eq ∙ ap (sum_by (λ (l : ℕ × ℕ). l.1)) raw ∙ sym p.deposit_eq in
    let c : t'.credits_total ≡ t.credits_total = q.credits_eq ∙ ap sum credits ∙ sym p.credits_eq in
    let n : t'.payments_net ≡ t.payments_net -ℤ pos amount =
      q.payments_eq
      ∙ reversals-append o.ledger amount
      ∙ ap (λ (x : ℤ). x -ℤ pos amount) (sym p.payments_eq) in
    let r : t'.refunds_net ≡ t.refunds_net =
      q.refunds_eq ∙ reversals-append_refunds o.ledger amount ∙ sym p.refunds_eq in
    let z : pos t'.owed ≡ pos (t.owed + amount) = sym q.owed_eq ∙ rw (d, c, n, r) e in cc
