-- ===== src/Domain/Lines.antt =====
-- The lines of `computeOrderTotals` (packages/shared/src/domain/ledger-math.ts): what each order
-- line's figures are, and the parts of a successful run by which the other proofs go.
use mathlib.Core.Path.{subst}
use item_lending_management.Prelude.{
  List, [], ap, arith, false, negsuc, pos, refl, sum, sum_by, sum_ℤ, sym, ℕ, ℤ, ◌*◌, ◌+◌, ◌-◌, ◌∙◌,
  ◌∷◌, ◌≡◌,
}
use item_lending_management.Failure.{>>=-eq-ok, if-false, ok, ok-injective, traverse, traverse-cons}
use item_lending_management.Domain.Order.{
  LineTotals, OrderLineState, OrderState, OrderTotals, ReturnLineState, payment, payment_reversal,
  refund, refund_reversal,
}
use item_lending_management.Domain.Totals.{
  active_return_lines, active_returns, assert_safe, assert_safe_ℤ, compensation_of,
  compute_order_totals, line_totals, line_totals_of, live_totals, net, out_value_of,
  owed_at_least_zero, owed_of, raw_line, return_credit, returned_accepted_of, returned_damaged_of,
  status_of, unit_deposit_by_line,
}

-- Each line's figures belong to that line, and its pallets are all accounted for: returned whole,
-- returned damaged, or still out.
abbrev pub Accounts : List ReturnLineState → List OrderLineState → List LineTotals → Type 0
Accounts rls [] [] = Unit
Accounts rls [] (t ∷ ts) = ⊥
Accounts rls (l ∷ ls) [] = ⊥
Accounts rls (l ∷ ls) (t ∷ ts) =
    (t.id ≡ l.id)
    × (t.line_total ≡ l.quantity * l.unit_deposit)
    × (t.returned_accepted ≡ returned_accepted_of l.id rls)
    × (t.returned_damaged ≡ returned_damaged_of l.id rls)
    × (t.returned_accepted + t.returned_damaged + t.out_quantity ≡ l.quantity)
    × Accounts rls ls ts

-- What a run that returns totals for an order that is not cancelled went through.
pub record Parts (o : OrderState) (t : OrderTotals) : Type 0 where
  pub raw : List (ℕ × ℕ)
  pub credits : List ℕ
  pub compensations : List ℤ
  pub raw_ok : traverse raw_line o.lines ≡ ok raw
  pub lines_ok : line_totals (active_return_lines o.returns) o.lines raw ≡ ok t.lines
  pub credits_ok :
      traverse (return_credit (unit_deposit_by_line o.lines)) (active_returns o.returns)
      ≡ ok credits
  pub compensations_ok :
      traverse (compensation_of (unit_deposit_by_line o.lines)) (active_return_lines o.returns)
      ≡ ok compensations
  pub deposit_eq : t.deposit_total ≡ sum_by (λ (l : ℕ × ℕ). l.1) raw
  pub payments_eq : t.payments_net ≡ net o.ledger payment payment_reversal
  pub refunds_eq : t.refunds_net ≡ net o.ledger refund refund_reversal
  pub credits_eq : t.credits_total ≡ sum credits
  pub owed_eq : owed_of t.deposit_total t.payments_net t.credits_total t.refunds_net ≡ pos t.owed
  pub out_eq : t.out_quantity_total ≡ sum_by (λ (l : LineTotals). l.out_quantity) t.lines
  pub value_eq : t.out_value ≡ out_value_of o.lines t.lines
  pub compensation_eq : t.compensation ≡ sum_ℤ compensations
  pub held_eq : t.held ≡ t.out_value - t.owed
  pub owed_safe :
      assert_safe_ℤ (owed_of t.deposit_total t.payments_net t.credits_total t.refunds_net)
      ≡ ok (pos t.owed)
  pub value_safe : assert_safe (out_value_of o.lines t.lines) ≡ ok t.out_value
  pub compensation_safe : assert_safe_ℤ (sum_ℤ compensations) ≡ ok t.compensation
  pub status_eq : t.status ≡ status_of t.out_quantity_total t.owed

assert_safe-eq : (n : ℕ) {m : ℕ} → assert_safe n ≡ ok m → n ≡ m
unfolding assert_safe
assert_safe-eq n h = ground arith

assert_safe_ℤ-eq : (n : ℤ) {m : ℤ} → assert_safe_ℤ n ≡ ok m → n ≡ m
unfolding assert_safe_ℤ
assert_safe_ℤ-eq n h = ground arith

owed_at_least_zero-eq : (n : ℤ) {m : ℕ} → owed_at_least_zero n ≡ ok m → n ≡ pos m
owed_at_least_zero-eq (pos n) h = cc
owed_at_least_zero-eq (negsuc n) h = cc

live-Parts :
    (o : OrderState) (raw : List (ℕ × ℕ)) {t : OrderTotals}
    → traverse raw_line o.lines ≡ ok raw
    → live_totals o raw (sum_by (λ (l : ℕ × ℕ). l.1) raw) ≡ ok t
    → Parts o t
unfolding live_totals
live-Parts o raw hr h =
    let deposits = unit_deposit_by_line o.lines in
    let active = active_returns o.returns in
    let rls = active_return_lines o.returns in
    let (lines, e₁, h₁) = >>=-eq-ok (line_totals rls o.lines raw) _ h in
    let (credits, e₂, h₂) = >>=-eq-ok (traverse (return_credit deposits) active) _ h₁ in
    let owed_raw =
      owed_of (sum_by (λ (l : ℕ × ℕ). l.1) raw) (net o.ledger payment payment_reversal)
        (sum credits) (net o.ledger refund refund_reversal) in
    let (safe, e₃, h₃) = >>=-eq-ok (assert_safe_ℤ owed_raw) _ h₂ in
    let (owed, e₄, h₄) = >>=-eq-ok (owed_at_least_zero safe) _ h₃ in
    let (value, e₅, h₅) = >>=-eq-ok (assert_safe (out_value_of o.lines lines)) _ h₄ in
    let (comps, e₆, h₆) = >>=-eq-ok (traverse (compensation_of deposits) rls) _ h₅ in
    let (comp, e₇, h₇) = >>=-eq-ok (assert_safe_ℤ (sum_ℤ comps)) _ h₆ in
    subst (Parts o) (ok-injective h₇) (record {
      raw = raw;
      credits = credits;
      compensations = comps;
      raw_ok = hr;
      lines_ok = e₁;
      credits_ok = e₂;
      compensations_ok = e₆;
      deposit_eq = refl;
      payments_eq = refl;
      refunds_eq = refl;
      credits_eq = refl;
      owed_eq = assert_safe_ℤ-eq owed_raw e₃ ∙ owed_at_least_zero-eq safe e₄;
      out_eq = refl;
      value_eq = sym (assert_safe-eq (out_value_of o.lines lines) e₅);
      compensation_eq = sym (assert_safe_ℤ-eq (sum_ℤ comps) e₇);
      held_eq = refl;
      owed_safe = e₃ ∙ ap (λ (x : ℤ). ok x) (owed_at_least_zero-eq safe e₄);
      value_safe = e₅;
      compensation_safe = e₇;
      status_eq = refl;
    })

pub totals-Parts :
    (o : OrderState) {t : OrderTotals}
    → o.cancelled ≡ false
    → compute_order_totals o ≡ ok t
    → Parts o t
unfolding compute_order_totals
totals-Parts o live h =
    let (raw, e, h') = >>=-eq-ok (traverse raw_line o.lines) _ h in
    live-Parts o raw e (sym (if-false o.cancelled _ _ live) ∙ h')

line_totals_of-eq :
    (rls : List ReturnLineState) (l : OrderLineState) (n : ℕ) {t : LineTotals}
    → line_totals_of rls l n ≡ ok t
    → (t.id ≡ l.id)
      × (t.line_total ≡ n)
      × (t.returned_accepted ≡ returned_accepted_of l.id rls)
      × (t.returned_damaged ≡ returned_damaged_of l.id rls)
      × (t.returned_accepted + t.returned_damaged + t.out_quantity ≡ l.quantity)
unfolding line_totals_of
line_totals_of-eq rls l n h = ground arith

pub raw_line-eq :
    (l : OrderLineState) {r : ℕ × ℕ}
    → raw_line l ≡ ok r
    → (r.0 ≡ l.id) × (r.1 ≡ l.quantity * l.unit_deposit)
unfolding raw_line
raw_line-eq l h =
    let (n, e, h') = >>=-eq-ok (assert_safe (l.quantity * l.unit_deposit)) _ h in
    rw (← ok-injective h') (refl, sym (assert_safe-eq _ e))

pub line_totals-cons :
    (rls : List ReturnLineState) (l : OrderLineState) (ls : List OrderLineState) (r : ℕ × ℕ)
    (raw : List (ℕ × ℕ)) {ts : List LineTotals}
    → line_totals rls (l ∷ ls) (r ∷ raw) ≡ ok ts
    → (z : LineTotals) × (zs : List LineTotals) × (line_totals_of rls l r.1 ≡ ok z)
      × (line_totals rls ls raw ≡ ok zs)
      × (ts ≡ z ∷ zs)
unfolding line_totals
line_totals-cons rls l ls r raw h =
    let (z, e, h₁) = >>=-eq-ok (line_totals_of rls l r.1) _ h in
    let (zs, e₁, h₂) = >>=-eq-ok (line_totals rls ls raw) _ h₁ in
    (z, zs, e, e₁, sym (ok-injective h₂))

pub line_totals-Accounts :
    (rls : List ReturnLineState) (ls : List OrderLineState) {raw : List (ℕ × ℕ)}
    {ts : List LineTotals}
    → traverse raw_line ls ≡ ok raw
    → line_totals rls ls raw ≡ ok ts
    → Accounts rls ls ts
unfolding line_totals
line_totals-Accounts rls [] {ts = ts} hr h = subst (Accounts rls []) (ok-injective h) tt
line_totals-Accounts rls (l ∷ ls) {raw} {ts} hr h =
    let (r, rs, e, es, er) = traverse-cons raw_line l ls hr in
    let (z, zs, f, fs, et) = line_totals-cons rls l ls r rs (rw er at h) in
    let (a, b, c, d, g) = line_totals_of-eq rls l r.1 f in
    subst (Accounts rls (l ∷ ls)) (sym et)
      (a, b ∙ (raw_line-eq l e).1, c, d, g, line_totals-Accounts rls ls es fs)
