-- ===== src/Domain/Split.antt =====
-- Where the deposit of an order goes (packages/shared/src/domain/ledger-math.ts): the three figures
-- `outValue`, `creditsTotal` and `compensation` are computed by three different loops.
use item_lending_management.Prelude.{
  ==_iff, Bool, Bool-cases, Dict, List, [], arith, concat_map, false, from_entries, get_or,
  if◌then◌else◌, inl, inr, insert, int_laws, lookup, lookup-insert, map, parts_of_eq, pos, refl,
  sum, sum_by, sum_by-append, sum_ℤ, ℕ, ℤ, ◌*◌, ◌+ℤ◌, ◌+◌, ◌-ℤ◌, ◌==◌, ◌||◌, ◌∙◌, ◌∷◌, ◌≡◌,
}
use item_lending_management.Failure.{>>=-eq-ok, ok, ok-injective, traverse, traverse-cons}
use item_lending_management.Domain.Order.{
  LineTotals, OrderLineState, OrderState, OrderTotals, ReturnLineState, ReturnState,
}
use item_lending_management.Domain.Lines.{Accounts, raw_line-eq, totals-Parts}
use item_lending_management.Domain.Money.{compute-Accounts, compute-balance}
use item_lending_management.Domain.Totals.{
  RefundLine, active_return_lines, active_returns, assert_safe, compensation_of,
  compute_order_totals, deposit_of, out_value_of, raw_line, refund_line, refund_of, return_credit,
  return_refund_due, returned_accepted_of, returned_damaged_of, unit_deposit_by_line,
}

abbrev pub has_id : ℕ → List OrderLineState → Bool
has_id k [] = false
has_id k (l ∷ ls) = k == l.id || has_id k ls

-- No two lines have one id; it is the primary key of the stored lines.
abbrev pub UniqueIds : List OrderLineState → Type 0
UniqueIds [] = Unit
UniqueIds (l ∷ ls) = (has_id l.id ls ≡ false) × UniqueIds ls

-- The unit deposit that `depositOf` finds, 0 where it finds none.
abbrev dep : Dict ℕ → ℕ → ℕ
dep d k = get_or (lookup k d) 0

abbrev credit_at : Dict ℕ → ReturnLineState → ℕ
credit_at d rl = rl.accepted_quantity * dep d rl.order_line_id + rl.damaged_refund

abbrev value_at : Dict ℕ → ReturnLineState → ℕ
value_at d rl = (rl.accepted_quantity + rl.damaged_quantity) * dep d rl.order_line_id

deposit_of-eq : (d : Dict ℕ) (k : ℕ) {n : ℕ} → deposit_of d k ≡ ok n → n ≡ dep d k
unfolding deposit_of
deposit_of-eq d k h = ground arith

refund_line-eq :
    (d : Dict ℕ) (rl : ReturnLineState) {p : RefundLine}
    → refund_line d rl ≡ ok p
    → refund_of p ≡ credit_at d rl
unfolding refund_line
refund_line-eq d rl h =
    let (n, e, h') = >>=-eq-ok (deposit_of d rl.order_line_id) _ h in
    rw (← ok-injective h', deposit_of-eq d _ e)

priced-sum :
    (d : Dict ℕ) (rls : List ReturnLineState) {ps : List RefundLine}
    → traverse (refund_line d) rls ≡ ok ps
    → sum_by refund_of ps ≡ sum_by (credit_at d) rls
priced-sum d [] h = rw (← ok-injective h)
priced-sum d (rl ∷ rls) h =
    let (z, zs, e, es, eq) = traverse-cons (refund_line d) rl rls h in
    rw eq (omega (arith, refund_line-eq d rl e, priced-sum d rls es))

return_refund_due-eq :
    (ps : List RefundLine) {n : ℕ} → return_refund_due ps ≡ ok n → n ≡ sum_by refund_of ps
unfolding return_refund_due assert_safe
return_refund_due-eq ps h = ground arith

pub return_credit-eq :
    (d : Dict ℕ) (r : ReturnState) {n : ℕ}
    → return_credit d r ≡ ok n
    → n ≡ sum_by (credit_at d) r.lines
unfolding return_credit
return_credit-eq d r h =
    let (ps, e, h') = >>=-eq-ok (traverse (refund_line d) r.lines) _ h in
    return_refund_due-eq ps h' ∙ priced-sum d r.lines e

credits-sum :
    (d : Dict ℕ) (rs : List ReturnState) {cs : List ℕ}
    → traverse (return_credit d) rs ≡ ok cs
    → sum cs ≡ sum_by (credit_at d) (concat_map (λ r. r.lines) rs)
credits-sum d [] h = rw (← ok-injective h)
credits-sum d (r ∷ rs) h =
    let (z, zs, e, es, eq) = traverse-cons (return_credit d) r rs h in
    rw (eq, sum_by-append (credit_at d) r.lines (concat_map (λ r. r.lines) rs))
      (omega (arith, return_credit-eq d r e, credits-sum d rs es))

compensation_of-eq :
    (d : Dict ℕ) (rl : ReturnLineState) {x : ℤ}
    → compensation_of d rl ≡ ok x
    → x +ℤ pos rl.damaged_refund ≡ pos (rl.damaged_quantity * dep d rl.order_line_id)
unfolding compensation_of
compensation_of-eq d rl h =
    let (n, e, h') = >>=-eq-ok (deposit_of d rl.order_line_id) _ h in
    rw (← ok-injective h', ← deposit_of-eq d _ e) (omega int_laws)

compensations-sum :
    (d : Dict ℕ) (rls : List ReturnLineState) {xs : List ℤ}
    → traverse (compensation_of d) rls ≡ ok xs
    → sum_ℤ xs +ℤ pos (sum_by (credit_at d) rls) ≡ pos (sum_by (value_at d) rls)
compensations-sum d [] h = rw (← ok-injective h) (omega int_laws)
compensations-sum d (rl ∷ rls) h =
    let (z, zs, e, es, eq) = traverse-cons (compensation_of d) rl rls h in
    rw eq (
      omega (
        int_laws,
        parts_of_eq (compensation_of-eq d rl e),
        parts_of_eq (compensations-sum d rls es),
      ))

-- The deposit of the first line with the id.
abbrev first_deposit : ℕ → List OrderLineState → ℕ
first_deposit k [] = 0
first_deposit k (l ∷ ls) =
    let rest = first_deposit k ls in if k == l.id then l.unit_deposit else rest

dep-from_entries :
    (k : ℕ) (ls : List OrderLineState) (d : Dict ℕ)
    → UniqueIds ls
    → dep (from_entries (map (λ (l : OrderLineState). (l.id, l.unit_deposit)) ls) d) k
      ≡ (if has_id k ls then first_deposit k ls else dep d k)
dep-from_entries k [] d u = refl
dep-from_entries k (l ∷ ls) d u = ground (
  arith,
  dep-from_entries k ls (insert l.id l.unit_deposit d) u.1,
  lookup-insert k l.id l.unit_deposit d,
)

-- The pallets that came back of a line.
abbrev came_back : ℕ → List ReturnLineState → ℕ
came_back k rls = returned_accepted_of k rls + returned_damaged_of k rls

abbrev came_back_value : List OrderLineState → List ReturnLineState → ℕ
came_back_value [] rls = 0
came_back_value (l ∷ ls) rls = came_back l.id rls * l.unit_deposit + came_back_value ls rls

-- One return line's pallets at the deposit of each line that it names.
abbrev pick : List OrderLineState → ℕ → ℕ → ℕ
pick [] k n = 0
pick (l ∷ ls) k n = (if k == l.id then n * l.unit_deposit else 0) + pick ls k n

pick-none : (ls : List OrderLineState) (k n : ℕ) → has_id k ls ≡ false → pick ls k n ≡ 0
pick-none [] k n h = refl
pick-none (l ∷ ls) k n h = ground (arith, pick-none ls k n)

pick_unique :
    (ls : List OrderLineState) (k n : ℕ)
    → UniqueIds ls
    → pick ls k n ≡ n * (if has_id k ls then first_deposit k ls else 0)
pick_unique [] k n u = omega arith
pick_unique (l ∷ ls) k n u = elim (Bool-cases (k == l.id)) [
  | inl e ↦
      let fresh : has_id k ls ≡ false = rw ((==_iff k l.id).0 e) u.0 in
      rw e (omega (arith, pick-none ls k n fresh))
  | inr e ↦ rw e (omega (arith, pick_unique ls k n u.1))
]

came_back-cons :
    (k : ℕ) (rl : ReturnLineState) (rls : List ReturnLineState)
    → came_back k (rl ∷ rls)
      ≡ (if rl.order_line_id == k then rl.accepted_quantity + rl.damaged_quantity else 0)
        + came_back k rls
came_back-cons k rl rls = ground arith

came_back_value-cons :
    (ls : List OrderLineState) (rl : ReturnLineState) (rls : List ReturnLineState)
    → came_back_value ls (rl ∷ rls)
      ≡ pick ls rl.order_line_id (rl.accepted_quantity + rl.damaged_quantity)
        + came_back_value ls rls
came_back_value-cons [] rl rls = omega arith
came_back_value-cons (l ∷ ls) rl rls =
    rw (came_back-cons l.id rl rls) (elim (Bool-cases (rl.order_line_id == l.id)) [
      | inl e ↦ rw e (omega (arith, came_back_value-cons ls rl rls))
      | inr e ↦ rw e (omega (arith, came_back_value-cons ls rl rls))
    ])

came_back_value-nil : (ls : List OrderLineState) → came_back_value ls [] ≡ 0
came_back_value-nil [] = refl
came_back_value-nil (l ∷ ls) = omega (arith, came_back_value-nil ls)

-- Grouping the return lines by order line or walking them in their own order values the same pallets.
came_back_value-sum :
    (ls : List OrderLineState) (rls : List ReturnLineState)
    → UniqueIds ls
    → came_back_value ls rls ≡ sum_by (value_at (unit_deposit_by_line ls)) rls
came_back_value-sum ls [] u = came_back_value-nil ls
came_back_value-sum ls (rl ∷ rls) u =
    let n = rl.accepted_quantity + rl.damaged_quantity in
    rw
      (
        came_back_value-cons ls rl rls,
        pick_unique ls rl.order_line_id n u,
        dep-from_entries rl.order_line_id ls [] u,
      )
      (omega (arith, came_back_value-sum ls rls u))

raw-Accounts :
    (rls : List ReturnLineState) (ls : List OrderLineState) {raw : List (ℕ × ℕ)}
    (ts : List LineTotals)
    → traverse raw_line ls ≡ ok raw
    → Accounts rls ls ts
    → sum_by (λ (l : ℕ × ℕ). l.1) raw ≡ out_value_of ls ts + came_back_value ls rls
unfolding out_value_of
raw-Accounts rls [] ts h a = rw (← ok-injective h)
raw-Accounts rls (l ∷ ls) [] h a = absurd a
raw-Accounts rls (l ∷ ls) (t ∷ ts) h (a, b, c, d, e, g) =
    let (z, zs, hz, hs, eq) = traverse-cons raw_line l ls h in
    rw (eq, (raw_line-eq l hz).1, ← e, c, d) (omega (arith, raw-Accounts rls ls ts hs g))

-- If the totals of an order that is not cancelled, and whose lines have distinct ids, are computed,
-- its deposit total splits exactly into the value of the pallets still out, what its active returns
-- credit, and the compensation kept for damage.
pub deposit-split :
    (o : OrderState) {t : OrderTotals}
    → o.cancelled ≡ false
    → UniqueIds o.lines
    → compute_order_totals o ≡ ok t
    → pos t.deposit_total ≡ pos (t.out_value + t.credits_total) +ℤ t.compensation
deposit-split o {t} live u h =
    let p = totals-Parts o live h in
    let d = unit_deposit_by_line o.lines in
    let rls = active_return_lines o.returns in
    let a = raw-Accounts rls o.lines t.lines p.raw_ok (compute-Accounts o live h) in
    let c = credits-sum d (active_returns o.returns) p.credits_ok in
    let s = compensations-sum d rls p.compensations_ok in
    let v = came_back_value-sum o.lines rls u in
    rw (p.deposit_eq, p.value_eq, p.credits_eq, p.compensation_eq)
      (omega (int_laws, a, c, v, parts_of_eq s))

-- Under the same conditions, the money the factory has taken in (net payments less net refunds) and
-- what is still owed cover exactly the pallets out and the compensation kept.
pub cash-covers :
    (o : OrderState) {t : OrderTotals}
    → o.cancelled ≡ false
    → UniqueIds o.lines
    → compute_order_totals o ≡ ok t
    → t.payments_net -ℤ t.refunds_net +ℤ pos t.owed ≡ pos t.out_value +ℤ t.compensation
cash-covers o {t} live u h =
    omega (int_laws, parts_of_eq (deposit-split o live u h), parts_of_eq (compute-balance o live h))
