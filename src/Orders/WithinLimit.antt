-- ===== src/Orders/WithinLimit.antt =====
-- What `assertCreditAllows` of apps/api/src/modules/orders/credit-limit.ts keeps.
use item_lending_management.Prelude.{
  +ℤ_parts, ==_iff, Bool, Bool-cases, List, Option, [], arith, inl, inr, int_laws, keep, none, pos,
  refl, some, sum_by, sym, true, ℕ, ℤ, ◌&&◌, ◌+ℤ◌, ◌+◌, ◌==◌, ◌∙◌, ◌∷◌, ◌≡◌, ◌≤ℤ◌, ◌≤◌, ◌⊎◌,
}
use item_lending_management.Failure.{>>=-eq-ok, if-false, if-true, ok, ok-injective}
use item_lending_management.Domain.{is_open}
use item_lending_management.Domain.Credit.{check_credit_limit, check_credit_limit_exact}
use item_lending_management.Store.{Order}
use item_lending_management.Orders.State.{to_safe_money}
use item_lending_management.Orders.Rules.{Actor}
use item_lending_management.Orders.CreditLimit.{
  CreditOverride, StandingTotals, assert_credit_allows, group_orders, into_group, is_status_open,
  on_credit_check, open_order_totals_by_customer, out_value_of_row, override_or_refuse,
}
use mathlib.Core.Path.{subst}

abbrev is_standing_of : ℕ → Order → Bool
is_standing_of customer_id o = is_status_open o.status && o.customer_id == customer_id

-- The value of the pallets that a customer has out on the orders that are open.
unfoldable pub standing_out_value : ℕ → List Order → ℕ
standing_out_value customer_id orders =
    sum_by (λ (o : Order). o.out_value) (keep (is_standing_of customer_id) orders)

-- At most one row, and it is of one customer.
abbrev IsOneRow : ℕ → List StandingTotals → Type 0
IsOneRow customer_id [] = Unit
IsOneRow customer_id (t ∷ ts) = (t.customer_id ≡ customer_id) × (ts ≡ [])

into_group-IsOneRow :
    (customer_id : ℕ) (o : Order) (ts : List StandingTotals)
    → (o.customer_id ≡ customer_id)
    → IsOneRow customer_id ts
    → IsOneRow customer_id (into_group o ts)
      × (out_value_of_row (into_group o ts) ≡ o.out_value + out_value_of_row ts)
into_group-IsOneRow customer_id o [] e h = ((e, refl), omega arith)
into_group-IsOneRow customer_id o (t ∷ ts) e h =
    rw ((==_iff t.customer_id o.customer_id).1 (h.0 ∙ sym e)) ((h.0, h.1), refl)

standing_iff :
    (customer_id : ℕ) (o : Order)
    → is_standing_of customer_id o ≡ true
    → o.customer_id ≡ customer_id
standing_iff customer_id o h = (==_iff o.customer_id customer_id).0 (ground arith)

group_orders-IsOneRow :
    (customer_id : ℕ) (os : List Order)
    → let kept = keep (is_standing_of customer_id) os in
      IsOneRow customer_id (group_orders kept)
      × (out_value_of_row (group_orders kept) ≡ sum_by (λ (o : Order). o.out_value) kept)
group_orders-IsOneRow customer_id [] = (tt, refl)
group_orders-IsOneRow customer_id (o ∷ os) =
    let ih = group_orders-IsOneRow customer_id os in
    elim (Bool-cases (is_standing_of customer_id o)) [
      | inl e ↦
          let step = into_group-IsOneRow customer_id o _ (standing_iff customer_id o e) ih.0 in
          rw e (step.0, omega (arith, step.1, ih.1))
      | inr e ↦ rw e ih
    ]

-- The row of the query restricted to a customer says what is out on the customer's open orders.
pub open_order_totals-standing :
    (customer_id : ℕ) (orders : List Order)
    → out_value_of_row
        (open_order_totals_by_customer (λ (o : Order). o.customer_id == customer_id) orders)
      ≡ standing_out_value customer_id orders
unfolding open_order_totals_by_customer standing_out_value
open_order_totals-standing customer_id orders = (group_orders-IsOneRow customer_id orders).1

pub standing_out_value-new :
    (customer_id : ℕ) (new : Order) (orders : List Order)
    → new.customer_id ≡ customer_id
    → new.status ≡ is_open
    → standing_out_value customer_id (new ∷ orders)
      ≡ new.out_value + standing_out_value customer_id orders
unfolding standing_out_value
standing_out_value-new customer_id new orders e s =
    rw (s, (==_iff new.customer_id customer_id).1 e) refl

to_safe_money-same : (n : ℕ) {v : ℕ} → to_safe_money n ≡ ok v → v ≡ n
unfolding to_safe_money
to_safe_money-same n h = ground arith

-- What the answer says, when the customer would have `standing` out with the new order.
abbrev pub IsAnswered : ℕ → ℕ → ℕ → Bool → Actor → Option CreditOverride → Type 0
IsAnswered limit added standing confirm_override actor none = (standing ≤ limit) ⊎ (added ≡ 0)
IsAnswered limit added standing confirm_override actor (some override) =
    (actor.is_admin ≡ true)
    × (confirm_override ≡ true)
    × (override.credit_limit ≡ limit)
    × (pos 1 ≤ℤ override.excess)
    × (override.excess +ℤ pos limit ≡ pos standing)

override_or_refuse-ok :
    (details : CreditOverride) (confirm_override : Bool) (actor : Actor)
    (answer : Option CreditOverride)
    → override_or_refuse details confirm_override actor ≡ ok answer
    → (actor.is_admin ≡ true) × (confirm_override ≡ true) × (some details ≡ answer)
override_or_refuse-ok details confirm_override actor answer h =
    elim (Bool-cases (actor.is_admin && confirm_override)) [
      | inl e ↦
          let h' : ok (some details) ≡ ok answer = sym (if-true _ _ _ e) ∙ h in
          (ground arith, ground arith, ok-injective h')
      | inr e ↦ absurd (cc (sym (if-false _ _ _ e) ∙ h))
    ]

within_limit :
    (limit out_value added : ℕ)
    → (pos added ≤ℤ pos 0) ⊎ (pos out_value +ℤ pos added ≤ℤ pos limit)
    → (added + out_value ≤ limit) ⊎ (added ≡ 0)
within_limit limit out_value added (inl h) = inr (omega arith)
within_limit limit out_value added (inr h) =
    let parts = +ℤ_parts (pos out_value) (pos added) in inl (omega (arith, parts))

exceeds_limit :
    (limit out_value added : ℕ) (excess : ℤ)
    → excess +ℤ pos limit ≡ pos out_value +ℤ pos added
    → excess +ℤ pos limit ≡ pos (added + out_value)
exceeds_limit limit out_value added excess h = h ∙ omega int_laws

on_credit_check-IsAnswered :
    (limit out_value added : ℕ) (confirm_override : Bool) (actor : Actor)
    (answer : Option CreditOverride)
    → on_credit_check
        (check_credit_limit (some limit) out_value (pos added))
        limit
        out_value
        (pos added)
        confirm_override
        actor
      ≡ ok answer
    → IsAnswered limit added (added + out_value) confirm_override actor answer
on_credit_check-IsAnswered limit out_value added confirm_override actor answer h =
    let r = check_credit_limit (some limit) out_value (pos added) in
    let exact = check_credit_limit_exact limit out_value (pos added) in
    elim (Bool-cases r.allowed) [
      | inl e ↦
          subst (IsAnswered limit added (added + out_value) confirm_override actor)
            (ok-injective (sym (if-true _ _ _ e) ∙ h))
            (within_limit limit out_value added (exact.0.0 e))
      | inr e ↦
          let (admin, confirmed, same) =
            override_or_refuse-ok _ confirm_override actor answer (sym (if-false _ _ _ e) ∙ h) in
          let (positive, exceeds) = exact.2 e in
          subst (IsAnswered limit added (added + out_value) confirm_override actor) same
            (admin, confirmed, refl, positive, exceeds_limit limit out_value added r.excess exceeds)
    ]

-- When the credit rule passes, with `added` to go out: the value out with it is within the limit, or
-- nothing is added, or an admin's override records what it exceeds the limit by.
pub credit_answer_holds :
    (limit customer_id added : ℕ) (confirm_override : Bool) (actor : Actor) (orders : List Order)
    (answer : Option CreditOverride)
    → assert_credit_allows customer_id (some limit) (pos added) confirm_override actor orders
      ≡ ok answer
    → IsAnswered limit added
        (added + standing_out_value customer_id orders)
        confirm_override
        actor
        answer
unfolding assert_credit_allows
credit_answer_holds limit customer_id added confirm_override actor orders answer h =
    let row =
      out_value_of_row
        (open_order_totals_by_customer (λ (o : Order). o.customer_id == customer_id) orders) in
    let (out_value, e, h₁) = >>=-eq-ok (to_safe_money row) _ h in
    let (credit_limit, e₁, h₂) = >>=-eq-ok (to_safe_money limit) _ h₁ in
    let same_value = to_safe_money-same _ e ∙ open_order_totals-standing customer_id orders in
    let answered =
      on_credit_check-IsAnswered credit_limit out_value added confirm_override actor answer h₂ in
    subst (λ v. IsAnswered limit added (added + v) confirm_override actor answer) same_value
      (subst (λ l. IsAnswered l added (added + out_value) confirm_override actor answer)
        (to_safe_money-same limit e₁) answered)

-- When the credit rule lets an order through, of a customer with a limit: either it records no
-- override, and with the order open the value that the customer has out is within the limit, or the
-- order adds nothing to it; or an admin confirmed the override, whose excess is positive and is
-- exactly what that value exceeds the limit by.
pub assert_credit_allows-IsAnswered :
    (limit : ℕ) (confirm_override : Bool) (actor : Actor) (orders : List Order)
    (answer : Option CreditOverride) (new : Order)
    → new.status ≡ is_open
    → assert_credit_allows new.customer_id
        (some limit)
        (pos new.out_value)
        confirm_override
        actor
        orders
      ≡ ok answer
    → IsAnswered limit new.out_value
        (standing_out_value new.customer_id (new ∷ orders))
        confirm_override
        actor
        answer
assert_credit_allows-IsAnswered limit confirm_override actor orders answer new s h =
    subst (λ v. IsAnswered limit new.out_value v confirm_override actor answer)
      (sym (standing_out_value-new new.customer_id new orders refl s))
      (credit_answer_holds limit new.customer_id new.out_value confirm_override actor orders answer
        h)
