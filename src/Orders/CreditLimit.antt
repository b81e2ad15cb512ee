-- ===== src/Orders/CreditLimit.antt =====
-- apps/api/src/modules/orders/open-order-totals.ts: the standing totals per customer, and
-- apps/api/src/modules/orders/credit-limit.ts: the credit rule of an order.
use item_lending_management.Prelude.{
  Bool, List, Option, [], false, if◌then◌else◌, keep, none, some, true, ℕ, ℤ, ◌&&◌, ◌+◌, ◌==◌, ◌∷◌,
}
use item_lending_management.Failure.{Result, api, credit_limit_exceeded, err, ok, ◌>>=◌}
use item_lending_management.Domain.{OrderStatus, is_cancelled, is_open, settled}
use item_lending_management.Domain.Credit.{CreditCheckResult, check_credit_limit}
use item_lending_management.Store.{Order}
use item_lending_management.Orders.State.{to_safe_money}
use item_lending_management.Orders.Rules.{Actor}

-- A row of the query. SQL leaves the order of the rows open.
pub record StandingTotals : Type 0 where
  pub customer_id : ℕ
  pub pallets_out : ℕ
  pub out_value : ℕ
  pub owed : ℕ
  pub held : ℕ
  pub open_order_count : ℕ

-- `status = 'OPEN'`
abbrev pub is_status_open : OrderStatus → Bool
is_status_open is_open = true
is_status_open settled = false
is_status_open is_cancelled = false

abbrev pub totals_of_one : Order → StandingTotals
totals_of_one o = record {
  customer_id = o.customer_id;
  pallets_out = o.out_quantity_total;
  out_value = o.out_value;
  owed = o.owed;
  held = o.held;
  open_order_count = 1;
}

abbrev pub add_order : Order → StandingTotals → StandingTotals
add_order o t = record t {
  pallets_out = o.out_quantity_total + t.pallets_out;
  out_value = o.out_value + t.out_value;
  owed = o.owed + t.owed;
  held = o.held + t.held;
  open_order_count = 1 + t.open_order_count;
}

-- `GROUP BY customer_id`
abbrev pub into_group : Order → List StandingTotals → List StandingTotals
into_group o [] = totals_of_one o ∷ []
into_group o (t ∷ ts) =
    let rest = into_group o ts in
    if t.customer_id == o.customer_id then add_order o t ∷ ts else t ∷ rest

abbrev pub group_orders : List Order → List StandingTotals
group_orders [] = []
group_orders (o ∷ os) = into_group o (group_orders os)

unfoldable pub open_order_totals_by_customer : (Order → Bool) → List Order → List StandingTotals
open_order_totals_by_customer scope orders =
    group_orders (keep (λ (o : Order). is_status_open o.status && scope o) orders)

pub record CreditOverride : Type 0 where
  pub credit_limit : ℕ
  pub customer_out_value : ℕ
  pub deposit_delta : ℤ
  pub excess : ℤ

-- The one row of a customer; none when nothing is open.
abbrev pub out_value_of_row : List StandingTotals → ℕ
out_value_of_row [] = 0
out_value_of_row (t ∷ ts) = t.out_value

abbrev pub override_or_refuse : CreditOverride → Bool → Actor → Result (Option CreditOverride)
override_or_refuse details confirm_override actor =
    if actor.is_admin && confirm_override
    then ok (some details)
    else err (
        api (
          credit_limit_exceeded details.credit_limit details.customer_out_value
            details.deposit_delta details.excess actor.is_admin))

abbrev pub on_credit_check :
    CreditCheckResult → ℕ → ℕ → ℤ → Bool → Actor → Result (Option CreditOverride)
on_credit_check check credit_limit customer_out_value deposit_delta confirm_override actor =
    if check.allowed
    then ok none
    else override_or_refuse
        (record {
          credit_limit = credit_limit;
          customer_out_value = customer_out_value;
          deposit_delta = deposit_delta;
          excess = check.excess;
        })
        confirm_override actor

-- The customer's id and credit limit, and the orders as they stand under the customer's lock.
unfoldable pub assert_credit_allows :
    ℕ → Option ℕ → ℤ → Bool → Actor → List Order → Result (Option CreditOverride)
assert_credit_allows customer_id none deposit_delta confirm_override actor orders = ok none
assert_credit_allows customer_id (some limit) deposit_delta confirm_override actor orders = do
  customer_out_value ← to_safe_money (
      out_value_of_row
        (open_order_totals_by_customer (λ (o : Order). o.customer_id == customer_id) orders))
  credit_limit ← to_safe_money limit
  on_credit_check (check_credit_limit (some credit_limit) customer_out_value deposit_delta)
      credit_limit customer_out_value deposit_delta confirm_override actor
