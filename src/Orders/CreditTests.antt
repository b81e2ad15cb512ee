-- ===== src/Orders/CreditTests.antt =====
-- The credit rule of apps/api/src/modules/orders/credit-limit.ts on small orders.
use item_lending_management.Prelude.{
  List, [], false, none, pos, refl, some, true, ◌+ℤ◌, ◌-ℤ◌, ◌∷◌, ◌≡◌,
}
use item_lending_management.Failure.{api, credit_limit_exceeded, err, ok}
use item_lending_management.Domain.{is_open, settled}
use item_lending_management.Domain.Credit.{check_credit_limit}
use item_lending_management.Store.{Order, lent}
use item_lending_management.Orders.State.{to_safe_money}
use item_lending_management.Orders.Rules.{Actor}
use item_lending_management.Orders.CreditLimit.{
  CreditOverride, assert_credit_allows, open_order_totals_by_customer,
}
use item_lending_management.Orders.WithinLimit.{
  IsAnswered, assert_credit_allows-IsAnswered, standing_out_value,
}

abbrev first : Order
first = record {
  id = 1;
  order_number = 10;
  customer_id = 2;
  date = 100;
  payment_type = lent;
  cancelled_at = none;
  lines = [];
  returns = [];
  status = is_open;
  deposit_total = 40;
  payments_net = pos 0;
  credits_total = 0;
  refunds_net = pos 0;
  owed = 40;
  out_quantity_total = 4;
  out_value = 40;
  held = 0;
  compensation = pos 0;
  version = 1;
}

abbrev of_another : Order
of_another = record first { id = 2; order_number = 11; customer_id = 3; out_value = 900 }

abbrev all_back : Order
all_back = record first {
  id = 3;
  order_number = 12;
  status = settled;
  out_quantity_total = 0;
  out_value = 0;
}

abbrev second : Order
second = record first { id = 4; order_number = 13; out_quantity_total = 2; out_value = 20 }

abbrev orders : List Order
orders = first ∷ of_another ∷ all_back ∷ second ∷ []

abbrev new : Order
new = record first { id = 5; order_number = 14; out_quantity_total = 5; out_value = 50 }

abbrev admin : Actor
admin = record { may_edit_unit_deposit = true; is_admin = true }

abbrev clerk : Actor
clerk = record { may_edit_unit_deposit = true; is_admin = false }

abbrev ten_over : CreditOverride
ten_over = record {
  credit_limit = 100;
  customer_out_value = 60;
  deposit_delta = pos 50;
  excess = pos 10;
}

grouped :
    open_order_totals_by_customer (λ (o : Order). true) orders
    ≡ record {
      customer_id = 2;
      pallets_out = 6;
      out_value = 60;
      owed = 80;
      held = 0;
      open_order_count = 2;
    }
      ∷ record {
        customer_id = 3;
        pallets_out = 4;
        out_value = 900;
        owed = 40;
        held = 0;
        open_order_count = 1;
      }
      ∷ []
unfolding open_order_totals_by_customer
grouped = refl

up_to_the_limit : assert_credit_allows 2 (some 110) (pos 50) false clerk orders ≡ ok none
unfolding assert_credit_allows open_order_totals_by_customer to_safe_money check_credit_limit ◌+ℤ◌
    ◌-ℤ◌
up_to_the_limit = refl

refused :
    assert_credit_allows 2 (some 100) (pos 50) false clerk orders
    ≡ err (api (credit_limit_exceeded 100 60 (pos 50) (pos 10) false))
unfolding assert_credit_allows open_order_totals_by_customer to_safe_money check_credit_limit ◌+ℤ◌
    ◌-ℤ◌
refused = refl

overridden : assert_credit_allows 2 (some 100) (pos 50) true admin orders ≡ ok (some ten_over)
unfolding assert_credit_allows open_order_totals_by_customer to_safe_money check_credit_limit ◌+ℤ◌
    ◌-ℤ◌
overridden = refl

assert_credit_allows-IsAnswered_example :
    IsAnswered 100 50 (standing_out_value 2 (new ∷ orders)) true admin (some ten_over)
assert_credit_allows-IsAnswered_example =
    assert_credit_allows-IsAnswered 100 true admin orders (some ten_over) new refl overridden
