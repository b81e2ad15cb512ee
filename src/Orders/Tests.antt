-- ===== src/Orders/Tests.antt =====
-- The checks of apps/api/src/modules/orders/order-rules.ts on small orders.
use item_lending_management.Prelude.{
  All, List, [], false, none, pos, refl, some, true, ◌↔◌, ◌∷◌, ◌≡◌, ◌≢◌,
}
use item_lending_management.Failure.{api, err, ok, unit_deposit_not_permitted}
use item_lending_management.Domain.{is_open, payment, payment_reversal}
use item_lending_management.Store.{
  LedgerEntry, Order, PalletReturn, cash, manual, order_create, payment_delete,
}
use item_lending_management.Orders.Rules.{
  ReturnWith, assert_may_price_and_override, assert_no_activity, order_activity,
  standing_automatic_payment,
}
use item_lending_management.Orders.Activity.{IsNoStanding, assert_no_activity-exact}

abbrev order : Order
order = record {
  id = 7;
  order_number = 70;
  customer_id = 2;
  date = 100;
  payment_type = cash;
  cancelled_at = none;
  lines = [];
  returns = record { id = 1; date = 104; reversed_at = some 9000; lines = [] } ∷ [];
  status = is_open;
  deposit_total = 0;
  payments_net = pos 0;
  credits_total = 0;
  refunds_net = pos 0;
  owed = 0;
  out_quantity_total = 0;
  out_value = 0;
  held = 0;
  compensation = pos 0;
  version = 1;
}

abbrev automatic : LedgerEntry
automatic = record {
  id = 1;
  order_id = 7;
  type = payment;
  source = order_create;
  amount = 20;
  date = none;
  is_automatic = true;
  return_id = none;
  reverses_entry_id = none;
  note = none;
  owed_before = some 20;
  created_by_user_id = 3;
}

abbrev by_hand : LedgerEntry
by_hand = record automatic { id = 2; source = manual; date = some 102; is_automatic = false }

activity_test :
    order_activity order (record { order_id = 8; date = 103 } ∷ []) (automatic ∷ by_hand ∷ [])
    ≡ record {
      non_reversed_return_count = 1;
      non_reversed_manual_payment_count = 1;
      earliest_date = some 102;
    }
unfolding order_activity
activity_test = refl

standing_test : standing_automatic_payment (automatic ∷ by_hand ∷ []) ≡ some automatic
unfolding standing_automatic_payment
standing_test = refl

not_permitted_test :
    assert_may_price_and_override
      (record { item_id = 1; quantity = 2; unit_deposit = none }
        ∷ record { item_id = 2; quantity = 1; unit_deposit = some 4 }
        ∷ [])
      false
      (record { may_edit_unit_deposit = false; is_admin = false })
    ≡ err (api (unit_deposit_not_permitted (1 ∷ [])))
unfolding assert_may_price_and_override
not_permitted_test = refl

abbrev reversal : LedgerEntry
reversal = record by_hand {
  id = 3;
  type = payment_reversal;
  source = payment_delete;
  reverses_entry_id = some 2;
}

abbrev Exact : Order → List ReturnWith → List LedgerEntry → Type 0
Exact order returns_with entries =
    (assert_no_activity (order_activity order returns_with entries) ≡ ok tt) ↔ (
      All (λ (pr : PalletReturn). pr.reversed_at ≢ none) order.returns
      × All (λ (pr : ReturnWith). pr.order_id ≡ order.id) returns_with
      × All (IsNoStanding entries) entries)

assert_no_activity-exact_example : Exact order [] (automatic ∷ by_hand ∷ reversal ∷ [])
assert_no_activity-exact_example =
    assert_no_activity-exact order [] (automatic ∷ by_hand ∷ reversal ∷ [])
