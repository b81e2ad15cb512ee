-- ===== src/Orders/CreateTests.antt =====
-- `create` of apps/api/src/modules/orders/orders.service.ts on a small shop: a customer with a limit
-- of 100 and an open order of 40, who is owed one pallet, takes four pallets at 15 and pays in cash.
use item_lending_management.Prelude.{[], false, negsuc, none, pos, refl, some, true, ◌∷◌, ◌≡◌}
use item_lending_management.Failure.{ok}
use item_lending_management.Domain.{is_open, payment}
use item_lending_management.Store.{
  LedgerEntry, LedgerEntrySource, Order, OrderLine, cash, lent, payment_create,
}
use item_lending_management.Stock.{movement_row, pallet_credit}
use item_lending_management.PalletCredits.{PalletCredit, order_entry, order_use, return_surplus}
use item_lending_management.Orders.Rules.{
  Actor, PricedLine, assert_customer_active, assert_driver_active,
}
use item_lending_management.Orders.Pricing.{CreateRows, CustomerRow, OrderCreateBody, load_parties}
use item_lending_management.Orders.Create.{create_movement, new_order}

abbrev earlier : Order
earlier = record {
  id = 1;
  order_number = 13;
  customer_id = 2;
  date = 100;
  payment_type = lent;
  cancelled_at = none;
  lines = [];
  returns = [];
  status = is_open;
  deposit_total = 40;
  payments_net = pos 0;
  credits_total = 0;
  refunds_net = pos 0;
  owed = 40;
  out_quantity_total = 4;
  out_value = 40;
  held = 0;
  compensation = pos 0;
  version = 1;
}

abbrev shopper : CustomerRow
shopper = record { id = 2; archived_at = none; credit_limit = some 100 }

abbrev clerk : Actor
clerk = record { may_edit_unit_deposit = false; is_admin = false }

abbrev body : OrderCreateBody
body = record {
  customer_id = 2;
  driver_id = 6;
  date = 101;
  payment_type = cash;
  notes = none;
  lines = record { item_id = 4; quantity = 4; unit_deposit = none } ∷ [];
  confirm_credit_override = false;
}

abbrev surplus : PalletCredit
surplus = record {
  id = 1;
  entry = record {
    customer_id = 2;
    item_id = 4;
    quantity = pos 1;
    reason = return_surplus;
    return_id = some 8;
    order_id = none;
    reverses_credit_id = none;
    date = 100;
    note = none;
  };
  created_by_user_id = 3;
}

abbrev before : CreateRows
before = record {
  rows = record { orders = earlier ∷ []; ledger_entries = []; next_entry_id = 1; history = [] };
  credit_rows = record {
    credits = surplus ∷ [];
    next_credit_id = 2;
    stock = record { items = record { id = 4; quantity_on_hand = pos 20 } ∷ []; movements = [] };
  };
  customers = shopper ∷ [];
  drivers = record { id = 6; archived_at = none } ∷ [];
  items = record { id = 4; archived_at = none; deposit_price = 15 } ∷ [];
  last_number = 13;
  next_order_id = 5;
  next_line_id = 30;
  hand_overs = [];
  creations = [];
}

abbrev three_out : OrderLine
three_out = record {
  id = 30;
  item_id = 4;
  quantity = 3;
  unit_deposit = 15;
  line_total = 45;
  returned_accepted = 0;
  returned_damaged = 0;
  out_quantity = 3;
}

abbrev handed : Order
handed = record (new_order 5 14 body (three_out ∷ [])) {
  deposit_total = 45;
  payments_net = pos 45;
  out_quantity_total = 3;
  out_value = 45;
  held = 45;
}

abbrev paid : LedgerEntry
paid = record {
  id = 1;
  order_id = 5;
  type = payment;
  source = LedgerEntrySource.order_create;
  amount = 45;
  date = none;
  is_automatic = true;
  return_id = none;
  reverses_entry_id = none;
  note = none;
  owed_before = some 45;
  created_by_user_id = 3;
}

abbrev three_lent : PricedLine
three_lent = record { item_id = 4; quantity = 3; unit_deposit = 15; line_total = 45 }

abbrev after : CreateRows
after = record before {
  rows = record {
    orders = earlier ∷ handed ∷ [];
    ledger_entries = paid ∷ [];
    next_entry_id = 2;
    history =
        record {
          action = payment_create;
          entity_id = 1;
          order_number = 14;
          amount = 45;
          automatic = some true;
          after = paid;
        }
        ∷ [];
  };
  credit_rows = record {
    credits =
        surplus
        ∷ record {
          id = 2;
          entry = order_entry 2 5 4 (negsuc 0) order_use 101;
          created_by_user_id = 3;
        }
        ∷ [];
    next_credit_id = 3;
    stock = record {
      items = record { id = 4; quantity_on_hand = pos 16 } ∷ [];
      movements =
          movement_row 3 (create_movement 5 three_lent)
          ∷ movement_row 3 (record { item_id = 4; quantity = negsuc 0; reason = pallet_credit 2 })
          ∷ [];
    };
  };
  last_number = 14;
  next_order_id = 6;
  next_line_id = 31;
  hand_overs =
      record {
        order_id = 5;
        driver_id = 6;
        notes = none;
        created_by_user_id = 3;
        credit_override_by_user_id = none;
        credit_override_at = none;
      }
      ∷ [];
  creations = record { order_id = 5; order_number = 14; credit_override = none } ∷ [];
}

parties : load_parties body before ≡ ok shopper
unfolding load_parties assert_customer_active assert_driver_active
parties = refl
