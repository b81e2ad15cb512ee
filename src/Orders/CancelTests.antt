-- ===== src/Orders/CancelTests.antt =====
-- A cash order of ten pallets at 5, two of which the factory owed the customer, cancelled.
use item_lending_management.Prelude.{
  List, [], negsuc, none, pos, refl, some, true, ℕ, ℤ, ◌+ℤ◌, ◌-ℤ◌, ◌∷◌, ◌≡◌,
}
use item_lending_management.Failure.{ok}
use item_lending_management.Domain.{
  assert_safe, compute_order_totals, is_cancelled, is_open, payment, raw_line,
}
use item_lending_management.Store.{
  LedgerEntry, Order, OrderLine, cash, order_create, payment_reverse,
}
use item_lending_management.Orders.State.{
  db_totals, entry_state, find_order_or_throw, line_state, recompute_order, return_state,
  to_db_money, to_db_money_ℤ, to_order_state, to_safe_money,
}
use item_lending_management.Orders.Rules.{
  assert_no_activity, order_activity, standing_automatic_payment,
}
use item_lending_management.Orders.Cancel.{
  CancelRows, assert_cancellable, audit_reversal, cancel, cancel_movement, cancel_reversal,
  mark_cancelled, reverse_automatic, stock_back, write_cancel,
}
use item_lending_management.Orders.Cancelled.{Cancelled, cancel-effect}
use item_lending_management.Ledger.{
  audit_entry, entry_row, ledger_audit_entry, order_found, record_entry,
}
use item_lending_management.Stock.{
  StockMovement, StockState, apply, assert_available, movement_row, net_from, on_hand, ordered,
  pallet_credit, update_item, update_items,
}
use item_lending_management.Versioning.{assert_version}
use item_lending_management.PalletCredits.{
  CreditReason, PalletCredit, cancelled_order, credit_sum, insert_many, order_credit_item_ids,
  order_entry, order_use, reverse_for_order, reversing_entries, write_many,
}

abbrev line : ℕ → OrderLine
line out = record {
  id = 1;
  item_id = 4;
  quantity = 10;
  unit_deposit = 5;
  line_total = 50;
  returned_accepted = 0;
  returned_damaged = 0;
  out_quantity = out;
}

abbrev order : Order
order = record {
  id = 7;
  order_number = 70;
  customer_id = 2;
  date = 100;
  payment_type = cash;
  cancelled_at = none;
  lines = line 10 ∷ [];
  returns = [];
  status = is_open;
  deposit_total = 50;
  payments_net = pos 50;
  credits_total = 0;
  refunds_net = pos 0;
  owed = 0;
  out_quantity_total = 10;
  out_value = 50;
  held = 50;
  compensation = pos 0;
  version = 1;
}

abbrev order_after : Order
order_after = record order {
  cancelled_at = some 9000;
  lines = line 0 ∷ [];
  status = is_cancelled;
  payments_net = pos 0;
  out_quantity_total = 0;
  out_value = 0;
  held = 0;
  version = 2;
}

abbrev paid : LedgerEntry
paid = record {
  id = 1;
  order_id = 7;
  type = payment;
  source = order_create;
  amount = 50;
  date = some 100;
  is_automatic = true;
  return_id = none;
  reverses_entry_id = none;
  note = none;
  owed_before = some 50;
  created_by_user_id = 3;
}

abbrev paid_back : LedgerEntry
paid_back = entry_row (cancel_reversal 7 101 50 paid) 50 none 3 2

abbrev credit : ℕ → ℤ → CreditReason → ℕ → PalletCredit
credit id quantity reason date = record {
  id = id;
  entry = order_entry 2 7 4 quantity reason date;
  created_by_user_id = 3;
}

abbrev stock_of : ℤ → List StockMovement → StockState
stock_of quantity movements = record {
  items = record { id = 4; quantity_on_hand = quantity } ∷ [];
  movements = movements;
}

abbrev before : CancelRows
before = record {
  rows = record {
    orders = order ∷ [];
    ledger_entries = paid ∷ [];
    next_entry_id = 2;
    history = [];
  };
  credit_rows = record {
    credits = credit 1 (negsuc 1) order_use 100 ∷ [];
    next_credit_id = 2;
    stock = stock_of (pos 20) [];
  };
  returns_with = λ _. [];
  cancellations = [];
}

abbrev after : CancelRows
after = record {
  rows = record {
    orders = order_after ∷ [];
    ledger_entries = paid ∷ paid_back ∷ [];
    next_entry_id = 3;
    history =
        record {
          action = payment_reverse;
          entity_id = 2;
          order_number = 70;
          amount = 50;
          automatic = none;
          after = paid_back;
        }
        ∷ [];
  };
  credit_rows = record {
    credits = credit 1 (negsuc 1) order_use 100 ∷ credit 2 (pos 2) cancelled_order 101 ∷ [];
    next_credit_id = 3;
    stock = stock_of (pos 32) (
        movement_row 3 (cancel_movement 7 (line 10))
        ∷ movement_row 3 (record { item_id = 4; quantity = pos 2; reason = pallet_credit 2 })
        ∷ []);
  };
  returns_with = λ _. [];
  cancellations = (7, 70) ∷ [];
}

cancels : cancel 9000 101 7 1 3 before ≡ ok (after, order_after)
unfolding cancel order_found assert_cancellable assert_version assert_no_activity order_activity
    write_cancel stock_back apply assert_available net_from on_hand update_items update_item ordered
    movement_row reverse_for_order write_many insert_many order_credit_item_ids reversing_entries
    credit_sum standing_automatic_payment reverse_automatic to_safe_money record_entry to_db_money
    mark_cancelled recompute_order find_order_or_throw to_order_state line_state return_state
    entry_state compute_order_totals raw_line assert_safe db_totals to_db_money_ℤ audit_reversal
    audit_entry ledger_audit_entry ◌+ℤ◌ ◌-ℤ◌
cancels = refl

cancel-effect_example : Cancelled 9000 7 1 before after order_after
cancel-effect_example = cancel-effect 9000 101 7 1 3 before cancels
