-- ===== src/Reconciliation/Tests.antt =====
-- The reconciliation on a small table: a lent order of ten pallets at 5 whose cached debt is right
-- or wrong.
use item_lending_management.Prelude.{
  List, [], arith, none, pos, refl, some, true, ℕ, ◌+ℤ◌, ◌-ℤ◌, ◌∷◌, ◌≡◌,
}
use item_lending_management.Failure.{ok}
use item_lending_management.Domain.{
  OrderTotals, assert_safe, assert_safe_ℤ, compute_order_totals, is_open, line_totals,
  line_totals_of, live_totals, net, out_value_of, owed_of, raw_line,
}
use item_lending_management.Store.{Order, OrderLine, Rows, find_order, lent}
use item_lending_management.Orders.State.{
  db_totals, entry_state, find_order_or_throw, line_state, recompute_order, return_state,
  to_db_money, to_db_money_ℤ, to_order_state, to_safe_money,
}
use item_lending_management.Reconciliation.{
  Discrepancy, by_id, check_figures, check_line, check_lines, check_order, check_order_fields,
  check_order_totals, figure, find_order_discrepancies, last_id, next_batch, on_totals,
  order_entity, order_fields, order_loop, owed_field, to_safe_money_ℤ,
}
use item_lending_management.Reconciliation.Batches.{HasIds, find_order_discrepancies-all}
use item_lending_management.Reconciliation.Clean.{recompute_order-clean}

abbrev line : OrderLine
line = record {
  id = 1;
  item_id = 4;
  quantity = 10;
  unit_deposit = 5;
  line_total = 50;
  returned_accepted = 0;
  returned_damaged = 0;
  out_quantity = 10;
}

abbrev order : ℕ → ℕ → ℕ → Order
order id owed version = record {
  id = id;
  order_number = id;
  customer_id = 2;
  date = 100;
  payment_type = lent;
  cancelled_at = none;
  lines = line ∷ [];
  returns = [];
  status = is_open;
  deposit_total = 50;
  payments_net = pos 0;
  credits_total = 0;
  refunds_net = pos 0;
  owed = owed;
  out_quantity_total = 10;
  out_value = 50;
  held = 0;
  compensation = pos 0;
  version = version;
}

-- Stored out of the order of their ids, the second with 1 too little owed.
abbrev table : Rows
table = record {
  orders = order 9 50 1 ∷ order 7 49 1 ∷ order 8 50 1 ∷ [];
  ledger_entries = [];
  next_entry_id = 1;
  history = [];
}

abbrev found : List Discrepancy
found =
    record {
      entity = order_entity;
      id = 7;
      field = owed_field;
      stored = figure (pos 49);
      expected = figure (pos 50);
    }
    ∷ []

reports_owed : find_order_discrepancies 2 table ≡ ok found
unfolding find_order_discrepancies order_loop next_batch by_id last_id check_order_totals
    check_order on_totals check_figures order_fields check_order_fields check_lines check_line
    to_safe_money_ℤ to_safe_money to_order_state line_state return_state entry_state
    compute_order_totals raw_line live_totals line_totals line_totals_of net assert_safe
    assert_safe_ℤ owed_of out_value_of ◌+ℤ◌ ◌-ℤ◌
reports_owed = refl

HasIds-table : HasIds table.orders
HasIds-table = (
  omega arith,
  ((omega arith, (omega arith, tt)), (omega arith, ((omega arith, tt), (omega arith, (tt, tt))))),
)

find_order_discrepancies-all_example :
    find_order_discrepancies 2 table
    ≡ check_order_totals table.ledger_entries (by_id table.orders) []
find_order_discrepancies-all_example =
    find_order_discrepancies-all 2 table (omega arith) HasIds-table

abbrev totals : OrderTotals
totals = record {
  lines =
      record {
        id = 1;
        line_total = 50;
        returned_accepted = 0;
        returned_damaged = 0;
        out_quantity = 10;
      }
      ∷ [];
  deposit_total = 50;
  payments_net = pos 0;
  credits_total = 0;
  refunds_net = pos 0;
  owed = 50;
  out_quantity_total = 10;
  out_value = 50;
  held = 0;
  compensation = pos 0;
  status = is_open;
}

abbrev table_mended : Rows
table_mended = record table { orders = order 9 50 1 ∷ order 7 50 2 ∷ order 8 50 1 ∷ [] }

mends_owed : recompute_order 7 true table ≡ ok (table_mended, totals)
unfolding recompute_order find_order_or_throw db_totals to_db_money to_db_money_ℤ to_safe_money
    to_order_state line_state return_state entry_state compute_order_totals raw_line live_totals
    line_totals line_totals_of net assert_safe assert_safe_ℤ owed_of out_value_of ◌+ℤ◌ ◌-ℤ◌
mends_owed = refl

recompute_order-clean_example :
    (o : Order) × (find_order 7 table_mended ≡ some o)
    × (check_order table_mended.ledger_entries o ≡ ok [])
recompute_order-clean_example = recompute_order-clean 7 true table mends_owed
