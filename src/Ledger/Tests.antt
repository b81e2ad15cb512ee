-- ===== src/Ledger/Tests.antt =====
-- A manual payment of apps/api/src/modules/ledger/payments.service.ts recorded and undone, and its
-- submission repeated.
use item_lending_management.Prelude.{
  Bool, Option, [], arith, false, none, pos, refl, some, true, ℕ, ℤ, ◌+ℤ◌, ◌-ℤ◌, ◌-◌, ◌∷◌, ◌≡◌,
}
use item_lending_management.Failure.{
  api, business_date_in_future, caller_bug, err, ok, payment_exceeds_owed,
}
use item_lending_management.Domain.{
  OrderTotals, assert_safe, assert_safe_ℤ, compensation_of, compute_order_totals, deposit_of,
  is_open, line_totals, line_totals_of, live_totals, net, out_value_of, owed_of, raw_line,
  refund_line, return_credit, return_refund_due,
}
use item_lending_management.Domain.Entry.{paid}
use item_lending_management.Store.{
  AuditAction, AuditEntry, LedgerEntry, Order, OrderLine, Rows, lent, payment_create,
  payment_reverse,
}
use item_lending_management.Orders.State.{
  db_totals, entry_state, find_order_or_throw, line_state, order_totals, recompute_order,
  return_line_state, return_state, to_db_money, to_db_money_ℤ, to_order_state, to_safe_money,
}
use item_lending_management.Idempotency.{
  IdempotencyScope, IdempotentRequest, KeyRow, Keyed, creating, find_stored, run, store, stored_row,
  thrown,
}
use item_lending_management.Idempotency.Once.{run-overlapped, run-replayed}
use item_lending_management.Ledger.{
  PaymentCreateBody, PaymentResult, assert_not_in_future, assert_payable, audit_entry, create,
  create_payment, entry_found, entry_row, ledger_audit_entry, order_found, record_entry,
  reversal_input, reverse, write_entry,
}
use item_lending_management.Ledger.Payments.{Paid, create_payment-effect, payment_row}
use item_lending_management.Ledger.Reversals.{Undone, reverse-effect}

abbrev line : OrderLine
line = record {
  id = 1;
  item_id = 4;
  quantity = 10;
  unit_deposit = 5;
  line_total = 50;
  returned_accepted = 0;
  returned_damaged = 0;
  out_quantity = 10;
}

abbrev order_owing : ℕ → ℤ → ℕ → Order
order_owing owed payments version = record {
  id = 7;
  order_number = 70;
  customer_id = 2;
  date = 100;
  payment_type = lent;
  cancelled_at = none;
  lines = line ∷ [];
  returns = [];
  status = is_open;
  deposit_total = 50;
  payments_net = payments;
  credits_total = 0;
  refunds_net = pos 0;
  owed = owed;
  out_quantity_total = 10;
  out_value = 50;
  held = 50 - owed;
  compensation = pos 0;
  version = version;
}

abbrev body : PaymentCreateBody
body = record { date = 101; amount = 20; note = none }

abbrev entry : LedgerEntry
entry = payment_row 7 body 50 3 1

abbrev reversal : LedgerEntry
reversal = entry_row (reversal_input entry 20 102 none) 20 none 3 2

abbrev history_of : LedgerEntry → AuditAction → Option Bool → AuditEntry
history_of e action automatic = record {
  action = action;
  entity_id = e.id;
  order_number = 70;
  amount = 20;
  automatic = automatic;
  after = e;
}

abbrev rows_before : Rows
rows_before = record {
  orders = order_owing 50 (pos 0) 1 ∷ [];
  ledger_entries = [];
  next_entry_id = 1;
  history = [];
}

abbrev rows_paid : Rows
rows_paid = record {
  orders = order_owing 30 (pos 20) 2 ∷ [];
  ledger_entries = entry ∷ [];
  next_entry_id = 2;
  history = history_of entry payment_create (some false) ∷ [];
}

abbrev rows_undone : Rows
rows_undone = record {
  orders = order_owing 50 (pos 0) 3 ∷ [];
  ledger_entries = entry ∷ reversal ∷ [];
  next_entry_id = 3;
  history =
      history_of entry payment_create (some false) ∷ history_of reversal payment_reverse none ∷ [];
}

abbrev answer : PaymentResult
answer = record { ledger_entry_id = 1; order = order_owing 30 (pos 20) 2 }

abbrev undone : PaymentResult
undone = record { ledger_entry_id = 2; order = order_owing 50 (pos 0) 3 }

create_test : create_payment 7 body 3 rows_before ≡ ok (rows_paid, answer)
unfolding create_payment reverse write_entry order_found entry_found assert_payable record_entry
    recompute_order find_order_or_throw to_order_state line_state return_state return_line_state
    entry_state to_safe_money to_db_money to_db_money_ℤ db_totals audit_entry ledger_audit_entry
    compute_order_totals live_totals line_totals line_totals_of raw_line assert_safe assert_safe_ℤ
    net return_credit refund_line return_refund_due deposit_of compensation_of out_value_of owed_of
    ◌+ℤ◌ ◌-ℤ◌ order_totals find_stored store creating run create assert_not_in_future paid
create_test = refl

reverse_test : reverse 102 1 none 3 rows_paid ≡ ok (rows_undone, undone)
unfolding create_payment reverse write_entry order_found entry_found assert_payable record_entry
    recompute_order find_order_or_throw to_order_state line_state return_state return_line_state
    entry_state to_safe_money to_db_money to_db_money_ℤ db_totals audit_entry ledger_audit_entry
    compute_order_totals live_totals line_totals line_totals_of raw_line assert_safe assert_safe_ℤ
    net return_credit refund_line return_refund_due deposit_of compensation_of out_value_of owed_of
    ◌+ℤ◌ ◌-ℤ◌ order_totals find_stored store creating run create assert_not_in_future paid
reverse_test = refl

too_much_test :
    create_payment 7 (record body { amount = 51 }) 3 rows_before
    ≡ err (api (payment_exceeds_owed 50 51))
unfolding create_payment reverse write_entry order_found entry_found assert_payable record_entry
    recompute_order find_order_or_throw to_order_state line_state return_state return_line_state
    entry_state to_safe_money to_db_money to_db_money_ℤ db_totals audit_entry ledger_audit_entry
    compute_order_totals live_totals line_totals line_totals_of raw_line assert_safe assert_safe_ℤ
    net return_credit refund_line return_refund_due deposit_of compensation_of out_value_of owed_of
    ◌+ℤ◌ ◌-ℤ◌ order_totals find_stored store creating run create assert_not_in_future paid
too_much_test = refl

create_payment-effect_example : Paid 7 body 3 rows_before rows_paid answer
create_payment-effect_example = create_payment-effect 7 body 3 rows_before create_test

abbrev figures : OrderTotals
figures = record {
  lines =
      record {
        id = 1;
        line_total = 50;
        returned_accepted = 0;
        returned_damaged = 0;
        out_quantity = 10;
      }
      ∷ [];
  deposit_total = 50;
  payments_net = pos 20;
  credits_total = 0;
  refunds_net = pos 0;
  owed = 30;
  out_quantity_total = 10;
  out_value = 50;
  held = 20;
  compensation = pos 0;
  status = is_open;
}

figures_test : order_totals 7 rows_paid ≡ ok figures
unfolding create_payment reverse write_entry order_found entry_found assert_payable record_entry
    recompute_order find_order_or_throw to_order_state line_state return_state return_line_state
    entry_state to_safe_money to_db_money to_db_money_ℤ db_totals audit_entry ledger_audit_entry
    compute_order_totals live_totals line_totals line_totals_of raw_line assert_safe assert_safe_ℤ
    net return_credit refund_line return_refund_due deposit_of compensation_of out_value_of owed_of
    ◌+ℤ◌ ◌-ℤ◌ order_totals find_stored store creating run create assert_not_in_future paid
figures_test = refl

entry_test : entry_found 1 rows_paid ≡ ok entry
unfolding entry_found
entry_test = refl

reverse-effect_example :
    Undone 102 1 none 3 rows_paid entry (order_owing 30 (pos 20) 2) figures rows_undone
reverse-effect_example =
    reverse-effect 102 1 none 3 rows_paid entry (order_owing 30 (pos 20) 2) entry_test refl refl
      figures_test reverse_test

abbrev request : IdempotentRequest
request = record {
  user_id = 3;
  key = 5 ∷ 6 ∷ [];
  scope = IdempotencyScope.payment_create;
  request_hash = 9 ∷ [];
}

abbrev stored : KeyRow PaymentResult
stored = stored_row 1000 request answer 1

abbrev db_before : Keyed PaymentResult Rows
db_before = record { keys = []; next_key_id = 1; rows = rows_before }

abbrev db_after : Keyed PaymentResult Rows
db_after = record { keys = stored ∷ []; next_key_id = 2; rows = rows_paid }

run_test :
    run 1000 request (λ d. d) (creating 1000 request (create_payment 7 body 3)) db_before
    ≡ (db_after, ok (record { body = answer; replayed = false }))
unfolding create_payment reverse write_entry order_found entry_found assert_payable record_entry
    recompute_order find_order_or_throw to_order_state line_state return_state return_line_state
    entry_state to_safe_money to_db_money to_db_money_ℤ db_totals audit_entry ledger_audit_entry
    compute_order_totals live_totals line_totals line_totals_of raw_line assert_safe assert_safe_ℤ
    net return_credit refund_line return_refund_due deposit_of compensation_of out_value_of owed_of
    ◌+ℤ◌ ◌-ℤ◌ order_totals find_stored store creating run create assert_not_in_future paid
run_test = refl

future_test :
    create 1000 100 request 7 body 3 (λ d. d) db_before
    ≡ (db_before, err (api (business_date_in_future 100)))
unfolding create_payment reverse write_entry order_found entry_found assert_payable record_entry
    recompute_order find_order_or_throw to_order_state line_state return_state return_line_state
    entry_state to_safe_money to_db_money to_db_money_ℤ db_totals audit_entry ledger_audit_entry
    compute_order_totals live_totals line_totals line_totals_of raw_line assert_safe assert_safe_ℤ
    net return_credit refund_line return_refund_due deposit_of compensation_of out_value_of owed_of
    ◌+ℤ◌ ◌-ℤ◌ order_totals find_stored store creating run create assert_not_in_future paid
future_test = refl

run-replayed_example :
    run 2000 request (λ d. db_before) (λ d. thrown caller_bug) db_after
    ≡ (db_after, ok (record { body = answer; replayed = true }))
run-replayed_example =
    run-replayed 1000 2000 request (λ d. d) (λ d. db_before) (create_payment 7 body 3)
      (λ d. thrown caller_bug) db_before run_test (omega arith)

later_test : find_stored 1500 request db_before ≡ ok (db_before, none)
unfolding find_stored
later_test = refl

run-overlapped_example :
    run 1500 request
      (λ d. (run 1000 request (λ d'. d') (creating 1000 request (create_payment 7 body 3)) d).0)
      (creating 1500 request (create_payment 7 body 3))
      db_before
    ≡ (db_after, ok (record { body = answer; replayed = true }))
run-overlapped_example =
    run-overlapped 1000 1500 request (create_payment 7 body 3) (create_payment 7 body 3) db_before
      later_test run_test (omega arith)

abbrev too_much : PaymentCreateBody
too_much = record body { amount = 51 }

refused_test :
    run 1000 request (λ d. d) (creating 1000 request (create_payment 7 too_much 3)) db_before
    ≡ (db_before, err (api (payment_exceeds_owed 50 51)))
unfolding create_payment reverse write_entry order_found entry_found assert_payable record_entry
    recompute_order find_order_or_throw to_order_state line_state return_state return_line_state
    entry_state to_safe_money to_db_money to_db_money_ℤ db_totals audit_entry ledger_audit_entry
    compute_order_totals live_totals line_totals line_totals_of raw_line assert_safe assert_safe_ℤ
    net return_credit refund_line return_refund_due deposit_of compensation_of out_value_of owed_of
    ◌+ℤ◌ ◌-ℤ◌ order_totals find_stored store creating run create assert_not_in_future paid
refused_test = refl
