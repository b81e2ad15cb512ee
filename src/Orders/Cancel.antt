-- ===== src/Orders/Cancel.antt =====
-- The cancelling of an order: `cancel` of apps/api/src/modules/orders/order-changes.service.ts, and
-- `cancelledMark` of apps/api/src/modules/orders/order-state.ts.
use item_lending_management.Prelude.{List, Option, [], map, none, pos, some, true, ℕ, ◌++◌, ◌∷◌}
use item_lending_management.Failure.{Result, api, ok, order_cancelled, throw_if, ◌>>=◌, ◌>>◌}
use item_lending_management.Domain.{is_cancelled}
use item_lending_management.Store.{
  LedgerEntry, Order, OrderLine, Rows, entries_of_order, order_cancel, update_order,
}
use item_lending_management.Orders.State.{is_some, recompute_order, to_safe_money}
use item_lending_management.Orders.Rules.{
  ReturnWith, assert_no_activity, order_activity, standing_automatic_payment,
}
use item_lending_management.Ledger.{
  MoneyEntryInput, audit_entry, of_payment_reversal, order_found, record_entry,
}
use item_lending_management.Stock.{MovementReason, StockMovementInput, apply}
use item_lending_management.Versioning.{assert_version}
use item_lending_management.PalletCredits.{CreditRows, reverse_for_order}

-- The tables that cancelling reads and writes. `returns_with` is what the include reads of the returns
-- that were recorded from an order's page, and `cancellations` the history rows of cancelled orders.
pub record CancelRows : Type 0 where
  pub rows : Rows
  pub credit_rows : CreditRows
  pub returns_with : ℕ → List ReturnWith
  pub cancellations : List (ℕ × ℕ)

abbrev pub cancelled_mark : ℕ → Order → Order
cancelled_mark at order = record order { cancelled_at = some at; status = is_cancelled }

abbrev pub cancel_movement : ℕ → OrderLine → StockMovementInput
cancel_movement order_id line = record {
  item_id = line.item_id;
  quantity = pos line.quantity;
  reason = MovementReason.order_cancel order_id;
}

-- What refuses a cancelling, in the order of the checks.
unfoldable pub assert_cancellable :
    ℕ → ℕ → Order → List ReturnWith → List LedgerEntry → Result (Unit {0})
assert_cancellable order_id version order returns_with entries =
    assert_version order.version version
    >> throw_if (is_some order.cancelled_at) (api (order_cancelled order_id))
    >> assert_no_activity (order_activity order returns_with entries)

-- `stock.apply` and the credits share the stock.
unfoldable pub stock_back : Order → ℕ → CreditRows → Result CreditRows
stock_back order user_id rows =
    apply rows.stock (map (cancel_movement order.id) order.lines) user_id >>= λ stock.
    ok (record rows { stock = stock })

abbrev pub cancel_reversal : ℕ → ℕ → ℕ → LedgerEntry → MoneyEntryInput
cancel_reversal order_id today amount entry = record {
  order_id = order_id;
  type = of_payment_reversal;
  source = order_cancel;
  amount = amount;
  date = some today;
  is_automatic = none;
  return_id = none;
  reverses_entry_id = some entry.id;
  note = none;
}

-- The reversal of the standing automatic payment, if the order has one.
unfoldable pub reverse_automatic :
    ℕ → ℕ → Option LedgerEntry → ℕ → Rows → Result (Rows × Option LedgerEntry)
reverse_automatic order_id today none user_id rows = ok (rows, none)
reverse_automatic order_id today (some entry) user_id rows = do
  amount ← to_safe_money entry.amount
  (written, reversal) ← record_entry (cancel_reversal order_id today amount entry) user_id rows
  ok (written, some reversal)

unfoldable pub mark_cancelled : ℕ → ℕ → Rows → Rows
mark_cancelled now order_id rows = record rows {
  orders = update_order order_id (cancelled_mark now) rows.orders;
}

unfoldable pub audit_reversal : Option LedgerEntry → ℕ → Rows → Result Rows
audit_reversal none order_number rows = ok rows
audit_reversal (some reversal) order_number rows = audit_entry reversal order_number rows

-- The writes, once the checks are passed.
unfoldable pub write_cancel : ℕ → ℕ → Order → ℕ → CancelRows → Result CancelRows
write_cancel now today order user_id state = do
  let entries = entries_of_order order.id state.rows.ledger_entries
  came_back ← stock_back order user_id state.credit_rows
  credit_rows ← reverse_for_order order.id order.customer_id today user_id came_back
  (reversed, reversal) ←
      reverse_automatic order.id today (standing_automatic_payment entries) user_id state.rows
  (recomputed, _) ← recompute_order order.id true (mark_cancelled now order.id reversed)
  audited ← audit_reversal reversal order.order_number recomputed
  ok (record state {
    rows = audited;
    credit_rows = credit_rows;
    cancellations = state.cancellations ++ (order.id, order.order_number) ∷ [];
  })

-- The answer is the stored order, in place of its detail view.
unfoldable pub cancel : ℕ → ℕ → ℕ → ℕ → ℕ → CancelRows → Result (CancelRows × Order)
cancel now today order_id version user_id state = do
  order ← order_found order_id state.rows
  _ ←
      assert_cancellable order_id version order (state.returns_with order_id)
        (entries_of_order order_id state.rows.ledger_entries)
  after ← write_cancel now today order user_id state
  detail ← order_found order_id after.rows
  ok (after, detail)
