-- ===== src/Orders/State.antt =====
-- apps/api/src/modules/orders/order-state.ts, and the money conversions of
-- apps/api/src/common/utils/money.ts.
use item_lending_management.Prelude.{
  Bool, List, Option, [], false, if◌then◌else◌, leb, neg_part, none, not, pos_part, some, suc, true,
  ℕ, ℤ, ◌&&◌, ◌==◌, ◌||◌, ◌∷◌,
}
use item_lending_management.Failure.{
  Result, caller_bug, err, ok, or_throw, traverse, unsafe_integer, ◌>>=◌,
}
use item_lending_management.Store.{
  LedgerEntry, Order, OrderLine, PalletReturn, Rows, entries_of_order, find_order, update_order,
}
use item_lending_management.Domain.{
  LedgerEntryState, LineTotals, OrderLineState, OrderState, OrderTotals, ReturnLineState,
  ReturnState, compute_order_totals, max_safe,
}

unfoldable pub to_safe_money : ℕ → Result ℕ
to_safe_money value = if not (leb value max_safe) then err unsafe_integer else ok value

unfoldable pub to_db_money : ℕ → Result ℕ
to_db_money value = if not (leb value max_safe) then err unsafe_integer else ok value

-- The same of a figure that may be negative.
unfoldable pub to_db_money_ℤ : ℤ → Result ℤ
to_db_money_ℤ value =
    if not (leb (pos_part value) max_safe && leb (neg_part value) max_safe)
    then err unsafe_integer
    else ok value

unfoldable pub line_state : OrderLine → Result OrderLineState
line_state line = do
  unit_deposit ← to_safe_money line.unit_deposit
  ok (record { id = line.id; quantity = line.quantity; unit_deposit = unit_deposit })

unfoldable pub return_line_state : ReturnLineState → Result ReturnLineState
return_line_state rl = do
  damaged_refund ← to_safe_money rl.damaged_refund
  ok (record {
    order_line_id = rl.order_line_id;
    accepted_quantity = rl.accepted_quantity;
    damaged_quantity = rl.damaged_quantity;
    damaged_refund = damaged_refund;
  })

abbrev pub is_some {ℓ} : {A : Type ℓ} → Option A → Bool
is_some none = false
is_some (some a) = true

unfoldable pub return_state : PalletReturn → Result ReturnState
return_state pr = do
  lines ← traverse return_line_state pr.lines
  ok (record { reversed = is_some pr.reversed_at; lines = lines })

unfoldable pub entry_state : LedgerEntry → Result LedgerEntryState
entry_state entry = do
  amount ← to_safe_money entry.amount
  ok (record { type = entry.type; amount = amount })

-- An order with its ledger rows, as `ORDER_STATE_INCLUDE` loads it.
unfoldable pub to_order_state : Order → List LedgerEntry → Result OrderState
to_order_state order entries = do
  lines ← traverse line_state order.lines
  returns ← traverse return_state order.returns
  ledger ← traverse entry_state entries
  ok (record {
    cancelled = is_some order.cancelled_at;
    lines = lines;
    returns = returns;
    ledger = ledger;
  })

abbrev pub line_changed : OrderLine → LineTotals → Bool
line_changed line next =
    not (line.returned_accepted == next.returned_accepted)
    || (not (line.returned_damaged == next.returned_damaged)
        || not (line.out_quantity == next.out_quantity))

abbrev pub cache_line : OrderLine → LineTotals → OrderLine
cache_line line next =
    if line_changed line next
    then record line {
      returned_accepted = next.returned_accepted;
      returned_damaged = next.returned_damaged;
      out_quantity = next.out_quantity;
    }
    else line

-- The loop of `recomputeOrder`: a line with no totals at its place is left alone.
abbrev pub cache_lines : List OrderLine → List LineTotals → List OrderLine
cache_lines [] totals = []
cache_lines (line ∷ lines) [] = line ∷ lines
cache_lines (line ∷ lines) (next ∷ totals) = cache_line line next ∷ cache_lines lines totals

-- The figures as `toDbMoney` lets them through.
unfoldable pub db_totals : OrderTotals → Result OrderTotals
db_totals totals = do
  deposit_total ← to_db_money totals.deposit_total
  payments_net ← to_db_money_ℤ totals.payments_net
  credits_total ← to_db_money totals.credits_total
  refunds_net ← to_db_money_ℤ totals.refunds_net
  owed ← to_db_money totals.owed
  out_value ← to_db_money totals.out_value
  held ← to_db_money totals.held
  compensation ← to_db_money_ℤ totals.compensation
  ok (record {
    lines = totals.lines;
    deposit_total = deposit_total;
    payments_net = payments_net;
    credits_total = credits_total;
    refunds_net = refunds_net;
    owed = owed;
    out_quantity_total = totals.out_quantity_total;
    out_value = out_value;
    held = held;
    compensation = compensation;
    status = totals.status;
  })

abbrev pub cache_order : Bool → OrderTotals → Order → Order
cache_order bump_version totals order = record order {
  lines = cache_lines order.lines totals.lines;
  status = totals.status;
  deposit_total = totals.deposit_total;
  payments_net = totals.payments_net;
  credits_total = totals.credits_total;
  refunds_net = totals.refunds_net;
  owed = totals.owed;
  out_quantity_total = totals.out_quantity_total;
  out_value = totals.out_value;
  held = totals.held;
  compensation = totals.compensation;
  version = if bump_version then suc order.version else order.version;
}

-- `findUniqueOrThrow`
unfoldable pub find_order_or_throw : ℕ → Rows → Result Order
find_order_or_throw id rows = or_throw caller_bug (find_order id rows)

unfoldable pub recompute_order : ℕ → Bool → Rows → Result (Rows × OrderTotals)
recompute_order order_id bump_version rows = do
  order ← find_order_or_throw order_id rows
  state ← to_order_state order (entries_of_order order_id rows.ledger_entries)
  totals ← compute_order_totals state
  stored ← db_totals totals
  ok (
    record rows { orders = update_order order_id (cache_order bump_version stored) rows.orders },
    totals,
  )

-- What the ledger rows of an order say its figures are, whatever its cache says.
unfoldable pub order_totals : ℕ → Rows → Result OrderTotals
order_totals order_id rows = do
  order ← find_order_or_throw order_id rows
  state ← to_order_state order (entries_of_order order_id rows.ledger_entries)
  compute_order_totals state
