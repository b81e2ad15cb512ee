-- ===== src/Orders/Create.antt =====
-- `create` of apps/api/src/modules/orders/orders.service.ts, the hand-over of an order: the pallets that
-- come off what the customer is owed, the credit rule, the order with its stock movements, and the
-- automatic payment of a cash order.
use item_lending_management.Prelude.{
  Bool, Dict, List, Option, [], false, if◌then◌else◌, keep, length, ltb, map, neg, none, pos, some,
  suc, true, ℕ, ◌&&◌, ◌++◌, ◌+◌, ◌∷◌,
}
use item_lending_management.Failure.{Result, err, ok, ◌>>=◌, ◌>>◌}
use item_lending_management.Domain.{is_open}
use item_lending_management.Store.{
  LedgerEntry, LedgerEntrySource, Order, OrderLine, PaymentType, Rows, cash, lent,
}
use item_lending_management.Stock.{MovementReason, StockMovementInput, apply}
use item_lending_management.PalletCredits.{CreditRows, plan_order_use, use_for_order}
use item_lending_management.Idempotency.{
  Ending, IdempotentRequest, IdempotentResult, Keyed, creating, run, thrown,
}
use item_lending_management.Ledger.{
  MoneyEntryInput, assert_not_in_future, audit_entry, dated, of_payment, order_found, record_entry,
}
use item_lending_management.Orders.State.{is_some, recompute_order, to_db_money}
use item_lending_management.Orders.Rules.{Actor, PricedLine, assert_may_price_and_override}
use item_lending_management.Orders.CreditLimit.{CreditOverride, assert_credit_allows}
use item_lending_management.Orders.Pricing.{
  CreateRows, CustomerRow, HandOver, OrderCreateBody, handed_over, less_credit, load_parties,
  price_lines,
}

-- `lineCacheSeed`: all of a new line is out.
unfoldable pub new_line : ℕ → PricedLine → Result OrderLine
new_line id line = do
  unit_deposit ← to_db_money line.unit_deposit
  line_total ← to_db_money line.line_total
  ok (record {
    id = id;
    item_id = line.item_id;
    quantity = line.quantity;
    unit_deposit = unit_deposit;
    line_total = line_total;
    returned_accepted = 0;
    returned_damaged = 0;
    out_quantity = line.quantity;
  })

unfoldable pub new_lines : ℕ → List PricedLine → Result (List OrderLine)
new_lines next [] = ok []
new_lines next (line ∷ lines) =
    let rest = new_lines (suc next) lines in
    new_line next line >>= λ created. rest >>= λ others. ok (created ∷ others)

-- `tx.order.create`; the figures are the schema's defaults until the recompute.
abbrev pub new_order : ℕ → ℕ → OrderCreateBody → List OrderLine → Order
new_order id order_number body lines = record {
  id = id;
  order_number = order_number;
  customer_id = body.customer_id;
  date = body.date;
  payment_type = body.payment_type;
  cancelled_at = none;
  lines = lines;
  returns = [];
  status = is_open;
  deposit_total = 0;
  payments_net = pos 0;
  credits_total = 0;
  refunds_net = pos 0;
  owed = 0;
  out_quantity_total = 0;
  out_value = 0;
  held = 0;
  compensation = pos 0;
  version = 1;
}

abbrev pub new_hand_over : ℕ → ℕ → OrderCreateBody → ℕ → Option CreditOverride → HandOver
new_hand_over now id body user_id override = record {
  order_id = id;
  driver_id = body.driver_id;
  notes = body.notes;
  created_by_user_id = user_id;
  credit_override_by_user_id = if is_some override then some user_id else none;
  credit_override_at = if is_some override then some now else none;
}

abbrev pub create_movement : ℕ → PricedLine → StockMovementInput
create_movement order_id line = record {
  item_id = line.item_id;
  quantity = neg (pos line.quantity);
  reason = MovementReason.order_create order_id;
}

-- The stock of the lines, then the pallets that come off what the customer is owed.
unfoldable pub stock_out :
    OrderCreateBody → ℕ → List PricedLine → Dict ℕ → ℕ → CreditRows → Result CreditRows
stock_out body order_id lines from_credit user_id rows = do
  stock ← apply rows.stock (map (create_movement order_id) lines) user_id
  use_for_order body.customer_id order_id from_credit body.date user_id
      (record rows { stock = stock })

abbrev pub is_cash : PaymentType → Bool
is_cash cash = true
is_cash lent = false

-- The whole deposit was owed, and this pays it.
abbrev pub hand_over_payment : ℕ → ℕ → MoneyEntryInput
hand_over_payment order_id deposit_total = record {
  order_id = order_id;
  type = of_payment deposit_total;
  source = LedgerEntrySource.order_create;
  amount = deposit_total;
  date = none;
  is_automatic = some true;
  return_id = none;
  reverses_entry_id = none;
  note = none;
}

unfoldable pub pay_cash : PaymentType → ℕ → ℕ → ℕ → Rows → Result (Rows × Option LedgerEntry)
pay_cash payment_type order_id deposit_total user_id rows =
    let paid = (do
      (written, entry) ← record_entry (hand_over_payment order_id deposit_total) user_id rows
      ok (written, some entry)) in
    if is_cash payment_type && ltb 0 deposit_total then paid else ok (rows, none)

unfoldable pub audit_payment : Option LedgerEntry → ℕ → Rows → Result Rows
audit_payment none order_number rows = ok rows
audit_payment (some entry) order_number rows = audit_entry entry order_number rows

-- The writes, once everything is priced and allowed.
unfoldable pub write_order :
    ℕ
    → OrderCreateBody
    → List PricedLine
    → ℕ
    → Dict ℕ
    → Option CreditOverride
    → ℕ
    → CreateRows
    → Result (CreateRows × Order)
write_order now body lines deposit_total from_credit override user_id state = do
  let id = state.next_order_id
  let order_number = suc state.last_number
  stored ← new_lines state.next_line_id lines
  let created = record state.rows {
    orders = state.rows.orders ++ new_order id order_number body stored ∷ [];
  }
  credit_rows ← stock_out body id lines from_credit user_id state.credit_rows
  (paid, payment_entry) ← pay_cash body.payment_type id deposit_total user_id created
  (recomputed, _) ← recompute_order id false paid
  audited ← audit_payment payment_entry order_number recomputed
  detail ← order_found id audited
  ok (
    record state {
      rows = audited;
      credit_rows = credit_rows;
      last_number = order_number;
      next_order_id = suc id;
      next_line_id = state.next_line_id + length lines;
      hand_overs = state.hand_overs ++ new_hand_over now id body user_id override ∷ [];
      creations =
          state.creations
          ++ record { order_id = id; order_number = order_number; credit_override = override } ∷ [];
    },
    detail,
  )

-- `create` behind `replayIfStored`.
unfoldable pub create_order :
    ℕ → OrderCreateBody → Actor → ℕ → CustomerRow → CreateRows → Result (CreateRows × Order)
create_order now body actor user_id customer state = do
  let from_credit = plan_order_use customer.id state.credit_rows.credits (handed_over body.lines)
  (priced, deposit_total) ←
      price_lines state (map (less_credit from_credit) body.lines) (handed_over body.lines)
  override ←
      assert_credit_allows customer.id customer.credit_limit (pos deposit_total)
        body.confirm_credit_override actor state.rows.orders
  write_order now body (keep (λ (l : PricedLine). ltb 0 l.quantity) priced) deposit_total
      from_credit override user_id state

-- The parties are locked and checked before the second look at the stored answers.
abbrev pub with_parties :
    Result CustomerRow → (CustomerRow → Ending Order CreateRows) → Ending Order CreateRows
with_parties (err e) rest = thrown e
with_parties (ok customer) rest = rest customer

unfoldable pub create :
    ℕ
    → ℕ
    → IdempotentRequest
    → OrderCreateBody
    → Actor
    → ℕ
    → (Keyed Order CreateRows → Keyed Order CreateRows)
    → Keyed Order CreateRows
    → Keyed Order CreateRows × Result (IdempotentResult Order)
create now today request body actor user_id others = run now request others (λ db.
    dated
      (assert_may_price_and_override body.lines body.confirm_credit_override actor
        >> assert_not_in_future today body.date)
      (with_parties (load_parties body db.rows)
        (λ customer. creating now request (create_order now body actor user_id customer) db)))
