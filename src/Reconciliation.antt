-- ===== src/Reconciliation.antt =====
-- apps/api/src/prisma/reconciliation.ts: what it reports of the stored orders (R2), a batch at a
-- time by ascending id, and the order of the rows it reads.
use item_lending_management.Prelude.{
  Bool, List, [], eqb_ℤ, false, if◌then◌else◌, keep, leb, length, ltb, neg_part, not, pos, pos_part,
  suc, take, true, zero, ℕ, ℤ, ◌&&◌, ◌++◌, ◌==◌, ◌∷◌,
}
use item_lending_management.Failure.{Failure, Result, caller_bug, err, ok, unsafe_integer, ◌>>=◌}
use item_lending_management.Domain.{
  LineTotals, OrderStatus, OrderTotals, compute_order_totals, is_cancelled, is_open, max_safe,
  settled,
}
use item_lending_management.Store.{LedgerEntry, Order, OrderLine, Rows, entries_of_order}
use item_lending_management.Orders.State.{to_order_state, to_safe_money}
pub mod Batches
pub mod Clean
mod Tests

pub data Entity : Type 0 where
  order_entity order_line_entity : Entity

pub data Field : Type 0 where
  invariant_field status_field deposit_total_field payments_net_field credits_total_field : Field
  refunds_net_field owed_field out_quantity_total_field out_value_field held_field : Field
  compensation_field returned_accepted_field returned_damaged_field out_quantity_field : Field

-- `number | string`: a figure, a status, the message of what was thrown, a fixed text.
pub data Figure : Type 0 where
  figure : ℤ → Figure
  status_text : OrderStatus → Figure
  message_of : Failure → Figure
  consistent_ledger : Figure

pub record Discrepancy : Type 0 where
  pub entity : Entity
  pub id : ℕ
  pub field : Field
  pub stored : Figure
  pub expected : Figure

-- `toSafeMoney` of a figure that may be negative.
unfoldable pub to_safe_money_ℤ : ℤ → Result ℤ
to_safe_money_ℤ value =
    if not (leb (pos_part value) max_safe && leb (neg_part value) max_safe)
    then err unsafe_integer
    else ok value

abbrev pub same_status : OrderStatus → OrderStatus → Bool
same_status is_open is_open = true
same_status settled settled = true
same_status is_cancelled is_cancelled = true
same_status _ _ = false

-- `if (stored !== expected) out.push({ entity: 'order', id: order.id, field, stored, expected })`
abbrev pub compare_number : Entity → ℕ → Field → ℕ → ℕ → List Discrepancy
compare_number entity id field stored expected =
    if not (stored == expected)
    then record {
      entity = entity;
      id = id;
      field = field;
      stored = figure (pos stored);
      expected = figure (pos expected);
    }
      ∷ []
    else []

abbrev pub compare_signed : ℕ → Field → ℤ → ℤ → List Discrepancy
compare_signed id field stored expected =
    if not (eqb_ℤ stored expected)
    then record {
      entity = order_entity;
      id = id;
      field = field;
      stored = figure stored;
      expected = figure expected;
    }
      ∷ []
    else []

abbrev pub compare_status : ℕ → OrderStatus → OrderStatus → List Discrepancy
compare_status id stored expected =
    if not (same_status stored expected)
    then record {
      entity = order_entity;
      id = id;
      field = status_field;
      stored = status_text stored;
      expected = status_text expected;
    }
      ∷ []
    else []

-- The stored figures of an order, in the order of `orderFields`.
pub record OrderFields : Type 0 where
  pub status : OrderStatus
  pub deposit_total : ℕ
  pub payments_net : ℤ
  pub credits_total : ℕ
  pub refunds_net : ℤ
  pub owed : ℕ
  pub out_quantity_total : ℕ
  pub out_value : ℕ
  pub held : ℕ
  pub compensation : ℤ

unfoldable pub order_fields : Order → Result OrderFields
order_fields order = do
  deposit_total ← to_safe_money order.deposit_total
  payments_net ← to_safe_money_ℤ order.payments_net
  credits_total ← to_safe_money order.credits_total
  refunds_net ← to_safe_money_ℤ order.refunds_net
  owed ← to_safe_money order.owed
  out_value ← to_safe_money order.out_value
  held ← to_safe_money order.held
  compensation ← to_safe_money_ℤ order.compensation
  ok (record {
    status = order.status;
    deposit_total = deposit_total;
    payments_net = payments_net;
    credits_total = credits_total;
    refunds_net = refunds_net;
    owed = owed;
    out_quantity_total = order.out_quantity_total;
    out_value = out_value;
    held = held;
    compensation = compensation;
  })

unfoldable pub check_order_fields : ℕ → OrderFields → OrderTotals → List Discrepancy
check_order_fields id stored totals =
    compare_status id stored.status totals.status
    ++ compare_number order_entity id deposit_total_field stored.deposit_total totals.deposit_total
    ++ compare_signed id payments_net_field stored.payments_net totals.payments_net
    ++ compare_number order_entity id credits_total_field stored.credits_total totals.credits_total
    ++ compare_signed id refunds_net_field stored.refunds_net totals.refunds_net
    ++ compare_number order_entity id owed_field stored.owed totals.owed
    ++ compare_number order_entity id out_quantity_total_field stored.out_quantity_total
        totals.out_quantity_total
    ++ compare_number order_entity id out_value_field stored.out_value totals.out_value
    ++ compare_number order_entity id held_field stored.held totals.held
    ++ compare_signed id compensation_field stored.compensation totals.compensation

unfoldable pub check_line : OrderLine → LineTotals → List Discrepancy
check_line line expected =
    compare_number order_line_entity line.id returned_accepted_field line.returned_accepted
      expected.returned_accepted
    ++ compare_number order_line_entity line.id returned_damaged_field line.returned_damaged
        expected.returned_damaged
    ++ compare_number order_line_entity line.id out_quantity_field line.out_quantity
        expected.out_quantity

-- `order.lines.forEach((line, i) => …)`; to read a figure of a missing `totals.lines[i]` throws.
unfoldable pub check_lines : List OrderLine → List LineTotals → Result (List Discrepancy)
check_lines [] totals = ok []
check_lines (line ∷ lines) [] = err caller_bug
check_lines (line ∷ lines) (expected ∷ totals) =
    let rest = check_lines lines totals in rest >>= λ found. ok (check_line line expected ++ found)

-- The rows and figures of an order that breaks no formula.
unfoldable pub check_figures : Order → OrderTotals → Result (List Discrepancy)
check_figures order totals = do
  fields ← order_fields order
  in_lines ← check_lines order.lines totals.lines
  ok (check_order_fields order.id fields totals ++ in_lines)

-- What the formulas throw is a `LedgerInvariantError`, which is reported.
unfoldable pub on_totals : Order → Result OrderTotals → Result (List Discrepancy)
on_totals order (err thrown) =
    let found : Discrepancy = record {
      entity = order_entity;
      id = order.id;
      field = invariant_field;
      stored = message_of thrown;
      expected = consistent_ledger;
    } in
    ok (found ∷ [])
on_totals order (ok totals) = check_figures order totals

-- One round of `checkOrderTotals`; what the mapping of the rows throws is thrown on.
unfoldable pub check_order : List LedgerEntry → Order → Result (List Discrepancy)
check_order ledger order = do
  state ← to_order_state order (entries_of_order order.id ledger)
  on_totals order (compute_order_totals state)

unfoldable pub check_order_totals :
    List LedgerEntry → List Order → List Discrepancy → Result (List Discrepancy)
check_order_totals ledger [] out = ok out
check_order_totals ledger (order ∷ orders) out =
    check_order ledger order >>= λ found. check_order_totals ledger orders (out ++ found)

abbrev pub insert_by_id : Order → List Order → List Order
insert_by_id o [] = o ∷ []
insert_by_id o (p ∷ ps) =
    let rest = insert_by_id o ps in if leb o.id p.id then o ∷ (p ∷ ps) else p ∷ rest

-- `orderBy: { id: 'asc' }`
unfoldable pub by_id : List Order → List Order
by_id [] = []
by_id (o ∷ os) = insert_by_id o (by_id os)

-- `findMany({ where: { id: { gt: cursor } }, orderBy: { id: 'asc' }, take: batchSize })`
unfoldable pub next_batch : ℕ → ℕ → List Order → List Order
next_batch batch_size cursor orders =
    take batch_size (keep (λ (o : Order). ltb cursor o.id) (by_id orders))

-- `orders[orders.length - 1]?.id ?? cursor`
unfoldable pub last_id : ℕ → List Order → ℕ
last_id cursor [] = cursor
last_id cursor (o ∷ os) = last_id o.id os

-- The `do … while` loop of R2, for at most so many rounds after the first.
unfoldable pub order_loop : ℕ → ℕ → Rows → ℕ → List Discrepancy → Result (List Discrepancy)
order_loop zero batch_size rows cursor out =
    check_order_totals rows.ledger_entries (next_batch batch_size cursor rows.orders) out
order_loop (suc fuel) batch_size rows cursor out =
    let orders = next_batch batch_size cursor rows.orders in
    let again = order_loop fuel batch_size rows (last_id cursor orders) in
    check_order_totals rows.ledger_entries orders out >>= λ found.
    if length orders == batch_size then again found else ok found

-- R2 of `findLedgerDiscrepancies`: a batch has at least one order unless the table is used up.
unfoldable pub find_order_discrepancies : ℕ → Rows → Result (List Discrepancy)
find_order_discrepancies batch_size rows =
    if ltb batch_size 1
    then err caller_bug
    else order_loop (length rows.orders) batch_size rows 0 []
