-- ===== src/Domain/Totals.antt =====
-- `computeOrderTotals` of packages/shared/src/domain/ledger-math.ts with its helpers, statement by
-- statement, and `returnRefundDue` and `returnMoney`. Sums are over exact whole numbers: the source
-- refuses (`assertSafe`) the figures that a double could not hold exactly.
use item_lending_management.Prelude.{
  Bool, Dict, List, [], concat_map, false, from_entries, if◌then◌else◌, keep, leb, lookup, ltb, map,
  neg_part, negsuc, none, not, pos, pos_part, some, sum, sum_by, sum_ℤ, true, ℕ, ℤ, ◌&&◌, ◌*◌, ◌+ℤ◌,
  ◌+◌, ◌-ℤ◌, ◌-◌, ◌==◌, ◌||◌, ◌∷◌,
}
use item_lending_management.Failure.{
  Result, err, ok, out_quantity_negative, owed_negative, traverse, unknown_order_line,
  unsafe_integer, ◌>>=◌,
}
use item_lending_management.Domain.Order.{
  LedgerEntryState, LedgerEntryType, LineTotals, OrderLineState, OrderState, OrderStatus,
  OrderTotals, ReturnLineState, ReturnState, is_cancelled, is_open, payment, payment_reversal,
  refund, refund_reversal, settled,
}

-- `Number.MAX_SAFE_INTEGER`
abbrev pub max_safe : ℕ
max_safe = 9007199254740991

unfoldable pub assert_safe : ℕ → Result ℕ
assert_safe n = if leb n max_safe then ok n else err unsafe_integer

unfoldable pub assert_safe_ℤ : ℤ → Result ℤ
assert_safe_ℤ n =
    if leb (pos_part n) max_safe && leb (neg_part n) max_safe then ok n else err unsafe_integer

-- `depositOf`: the unit deposit of the order line that a return line belongs to.
unfoldable pub deposit_of : Dict ℕ → ℕ → Result ℕ
deposit_of unit_deposit_by_line order_line_id = elim (lookup order_line_id unit_deposit_by_line) [
  | some unit_deposit ↦ ok unit_deposit
  | none ↦ err (unknown_order_line order_line_id)
]

-- A return line with its unit deposit, as `returnRefundDue` takes it.
pub record RefundLine : Type 0 where
  pub accepted_quantity : ℕ
  pub unit_deposit : ℕ
  pub damaged_refund : ℕ

abbrev pub refund_of : RefundLine → ℕ
refund_of l = l.accepted_quantity * l.unit_deposit + l.damaged_refund

unfoldable pub return_refund_due : List RefundLine → Result ℕ
return_refund_due lines = assert_safe (sum_by refund_of lines)

-- `Math.max(0, a − b)` is the truncated `-` of ℕ.
pub record ReturnMoney : Type 0 where
  pub cash_refund : ℕ
  pub owed_after : ℕ

unfoldable pub return_money : ℕ → ℕ → ReturnMoney
return_money owed_before refund_due = record {
  cash_refund = refund_due - owed_before;
  owed_after = owed_before - refund_due;
}

-- `lineTotalsRaw`
unfoldable pub raw_line : OrderLineState → Result (ℕ × ℕ)
raw_line line = do
  line_total ← assert_safe (line.quantity * line.unit_deposit)
  ok (line.id, line_total)

abbrev pub unreturned : ℕ × ℕ → LineTotals
unreturned (id, line_total) = record {
  id = id;
  line_total = line_total;
  returned_accepted = 0;
  returned_damaged = 0;
  out_quantity = 0;
}

abbrev cancelled_totals : List (ℕ × ℕ) → ℕ → OrderTotals
cancelled_totals raw deposit_total = record {
  lines = map unreturned raw;
  deposit_total = deposit_total;
  payments_net = pos 0;
  credits_total = 0;
  refunds_net = pos 0;
  owed = 0;
  out_quantity_total = 0;
  out_value = 0;
  held = 0;
  compensation = pos 0;
  status = is_cancelled;
}

-- `entries`: the active return lines of one order line.
abbrev pub entries_of : ℕ → List ReturnLineState → List ReturnLineState
entries_of line_id = keep (λ rl. rl.order_line_id == line_id)

abbrev pub returned_accepted_of : ℕ → List ReturnLineState → ℕ
returned_accepted_of line_id rls = sum_by (λ e. e.accepted_quantity) (entries_of line_id rls)

abbrev pub returned_damaged_of : ℕ → List ReturnLineState → ℕ
returned_damaged_of line_id rls = sum_by (λ e. e.damaged_quantity) (entries_of line_id rls)

-- One element of `lines`, with its element of `lineTotalsRaw`.
unfoldable pub line_totals_of : List ReturnLineState → OrderLineState → ℕ → Result LineTotals
line_totals_of active_return_lines line line_total =
    let accepted = returned_accepted_of line.id active_return_lines in
    let damaged = returned_damaged_of line.id active_return_lines in
    if ltb line.quantity (accepted + damaged)
    then err (out_quantity_negative line.id)
    else ok (record {
      id = line.id;
      line_total = line_total;
      returned_accepted = accepted;
      returned_damaged = damaged;
      out_quantity = line.quantity - accepted - damaged;
    })

-- `order.lines.map((line, index) => …)`: both lists are walked in step, and `lineTotalsRaw` has an
-- element for each line.
unfoldable pub line_totals :
    List ReturnLineState → List OrderLineState → List (ℕ × ℕ) → Result (List LineTotals)
line_totals rls [] raw = ok []
line_totals rls (line ∷ lines) [] = ok []
line_totals rls (line ∷ lines) ((_, line_total) ∷ raw) =
    let rest = line_totals rls lines raw in
    line_totals_of rls line line_total >>= λ t. rest >>= λ ts. ok (t ∷ ts)

abbrev pub same_type : LedgerEntryType → LedgerEntryType → Bool
same_type payment payment = true
same_type refund refund = true
same_type payment_reversal payment_reversal = true
same_type refund_reversal refund_reversal = true
same_type _ _ = false

abbrev pub amount_of : LedgerEntryType → List LedgerEntryState → ℕ
amount_of type ledger = sum_by (λ e. e.amount) (keep (λ e. same_type e.type type) ledger)

-- `net`
unfoldable pub net : List LedgerEntryState → LedgerEntryType → LedgerEntryType → ℤ
net ledger plus minus = pos (amount_of plus ledger) -ℤ pos (amount_of minus ledger)

unfoldable pub refund_line : Dict ℕ → ReturnLineState → Result RefundLine
refund_line deposits rl = do
  unit_deposit ← deposit_of deposits rl.order_line_id
  ok (record {
    accepted_quantity = rl.accepted_quantity;
    unit_deposit = unit_deposit;
    damaged_refund = rl.damaged_refund;
  })

-- What one return credits: its lines with their deposits, through `returnRefundDue`.
unfoldable pub return_credit : Dict ℕ → ReturnState → Result ℕ
return_credit deposits r = do
  priced ← traverse (refund_line deposits) r.lines
  return_refund_due priced

unfoldable pub compensation_of : Dict ℕ → ReturnLineState → Result ℤ
compensation_of deposits rl = do
  unit_deposit ← deposit_of deposits rl.order_line_id
  ok (pos (rl.damaged_quantity * unit_deposit) -ℤ pos rl.damaged_refund)

-- `if (owed < 0) throw …`, after which `owed` is a number of 0 or more.
abbrev pub owed_at_least_zero : ℤ → Result ℕ
owed_at_least_zero (pos n) = ok n
owed_at_least_zero (negsuc _) = err owed_negative

-- `sum(order.lines.map((l, i) => lines[i]!.outQuantity * l.unitDeposit))`
unfoldable pub out_value_of : List OrderLineState → List LineTotals → ℕ
out_value_of [] ts = 0
out_value_of (l ∷ ls) [] = 0
out_value_of (l ∷ ls) (t ∷ ts) = t.out_quantity * l.unit_deposit + out_value_of ls ts

abbrev pub unit_deposit_by_line : List OrderLineState → Dict ℕ
unit_deposit_by_line lines = from_entries (map (λ l. (l.id, l.unit_deposit)) lines) []

abbrev pub active_returns : List ReturnState → List ReturnState
active_returns = keep (λ r. not r.reversed)

abbrev pub active_return_lines : List ReturnState → List ReturnLineState
active_return_lines returns = concat_map (λ r. r.lines) (active_returns returns)

-- `owed` before its checks
unfoldable pub owed_of : ℕ → ℤ → ℕ → ℤ → ℤ
owed_of deposit_total payments_net credits_total refunds_net =
    pos deposit_total -ℤ payments_net -ℤ pos credits_total +ℤ refunds_net

abbrev pub status_of : ℕ → ℕ → OrderStatus
status_of out_quantity_total owed =
    if ltb 0 out_quantity_total || ltb 0 owed then is_open else settled

-- The part of `computeOrderTotals` behind the early return of a cancelled order.
unfoldable pub live_totals : OrderState → List (ℕ × ℕ) → ℕ → Result OrderTotals
live_totals order raw deposit_total = do
  let deposits = unit_deposit_by_line order.lines
  lines ← line_totals (active_return_lines order.returns) order.lines raw
  let payments_net = net order.ledger payment payment_reversal
  let refunds_net = net order.ledger refund refund_reversal
  credits ← traverse (return_credit deposits) (active_returns order.returns)
  let credits_total = sum credits
  safe_owed ← assert_safe_ℤ (owed_of deposit_total payments_net credits_total refunds_net)
  owed ← owed_at_least_zero safe_owed
  let out_quantity_total = sum_by (λ (l : LineTotals). l.out_quantity) lines
  out_value ← assert_safe (out_value_of order.lines lines)
  compensations ← traverse (compensation_of deposits) (active_return_lines order.returns)
  compensation ← assert_safe_ℤ (sum_ℤ compensations)
  ok (record {
    lines = lines;
    deposit_total = deposit_total;
    payments_net = payments_net;
    credits_total = credits_total;
    refunds_net = refunds_net;
    owed = owed;
    out_quantity_total = out_quantity_total;
    out_value = out_value;
    held = out_value - owed;
    compensation = compensation;
    status = status_of out_quantity_total owed;
  })

unfoldable pub compute_order_totals : OrderState → Result OrderTotals
compute_order_totals order = do
  raw ← traverse raw_line order.lines
  let deposit_total = sum_by (λ (l : ℕ × ℕ). l.1) raw
  if order.cancelled
      then ok (cancelled_totals raw deposit_total)
      else live_totals order raw deposit_total
