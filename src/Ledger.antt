-- ===== src/Ledger.antt =====
-- apps/api/src/modules/ledger: the money ledger's only writer (money-ledger.ts), the history row of
-- an entry (ledger.mapper.ts), and manual payments with their undoing (payments.service.ts).
use item_lending_management.Prelude.{
  Bool, List, Option, Text, [], any, false, find, get_or, if◌then◌else◌, leb, ltb, none, not, some,
  suc, true, ℕ, ◌&&◌, ◌++◌, ◌==◌, ◌||◌, ◌∷◌,
}
use item_lending_management.Failure.{
  Result, api, business_date_in_future, caller_bug, err, ledger_entry_already_reversed,
  ledger_entry_not_found, ledger_entry_not_reversible, ok, or_throw, order_cancelled,
  order_not_found, payment_date_before_order_date, payment_exceeds_owed, payment_order_not_lent,
  throw_if, ◌>>=◌, ◌>>◌,
}
use item_lending_management.Domain.{
  LedgerEntryType, compute_order_totals, max_safe, payment, payment_reversal, refund,
  refund_reversal, same_type,
}
use item_lending_management.Store.{
  AuditAction, AuditEntry, LedgerEntry, LedgerEntrySource, Order, PaymentType, Rows, cash,
  entries_of_order, find_order, lent, manual, payment_create, payment_delete, payment_reverse,
  refund_create, refund_reverse,
}
use item_lending_management.Orders.State.{
  find_order_or_throw, is_some, recompute_order, to_db_money, to_order_state, to_safe_money,
}
use item_lending_management.Idempotency.{
  Ending, IdempotentRequest, IdempotentResult, Keyed, creating, run, thrown,
}
pub mod Entries
pub mod Payments
pub mod Reversals
mod Tests

-- `type` of `MoneyEntryInput`: only a payment says what was owed before it.
pub data MoneyEntryType : Type 0 where
  of_payment : ℕ → MoneyEntryType
  of_refund of_payment_reversal of_refund_reversal : MoneyEntryType

pub record MoneyEntryInput : Type 0 where
  pub order_id : ℕ
  pub type : MoneyEntryType
  pub source : LedgerEntrySource
  pub amount : ℕ
  pub date : Option ℕ
  pub is_automatic : Option Bool
  pub return_id : Option ℕ
  pub reverses_entry_id : Option ℕ
  pub note : Option Text

abbrev pub stored_type : MoneyEntryType → LedgerEntryType
stored_type (of_payment owed_before) = payment
stored_type of_refund = refund
stored_type of_payment_reversal = payment_reversal
stored_type of_refund_reversal = refund_reversal

abbrev pub stored_owed_before : MoneyEntryType → Result (Option ℕ)
stored_owed_before (of_payment owed_before) = to_db_money owed_before >>= λ owed. ok (some owed)
stored_owed_before _ = ok none

abbrev pub entry_row : MoneyEntryInput → ℕ → Option ℕ → ℕ → ℕ → LedgerEntry
entry_row entry amount owed_before user_id id = record {
  id = id;
  order_id = entry.order_id;
  type = stored_type entry.type;
  source = entry.source;
  amount = amount;
  date = entry.date;
  is_automatic = get_or entry.is_automatic false;
  return_id = entry.return_id;
  reverses_entry_id = entry.reverses_entry_id;
  note = entry.note;
  owed_before = owed_before;
  created_by_user_id = user_id;
}

-- `tx.ledgerEntry.create`
abbrev pub append_entry : LedgerEntry → Rows → Rows
append_entry row rows = record rows {
  ledger_entries = rows.ledger_entries ++ row ∷ [];
  next_entry_id = suc rows.next_entry_id;
}

-- `MoneyLedger.record`
unfoldable pub record_entry : MoneyEntryInput → ℕ → Rows → Result (Rows × LedgerEntry)
record_entry entry user_id rows =
    let written = (do
      amount ← to_db_money entry.amount
      owed_before ← stored_owed_before entry.type
      let row = entry_row entry amount owed_before user_id rows.next_entry_id
      ok (append_entry row rows, row)) in
    if not (leb entry.amount max_safe) || leb entry.amount 0 then err caller_bug else written

-- `AUDIT_ACTIONS`
abbrev pub audit_action : LedgerEntryType → AuditAction
audit_action payment = payment_create
audit_action payment_reversal = payment_reverse
audit_action refund = refund_create
audit_action refund_reversal = refund_reverse

unfoldable pub ledger_audit_entry : LedgerEntry → ℕ → Result AuditEntry
ledger_audit_entry entry order_number = do
  amount ← to_safe_money entry.amount
  ok (record {
    action = audit_action entry.type;
    entity_id = entry.id;
    order_number = order_number;
    amount = amount;
    automatic = if same_type entry.type payment then some entry.is_automatic else none;
    after = entry;
  })

-- `audit.record(tx, ledgerAuditEntry(entry, orderNumber))`
unfoldable pub audit_entry : LedgerEntry → ℕ → Rows → Result Rows
audit_entry entry order_number rows = do
  audit ← ledger_audit_entry entry order_number
  ok (record rows { history = rows.history ++ audit ∷ [] })

pub record PaymentCreateBody : Type 0 where
  pub date : ℕ
  pub amount : ℕ
  pub note : Option Text

-- The answer, with the order as it is stored in place of its detail view.
pub record PaymentResult : Type 0 where
  pub ledger_entry_id : ℕ
  pub order : Order

abbrev pub is_lent : PaymentType → Bool
is_lent lent = true
is_lent cash = false

-- `if (!order) throw …`
unfoldable pub order_found : ℕ → Rows → Result Order
order_found order_id rows = or_throw (api (order_not_found order_id)) (find_order order_id rows)

-- The refusals of `create` on the order it found.
unfoldable pub assert_payable : Order → ℕ → PaymentCreateBody → Result (Unit {0})
assert_payable order order_id body =
    throw_if (is_some order.cancelled_at) (api (order_cancelled order_id))
    >> throw_if (not (is_lent order.payment_type)) (api payment_order_not_lent)
    >> throw_if (ltb body.date order.date) (api (payment_date_before_order_date order.date))

abbrev pub payment_input : ℕ → PaymentCreateBody → ℕ → MoneyEntryInput
payment_input order_id body owed = record {
  order_id = order_id;
  type = of_payment owed;
  source = manual;
  amount = body.amount;
  date = some body.date;
  is_automatic = none;
  return_id = none;
  reverses_entry_id = none;
  note = body.note;
}

-- The writes of both operations, once their checks are passed.
unfoldable pub write_entry : MoneyEntryInput → ℕ → ℕ → Rows → Result (Rows × PaymentResult)
write_entry input order_number user_id rows = do
  (recorded, entry) ← record_entry input user_id rows
  (recomputed, _) ← recompute_order input.order_id true recorded
  audited ← audit_entry entry order_number recomputed
  detail ← order_found input.order_id audited
  ok (audited, record { ledger_entry_id = entry.id; order = detail })

-- `create` between `replayIfStored` and `store`.
unfoldable pub create_payment : ℕ → PaymentCreateBody → ℕ → Rows → Result (Rows × PaymentResult)
create_payment order_id body user_id rows = do
  order ← order_found order_id rows
  _ ← assert_payable order order_id body
  state ← to_order_state order (entries_of_order order_id rows.ledger_entries)
  totals ← compute_order_totals state
  _ ← throw_if (ltb totals.owed body.amount) (api (payment_exceeds_owed totals.owed body.amount))
  write_entry (payment_input order_id body totals.owed) order.order_number user_id rows

unfoldable pub assert_not_in_future : ℕ → ℕ → Result (Unit {0})
assert_not_in_future today date = throw_if (ltb today date) (api (business_date_in_future today))

-- `create`, whose check of the date stands before its transaction.
abbrev pub dated : {B : Type 0} {R : Type 0} → Result (Unit {0}) → Ending B R → Ending B R
dated (err e) ending = thrown e
dated (ok _) ending = ending

unfoldable pub create :
    ℕ
    → ℕ
    → IdempotentRequest
    → ℕ
    → PaymentCreateBody
    → ℕ
    → (Keyed PaymentResult Rows → Keyed PaymentResult Rows)
    → Keyed PaymentResult Rows
    → Keyed PaymentResult Rows × Result (IdempotentResult PaymentResult)
create now today request order_id body user_id others = run now request others (λ db.
    dated (assert_not_in_future today body.date)
      (creating now request (create_payment order_id body user_id) db))

-- `entry.reversedBy`: the row that says it reverses this one.
abbrev pub is_reversed : ℕ → List LedgerEntry → Bool
is_reversed entry_id = any (λ (e : LedgerEntry). elim e.reverses_entry_id [
  | none ↦ false
  | some reversed ↦ reversed == entry_id
])

abbrev pub is_payment : LedgerEntryType → Bool
is_payment type = same_type type payment

abbrev pub is_manual : LedgerEntrySource → Bool
is_manual manual = true
is_manual _ = false

unfoldable pub entry_found : ℕ → Rows → Result LedgerEntry
entry_found entry_id rows =
    or_throw (api (ledger_entry_not_found entry_id))
      (find (λ (e : LedgerEntry). e.id == entry_id) rows.ledger_entries)

abbrev pub reversal_input : LedgerEntry → ℕ → ℕ → Option Text → MoneyEntryInput
reversal_input entry amount today note = record {
  order_id = entry.order_id;
  type = of_payment_reversal;
  source = payment_delete;
  amount = amount;
  date = some today;
  is_automatic = none;
  return_id = none;
  reverses_entry_id = some entry.id;
  note = note;
}

-- The entry is looked up once more behind the locks, with its order's number.
unfoldable pub reverse : ℕ → ℕ → Option Text → ℕ → Rows → Result (Rows × PaymentResult)
reverse today entry_id note user_id rows = do
  entry ← entry_found entry_id rows
  order ← find_order_or_throw entry.order_id rows
  _ ←
      throw_if (not (is_payment entry.type && is_manual entry.source))
        (api ledger_entry_not_reversible)
  _ ←
      throw_if (is_reversed entry_id rows.ledger_entries)
        (api (ledger_entry_already_reversed entry_id))
  amount ← to_safe_money entry.amount
  write_entry (reversal_input entry amount today note) order.order_number user_id rows
