-- ===== src/PalletCredits.antt =====
-- apps/api/src/modules/returns/pallet-credits.service.ts: what the factory owes a customer of each
-- pallet type. The entries are only appended, each with a stock movement of its own sign; the
-- modelled operations are those that an order uses. The balance is the sum of the entries.
pub mod Sums
pub mod Restored
mod Tests
use Prim.Native.Nat.{min}
use item_lending_management.Prelude.{
  Bool, List, Option, Text, [], concat_map, false, if◌then◌else◌, includes, ltb, ltb_ℤ, neg, none,
  not, pos, pos_part, some, suc, ℕ, ℤ, ◌&&◌, ◌++◌, ◌+ℤ◌, ◌==◌, ◌∷◌,
}
use item_lending_management.Failure.{Result, ok, ◌>>=◌}
use item_lending_management.Stock.{StockMovementInput, StockState, apply, pallet_credit}

pub data CreditReason : Type 0 where
  return_surplus return_reversal hand_back order_use cancelled_order hand_back_reversal :
      CreditReason

pub record CreditEntry : Type 0 where
  pub customer_id : ℕ
  pub item_id : ℕ
  pub quantity : ℤ
  pub reason : CreditReason
  pub return_id : Option ℕ
  pub order_id : Option ℕ
  pub reverses_credit_id : Option ℕ
  pub date : ℕ
  pub note : Option Text

pub record PalletCredit : Type 0 where
  pub id : ℕ
  pub entry : CreditEntry
  pub created_by_user_id : ℕ

pub record CreditRows : Type 0 where
  pub credits : List PalletCredit
  pub next_credit_id : ℕ
  pub stock : StockState

-- The `SUM(quantity)` of the entries that pass a test.
unfoldable pub credit_sum : (CreditEntry → Bool) → List PalletCredit → ℤ
credit_sum p [] = pos 0
credit_sum p (c ∷ cs) = (if p c.entry then c.entry.quantity else pos 0) +ℤ credit_sum p cs

abbrev pub of_customer : ℕ → ℕ → CreditEntry → Bool
of_customer customer_id item_id e = e.customer_id == customer_id && e.item_id == item_id

abbrev pub names_order : ℕ → CreditEntry → Bool
names_order order_id e = elim e.order_id [ none ↦ false | some o ↦ o == order_id ]

abbrev pub of_order : ℕ → ℕ → CreditEntry → Bool
of_order order_id item_id e = names_order order_id e && e.item_id == item_id

-- One item of `owedByItem`: items owed nothing, or less, are absent.
unfoldable pub owed_of_item : ℕ → List PalletCredit → ℕ → Option ℕ
owed_of_item customer_id credits item_id =
    let owed = credit_sum (of_customer customer_id item_id) credits in
    if ltb_ℤ (pos 0) owed then some (pos_part owed) else none

unfoldable pub insert_many :
    List CreditEntry → ℕ → List PalletCredit → ℕ → List PalletCredit × List StockMovementInput × ℕ
insert_many [] user_id credits next = (credits, [], next)
insert_many (e ∷ entries) user_id credits next =
    let created : PalletCredit = record { id = next; entry = e; created_by_user_id = user_id } in
    let movement : StockMovementInput = record {
      item_id = e.item_id;
      quantity = e.quantity;
      reason = pallet_credit next;
    } in
    let (written, movements, after) =
      insert_many entries user_id (credits ++ created ∷ []) (suc next) in
    (written, movement ∷ movements, after)

unfoldable pub write_many : List CreditEntry → ℕ → CreditRows → Result CreditRows
write_many entries user_id rows =
    let (written, movements, after) =
      insert_many entries user_id rows.credits rows.next_credit_id in
    apply rows.stock movements user_id >>= λ stock.
    ok (record { credits = written; next_credit_id = after; stock = stock })

-- `planOrderUse` of one line: as many as it hands over, up to what is owed.
unfoldable pub plan_line : ℕ → List PalletCredit → ℕ × ℕ → List (ℕ × ℕ)
plan_line customer_id credits (item_id, quantity) =
    elim (owed_of_item customer_id credits item_id) [
      | none ↦ []
      | some available ↦ (item_id, min available quantity) ∷ []
    ]

-- An order has one line of an item, so that the map has one entry of it.
unfoldable pub plan_order_use : ℕ → List PalletCredit → List (ℕ × ℕ) → List (ℕ × ℕ)
plan_order_use customer_id credits lines = concat_map (plan_line customer_id credits) lines

abbrev pub order_entry : ℕ → ℕ → ℕ → ℤ → CreditReason → ℕ → CreditEntry
order_entry customer_id order_id item_id quantity reason date = record {
  customer_id = customer_id;
  item_id = item_id;
  quantity = quantity;
  reason = reason;
  return_id = none;
  order_id = some order_id;
  reverses_credit_id = none;
  date = date;
  note = none;
}

unfoldable pub use_entries : ℕ → ℕ → ℕ → List (ℕ × ℕ) → List CreditEntry
use_entries customer_id order_id date [] = []
use_entries customer_id order_id date ((item_id, quantity) ∷ taken) =
    let rest = use_entries customer_id order_id date taken in
    if ltb 0 quantity
    then order_entry customer_id order_id item_id (neg (pos quantity)) order_use date ∷ rest
    else rest

unfoldable pub use_for_order : ℕ → ℕ → List (ℕ × ℕ) → ℕ → ℕ → CreditRows → Result CreditRows
use_for_order customer_id order_id taken date user_id rows =
    write_many (use_entries customer_id order_id date taken) user_id rows

-- The items of an order's entries, each once.
unfoldable pub order_credit_item_ids : ℕ → List PalletCredit → List ℕ
order_credit_item_ids order_id [] = []
order_credit_item_ids order_id (c ∷ cs) =
    let rest = order_credit_item_ids order_id cs in
    if names_order order_id c.entry && not (includes c.entry.item_id rest)
    then c.entry.item_id ∷ rest
    else rest

-- The rows of the `groupBy` that are below zero, each given back.
unfoldable pub reversing_entries : ℕ → ℕ → ℕ → List PalletCredit → List ℕ → List CreditEntry
reversing_entries customer_id order_id date credits [] = []
reversing_entries customer_id order_id date credits (item_id ∷ items) =
    let rest = reversing_entries customer_id order_id date credits items in
    let taken = credit_sum (of_order order_id item_id) credits in
    if ltb_ℤ taken (pos 0)
    then order_entry customer_id order_id item_id (neg taken) cancelled_order date ∷ rest
    else rest

unfoldable pub reverse_for_order : ℕ → ℕ → ℕ → ℕ → CreditRows → Result CreditRows
reverse_for_order order_id customer_id date user_id rows =
    write_many
      (reversing_entries customer_id order_id date rows.credits
        (order_credit_item_ids order_id rows.credits))
      user_id rows
