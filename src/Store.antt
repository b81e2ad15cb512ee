-- ===== src/Store.antt =====
-- The rows of apps/api/prisma/schema.prisma that the money of an order goes by: orders with their
-- lines and returns, the money ledger, and the history rows written with it. Instants are
-- milliseconds and business dates are day numbers, which are in the order of the source's ISO dates.
use item_lending_management.Prelude.{
  Bool, List, Option, Text, [], find, if◌then◌else◌, keep, ℕ, ℤ, ◌==◌, ◌∷◌,
}
use item_lending_management.Domain.{LedgerEntryType, OrderStatus, ReturnLineState}

pub data PaymentType : Type 0 where
  cash lent : PaymentType

pub data LedgerEntrySource : Type 0 where
  order_create order_line_edit order_cancel manual payment_delete : LedgerEntrySource
  return_create return_edit return_delete : LedgerEntrySource

pub record OrderLine : Type 0 where
  pub id : ℕ
  pub item_id : ℕ
  pub quantity : ℕ
  pub unit_deposit : ℕ
  pub line_total : ℕ
  pub returned_accepted : ℕ
  pub returned_damaged : ℕ
  pub out_quantity : ℕ

pub record PalletReturn : Type 0 where
  pub id : ℕ
  pub date : ℕ
  pub reversed_at : Option ℕ
  pub lines : List ReturnLineState

pub record Order : Type 0 where
  pub id : ℕ
  pub order_number : ℕ
  pub customer_id : ℕ
  pub date : ℕ
  pub payment_type : PaymentType
  pub cancelled_at : Option ℕ
  pub lines : List OrderLine
  pub returns : List PalletReturn
  pub status : OrderStatus
  pub deposit_total : ℕ
  pub payments_net : ℤ
  pub credits_total : ℕ
  pub refunds_net : ℤ
  pub owed : ℕ
  pub out_quantity_total : ℕ
  pub out_value : ℕ
  pub held : ℕ
  pub compensation : ℤ
  pub version : ℕ

pub record LedgerEntry : Type 0 where
  pub id : ℕ
  pub order_id : ℕ
  pub type : LedgerEntryType
  pub source : LedgerEntrySource
  pub amount : ℕ
  pub date : Option ℕ
  pub is_automatic : Bool
  pub return_id : Option ℕ
  pub reverses_entry_id : Option ℕ
  pub note : Option Text
  pub owed_before : Option ℕ
  pub created_by_user_id : ℕ

pub data AuditAction : Type 0 where
  payment_create payment_reverse refund_create refund_reverse : AuditAction

pub record AuditEntry : Type 0 where
  pub action : AuditAction
  pub entity_id : ℕ
  pub order_number : ℕ
  pub amount : ℕ
  pub automatic : Option Bool
  pub after : LedgerEntry

pub record Rows : Type 0 where
  pub orders : List Order
  pub ledger_entries : List LedgerEntry
  pub next_entry_id : ℕ
  pub history : List AuditEntry

-- `order.findUnique({ where: { id } })`
abbrev pub find_order : ℕ → Rows → Option Order
find_order id rows = find (λ (o : Order). o.id == id) rows.orders

-- `order.update({ where: { id }, data })`
abbrev pub update_order : ℕ → (Order → Order) → List Order → List Order
update_order id change [] = []
update_order id change (o ∷ os) =
    let rest = update_order id change os in if o.id == id then change o ∷ rest else o ∷ rest

-- The `ledgerEntries` of an order.
abbrev pub entries_of_order : ℕ → List LedgerEntry → List LedgerEntry
entries_of_order id = keep (λ (e : LedgerEntry). e.order_id == id)
