-- ===== src/Domain/Order.antt =====
-- The order as the formulas of packages/shared/src/domain/ledger-math.ts read it, and their result.
use item_lending_management.Prelude.{Bool, List, ℕ, ℤ}

pub data LedgerEntryType : Type 0 where
  payment refund payment_reversal refund_reversal : LedgerEntryType

pub data OrderStatus : Type 0 where
  is_open settled is_cancelled : OrderStatus

pub record OrderLineState : Type 0 where
  pub id : ℕ
  pub quantity : ℕ
  pub unit_deposit : ℕ

pub record ReturnLineState : Type 0 where
  pub order_line_id : ℕ
  pub accepted_quantity : ℕ
  pub damaged_quantity : ℕ
  pub damaged_refund : ℕ

pub record ReturnState : Type 0 where
  pub reversed : Bool
  pub lines : List ReturnLineState

pub record LedgerEntryState : Type 0 where
  pub type : LedgerEntryType
  pub amount : ℕ

pub record OrderState : Type 0 where
  pub cancelled : Bool
  pub lines : List OrderLineState
  pub returns : List ReturnState
  pub ledger : List LedgerEntryState

pub record LineTotals : Type 0 where
  pub id : ℕ
  pub line_total : ℕ
  pub returned_accepted : ℕ
  pub returned_damaged : ℕ
  pub out_quantity : ℕ

pub record OrderTotals : Type 0 where
  pub lines : List LineTotals
  pub deposit_total : ℕ
  pub payments_net : ℤ
  pub credits_total : ℕ
  pub refunds_net : ℤ
  pub owed : ℕ
  pub out_quantity_total : ℕ
  pub out_value : ℕ
  pub held : ℕ
  pub compensation : ℤ
  pub status : OrderStatus
