-- ===== src/Orders/Created.antt =====
-- What `create` of apps/api/src/modules/orders/orders.service.ts leaves behind.
use item_lending_management.Prelude.{Dict, List, Option, [], map, some, suc, ℕ, ◌++◌, ◌∷◌, ◌≡◌}
use item_lending_management.Failure.{Result, ok}
use item_lending_management.Store.{Order, find_order}
use item_lending_management.PalletCredits.{plan_order_use}
use item_lending_management.Orders.Rules.{PricedLine}
use item_lending_management.Orders.CreditLimit.{CreditOverride}
use item_lending_management.Orders.Pricing.{
  CreateRows, CustomerRow, OrderCreateBody, handed_over, less_credit, price_lines,
}
use item_lending_management.Orders.Create.{stock_out}
use item_lending_management.Orders.NewOrder.{line_price}
use item_lending_management.Orders.HandedOver.{IsHandOverPaid}
use item_lending_management.Reconciliation.{check_order}

-- What is written of an order with these lines, which were priced at this deposit.
pub record Stored (body : OrderCreateBody) (from_credit : Dict ℕ) (user_id : ℕ)
    (before after : CreateRows) (detail : Order) (lines : List PricedLine) (deposit : ℕ)
    (override : Option CreditOverride) : Type 0 where
  pub found : find_order before.next_order_id after.rows ≡ some detail
  pub clean : check_order after.rows.ledger_entries detail ≡ ok []
  pub number : detail.order_number ≡ suc before.last_number
  pub counter : after.last_number ≡ suc before.last_number
  pub customer : detail.customer_id ≡ body.customer_id
  pub dated_as : detail.date ≡ body.date
  pub paid_as : detail.payment_type ≡ body.payment_type
  pub written : map line_price detail.lines ≡ lines
  pub deposit_total : detail.deposit_total ≡ deposit
  pub out_value : detail.out_value ≡ deposit
  pub paid :
      IsHandOverPaid body.payment_type before.next_order_id deposit before.rows.ledger_entries
        after.rows.ledger_entries
  pub stock :
      stock_out body before.next_order_id lines from_credit user_id before.credit_rows
      ≡ ok after.credit_rows
  pub history :
      after.creations
      ≡ before.creations
        ++ record {
          order_id = before.next_order_id;
          order_number = suc before.last_number;
          credit_override = override;
        }
          ∷ []

-- What comes off the pallets owed to the customer.
abbrev pub credit_of : OrderCreateBody → CustomerRow → CreateRows → Dict ℕ
credit_of body customer state =
    plan_order_use customer.id state.credit_rows.credits (handed_over body.lines)

-- What an order is priced at: its lines without the pallets that come off what the customer is owed.
abbrev pub priced_order : OrderCreateBody → CustomerRow → CreateRows → Result (List PricedLine × ℕ)
priced_order body customer state =
    price_lines state (map (less_credit (credit_of body customer state)) body.lines)
      (handed_over body.lines)
