-- ===== src/Orders/Pricing.antt =====
-- The rows that `create` of apps/api/src/modules/orders/orders.service.ts goes by, with `loadParties`
-- and `priceLines`.
use Prim.Native.Nat.{◌-◌}
use item_lending_management.Prelude.{
  Bool, Dict, List, Option, Text, find, get_or, lookup, map, neg, none, pos, some, ℕ, ◌==◌,
}
use item_lending_management.Failure.{
  Result, api, customer_not_found, err, item_not_found, ok, or_throw, traverse, ◌>>=◌, ◌>>◌,
}
use item_lending_management.Store.{PaymentType, Rows}
use item_lending_management.Stock.{assert_available}
use item_lending_management.PalletCredits.{CreditRows}
use item_lending_management.Orders.State.{to_safe_money}
use item_lending_management.Orders.Rules.{
  PricedLine, RequestedLine, assert_customer_active, assert_driver_active, assert_item_orderable,
  deposit_total_of, price_line,
}
use item_lending_management.Orders.CreditLimit.{CreditOverride}

pub record CustomerRow : Type 0 where
  pub id : ℕ
  pub archived_at : Option ℕ
  pub credit_limit : Option ℕ

pub record DriverRow : Type 0 where
  pub id : ℕ
  pub archived_at : Option ℕ

-- The columns of an item that the price goes by; its stock is in the stock ledger.
pub record OrderableItem : Type 0 where
  pub id : ℕ
  pub archived_at : Option ℕ
  pub deposit_price : ℕ

pub record OrderCreateBody : Type 0 where
  pub customer_id : ℕ
  pub driver_id : ℕ
  pub date : ℕ
  pub payment_type : PaymentType
  pub notes : Option Text
  pub lines : List RequestedLine
  pub confirm_credit_override : Bool

-- The columns of an order that its money does not go by.
pub record HandOver : Type 0 where
  pub order_id : ℕ
  pub driver_id : ℕ
  pub notes : Option Text
  pub created_by_user_id : ℕ
  pub credit_override_by_user_id : Option ℕ
  pub credit_override_at : Option ℕ

-- The history row of a hand-over, with the override of its own row where there is one.
pub record Creation : Type 0 where
  pub order_id : ℕ
  pub order_number : ℕ
  pub credit_override : Option CreditOverride

pub record CreateRows : Type 0 where
  pub rows : Rows
  pub credit_rows : CreditRows
  pub customers : List CustomerRow
  pub drivers : List DriverRow
  pub items : List OrderableItem
  pub last_number : ℕ
  pub next_order_id : ℕ
  pub next_line_id : ℕ
  pub hand_overs : List HandOver
  pub creations : List Creation

abbrev pub find_customer : ℕ → List CustomerRow → Option CustomerRow
find_customer id = find (λ (c : CustomerRow). c.id == id)

abbrev pub find_driver : ℕ → List DriverRow → Option DriverRow
find_driver id = find (λ (d : DriverRow). d.id == id)

abbrev pub find_orderable : ℕ → List OrderableItem → Option OrderableItem
find_orderable id = find (λ (i : OrderableItem). i.id == id)

abbrev pub archived_of {ℓ} : {A : Type ℓ} → (A → Option ℕ) → Option A → Option (Option ℕ)
archived_of archived none = none
archived_of archived (some row) = some (archived row)

unfoldable pub load_parties : OrderCreateBody → CreateRows → Result CustomerRow
load_parties body state =
    let customer = find_customer body.customer_id state.customers in
    let driver = find_driver body.driver_id state.drivers in
    assert_customer_active (archived_of (λ (c : CustomerRow). c.archived_at) customer)
      body.customer_id
    >> (assert_driver_active (archived_of (λ (d : DriverRow). d.archived_at) driver) body.driver_id
        >> or_throw (api (customer_not_found body.customer_id)) customer)

-- A line as it is lent: less what comes off the pallets owed.
abbrev pub less_credit : Dict ℕ → RequestedLine → RequestedLine
less_credit from_credit line = record line {
  quantity = line.quantity - get_or (lookup line.item_id from_credit) 0;
}

abbrev pub handed_over : List RequestedLine → List (ℕ × ℕ)
handed_over = map (λ (l : RequestedLine). (l.item_id, l.quantity))

unfoldable pub price_found : Option OrderableItem → RequestedLine → Result PricedLine
price_found none line = err (api (item_not_found line.item_id))
price_found (some item) line = do
  _ ← assert_item_orderable (some item.archived_at) line.item_id
  deposit_price ← to_safe_money item.deposit_price
  price_line line deposit_price

-- The lines priced, and the deposit total; stock is asked for all that is handed over.
unfoldable pub price_lines :
    CreateRows → List RequestedLine → List (ℕ × ℕ) → Result (List PricedLine × ℕ)
price_lines state input handed = do
  lines ←
      traverse (λ (l : RequestedLine). price_found (find_orderable l.item_id state.items) l) input
  _ ←
      assert_available state.credit_rows.stock.items
        (map (λ ((item_id, quantity) : ℕ × ℕ). (item_id, neg (pos quantity))) handed)
  total ← deposit_total_of lines
  ok (lines, total)
