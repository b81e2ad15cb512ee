-- ===== src/Orders/Rules.antt =====
-- apps/api/src/modules/orders/order-rules.ts: the checks on an order request, what has happened on
-- an order, and the price of its lines.
use Prim.Native.Nat.{min}
use item_lending_management.Prelude.{
  Bool, List, Option, [], concat_map, find, get_or, if◌then◌else◌, keep, leb, length, ltb, map,
  none, not, some, suc, sum_by, ℕ, ◌&&◌, ◌++◌, ◌+◌, ◌==◌, ◌∷◌,
}
use item_lending_management.Failure.{
  Failure, Result, admin_only, api, customer_archived, customer_not_found, driver_archived,
  driver_not_found, err, item_archived, item_not_found, ok, order_has_activity, throw_if,
  unit_deposit_not_permitted, validation_failed, ◌>>=◌, ◌>>◌,
}
use item_lending_management.Domain.{max_safe}
use item_lending_management.Store.{LedgerEntry, Order, PalletReturn}
use item_lending_management.Versioning.{safe_product}
use item_lending_management.Orders.State.{is_some}
use item_lending_management.Ledger.{is_manual, is_payment, is_reversed}

-- A requested line; its deposit is given, or the item's is taken.
pub record RequestedLine : Type 0 where
  pub item_id : ℕ
  pub quantity : ℕ
  pub unit_deposit : Option ℕ

-- What the checks read of the caller.
pub record Actor : Type 0 where
  pub may_edit_unit_deposit : Bool
  pub is_admin : Bool

-- The indexes of the lines that give a deposit.
abbrev pub priced_lines : ℕ → List RequestedLine → List ℕ
priced_lines index [] = []
priced_lines index (line ∷ lines) =
    let rest = priced_lines (suc index) lines in
    if is_some line.unit_deposit then index ∷ rest else rest

abbrev pub refuse_priced : List ℕ → Actor → Result (Unit {0})
refuse_priced [] actor = ok tt
refuse_priced (i ∷ is) actor =
    throw_if (not actor.may_edit_unit_deposit) (api (unit_deposit_not_permitted (i ∷ is)))

unfoldable pub assert_may_price_and_override : List RequestedLine → Bool → Actor → Result (Unit {0})
assert_may_price_and_override lines confirm_credit_override actor =
    refuse_priced (priced_lines 0 lines) actor
    >> throw_if (confirm_credit_override && not actor.is_admin) (api admin_only)

-- A return recorded from this order's page that is not reversed, its own or another order's.
pub record ReturnWith : Type 0 where
  pub order_id : ℕ
  pub date : ℕ

pub record OrderActivity : Type 0 where
  pub non_reversed_return_count : ℕ
  pub non_reversed_manual_payment_count : ℕ
  pub earliest_date : Option ℕ

abbrev pub standing_returns : List PalletReturn → List PalletReturn
standing_returns = keep (λ (pr : PalletReturn). not (is_some pr.reversed_at))

abbrev pub other_returns : ℕ → List ReturnWith → List ReturnWith
other_returns order_id = keep (λ (pr : ReturnWith). not (pr.order_id == order_id))

abbrev pub is_standing_manual : List LedgerEntry → LedgerEntry → Bool
is_standing_manual entries entry =
    is_payment entry.type && is_manual entry.source && not (is_reversed entry.id entries)

abbrev pub date_of : LedgerEntry → List ℕ
date_of entry = elim entry.date [ none ↦ [] | some date ↦ date ∷ [] ]

-- The first of the sorted dates.
abbrev pub earliest : List ℕ → Option ℕ
earliest [] = none
earliest (d ∷ ds) = elim (earliest ds) [ none ↦ some d | some e ↦ some (min d e) ]

-- An order with its returns, the returns from its page, and its ledger rows.
unfoldable pub order_activity : Order → List ReturnWith → List LedgerEntry → OrderActivity
order_activity order returns_with entries =
    let own = standing_returns order.returns in
    let others = other_returns order.id returns_with in
    let payments = keep (is_standing_manual entries) entries in
    record {
      non_reversed_return_count = length own + length others;
      non_reversed_manual_payment_count = length payments;
      earliest_date = earliest (
          map (λ (pr : PalletReturn). pr.date) own
          ++ (map (λ (pr : ReturnWith). pr.date) others ++ concat_map date_of payments));
    }

unfoldable pub assert_no_activity : OrderActivity → Result (Unit {0})
assert_no_activity activity =
    throw_if
      (ltb 0 (activity.non_reversed_return_count + activity.non_reversed_manual_payment_count))
      (api (
        order_has_activity activity.non_reversed_return_count
          activity.non_reversed_manual_payment_count))

unfoldable pub standing_automatic_payment : List LedgerEntry → Option LedgerEntry
standing_automatic_payment entries =
    find
      (λ (entry : LedgerEntry).
        is_payment entry.type && entry.is_automatic && not (is_reversed entry.id entries))
      entries

pub record PricedLine : Type 0 where
  pub item_id : ℕ
  pub quantity : ℕ
  pub unit_deposit : ℕ
  pub line_total : ℕ

unfoldable pub price_line : RequestedLine → ℕ → Result PricedLine
price_line line default_deposit = do
  let unit_deposit = get_or line.unit_deposit default_deposit
  line_total ← safe_product line.quantity unit_deposit
  ok (record {
    item_id = line.item_id;
    quantity = line.quantity;
    unit_deposit = unit_deposit;
    line_total = line_total;
  })

unfoldable pub deposit_total_of : List PricedLine → Result ℕ
deposit_total_of lines =
    let total = sum_by (λ (l : PricedLine). l.line_total) lines in
    if not (leb total max_safe) then err (api validation_failed) else ok total

-- For each of these, a row that may be missing and the time of its archiving.
abbrev pub active_row : Failure → Failure → Option (Option ℕ) → Result (Unit {0})
active_row missing archived none = err missing
active_row missing archived (some archived_at) = throw_if (is_some archived_at) archived

unfoldable pub assert_customer_active : Option (Option ℕ) → ℕ → Result (Unit {0})
assert_customer_active customer id =
    active_row (api (customer_not_found id)) (api (customer_archived id)) customer

unfoldable pub assert_driver_active : Option (Option ℕ) → ℕ → Result (Unit {0})
assert_driver_active driver id =
    active_row (api (driver_not_found id)) (api (driver_archived id)) driver

unfoldable pub assert_item_orderable : Option (Option ℕ) → ℕ → Result (Unit {0})
assert_item_orderable item id = active_row (api (item_not_found id)) (api (item_archived id)) item
