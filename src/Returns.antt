-- ===== src/Returns.antt =====
-- apps/api/src/modules/returns/return-rules.ts: what a return must satisfy against its order, and
-- what it credits and pays out.
use item_lending_management.Prelude.{
  Bool, Dict, List, [], from_entries, includes, keep, lookup, ltb, map, ℕ, ◌*◌, ◌+◌, ◌∷◌,
}
use item_lending_management.Failure.{
  Result, api, damaged_refund_too_high, err, ok, or_throw, return_date_before_order_date,
  return_duplicate_line, return_empty, return_exceeds_out, return_line_not_in_order, throw_if,
  traverse, ◌>>=◌, ◌>>◌,
}
use item_lending_management.Domain.{RefundLine, ReturnLineState, return_money, return_refund_due}
pub mod Rules
mod Tests

pub record ReturnableLine : Type 0 where
  pub id : ℕ
  pub item_id : ℕ
  pub unit_deposit : ℕ
  pub out_quantity : ℕ

pub record PricedReturnLine : Type 0 where
  pub order_line_id : ℕ
  pub item_id : ℕ
  pub accepted_quantity : ℕ
  pub damaged_quantity : ℕ
  pub unit_deposit : ℕ
  pub damaged_refund : ℕ

-- `ReturnCreateBody`, as far as these rules read it.
pub record ReturnBody : Type 0 where
  pub date : ℕ
  pub lines : List ReturnLineState

pub record ReturnableOrder : Type 0 where
  pub date : ℕ
  pub lines : List ReturnableLine

-- The loop over `seen`.
unfoldable pub refuse_duplicates : List ℕ → List ReturnLineState → Result (Unit {0})
refuse_duplicates seen [] = ok tt
refuse_duplicates seen (entry ∷ entries) =
    throw_if (includes entry.order_line_id seen) (api (return_duplicate_line entry.order_line_id))
    >> refuse_duplicates (entry.order_line_id ∷ seen) entries

abbrev pub lines_by_id : List ReturnableLine → Dict ReturnableLine
lines_by_id lines = from_entries (map (λ (l : ReturnableLine). (l.id, l)) lines) []

unfoldable pub with_line :
    Dict ReturnableLine → ReturnLineState → Result (ReturnLineState × ReturnableLine)
with_line lines entry =
    or_throw (api (return_line_not_in_order entry.order_line_id)) (lookup entry.order_line_id lines)
    >>= λ line. ok (entry, line)

unfoldable pub refuse_high_refunds : List (ReturnLineState × ReturnableLine) → Result (Unit {0})
refuse_high_refunds [] = ok tt
refuse_high_refunds ((entry, line) ∷ priced) =
    let maximum = entry.damaged_quantity * line.unit_deposit in
    throw_if (ltb maximum entry.damaged_refund)
      (api (damaged_refund_too_high entry.order_line_id maximum))
    >> refuse_high_refunds priced

abbrev pub exceeds : ReturnLineState × ReturnableLine → Bool
exceeds (entry, line) = ltb line.out_quantity (entry.accepted_quantity + entry.damaged_quantity)

abbrev pub excess : ReturnLineState × ReturnableLine → ℕ × ℕ × ℕ
excess (entry, line) =
    (entry.order_line_id, entry.accepted_quantity + entry.damaged_quantity, line.out_quantity)

-- `over`, and the refusal when it has any line.
abbrev pub refuse_over : List (ReturnLineState × ReturnableLine) → Result (Unit {0})
refuse_over [] = ok tt
refuse_over (p ∷ ps) = err (api (return_exceeds_out (map excess (p ∷ ps))))

abbrev pub price_line : ReturnLineState × ReturnableLine → PricedReturnLine
price_line (entry, line) = record {
  order_line_id = entry.order_line_id;
  item_id = line.item_id;
  accepted_quantity = entry.accepted_quantity;
  damaged_quantity = entry.damaged_quantity;
  unit_deposit = line.unit_deposit;
  damaged_refund = entry.damaged_refund;
}

abbrev pub refuse_empty : List ReturnLineState → Result (Unit {0})
refuse_empty [] = err (api return_empty)
refuse_empty (entry ∷ entries) = ok tt

unfoldable pub validate_return_against_order :
    ReturnableOrder → ReturnBody → Result (List PricedReturnLine)
validate_return_against_order order body = do
  _ ← refuse_empty body.lines
  _ ← refuse_duplicates [] body.lines
  priced ← traverse (with_line (lines_by_id order.lines)) body.lines
  _ ← throw_if (ltb body.date order.date) (api (return_date_before_order_date order.date))
  _ ← refuse_high_refunds priced
  _ ← refuse_over (keep exceeds priced)
  ok (map price_line priced)

pub record ReturnPrice : Type 0 where
  pub refund_due : ℕ
  pub owed_before : ℕ
  pub cash_refund : ℕ
  pub owed_after : ℕ

abbrev pub as_refund_line : PricedReturnLine → RefundLine
as_refund_line l = record {
  accepted_quantity = l.accepted_quantity;
  unit_deposit = l.unit_deposit;
  damaged_refund = l.damaged_refund;
}

unfoldable pub price_return : List PricedReturnLine → ℕ → Result ReturnPrice
price_return lines owed_before = do
  refund_due ← return_refund_due (map as_refund_line lines)
  let money = return_money owed_before refund_due
  ok (record {
    refund_due = refund_due;
    owed_before = owed_before;
    cash_refund = money.cash_refund;
    owed_after = money.owed_after;
  })
