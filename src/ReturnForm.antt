-- ===== src/ReturnForm.antt =====
-- apps/web/src/features/returns: the rows of a customer's return as they are typed
-- (return-rows.ts) and their placement on the customer's order lines (allocate.ts). Dates are day
-- numbers, which are in the order of the source's ISO dates.
use Prim.Native.Nat.{min}
use item_lending_management.Prelude.{
  Bool, Dict, List, Option, [], false, get_or, if◌then◌else◌, lookup, ltb, map, none, some, sum_by,
  ℕ, ◌*◌, ◌+◌, ◌-◌, ◌||◌, ◌∷◌,
}
use item_lending_management.Domain.{max_safe}
pub mod Place
pub mod Pass
pub mod Allocated
mod Tests

pub record HeldLine : Type 0 where
  pub order_id : ℕ
  pub order_number : ℕ
  pub order_date : ℕ
  pub order_line_id : ℕ
  pub out_quantity : ℕ
  pub unit_deposit : ℕ

pub record TypedRow : Type 0 where
  pub accepted : ℕ
  pub damaged : ℕ
  pub damaged_refund : ℕ

-- A held line with what it takes of the row.
pub record LineShare : Type 0 where
  pub line : HeldLine
  pub accepted : ℕ
  pub damaged : ℕ
  pub damaged_refund : ℕ

-- A row's boxes as the form holds them.
pub record RowCounts : Type 0 where
  pub accepted : Option ℕ
  pub damaged : Option ℕ
  pub damaged_refund : Option ℕ

-- `count`: a cleared box counts as 0.
abbrev pub count : Option ℕ → ℕ
count value = get_or value 0

unfoldable pub typed_row : RowCounts → TypedRow
typed_row counts = record {
  accepted = count counts.accepted;
  damaged = count counts.damaged;
  damaged_refund = count counts.damaged_refund;
}

-- `Math.max(0, outQuantity − damaged)` is the `-` of ℕ, which stops at 0.
unfoldable pub rest_accepted : RowCounts → ℕ → TypedRow
rest_accepted counts out_quantity =
    let row = typed_row counts in
    record {
      accepted = out_quantity - row.damaged;
      damaged = row.damaged;
      damaged_refund = row.damaged_refund;
    }

pub record RowCheck : Type 0 where
  pub returning : ℕ
  pub over_out : Bool
  pub maximum : ℕ
  pub refund_over : Bool
  pub invalid : Bool

-- What the server last said about the row: that its count or its refund was refused.
pub record Refused : Type 0 where
  pub accepted : Bool
  pub damaged_refund : Bool

unfoldable pub check_row : TypedRow → ℕ → ℕ → Refused → RowCheck
check_row row out_quantity maximum refused =
    let over_out = ltb out_quantity (row.accepted + row.damaged) || refused.accepted in
    let refund_over = ltb maximum row.damaged_refund || refused.damaged_refund in
    record {
      returning = row.accepted + row.damaged;
      over_out = over_out;
      maximum = maximum;
      refund_over = refund_over;
      invalid = over_out || refund_over;
    }

abbrev pub is_order_after_return : ℕ → Option ℕ → Bool
is_order_after_return order_date none = false
is_order_after_return order_date (some return_date) = ltb return_date order_date

abbrev pub is_after_return : HeldLine → Option ℕ → Bool
is_after_return line return_date = is_order_after_return line.order_date return_date

unfoldable pub out_by : List HeldLine → Option ℕ → ℕ
out_by lines return_date =
    sum_by (λ (l : HeldLine). if is_after_return l return_date then 0 else l.out_quantity) lines

abbrev pub no_share : HeldLine → LineShare
no_share line = record { line = line; accepted = 0; damaged = 0; damaged_refund = 0 }

-- One turn of the loop of `place`, with what is left of the row. The differences do not go below 0:
-- no line takes more than it has out, nor refunds more than its damaged pallets' deposit.
unfoldable pub place_share : TypedRow → LineShare → TypedRow → LineShare × TypedRow
place_share limit share left =
    let damaged =
      min (share.line.out_quantity - share.damaged - share.accepted)
        (min limit.damaged left.damaged) in
    let damaged_now = share.damaged + damaged in
    let accepted =
      min (share.line.out_quantity - damaged_now - share.accepted)
        (min limit.accepted left.accepted) in
    let damaged_refund =
      min (damaged_now * share.line.unit_deposit - share.damaged_refund)
        (min limit.damaged_refund left.damaged_refund) in
    (
      record {
        line = share.line;
        accepted = share.accepted + accepted;
        damaged = damaged_now;
        damaged_refund = share.damaged_refund + damaged_refund;
      },
      record {
        accepted = left.accepted - accepted;
        damaged = left.damaged - damaged;
        damaged_refund = left.damaged_refund - damaged_refund;
      },
    )

-- `if (isAfterReturn(share, returnDate)) continue;`
unfoldable pub place_or_skip :
    (LineShare → TypedRow) → Option ℕ → LineShare → TypedRow → LineShare × TypedRow
place_or_skip cap return_date share left =
    if is_after_return share.line return_date
    then (share, left)
    else place_share (cap share) share left

unfoldable pub place :
    (LineShare → TypedRow) → Option ℕ → List LineShare → TypedRow → List LineShare × TypedRow
place cap return_date [] left = ([], left)
place cap return_date (share ∷ shares) left =
    let (placed, still) = place_or_skip cap return_date share left in
    let (others, rest) = place cap return_date shares still in (placed ∷ others, rest)

abbrev pub no_row : TypedRow
no_row = record { accepted = 0; damaged = 0; damaged_refund = 0 }

-- `any`
abbrev pub any_row : TypedRow
any_row = record { accepted = max_safe; damaged = max_safe; damaged_refund = max_safe }

abbrev pub previous_of : Dict TypedRow → LineShare → TypedRow
previous_of previous share = get_or (lookup share.line.order_line_id previous) no_row

-- The pass over what the lines had before, of a return that is being edited.
unfoldable pub place_previous :
    Option (Dict TypedRow) → Option ℕ → List LineShare → TypedRow → List LineShare × TypedRow
place_previous none return_date shares row = (shares, row)
place_previous (some previous) return_date shares row =
    place (previous_of previous) return_date shares row

unfoldable pub allocate :
    List HeldLine → TypedRow → Option ℕ → Option (Dict TypedRow) → List LineShare
allocate lines row return_date previous =
    let (shares, left) = place_previous previous return_date (map no_share lines) row in
    (place (λ _. any_row) return_date shares left).0

unfoldable pub refund_maximum : List LineShare → ℕ
refund_maximum shares = sum_by (λ (s : LineShare). s.damaged * s.line.unit_deposit) shares
