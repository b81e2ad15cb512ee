-- ===== src/ReturnForm/Tests.antt =====
-- A customer with five pallets out on one order, four on a later one, and seven on an order dated
-- after the return.
use item_lending_management.Prelude.{
  All, Dict, List, [], arith, false, map, none, refl, some, ℕ, ◌∷◌, ◌≡◌,
}
use item_lending_management.ReturnForm.{
  HeldLine, LineShare, Refused, RowCounts, TypedRow, allocate, check_row, out_by, place,
  place_or_skip, place_previous, place_share, refund_maximum, rest_accepted, typed_row,
}
use item_lending_management.ReturnForm.Place.{IsWithin, total_accepted, total_damaged, total_refund}
use item_lending_management.ReturnForm.Pass.{IsSafe}
use item_lending_management.ReturnForm.Allocated.{allocate-all}

abbrev held : ℕ → ℕ → ℕ → HeldLine
held id date out = record {
  order_id = id;
  order_number = id;
  order_date = date;
  order_line_id = id;
  out_quantity = out;
  unit_deposit = 10;
}

abbrev lines : List HeldLine
lines = held 1 100 5 ∷ held 2 103 4 ∷ held 3 120 7 ∷ []

-- Six accepted, two damaged, fifteen of their deposit refunded.
abbrev counts : RowCounts
counts = record { accepted = some 6; damaged = some 2; damaged_refund = some 15 }

abbrev row : TypedRow
row = record { accepted = 6; damaged = 2; damaged_refund = 15 }

typed : (typed_row counts ≡ row) × (rest_accepted counts 9 ≡ record row { accepted = 7 })
unfolding typed_row rest_accepted
typed = (refl, refl)

abbrev share : HeldLine → ℕ → ℕ → ℕ → LineShare
share line accepted damaged given = record {
  line = line;
  accepted = accepted;
  damaged = damaged;
  damaged_refund = given;
}

-- The damaged ones go to the oldest order first.
oldest_first :
    allocate lines row (some 110) none
    ≡ share (held 1 100 5) 3 2 15 ∷ share (held 2 103 4) 3 0 0 ∷ share (held 3 120 7) 0 0 0 ∷ []
unfolding allocate place_previous place place_or_skip place_share
oldest_first = refl

-- An edited return leaves the count that the second line had on it.
abbrev had : Dict TypedRow
had = (2, record { accepted = 1; damaged = 2; damaged_refund = 15 }) ∷ []

stays_on_line :
    allocate lines row (some 110) (some had)
    ≡ share (held 1 100 5) 5 0 0 ∷ share (held 2 103 4) 1 2 15 ∷ share (held 3 120 7) 0 0 0 ∷ []
unfolding allocate place_previous place place_or_skip place_share
stays_on_line = refl

IsSafe-row : IsSafe row
IsSafe-row = record { accepted = omega arith; damaged = omega arith; damaged_refund = omega arith }

abbrev unrefused : Refused
unrefused = record { accepted = false; damaged_refund = false }

row_accepted :
    (check_row row
      (out_by lines (some 110))
      (refund_maximum (allocate lines row (some 110) (some had)))
      unrefused).invalid
    ≡ false
unfolding check_row out_by refund_maximum allocate place_previous place place_or_skip place_share
row_accepted = refl

abbrev shares : List LineShare
shares = allocate lines row (some 110) (some had)

allocate-all_example :
    (map (λ (s : LineShare). s.line) shares ≡ lines)
    × All (IsWithin (some 110)) shares
    × (total_damaged shares ≡ 2)
    × (total_accepted shares ≡ 6)
    × (total_refund shares ≡ 15)
allocate-all_example =
    allocate-all lines row (some 110) (some had) unrefused IsSafe-row row_accepted
