-- ===== src/ReturnForm/Allocated.antt =====
-- What `allocate` (apps/web/src/features/returns/allocate.ts) makes of a row that `checkRow` accepts.
use item_lending_management.Prelude.{
  All, Bool, Dict, List, Option, [], ap, arith, false, inl, inr, ltb, map, none, refl, some, sym, ℕ,
  ◌+◌, ◌||◌, ◌∙◌, ◌∷◌, ◌≡◌, ◌≤◌,
}
use item_lending_management.ReturnForm.{
  HeldLine, LineShare, Refused, TypedRow, allocate, any_row, check_row, no_share, out_by, place,
  place_previous, previous_of, refund_maximum,
}
use item_lending_management.ReturnForm.Place.{
  IsWithin, out_by-room, place-IsWithin, place-Keeps, place-lines, total_accepted, total_damaged,
  total_refund,
}
use item_lending_management.ReturnForm.Pass.{IsSafe, pass, pass-refund, pass-room}

-- The lines before any pass.
no_share-IsWithin :
    (return_date : Option ℕ) (lines : List HeldLine)
    → All (IsWithin return_date) (map no_share lines)
no_share-IsWithin return_date [] = tt
no_share-IsWithin return_date (l ∷ lines) = (
  record { out = omega arith; refund = omega arith; none_after = λ e. (refl, refl, refl) },
  no_share-IsWithin return_date lines,
)

no_share-line :
    (lines : List HeldLine) → map (λ (s : LineShare). s.line) (map no_share lines) ≡ lines
no_share-line [] = refl
no_share-line (l ∷ lines) = ap (λ x. l ∷ x) (no_share-line lines)

no_share-totals :
    (lines : List HeldLine)
    → (total_damaged (map no_share lines) ≡ 0)
      × (total_accepted (map no_share lines) ≡ 0)
      × (total_refund (map no_share lines) ≡ 0)
no_share-totals [] = (refl, refl, refl)
no_share-totals (l ∷ lines) =
    let (d, a, r) = no_share-totals lines in (omega (arith, d), omega (arith, a), omega (arith, r))

-- The shares and the rest of the row after the first pass, if there is one.
record Started (lines : List HeldLine) (row : TypedRow) (return_date : Option ℕ)
    (shares : List LineShare) (left : TypedRow) : Type 0 where
  lines_kept : map (λ (s : LineShare). s.line) shares ≡ lines
  within : All (IsWithin return_date) shares
  damaged : total_damaged shares + left.damaged ≡ row.damaged
  accepted : total_accepted shares + left.accepted ≡ row.accepted
  refund : total_refund shares + left.damaged_refund ≡ row.damaged_refund

place-Started :
    (cap : LineShare → TypedRow) (lines : List HeldLine) (row : TypedRow) (return_date : Option ℕ)
    (shares : List LineShare) (left : TypedRow)
    → Started lines row return_date shares left
    → Started lines row return_date
        (place cap return_date shares left).0
        (place cap return_date shares left).1
place-Started cap lines row return_date shares left s =
    let keeps = place-Keeps cap return_date shares left in
    record {
      lines_kept = place-lines cap return_date shares left ∙ s.lines_kept;
      within = place-IsWithin cap return_date shares left s.within;
      damaged = omega (arith, keeps.damaged, s.damaged);
      accepted = omega (arith, keeps.accepted, s.accepted);
      refund = omega (arith, keeps.refund, s.refund);
    }

no_share-Started :
    (lines : List HeldLine) (row : TypedRow) (return_date : Option ℕ)
    → Started lines row return_date (map no_share lines) row
no_share-Started lines row return_date =
    let (d, a, r) = no_share-totals lines in
    record {
      lines_kept = no_share-line lines;
      within = no_share-IsWithin return_date lines;
      damaged = omega (arith, d);
      accepted = omega (arith, a);
      refund = omega (arith, r);
    }

place_previous-Started :
    (lines : List HeldLine) (row : TypedRow) (return_date : Option ℕ)
    (previous : Option (Dict TypedRow))
    → Started lines row return_date
        (place_previous previous return_date (map no_share lines) row).0
        (place_previous previous return_date (map no_share lines) row).1
unfolding place_previous
place_previous-Started lines row return_date none = no_share-Started lines row return_date
place_previous-Started lines row return_date (some previous) =
    place-Started (previous_of previous) lines row return_date (map no_share lines) row
      (no_share-Started lines row return_date)

accepted_row :
    (returning out given maximum : ℕ) (r q : Bool)
    → ((ltb out returning || r) || (ltb maximum given || q)) ≡ false
    → (returning ≤ out) × (given ≤ maximum)
accepted_row returning out given maximum r q h = ground arith

-- The last pass from there: what is placed, when the row is accepted.
Started-placed :
    (lines : List HeldLine) (row : TypedRow) (return_date : Option ℕ) (shares : List LineShare)
    (left : TypedRow) (refused : Refused)
    → Started lines row return_date shares left
    → IsSafe row
    → (check_row row
        (out_by lines return_date)
        (refund_maximum (pass return_date shares left).0)
        refused).invalid
      ≡ false
    → (total_damaged (pass return_date shares left).0 ≡ row.damaged)
      × (total_accepted (pass return_date shares left).0 ≡ row.accepted)
      × (total_refund (pass return_date shares left).0 ≡ row.damaged_refund)
unfolding check_row
Started-placed lines row return_date shares left refused s safe h =
    let done = place-Started (λ _. any_row) lines row return_date shares left s in
    let still : IsSafe left = record {
      accepted = omega (arith, safe.accepted, s.accepted);
      damaged = omega (arith, safe.damaged, s.damaged);
      damaged_refund = omega (arith, safe.damaged_refund, s.refund);
    } in
    let shown =
      ap (λ ls. out_by ls return_date) (sym s.lines_kept)
      ∙ out_by-room return_date shares s.within in
    let (fits, refundable) =
      accepted_row (row.accepted + row.damaged) (out_by lines return_date) row.damaged_refund
        (refund_maximum (pass return_date shares left).0) refused.accepted refused.damaged_refund
        h in
    let used_up =
      pass-room return_date shares left still (omega (arith, fits, shown, s.damaged, s.accepted)) in
    (
      omega (arith, used_up, done.damaged),
      omega (arith, used_up, done.accepted),
      elim (pass-refund return_date shares left still s.within) [
        | inl nothing_left ↦ omega (arith, nothing_left, done.refund)
        | inr full ↦ omega (arith, full, done.refund, refundable)
      ],
    )

-- Each item's row is split over the customer's lines: the lines stay as they are and in their order,
-- none takes more than it has out or refunds more than the deposit of its damaged pallets, and those
-- of orders dated after the return take nothing. If the row is one that `checkRow` does not refuse
-- against what is out by the return date and the most that the shares can refund, its damaged
-- pallets, its accepted pallets and its refund are placed to the last.
pub allocate-all :
    (lines : List HeldLine) (row : TypedRow) (return_date : Option ℕ)
    (previous : Option (Dict TypedRow)) (refused : Refused)
    → IsSafe row
    → (check_row row
        (out_by lines return_date)
        (refund_maximum (allocate lines row return_date previous))
        refused).invalid
      ≡ false
    → (map (λ (s : LineShare). s.line) (allocate lines row return_date previous) ≡ lines)
      × All (IsWithin return_date) (allocate lines row return_date previous)
      × (total_damaged (allocate lines row return_date previous) ≡ row.damaged)
      × (total_accepted (allocate lines row return_date previous) ≡ row.accepted)
      × (total_refund (allocate lines row return_date previous) ≡ row.damaged_refund)
unfolding allocate
allocate-all lines row return_date previous refused safe h =
    let started = place_previous-Started lines row return_date previous in
    let done = place-Started (λ _. any_row) lines row return_date _ _ started in
    let (d, a, r) = Started-placed lines row return_date _ _ refused started safe h in
    (done.lines_kept, done.within, d, a, r)
