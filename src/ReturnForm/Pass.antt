-- ===== src/ReturnForm/Pass.antt =====
-- The last pass of `allocate` (apps/web/src/features/returns/allocate.ts), which caps nothing.
use Prim.Native.Nat.{min}
use item_lending_management.Prelude.{
  All, Bool-cases, List, Option, [], arith, false, inl, inr, leb, leb→le, refl, sum_by, ℕ, ◌*◌, ◌+◌,
  ◌-◌, ◌∷◌, ◌≡◌, ◌≤◌, ◌⊎◌,
}
use item_lending_management.Domain.{max_safe}
use item_lending_management.ReturnForm.{
  LineShare, TypedRow, any_row, is_after_return, place, place_or_skip, place_share, refund_maximum,
}
use item_lending_management.ReturnForm.Place.{IsWithin, deposit_mono, room, total_refund}

-- The pass that caps nothing.
abbrev pub turn : Option ℕ → LineShare → TypedRow → LineShare × TypedRow
turn return_date = place_or_skip (λ _. any_row) return_date

abbrev pub pass : Option ℕ → List LineShare → TypedRow → List LineShare × TypedRow
pass return_date = place (λ _. any_row) return_date

-- The figures of a row are whole numbers that a double holds exactly.
pub record IsSafe (row : TypedRow) : Type 0 where
  pub accepted : row.accepted ≤ max_safe
  pub damaged : row.damaged ≤ max_safe
  pub damaged_refund : row.damaged_refund ≤ max_safe

-- No part of a row grows.
record Shrinks (left still : TypedRow) : Type 0 where
  accepted : still.accepted ≤ left.accepted
  damaged : still.damaged ≤ left.damaged
  damaged_refund : still.damaged_refund ≤ left.damaged_refund

place_or_skip-Shrinks :
    (cap : LineShare → TypedRow) (return_date : Option ℕ) (s : LineShare) (left : TypedRow)
    → Shrinks left (place_or_skip cap return_date s left).1
unfolding place_or_skip place_share
place_or_skip-Shrinks cap return_date s left =
    elim (Bool-cases (is_after_return s.line return_date)) [
      | inl e ↦
          rw e
            (record { accepted = omega arith; damaged = omega arith; damaged_refund = omega arith })
      | inr e ↦
          rw e
            (record { accepted = omega arith; damaged = omega arith; damaged_refund = omega arith })
    ]

place-Shrinks :
    (cap : LineShare → TypedRow) (return_date : Option ℕ) (shares : List LineShare)
    (left : TypedRow)
    → Shrinks left (place cap return_date shares left).1
unfolding place
place-Shrinks cap return_date [] left = record {
  accepted = omega arith;
  damaged = omega arith;
  damaged_refund = omega arith;
}
place-Shrinks cap return_date (s ∷ shares) left =
    let one = place_or_skip-Shrinks cap return_date s left in
    let rest = place-Shrinks cap return_date shares (place_or_skip cap return_date s left).1 in
    record {
      accepted = omega (arith, one.accepted, rest.accepted);
      damaged = omega (arith, one.damaged, rest.damaged);
      damaged_refund = omega (arith, one.damaged_refund, rest.damaged_refund);
    }

IsSafe-Shrinks : {left still : TypedRow} → IsSafe left → Shrinks left still → IsSafe still
IsSafe-Shrinks a b = record {
  accepted = omega (arith, a.accepted, b.accepted);
  damaged = omega (arith, a.damaged, b.damaged);
  damaged_refund = omega (arith, a.damaged_refund, b.damaged_refund);
}

-- A line takes what it has room for, while there is something left.
turn-room :
    (return_date : Option ℕ) (s : LineShare) (left : TypedRow) (others : ℕ)
    → IsSafe left
    → left.damaged + left.accepted ≤ room return_date s + others
    → (turn return_date s left).1.damaged + (turn return_date s left).1.accepted ≤ others
unfolding place_or_skip place_share
turn-room return_date s left others safe h =
    elim (Bool-cases (is_after_return s.line return_date)) [
      | inl e ↦ let h' = rw e at h in rw e (omega (arith, h'))
      | inr e ↦ let h' = rw e at h in rw e (omega (arith, safe.damaged, safe.accepted, h'))
    ]

pub pass-room :
    (return_date : Option ℕ) (shares : List LineShare) (left : TypedRow)
    → IsSafe left
    → left.damaged + left.accepted ≤ sum_by (room return_date) shares
    → (pass return_date shares left).1.damaged + (pass return_date shares left).1.accepted ≡ 0
unfolding place
pass-room return_date [] left safe h = omega arith
pass-room return_date (s ∷ shares) left safe h =
    let still = (turn return_date s left).1 in
    pass-room return_date shares still
      (IsSafe-Shrinks safe (place_or_skip-Shrinks (λ _. any_row) return_date s left))
      (turn-room return_date s left (sum_by (room return_date) shares) safe h)

refund_step :
    (given deposit left : ℕ)
    → given ≤ deposit
    → left ≤ max_safe
    → (left - min (deposit - given) (min max_safe left) ≡ 0)
      ⊎ (given + min (deposit - given) (min max_safe left) ≡ deposit)
refund_step given deposit left h safe = elim (Bool-cases (leb left (deposit - given))) [
  | inl e ↦ inl (omega (arith, leb→le left (deposit - given) e))
  | inr e ↦ inr (omega (arith, not_leb left (deposit - given) e))
]
  where
    not_leb : (a b : ℕ) → leb a b ≡ false → b ≤ a
    not_leb a b q = ground arith

-- A line refunds all it can, or the given is used up.
turn-refund :
    (return_date : Option ℕ) (s : LineShare) (left : TypedRow)
    → IsSafe left
    → IsWithin return_date s
    → ((turn return_date s left).1.damaged_refund ≡ 0)
      ⊎ ((turn return_date s left).0.damaged_refund
          ≡ (turn return_date s left).0.damaged * (turn return_date s left).0.line.unit_deposit)
unfolding place_or_skip place_share
turn-refund return_date s left safe w = elim (Bool-cases (is_after_return s.line return_date)) [
  | inl e ↦
      let (_, zero_damaged, zero_refund) = w.none_after e in
      let nothing = deposit_mono s.damaged 0 s.line.unit_deposit (omega (arith, zero_damaged)) in
      rw e (inr (omega (arith, nothing, zero_refund)))
  | inr e ↦
      let more = min (s.line.out_quantity - s.damaged - s.accepted) (min max_safe left.damaged) in
      let grows = deposit_mono s.damaged (s.damaged + more) s.line.unit_deposit (omega arith) in
      rw e (
        refund_step s.damaged_refund ((s.damaged + more) * s.line.unit_deposit) left.damaged_refund
          (omega (arith, grows, w.refund)) safe.damaged_refund)
]

pub pass-refund :
    (return_date : Option ℕ) (shares : List LineShare) (left : TypedRow)
    → IsSafe left
    → All (IsWithin return_date) shares
    → ((pass return_date shares left).1.damaged_refund ≡ 0)
      ⊎ (total_refund (pass return_date shares left).0
          ≡ refund_maximum (pass return_date shares left).0)
unfolding place refund_maximum
pass-refund return_date [] left safe a = inr refl
pass-refund return_date (s ∷ shares) left safe a =
    let still = (turn return_date s left).1 in
    let smaller = place_or_skip-Shrinks (λ _. any_row) return_date s left in
    let later = place-Shrinks (λ _. any_row) return_date shares still in
    elim (turn-refund return_date s left safe a.0) [
      | inl used_up ↦ inl (omega (arith, used_up, later.damaged_refund))
      | inr full ↦ elim (pass-refund return_date shares still (IsSafe-Shrinks safe smaller) a.1) [
        | inl used_up ↦ inl used_up
        | inr others ↦ inr (omega (arith, full, others))
      ]
    ]
