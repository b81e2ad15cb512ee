-- ===== src/ReturnForm/Place.antt =====
-- One pass of `place` (apps/web/src/features/returns/allocate.ts): what each line keeps to, and what
-- becomes of the row.
use mathlib.Core.Path.{ap₂}
use item_lending_management.Prelude.{
  All, Bool-cases, List, Option, [], arith, false, if◌then◌else◌, inl, inr, map, refl, sum_by, true,
  ℕ, ◌*◌, ◌+◌, ◌-◌, ◌∷◌, ◌≡◌, ◌≤◌,
}
use item_lending_management.ReturnForm.{
  LineShare, TypedRow, is_after_return, out_by, place, place_or_skip, place_share,
}
use Prim.Native.Nat.{min}

-- A line takes no more than it has out, refunds no more than the deposit of its damaged pallets, and
-- takes nothing when its order is dated after the return.
pub record IsWithin (return_date : Option ℕ) (s : LineShare) : Type 0 where
  pub out : s.accepted + s.damaged ≤ s.line.out_quantity
  pub refund : s.damaged_refund ≤ s.damaged * s.line.unit_deposit
  pub none_after :
      is_after_return s.line return_date ≡ true
      → (s.accepted ≡ 0) × (s.damaged ≡ 0) × (s.damaged_refund ≡ 0)

-- What a line still has room for.
abbrev pub room : Option ℕ → LineShare → ℕ
room return_date s =
    if is_after_return s.line return_date then 0 else s.line.out_quantity - s.damaged - s.accepted

abbrev pub total_damaged : List LineShare → ℕ
total_damaged = sum_by (λ (s : LineShare). s.damaged)

abbrev pub total_accepted : List LineShare → ℕ
total_accepted = sum_by (λ (s : LineShare). s.accepted)

abbrev pub total_refund : List LineShare → ℕ
total_refund = sum_by (λ (s : LineShare). s.damaged_refund)

-- Nothing of the row is lost or made: what the shares have with what is left.
pub record Keeps (shares shares' : List LineShare) (left left' : TypedRow) : Type 0 where
  pub damaged : total_damaged shares' + left'.damaged ≡ total_damaged shares + left.damaged
  pub accepted : total_accepted shares' + left'.accepted ≡ total_accepted shares + left.accepted
  pub refund :
      total_refund shares' + left'.damaged_refund ≡ total_refund shares + left.damaged_refund

pub deposit_mono : (a b c : ℕ) → a ≤ b → a * c ≤ b * c
deposit_mono a b c h = grind arith

within_deposit :
    (refund damaged more deposit limit : ℕ)
    → refund ≤ damaged * deposit
    → refund + min ((damaged + more) * deposit - refund) limit ≤ (damaged + more) * deposit
within_deposit refund damaged more deposit limit h =
    omega (arith, deposit_mono damaged (damaged + more) deposit (omega arith))

place_share-IsWithin :
    (return_date : Option ℕ) (limit : TypedRow) (s : LineShare) (left : TypedRow)
    → is_after_return s.line return_date ≡ false
    → IsWithin return_date s
    → IsWithin return_date (place_share limit s left).0
unfolding place_share
place_share-IsWithin return_date limit s left now w = record {
  out = omega (arith, w.out);
  refund =
      within_deposit s.damaged_refund s.damaged
        (min (s.line.out_quantity - s.damaged - s.accepted) (min limit.damaged left.damaged))
        s.line.unit_deposit (min limit.damaged_refund left.damaged_refund) w.refund;
  none_after = λ e. cc;
}

place_share-Keeps :
    (limit : TypedRow) (s : LineShare) (left : TypedRow)
    → Keeps (s ∷ []) ((place_share limit s left).0 ∷ []) left (place_share limit s left).1
unfolding place_share
place_share-Keeps limit s left = record {
  damaged = omega arith;
  accepted = omega arith;
  refund = omega arith;
}

module _ (cap : LineShare → TypedRow) (return_date : Option ℕ) where
  place_or_skip-IsWithin :
      (s : LineShare) (left : TypedRow)
      → IsWithin return_date s
      → IsWithin return_date (place_or_skip cap return_date s left).0
  unfolding place_or_skip
  place_or_skip-IsWithin s left w = elim (Bool-cases (is_after_return s.line return_date)) [
    | inl e ↦ rw e w
    | inr e ↦ rw e (place_share-IsWithin return_date (cap s) s left e w)
  ]

  pub place-IsWithin :
      (shares : List LineShare) (left : TypedRow)
      → All (IsWithin return_date) shares
      → All (IsWithin return_date) (place cap return_date shares left).0
  unfolding place
  place-IsWithin [] left a = tt
  place-IsWithin (s ∷ shares) left a = (
    place_or_skip-IsWithin s left a.0,
    place-IsWithin shares (place_or_skip cap return_date s left).1 a.1,
  )

  place_or_skip-Keeps :
      (s : LineShare) (left : TypedRow)
      → Keeps
          (s ∷ [])
          ((place_or_skip cap return_date s left).0 ∷ [])
          left
          (place_or_skip cap return_date s left).1
  unfolding place_or_skip
  place_or_skip-Keeps s left = elim (Bool-cases (is_after_return s.line return_date)) [
    | inl e ↦ rw e (record { damaged = refl; accepted = refl; refund = refl })
    | inr e ↦ rw e (place_share-Keeps (cap s) s left)
  ]

  pub place-Keeps :
      (shares : List LineShare) (left : TypedRow)
      → Keeps shares
          (place cap return_date shares left).0
          left
          (place cap return_date shares left).1
  unfolding place
  place-Keeps [] left = record { damaged = refl; accepted = refl; refund = refl }
  place-Keeps (s ∷ shares) left =
      let one = place_or_skip-Keeps s left in
      let rest = place-Keeps shares (place_or_skip cap return_date s left).1 in
      record {
        damaged = omega (arith, one.damaged, rest.damaged);
        accepted = omega (arith, one.accepted, rest.accepted);
        refund = omega (arith, one.refund, rest.refund);
      }

  -- The lines stay where they are.
  place_or_skip-line :
      (s : LineShare) (left : TypedRow) → (place_or_skip cap return_date s left).0.line ≡ s.line
  unfolding place_or_skip place_share
  place_or_skip-line s left = elim (Bool-cases (is_after_return s.line return_date)) [
    | inl e ↦ rw e refl
    | inr e ↦ rw e refl
  ]

  pub place-lines :
      (shares : List LineShare) (left : TypedRow)
      → map (λ (s : LineShare). s.line) (place cap return_date shares left).0
        ≡ map (λ (s : LineShare). s.line) shares
  unfolding place
  place-lines [] left = refl
  place-lines (s ∷ shares) left =
      ap₂ ◌∷◌ (place_or_skip-line s left)
        (place-lines shares (place_or_skip cap return_date s left).1)

-- What is out by the return date is what the lines took with the room they have.
pub out_by-room :
    (return_date : Option ℕ) (shares : List LineShare)
    → All (IsWithin return_date) shares
    → out_by (map (λ (s : LineShare). s.line) shares) return_date
      ≡ sum_by (room return_date) shares + total_damaged shares + total_accepted shares
unfolding out_by
out_by-room return_date [] a = omega arith
out_by-room return_date (s ∷ shares) a = elim (Bool-cases (is_after_return s.line return_date)) [
  | inl e ↦
      let (zero_accepted, zero_damaged, _) = a.0.none_after e in
      rw e (omega (arith, out_by-room return_date shares a.1, zero_accepted, zero_damaged))
  | inr e ↦ rw e (omega (arith, out_by-room return_date shares a.1, a.0.out))
]
