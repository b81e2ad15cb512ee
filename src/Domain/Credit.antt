-- ===== src/Domain/Credit.antt =====
-- `checkCreditLimit` of packages/shared/src/domain/ledger-math.ts.
use item_lending_management.Prelude.{
  +ℤ_parts, -ℤ_parts, Bool, Option, arith, false, if◌then◌else◌, int_laws, leb, none, pos, pos_part,
  some, true, ℕ, ℤ, ◌+ℤ◌, ◌-ℤ◌, ◌↔◌, ◌≡◌, ◌≤ℤ◌, ◌⊎◌,
}

pub record CreditCheckResult : Type 0 where
  pub allowed : Bool
  pub excess : ℤ

abbrev within : CreditCheckResult
within = record { allowed = true; excess = pos 0 }

-- The limit is null for none. The delta of an edited order may be negative.
unfoldable pub check_credit_limit : Option ℕ → ℕ → ℤ → CreditCheckResult
check_credit_limit none customer_out_value deposit_delta = within
check_credit_limit (some credit_limit) customer_out_value deposit_delta =
    let excess = pos customer_out_value +ℤ deposit_delta -ℤ pos credit_limit in
    if leb (pos_part deposit_delta) 0
    then within
    else if leb (pos_part excess) 0
    then within
    else record { allowed = false; excess = excess }

-- With a limit, a change is allowed exactly when it adds no deposit, or when the value out with it
-- stays within the limit; the excess is 0 when it is allowed, and otherwise it is positive and is
-- exactly what the value out with the change exceeds the limit by.
pub check_credit_limit_exact :
    (limit out_value : ℕ) (delta : ℤ)
    → let r = check_credit_limit (some limit) out_value delta in
      ((r.allowed ≡ true) ↔ ((delta ≤ℤ pos 0) ⊎ (pos out_value +ℤ delta ≤ℤ pos limit)))
      × (r.allowed ≡ true → r.excess ≡ pos 0)
      × (r.allowed ≡ false → (pos 1 ≤ℤ r.excess) × (r.excess +ℤ pos limit ≡ pos out_value +ℤ delta))
unfolding check_credit_limit
check_credit_limit_exact limit out_value delta =
    let a = pos out_value +ℤ delta in
    let x = a -ℤ pos limit in
    let f = +ℤ_parts (pos out_value) delta in
    let g = -ℤ_parts a (pos limit) in
    let back : x +ℤ pos limit ≡ a = omega int_laws in
    ((λ h. ground arith, λ h. ground arith), λ h. ground arith, λ h. (ground arith, ground arith))
