-- ===== src/Stock/Running.antt =====
-- The order of the rows that `StockLedger.apply` writes (apps/api/src/modules/stock/stock-ledger.ts):
-- additions before removals, so that the running balance of an item never dips.
use item_lending_management.Prelude.{
  All, Bool, Bool-cases, List, [], arith, false, if◌then◌else◌, inl, inr, int_laws, ltb_ℤ, pos, suc,
  take, true, zero, ℕ, ℤ, ◌++◌, ◌+ℤ◌, ◌==◌, ◌∷◌, ◌≤ℤ◌,
}
use item_lending_management.Stock.{StockMovementInput, asks, ordered}
use item_lending_management.Stock.Net.{moved}
use item_lending_management.Stock.Apply.{additions, ordered-moved, removals}

abbrev AllUp : List StockMovementInput → Type 0
AllUp = All (λ (m : StockMovementInput). pos 0 ≤ℤ m.quantity)

abbrev AllDown : List StockMovementInput → Type 0
AllDown = All (λ (m : StockMovementInput). m.quantity ≤ℤ pos 0)

additions-AllUp : (ms : List StockMovementInput) → AllUp (additions ms)
additions-AllUp [] = tt
additions-AllUp (m ∷ ms) = elim (Bool-cases (ltb_ℤ (pos 0) m.quantity)) [
  | inl p ↦ rw p (ground arith, additions-AllUp ms)
  | inr p ↦ rw p (additions-AllUp ms)
]

removals-AllDown : (ms : List StockMovementInput) → AllDown (removals ms)
removals-AllDown [] = tt
removals-AllDown (m ∷ ms) = elim (Bool-cases (ltb_ℤ m.quantity (pos 0))) [
  | inl p ↦ rw p (ground arith, removals-AllDown ms)
  | inr p ↦ rw p (removals-AllDown ms)
]

share_up : (b : Bool) (q : ℤ) → pos 0 ≤ℤ q → pos 0 ≤ℤ (if b then q else pos 0)
share_up true q h = h
share_up false q h = omega arith

share_down : (b : Bool) (q : ℤ) → q ≤ℤ pos 0 → (if b then q else pos 0) ≤ℤ pos 0
share_down true q h = h
share_down false q h = omega arith

moved-down : (k : ℕ) (ms : List StockMovementInput) → AllDown ms → moved k (asks ms) ≤ℤ pos 0
moved-down k [] a = omega arith
moved-down k (m ∷ ms) a =
    omega (int_laws, share_down (k == m.item_id) m.quantity a.0, moved-down k ms a.1)

down-above :
    (k n : ℕ) (b x : ℤ) (ms : List StockMovementInput)
    → AllDown ms
    → b ≤ℤ x +ℤ moved k (asks ms)
    → b ≤ℤ x +ℤ moved k (asks (take n ms))
down-above k zero b x ms a h = omega (int_laws, moved-down k ms a)
down-above k (suc n) b x [] a h = h
down-above k (suc n) b x (m ∷ ms) a h =
    let share = (if k == m.item_id then m.quantity else pos 0) in
    let ih = down-above k n b (x +ℤ share) ms a.1 (omega int_laws) in omega int_laws

up_down-above :
    (k n : ℕ) (b x : ℤ) (ups downs : List StockMovementInput)
    → AllUp ups
    → AllDown downs
    → b ≤ℤ x
    → b ≤ℤ x +ℤ moved k (asks (ups ++ downs))
    → b ≤ℤ x +ℤ moved k (asks (take n (ups ++ downs)))
up_down-above k n b x [] downs a d low high = down-above k n b x downs d high
up_down-above k zero b x (m ∷ ups) downs a d low high = omega int_laws
up_down-above k (suc n) b x (m ∷ ups) downs a d low high =
    let share = (if k == m.item_id then m.quantity else pos 0) in
    let up = share_up (k == m.item_id) m.quantity a.0 in
    let ih = up_down-above k n b (x +ℤ share) ups downs a.1 d (omega int_laws) (omega int_laws) in
    omega int_laws

-- The running balance of an item, from any balance, after any number of the rows of one call in the
-- order in which they are written, never falls below the lower of the balances before the call and
-- after it.
pub ordered-running :
    (k n : ℕ) (low before : ℤ) (ms : List StockMovementInput)
    → low ≤ℤ before
    → low ≤ℤ before +ℤ moved k (asks ms)
    → low ≤ℤ before +ℤ moved k (asks (take n (ordered ms)))
unfolding ordered
ordered-running k n low before ms h₀ h₁ =
    up_down-above k n low before (additions ms) (removals ms) (additions-AllUp ms)
      (removals-AllDown ms) h₀ (rw (ordered-moved k ms) h₁)
