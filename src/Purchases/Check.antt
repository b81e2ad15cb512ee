-- ===== src/Purchases/Check.antt =====
-- R6 of apps/api/src/prisma/reconciliation.ts: a batch's movements add up to its quantity, or to
-- nothing once it is deleted.
use item_lending_management.Prelude.{
  Bool, List, Option, [], eqb_ℤ, false, if◌then◌else◌, none, not, pos, some, ℕ, ℤ, ◌+ℤ◌, ◌==◌, ◌∷◌,
}
use item_lending_management.Orders.State.{is_some}
use item_lending_management.Stock.{StockMovement}
use item_lending_management.Purchases.{PurchaseBatch}

abbrev pub is_of_batch : ℕ → Option ℕ → Bool
is_of_batch id none = false
is_of_batch id (some batch_id) = batch_id == id

-- `SUM(sm.quantity)` of the movements with the batch's id
unfoldable pub batch_moved : ℕ → List StockMovement → ℤ
batch_moved id [] = pos 0
batch_moved id (m ∷ ms) =
    (if is_of_batch id m.batch_id then m.quantity else pos 0) +ℤ batch_moved id ms

-- `CASE WHEN b.deleted_at IS NULL THEN b.quantity ELSE 0 END`
abbrev pub expected_movements : PurchaseBatch → ℤ
expected_movements b = if is_some b.deleted_at then pos 0 else pos b.quantity

-- The discrepancies: a batch's id, what its movements add up to, and what they should.
unfoldable pub check_batches : List PurchaseBatch → List StockMovement → List (ℕ × ℤ × ℤ)
check_batches [] movements = []
check_batches (b ∷ bs) movements =
    let rest = check_batches bs movements in
    let moved = batch_moved b.id movements in
    if not (eqb_ℤ moved (expected_movements b))
    then (b.id, moved, expected_movements b) ∷ rest
    else rest
