-- ===== src/Purchases/Reached.antt =====
-- Whatever purchases are recorded, corrected and deleted, every batch's movements add up.
use mathlib.Core.Path.{subst}
use item_lending_management.Prelude.{
  All, All-mono, Bool, Bool-cases, List, [], ap, arith, eqb_ℤ, false, inl, inr, int_laws, keep,
  ltb_ℤ, map, none, not, pos, refl, sym, ℕ, ℤ, ◌++◌, ◌+ℤ◌, ◌∙◌, ◌∷◌, ◌≡◌,
}
use item_lending_management.Failure.{if-false, ok}
use item_lending_management.Stock.{
  StockMovement, StockMovementInput, StockState, apply, batch_id_of, movement_row, ordered,
}
use item_lending_management.Stock.Apply.{apply-effect}
use item_lending_management.Purchases.{
  InitialBatchBody, PurchaseBatch, PurchaseBatchUpdateBody, PurchaseRows, create_batch, remove,
  update,
}
use item_lending_management.Purchases.Check.{batch_moved, check_batches, expected_movements}
use item_lending_management.Purchases.Balance.{Balance, Balanced, IsBalanced, batch_moved-append}
use item_lending_management.Purchases.Changed.{remove-IsBalanced, update-IsBalanced}
use item_lending_management.Purchases.Kept.{create_batch-IsBalanced}

-- Movements of orders, returns, adjustments and credits name no batch.
abbrev pub NamesNoBatch : StockMovementInput → Type 0
NamesNoBatch m = batch_id_of m.reason ≡ none

-- One purchase operation that succeeds, or a call of the stock ledger for something else.
pub data Step : PurchaseRows → PurchaseRows → Type 0 where
  created :
      {rows rows' : PurchaseRows} {batch : PurchaseBatch} (today item_id : ℕ)
      (body : InitialBatchBody) (user_id : ℕ)
      → create_batch today item_id body user_id rows ≡ ok (rows', batch)
      → Step rows rows'
  corrected :
      {rows rows' : PurchaseRows} {batch : PurchaseBatch} (today batch_id : ℕ)
      (body : PurchaseBatchUpdateBody) (user_id : ℕ)
      → update today batch_id body user_id rows ≡ ok (rows', batch)
      → Step rows rows'
  removed :
      {rows rows' : PurchaseRows} (now batch_id version user_id : ℕ)
      → remove now batch_id version user_id rows ≡ ok rows'
      → Step rows rows'
  moved_otherwise :
      {rows : PurchaseRows} {stock : StockState} (ms : List StockMovementInput) (user_id : ℕ)
      → All NamesNoBatch ms
      → apply rows.stock ms user_id ≡ ok stock
      → Step rows (record rows { stock = stock })

pub data Reachable (start : PurchaseRows) : PurchaseRows → Type 0 where
  here : Reachable start start
  then :
      {rows rows' : PurchaseRows} → Reachable start rows → Step rows rows' → Reachable start rows'

All-keep {ℓ κ} :
    {A : Type ℓ} (P : A → Type κ) (p : A → Bool) (xs : List A) → All P xs → All P (keep p xs)
All-keep P p [] a = tt
All-keep P p (x ∷ xs) a = elim (Bool-cases (p x)) [
  | inl e ↦ rw e (a.0, All-keep P p xs a.1)
  | inr e ↦ rw e (All-keep P p xs a.1)
]

All-append {ℓ κ} :
    {A : Type ℓ} (P : A → Type κ) (xs ys : List A) → All P xs → All P ys → All P (xs ++ ys)
All-append P [] ys a b = b
All-append P (x ∷ xs) ys a b = (a.0, All-append P xs ys a.1 b)

batch_moved-others :
    (id user_id : ℕ) (ms : List StockMovementInput)
    → All NamesNoBatch ms
    → batch_moved id (map (movement_row user_id) ms) ≡ pos 0
unfolding batch_moved movement_row
batch_moved-others id user_id [] a = refl
batch_moved-others id user_id (m ∷ ms) a =
    rw (a.0, batch_moved-others id user_id ms a.1) (omega int_laws)

-- Movements that name no batch leave every batch's sum.
ordered-All :
    (P : StockMovementInput → Type 0) (ms : List StockMovementInput) → All P ms → All P (ordered ms)
unfolding ordered
ordered-All P ms a =
    All-append P (keep (λ m. ltb_ℤ (pos 0) m.quantity) ms) (keep (λ m. ltb_ℤ m.quantity (pos 0)) ms)
      (All-keep P (λ m. ltb_ℤ (pos 0) m.quantity) ms a)
      (All-keep P (λ m. ltb_ℤ m.quantity (pos 0)) ms a)

apply-others :
    (s : StockState) (ms : List StockMovementInput) (user_id : ℕ) {s' : StockState}
    → All NamesNoBatch ms
    → apply s ms user_id ≡ ok s'
    → (id : ℕ) → batch_moved id s'.movements ≡ batch_moved id s.movements
apply-others s ms user_id a h id =
    let (_, moves) = apply-effect s ms user_id h in
    let new = map (movement_row user_id) (ordered ms) in
    ap (batch_moved id) moves
    ∙ (batch_moved-append id s.movements new
        ∙ (ap (λ z. batch_moved id s.movements +ℤ z)
              (batch_moved-others id user_id (ordered ms) (ordered-All NamesNoBatch ms a))
            ∙ omega int_laws))

same_figures : (a b : ℤ) → a ≡ b → not (eqb_ℤ a b) ≡ false
same_figures a b h = ground arith

check_batches_nil :
    (bs : List PurchaseBatch) (ms : List StockMovement)
    → All (Balanced ms) bs
    → check_batches bs ms ≡ []
unfolding check_batches
check_batches_nil [] ms a = refl
check_batches_nil (b ∷ bs) ms a =
    if-false (not (eqb_ℤ (batch_moved b.id ms) (expected_movements b))) _ _
      (same_figures (batch_moved b.id ms) (expected_movements b) a.0)
    ∙ check_batches_nil bs ms a.1

Step-IsBalanced : {rows rows' : PurchaseRows} → Step rows rows' → IsBalanced rows → IsBalanced rows'
Step-IsBalanced {rows} (created today item_id body user_id h) inv =
    create_batch-IsBalanced today item_id body user_id rows inv h
Step-IsBalanced {rows} (corrected today batch_id body user_id h) inv =
    update-IsBalanced today batch_id body user_id rows inv h
Step-IsBalanced {rows} (removed now batch_id version user_id h) inv =
    remove-IsBalanced now batch_id version user_id rows inv h
Step-IsBalanced {rows} (moved_otherwise {stock = stock} ms user_id a h) inv =
    let kept = apply-others rows.stock ms user_id a h in
    record {
      balanced =
          All-mono (Balanced rows.stock.movements) (Balanced stock.movements) rows.batches
            (λ b own. kept b.id ∙ own) inv.balanced;
      distinct = inv.distinct;
      known = inv.known;
      unmoved = λ id above. kept id ∙ inv.unmoved id above;
    }

Reachable-IsBalanced :
    (start : PurchaseRows) {rows : PurchaseRows}
    → IsBalanced start
    → Reachable start rows
    → IsBalanced rows
Reachable-IsBalanced start inv here = inv
Reachable-IsBalanced start inv (then path step) =
    Step-IsBalanced step (Reachable-IsBalanced start inv path)

-- From tables with no batches and no stock movements, after any sequence of recorded, corrected and
-- deleted purchases and of other movements of the stock, rule R6 of the reconciliation finds every
-- batch's movements equal to its quantity, or to 0 once it is deleted.
pub Reachable-balanced :
    (start : PurchaseRows) {rows : PurchaseRows}
    → start.batches ≡ []
    → start.stock.movements ≡ []
    → Reachable start rows
    → check_batches rows.batches rows.stock.movements ≡ []
unfolding batch_moved
Reachable-balanced start {rows} no_batches no_movements path =
    let empty : Balance [] [] start.next_batch_id = record {
      balanced = tt;
      distinct = tt;
      known = tt;
      unmoved = λ id above. refl;
    } in
    let inv =
      subst (λ ms. Balance ms start.batches start.next_batch_id) (sym no_movements)
        (subst (λ bs. Balance [] bs start.next_batch_id) (sym no_batches) empty) in
    check_batches_nil rows.batches rows.stock.movements
      (Reachable-IsBalanced start inv path).balanced
