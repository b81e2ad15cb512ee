-- ===== src/Purchases/Kept.antt =====
-- A new batch keeps the balance of the batches, and what the changes of a batch share.
use mathlib.Core.Path.{subst}
use item_lending_management.Prelude.{
  ==_iff, All, All-mono, All-zip, List, [], ap, arith, find, find-All, find-holds, int_laws, refl,
  some, suc, sym, ℕ, ◌*◌, ◌++◌, ◌+ℤ◌, ◌<◌, ◌==◌, ◌∙◌, ◌∷◌, ◌≡◌, ◌≢◌,
}
use item_lending_management.Failure.{>>=-eq-ok, ok, ok-injective}
use item_lending_management.Orders.State.{to_db_money}
use item_lending_management.Ledger.{assert_not_in_future}
use item_lending_management.Stock.{StockMovement, StockMovementInput, batch_id_of}
use item_lending_management.Stock.Apply.{after}
use item_lending_management.Versioning.{safe_product}
use item_lending_management.Purchases.{
  BatchAudit, InitialBatchBody, PurchaseBatch, PurchaseRows, append_batch, batch_created,
  create_batch, insert_batch, live_item, move_stock, new_batch, record_history, reload,
  update_batch,
}
use item_lending_management.Purchases.Check.{batch_moved, expected_movements}
use item_lending_management.Purchases.Balance.{
  All-update_batch, Balance, Balanced, Distinct, Distinct-update_batch, Fresh, IsBalanced, adds,
  adds-other, adds-own, move_stock-eq,
}

-- A change of one batch with movements of that batch only.
pub Balance-change :
    (id next : ℕ) (change : PurchaseBatch → PurchaseBatch) (ms ms' : List StockMovement)
    (bs : List PurchaseBatch) {before : PurchaseBatch}
    → Balance ms bs next
    → find (λ (b : PurchaseBatch). b.id == id) bs ≡ some before
    → ((b : PurchaseBatch) → (change b).id ≡ b.id)
    → ((i : ℕ) → id ≢ i → batch_moved i ms' ≡ batch_moved i ms)
    → (Balanced ms before → Balanced ms' (change before))
    → Balance ms' (update_batch id change bs) next
Balance-change id next change ms ms' bs {before} inv found keeps others own =
    let here = find-All (λ (b : PurchaseBatch). b.id < next) (λ b. b.id == id) bs found inv.known in
    let same : before.id ≡ id = (==_iff before.id id).0 (find-holds (λ b. b.id == id) bs found) in
    record {
      balanced =
          All-update_batch (Balanced ms) (Balanced ms') id change bs found
            (λ b n h. others b.id n ∙ h) own inv.distinct inv.balanced;
      distinct = Distinct-update_batch id change bs keeps inv.distinct;
      known =
          All-update_batch (λ b. b.id < next) (λ b. b.id < next) id change bs found (λ b n h. h)
            (λ h. subst (λ i. i < next) (sym (keeps before)) h) inv.distinct inv.known;
      unmoved = λ i h. others i (omega arith) ∙ inv.unmoved i h;
    }

All-snoc :
    (P : PurchaseBatch → Type 0) (bs : List PurchaseBatch) (b : PurchaseBatch)
    → All P bs
    → P b
    → All P (bs ++ b ∷ [])
All-snoc P [] b a p = (p, tt)
All-snoc P (c ∷ bs) b a p = (a.0, All-snoc P bs b a.1 p)

Fresh-snoc :
    (id : ℕ) (bs : List PurchaseBatch) (b : PurchaseBatch)
    → Fresh id bs
    → id ≢ b.id
    → Fresh id (bs ++ b ∷ [])
Fresh-snoc id [] b f n = (n, tt)
Fresh-snoc id (c ∷ bs) b f n = (f.0, Fresh-snoc id bs b f.1 n)

Distinct-snoc :
    (bs : List PurchaseBatch) (b : PurchaseBatch)
    → Distinct bs
    → All (λ (c : PurchaseBatch). c.id < b.id) bs
    → Distinct (bs ++ b ∷ [])
Distinct-snoc [] b d k = (tt, tt)
Distinct-snoc (c ∷ bs) b d k =
    (Fresh-snoc c.id bs b d.0 (λ e. omega (arith, k.0, e)), Distinct-snoc bs b d.1 k.1)

-- A batch with the next id and the movement of its quantity.
Balance-append :
    (b : PurchaseBatch) (ms ms' : List StockMovement) (bs : List PurchaseBatch)
    → Balance ms bs b.id
    → ((i : ℕ) → b.id ≢ i → batch_moved i ms' ≡ batch_moved i ms)
    → Balanced ms' b
    → Balance ms' (bs ++ b ∷ []) (suc b.id)
Balance-append b ms ms' bs inv others own = record {
  balanced =
      All-snoc (Balanced ms') bs b
        (All-mono (λ c. Balanced ms c × (c.id < b.id)) (Balanced ms') bs
          (λ c h. others c.id (λ e. omega (arith, h.1, e)) ∙ h.0)
          (All-zip (Balanced ms) (λ c. c.id < b.id) bs inv.balanced inv.known))
        own;
  distinct = Distinct-snoc bs b inv.distinct inv.known;
  known =
      All-snoc (λ c. c.id < suc b.id) bs b
        (All-mono (λ c. c.id < b.id) (λ c. c.id < suc b.id) bs (λ c h. omega (arith, h)) inv.known)
        (omega arith);
  unmoved = λ i h. others i (omega arith) ∙ inv.unmoved i (omega arith);
}

-- A movement of one batch leaves the sums of the others.
pub others_kept :
    (m : StockMovementInput) (id : ℕ) (ms ms' : List StockMovement)
    → batch_id_of m.reason ≡ some id
    → ((i : ℕ) → batch_moved i ms' ≡ batch_moved i ms +ℤ adds i m)
    → (i : ℕ) → id ≢ i
    → batch_moved i ms' ≡ batch_moved i ms
others_kept m id ms ms' e moves i n =
    moves i ∙ (ap (λ z. batch_moved i ms +ℤ z) (adds-other i m e n) ∙ omega int_laws)

pub own_moved :
    (m : StockMovementInput) (id : ℕ) (ms ms' : List StockMovement)
    → batch_id_of m.reason ≡ some id
    → ((i : ℕ) → batch_moved i ms' ≡ batch_moved i ms +ℤ adds i m)
    → batch_moved id ms' ≡ batch_moved id ms +ℤ m.quantity
own_moved m id ms ms' e moves = moves id ∙ ap (λ z. batch_moved id ms +ℤ z) (adds-own id m e)

insert_moved :
    (b : PurchaseBatch) (m : StockMovementInput) (user_id : ℕ) (rows : PurchaseRows)
    {after : PurchaseRows}
    → rows.next_batch_id ≡ b.id
    → expected_movements b ≡ m.quantity
    → batch_id_of m.reason ≡ some b.id
    → IsBalanced rows
    → move_stock m user_id (append_batch b rows) ≡ ok after
    → IsBalanced after
insert_moved b m user_id rows {after} hid hq hm inv h =
    let (stock, e, moves) = move_stock-eq m user_id (append_batch b rows) h in
    let ms = rows.stock.movements in
    let inv' = subst (Balance ms rows.batches) hid inv in
    let own =
      own_moved m b.id ms stock.movements hm moves
      ∙ (ap (λ z. z +ℤ m.quantity) (inv'.unmoved b.id (omega arith)) ∙ omega int_laws) in
    subst IsBalanced (sym e) (
      subst (λ n. Balance stock.movements (rows.batches ++ b ∷ []) (suc n)) (sym hid)
        (Balance-append b ms stock.movements rows.batches inv'
          (others_kept m b.id ms stock.movements hm moves) (own ∙ sym hq)))

insert_batch-IsBalanced :
    (item_id : ℕ) (input : InitialBatchBody) (user_id : ℕ) (rows : PurchaseRows)
    {written : PurchaseRows × PurchaseBatch}
    → IsBalanced rows
    → insert_batch item_id input user_id rows ≡ ok written
    → IsBalanced written.0
unfolding insert_batch
insert_batch-IsBalanced item_id input user_id rows inv h =
    let (unit_cost, _, h₁) = >>=-eq-ok (to_db_money input.unit_cost) _ h in
    let (total_cost, _, h₂) = >>=-eq-ok (to_db_money (input.quantity * input.unit_cost)) _ h₁ in
    let batch = new_batch rows.next_batch_id item_id input unit_cost total_cost user_id in
    let (after, e, h₃) = >>=-eq-ok (move_stock _ user_id (append_batch batch rows)) _ h₂ in
    subst (λ (w : PurchaseRows × PurchaseBatch). IsBalanced w.0) (ok-injective h₃)
      (insert_moved batch _ user_id rows refl refl refl inv e)

-- The history row and the answer change no table that matters here.
create_batch-written :
    (today item_id : ℕ) (body : InitialBatchBody) (user_id : ℕ) (rows : PurchaseRows)
    {rows' : PurchaseRows} {batch : PurchaseBatch}
    → create_batch today item_id body user_id rows ≡ ok (rows', batch)
    → (written : PurchaseRows × PurchaseBatch) × (entry : BatchAudit) × (insert_batch item_id body
          user_id rows
        ≡ ok written)
      × (rows' ≡ record_history entry written.0)
unfolding create_batch
create_batch-written today item_id body user_id rows h =
    let (_, _, h₁) = >>=-eq-ok (assert_not_in_future today body.date) _ h in
    let (_, _, h₂) = >>=-eq-ok (safe_product body.quantity body.unit_cost) _ h₁ in
    let (item, _, h₃) = >>=-eq-ok (live_item item_id rows) _ h₂ in
    let (written, e, h₄) = >>=-eq-ok (insert_batch item_id body user_id rows) _ h₃ in
    let entry = batch_created written.1 item.name in
    let (stored, _, h₅) = >>=-eq-ok (reload written.1.id (record_history entry written.0)) _ h₄ in
    (written, entry, e, sym (ap (λ (x : PurchaseRows × PurchaseBatch). x.0) (ok-injective h₅)))

pub record_history-IsBalanced :
    (entry : BatchAudit) (rows : PurchaseRows)
    → IsBalanced rows
    → IsBalanced (record_history entry rows)
unfolding record_history
record_history-IsBalanced entry rows inv = inv

pub create_batch-IsBalanced :
    (today item_id : ℕ) (body : InitialBatchBody) (user_id : ℕ) (rows : PurchaseRows)
    {rows' : PurchaseRows} {batch : PurchaseBatch}
    → IsBalanced rows
    → create_batch today item_id body user_id rows ≡ ok (rows', batch)
    → IsBalanced rows'
create_batch-IsBalanced today item_id body user_id rows inv h =
    let (written, entry, e, eq) = create_batch-written today item_id body user_id rows h in
    subst IsBalanced (sym eq) (
      record_history-IsBalanced entry written.0
        (insert_batch-IsBalanced item_id body user_id rows inv e))
