-- ===== src/Purchases/Changed.antt =====
-- A correction and a deletion of a batch keep the balance of the batches.
use mathlib.Core.Path.{subst}
use item_lending_management.Prelude.{
  ==_iff, Bool-cases, List, Option-cases, Text, [], ap, arith, eqb_ℤ, false, find-holds,
  if◌then◌else◌, inl, inr, int_laws, neg, not, pos, refl, some, suc, sym, zero, ℕ, ◌+ℤ◌, ◌-ℤ◌, ◌==◌,
  ◌∙◌, ◌∷◌, ◌≡◌,
}
use item_lending_management.Failure.{>>=-eq-ok, if-false, if-true, ok, ok-injective}
use item_lending_management.Orders.State.{is_some, to_db_money, to_safe_money}
use item_lending_management.Stock.{StockMovementInput, batch_id_of}
use item_lending_management.Versioning.{assert_version, safe_product}
use item_lending_management.Purchases.{
  BatchField, PurchaseBatch, PurchaseBatchUpdateBody, PurchaseRows, batch_changes, batch_updated,
  date_allowed, deleted, edited, find_batch, item_name_of, lock_live, move_difference, move_stock,
  or_current, remove, update, update_batch, update_with, write_update,
}
use item_lending_management.Purchases.Check.{batch_moved, expected_movements}
use item_lending_management.Purchases.Balance.{IsBalanced, move_stock-eq}
use item_lending_management.Purchases.Kept.{
  Balance-change, others_kept, own_moved, record_history-IsBalanced,
}

-- A live batch is found by its id.
lock_live-eq :
    (batch_id : ℕ) (rows : PurchaseRows) {before : PurchaseBatch}
    → lock_live batch_id rows ≡ ok before
    → (find_batch batch_id rows ≡ some before)
      × (is_some before.deleted_at ≡ false)
      × (before.id ≡ batch_id)
unfolding lock_live
lock_live-eq batch_id rows {before} h = elim (Option-cases (find_batch batch_id rows)) [
  | inl e ↦ absurd (let c = rw e at h in cc)
  | inr (b, e) ↦ elim (Bool-cases (is_some b.deleted_at)) [
    | inl dead ↦ absurd (let c = rw (e, dead) at h in cc)
    | inr live ↦
        let c : ok b ≡ ok before = rw (e, live) at h in
        let q = ok-injective c in
        (
          e ∙ ap some q,
          subst (λ (x : PurchaseBatch). is_some x.deleted_at ≡ false) q live,
          ap (λ (x : PurchaseBatch). x.id) (sym q)
              ∙ (==_iff b.id batch_id).0 (find-holds (λ x. x.id == batch_id) rows.batches e),
        )
  ]
]

expected-live :
    (b : PurchaseBatch) → is_some b.deleted_at ≡ false → expected_movements b ≡ pos b.quantity
expected-live b h = if-false (is_some b.deleted_at) (pos 0) (pos b.quantity) h

-- A movement of one batch, with a change of it that expects as much more.
moved_change :
    (batch_id user_id : ℕ) (m : StockMovementInput) (change : PurchaseBatch → PurchaseBatch)
    (rows : PurchaseRows) {before : PurchaseBatch} {moved : PurchaseRows}
    → IsBalanced rows
    → find_batch batch_id rows ≡ some before
    → before.id ≡ batch_id
    → ((b : PurchaseBatch) → (change b).id ≡ b.id)
    → batch_id_of m.reason ≡ some batch_id
    → expected_movements (change before) ≡ expected_movements before +ℤ m.quantity
    → move_stock m user_id rows ≡ ok moved
    → IsBalanced (record moved { batches = update_batch batch_id change moved.batches })
moved_change batch_id user_id m change rows {before} {moved} inv found same keeps hm more h =
    let (stock, e, moves) = move_stock-eq m user_id rows h in
    let ms = rows.stock.movements in
    subst
      (λ (r : PurchaseRows).
        IsBalanced (record r { batches = update_batch batch_id change r.batches }))
      (sym e)
      (Balance-change batch_id rows.next_batch_id change ms stock.movements rows.batches inv found
        keeps (others_kept m batch_id ms stock.movements hm moves)
        (λ own.
          ap (λ i. batch_moved i stock.movements) (keeps before ∙ same)
          ∙ (own_moved m batch_id ms stock.movements hm moves
              ∙ (ap (λ i. batch_moved i ms +ℤ m.quantity) (sym same)
                  ∙ (ap (λ z. z +ℤ m.quantity) own ∙ sym more)))))

cancels : (n : ℕ) → pos 0 ≡ pos n +ℤ neg (pos n)
unfolding ◌+ℤ◌
cancels zero = refl
cancels (suc n) = ground arith

more_removed :
    (b : PurchaseBatch)
    → is_some b.deleted_at ≡ false
    → pos 0 ≡ expected_movements b +ℤ neg (pos b.quantity)
more_removed b live = rw (expected-live b live) (cancels b.quantity)

pub remove-IsBalanced :
    (now batch_id version user_id : ℕ) (rows : PurchaseRows) {rows' : PurchaseRows}
    → IsBalanced rows
    → remove now batch_id version user_id rows ≡ ok rows'
    → IsBalanced rows'
unfolding remove
remove-IsBalanced now batch_id version user_id rows inv h =
    let (before, e, h₁) = >>=-eq-ok (lock_live batch_id rows) _ h in
    let (name, _, h₂) = >>=-eq-ok (item_name_of before rows) _ h₁ in
    let (_, _, h₃) = >>=-eq-ok (assert_version before.version version) _ h₂ in
    let (moved, m, h₄) = >>=-eq-ok (move_stock _ user_id rows) _ h₃ in
    let (found, live, same) = lock_live-eq batch_id rows e in
    subst IsBalanced (ok-injective h₄) (
      record_history-IsBalanced _ _ (
        moved_change batch_id user_id _ (deleted now user_id) rows inv found same (λ b. refl) refl
          (more_removed before live) m))

-- A live batch with another quantity.
more_edited :
    (b : PurchaseBatch) (quantity : ℕ)
    → is_some b.deleted_at ≡ false
    → (if is_some b.deleted_at then pos 0 else pos quantity)
      ≡ expected_movements b +ℤ (pos quantity -ℤ pos b.quantity)
more_edited b quantity live = rw live (omega int_laws)

-- The quantity is the same when the difference is nothing.
same_quantity : (new old : ℕ) → not (eqb_ℤ (pos new -ℤ pos old) (pos 0)) ≡ false → new ≡ old
unfolding ◌-ℤ◌
same_quantity new old h = ground arith

-- What a correction makes of a batch: the same id and mark, the given quantity.
record Corrects (change : PurchaseBatch → PurchaseBatch) (quantity : ℕ) : Type 0 where
  keeps_id : (b : PurchaseBatch) → (change b).id ≡ b.id
  keeps_mark : (b : PurchaseBatch) → (change b).deleted_at ≡ b.deleted_at
  sets : (b : PurchaseBatch) → (change b).quantity ≡ quantity

edited-Corrects :
    (body : PurchaseBatchUpdateBody) (quantity unit_cost total_cost : ℕ)
    → Corrects (edited body quantity unit_cost total_cost) quantity
unfolding edited
edited-Corrects body quantity unit_cost total_cost = record {
  keeps_id = λ b. refl;
  keeps_mark = λ b. refl;
  sets = λ b. refl;
}

expected-corrected :
    (change : PurchaseBatch → PurchaseBatch) (quantity : ℕ) (b : PurchaseBatch)
    → Corrects change quantity
    → expected_movements (change b) ≡ (if is_some b.deleted_at then pos 0 else pos quantity)
expected-corrected change quantity b c = rw (c.keeps_mark b, c.sets b) refl

move_difference-IsBalanced :
    (before : PurchaseBatch) (quantity user_id : ℕ) (change : PurchaseBatch → PurchaseBatch)
    (rows : PurchaseRows) {moved : PurchaseRows}
    → IsBalanced rows
    → find_batch before.id rows ≡ some before
    → is_some before.deleted_at ≡ false
    → Corrects change quantity
    → move_difference before quantity user_id rows ≡ ok moved
    → IsBalanced (record moved { batches = update_batch before.id change moved.batches })
unfolding move_difference
move_difference-IsBalanced before quantity user_id change rows {moved} inv found live c h =
    let delta = pos quantity -ℤ pos before.quantity in
    elim (Bool-cases (not (eqb_ℤ delta (pos 0)))) [
      | inl e ↦
          let m = sym (if-true (not (eqb_ℤ delta (pos 0))) _ _ e) ∙ h in
          moved_change before.id user_id _ change rows inv found refl c.keeps_id refl
            (expected-corrected change quantity before c ∙ more_edited before quantity live) m
      | inr e ↦
          let q = ok-injective (sym (if-false (not (eqb_ℤ delta (pos 0))) _ _ e) ∙ h) in
          let ms = rows.stock.movements in
          subst
            (λ (r : PurchaseRows).
              IsBalanced (record r { batches = update_batch before.id change r.batches }))
            q
            (Balance-change before.id rows.next_batch_id change ms ms rows.batches inv found
              c.keeps_id (λ i n. refl)
              (λ own.
                ap (λ i. batch_moved i ms) (c.keeps_id before)
                ∙ (own
                    ∙ (expected-live before live
                        ∙ sym (
                            expected-corrected change quantity before c
                            ∙ (if-false (is_some before.deleted_at) (pos 0) (pos quantity) live
                                ∙ ap pos (same_quantity quantity before.quantity e)))))))
    ]

write_update-IsBalanced :
    (body : PurchaseBatchUpdateBody) (before : PurchaseBatch) (current_cost : ℕ) (item_name : Text)
    (fields : List BatchField) (user_id : ℕ) (rows : PurchaseRows)
    {written : PurchaseRows × PurchaseBatch}
    → IsBalanced rows
    → find_batch before.id rows ≡ some before
    → is_some before.deleted_at ≡ false
    → write_update body before current_cost item_name fields user_id rows ≡ ok written
    → IsBalanced written.0
unfolding write_update
write_update-IsBalanced body before current_cost item_name fields user_id rows inv found live h =
    let quantity = or_current body.quantity before.quantity in
    let unit_cost = or_current body.unit_cost current_cost in
    let (total_cost, _, h₁) = >>=-eq-ok (safe_product quantity unit_cost) _ h in
    let (moved, m, h₂) = >>=-eq-ok (move_difference before quantity user_id rows) _ h₁ in
    let (unit, _, h₃) = >>=-eq-ok (to_db_money unit_cost) _ h₂ in
    let (total, _, h₄) = >>=-eq-ok (to_db_money total_cost) _ h₃ in
    let change = edited body quantity unit total in
    subst (λ (w : PurchaseRows × PurchaseBatch). IsBalanced w.0) (ok-injective h₄)
      (record_history-IsBalanced (batch_updated fields before (change before) item_name)
        (record moved { batches = update_batch before.id change moved.batches })
        (move_difference-IsBalanced before quantity user_id change rows inv found live
          (edited-Corrects body quantity unit total) m))

update_with-IsBalanced :
    (body : PurchaseBatchUpdateBody) (before : PurchaseBatch) (current_cost : ℕ) (item_name : Text)
    (user_id : ℕ) (rows : PurchaseRows) (fields : List BatchField)
    {written : PurchaseRows × PurchaseBatch}
    → IsBalanced rows
    → find_batch before.id rows ≡ some before
    → is_some before.deleted_at ≡ false
    → update_with body before current_cost item_name user_id rows fields ≡ ok written
    → IsBalanced written.0
unfolding update_with
update_with-IsBalanced body before current_cost item_name user_id rows [] inv found live h =
    subst (λ (w : PurchaseRows × PurchaseBatch). IsBalanced w.0) (ok-injective h) inv
update_with-IsBalanced body before current_cost item_name user_id rows (field ∷ fields) inv found
      live h =
    write_update-IsBalanced body before current_cost item_name (field ∷ fields) user_id rows inv
      found live h

pub update-IsBalanced :
    (today batch_id : ℕ) (body : PurchaseBatchUpdateBody) (user_id : ℕ) (rows : PurchaseRows)
    {written : PurchaseRows × PurchaseBatch}
    → IsBalanced rows
    → update today batch_id body user_id rows ≡ ok written
    → IsBalanced written.0
unfolding update
update-IsBalanced today batch_id body user_id rows inv h =
    let (before, e, h₁) = >>=-eq-ok (lock_live batch_id rows) _ h in
    let (name, _, h₂) = >>=-eq-ok (item_name_of before rows) _ h₁ in
    let (_, _, h₃) = >>=-eq-ok (assert_version before.version body.version) _ h₂ in
    let (_, _, h₄) = >>=-eq-ok (date_allowed today body.date) _ h₃ in
    let (cost, _, h₅) = >>=-eq-ok (to_safe_money before.unit_cost) _ h₄ in
    let (found, live, same) = lock_live-eq batch_id rows e in
    update_with-IsBalanced body before cost name user_id rows (batch_changes body before cost) inv
      (subst (λ i. find_batch i rows ≡ some before) (sym same) found) live h₅
