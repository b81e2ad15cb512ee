-- ===== src/Stock/Apply.antt =====
-- `StockLedger.apply` (apps/api/src/modules/stock/stock-ledger.ts): the rows that it writes and the
-- quantities on hand agree, and no quantity goes below zero.
use mathlib.Core.Path.{ap₂, subst}
use mathlib.Core.List.{append-nil}
use item_lending_management.Prelude.{
  All, Bool, Bool-cases, Dict, List, [], any, ap, arith, false, if◌then◌else◌, inl, inr, int_laws,
  keep, ltb_ℤ, map, parts_of_eq, pos, refl, sym, true, ℕ, ℤ, ◌++◌, ◌+ℤ◌, ◌==◌, ◌∙◌, ◌∷◌, ◌≡◌, ◌≤ℤ◌,
}
use item_lending_management.Stock.{
  Ask, StockItem, StockMovement, StockMovementInput, StockState, apply, asks, assert_available,
  is_zero, movement_row, net_from, ordered, update_items,
}
use item_lending_management.Stock.Net.{
  moved, moved-append, moved_item, net_from-Distinct, net_from-moved, update_items-map,
}
use item_lending_management.Failure.{>>=-eq-ok, if-false, if-true, ok, ok-injective}
use item_lending_management.Stock.Held.{assert_available-net}

-- The history of the stored movements.
abbrev pub history : List StockMovement → List Ask
history = map (λ (m : StockMovement). (m.item_id, m.quantity))

-- Every item's quantity on hand is the sum of its stored movements.
abbrev pub IsReconciled : StockState → Type 0
IsReconciled s =
    All (λ (i : StockItem). i.quantity_on_hand ≡ moved i.id (history s.movements)) s.items

-- No item's quantity on hand is below zero.
abbrev pub IsStocked : StockState → Type 0
IsStocked s = All (λ (i : StockItem). pos 0 ≤ℤ i.quantity_on_hand) s.items

-- An item after the movements.
abbrev pub after : List StockMovementInput → StockItem → StockItem
after ms i = record i { quantity_on_hand = i.quantity_on_hand +ℤ moved i.id (asks ms) }

history-rows : (u : ℕ) (ms : List StockMovementInput) → history (map (movement_row u) ms) ≡ asks ms
unfolding movement_row
history-rows u [] = refl
history-rows u (m ∷ ms) = ap₂ ◌∷◌ refl (history-rows u ms)

history-append : (xs ys : List StockMovement) → history (xs ++ ys) ≡ history xs ++ history ys
history-append [] ys = refl
history-append (x ∷ xs) ys = ap₂ ◌∷◌ refl (history-append xs ys)

asks-append : (xs ys : List StockMovementInput) → asks (xs ++ ys) ≡ asks xs ++ asks ys
asks-append [] ys = refl
asks-append (x ∷ xs) ys = ap₂ ◌∷◌ refl (asks-append xs ys)

abbrev pub additions : List StockMovementInput → List StockMovementInput
additions = keep (λ (m : StockMovementInput). ltb_ℤ (pos 0) m.quantity)

abbrev pub removals : List StockMovementInput → List StockMovementInput
removals = keep (λ (m : StockMovementInput). ltb_ℤ m.quantity (pos 0))

idle-zero :
    (b : Bool) (q : ℤ)
    → ltb_ℤ (pos 0) q ≡ false
    → ltb_ℤ q (pos 0) ≡ false
    → (if b then q else pos 0) ≡ pos 0
idle-zero true q p n = ground arith
idle-zero false q p n = refl

parts-moved :
    (k : ℕ) (ms : List StockMovementInput)
    → moved k (asks (additions ms)) +ℤ moved k (asks (removals ms)) ≡ moved k (asks ms)
parts-moved k [] = omega int_laws
parts-moved k (m ∷ ms) =
    let ih = parts_of_eq (parts-moved k ms) in
    elim (Bool-cases (ltb_ℤ (pos 0) m.quantity)) [
      | inl p ↦
          let n : ltb_ℤ m.quantity (pos 0) ≡ false = ground arith in
          rw (p, n) (omega (int_laws, ih))
      | inr p ↦ elim (Bool-cases (ltb_ℤ m.quantity (pos 0))) [
        | inl n ↦ rw (p, n) (omega (int_laws, ih))
        | inr n ↦
            let z = idle-zero (k == m.item_id) m.quantity p n in rw (p, n, z) (omega (int_laws, ih))
      ]
    ]

-- The order in which the rows are written moves what the call moves.
pub ordered-moved :
    (k : ℕ) (ms : List StockMovementInput) → moved k (asks (ordered ms)) ≡ moved k (asks ms)
unfolding ordered
ordered-moved k ms =
    rw
      (
        asks-append (additions ms) (removals ms),
        moved-append k (asks (additions ms)) (asks (removals ms)),
      )
      (parts-moved k ms)

map-cong :
    (f g : StockItem → StockItem) (items : List StockItem)
    → ((i : StockItem) → f i ≡ g i)
    → map f items ≡ map g items
map-cong f g [] h = refl
map-cong f g (i ∷ items) h = ap₂ ◌∷◌ (h i) (map-cong f g items h)

moved_item-after :
    (ms : List StockMovementInput) (i : StockItem)
    → moved_item (net_from [] (asks ms)) i ≡ after ms i
moved_item-after ms i =
    ap (λ (q : ℤ). record i { quantity_on_hand = i.quantity_on_hand +ℤ q })
      (net_from-moved i.id [] (asks ms) ∙ omega int_laws)

after-nothing : (items : List StockItem) → items ≡ map (after []) items
after-nothing [] = refl
after-nothing (i ∷ items) =
    ap₂ ◌∷◌ (ap (λ (q : ℤ). record i { quantity_on_hand = q }) (omega int_laws))
      (after-nothing items)

-- A call that succeeds moves every item by the sum of its movements, leaves every id, and appends
-- the movements' rows, additions first.
pub apply-effect :
    (s : StockState) (ms : List StockMovementInput) (user_id : ℕ) {s' : StockState}
    → apply s ms user_id ≡ ok s'
    → (s'.items ≡ map (after ms) s.items)
      × (s'.movements ≡ s.movements ++ map (movement_row user_id) (ordered ms))
unfolding apply ordered
apply-effect s [] user_id h =
    rw (← ok-injective h) (after-nothing s.items, sym (append-nil s.movements))
apply-effect s (m ∷ ms) user_id h = elim (Bool-cases (any is_zero (m ∷ ms))) [
  | inl z ↦ let h' = sym (if-true (any is_zero (m ∷ ms)) _ _ z) ∙ h in cc h'
  | inr nz ↦
      let h' = sym (if-false (any is_zero (m ∷ ms)) _ _ nz) ∙ h in
      let (net, e, done) = >>=-eq-ok (assert_available s.items (asks (m ∷ ms))) _ h' in
      let whole = assert_available-net s.items (asks (m ∷ ms)) e in
      let moves =
        update_items-map (net_from [] (asks (m ∷ ms))) s.items
          (net_from-Distinct [] (asks (m ∷ ms)) tt)
        ∙ map-cong _ _ s.items (moved_item-after (m ∷ ms)) in
      rw (← ok-injective done) (ap (λ (n : Dict ℤ). update_items n s.items) whole ∙ moves, refl)
]

-- An item's history after the call: what it was, and the call's movements of it.
pub history-after :
    (k user_id : ℕ) (rows : List StockMovement) (ms : List StockMovementInput)
    → moved k (history (rows ++ map (movement_row user_id) (ordered ms)))
      ≡ moved k (history rows) +ℤ moved k (asks ms)
history-after k user_id rows ms = rw (
  history-append rows (map (movement_row user_id) (ordered ms)),
  history-rows user_id (ordered ms),
  moved-append k (history rows) (asks (ordered ms)),
  ordered-moved k ms,
)

pub All-after :
    (P Q : StockItem → Type 0) (f : StockItem → StockItem) (items : List StockItem)
    → ((i : StockItem) → P i → Q (f i))
    → All P items
    → All Q (map f items)
All-after P Q f [] h a = tt
All-after P Q f (i ∷ items) h a = (h i a.0, All-after P Q f items h a.1)

-- If every item's quantity on hand is the sum of its stored movements, it is so after any successful
-- call.
pub apply-IsReconciled :
    (s : StockState) (ms : List StockMovementInput) (user_id : ℕ) {s' : StockState}
    → IsReconciled s
    → apply s ms user_id ≡ ok s'
    → IsReconciled s'
apply-IsReconciled s ms user_id {s'} inv h =
    let (items, rows) = apply-effect s ms user_id h in
    let P = λ (i : StockItem). i.quantity_on_hand ≡ moved i.id (history s.movements) in
    let Q = λ (i : StockItem). i.quantity_on_hand ≡ moved i.id (history s'.movements) in
    subst (All Q) (sym items) (All-after P Q (after ms) s.items step inv)
  where
    step :
        (i : StockItem)
        → i.quantity_on_hand ≡ moved i.id (history s.movements)
        → i.quantity_on_hand +ℤ moved i.id (asks ms) ≡ moved i.id (history s'.movements)
    step i e = rw ((apply-effect s ms user_id h).1, history-after i.id user_id s.movements ms, e)
