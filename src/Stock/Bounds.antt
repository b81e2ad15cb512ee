-- ===== src/Stock/Bounds.antt =====
-- When `StockLedger.apply` (apps/api/src/modules/stock/stock-ledger.ts) refuses, and that it never
-- takes an item below zero.
use item_lending_management.Prelude.{
  +ℤ_parts, ==-refl, ==_iff, All, All-mono, All-zip, Bool-cases, Dict, List, Option-cases, [], any,
  ap, arith, false, get_or, inl, inr, int_laws, lookup, map, none, pos, refl, some, sym, ℕ, ℤ, ◌++◌,
  ◌+ℤ◌, ◌==◌, ◌↔◌, ◌∙◌, ◌∷◌, ◌≡◌, ◌≤ℤ◌, ◌⊎◌,
}
use item_lending_management.Failure.{
  >>=-eq-ok, Result, api, err, if-false, if-true, ok, stock_insufficient, ◌>>=◌,
}
use item_lending_management.Stock.{
  Ask, StockItem, StockMovementInput, StockState, apply, asks, assert_available, is_zero,
  movement_row, net_from, ordered, refuse_short, update_items,
}
use item_lending_management.Stock.Net.{moved, net_from-moved}
use item_lending_management.Stock.Held.{
  UniqueItems, assert_available-net, assert_available-ok, assert_available-passes, stock_of,
}
use item_lending_management.Stock.Apply.{All-after, IsStocked, after, apply-effect}
use mathlib.Core.Path.{subst}

weaken_stock :
    (i j : StockItem) (items : List StockItem)
    → stock_of i.id items ≡ none
    → stock_of j.id items ≡ some j.quantity_on_hand
    → stock_of j.id (i ∷ items) ≡ some j.quantity_on_hand
weaken_stock i j items gone e = elim (Bool-cases (j.id == i.id)) [
  | inl same ↦ cc (ap (λ (k : ℕ). stock_of k items) ((==_iff j.id i.id).0 same))
  | inr other ↦ rw other e
]

-- A row is the one that its id finds.
own_stock :
    (items : List StockItem)
    → UniqueItems items
    → All (λ (i : StockItem). stock_of i.id items ≡ some i.quantity_on_hand) items
own_stock [] u = tt
own_stock (i ∷ items) u =
    let P = λ (j : StockItem). stock_of j.id items ≡ some j.quantity_on_hand in
    let Q = λ (j : StockItem). stock_of j.id (i ∷ items) ≡ some j.quantity_on_hand in
    (
      rw (==-refl i.id),
      All-mono P Q items (λ j e. weaken_stock i j items u.0 e) (own_stock items u.1),
    )

stock_of-nonneg :
    (k : ℕ) (items : List StockItem)
    → All (λ (i : StockItem). pos 0 ≤ℤ i.quantity_on_hand) items
    → pos 0 ≤ℤ get_or (stock_of k items) (pos 0)
stock_of-nonneg k [] a = omega arith
stock_of-nonneg k (i ∷ items) a = ground (arith, stock_of-nonneg k items a.1)

apply-cons :
    (s : StockState) (m : StockMovementInput) (ms : List StockMovementInput) (user_id : ℕ)
    {s' : StockState}
    → apply s (m ∷ ms) user_id ≡ ok s'
    → (any is_zero (m ∷ ms) ≡ false)
      × (net : Dict ℤ) × (assert_available s.items (asks (m ∷ ms)) ≡ ok net)
unfolding apply
apply-cons s m ms user_id h = elim (Bool-cases (any is_zero (m ∷ ms))) [
  | inl z ↦ let h' = sym (if-true (any is_zero (m ∷ ms)) _ _ z) ∙ h in cc h'
  | inr nz ↦
      let h' = sym (if-false (any is_zero (m ∷ ms)) _ _ nz) ∙ h in
      let (net, e, done) = >>=-eq-ok (assert_available s.items (asks (m ∷ ms))) _ h' in (nz, net, e)
]

nothing_asked : (items : List StockItem) → assert_available items [] ≡ ok (net_from [] [])
unfolding assert_available net_from
nothing_asked items = refl

apply-available :
    (s : StockState) (ms : List StockMovementInput) (user_id : ℕ) {s' : StockState}
    → apply s ms user_id ≡ ok s'
    → (any is_zero ms ≡ false) × (assert_available s.items (asks ms) ≡ ok (net_from [] (asks ms)))
apply-available s [] user_id h = (refl, nothing_asked s.items)
apply-available s (m ∷ ms) user_id h =
    let (nz, net, e) = apply-cons s m ms user_id h in
    (nz, e ∙ ap (λ (n : Dict ℤ). ok n) (assert_available-net s.items (asks (m ∷ ms)) e))

room_of :
    (s : StockState) (ms : List Ask) (k : ℕ)
    → UniqueItems s.items
    → assert_available s.items ms ≡ ok (net_from [] ms)
    → pos 0 ≤ℤ get_or (stock_of k s.items) (pos 0)
    → pos 0 ≤ℤ get_or (stock_of k s.items) (pos 0) +ℤ moved k ms
room_of s ms k u h nonneg =
    let sums : get_or (lookup k (net_from [] ms)) (pos 0) ≡ moved k ms =
      net_from-moved k [] ms ∙ omega int_laws in
    elim (Option-cases (lookup k (net_from [] ms))) [
      | inl e ↦
          let idle : pos 0 ≡ moved k ms = rw e at sums in
          rw (← idle) (ground (arith, +ℤ_parts (get_or (stock_of k s.items) (pos 0)) (pos 0)))
      | inr (c, e) ↦
          let moves : c ≡ moved k ms = rw e at sums in
          rw (← moves) ((assert_available-ok s.items ms u h).1 k c e)
    ]

-- If no item's quantity on hand is below zero, none is after a successful call.
pub apply-IsStocked :
    (s : StockState) (ms : List StockMovementInput) (user_id : ℕ) {s' : StockState}
    → UniqueItems s.items
    → IsStocked s
    → apply s ms user_id ≡ ok s'
    → IsStocked s'
apply-IsStocked s ms user_id u inv h =
    let P = λ (i : StockItem). pos 0 ≤ℤ i.quantity_on_hand in
    let R = λ (i : StockItem). stock_of i.id s.items ≡ some i.quantity_on_hand in
    let both = All-zip P R s.items inv (own_stock s.items u) in
    subst (All P) (sym (apply-effect s ms user_id h).0)
      (All-after (λ i. P i × R i) P (after ms) s.items step both)
  where
    step :
        (i : StockItem)
        → (pos 0 ≤ℤ i.quantity_on_hand) × (stock_of i.id s.items ≡ some i.quantity_on_hand)
        → pos 0 ≤ℤ i.quantity_on_hand +ℤ moved i.id (asks ms)
    step i (low, own) =
        let room =
          room_of s (asks ms) i.id u (apply-available s ms user_id h).1
            (stock_of-nonneg i.id s.items inv) in
        rw own at room

apply-passes :
    (s : StockState) (ms : List StockMovementInput) (user_id : ℕ)
    → any is_zero ms ≡ false
    → assert_available s.items (asks ms) ≡ ok (net_from [] (asks ms))
    → (s' : StockState) × (apply s ms user_id ≡ ok s')
unfolding apply
apply-passes s [] user_id z a = (s, refl)
apply-passes s (m ∷ ms) user_id z a = (
  record {
    items = update_items (net_from [] (asks (m ∷ ms))) s.items;
    movements = s.movements ++ map (movement_row user_id) (ordered (m ∷ ms));
  },
  if-false (any is_zero (m ∷ ms)) _ _ z ∙ ap (λ (r : Result (Dict ℤ)). r >>= finish) a,
)
  where
    finish : Dict ℤ → Result StockState
    finish net = ok (record {
      items = update_items net s.items;
      movements = s.movements ++ map (movement_row user_id) (ordered (m ∷ ms));
    })

apply-exact :
    (s : StockState) (ms : List StockMovementInput) (user_id : ℕ)
    → UniqueItems s.items
    → IsStocked s
    → ((s' : StockState) × (apply s ms user_id ≡ ok s')) ↔ (
        (any is_zero ms ≡ false)
        × ((k : ℕ) → pos 0 ≤ℤ get_or (stock_of k s.items) (pos 0) +ℤ moved k (asks ms)))
apply-exact s ms user_id u inv = (forth, back)
  where
    forth :
        (s' : StockState) × (apply s ms user_id ≡ ok s')
        → (any is_zero ms ≡ false)
          × ((k : ℕ) → pos 0 ≤ℤ get_or (stock_of k s.items) (pos 0) +ℤ moved k (asks ms))
    forth (s', h) =
        let (z, a) = apply-available s ms user_id h in
        (z, λ k. room_of s (asks ms) k u a (stock_of-nonneg k s.items inv))

    back :
        (any is_zero ms ≡ false)
          × ((k : ℕ) → pos 0 ≤ℤ get_or (stock_of k s.items) (pos 0) +ℤ moved k (asks ms))
        → (s' : StockState) × (apply s ms user_id ≡ ok s')
    back (z, room) = apply-passes s ms user_id z (assert_available-passes s.items (asks ms) u room)

refuse_short-shape :
    (net : Dict ℤ) (xs : List (ℕ × ℤ × ℤ)) (next : Dict ℤ → StockState)
    → ((s' : StockState) × ((refuse_short net xs >>= λ n. ok (next n)) ≡ ok s'))
      ⊎ ((y : ℕ × ℤ × ℤ) × (ys : List (ℕ × ℤ × ℤ)) × ((refuse_short net xs >>= λ n. ok (next n))
            ≡ err (api (stock_insufficient (y ∷ ys)))))
refuse_short-shape net [] next = inl (next net, refl)
refuse_short-shape net (x ∷ xs) next = inr (x, xs, refl)

apply-shape :
    (s : StockState) (ms : List StockMovementInput) (user_id : ℕ)
    → any is_zero ms ≡ false
    → ((s' : StockState) × (apply s ms user_id ≡ ok s'))
      ⊎ ((y : ℕ × ℤ × ℤ) × (ys : List (ℕ × ℤ × ℤ)) × (apply s ms user_id
            ≡ err (api (stock_insufficient (y ∷ ys)))))
unfolding apply assert_available
apply-shape s [] user_id z = inl (s, refl)
apply-shape s (m ∷ ms) user_id z = rw z (refuse_short-shape _ _ _)

-- Where no item's quantity on hand is below zero and no movement is of nothing, a call is refused
-- for want of stock exactly when not every item would stay at zero or above by the net of its
-- movements.
pub apply_refused :
    (s : StockState) (ms : List StockMovementInput) (user_id : ℕ)
    → UniqueItems s.items
    → IsStocked s
    → any is_zero ms ≡ false
    → ((y : ℕ × ℤ × ℤ) × (ys : List (ℕ × ℤ × ℤ)) × (apply s ms user_id
          ≡ err (api (stock_insufficient (y ∷ ys)))))
      ↔ ¬ ((k : ℕ) → pos 0 ≤ℤ get_or (stock_of k s.items) (pos 0) +ℤ moved k (asks ms))
apply_refused s ms user_id u inv z = (
  λ (y, ys, e) room. let (s', e') = (apply-exact s ms user_id u inv).1 (z, room) in cc (sym e ∙ e'),
  λ short. elim (apply-shape s ms user_id z) [
    | inl passed ↦ absurd (short ((apply-exact s ms user_id u inv).0 passed).1)
    | inr refused ↦ refused
  ],
)
