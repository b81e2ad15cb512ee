-- ===== src/Reconciliation/Batches.antt =====
-- The batched loop of R2 checks every order once, in the order of their ids.
use item_lending_management.Prelude.{
  Bool, Bool-cases, List, [], ap, arith, drop, drop-all, false, if◌then◌else◌, inl, inr, keep, leb,
  leb→le, length, length-drop, length-take, ltb, lt→ltb, refl, suc, sym, take, take-append-drop,
  zero, ℕ, ◌++◌, ◌<◌, ◌==◌, ◌∙◌, ◌∷◌, ◌≡◌, ◌≢◌, ◌≤◌,
}
use item_lending_management.Failure.{Result, Result-cases, err, if-false, if-true, ok, ◌>>=◌}
use item_lending_management.Store.{LedgerEntry, Order, Rows}
use item_lending_management.Reconciliation.{
  Discrepancy, by_id, check_order, check_order_totals, find_order_discrepancies, insert_by_id,
  last_id, next_batch, order_loop,
}

-- Each id is above the one before it, and the first above `cursor`.
abbrev pub Ascending : ℕ → List Order → Type 0
Ascending cursor [] = Unit
Ascending cursor (o ∷ os) = (cursor < o.id) × Ascending o.id os

-- The ids of a table are above 0, and no two rows have the same.
abbrev pub Fresh : ℕ → List Order → Type 0
Fresh id [] = Unit
Fresh id (o ∷ os) = (id ≢ o.id) × Fresh id os

abbrev pub HasIds : List Order → Type 0
HasIds [] = Unit
HasIds (o ∷ os) = (0 < o.id) × (Fresh o.id os × HasIds os)

above : ℕ → Order → Bool
above cursor o = ltb cursor o.id

check_order_totals-append :
    (ledger : List LedgerEntry) (xs ys : List Order) (out : List Discrepancy)
    → check_order_totals ledger (xs ++ ys) out
      ≡ (check_order_totals ledger xs out >>= check_order_totals ledger ys)
unfolding check_order_totals
check_order_totals-append ledger [] ys out = refl
check_order_totals-append ledger (x ∷ xs) ys out = elim (Result-cases (check_order ledger x)) [
  | inl (e, h) ↦ rw h refl
  | inr (found, h) ↦ rw h (check_order_totals-append ledger xs ys (out ++ found))
]

-- Sorting distinct ids.
insert-Ascending :
    (cursor : ℕ) (o : Order) (ps : List Order)
    → cursor < o.id
    → Fresh o.id ps
    → Ascending cursor ps
    → Ascending cursor (insert_by_id o ps)
insert-Ascending cursor o [] lt f a = (lt, tt)
insert-Ascending cursor o (p ∷ ps) lt f a = elim (Bool-cases (leb o.id p.id)) [
  | inl e ↦ rw e (lt, (omega (arith, leb→le o.id p.id e, f.0), a.1))
  | inr e ↦ rw e (a.0, insert-Ascending p.id o ps (ground arith) f.1 a.1)
]

Fresh-insert :
    (id : ℕ) (o : Order) (ps : List Order) → id ≢ o.id → Fresh id ps → Fresh id (insert_by_id o ps)
Fresh-insert id o [] n f = (n, tt)
Fresh-insert id o (p ∷ ps) n f = elim (Bool-cases (leb o.id p.id)) [
  | inl e ↦ rw e (n, f)
  | inr e ↦ rw e (f.0, Fresh-insert id o ps n f.1)
]

Fresh-by_id : (id : ℕ) (os : List Order) → Fresh id os → Fresh id (by_id os)
unfolding by_id
Fresh-by_id id [] f = tt
Fresh-by_id id (o ∷ os) f = Fresh-insert id o (by_id os) f.0 (Fresh-by_id id os f.1)

by_id-Ascending : (os : List Order) → HasIds os → Ascending 0 (by_id os)
unfolding by_id
by_id-Ascending [] h = tt
by_id-Ascending (o ∷ os) h =
    insert-Ascending 0 o (by_id os) h.0 (Fresh-by_id o.id os h.1.0) (by_id-Ascending os h.1.1)

length-insert_by_id : (o : Order) (ps : List Order) → length (insert_by_id o ps) ≡ suc (length ps)
length-insert_by_id o [] = refl
length-insert_by_id o (p ∷ ps) = ground (arith, length-insert_by_id o ps)

length-by_id : (os : List Order) → length (by_id os) ≡ length os
unfolding by_id
length-by_id [] = refl
length-by_id (o ∷ os) = length-insert_by_id o (by_id os) ∙ ap suc (length-by_id os)

Ascending-weaken : (b c : ℕ) (os : List Order) → b ≤ c → Ascending c os → Ascending b os
Ascending-weaken b c [] h a = tt
Ascending-weaken b c (o ∷ os) h a = (omega (arith, a.0), a.1)

-- `where: { id: { gt: cursor } }`
abbrev beyond : ℕ → List Order → List Order
beyond cursor = keep (λ (o : Order). ltb cursor o.id)

beyond-all : (cursor : ℕ) (os : List Order) → Ascending cursor os → beyond cursor os ≡ os
beyond-all cursor [] a = refl
beyond-all cursor (o ∷ os) a = rw (lt→ltb cursor o.id a.0) (
    ap (λ (x : List Order). o ∷ x)
      (beyond-all cursor os (Ascending-weaken cursor o.id os (omega (arith, a.0)) a.1)))

beyond-beyond : (b c : ℕ) (os : List Order) → b ≤ c → beyond c (beyond b os) ≡ beyond c os
beyond-beyond b c [] h = refl
beyond-beyond b c (o ∷ os) h = elim (Bool-cases (ltb b o.id)) [
  | inl e ↦ elim (Bool-cases (ltb c o.id)) [
    | inl e' ↦ rw (e, e') (ap (λ (x : List Order). o ∷ x) (beyond-beyond b c os h))
    | inr e' ↦ rw (e, e') (beyond-beyond b c os h)
  ]
  | inr e ↦ let e' : ltb c o.id ≡ false = ground arith in rw (e, e') (beyond-beyond b c os h)
]

last_id-bound :
    (n cursor : ℕ) (os : List Order) → Ascending cursor os → cursor ≤ last_id cursor (take n os)
unfolding last_id
last_id-bound zero cursor os a = omega arith
last_id-bound (suc n) cursor [] a = omega arith
last_id-bound (suc n) cursor (o ∷ os) a = omega (arith, last_id-bound n o.id os a.1, a.0)

-- Beyond the last order of a batch lies what the batch left.
beyond-last_id :
    (n cursor : ℕ) (os : List Order)
    → Ascending cursor os
    → beyond (last_id cursor (take n os)) os ≡ drop n os
unfolding last_id
beyond-last_id zero cursor os a = beyond-all cursor os a
beyond-last_id (suc n) cursor [] a = refl
beyond-last_id (suc n) cursor (o ∷ os) a =
    let passed : ltb (last_id o.id (take n os)) o.id ≡ false =
      ground (arith, last_id-bound n o.id os a.1) in
    rw passed (beyond-last_id n o.id os a.1)

Ascending-drop :
    (n cursor : ℕ) (os : List Order)
    → Ascending cursor os
    → Ascending (last_id cursor (take n os)) (drop n os)
unfolding last_id
Ascending-drop zero cursor os a = a
Ascending-drop (suc n) cursor [] a = tt
Ascending-drop (suc n) cursor (o ∷ os) a = Ascending-drop n o.id os a.1

take-nil {ℓ} : {A : Type ℓ} (n : ℕ) → take {A = A} n [] ≡ []
take-nil zero = refl
take-nil (suc n) = refl

bind_cong {ℓ κ} :
    {V : Type ℓ} {W : Type κ} (r : Result V) {f g : V → Result W}
    → ((v : V) → f v ≡ g v)
    → (r >>= f) ≡ (r >>= g)
bind_cong (err e) h = refl
bind_cong (ok v) h = h v

module _ (rows : Rows) (batch_size : ℕ) (positive : 0 < batch_size) where
  abbrev check : List Order → List Discrepancy → Result (List Discrepancy)
  check = check_order_totals rows.ledger_entries

  -- The loop from a cursor checks the orders beyond it.
  abbrev Checks : ℕ → ℕ → Type 0
  Checks fuel cursor =
      (os : List Order) (out : List Discrepancy)
      → beyond cursor (by_id rows.orders) ≡ os
      → Ascending cursor os
      → length os ≤ fuel
      → order_loop fuel batch_size rows cursor out ≡ check os out

  next_batch-take :
      (cursor : ℕ) {os : List Order}
      → beyond cursor (by_id rows.orders) ≡ os
      → next_batch batch_size cursor rows.orders ≡ take batch_size os
  unfolding next_batch
  next_batch-take cursor left = ap (take batch_size) left

  -- What follows a batch: another round if it was full, which checks what it left.
  after_batch :
      (fuel cursor : ℕ) (os : List Order) (found : List Discrepancy)
      → Checks fuel (last_id cursor (take batch_size os))
      → beyond cursor (by_id rows.orders) ≡ os
      → Ascending cursor os
      → length os ≤ suc fuel
      → (if length (take batch_size os) == batch_size
          then order_loop fuel batch_size rows (last_id cursor (take batch_size os)) found
          else ok found)
        ≡ check (drop batch_size os) found
  unfolding check_order_totals
  after_batch fuel cursor os found again left a h =
      let last = last_id cursor (take batch_size os) in
      elim (Bool-cases (length (take batch_size os) == batch_size)) [
        | inl e ↦
            if-true (length (take batch_size os) == batch_size) _ _ e
            ∙ again (drop batch_size os) found
                (sym (
                    beyond-beyond cursor last (by_id rows.orders)
                      (last_id-bound batch_size cursor os a))
                  ∙ (ap (beyond last) left ∙ beyond-last_id batch_size cursor os a))
                (Ascending-drop batch_size cursor os a) (omega (arith, length-drop batch_size os))
        | inr e ↦
            let used_up : length os ≤ batch_size = ground (arith, length-take batch_size os) in
            if-false (length (take batch_size os) == batch_size) _ _ e
            ∙ rw (drop-all batch_size os used_up) refl
      ]

  order_loop_lem : (fuel cursor : ℕ) → Checks fuel cursor
  unfolding order_loop
  order_loop_lem zero cursor [] out left a h =
      rw (next_batch-take cursor left) (ap (λ xs. check xs out) (take-nil batch_size))
  order_loop_lem zero cursor (o ∷ os) out left a h = absurd (omega arith)
  order_loop_lem (suc fuel) cursor os out left a h = rw (next_batch-take cursor left) (
      bind_cong (check (take batch_size os) out) (λ found.
        after_batch fuel cursor os found (order_loop_lem fuel (last_id cursor (take batch_size os)))
          left a h)
      ∙ (sym (
            check_order_totals-append rows.ledger_entries (take batch_size os) (drop batch_size os)
              out)
          ∙ ap (λ xs. check xs out) (take-append-drop batch_size os)))

-- With any batch size of at least 1, the batched loop reports what one pass over all the orders in
-- the order of their ids reports, or throws what that pass throws. The ids are positive and distinct.
pub find_order_discrepancies-all :
    (batch_size : ℕ) (rows : Rows)
    → 0 < batch_size
    → HasIds rows.orders
    → find_order_discrepancies batch_size rows
      ≡ check_order_totals rows.ledger_entries (by_id rows.orders) []
unfolding find_order_discrepancies
find_order_discrepancies-all batch_size rows positive ids =
    let sorted = by_id-Ascending rows.orders ids in
    let guard : ltb batch_size 1 ≡ false = ground arith in
    if-false (ltb batch_size 1) _ _ guard
    ∙ order_loop_lem rows batch_size positive (length rows.orders) 0 (by_id rows.orders) []
        (beyond-all 0 (by_id rows.orders) sorted) sorted (omega (arith, length-by_id rows.orders))
