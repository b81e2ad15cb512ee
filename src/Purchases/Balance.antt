-- ===== src/Purchases/Balance.antt =====
-- What one purchase operation does to the sums of the batches' movements.
use item_lending_management.Prelude.{
  ==-refl, ==_iff, All, Bool-cases, List, [], ap, arith, eq_of_parts, false, find, if◌then◌else◌,
  inl, inr, int_laws, ltb_ℤ, map, pos, refl, some, sym, ℕ, ℤ, ◌++◌, ◌+ℤ◌, ◌<◌, ◌==◌, ◌∙◌, ◌∷◌, ◌≡◌,
  ◌≢◌, ◌≤◌, ◌⊎◌,
}
use item_lending_management.Failure.{>>=-eq-ok, if-false, if-true, ok, ok-injective}
use item_lending_management.Stock.{
  StockMovement, StockMovementInput, StockState, apply, batch_id_of, movement_row, ordered,
}
use item_lending_management.Stock.Apply.{apply-effect}
use item_lending_management.Purchases.{PurchaseBatch, PurchaseRows, move_stock, update_batch}
use item_lending_management.Purchases.Check.{batch_moved, expected_movements, is_of_batch}
use mathlib.Core.Path.{subst}

-- No batch of the list has the id; no two batches have the same.
abbrev pub Fresh : ℕ → List PurchaseBatch → Type 0
Fresh id [] = Unit
Fresh id (b ∷ bs) = (id ≢ b.id) × Fresh id bs

abbrev pub Distinct : List PurchaseBatch → Type 0
Distinct [] = Unit
Distinct (b ∷ bs) = Fresh b.id bs × Distinct bs

abbrev pub Balanced : List StockMovement → PurchaseBatch → Type 0
Balanced movements b = batch_moved b.id movements ≡ expected_movements b

-- Every batch balances, and the next id is new to the batches and to the movements.
pub record Balance (movements : List StockMovement) (batches : List PurchaseBatch) (next : ℕ)
    : Type 0 where
  pub balanced : All (Balanced movements) batches
  pub distinct : Distinct batches
  pub known : All (λ (b : PurchaseBatch). b.id < next) batches
  pub unmoved : (id : ℕ) → next ≤ id → batch_moved id movements ≡ pos 0

abbrev pub IsBalanced : PurchaseRows → Type 0
IsBalanced rows = Balance rows.stock.movements rows.batches rows.next_batch_id

-- What one movement adds to a batch.
abbrev pub adds : ℕ → StockMovementInput → ℤ
adds id m = if is_of_batch id (batch_id_of m.reason) then m.quantity else pos 0

pub batch_moved-append :
    (id : ℕ) (xs ys : List StockMovement)
    → batch_moved id (xs ++ ys) ≡ batch_moved id xs +ℤ batch_moved id ys
unfolding batch_moved
batch_moved-append id [] ys = omega int_laws
batch_moved-append id (x ∷ xs) ys = rw (batch_moved-append id xs ys) (omega int_laws)

-- One movement is written once, unless it moves nothing.
ordered-one :
    (m : StockMovementInput)
    → (ordered (m ∷ []) ≡ m ∷ []) ⊎ ((ordered (m ∷ []) ≡ []) × (m.quantity ≡ pos 0))
unfolding ordered
ordered-one m = elim (Bool-cases (ltb_ℤ (pos 0) m.quantity)) [
  | inl up ↦
      let not_down : ltb_ℤ m.quantity (pos 0) ≡ false = ground arith in inl (rw (up, not_down) refl)
  | inr not_up ↦ elim (Bool-cases (ltb_ℤ m.quantity (pos 0))) [
    | inl down ↦ inl (rw (not_up, down) refl)
    | inr not_down ↦
        inr (rw (not_up, not_down) refl, ground (arith, eq_of_parts m.quantity (pos 0)))
  ]
]

batch_moved-row :
    (id user_id : ℕ) (m : StockMovementInput)
    → batch_moved id (movement_row user_id m ∷ []) ≡ adds id m
unfolding batch_moved movement_row
batch_moved-row id user_id m = elim (Bool-cases (is_of_batch id (batch_id_of m.reason))) [
  | inl e ↦ rw e (omega int_laws)
  | inr e ↦ rw e (omega int_laws)
]

adds-nothing : (id : ℕ) (m : StockMovementInput) → m.quantity ≡ pos 0 → adds id m ≡ pos 0
adds-nothing id m h = elim (Bool-cases (is_of_batch id (batch_id_of m.reason))) [
  | inl e ↦ rw e h
  | inr e ↦ rw e refl
]

batch_moved-nil : (id : ℕ) → batch_moved id [] ≡ pos 0
unfolding batch_moved
batch_moved-nil id = refl

batch_moved-one :
    (id user_id : ℕ) (m : StockMovementInput)
    → batch_moved id (map (movement_row user_id) (ordered (m ∷ []))) ≡ adds id m
batch_moved-one id user_id m = elim (ordered-one m) [
  | inl e ↦ rw e (batch_moved-row id user_id m)
  | inr (e, z) ↦ rw e (batch_moved-nil id ∙ sym (adds-nothing id m z))
]

-- What a call for one movement leaves of the tables.
pub move_stock-eq :
    (m : StockMovementInput) (user_id : ℕ) (rows : PurchaseRows) {rows' : PurchaseRows}
    → move_stock m user_id rows ≡ ok rows'
    → (stock : StockState) × (rows' ≡ record rows { stock = stock })
      × ((id : ℕ)
          → batch_moved id stock.movements ≡ batch_moved id rows.stock.movements +ℤ adds id m)
unfolding move_stock
move_stock-eq m user_id rows h =
    let (stock, e, h₁) = >>=-eq-ok (apply rows.stock (m ∷ []) user_id) _ h in
    let (_, moves) = apply-effect rows.stock (m ∷ []) user_id e in
    (
      stock,
      sym (ok-injective h₁),
      λ id.
          ap (batch_moved id) moves
          ∙ (batch_moved-append id rows.stock.movements
                (map (movement_row user_id) (ordered (m ∷ [])))
              ∙ ap (λ z. batch_moved id rows.stock.movements +ℤ z) (batch_moved-one id user_id m)),
    )

-- What another batch's movement adds, and a batch's own.
pub adds-other :
    (id : ℕ) (m : StockMovementInput) {batch_id : ℕ}
    → batch_id_of m.reason ≡ some batch_id
    → batch_id ≢ id
    → adds id m ≡ pos 0
adds-other id m {batch_id} e n =
    let no : is_of_batch id (some batch_id) ≡ false = ground arith in
    ap (λ o. if is_of_batch id o then m.quantity else pos 0) e ∙ if-false _ m.quantity (pos 0) no

pub adds-own :
    (id : ℕ) (m : StockMovementInput) → batch_id_of m.reason ≡ some id → adds id m ≡ m.quantity
adds-own id m e =
    ap (λ o. if is_of_batch id o then m.quantity else pos 0) e
    ∙ if-true _ m.quantity (pos 0) (==-refl id)

All-Fresh :
    (P Q : PurchaseBatch → Type 0) (id : ℕ) (change : PurchaseBatch → PurchaseBatch)
    (bs : List PurchaseBatch)
    → ((b : PurchaseBatch) → id ≢ b.id → P b → Q b)
    → Fresh id bs
    → All P bs
    → All Q (update_batch id change bs)
All-Fresh P Q id change [] h f a = tt
All-Fresh P Q id change (b ∷ bs) h f a =
    let no : (b.id == id) ≡ false = ground arith in
    rw no (h b f.0 a.0, All-Fresh P Q id change bs h f.1 a.1)

-- One batch changed: it has its new property, and the others keep theirs.
pub All-update_batch :
    (P Q : PurchaseBatch → Type 0) (id : ℕ) (change : PurchaseBatch → PurchaseBatch)
    (bs : List PurchaseBatch) {before : PurchaseBatch}
    → find (λ (b : PurchaseBatch). b.id == id) bs ≡ some before
    → ((b : PurchaseBatch) → id ≢ b.id → P b → Q b)
    → (P before → Q (change before))
    → Distinct bs
    → All P bs
    → All Q (update_batch id change bs)
All-update_batch P Q id change [] found other own d a = cc
All-update_batch P Q id change (b ∷ bs) {before} found other own d a =
    elim (Bool-cases (b.id == id)) [
      | inl e ↦
          let c : some b ≡ some before = sym (if-true (b.id == id) _ _ e) ∙ found in
          let q : b ≡ before = cc in
          let same : b.id ≡ id = (==_iff b.id id).0 e in
          rw e (
            subst (λ x. Q (change x)) (sym q) (own (subst P q a.0)),
            All-Fresh P Q id change bs other (subst (λ i. Fresh i bs) same d.0) a.1,
          )
      | inr e ↦
          let found' = sym (if-false (b.id == id) _ _ e) ∙ found in
          let n : id ≢ b.id = ground arith in
          rw e (other b n a.0, All-update_batch P Q id change bs found' other own d.1 a.1)
    ]

-- A change that keeps the id keeps what depends on the ids only.
Fresh-update_batch :
    (i id : ℕ) (change : PurchaseBatch → PurchaseBatch) (bs : List PurchaseBatch)
    → ((b : PurchaseBatch) → (change b).id ≡ b.id)
    → Fresh i bs
    → Fresh i (update_batch id change bs)
Fresh-update_batch i id change [] k f = tt
Fresh-update_batch i id change (b ∷ bs) k f = elim (Bool-cases (b.id == id)) [
  | inl e ↦ rw e (subst (λ j. i ≢ j) (sym (k b)) f.0, Fresh-update_batch i id change bs k f.1)
  | inr e ↦ rw e (f.0, Fresh-update_batch i id change bs k f.1)
]

pub Distinct-update_batch :
    (id : ℕ) (change : PurchaseBatch → PurchaseBatch) (bs : List PurchaseBatch)
    → ((b : PurchaseBatch) → (change b).id ≡ b.id)
    → Distinct bs
    → Distinct (update_batch id change bs)
Distinct-update_batch id change [] k d = tt
Distinct-update_batch id change (b ∷ bs) k d = elim (Bool-cases (b.id == id)) [
  | inl e ↦ rw e (
    subst (λ j. Fresh j (update_batch id change bs)) (sym (k b))
        (Fresh-update_batch b.id id change bs k d.0),
    Distinct-update_batch id change bs k d.1,
  )
  | inr e ↦
      rw e (Fresh-update_batch b.id id change bs k d.0, Distinct-update_batch id change bs k d.1)
]
