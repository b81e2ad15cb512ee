-- ===== src/Ledger/Entries.antt =====
-- What one new row of the money ledger and the recompute behind it do
-- (apps/api/src/modules/ledger/money-ledger.ts, apps/api/src/modules/orders/order-state.ts).
use mathlib.Core.Path.{subst}
use item_lending_management.Prelude.{
  ==_iff, Bool, Bool-cases, List, Option, [], ap, arith, false, find, inl, inr, leb, neg_part, not,
  pos_part, refl, some, sym, true, ℕ, ℤ, ◌&&◌, ◌++◌, ◌<◌, ◌==◌, ◌||◌, ◌∙◌, ◌∷◌, ◌≡◌, ◌≤◌,
}
use item_lending_management.Failure.{
  >>=-eq-ok, Result, if-false, if-true, ok, ok-injective, traverse, traverse-cons, ◌>>=◌,
}
use item_lending_management.Domain.{
  LineTotals, OrderState, OrderTotals, compute_order_totals, max_safe,
}
use item_lending_management.Domain.Entry.{keep-append, with_entry}
use item_lending_management.Store.{
  LedgerEntry, Order, OrderLine, Rows, entries_of_order, find_order, update_order,
}
use item_lending_management.Orders.State.{
  cache_line, cache_lines, cache_order, db_totals, entry_state, find_order_or_throw, is_some,
  line_changed, line_state, order_totals, recompute_order, return_state, to_db_money, to_db_money_ℤ,
  to_order_state, to_safe_money,
}
use item_lending_management.Ledger.{
  MoneyEntryInput, append_entry, entry_row, record_entry, stored_owed_before,
}
use mathlib.Core.Path.{subst}

pub to_db_money-bind {ℓ} :
    {W : Type ℓ} (n : ℕ) (next : ℕ → Result W) {w : W}
    → (to_db_money n >>= next) ≡ ok w
    → next n ≡ ok w
unfolding to_db_money
to_db_money-bind n next h = elim (Bool-cases (not (leb n max_safe))) [
  | inl e ↦ absurd (let c = rw e at h in cc)
  | inr e ↦ rw e at h
]

to_db_money_ℤ-bind {ℓ} :
    {W : Type ℓ} (n : ℤ) (next : ℤ → Result W) {w : W}
    → (to_db_money_ℤ n >>= next) ≡ ok w
    → next n ≡ ok w
unfolding to_db_money_ℤ
to_db_money_ℤ-bind n next h =
    elim (Bool-cases (not (leb (pos_part n) max_safe && leb (neg_part n) max_safe))) [
      | inl e ↦ absurd (let c = rw e at h in cc)
      | inr e ↦ rw e at h
    ]

to_safe_money-eq : (n : ℕ) {m : ℕ} → to_safe_money n ≡ ok m → n ≡ m
unfolding to_safe_money
to_safe_money-eq n h = ground arith

to_safe_money-small : (n : ℕ) → n ≤ max_safe → to_safe_money n ≡ ok n
unfolding to_safe_money
to_safe_money-small n h = ground arith

pub db_totals-eq : (t : OrderTotals) {s : OrderTotals} → db_totals t ≡ ok s → t ≡ s
unfolding db_totals
db_totals-eq t {s} h =
    let h₁ = to_db_money-bind t.deposit_total _ h in
    let h₂ = to_db_money_ℤ-bind t.payments_net _ h₁ in
    let h₃ = to_db_money-bind t.credits_total _ h₂ in
    let h₄ = to_db_money_ℤ-bind t.refunds_net _ h₃ in
    let h₅ = to_db_money-bind t.owed _ h₄ in
    let h₆ = to_db_money-bind t.out_value _ h₅ in
    let h₇ = to_db_money-bind t.held _ h₆ in ok-injective (to_db_money_ℤ-bind t.compensation _ h₇)

positive-amount : (n : ℕ) → (not (leb n max_safe) || leb n 0) ≡ false → 0 < n
positive-amount n h = ground arith

safe-amount : (n : ℕ) → (not (leb n max_safe) || leb n 0) ≡ false → n ≤ max_safe
safe-amount n h = ground arith

pub record_entry-eq :
    (entry : MoneyEntryInput) (user_id : ℕ) (rows : Rows) {rows' : Rows} {row : LedgerEntry}
    → record_entry entry user_id rows ≡ ok (rows', row)
    → (owed : Option ℕ) × (0 < entry.amount)
      × (entry.amount ≤ max_safe)
      × (stored_owed_before entry.type ≡ ok owed)
      × (row ≡ entry_row entry entry.amount owed user_id rows.next_entry_id)
      × (rows' ≡ append_entry row rows)
unfolding record_entry
record_entry-eq entry user_id rows h =
    let bad = not (leb entry.amount max_safe) || leb entry.amount 0 in
    elim (Bool-cases bad) [
      | inl t ↦ absurd (let c = sym (if-true bad _ _ t) ∙ h in cc)
      | inr f ↦
          let h₁ = sym (if-false bad _ _ f) ∙ h in
          let h₂ = to_db_money-bind entry.amount _ h₁ in
          let (owed, ho, h₃) = >>=-eq-ok (stored_owed_before entry.type) _ h₂ in
          let e = ok-injective h₃ in
          let r = sym (ap (λ (x : Rows × LedgerEntry). x.1) e) in
          (
            owed,
            positive-amount entry.amount f,
            safe-amount entry.amount f,
            ho,
            r,
            sym (ap (λ (x : Rows × LedgerEntry). x.0) e)
                ∙ ap (λ (x : LedgerEntry). append_entry x rows) (sym r),
          )
    ]

pub traverse-snoc {ℓ κ} :
    {A : Type ℓ} {B : Type κ} (f : A → Result B) (xs : List A) (x : A) {ys : List B} {y : B}
    → traverse f xs ≡ ok ys
    → f x ≡ ok y
    → traverse f (xs ++ x ∷ []) ≡ ok (ys ++ y ∷ [])
traverse-snoc f [] x h e = rw (e, ← ok-injective h) refl
traverse-snoc f (z ∷ xs) x h e =
    let (w, ws, hz, hs, eq) = traverse-cons f z xs h in rw (hz, traverse-snoc f xs x hs e, eq) refl

entry_state-small :
    (e : LedgerEntry)
    → e.amount ≤ max_safe
    → entry_state e ≡ ok (record { type = e.type; amount = e.amount })
unfolding entry_state
entry_state-small e h = rw (to_safe_money-small e.amount h) refl

-- The state of an order with one more row of its ledger.
pub to_order_state-snoc :
    (o : Order) (es : List LedgerEntry) (e : LedgerEntry) {s : OrderState}
    → to_order_state o es ≡ ok s
    → e.amount ≤ max_safe
    → to_order_state o (es ++ e ∷ []) ≡ ok (with_entry e.type e.amount s)
unfolding to_order_state with_entry
to_order_state-snoc o es e {s} h le =
    let (ls, hl, h₁) = >>=-eq-ok (traverse line_state o.lines) _ h in
    let (rs, hr, h₂) = >>=-eq-ok (traverse return_state o.returns) _ h₁ in
    let (en, he, h₃) = >>=-eq-ok (traverse entry_state es) _ h₂ in
    rw (← ok-injective h₃, hl, hr, traverse-snoc entry_state es e he (entry_state-small e le)) refl

pub to_order_state-cancelled :
    (o : Order) (es : List LedgerEntry) {s : OrderState}
    → to_order_state o es ≡ ok s
    → s.cancelled ≡ is_some o.cancelled_at
unfolding to_order_state
to_order_state-cancelled o es h =
    let (ls, hl, h₁) = >>=-eq-ok (traverse line_state o.lines) _ h in
    let (rs, hr, h₂) = >>=-eq-ok (traverse return_state o.returns) _ h₁ in
    let (en, he, h₃) = >>=-eq-ok (traverse entry_state es) _ h₂ in
    sym (ap (λ (x : OrderState). x.cancelled) (ok-injective h₃))

line_state-cache_line :
    (l : OrderLine) (t : LineTotals) → line_state (cache_line l t) ≡ line_state l
unfolding line_state
line_state-cache_line l t = elim (Bool-cases (line_changed l t)) [
  | inl e ↦ rw e refl
  | inr e ↦ rw e refl
]

traverse-cache_lines :
    (ls : List OrderLine) (ts : List LineTotals)
    → traverse line_state (cache_lines ls ts) ≡ traverse line_state ls
traverse-cache_lines [] ts = refl
traverse-cache_lines (l ∷ ls) [] = refl
traverse-cache_lines (l ∷ ls) (t ∷ ts) =
    rw (line_state-cache_line l t, traverse-cache_lines ls ts) refl

-- The cache is no part of what the formulas read.
pub to_order_state-cache_order :
    (bump : Bool) (t : OrderTotals) (o : Order) (es : List LedgerEntry)
    → to_order_state (cache_order bump t o) es ≡ to_order_state o es
unfolding to_order_state
to_order_state-cache_order bump t o es = rw (traverse-cache_lines o.lines t.lines) refl

pub find-update_order :
    (id : ℕ) (change : Order → Order) (os : List Order) {o : Order}
    → ((x : Order) → (change x).id ≡ x.id)
    → find (λ (x : Order). x.id == id) os ≡ some o
    → find (λ (x : Order). x.id == id) (update_order id change os) ≡ some (change o)
find-update_order id change [] k h = cc
find-update_order id change (x ∷ os) {o} k h = elim (Bool-cases (x.id == id)) [
  | inl e ↦
      let c : some x ≡ some o = sym (if-true (x.id == id) _ _ e) ∙ h in
      let q : x ≡ o = cc in
      rw e (
        if-true ((change x).id == id) _ _ (ap (λ n. n == id) (k x) ∙ e)
        ∙ ap (λ (y : Order). some (change y)) q)
  | inr e ↦ rw (e, e) (find-update_order id change os k (sym (if-false (x.id == id) _ _ e) ∙ h))
]

pub find_order_or_throw-some :
    (id : ℕ) (rows : Rows) {o : Order}
    → find_order id rows ≡ some o
    → find_order_or_throw id rows ≡ ok o
unfolding find_order_or_throw
find_order_or_throw-some id rows h = rw h refl

pub recompute_order-eq :
    (order_id : ℕ) (bump : Bool) (rows : Rows) {rows' : Rows} {t : OrderTotals} {o : Order}
    {s : OrderState}
    → recompute_order order_id bump rows ≡ ok (rows', t)
    → find_order order_id rows ≡ some o
    → to_order_state o (entries_of_order order_id rows.ledger_entries) ≡ ok s
    → (compute_order_totals s ≡ ok t)
      × (rows' ≡ record rows { orders = update_order order_id (cache_order bump t) rows.orders })
unfolding recompute_order
recompute_order-eq order_id bump rows {rows'} {t} {o} {s} h f e =
    let h₁ = rw (find_order_or_throw-some order_id rows f, e) at h in
    let (t', ht, h₃) = >>=-eq-ok (compute_order_totals s) _ h₁ in
    let (st, hst, h₄) = >>=-eq-ok (db_totals t') _ h₃ in
    let e₁ = ok-injective h₄ in
    let et = ap (λ (x : Rows × OrderTotals). x.1) e₁ in
    (
      ht ∙ ap (λ (x : OrderTotals). ok x) et,
      sym (ap (λ (x : Rows × OrderTotals). x.0) e₁)
          ∙ ap
              (λ (x : OrderTotals). record rows {
                orders = update_order order_id (cache_order bump x) rows.orders;
              })
              (sym (db_totals-eq t' hst) ∙ et),
    )

-- The order with its new cache is found, its figures are the cached ones, and only it changed.
pub record Recomputed (order_id : ℕ) (rows : Rows) (order : Order) (row : LedgerEntry)
    (t : OrderTotals) (rows' : Rows) : Type 0 where
  pub found : find_order order_id rows' ≡ some (cache_order true t order)
  pub figures : order_totals order_id rows' ≡ ok t
  pub appended : rows'.ledger_entries ≡ rows.ledger_entries ++ row ∷ []
  pub orders : rows'.orders ≡ update_order order_id (cache_order true t) rows.orders

entries_of_order-snoc :
    (order_id : ℕ) (es : List LedgerEntry) (row : LedgerEntry)
    → row.order_id ≡ order_id
    → entries_of_order order_id (es ++ row ∷ []) ≡ entries_of_order order_id es ++ row ∷ []
entries_of_order-snoc order_id es row h =
    let one : (row.order_id == order_id) ≡ true = (==_iff row.order_id order_id).1 h in
    keep-append (λ (e : LedgerEntry). e.order_id == order_id) es (row ∷ []) ∙ rw one refl

pub order_totals-found :
    (order_id : ℕ) (rows : Rows) {o : Order} {s : OrderState} {t : OrderTotals}
    → find_order order_id rows ≡ some o
    → to_order_state o (entries_of_order order_id rows.ledger_entries) ≡ ok s
    → compute_order_totals s ≡ ok t
    → order_totals order_id rows ≡ ok t
unfolding order_totals
order_totals-found order_id rows h k e = rw (find_order_or_throw-some order_id rows h, k, e) refl

-- A row of this order appended and the order recomputed.
pub append_entry-Recomputed :
    (order_id : ℕ) (rows : Rows) (o : Order) (row : LedgerEntry) (s : OrderState) {rows' : Rows}
    {t : OrderTotals}
    → find_order order_id rows ≡ some o
    → to_order_state o (entries_of_order order_id rows.ledger_entries) ≡ ok s
    → row.order_id ≡ order_id
    → row.amount ≤ max_safe
    → recompute_order order_id true (append_entry row rows) ≡ ok (rows', t)
    → (compute_order_totals (with_entry row.type row.amount s) ≡ ok t)
      × Recomputed order_id rows o row t rows'
append_entry-Recomputed order_id rows o row s {rows'} {t} hf hs hi hm h =
    let snoc = entries_of_order-snoc order_id rows.ledger_entries row hi in
    let hs' : to_order_state o (entries_of_order order_id (append_entry row rows).ledger_entries)
        ≡ ok (with_entry row.type row.amount s) =
      ap (λ (x : List LedgerEntry). to_order_state o x) snoc
      ∙ to_order_state-snoc o (entries_of_order order_id rows.ledger_entries) row hs hm in
    let (ht, e) = recompute_order-eq order_id true (append_entry row rows) h hf hs' in
    let after : Rows = record (append_entry row rows) {
      orders = update_order order_id (cache_order true t) rows.orders;
    } in
    let found : find_order order_id after ≡ some (cache_order true t o) =
      find-update_order order_id (cache_order true t) rows.orders (λ x. refl) hf in
    let state : to_order_state (cache_order true t o)
          (entries_of_order order_id after.ledger_entries)
        ≡ ok (with_entry row.type row.amount s) =
      to_order_state-cache_order true t o (entries_of_order order_id after.ledger_entries) ∙ hs' in
    (
      ht,
      subst (Recomputed order_id rows o row t) (sym e) (record {
        found = found;
        figures = order_totals-found order_id after found state ht;
        appended = refl;
        orders = refl;
      }),
    )
