-- ===== src/Stock/Held.antt =====
-- The quantities on hand as `assertAvailable` reads them (apps/api/src/modules/stock/stock-ledger.ts),
-- and what a list of net changes without a shortage means.
use mathlib.Core.Path.{ap₂}
use item_lending_management.Prelude.{
  ==-refl, ==_iff, Bool, Bool-cases, Dict, List, Option, [], ap, arith, false, from_entries, get_or,
  if◌then◌else◌, includes, inl, inr, insert, int_laws, keep, lookup, lookup-insert, ltb_ℤ, map,
  none, pos, refl, some, sym, true, ℕ, ℤ, ◌+ℤ◌, ◌==◌, ◌∙◌, ◌∷◌, ◌≡◌, ◌≤ℤ◌,
}
use item_lending_management.Stock.{
  Ask, StockItem, assert_available, is_short, keys_of, net_from, on_hand, refuse_short, shortage,
}
use item_lending_management.Stock.Net.{Distinct, moved, net_from-Distinct, net_from-moved}
use item_lending_management.Failure.{ok, ok-injective}

-- The quantity on hand of the item with an id.
abbrev pub stock_of : ℕ → List StockItem → Option ℤ
stock_of k [] = none
stock_of k (i ∷ items) =
    let rest = stock_of k items in if k == i.id then some i.quantity_on_hand else rest

-- No two rows have one id; it is the primary key of `items`.
abbrev pub UniqueItems : List StockItem → Type 0
UniqueItems [] = Unit
UniqueItems (i ∷ items) = (stock_of i.id items ≡ none) × UniqueItems items

abbrev or_else : Option ℤ → Option ℤ → Option ℤ
or_else none b = b
or_else (some a) b = some a

on_hand-from :
    (items : List StockItem) (keys : List ℕ) (k : ℕ) (d : Dict ℤ)
    → UniqueItems items
    → includes k keys ≡ true
    → lookup k (
        from_entries
          (map
            (λ (i : StockItem). (i.id, i.quantity_on_hand))
            (keep (λ (i : StockItem). includes i.id keys) items))
          d)
      ≡ or_else (stock_of k items) (lookup k d)
on_hand-from [] keys k d u h = refl
on_hand-from (i ∷ items) keys k d u h = elim (Bool-cases (includes i.id keys)) [
  | inl e ↦ rw e (
      ground (
        arith,
        on_hand-from items keys k (insert i.id i.quantity_on_hand d) u.1 h,
        lookup-insert k i.id i.quantity_on_hand d,
        ==_iff k i.id,
      ))
  | inr e ↦
      let other : (k == i.id) ≡ false = elim (Bool-cases (k == i.id)) [
        | inl same ↦ absurd (cc (ap (λ (x : ℕ). includes x keys) ((==_iff k i.id).0 same)))
        | inr n ↦ n
      ] in
      rw (e, other) (on_hand-from items keys k d u.1 h)
]

-- For a key that is asked for, the map holds the row's quantity.
pub on_hand-lookup :
    (items : List StockItem) (keys : List ℕ) (k : ℕ)
    → UniqueItems items
    → includes k keys ≡ true
    → lookup k (on_hand items keys) ≡ stock_of k items
unfolding on_hand
on_hand-lookup items keys k u h = on_hand-from items keys k [] u h ∙ or_else-none (stock_of k items)
  where
    or_else-none : (o : Option ℤ) → or_else o none ≡ o
    or_else-none none = refl
    or_else-none (some a) = refl

lookup-head :
    (k j : ℕ) (v c : ℤ) (net : Dict ℤ)
    → (k == j) ≡ true
    → lookup k ((j, v) ∷ net) ≡ some c
    → (k ≡ j) × (v ≡ c)
lookup-head k j v c net e h = ((==_iff k j).0 e, let h' : some v ≡ some c = rw e at h in cc)

lookup-tail :
    (k j : ℕ) (v : ℤ) (net : Dict ℤ) → (k == j) ≡ false → lookup k ((j, v) ∷ net) ≡ lookup k net
lookup-tail k j v net e = rw e

pub keys_of-includes :
    (k : ℕ) (net : Dict ℤ) (c : ℤ) → lookup k net ≡ some c → includes k (keys_of net) ≡ true
keys_of-includes k [] c h = cc
keys_of-includes k ((j, v) ∷ net) c h = elim (Bool-cases (k == j)) [
  | inl e ↦ rw e
  | inr e ↦ rw e (keys_of-includes k net c (rw e at h))
]

keep-cons_empty :
    (p : ℕ × ℤ → Bool) (x : ℕ × ℤ) (xs : Dict ℤ)
    → keep p (x ∷ xs) ≡ []
    → (p x ≡ false) × (keep p xs ≡ [])
keep-cons_empty p x xs h = elim (Bool-cases (p x)) [
  | inl e ↦ let h' : x ∷ keep p xs ≡ [] = rw e at h in cc
  | inr e ↦ (e, rw e at h)
]

-- Nothing of a map is kept exactly when its entries all fail the test.
pub keep-empty :
    (p : ℕ × ℤ → Bool) (k : ℕ) (net : Dict ℤ) (c : ℤ)
    → keep p net ≡ []
    → lookup k net ≡ some c
    → p (k, c) ≡ false
keep-empty p k [] c e h = cc
keep-empty p k ((j, v) ∷ net) c e h =
    let (head, tail) = keep-cons_empty p (j, v) net e in
    elim (Bool-cases (k == j)) [
      | inl same ↦
          let (a, b) = lookup-head k j v c net same h in
          ap₂ (λ (x : ℕ) (y : ℤ). p (x, y)) a (sym b) ∙ head
      | inr other ↦ keep-empty p k net c tail (sym (lookup-tail k j v net other) ∙ h)
    ]

pub keep-none :
    (p : ℕ × ℤ → Bool) (net : Dict ℤ)
    → Distinct net
    → ((k : ℕ) (c : ℤ) → lookup k net ≡ some c → p (k, c) ≡ false)
    → keep p net ≡ []
keep-none p [] d h = refl
keep-none p ((j, v) ∷ net) d h =
    let head : p (j, v) ≡ false = h j v (rw (==-refl j)) in rw head (keep-none p net d.1 later)
  where
    later : (k : ℕ) (c : ℤ) → lookup k net ≡ some c → p (k, c) ≡ false
    later k c e = elim (Bool-cases (k == j)) [
      | inl same ↦ let gone : lookup k net ≡ none = rw ((==_iff k j).0 same) d.0 in cc
      | inr other ↦ h k c (lookup-tail k j v net other ∙ e)
    ]

refuse_short-ok :
    (net : Dict ℤ) (xs : List (ℕ × ℤ × ℤ)) {n : Dict ℤ}
    → refuse_short net xs ≡ ok n
    → (n ≡ net) × (xs ≡ [])
refuse_short-ok net [] h = (sym (ok-injective h), refl)
refuse_short-ok net (x ∷ xs) h = cc

map-empty : (f : ℕ × ℤ → ℕ × ℤ × ℤ) (xs : Dict ℤ) → map f xs ≡ [] → xs ≡ []
map-empty f [] h = refl
map-empty f (x ∷ xs) h = cc

pub assert_available-net :
    (items : List StockItem) (ms : List Ask) {net : Dict ℤ}
    → assert_available items ms ≡ ok net
    → net ≡ net_from [] ms
unfolding assert_available
assert_available-net items ms h =
    let n = net_from [] ms in
    let held = on_hand items (keys_of n) in
    (refuse_short-ok n (map (shortage held) (keep (is_short held) n)) h).0

-- A call that passes gives the net map, and takes no item below zero.
pub assert_available-ok :
    (items : List StockItem) (ms : List Ask) {net : Dict ℤ}
    → UniqueItems items
    → assert_available items ms ≡ ok net
    → (net ≡ net_from [] ms)
      × ((k : ℕ) (c : ℤ) → lookup k net ≡ some c → pos 0 ≤ℤ get_or (stock_of k items) (pos 0) +ℤ c)
unfolding assert_available
assert_available-ok items ms u h =
    let n = net_from [] ms in
    let held = on_hand items (keys_of n) in
    let (e, none_short) = refuse_short-ok n (map (shortage held) (keep (is_short held) n)) h in
    let empty = map-empty (shortage held) (keep (is_short held) n) none_short in
    (
      e,
      rw e (λ k c l.
          not_short k c (keep-empty (is_short held) k n c empty l)
            (on_hand-lookup items (keys_of n) k u (keys_of-includes k n c l))),
    )
  where
    not_short :
        (k : ℕ) (c : ℤ)
        → is_short (on_hand items (keys_of (net_from [] ms))) (k, c) ≡ false
        → lookup k (on_hand items (keys_of (net_from [] ms))) ≡ stock_of k items
        → pos 0 ≤ℤ get_or (stock_of k items) (pos 0) +ℤ c
    not_short k c f l =
        let f' : ltb_ℤ (get_or (stock_of k items) (pos 0) +ℤ c) (pos 0) ≡ false = rw (← l) f in
        ground arith

enough_room : (q c m : ℤ) → c ≡ pos 0 +ℤ m → pos 0 ≤ℤ q +ℤ m → ltb_ℤ (q +ℤ c) (pos 0) ≡ false
enough_room q c m e h = let e' : c ≡ m = e ∙ omega int_laws in rw e' (ground arith)

-- It passes whenever no item would go below zero.
pub assert_available-passes :
    (items : List StockItem) (ms : List Ask)
    → UniqueItems items
    → ((k : ℕ) → pos 0 ≤ℤ get_or (stock_of k items) (pos 0) +ℤ moved k ms)
    → assert_available items ms ≡ ok (net_from [] ms)
unfolding assert_available
assert_available-passes items ms u h = rw (
    keep-none (is_short (on_hand items (keys_of (net_from [] ms)))) (net_from [] ms)
      (net_from-Distinct [] ms tt) enough)
  where
    enough :
        (k : ℕ) (c : ℤ)
        → lookup k (net_from [] ms) ≡ some c
        → is_short (on_hand items (keys_of (net_from [] ms))) (k, c) ≡ false
    enough k c l =
        let held =
          on_hand-lookup items (keys_of (net_from [] ms)) k u
            (keys_of-includes k (net_from [] ms) c l) in
        let all : get_or (some c) (pos 0) ≡ pos 0 +ℤ moved k ms =
          ap (λ (o : Option ℤ). get_or o (pos 0)) (sym l) ∙ net_from-moved k [] ms in
        let room = h k in
        rw held (enough_room (get_or (stock_of k items) (pos 0)) c (moved k ms) all room)
