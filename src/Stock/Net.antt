-- ===== src/Stock/Net.antt =====
-- The net change of each item (apps/api/src/modules/stock/stock-ledger.ts, `assertAvailable`), and
-- the update of the item rows by it.
use mathlib.Core.Path.{ap₂}
use item_lending_management.Prelude.{
  ==_iff, Bool-cases, Dict, List, [], ap, arith, eqb_ℤ, get_or, if◌then◌else◌, inl, inr, insert,
  int_laws, lookup, lookup-insert, map, none, pos, refl, true, ℕ, ℤ, ◌++◌, ◌+ℤ◌, ◌==◌, ◌∙◌, ◌∷◌,
  ◌≡◌,
}
use item_lending_management.Stock.{Ask, StockItem, net_from, update_item, update_items}

-- What a list of movements moves of one item.
abbrev pub moved : ℕ → List Ask → ℤ
moved k [] = pos 0
moved k ((i, q) ∷ ms) = (if k == i then q else pos 0) +ℤ moved k ms

pub moved-append : (k : ℕ) (xs ys : List Ask) → moved k (xs ++ ys) ≡ moved k xs +ℤ moved k ys
moved-append k [] ys = omega int_laws
moved-append k ((i, q) ∷ xs) ys = rw (moved-append k xs ys) (omega int_laws)

-- The keys of a map are distinct.
abbrev pub Distinct : Dict ℤ → Type 0
Distinct [] = Unit
Distinct ((k, v) ∷ d) = (lookup k d ≡ none) × Distinct d

pub insert-Distinct : (k : ℕ) (v : ℤ) (d : Dict ℤ) → Distinct d → Distinct (insert k v d)
insert-Distinct k v [] h = (refl, tt)
insert-Distinct k v ((j, w) ∷ d) h =
    ground (arith, insert-Distinct k v d h.1, lookup-insert j k v d)

pub net_from-Distinct : (net : Dict ℤ) (ms : List Ask) → Distinct net → Distinct (net_from net ms)
unfolding net_from
net_from-Distinct net [] h = h
net_from-Distinct net ((i, q) ∷ ms) h =
    net_from-Distinct (insert i (get_or (lookup i net) (pos 0) +ℤ q) net) ms
      (insert-Distinct i (get_or (lookup i net) (pos 0) +ℤ q) net h)

-- The net map holds for each item the sum of its movements.
pub net_from-moved :
    (k : ℕ) (net : Dict ℤ) (ms : List Ask)
    → get_or (lookup k (net_from net ms)) (pos 0) ≡ get_or (lookup k net) (pos 0) +ℤ moved k ms
unfolding net_from
net_from-moved k net [] = omega int_laws
net_from-moved k net ((i, q) ∷ ms) =
    let net' = insert i (get_or (lookup i net) (pos 0) +ℤ q) net in net_from-moved k net' ms ∙ step
  where
    step :
        get_or (lookup k (insert i (get_or (lookup i net) (pos 0) +ℤ q) net)) (pos 0) +ℤ moved k ms
        ≡ get_or (lookup k net) (pos 0) +ℤ ((if k == i then q else pos 0) +ℤ moved k ms)
    step = elim (Bool-cases (k == i)) [
      | inl e ↦
          rw (lookup-insert k i (get_or (lookup i net) (pos 0) +ℤ q) net, e, (==_iff k i).0 e)
            (omega int_laws)
      | inr e ↦ rw (lookup-insert k i _ net, e) (omega int_laws)
    ]

-- Each row moves by what the map holds for it.
abbrev pub moved_item : Dict ℤ → StockItem → StockItem
moved_item net i = record i {
  quantity_on_hand = i.quantity_on_hand +ℤ get_or (lookup i.id net) (pos 0);
}

pub eqb_ℤ→eq : (a b : ℤ) → eqb_ℤ a b ≡ true → a ≡ b
eqb_ℤ→eq a b h = ground arith

item_eq :
    (id : ℕ) {a b : ℤ}
    → a ≡ b
    → ◌≡◌ {A = StockItem}
        (record { id = id; quantity_on_hand = a })
        (record { id = id; quantity_on_hand = b })
item_eq id e = ap (λ (q : ℤ). record { id = id; quantity_on_hand = q }) e

moved_item-updated :
    (k : ℕ) (c : ℤ) (net : Dict ℤ) (i : StockItem)
    → lookup k net ≡ none
    → moved_item net
        (if i.id == k then record i { quantity_on_hand = i.quantity_on_hand +ℤ c } else i)
      ≡ moved_item ((k, c) ∷ net) i
moved_item-updated k c net i h = elim (Bool-cases (i.id == k)) [
  | inl e ↦ rw (e, (==_iff i.id k).0 e, h) (item_eq k (omega int_laws))
  | inr e ↦ rw e
]

moved_item-skipped :
    (k : ℕ) (net : Dict ℤ) (i : StockItem)
    → lookup k net ≡ none
    → moved_item net i ≡ moved_item ((k, pos 0) ∷ net) i
moved_item-skipped k net i h = elim (Bool-cases (i.id == k)) [
  | inl e ↦ rw (e, (==_iff i.id k).0 e, h)
  | inr e ↦ rw e
]

map-update_item :
    (k : ℕ) (c : ℤ) (net : Dict ℤ) (items : List StockItem)
    → lookup k net ≡ none
    → map (moved_item net) (update_item k c items) ≡ map (moved_item ((k, c) ∷ net)) items
unfolding update_item
map-update_item k c net [] h = refl
map-update_item k c net (i ∷ items) h =
    ap₂ ◌∷◌ (moved_item-updated k c net i h) (map-update_item k c net items h)

map-skip :
    (k : ℕ) (net : Dict ℤ) (items : List StockItem)
    → lookup k net ≡ none
    → map (moved_item net) items ≡ map (moved_item ((k, pos 0) ∷ net)) items
map-skip k net [] h = refl
map-skip k net (i ∷ items) h = ap₂ ◌∷◌ (moved_item-skipped k net i h) (map-skip k net items h)

-- The loop of `UPDATE`s moves every row by what the map holds for it, and no row's id.
pub update_items-map :
    (net : Dict ℤ) (items : List StockItem)
    → Distinct net
    → update_items net items ≡ map (moved_item net) items
unfolding update_items
update_items-map [] [] h = refl
update_items-map [] (i ∷ items) h =
    ap₂ ◌∷◌ (item_eq i.id (omega int_laws)) (update_items-map [] items h)
update_items-map ((k, c) ∷ net) items h = elim (Bool-cases (eqb_ℤ c (pos 0))) [
  | inl e ↦
      rw e (update_items-map net items h.1 ∙ rw (eqb_ℤ→eq c (pos 0) e) (map-skip k net items h.0))
  | inr e ↦
      rw e (update_items-map net (update_item k c items) h.1 ∙ map-update_item k c net items h.0)
]
