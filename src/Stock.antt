-- ===== src/Stock.antt =====
-- apps/api/src/modules/stock/stock-ledger.ts: the only writer of an item's quantity on hand. The
-- tables that it reads and writes, `items` and `stock_movements`, are the state; a refusal rolls the
-- transaction back, so an error carries no state.
pub mod Net
pub mod Held
pub mod Apply
pub mod Bounds
pub mod Running
mod Tests
use Prim.Native.String.{String}
use item_lending_management.Prelude.{
  Bool, Dict, List, Option, [], any, eqb_ℤ, false, from_entries, get_or, if◌then◌else◌, includes,
  insert, keep, lookup, ltb_ℤ, map, neg, none, pos, some, true, ℕ, ℤ, ◌++◌, ◌+ℤ◌, ◌==◌, ◌∷◌,
}
use item_lending_management.Failure.{Result, api, caller_bug, err, ok, stock_insufficient, ◌>>=◌}

-- A reason with exactly the references that it requires.
pub data MovementReason : Type 0 where
  batch_add : ℕ → MovementReason
  batch_edit : ℕ → MovementReason
  batch_delete : ℕ → MovementReason
  order_create : ℕ → MovementReason
  order_line_edit : ℕ → MovementReason
  order_cancel : ℕ → MovementReason
  return_accepted : ℕ → ℕ → MovementReason
  return_edit : ℕ → ℕ → MovementReason
  return_delete : ℕ → ℕ → MovementReason
  manual_adjustment : String → MovementReason
  pallet_credit : ℕ → MovementReason

pub record StockMovementInput : Type 0 where
  pub item_id : ℕ
  pub quantity : ℤ
  pub reason : MovementReason

-- A row of `stock_movements`.
pub record StockMovement : Type 0 where
  pub item_id : ℕ
  pub quantity : ℤ
  pub reason : MovementReason
  pub batch_id : Option ℕ
  pub order_id : Option ℕ
  pub return_id : Option ℕ
  pub pallet_credit_id : Option ℕ
  pub note : Option String
  pub created_by_user_id : ℕ

pub record StockItem : Type 0 where
  pub id : ℕ
  pub quantity_on_hand : ℤ

pub record StockState : Type 0 where
  pub items : List StockItem
  pub movements : List StockMovement

abbrev pub batch_id_of : MovementReason → Option ℕ
batch_id_of (batch_add b) = some b
batch_id_of (batch_edit b) = some b
batch_id_of (batch_delete b) = some b
batch_id_of _ = none

abbrev pub order_id_of : MovementReason → Option ℕ
order_id_of (order_create o) = some o
order_id_of (order_line_edit o) = some o
order_id_of (order_cancel o) = some o
order_id_of (return_accepted o r) = some o
order_id_of (return_edit o r) = some o
order_id_of (return_delete o r) = some o
order_id_of _ = none

abbrev pub return_id_of : MovementReason → Option ℕ
return_id_of (return_accepted o r) = some r
return_id_of (return_edit o r) = some r
return_id_of (return_delete o r) = some r
return_id_of _ = none

abbrev pub pallet_credit_id_of : MovementReason → Option ℕ
pallet_credit_id_of (pallet_credit c) = some c
pallet_credit_id_of _ = none

abbrev pub note_of : MovementReason → Option String
note_of (manual_adjustment n) = some n
note_of _ = none

unfoldable pub movement_row : ℕ → StockMovementInput → StockMovement
movement_row user_id movement = record {
  item_id = movement.item_id;
  quantity = movement.quantity;
  reason = movement.reason;
  batch_id = batch_id_of movement.reason;
  order_id = order_id_of movement.reason;
  return_id = return_id_of movement.reason;
  pallet_credit_id = pallet_credit_id_of movement.reason;
  note = note_of movement.reason;
  created_by_user_id = user_id;
}

-- What an item and a quantity are asked of, as `assertAvailable` takes them.
abbrev pub Ask : Type 0
Ask = ℕ × ℤ

abbrev pub asks : List StockMovementInput → List Ask
asks = map (λ (m : StockMovementInput). (m.item_id, m.quantity))

-- `net.set(itemId, (net.get(itemId) ?? 0) + quantity)` for each movement
unfoldable pub net_from : Dict ℤ → List Ask → Dict ℤ
net_from net [] = net
net_from net ((item_id, quantity) ∷ movements) =
    net_from (insert item_id (get_or (lookup item_id net) (pos 0) +ℤ quantity) net) movements

-- The rows that `findMany` reads, as a map.
unfoldable pub on_hand : List StockItem → List ℕ → Dict ℤ
on_hand items keys =
    from_entries
      (map (λ (i : StockItem). (i.id, i.quantity_on_hand))
        (keep (λ (i : StockItem). includes i.id keys) items))
      []

abbrev pub keys_of : Dict ℤ → List ℕ
keys_of net = map (λ (e : ℕ × ℤ). e.0) net

-- The net changes that would take an item below zero.
abbrev pub is_short : Dict ℤ → ℕ × ℤ → Bool
is_short held (item_id, change) = ltb_ℤ (get_or (lookup item_id held) (pos 0) +ℤ change) (pos 0)

abbrev pub shortage : Dict ℤ → ℕ × ℤ → ℕ × ℤ × ℤ
shortage held (item_id, change) = (item_id, neg change, get_or (lookup item_id held) (pos 0))

abbrev pub refuse_short : Dict ℤ → List (ℕ × ℤ × ℤ) → Result (Dict ℤ)
refuse_short net [] = ok net
refuse_short net (x ∷ xs) = err (api (stock_insufficient (x ∷ xs)))

unfoldable pub assert_available : List StockItem → List Ask → Result (Dict ℤ)
assert_available items movements =
    let net = net_from [] movements in
    let held = on_hand items (keys_of net) in
    refuse_short net (map (shortage held) (keep (is_short held) net))

abbrev pub is_zero : StockMovementInput → Bool
is_zero m = eqb_ℤ m.quantity (pos 0)

-- Additions before removals.
unfoldable pub ordered : List StockMovementInput → List StockMovementInput
ordered movements =
    keep (λ m. ltb_ℤ (pos 0) m.quantity) movements ++ keep (λ m. ltb_ℤ m.quantity (pos 0)) movements

-- `UPDATE items SET quantity_on_hand = quantity_on_hand + change WHERE id = itemId`
unfoldable pub update_item : ℕ → ℤ → List StockItem → List StockItem
update_item item_id change [] = []
update_item item_id change (i ∷ items) =
    (if i.id == item_id then record i { quantity_on_hand = i.quantity_on_hand +ℤ change } else i)
    ∷ update_item item_id change items

unfoldable pub update_items : Dict ℤ → List StockItem → List StockItem
update_items [] items = items
update_items ((item_id, change) ∷ net) items =
    update_items net (if eqb_ℤ change (pos 0) then items else update_item item_id change items)

abbrev pub is_empty {ℓ} : {A : Type ℓ} → List A → Bool
is_empty [] = true
is_empty (x ∷ xs) = false

-- The database also refuses a row of an item that is not there, and a quantity past its integers;
-- neither is modelled, so that a call that succeeds here may still be refused there.
unfoldable pub apply : StockState → List StockMovementInput → ℕ → Result StockState
apply s movements user_id =
    if is_empty movements then ok s else if any is_zero movements then err caller_bug else do
      net ← assert_available s.items (asks movements)
      ok (record {
        items = update_items net s.items;
        movements = s.movements ++ map (movement_row user_id) (ordered movements);
      })
