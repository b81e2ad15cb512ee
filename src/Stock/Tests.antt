-- ===== src/Stock/Tests.antt =====
-- Runs of `StockLedger.apply` (apps/api/src/modules/stock/stock-ledger.ts), and the theorems about it
-- applied there.
use item_lending_management.Prelude.{
  List, [], arith, get_or, map, negsuc, pos, refl, take, ℕ, ℤ, ◌++◌, ◌+ℤ◌, ◌↔◌, ◌∷◌, ◌≡◌, ◌≤ℤ◌,
}
use item_lending_management.Failure.{api, err, ok, stock_insufficient}
use item_lending_management.Stock.{
  StockMovementInput, StockState, apply, asks, assert_available, batch_add, movement_row, net_from,
  on_hand, order_create, order_line_edit, ordered, return_edit, update_item, update_items,
}
use item_lending_management.Stock.Net.{moved}
use item_lending_management.Stock.Held.{UniqueItems, stock_of}
use item_lending_management.Stock.Apply.{
  IsReconciled, IsStocked, after, apply-IsReconciled, apply-effect,
}
use item_lending_management.Stock.Bounds.{apply-IsStocked, apply_refused}
use item_lending_management.Stock.Running.{ordered-running}

abbrev delivery : StockMovementInput
delivery = record { item_id = 1; quantity = pos 5; reason = batch_add 9 }

abbrev stock : StockState
stock = record {
  items =
      record { id = 1; quantity_on_hand = pos 5 }
      ∷ record { id = 2; quantity_on_hand = pos 0 }
      ∷ [];
  movements = movement_row 3 delivery ∷ [];
}

-- An edit that takes eight of item 1 out and puts four back: judged on the difference.
abbrev edit : List StockMovementInput
edit =
    record { item_id = 1; quantity = negsuc 7; reason = order_line_edit 4 }
    ∷ record { item_id = 1; quantity = pos 4; reason = return_edit 4 6 }
    ∷ []

abbrev stock_after : StockState
stock_after = record {
  items =
      record { id = 1; quantity_on_hand = pos 1 }
      ∷ record { id = 2; quantity_on_hand = pos 0 }
      ∷ [];
  movements =
      movement_row 3 delivery
      ∷ movement_row 3 (record { item_id = 1; quantity = pos 4; reason = return_edit 4 6 })
      ∷ movement_row 3 (record { item_id = 1; quantity = negsuc 7; reason = order_line_edit 4 })
      ∷ [];
}

edit_applies : apply stock edit 3 ≡ ok stock_after
unfolding apply assert_available net_from on_hand update_items update_item ordered ◌+ℤ◌
edit_applies = refl

too_much :
    apply stock (record { item_id = 2; quantity = negsuc 0; reason = order_create 4 } ∷ []) 3
    ≡ err (api (stock_insufficient ((2, pos 1, pos 0) ∷ [])))
unfolding apply assert_available net_from on_hand ◌+ℤ◌
too_much = refl

stock-UniqueItems : UniqueItems stock.items
stock-UniqueItems = (refl, (refl, tt))

stock-IsReconciled : IsReconciled stock
unfolding movement_row ◌+ℤ◌
stock-IsReconciled = (refl, (refl, tt))

apply-effect_example :
    (stock_after.items ≡ map (after edit) stock.items)
    × (stock_after.movements ≡ stock.movements ++ map (movement_row 3) (ordered edit))
apply-effect_example = apply-effect stock edit 3 edit_applies

apply-IsReconciled_example : IsReconciled stock_after
apply-IsReconciled_example = apply-IsReconciled stock edit 3 stock-IsReconciled edit_applies

apply-IsStocked_example : IsStocked stock_after
apply-IsStocked_example =
    apply-IsStocked stock edit 3 stock-UniqueItems (omega arith, (omega arith, tt)) edit_applies

apply_refused_example :
    ((y : ℕ × ℤ × ℤ) × (ys : List (ℕ × ℤ × ℤ)) × (apply stock edit 3
        ≡ err (api (stock_insufficient (y ∷ ys)))))
    ↔ ¬ ((k : ℕ) → pos 0 ≤ℤ get_or (stock_of k stock.items) (pos 0) +ℤ moved k (asks edit))
apply_refused_example =
    apply_refused stock edit 3 stock-UniqueItems (omega arith, (omega arith, tt)) refl

ordered-running_example : pos 1 ≤ℤ pos 5 +ℤ moved 1 (asks (take 1 (ordered edit)))
unfolding ◌+ℤ◌
ordered-running_example = ordered-running 1 1 (pos 1) (pos 5) edit (omega arith) (omega arith)
