-- ===== src/Purchases/Tests.antt =====
-- A batch of ten pallets bought, corrected to six, and deleted.
use item_lending_management.Prelude.{[], negsuc, none, pos, refl, some, ◌+ℤ◌, ◌-ℤ◌, ◌∷◌, ◌≡◌}
use item_lending_management.Failure.{api, err, ok, version_conflict}
use item_lending_management.Orders.State.{to_db_money, to_safe_money}
use item_lending_management.Ledger.{assert_not_in_future}
use item_lending_management.Stock.{
  StockMovement, apply, assert_available, batch_add, batch_delete, batch_edit, movement_row,
  net_from, on_hand, ordered, update_item, update_items,
}
use item_lending_management.Versioning.{assert_version, safe_product}
use item_lending_management.Purchases.{
  InitialBatchBody, PurchaseBatch, PurchaseBatchUpdateBody, PurchaseRows, batch_changes,
  batch_created, batch_deleted, batch_updated, create_batch, deleted, edited, insert_batch,
  item_name_of, live_item, lock_live, move_difference, move_stock, new_batch, quantity_field,
  record_history, reload, remove, update, update_with, write_update,
}
use item_lending_management.Purchases.Check.{check_batches}
use item_lending_management.Purchases.Reached.{
  Reachable-balanced, corrected, created, here, removed, then,
}

abbrev start : PurchaseRows
start = record {
  stock = record { items = record { id = 4; quantity_on_hand = pos 0 } ∷ []; movements = [] };
  items = record { id = 4; name = 80 ∷ []; archived_at = none } ∷ [];
  batches = [];
  next_batch_id = 1;
  history = [];
}

abbrev bought : InitialBatchBody
bought = record { date = 100; quantity = 10; unit_cost = 3; note = none }

abbrev batch : PurchaseBatch
batch = new_batch 1 4 bought 3 30 2

abbrev addition : StockMovement
addition = movement_row 2 (record { item_id = 4; quantity = pos 10; reason = batch_add 1 })

abbrev rows_bought : PurchaseRows
rows_bought = record {
  stock = record {
    items = record { id = 4; quantity_on_hand = pos 10 } ∷ [];
    movements = addition ∷ [];
  };
  items = start.items;
  batches = batch ∷ [];
  next_batch_id = 2;
  history = batch_created batch (80 ∷ []) ∷ [];
}

buys : create_batch 105 4 bought 2 start ≡ ok (rows_bought, batch)
unfolding create_batch assert_not_in_future safe_product live_item insert_batch to_db_money
    move_stock apply assert_available net_from on_hand update_items update_item ordered movement_row
    record_history reload update lock_live item_name_of assert_version to_safe_money batch_changes
    update_with write_update move_difference edited remove ◌+ℤ◌ ◌-ℤ◌
buys = refl

abbrev to_six : PurchaseBatchUpdateBody
to_six = record { version = 1; date = none; quantity = some 6; unit_cost = none; note = none }

abbrev batch_of_six : PurchaseBatch
batch_of_six = record batch { quantity = 6; total_cost = 18; version = 2 }

abbrev correction : StockMovement
correction = movement_row 2 (record { item_id = 4; quantity = negsuc 3; reason = batch_edit 1 })

abbrev rows_corrected : PurchaseRows
rows_corrected = record rows_bought {
  stock = record {
    items = record { id = 4; quantity_on_hand = pos 6 } ∷ [];
    movements = addition ∷ correction ∷ [];
  };
  batches = batch_of_six ∷ [];
  history =
      batch_created batch (80 ∷ [])
      ∷ batch_updated (quantity_field ∷ []) batch batch_of_six (80 ∷ [])
      ∷ [];
}

corrects : update 105 1 to_six 2 rows_bought ≡ ok (rows_corrected, batch_of_six)
unfolding create_batch assert_not_in_future safe_product live_item insert_batch to_db_money
    move_stock apply assert_available net_from on_hand update_items update_item ordered movement_row
    record_history reload update lock_live item_name_of assert_version to_safe_money batch_changes
    update_with write_update move_difference edited remove ◌+ℤ◌ ◌-ℤ◌
corrects = refl

-- A correction made from an older version is refused.
conflicts : update 105 1 to_six 2 rows_corrected ≡ err (api (version_conflict 2))
unfolding create_batch assert_not_in_future safe_product live_item insert_batch to_db_money
    move_stock apply assert_available net_from on_hand update_items update_item ordered movement_row
    record_history reload update lock_live item_name_of assert_version to_safe_money batch_changes
    update_with write_update move_difference edited remove ◌+ℤ◌ ◌-ℤ◌
conflicts = refl

abbrev rows_removed : PurchaseRows
rows_removed = record rows_corrected {
  stock = record {
    items = record { id = 4; quantity_on_hand = pos 0 } ∷ [];
    movements =
        addition
        ∷ correction
        ∷ movement_row 2 (record { item_id = 4; quantity = negsuc 5; reason = batch_delete 1 })
        ∷ [];
  };
  batches = deleted 9000 2 batch_of_six ∷ [];
  history =
      batch_created batch (80 ∷ [])
      ∷ batch_updated (quantity_field ∷ []) batch batch_of_six (80 ∷ [])
      ∷ batch_deleted batch_of_six (deleted 9000 2 batch_of_six) (80 ∷ [])
      ∷ [];
}

removes : remove 9000 1 2 2 rows_corrected ≡ ok rows_removed
unfolding create_batch assert_not_in_future safe_product live_item insert_batch to_db_money
    move_stock apply assert_available net_from on_hand update_items update_item ordered movement_row
    record_history reload update lock_live item_name_of assert_version to_safe_money batch_changes
    update_with write_update move_difference edited remove ◌+ℤ◌ ◌-ℤ◌
removes = refl

Reachable-balanced_example : check_batches rows_removed.batches rows_removed.stock.movements ≡ []
Reachable-balanced_example = Reachable-balanced start refl refl (
    then (then (then here (created 105 4 bought 2 buys)) (corrected 105 1 to_six 2 corrects))
      (removed 9000 1 2 2 removes))
