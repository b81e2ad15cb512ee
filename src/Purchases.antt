-- ===== src/Purchases.antt =====
-- apps/api/src/modules/purchases/purchases.service.ts: batches of bought pallets, each with the
-- stock movements that record it. The tables it reads and writes are the state: the stock, the
-- items' names and archive marks, the batches and their history rows.
use item_lending_management.Prelude.{
  List, Option, Text, [], eqb_ℤ, find, if◌then◌else◌, neg, none, not, pos, some, suc, ℕ, ◌*◌, ◌++◌,
  ◌-ℤ◌, ◌==◌, ◌∷◌,
}
use item_lending_management.Failure.{
  Result, api, batch_not_found, caller_bug, item_archived, item_not_found, ok, or_throw, throw_if,
  ◌>>=◌, ◌>>◌,
}
use item_lending_management.Orders.State.{is_some, to_db_money, to_safe_money}
use item_lending_management.Ledger.{assert_not_in_future}
use item_lending_management.Stock.{
  StockMovementInput, StockState, apply, batch_add, batch_delete, batch_edit,
}
use item_lending_management.Versioning.{
  assert_version, changed_fields, named_otherwise, safe_product, same_note,
}
pub mod Check
pub mod Balance
pub mod Kept
pub mod Changed
pub mod Reached
mod Tests

pub record PurchaseBatch : Type 0 where
  pub id : ℕ
  pub item_id : ℕ
  pub date : ℕ
  pub quantity : ℕ
  pub unit_cost : ℕ
  pub total_cost : ℕ
  pub note : Option Text
  pub deleted_at : Option ℕ
  pub deleted_by_user_id : Option ℕ
  pub version : ℕ
  pub created_by_user_id : ℕ

-- What a purchase reads of an item.
pub record ItemRow : Type 0 where
  pub id : ℕ
  pub name : Text
  pub archived_at : Option ℕ

pub data BatchField : Type 0 where
  date_field quantity_field unit_cost_field note_field : BatchField

-- A history row: its action with the summary that the action has.
pub data BatchAudit : Type 0 where
  batch_created : PurchaseBatch → Text → BatchAudit
  batch_updated : List BatchField → PurchaseBatch → PurchaseBatch → Text → BatchAudit
  batch_deleted : PurchaseBatch → PurchaseBatch → Text → BatchAudit

pub record PurchaseRows : Type 0 where
  pub stock : StockState
  pub items : List ItemRow
  pub batches : List PurchaseBatch
  pub next_batch_id : ℕ
  pub history : List BatchAudit

pub record InitialBatchBody : Type 0 where
  pub date : ℕ
  pub quantity : ℕ
  pub unit_cost : ℕ
  pub note : Option Text

-- `note` is undefined, null or a text.
pub record PurchaseBatchUpdateBody : Type 0 where
  pub version : ℕ
  pub date : Option ℕ
  pub quantity : Option ℕ
  pub unit_cost : Option ℕ
  pub note : Option (Option Text)

abbrev pub find_batch : ℕ → PurchaseRows → Option PurchaseBatch
find_batch id rows = find (λ (b : PurchaseBatch). b.id == id) rows.batches

abbrev pub find_item : ℕ → PurchaseRows → Option ItemRow
find_item id rows = find (λ (i : ItemRow). i.id == id) rows.items

abbrev pub update_batch :
    ℕ → (PurchaseBatch → PurchaseBatch) → List PurchaseBatch → List PurchaseBatch
update_batch id change [] = []
update_batch id change (b ∷ bs) =
    let rest = update_batch id change bs in if b.id == id then change b ∷ rest else b ∷ rest

abbrev pub new_batch : ℕ → ℕ → InitialBatchBody → ℕ → ℕ → ℕ → PurchaseBatch
new_batch id item_id input unit_cost total_cost user_id = record {
  id = id;
  item_id = item_id;
  date = input.date;
  quantity = input.quantity;
  unit_cost = unit_cost;
  total_cost = total_cost;
  note = input.note;
  deleted_at = none;
  deleted_by_user_id = none;
  version = 1;
  created_by_user_id = user_id;
}

-- `stock.apply(tx, [movement], userId)` on the tables of this module.
unfoldable pub move_stock : StockMovementInput → ℕ → PurchaseRows → Result PurchaseRows
move_stock movement user_id rows =
    apply rows.stock (movement ∷ []) user_id >>= λ stock. ok (record rows { stock = stock })

-- The new row, its history not yet written.
abbrev pub append_batch : PurchaseBatch → PurchaseRows → PurchaseRows
append_batch batch rows = record rows {
  batches = rows.batches ++ batch ∷ [];
  next_batch_id = suc rows.next_batch_id;
}

unfoldable pub insert_batch :
    ℕ → InitialBatchBody → ℕ → PurchaseRows → Result (PurchaseRows × PurchaseBatch)
insert_batch item_id input user_id rows = do
  unit_cost ← to_db_money input.unit_cost
  total_cost ← to_db_money (input.quantity * input.unit_cost)
  let batch = new_batch rows.next_batch_id item_id input unit_cost total_cost user_id
  let movement : StockMovementInput = record {
    item_id = item_id;
    quantity = pos input.quantity;
    reason = batch_add batch.id;
  }
  after ← move_stock movement user_id (append_batch batch rows)
  ok (after, batch)

unfoldable pub record_history : BatchAudit → PurchaseRows → PurchaseRows
record_history entry rows = record rows { history = rows.history ++ entry ∷ [] }

-- The item is there and not archived.
unfoldable pub live_item : ℕ → PurchaseRows → Result ItemRow
live_item item_id rows = do
  item ← or_throw (api (item_not_found item_id)) (find_item item_id rows)
  throw_if (is_some item.archived_at) (api (item_archived item_id)) >> ok item

unfoldable pub reload : ℕ → PurchaseRows → Result PurchaseBatch
reload batch_id rows = or_throw caller_bug (find_batch batch_id rows)

-- The answer holds the stored batch, read again, and not what a viewer without costs sees of it.
unfoldable pub create_batch :
    ℕ → ℕ → InitialBatchBody → ℕ → PurchaseRows → Result (PurchaseRows × PurchaseBatch)
create_batch today item_id body user_id rows = do
  _ ← assert_not_in_future today body.date
  _ ← safe_product body.quantity body.unit_cost
  item ← live_item item_id rows
  (after, batch) ← insert_batch item_id body user_id rows
  let written = record_history (batch_created batch item.name) after
  stored ← reload batch.id written
  ok (written, stored)

-- `lockLive`: the batch is there and not deleted.
unfoldable pub lock_live : ℕ → PurchaseRows → Result PurchaseBatch
lock_live batch_id rows = do
  batch ← or_throw (api (batch_not_found batch_id)) (find_batch batch_id rows)
  throw_if (is_some batch.deleted_at) (api (batch_not_found batch_id)) >> ok batch

-- `body.x ?? current.x`
abbrev pub or_current {ℓ} : {A : Type ℓ} → Option A → A → A
or_current none current = current
or_current (some value) current = value

-- `current_cost` is the stored unit cost as a safe number.
unfoldable pub batch_changes : PurchaseBatchUpdateBody → PurchaseBatch → ℕ → List BatchField
batch_changes body current current_cost = changed_fields (
    (date_field, named_otherwise ◌==◌ body.date current.date)
    ∷ (quantity_field, named_otherwise ◌==◌ body.quantity current.quantity)
    ∷ (unit_cost_field, named_otherwise ◌==◌ body.unit_cost current_cost)
    ∷ (note_field, named_otherwise same_note body.note current.note)
    ∷ [])

unfoldable pub edited : PurchaseBatchUpdateBody → ℕ → ℕ → ℕ → PurchaseBatch → PurchaseBatch
edited body quantity unit_cost total_cost batch = record batch {
  date = or_current body.date batch.date;
  quantity = quantity;
  unit_cost = unit_cost;
  total_cost = total_cost;
  note = or_current body.note batch.note;
  version = suc batch.version;
}

-- `if (delta !== 0) await this.stock.apply(…)`
unfoldable pub move_difference : PurchaseBatch → ℕ → ℕ → PurchaseRows → Result PurchaseRows
move_difference before quantity user_id rows =
    let delta = pos quantity -ℤ pos before.quantity in
    let movement : StockMovementInput = record {
      item_id = before.item_id;
      quantity = delta;
      reason = batch_edit before.id;
    } in
    if not (eqb_ℤ delta (pos 0)) then move_stock movement user_id rows else ok rows

-- The part of `update` behind the return of a correction that changes nothing.
unfoldable pub write_update :
    PurchaseBatchUpdateBody
    → PurchaseBatch
    → ℕ
    → Text
    → List BatchField
    → ℕ
    → PurchaseRows
    → Result (PurchaseRows × PurchaseBatch)
write_update body before current_cost item_name fields user_id rows = do
  let quantity = or_current body.quantity before.quantity
  let unit_cost = or_current body.unit_cost current_cost
  total_cost ← safe_product quantity unit_cost
  moved ← move_difference before quantity user_id rows
  db_unit_cost ← to_db_money unit_cost
  db_total_cost ← to_db_money total_cost
  let change = edited body quantity db_unit_cost db_total_cost
  let written = record moved { batches = update_batch before.id change moved.batches }
  ok (record_history (batch_updated fields before (change before) item_name) written, change before)

abbrev pub date_allowed : ℕ → Option ℕ → Result (Unit {0})
date_allowed today none = ok tt
date_allowed today (some date) = assert_not_in_future today date

-- A correction that changes nothing writes nothing.
unfoldable pub update_with :
    PurchaseBatchUpdateBody
    → PurchaseBatch
    → ℕ
    → Text
    → ℕ
    → PurchaseRows
    → List BatchField
    → Result (PurchaseRows × PurchaseBatch)
update_with body before current_cost item_name user_id rows [] = ok (rows, before)
update_with body before current_cost item_name user_id rows (field ∷ fields) =
    write_update body before current_cost item_name (field ∷ fields) user_id rows

-- The name of a batch's item, by the batch's foreign key.
unfoldable pub item_name_of : PurchaseBatch → PurchaseRows → Result Text
item_name_of batch rows =
    or_throw caller_bug (find_item batch.item_id rows) >>= λ item. ok item.name

unfoldable pub update :
    ℕ → ℕ → PurchaseBatchUpdateBody → ℕ → PurchaseRows → Result (PurchaseRows × PurchaseBatch)
update today batch_id body user_id rows = do
  before ← lock_live batch_id rows
  item_name ← item_name_of before rows
  _ ← assert_version before.version body.version
  _ ← date_allowed today body.date
  current_cost ← to_safe_money before.unit_cost
  update_with body before current_cost item_name user_id rows
      (batch_changes body before current_cost)

abbrev pub deleted : ℕ → ℕ → PurchaseBatch → PurchaseBatch
deleted now user_id batch = record batch {
  deleted_at = some now;
  deleted_by_user_id = some user_id;
  version = suc batch.version;
}

unfoldable pub remove : ℕ → ℕ → ℕ → ℕ → PurchaseRows → Result PurchaseRows
remove now batch_id version user_id rows = do
  before ← lock_live batch_id rows
  item_name ← item_name_of before rows
  _ ← assert_version before.version version
  let movement : StockMovementInput = record {
    item_id = before.item_id;
    quantity = neg (pos before.quantity);
    reason = batch_delete batch_id;
  }
  moved ← move_stock movement user_id rows
  let written = record moved { batches = update_batch batch_id (deleted now user_id) moved.batches }
  ok (record_history (batch_deleted before (deleted now user_id before) item_name) written)
