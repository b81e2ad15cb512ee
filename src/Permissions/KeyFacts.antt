-- ===== src/Permissions/KeyFacts.antt =====
-- Facts about the keys that the closure's proofs use.
use item_lending_management.Prelude.{
  ==-refl, ==_iff, List, ap, arith, get_elem?, get_or, length, refl, sym, true, ℕ, ◌↔◌, ◌∙◌, ◌∷◌,
  ◌≡◌, ◌≤◌, ◌⊎◌,
}
use item_lending_management.Permissions.Keys.{
  Key, audit_view, customers_create, customers_delete, customers_edit, customers_view,
  drivers_create, drivers_delete, drivers_edit, drivers_view, grantable_permission_keys, has,
  items_adjust_stock, items_create, items_delete, items_edit, items_view, items_view_cost,
  orders_cancel, orders_create, orders_edit, orders_edit_unit_deposit, orders_view, payments_create,
  payments_delete, permission_dependencies, place, purchases_create, purchases_delete,
  purchases_edit, purchases_view, reports_view_activity, reports_view_positions,
  reports_view_purchases, reports_view_stock, returns_create, returns_delete, returns_edit,
  same_key,
}

-- The key at a place of the list.
key_at : ℕ → Key
key_at n = get_or (get_elem? grantable_permission_keys n) audit_view

key_at-place : (k : Key) → key_at (place k) ≡ k
unfolding key_at
key_at-place items_view = refl
key_at-place items_create = refl
key_at-place items_edit = refl
key_at-place items_delete = refl
key_at-place items_view_cost = refl
key_at-place items_adjust_stock = refl
key_at-place purchases_view = refl
key_at-place purchases_create = refl
key_at-place purchases_edit = refl
key_at-place purchases_delete = refl
key_at-place customers_view = refl
key_at-place customers_create = refl
key_at-place customers_edit = refl
key_at-place customers_delete = refl
key_at-place drivers_view = refl
key_at-place drivers_create = refl
key_at-place drivers_edit = refl
key_at-place drivers_delete = refl
key_at-place orders_view = refl
key_at-place orders_create = refl
key_at-place orders_edit = refl
key_at-place orders_cancel = refl
key_at-place orders_edit_unit_deposit = refl
key_at-place returns_create = refl
key_at-place returns_edit = refl
key_at-place returns_delete = refl
key_at-place payments_create = refl
key_at-place payments_delete = refl
key_at-place reports_view_positions = refl
key_at-place reports_view_purchases = refl
key_at-place reports_view_activity = refl
key_at-place reports_view_stock = refl
key_at-place audit_view = refl

pub same_key_sound : (j k : Key) → same_key j k ≡ true → j ≡ k
same_key_sound j k h =
    let e : place j ≡ place k = (==_iff (place j) (place k)).0 h in
    sym (key_at-place j) ∙ (ap key_at e ∙ key_at-place k)

pub same_key_refl : (k : Key) → same_key k k ≡ true
same_key_refl k = ==-refl (place k)

-- The list of keys has every key.
pub grantable_permission_keys-all : (k : Key) → has grantable_permission_keys k ≡ true
grantable_permission_keys-all items_view = refl
grantable_permission_keys-all items_create = refl
grantable_permission_keys-all items_edit = refl
grantable_permission_keys-all items_delete = refl
grantable_permission_keys-all items_view_cost = refl
grantable_permission_keys-all items_adjust_stock = refl
grantable_permission_keys-all purchases_view = refl
grantable_permission_keys-all purchases_create = refl
grantable_permission_keys-all purchases_edit = refl
grantable_permission_keys-all purchases_delete = refl
grantable_permission_keys-all customers_view = refl
grantable_permission_keys-all customers_create = refl
grantable_permission_keys-all customers_edit = refl
grantable_permission_keys-all customers_delete = refl
grantable_permission_keys-all drivers_view = refl
grantable_permission_keys-all drivers_create = refl
grantable_permission_keys-all drivers_edit = refl
grantable_permission_keys-all drivers_delete = refl
grantable_permission_keys-all orders_view = refl
grantable_permission_keys-all orders_create = refl
grantable_permission_keys-all orders_edit = refl
grantable_permission_keys-all orders_cancel = refl
grantable_permission_keys-all orders_edit_unit_deposit = refl
grantable_permission_keys-all returns_create = refl
grantable_permission_keys-all returns_edit = refl
grantable_permission_keys-all returns_delete = refl
grantable_permission_keys-all payments_create = refl
grantable_permission_keys-all payments_delete = refl
grantable_permission_keys-all reports_view_positions = refl
grantable_permission_keys-all reports_view_purchases = refl
grantable_permission_keys-all reports_view_activity = refl
grantable_permission_keys-all reports_view_stock = refl
grantable_permission_keys-all audit_view = refl

-- A key has at most three direct dependencies.
pub length-permission_dependencies : (k : Key) → length (permission_dependencies k) ≤ 3
length-permission_dependencies items_view = omega arith
length-permission_dependencies items_create = omega arith
length-permission_dependencies items_edit = omega arith
length-permission_dependencies items_delete = omega arith
length-permission_dependencies items_view_cost = omega arith
length-permission_dependencies items_adjust_stock = omega arith
length-permission_dependencies purchases_view = omega arith
length-permission_dependencies purchases_create = omega arith
length-permission_dependencies purchases_edit = omega arith
length-permission_dependencies purchases_delete = omega arith
length-permission_dependencies customers_view = omega arith
length-permission_dependencies customers_create = omega arith
length-permission_dependencies customers_edit = omega arith
length-permission_dependencies customers_delete = omega arith
length-permission_dependencies drivers_view = omega arith
length-permission_dependencies drivers_create = omega arith
length-permission_dependencies drivers_edit = omega arith
length-permission_dependencies drivers_delete = omega arith
length-permission_dependencies orders_view = omega arith
length-permission_dependencies orders_create = omega arith
length-permission_dependencies orders_edit = omega arith
length-permission_dependencies orders_cancel = omega arith
length-permission_dependencies orders_edit_unit_deposit = omega arith
length-permission_dependencies returns_create = omega arith
length-permission_dependencies returns_edit = omega arith
length-permission_dependencies returns_delete = omega arith
length-permission_dependencies payments_create = omega arith
length-permission_dependencies payments_delete = omega arith
length-permission_dependencies reports_view_positions = omega arith
length-permission_dependencies reports_view_purchases = omega arith
length-permission_dependencies reports_view_activity = omega arith
length-permission_dependencies reports_view_stock = omega arith
length-permission_dependencies audit_view = omega arith

pub same_key_comm : (j k : Key) → same_key j k ≡ same_key k j
same_key_comm j k = ground arith

pub has-head : (k : Key) (ks : List Key) → has (k ∷ ks) k ≡ true
has-head k ks = ground (arith, same_key_refl k)

-- A key of a longer set is its head or in the rest.
pub has-cons : (j k : Key) (ks : List Key) → (has (j ∷ ks) k ≡ true) ↔ ((j ≡ k) ⊎ (has ks k ≡ true))
has-cons j k ks = ground (arith, same_key_sound j k, same_key_refl k, has-head k ks)
