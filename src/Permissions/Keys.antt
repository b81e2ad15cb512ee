-- ===== src/Permissions/Keys.antt =====
-- The grantable keys of packages/shared/src/permissions.ts with their implication table. A key is
-- its constructor, and an object keyed by all of them is a function by clauses.
use item_lending_management.Prelude.{Bool, List, [], false, ℕ, ◌==◌, ◌||◌, ◌∷◌}

pub data Key : Type 0 where
  items_view : Key
  items_create : Key
  items_edit : Key
  items_delete : Key
  items_view_cost : Key
  items_adjust_stock : Key
  purchases_view : Key
  purchases_create : Key
  purchases_edit : Key
  purchases_delete : Key
  customers_view : Key
  customers_create : Key
  customers_edit : Key
  customers_delete : Key
  drivers_view : Key
  drivers_create : Key
  drivers_edit : Key
  drivers_delete : Key
  orders_view : Key
  orders_create : Key
  orders_edit : Key
  orders_cancel : Key
  orders_edit_unit_deposit : Key
  returns_create : Key
  returns_edit : Key
  returns_delete : Key
  payments_create : Key
  payments_delete : Key
  reports_view_positions : Key
  reports_view_purchases : Key
  reports_view_activity : Key
  reports_view_stock : Key
  audit_view : Key

-- `GRANTABLE_PERMISSION_KEYS`
abbrev pub grantable_permission_keys : List Key
grantable_permission_keys =
    items_view ∷ items_create ∷ items_edit ∷ items_delete ∷ items_view_cost ∷ items_adjust_stock
    ∷ purchases_view ∷ purchases_create ∷ purchases_edit ∷ purchases_delete ∷ customers_view
    ∷ customers_create ∷ customers_edit ∷ customers_delete ∷ drivers_view ∷ drivers_create
    ∷ drivers_edit ∷ drivers_delete ∷ orders_view ∷ orders_create ∷ orders_edit ∷ orders_cancel
    ∷ orders_edit_unit_deposit ∷ returns_create ∷ returns_edit ∷ returns_delete ∷ payments_create
    ∷ payments_delete ∷ reports_view_positions ∷ reports_view_purchases ∷ reports_view_activity
    ∷ reports_view_stock ∷ audit_view ∷ []

-- The place of a key in that list; two keys are equal when their places are.
abbrev pub place : Key → ℕ
place items_view = 0
place items_create = 1
place items_edit = 2
place items_delete = 3
place items_view_cost = 4
place items_adjust_stock = 5
place purchases_view = 6
place purchases_create = 7
place purchases_edit = 8
place purchases_delete = 9
place customers_view = 10
place customers_create = 11
place customers_edit = 12
place customers_delete = 13
place drivers_view = 14
place drivers_create = 15
place drivers_edit = 16
place drivers_delete = 17
place orders_view = 18
place orders_create = 19
place orders_edit = 20
place orders_cancel = 21
place orders_edit_unit_deposit = 22
place returns_create = 23
place returns_edit = 24
place returns_delete = 25
place payments_create = 26
place payments_delete = 27
place reports_view_positions = 28
place reports_view_purchases = 29
place reports_view_activity = 30
place reports_view_stock = 31
place audit_view = 32

-- Where the key's text stands among the keys' texts in the order of `sort`.
abbrev pub text_rank : Key → ℕ
text_rank items_view = 13
text_rank items_create = 10
text_rank items_edit = 12
text_rank items_delete = 11
text_rank items_view_cost = 14
text_rank items_adjust_stock = 9
text_rank purchases_view = 25
text_rank purchases_create = 22
text_rank purchases_edit = 24
text_rank purchases_delete = 23
text_rank customers_view = 4
text_rank customers_create = 1
text_rank customers_edit = 3
text_rank customers_delete = 2
text_rank drivers_view = 8
text_rank drivers_create = 5
text_rank drivers_edit = 7
text_rank drivers_delete = 6
text_rank orders_view = 19
text_rank orders_create = 16
text_rank orders_edit = 17
text_rank orders_cancel = 15
text_rank orders_edit_unit_deposit = 18
text_rank returns_create = 30
text_rank returns_edit = 32
text_rank returns_delete = 31
text_rank payments_create = 20
text_rank payments_delete = 21
text_rank reports_view_positions = 27
text_rank reports_view_purchases = 28
text_rank reports_view_activity = 26
text_rank reports_view_stock = 29
text_rank audit_view = 0

-- `PERMISSION_DEPENDENCIES`
abbrev pub permission_dependencies : Key → List Key
permission_dependencies items_view = []
permission_dependencies items_create = items_view ∷ []
permission_dependencies items_edit = items_view ∷ []
permission_dependencies items_delete = items_view ∷ []
permission_dependencies items_view_cost = items_view ∷ []
permission_dependencies items_adjust_stock = items_view ∷ []
permission_dependencies purchases_view = items_view ∷ []
permission_dependencies purchases_create = purchases_view ∷ []
permission_dependencies purchases_edit = purchases_view ∷ []
permission_dependencies purchases_delete = purchases_view ∷ []
permission_dependencies customers_view = []
permission_dependencies customers_create = customers_view ∷ []
permission_dependencies customers_edit = customers_view ∷ []
permission_dependencies customers_delete = customers_view ∷ []
permission_dependencies drivers_view = []
permission_dependencies drivers_create = drivers_view ∷ []
permission_dependencies drivers_edit = drivers_view ∷ []
permission_dependencies drivers_delete = drivers_view ∷ []
permission_dependencies orders_view = customers_view ∷ drivers_view ∷ items_view ∷ []
permission_dependencies orders_create = orders_view ∷ []
permission_dependencies orders_edit = orders_view ∷ []
permission_dependencies orders_cancel = orders_view ∷ []
permission_dependencies orders_edit_unit_deposit = orders_edit ∷ []
permission_dependencies returns_create = orders_view ∷ []
permission_dependencies returns_edit = returns_create ∷ []
permission_dependencies returns_delete = orders_view ∷ []
permission_dependencies payments_create = orders_view ∷ []
permission_dependencies payments_delete = orders_view ∷ []
permission_dependencies reports_view_positions = []
permission_dependencies reports_view_purchases = items_view_cost ∷ []
permission_dependencies reports_view_activity = []
permission_dependencies reports_view_stock = []
permission_dependencies audit_view = []

abbrev pub same_key : Key → Key → Bool
same_key j k = place j == place k

-- `set.has(key)`, of a set as the list of its elements in insertion order.
abbrev pub has : List Key → Key → Bool
has [] k = false
has (j ∷ js) k = same_key j k || has js k
