-- ===== src/Permissions/Tests.antt =====
-- The permission keys on small sets.
use item_lending_management.Prelude.{List, [], false, refl, ◌↔◌, ◌∷◌, ◌≡◌}
use item_lending_management.Permissions.Keys.{
  Key, audit_view, customers_view, drivers_view, has, items_view, orders_create, orders_edit,
  orders_view, purchases_view,
}
use item_lending_management.Permissions.Close.{
  close_loop, close_permission_set, close_rounds, closing, delete, missing_permission_dependencies,
  next_selection, push_all, sorted, sorted_insert, toggle_permission, visit, without_dependents,
}
use item_lending_management.Permissions.Closure.{IsClosed}
use item_lending_management.Permissions.Selection.{
  Holds, close_permission_set_least_closed, missing_permission_dependencies_nil,
  toggle_permission-IsClosed,
}

closed_orders :
    missing_permission_dependencies (orders_create ∷ items_view ∷ [])
    ≡ customers_view ∷ drivers_view ∷ orders_view ∷ []
unfolding missing_permission_dependencies close_permission_set closing close_loop close_rounds
    push_all visit sorted sorted_insert
closed_orders = refl

-- `items.view` and `purchases.view`
abbrev viewing : List Key
viewing = items_view ∷ purchases_view ∷ []

viewing_complete : missing_permission_dependencies viewing ≡ []
unfolding missing_permission_dependencies close_permission_set closing close_loop close_rounds
    push_all visit sorted sorted_insert
viewing_complete = refl

viewing-IsClosed : IsClosed (Holds viewing)
viewing-IsClosed = (missing_permission_dependencies_nil viewing).0 viewing_complete

close_permission_set_least_closed_example :
    ((k : Key) → Holds (orders_edit ∷ []) k → Holds (close_permission_set (orders_edit ∷ [])) k)
    × IsClosed (Holds (close_permission_set (orders_edit ∷ [])))
    × ((P : Key → Type 0)
        → IsClosed P
        → ((k : Key) → Holds (orders_edit ∷ []) k → P k)
        → (k : Key) → Holds (close_permission_set (orders_edit ∷ [])) k
        → P k)
close_permission_set_least_closed_example = close_permission_set_least_closed (orders_edit ∷ [])

missing_permission_dependencies_nil_example :
    (missing_permission_dependencies viewing ≡ []) ↔ IsClosed (Holds viewing)
missing_permission_dependencies_nil_example = missing_permission_dependencies_nil viewing

-- Unticking `items.view` unticks `purchases.view` too.
untick_items : toggle_permission (audit_view ∷ viewing) items_view false ≡ audit_view ∷ []
unfolding toggle_permission next_selection without_dependents delete close_permission_set closing
    close_loop close_rounds push_all visit
untick_items = refl

toggle_permission-IsClosed_example :
    IsClosed (Holds (toggle_permission viewing items_view false))
    × (has (toggle_permission viewing items_view false) items_view ≡ false)
toggle_permission-IsClosed_example =
    toggle_permission-IsClosed viewing items_view false viewing-IsClosed
