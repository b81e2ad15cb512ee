-- ===== src/Permissions/Close.antt =====
-- `closePermissionSet` and `missingPermissionDependencies` of packages/shared/src/permissions.ts,
-- and `togglePermission` of apps/web/src/features/users/permission-selection.ts.
use item_lending_management.Prelude.{
  Bool, List, [], if◌then◌else◌, keep, length, ltb, not, suc, zero, ℕ, ◌*◌, ◌++◌, ◌+◌, ◌∷◌,
}
use item_lending_management.Permissions.Keys.{
  Key, grantable_permission_keys, has, permission_dependencies, same_key, text_rank,
}

-- The `stack` is written with its top first: `pop` takes the head, and `push(...xs)` leaves the
-- last of `xs` on top. A `Set` is the list of its elements, the last added first.
pub record Closing : Type 0 where
  pub stack : List Key
  pub result : List Key

-- `push(...xs)`
unfoldable pub push_all : List Key → List Key → List Key
push_all [] stack = stack
push_all (x ∷ xs) stack = push_all xs (x ∷ stack)

-- One round of the loop, after `key` left the stack.
unfoldable pub visit : Key → List Key → List Key → Closing
visit key stack result =
    if has result key
    then record { stack = stack; result = result }
    else record { stack = push_all (permission_dependencies key) stack; result = key ∷ result }

-- `while (stack.length > 0)`, for at most so many rounds.
unfoldable pub close_loop : ℕ → List Key → List Key → Closing
close_loop zero stack result = record { stack = stack; result = result }
close_loop (suc fuel) [] result = record { stack = []; result = result }
close_loop (suc fuel) (key ∷ stack) result =
    let next = visit key stack result in close_loop fuel next.stack next.result

-- A round takes one key off the stack, or adds one of the 33 keys and at most three to the stack.
unfoldable pub close_rounds : List Key → ℕ
close_rounds keys = length keys + 4 * 33

unfoldable pub closing : List Key → Closing
closing keys = close_loop (close_rounds keys) (push_all keys []) []

unfoldable pub close_permission_set : List Key → List Key
close_permission_set keys = (closing keys).result

unfoldable pub sorted_insert : Key → List Key → List Key
sorted_insert k [] = k ∷ []
sorted_insert k (j ∷ js) =
    let rest = sorted_insert k js in
    if ltb (text_rank j) (text_rank k) then j ∷ rest else k ∷ (j ∷ js)

-- `sort()`
unfoldable pub sorted : List Key → List Key
sorted [] = []
sorted (k ∷ ks) = sorted_insert k (sorted ks)

unfoldable pub missing_permission_dependencies : List Key → List Key
missing_permission_dependencies keys =
    sorted (keep (λ k. not (has keys k)) (close_permission_set keys))

-- `next.delete(key)`
unfoldable pub delete : Key → List Key → List Key
delete key = keep (λ k. not (same_key k key))

-- The loop over `[...next]` that unticks whatever needs the key.
unfoldable pub without_dependents : Key → List Key → List Key
without_dependents key = keep (λ candidate. not (has (close_permission_set (candidate ∷ [])) key))

unfoldable pub next_selection : List Key → Key → Bool → List Key
next_selection selected key checked =
    if checked
    then close_permission_set (key ∷ []) ++ selected
    else without_dependents key (delete key selected)

unfoldable pub toggle_permission : List Key → Key → Bool → List Key
toggle_permission selected key checked =
    keep (has (next_selection selected key checked)) grantable_permission_keys
