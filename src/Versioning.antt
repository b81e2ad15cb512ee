-- ===== src/Versioning.antt =====
-- apps/api/src/common/utils/versioning.ts, the optimistic concurrency that every edit goes by, and
-- `safeProduct` of apps/api/src/common/utils/money.ts.
use item_lending_management.Prelude.{
  Bool, List, Option, Text, [], false, if◌then◌else◌, leb, none, not, same_text, some, true, ℕ, ◌*◌,
  ◌==◌, ◌∷◌,
}
use item_lending_management.Failure.{
  Result, api, err, ok, throw_if, validation_failed, version_conflict,
}
use item_lending_management.Domain.{max_safe}

unfoldable pub assert_version : ℕ → ℕ → Result (Unit {0})
assert_version stored_version expected_version =
    throw_if (not (stored_version == expected_version)) (api (version_conflict stored_version))

-- `fields.filter(…)`: each field with whether the body names it with another value.
abbrev pub changed_fields {ℓ} : {F : Type ℓ} → List (F × Bool) → List F
changed_fields [] = []
changed_fields ((field, differs) ∷ rest) =
    let fields = changed_fields rest in if differs then field ∷ fields else fields

-- `body[field] !== undefined && body[field] !== current[field]`
abbrev pub named_otherwise {ℓ} : {A : Type ℓ} → (A → A → Bool) → Option A → A → Bool
named_otherwise same none current = false
named_otherwise same (some value) current = not (same value current)

abbrev pub same_note : Option Text → Option Text → Bool
same_note none none = true
same_note (some s) (some t) = same_text s t
same_note _ _ = false

unfoldable pub safe_product : ℕ → ℕ → Result ℕ
safe_product quantity price =
    if not (leb (quantity * price) max_safe)
    then err (api validation_failed)
    else ok (quantity * price)
