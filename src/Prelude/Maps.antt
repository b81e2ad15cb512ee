-- ===== src/Prelude/Maps.antt =====
-- A JavaScript `Map` keyed by numbers: an association list in insertion order, where `set` on a key
-- that is there overwrites in place.
use Prim.Native.Nat.{ℕ}
use mathlib.Core.Path.{◌≡◌, refl}
use mathlib.Core.Option.{Option, none, some}
use mathlib.Core.List.{List, [], ◌∷◌}
use native.Mathlib.Omega.{arith}
use item_lending_management.Prelude.Tests.{if◌then◌else◌, ◌==◌}

abbrev pub Dict {ℓ} : Type ℓ → Type ℓ
Dict V = List (ℕ × V)

module _ {ℓ} {V : Type ℓ} where
  -- `m.get(k)`
  abbrev pub lookup : ℕ → Dict V → Option V
  lookup k [] = none
  lookup k ((j, v) ∷ d) = let rest = lookup k d in if k == j then some v else rest

  -- `m.set(k, v)`
  abbrev pub insert : ℕ → V → Dict V → Dict V
  insert k v [] = (k, v) ∷ []
  insert k v ((j, w) ∷ d) = let rest = insert k v d in if k == j then (k, v) ∷ d else (j, w) ∷ rest

  -- `new Map(entries)`: the entries set one after the other.
  abbrev pub from_entries : List (ℕ × V) → Dict V → Dict V
  from_entries [] d = d
  from_entries ((k, v) ∷ es) d = from_entries es (insert k v d)

  -- `m.get(k) ?? d`
  abbrev pub get_or : Option V → V → V
  get_or none d = d
  get_or (some v) d = v

  pub lookup-insert :
      (j k : ℕ) (v : V) (d : Dict V)
      → lookup j (insert k v d) ≡ (if j == k then some v else lookup j d)
  lookup-insert j k v [] = refl
  lookup-insert j k v ((i, w) ∷ d) = ground (arith, lookup-insert j k v d)

  pub lookup-insert_self : (k : ℕ) (v : V) (d : Dict V) → lookup k (insert k v d) ≡ some v
  lookup-insert_self k v d = ground (arith, lookup-insert k k v d)
