-- ===== src/Permissions/Selection.antt =====
-- What the closure promises its callers: the check that the API makes of a stored set, and the
-- selection that a click on a checkbox of the web app leaves.
use item_lending_management.Prelude.{
  Bool, Bool-cases, List, [], ap, arith, false, inl, inr, keep, not, refl, true, ◌++◌, ◌↔◌, ◌∷◌,
  ◌≡◌, ◌≢◌, ◌⊎◌,
}
use item_lending_management.Permissions.Keys.{
  Key, grantable_permission_keys, has, permission_dependencies, same_key,
}
use item_lending_management.Permissions.Close.{
  close_permission_set, delete, missing_permission_dependencies, next_selection, sorted,
  sorted_insert, toggle_permission, without_dependents,
}
use mathlib.Core.Path.{subst}
use item_lending_management.Permissions.KeyFacts.{
  grantable_permission_keys-all, has-cons, has-head, same_key_sound,
}
use item_lending_management.Permissions.Closure.{
  IsClosed, close_permission_set-IsClosed, close_permission_set-has, close_permission_set_least,
}

-- The set of a list of keys.
abbrev pub Holds : List Key → Key → Type 0
Holds keys k = has keys k ≡ true

has-keep :
    (p : Key → Bool) (ks : List Key) (k : Key)
    → (has (keep p ks) k ≡ true) ↔ ((has ks k ≡ true) × (p k ≡ true))
has-keep p [] k = (λ h. cc, λ h. h.0)
has-keep p (j ∷ js) k = elim (Bool-cases (same_key j k)) [
  | inl e ↦ let q : p j ≡ p k = ap p (same_key_sound j k e) in ground (arith, has-keep p js k)
  | inr e ↦ ground (arith, has-keep p js k)
]

sorted_insert_nonempty : (k : Key) (ks : List Key) → sorted_insert k ks ≢ []
unfolding sorted_insert
sorted_insert_nonempty k [] = ground arith
sorted_insert_nonempty k (j ∷ js) = ground arith

sorted_nil : (ks : List Key) → (sorted ks ≡ []) ↔ (ks ≡ [])
unfolding sorted
sorted_nil [] = (λ h. h, λ h. h)
sorted_nil (k ∷ ks) = (λ h. absurd (sorted_insert_nonempty k (sorted ks) h), λ h. cc)

has-append :
    (xs ys : List Key) (k : Key)
    → (has (xs ++ ys) k ≡ true) ↔ ((has xs k ≡ true) ⊎ (has ys k ≡ true))
has-append [] ys k = ground arith
has-append (x ∷ xs) ys k =
    let (there, back) = has-append xs ys k in
    (
      λ h. elim ((has-cons x k (xs ++ ys)).0 h) [
        | inl e ↦ inl ((has-cons x k xs).1 (inl e))
        | inr m ↦ elim (there m) [ inl a ↦ inl ((has-cons x k xs).1 (inr a)) | inr b ↦ inr b ]
      ],
      λ h. (has-cons x k (xs ++ ys)).1 (elim h [
        | inl a ↦ elim ((has-cons x k xs).0 a) [ inl e ↦ inl e | inr m ↦ inr (back (inl m)) ]
        | inr b ↦ inr (back (inr b))
      ]),
    )

-- No key of a filtered set is left exactly when every key fails the test.
keep_none :
    (p : Key → Bool) (ks : List Key) → ((k : Key) → has ks k ≡ true → p k ≡ false) → keep p ks ≡ []
keep_none p [] h = refl
keep_none p (k ∷ ks) h =
    rw (h k (has-head k ks)) (keep_none p ks (λ j m. h j ((has-cons k j ks).1 (inr m))))

keep_only :
    (p : Key → Bool) (ks : List Key) → keep p ks ≡ [] → (k : Key) → has ks k ≡ true → p k ≡ false
keep_only p ks h k m = elim (Bool-cases (p k)) [
  | inl e ↦
      let q : has (keep p ks) k ≡ true = (has-keep p ks k).1 (m, e) in
      absurd (let r : has [] k ≡ true = subst (λ l. has l k ≡ true) h q in cc)
  | inr e ↦ e
]

not_missing : (keys : List Key) (k : Key) → not (has keys k) ≡ false → has keys k ≡ true
not_missing keys k h = ground arith

-- The closure of a set of keys has the set itself and is closed under the implication table; every
-- closed set that has those keys has the whole closure.
pub close_permission_set_least_closed :
    (keys : List Key)
    → ((k : Key) → Holds keys k → Holds (close_permission_set keys) k)
      × IsClosed (Holds (close_permission_set keys))
      × ((P : Key → Type 0)
          → IsClosed P
          → ((k : Key) → Holds keys k → P k)
          → (k : Key) → Holds (close_permission_set keys) k
          → P k)
close_permission_set_least_closed keys = (
  close_permission_set-has keys,
  close_permission_set-IsClosed keys,
  λ P closed h k m. close_permission_set_least keys P closed h k m,
)

-- Nothing is missing from a set of keys exactly when the set is closed under the implication table.
pub missing_permission_dependencies_nil :
    (keys : List Key) → (missing_permission_dependencies keys ≡ []) ↔ IsClosed (Holds keys)
unfolding missing_permission_dependencies
missing_permission_dependencies_nil keys = (
  λ h k d kin din. not_missing keys d (
      keep_only (λ j. not (has keys j)) (close_permission_set keys)
        ((sorted_nil (keep (λ j. not (has keys j)) (close_permission_set keys))).0 h) d
        (close_permission_set-IsClosed keys k d (close_permission_set-has keys k kin) din)),
  λ closed. (sorted_nil (keep (λ j. not (has keys j)) (close_permission_set keys))).1 (
      keep_none (λ j. not (has keys j)) (close_permission_set keys)
        (λ k m. ap not (close_permission_set_least keys (Holds keys) closed (λ j n. n) k m))),
)

toggle_permission-has :
    (selected : List Key) (key : Key) (checked : Bool) (k : Key)
    → Holds (toggle_permission selected key checked) k
      ↔ Holds (next_selection selected key checked) k
unfolding toggle_permission
toggle_permission-has selected key checked k =
    let (there, back) =
      has-keep (has (next_selection selected key checked)) grantable_permission_keys k in
    (λ h. (there h).1, λ h. back (grantable_permission_keys-all k, h))

-- The keys that need a key, itself included.
abbrev Needs : Key → Key → Type 0
Needs key k = Holds (close_permission_set (k ∷ [])) key

Needs-self : (k : Key) → Needs k k
Needs-self k = close_permission_set-has (k ∷ []) k (has-head k [])

-- A key needs all that the keys it implies need.
Needs-through :
    (key k d : Key) → has (permission_dependencies k) d ≡ true → Needs key d → Needs key k
Needs-through key k d din h =
    close_permission_set_least (d ∷ []) (Holds (close_permission_set (k ∷ [])))
      (close_permission_set-IsClosed (k ∷ []))
      (λ j m. elim ((has-cons d j []).0 m) [
        | inl same ↦
            subst (Holds (close_permission_set (k ∷ []))) same
              (close_permission_set-IsClosed (k ∷ []) k d (Needs-self k) din)
        | inr none_left ↦ absurd (let r : has [] j ≡ true = none_left in cc)
      ])
      key h

iff_trans {ℓ κ μ} : {A : Type ℓ} {B : Type κ} {C : Type μ} → A ↔ B → B ↔ C → A ↔ C
iff_trans f g = (λ a. g.0 (f.0 a), λ c. f.1 (g.1 c))

not_iff : (b : Bool) → (not b ≡ true) ↔ ¬ (b ≡ true)
not_iff b = ground arith

-- Closedness depends on the elements only.
IsClosed_of_iff : (P Q : Key → Type 0) → ((k : Key) → Q k ↔ P k) → IsClosed P → IsClosed Q
IsClosed_of_iff P Q same closed k d q din = (same d).1 (closed k d ((same k).0 q) din)

next_selection-tick :
    (selected : List Key) (key k : Key)
    → Holds (next_selection selected key true) k ↔ (Needs k key ⊎ Holds selected k)
unfolding next_selection
next_selection-tick selected key k = has-append (close_permission_set (key ∷ [])) selected k

next_selection-untick :
    (selected : List Key) (key k : Key)
    → Holds (next_selection selected key false) k ↔ (Holds selected k × ¬ (Needs key k))
unfolding next_selection without_dependents delete
next_selection-untick selected key k =
    let dependents = λ (c : Key). not (has (close_permission_set (c ∷ [])) key) in
    let (there, back) = has-keep dependents (keep (λ c. not (same_key c key)) selected) k in
    let (in_selected, deleted) = has-keep (λ c. not (same_key c key)) selected k in
    (
      λ h.
          let (left, free) = there h in
          ((in_selected left).0, (not_iff (has (close_permission_set (k ∷ [])) key)).0 free),
      λ h. back (
        deleted (
          h.0,
          (not_iff (same_key k key)).1
              (λ e. h.1 (subst (λ j. Needs j k) (same_key_sound k key e) (Needs-self k))),
        ),
        (not_iff (has (close_permission_set (k ∷ [])) key)).1 h.1,
      ),
    )

-- Ticking a key of a closed selection leaves a closed selection that has the key, and unticking one
-- leaves a closed selection that does not.
pub toggle_permission-IsClosed :
    (selected : List Key) (key : Key) (checked : Bool)
    → IsClosed (Holds selected)
    → IsClosed (Holds (toggle_permission selected key checked))
      × (has (toggle_permission selected key checked) key ≡ checked)
toggle_permission-IsClosed selected key true closed =
    let same = λ (k : Key).
      iff_trans (toggle_permission-has selected key true k) (next_selection-tick selected key k) in
    (
      IsClosed_of_iff (λ k. Needs k key ⊎ Holds selected k)
          (Holds (toggle_permission selected key true)) same
          (λ k d h din. elim h [
            | inl n ↦ inl (close_permission_set-IsClosed (key ∷ []) k d n din)
            | inr m ↦ inr (closed k d m din)
          ]),
      (same key).1 (inl (Needs-self key)),
    )
toggle_permission-IsClosed selected key false closed =
    let same = λ (k : Key).
      iff_trans (toggle_permission-has selected key false k)
        (next_selection-untick selected key k) in
    (
      IsClosed_of_iff (λ k. Holds selected k × ¬ (Needs key k))
          (Holds (toggle_permission selected key false)) same
          (λ k d h din. (closed k d h.0 din, λ n. h.1 (Needs-through key k d din n))),
      elim (Bool-cases (has (toggle_permission selected key false) key)) [
        | inl e ↦ absurd (((same key).0 e).1 (Needs-self key))
        | inr e ↦ e
      ],
    )
