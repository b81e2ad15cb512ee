-- ===== src/Permissions/Closure.antt =====
-- What the loop of `closePermissionSet` computes: it ends, and its result is the least closed set
-- that has the keys it was given.
use mathlib.Core.Path.{subst}
use item_lending_management.Prelude.{
  Bool-cases, List, [], ap, arith, false, inl, inr, keep, length, not, refl, suc, sym, true, zero,
  ℕ, ◌*◌, ◌+◌, ◌<◌, ◌↔◌, ◌∷◌, ◌≡◌, ◌≤◌, ◌⊎◌,
}
use item_lending_management.Permissions.Keys.{
  Key, grantable_permission_keys, has, permission_dependencies, same_key,
}
use item_lending_management.Permissions.KeyFacts.{
  grantable_permission_keys-all, has-cons, has-head, length-permission_dependencies, same_key_comm,
  same_key_refl, same_key_sound,
}
use item_lending_management.Permissions.Close.{
  Closing, close_loop, close_permission_set, close_rounds, closing, push_all, visit,
}

pub has-push_all :
    (xs stack : List Key) (k : Key)
    → (has (push_all xs stack) k ≡ true) ↔ ((has xs k ≡ true) ⊎ (has stack k ≡ true))
unfolding push_all
has-push_all [] stack k = ground arith
has-push_all (x ∷ xs) stack k = ground (arith, has-push_all xs (x ∷ stack) k)

pub length-push_all : (xs stack : List Key) → length (push_all xs stack) ≡ length xs + length stack
unfolding push_all
length-push_all [] stack = omega arith
length-push_all (x ∷ xs) stack = omega (arith, length-push_all xs (x ∷ stack))

-- The keys of a list that a set does not have.
abbrev unseen : List Key → List Key → ℕ
unseen result ks = length (keep (λ k. not (has result k)) ks)

unseen_mono : (key : Key) (result ks : List Key) → unseen (key ∷ result) ks ≤ unseen result ks
unseen_mono key result [] = omega arith
unseen_mono key result (k ∷ ks) = ground (arith, unseen_mono key result ks)

unseen-drops :
    (key : Key) (result ks : List Key)
    → has ks key ≡ true
    → has result key ≡ false
    → unseen (key ∷ result) ks < unseen result ks
unseen-drops key result [] h n = cc
unseen-drops key result (k ∷ ks) h n = elim (Bool-cases (same_key k key)) [
  | inl e ↦
      let q : k ≡ key = same_key_sound k key e in
      rw q (ground (arith, unseen_mono key result ks, same_key_refl key))
  | inr e ↦ ground (arith, unseen-drops key result ks, same_key_comm k key)
]

unseen-all : (ks : List Key) → unseen [] ks ≡ length ks
unseen-all [] = refl
unseen-all (k ∷ ks) = ap suc (unseen-all ks)

visit-old :
    (key : Key) (stack result : List Key)
    → has result key ≡ true
    → visit key stack result ≡ record { stack = stack; result = result }
unfolding visit
visit-old key stack result h = rw h

visit-new :
    (key : Key) (stack result : List Key)
    → has result key ≡ false
    → visit key stack result
      ≡ record { stack = push_all (permission_dependencies key) stack; result = key ∷ result }
unfolding visit
visit-new key stack result h = rw h

module _ (ks : List Key) (complete : (k : Key) → has ks k ≡ true) where
  -- The rounds still to come.
  abbrev work : Closing → ℕ
  work c = length c.stack + 4 * unseen c.result ks

  work-visit :
      (key : Key) (stack result : List Key)
      → work (visit key stack result) < work (record { stack = key ∷ stack; result = result })
  work-visit key stack result = elim (Bool-cases (has result key)) [
    | inl h ↦ rw (visit-old key stack result h) (omega arith)
    | inr h ↦ rw (visit-new key stack result h) (
        omega (
          arith,
          length-push_all (permission_dependencies key) stack,
          length-permission_dependencies key,
          unseen-drops key result ks (complete key) h,
        ))
  ]

  close_loop_ends :
      (fuel : ℕ) (stack result : List Key)
      → work (record { stack = stack; result = result }) ≤ fuel
      → (close_loop fuel stack result).stack ≡ []
  unfolding close_loop
  close_loop_ends zero [] result h = refl
  close_loop_ends zero (key ∷ stack) result h = absurd (omega arith)
  close_loop_ends (suc fuel) [] result h = refl
  close_loop_ends (suc fuel) (key ∷ stack) result h =
      let next = visit key stack result in
      close_loop_ends fuel next.stack next.result (omega (arith, work-visit key stack result))

closing_ends : (keys : List Key) → (closing keys).stack ≡ []
unfolding closing close_rounds
closing_ends keys =
    close_loop_ends grantable_permission_keys grantable_permission_keys-all (length keys + 4 * 33)
      (push_all keys []) []
      (omega (arith, length-push_all keys [], unseen-all grantable_permission_keys))

-- A set that has every key its keys need.
abbrev pub IsClosed : (Key → Type 0) → Type 0
IsClosed P = (k d : Key) → P k → has (permission_dependencies k) d ≡ true → P d

-- What the keys of the result need is in the result, or waits on the stack.
abbrev Pending : Closing → Type 0
Pending c =
    (k d : Key)
    → has c.result k ≡ true
    → has (permission_dependencies k) d ≡ true
    → (has c.result d ≡ true) ⊎ (has c.stack d ≡ true)

-- The key is in the result or waits.
abbrev IsTracked : Key → Closing → Type 0
IsTracked k c = (has c.result k ≡ true) ⊎ (has c.stack k ≡ true)

visit-Pending :
    (key : Key) (stack result : List Key)
    → Pending (record { stack = key ∷ stack; result = result })
    → Pending (visit key stack result)
visit-Pending key stack result h k d kin din = elim (Bool-cases (has result key)) [
  | inl e ↦
      let v = visit-old key stack result e in
      rw v (elim (h k d (rw v at kin) din) [
        | inl r ↦ inl r
        | inr s ↦ elim ((has-cons key d stack).0 s) [
          | inl same ↦ inl (subst (λ x. has result x ≡ true) same e)
          | inr rest ↦ inr rest
        ]
      ])
  | inr e ↦
      let v = visit-new key stack result e in
      let deps = permission_dependencies key in
      rw v (elim ((has-cons key k result).0 (rw v at kin)) [
        | inl same ↦ inr (
            (has-push_all deps stack d).1
              (inl (subst (λ x. has (permission_dependencies x) d ≡ true) (sym same) din)))
        | inr old ↦ elim (h k d old din) [
          | inl r ↦ inl ((has-cons key d result).1 (inr r))
          | inr s ↦ elim ((has-cons key d stack).0 s) [
            | inl same ↦ inl ((has-cons key d result).1 (inl same))
            | inr rest ↦ inr ((has-push_all deps stack d).1 (inr rest))
          ]
        ]
      ])
]

visit-IsTracked :
    (key : Key) (stack result : List Key) (k : Key)
    → IsTracked k (record { stack = key ∷ stack; result = result })
    → IsTracked k (visit key stack result)
visit-IsTracked key stack result k h = elim (Bool-cases (has result key)) [
  | inl e ↦ rw (visit-old key stack result e) (elim h [
    | inl r ↦ inl r
    | inr s ↦ elim ((has-cons key k stack).0 s) [
      | inl same ↦ inl (subst (λ x. has result x ≡ true) same e)
      | inr rest ↦ inr rest
    ]
  ])
  | inr e ↦ rw (visit-new key stack result e) (elim h [
    | inl r ↦ inl ((has-cons key k result).1 (inr r))
    | inr s ↦ elim ((has-cons key k stack).0 s) [
      | inl same ↦ inl ((has-cons key k result).1 (inl same))
      | inr rest ↦ inr ((has-push_all (permission_dependencies key) stack k).1 (inr rest))
    ]
  ])
]

close_loop-Pending :
    (fuel : ℕ) (stack result : List Key)
    → Pending (record { stack = stack; result = result })
    → Pending (close_loop fuel stack result)
unfolding close_loop
close_loop-Pending zero stack result h = h
close_loop-Pending (suc fuel) [] result h = h
close_loop-Pending (suc fuel) (key ∷ stack) result h =
    close_loop-Pending fuel _ _ (visit-Pending key stack result h)

close_loop-IsTracked :
    (fuel : ℕ) (stack result : List Key) (k : Key)
    → IsTracked k (record { stack = stack; result = result })
    → IsTracked k (close_loop fuel stack result)
unfolding close_loop
close_loop-IsTracked zero stack result k h = h
close_loop-IsTracked (suc fuel) [] result k h = h
close_loop-IsTracked (suc fuel) (key ∷ stack) result k h =
    close_loop-IsTracked fuel _ _ k (visit-IsTracked key stack result k h)

-- Everything tracked has a property that goes along the implications.
module _ (P : Key → Type 0) (closed : IsClosed P) where
  abbrev Within : Closing → Type 0
  Within c = (k : Key) → IsTracked k c → P k

  visit-Within :
      (key : Key) (stack result : List Key)
      → Within (record { stack = key ∷ stack; result = result })
      → Within (visit key stack result)
  visit-Within key stack result h k t = elim (Bool-cases (has result key)) [
    | inl e ↦ elim (subst (IsTracked k) (visit-old key stack result e) t) [
      | inl r ↦ h k (inl r)
      | inr s ↦ h k (inr ((has-cons key k stack).1 (inr s)))
    ]
    | inr e ↦
        let here = h key (inr (has-head key stack)) in
        elim (subst (IsTracked k) (visit-new key stack result e) t) [
          | inl r ↦ elim ((has-cons key k result).0 r) [
            | inl same ↦ subst P same here
            | inr old ↦ h k (inl old)
          ]
          | inr s ↦ elim ((has-push_all (permission_dependencies key) stack k).0 s) [
            | inl needed ↦ closed key k here needed
            | inr rest ↦ h k (inr ((has-cons key k stack).1 (inr rest)))
          ]
        ]
  ]

  close_loop-Within :
      (fuel : ℕ) (stack result : List Key)
      → Within (record { stack = stack; result = result })
      → Within (close_loop fuel stack result)
  unfolding close_loop
  close_loop-Within zero stack result h = h
  close_loop-Within (suc fuel) [] result h = h
  close_loop-Within (suc fuel) (key ∷ stack) result h =
      close_loop-Within fuel _ _ (visit-Within key stack result h)

-- The three facts of the closure, for any set of keys.
pub close_permission_set-has :
    (keys : List Key) (k : Key) → has keys k ≡ true → has (close_permission_set keys) k ≡ true
unfolding close_permission_set closing
close_permission_set-has keys k h =
    elim (close_loop-IsTracked (close_rounds keys) (push_all keys []) [] k
      (inr ((has-push_all keys [] k).1 (inl h)))) [
        | inl r ↦ r
        | inr s ↦ absurd (ground (arith, closing_ends keys))
      ]

pub close_permission_set-IsClosed :
    (keys : List Key) → IsClosed (λ k. has (close_permission_set keys) k ≡ true)
unfolding close_permission_set closing
close_permission_set-IsClosed keys k d kin din =
    elim (close_loop-Pending (close_rounds keys) (push_all keys []) [] (λ _ _ r _. cc) k d kin
      din) [ inl r ↦ r | inr s ↦ absurd (ground (arith, closing_ends keys)) ]

pub close_permission_set_least :
    (keys : List Key) (P : Key → Type 0)
    → IsClosed P
    → ((k : Key) → has keys k ≡ true → P k)
    → (k : Key) → has (close_permission_set keys) k ≡ true
    → P k
unfolding close_permission_set closing
close_permission_set_least keys P closed h k kin =
    close_loop-Within P closed (close_rounds keys) (push_all keys []) []
      (λ j t. elim t [
        | inl r ↦ cc
        | inr s ↦ elim ((has-push_all keys [] j).0 s) [ inl m ↦ h j m | inr m ↦ cc ]
      ])
      k (inl kin)
