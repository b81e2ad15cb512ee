-- ===== src/Auth/Active.antt =====
-- The tokens of a session family that still work
-- (apps/api/src/modules/auth/session.service.ts).
use mathlib.Core.Path.{subst}
use item_lending_management.Prelude.{
  ==-refl, ==_iff, All, Bool, Bool-cases, List, Option, Text, [], ap, arith, false, find,
  if◌then◌else◌, inl, inr, none, not, refl, some, suc, sym, true, ℕ, ◌&&◌, ◌++◌, ◌+◌, ◌==◌, ◌∙◌,
  ◌∷◌, ◌≡◌, ◌≤◌,
}
use item_lending_management.Failure.{if-false, if-true, ok, ok-injective}
use item_lending_management.Auth.{
  IssuedToken, RefreshToken, RevokeReason, SessionFamily, Sessions, User, in_family,
  is_active_token, is_within_grace_window, issue, mark_rotated, renew, retire_active,
  reuse_detected, revoke_families, revoke_family, rotate_checked, token_retired, token_revoked,
  token_rotated, update_where, user_deactivated,
}

-- How many of a family's tokens are active.
abbrev pub active_count : ℕ → List RefreshToken → ℕ
active_count family_id [] = 0
active_count family_id (t ∷ ts) =
    let rest = active_count family_id ts in
    if in_family family_id t && is_active_token t then suc rest else rest

active_count-append :
    (f : ℕ) (xs ys : List RefreshToken)
    → active_count f (xs ++ ys) ≡ active_count f xs + active_count f ys
active_count-append f [] ys = omega arith
active_count-append f (t ∷ xs) ys = elim (Bool-cases (in_family f t && is_active_token t)) [
  | inl e ↦ rw e (omega (arith, active_count-append f xs ys))
  | inr e ↦ rw e (active_count-append f xs ys)
]

-- An update that leaves every token in its family and makes none active adds no active token.
active_count-update :
    (f : ℕ) (p : RefreshToken → Bool) (change : RefreshToken → RefreshToken)
    (ts : List RefreshToken)
    → ((t : RefreshToken) → is_active_token (change t) ≡ false)
    → active_count f (update_where p change ts) ≤ active_count f ts
active_count-update f p change [] h = omega arith
active_count-update f p change (t ∷ ts) h =
    let ih = active_count-update f p change ts h in
    let k = h t in
    elim (Bool-cases (p t)) [
      | inl e ↦ rw e (ground (arith, ih, k))
      | inr e ↦ rw e (ground (arith, ih))
    ]

-- The last step of an update by id: a token of the family that was active no longer is.
mark_rotated-count :
    (f k now : ℕ) (ts : List RefreshToken) {c : RefreshToken}
    → find (λ (t : RefreshToken). t.id == k) ts ≡ some c
    → (in_family f c && is_active_token c) ≡ true
    → suc (active_count f (mark_rotated k now ts)) ≤ active_count f ts
mark_rotated-count f k now [] h e = cc
mark_rotated-count f k now (t ∷ ts) {c} h e = elim (Bool-cases (t.id == k)) [
  | inl i ↦
      let q : some t ≡ some c = sym (if-true (t.id == k) _ _ i) ∙ h in
      let e' : (in_family f t && is_active_token t) ≡ true =
        ap
          (λ (x : Option RefreshToken). elim x [
            | none ↦ true
            | some y ↦ in_family f y && is_active_token y
          ])
          q
        ∙ e in
      let ih =
        active_count-update f (λ (x : RefreshToken). x.id == k)
          (λ (x : RefreshToken). record x { status = token_rotated; rotated_at = some now }) ts
          (λ x. refl) in
      rw (i, e') (ground (arith, ih))
  | inr i ↦
      let ih = mark_rotated-count f k now ts (sym (if-false (t.id == k) _ _ i) ∙ h) e in
      rw i (ground (arith, ih))
]

retire_active-count :
    (f now : ℕ) (ts : List RefreshToken) → active_count f (retire_active f now ts) ≡ 0
retire_active-count f now [] = refl
retire_active-count f now (t ∷ ts) = elim (Bool-cases (in_family f t && is_active_token t)) [
  | inl e ↦ rw e (ground (arith, retire_active-count f now ts))
  | inr e ↦ rw (e, e) (retire_active-count f now ts)
]

pub revoke_families-count :
    (f now : ℕ) (ids : List ℕ) (reason : RevokeReason) (s : Sessions)
    → active_count f (revoke_families ids now reason s).tokens ≤ active_count f s.tokens
unfolding revoke_families
revoke_families-count f now [] reason s = omega arith
revoke_families-count f now (id ∷ ids) reason s =
    active_count-update f _ (λ (t : RefreshToken). record t { status = token_revoked }) s.tokens
      (λ t. refl)

issue-count :
    (hash_token : Text → Text) (value : Text) (f now : ℕ) (family : SessionFamily) (s : Sessions)
    → active_count f (issue hash_token value now family s).0.tokens
      ≡ active_count f s.tokens + (if family.id == f then 1 else 0)
unfolding issue
issue-count hash_token value f now family s = active_count-append f s.tokens _ ∙ ground arith

-- No family has two active tokens.
abbrev pub OneActive : Sessions → Type 0
OneActive s = (f : ℕ) → active_count f s.tokens ≤ 1

renew_mark-OneActive :
    (hash_token : Text → Text) (value : Text) (now : ℕ) (current : RefreshToken)
    (family : SessionFamily) (s : Sessions)
    → find (λ (t : RefreshToken). t.id == current.id) s.tokens ≡ some current
    → current.family_id ≡ family.id
    → is_active_token current ≡ true
    → OneActive s
    → OneActive (renew hash_token value now family (mark_rotated current.id now s.tokens) s).0
renew_mark-OneActive hash_token value now current family s hc hf ha one f =
    let o = one f in
    let n =
      active_count-update f (λ (x : RefreshToken). x.id == current.id)
        (λ (x : RefreshToken). record x { status = token_rotated; rotated_at = some now }) s.tokens
        (λ x. refl) in
    rw (issue-count hash_token value f now family _) (elim (Bool-cases (family.id == f)) [
      | inl e ↦
          let m = mark_rotated-count f current.id now s.tokens hc (rw (hf, e) ha) in
          rw e (omega (arith, m, o))
      | inr e ↦ rw e (omega (arith, n, o))
    ])

renew_retire-OneActive :
    (hash_token : Text → Text) (value : Text) (now : ℕ) (family : SessionFamily) (s : Sessions)
    → OneActive s
    → OneActive (renew hash_token value now family (retire_active family.id now s.tokens) s).0
renew_retire-OneActive hash_token value now family s one f =
    let o = one f in
    let n =
      active_count-update f (λ (t : RefreshToken). in_family family.id t && is_active_token t)
        (λ (x : RefreshToken). record x { status = token_retired; rotated_at = some now }) s.tokens
        (λ x. refl) in
    rw (issue-count hash_token value f now family _) (elim (Bool-cases (family.id == f)) [
      | inl e ↦
          let q : family.id ≡ f = (==_iff family.id f).0 e in
          let z = retire_active-count family.id now s.tokens in
          rw (← q, z, ==-refl family.id) (omega arith)
      | inr e ↦ rw e (omega (arith, n, o))
    ])

-- What the primary key of `refresh_tokens` gives: a token is found by its id.
abbrev pub TokensById : Sessions → Type 0
TokensById s =
    All (λ (t : RefreshToken). find (λ (u : RefreshToken). u.id == t.id) s.tokens ≡ some t) s.tokens

pub rotate_checked-OneActive :
    (hash_token : Text → Text) (value : Text) (now : ℕ) (ip : Text) (current : RefreshToken)
    (family : SessionFamily) (user : User) (s : Sessions) {s' : Sessions} {r : Option IssuedToken}
    → find (λ (t : RefreshToken). t.id == current.id) s.tokens ≡ some current
    → current.family_id ≡ family.id
    → OneActive s
    → rotate_checked hash_token value now ip current family user s ≡ ok (s', r)
    → OneActive s'
unfolding rotate_checked revoke_family
rotate_checked-OneActive hash_token value now ip current family user s {s'} {r} hc hf one h =
    elim (Bool-cases (not user.is_active)) [
      | inl e ↦
          let q = ok-injective (sym (if-true (not user.is_active) _ _ e) ∙ h) in
          subst OneActive (ap (λ (x : Sessions × Option IssuedToken). x.0) q) (λ f.
            let o = one f in
            let c = revoke_families-count f now (family.id ∷ []) user_deactivated s in
            omega (arith, c, o))
      | inr e ↦
          let h₁ = sym (if-false (not user.is_active) _ _ e) ∙ h in
          elim (Bool-cases (is_active_token current)) [
            | inl a ↦
                let q = ok-injective (sym (if-true (is_active_token current) _ _ a) ∙ h₁) in
                subst OneActive (ap (λ (x : Sessions × Option IssuedToken). x.0) q)
                  (renew_mark-OneActive hash_token value now current family s hc hf a one)
            | inr a ↦
                let h₂ = sym (if-false (is_active_token current) _ _ a) ∙ h₁ in
                let grace = is_within_grace_window current now s in
                elim (Bool-cases grace) [
                  | inl g ↦
                      let q = ok-injective (sym (if-true grace _ _ g) ∙ h₂) in
                      subst OneActive (ap (λ (x : Sessions × Option IssuedToken). x.0) q)
                        (renew_retire-OneActive hash_token value now family s one)
                  | inr g ↦
                      let q = ok-injective (sym (if-false grace _ _ g) ∙ h₂) in
                      subst OneActive (ap (λ (x : Sessions × Option IssuedToken). x.0) q) (λ f.
                        let o = one f in
                        let c = revoke_families-count f now (family.id ∷ []) reuse_detected s in
                        omega (arith, c, o))
                ]
          ]
    ]
