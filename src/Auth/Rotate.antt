-- ===== src/Auth/Rotate.antt =====
-- What a refresh does to the sessions (apps/api/src/modules/auth/session.service.ts).
use mathlib.Core.Path.{subst}
use item_lending_management.Prelude.{
  ==_iff, Bool, Bool-cases, List, Option, Option-cases, Text, [], ap, arith, find, find-All,
  find-holds, inl, inr, ltb, none, same_text, some, sym, ℕ, ◌-◌, ◌==◌, ◌∙◌, ◌∷◌, ◌≡◌,
}
use item_lending_management.Failure.{
  >>=-eq-ok, Failure, Result, caller_bug, if-false, if-true, ok, ok-injective, or_throw, ◌>>=◌,
}
use item_lending_management.Auth.{
  IssuedToken, RefreshToken, RevokeReason, SessionFamily, Sessions, User, expired, idle, on_token,
  revoke_families, revoke_family, rotate, rotate_checked, rotate_found, rotate_locked,
  session_idle_ms,
}
use item_lending_management.Auth.Active.{
  OneActive, TokensById, revoke_families-count, rotate_checked-OneActive,
}

or_throw-found {ℓ} :
    {A : Type ℓ} (e : Failure) (m : Option A) {v : A} → or_throw e m ≡ ok v → m ≡ some v
or_throw-found e none h = cc
or_throw-found e (some v) h = cc

keep-OneActive :
    (now : ℕ) (ids : List ℕ) (reason : RevokeReason) (s : Sessions)
    → OneActive s
    → OneActive (revoke_families ids now reason s)
keep-OneActive now ids reason s one f =
    let o = one f in let c = revoke_families-count f now ids reason s in omega (arith, c, o)

rotate_locked-OneActive :
    (hash_token : Text → Text) (value : Text) (now : ℕ) (ip : Text) (current : RefreshToken)
    (family : SessionFamily) (s : Sessions) {s' : Sessions} {r : Option IssuedToken}
    → find (λ (t : RefreshToken). t.id == current.id) s.tokens ≡ some current
    → current.family_id ≡ family.id
    → OneActive s
    → rotate_locked hash_token value now ip current family s ≡ ok (s', r)
    → OneActive s'
unfolding rotate_locked revoke_family
rotate_locked-OneActive hash_token value now ip current family s {s'} {r} hc hf one h =
    let late = expired now current family in
    let unused = ltb session_idle_ms (now - family.last_used_at) in
    elim (Bool-cases late) [
      | inl e ↦
          subst OneActive
            (ap (λ (x : Sessions × Option IssuedToken). x.0)
              (ok-injective (sym (if-true late _ _ e) ∙ h)))
            one
      | inr e ↦
          let h₁ = sym (if-false late _ _ e) ∙ h in
          elim (Bool-cases unused) [
            | inl i ↦
                subst OneActive
                  (ap (λ (x : Sessions × Option IssuedToken). x.0)
                    (ok-injective (sym (if-true unused _ _ i) ∙ h₁)))
                  (keep-OneActive now (family.id ∷ []) idle s one)
            | inr i ↦
                let (user, hu, h₂) =
                  >>=-eq-ok
                    (or_throw caller_bug (find (λ (u : User). u.id == family.user_id) s.users))
                    (λ found. rotate_checked hash_token value now ip current family found s)
                    (sym (if-false unused _ _ i) ∙ h₁) in
                rotate_checked-OneActive hash_token value now ip current family user s hc hf one h₂
          ]
    ]

rotate_found-OneActive :
    (hash_token : Text → Text) (value : Text) (now : ℕ) (ip : Text) (token : RefreshToken)
    (s : Sessions) {s' : Sessions} {r : Option IssuedToken}
    → find (λ (t : RefreshToken). t.id == token.id) s.tokens ≡ some token
    → OneActive s
    → rotate_found hash_token value now ip token s ≡ ok (s', r)
    → OneActive s'
unfolding rotate_found
rotate_found-OneActive hash_token value now ip token s by_id one h =
    let (family, hf, k) =
      >>=-eq-ok
        (or_throw caller_bug (find (λ (f : SessionFamily). f.id == token.family_id) s.families)) _
        h in
    let k' =
      sym (
        ap
          (λ (x : Option RefreshToken). or_throw caller_bug x >>= λ current.
            rotate_locked hash_token value now ip current family s)
          by_id)
      ∙ k in
    let in_it : family.id ≡ token.family_id = (==_iff family.id token.family_id).0 (
      find-holds (λ (f : SessionFamily). f.id == token.family_id) s.families
        (or_throw-found _ _ hf)) in
    rotate_locked-OneActive hash_token value now ip token family s by_id (sym in_it) one k'

-- If no family has two active tokens and a token is found by its id, then after any refresh that
-- gives an answer, a new token or a refusal, no family has two active tokens.
pub rotate-OneActive :
    (hash_token : Text → Text) (value : Text) (now : ℕ) (presented ip : Text) (s : Sessions)
    {s' : Sessions} {r : Option IssuedToken}
    → TokensById s
    → OneActive s
    → rotate hash_token value now presented ip s ≡ ok (s', r)
    → OneActive s'
unfolding rotate
rotate-OneActive hash_token value now presented ip s {s'} {r} ids one h =
    let p : RefreshToken → Bool = λ t. same_text t.token_hash (hash_token presented) in
    let next : RefreshToken → Result (Sessions × Option IssuedToken) =
      λ token. rotate_found hash_token value now ip token s in
    elim (Option-cases (find p s.tokens)) [
      | inl e ↦
          let q = sym (ap (λ (x : Option RefreshToken). on_token x next s) e) ∙ h in
          subst OneActive (ap (λ (x : Sessions × Option IssuedToken). x.0) (ok-injective q)) one
      | inr (token, e) ↦
          let q = sym (ap (λ (x : Option RefreshToken). on_token x next s) e) ∙ h in
          rotate_found-OneActive hash_token value now ip token s
            (find-All
              (λ (t : RefreshToken). find (λ (u : RefreshToken). u.id == t.id) s.tokens ≡ some t) p
              s.tokens e ids)
            one q
    ]
