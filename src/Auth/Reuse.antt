-- ===== src/Auth/Reuse.antt =====
-- What a reused token does to its session (apps/api/src/modules/auth/session.service.ts).
use mathlib.Core.Path.{subst}
use item_lending_management.Prelude.{
  ==-refl, ==_iff, All, All-mono, Bool, Bool-cases, List, Text, [], ap, arith, false, find,
  find-holds, inl, inr, leb, ltb, none, refl, same_text, some, sym, true, ℕ, ◌++◌, ◌-◌, ◌<◌, ◌==◌,
  ◌∙◌, ◌∷◌, ◌≡◌, ◌≢◌, ◌≤◌, ◌⊎◌,
}
use item_lending_management.Failure.{ok}
use item_lending_management.Auth.{
  RefreshToken, SessionFamily, Sessions, User, expired, is_active_token, is_live,
  is_within_grace_window, reuse_detected, reused, revoke_families, revoke_family,
  revoke_family_rows, revoke_token_rows, rotate, rotate_checked, rotate_found, rotate_locked,
  session_idle_ms, session_reuse_detected,
}
use item_lending_management.Auth.Active.{active_count}

revoke_token_rows-count :
    (f : ℕ) (ts : List RefreshToken) → active_count f (revoke_token_rows (f ∷ []) ts) ≡ 0
revoke_token_rows-count f [] = refl
revoke_token_rows-count f (t ∷ ts) = let ih = revoke_token_rows-count f ts in ground (arith, ih)

abbrev pub with_id : ℕ → SessionFamily → Bool
with_id k f = f.id == k

abbrev pub revoked_for_reuse : ℕ → SessionFamily → SessionFamily
revoked_for_reuse now f = record f { revoked_at = some now; revoked_reason = some reuse_detected }

revoke_family_rows-find :
    (k now : ℕ) (fs : List SessionFamily) {family : SessionFamily}
    → find (with_id k) fs ≡ some family
    → is_live family ≡ true
    → find (with_id k) (revoke_family_rows (k ∷ []) now reuse_detected fs)
      ≡ some (revoked_for_reuse now family)
revoke_family_rows-find k now [] h live = cc
revoke_family_rows-find k now (f ∷ fs) {family} h live = elim (Bool-cases (f.id == k)) [
  | inl e ↦
      let found : some f ≡ some family = rw e at h in
      let same : f ≡ family = cc in
      let live' : is_live f ≡ true = ap is_live same ∙ live in
      rw (e, live', e) (ap (λ x. some (revoked_for_reuse now x)) same)
  | inr e ↦
      let found : find (with_id k) fs ≡ some family = rw e at h in
      rw (e, e) (revoke_family_rows-find k now fs found live)
]

abbrev HasId : List RefreshToken → RefreshToken → Type 0
HasId ts t = (c : RefreshToken) × (find (λ (u : RefreshToken). u.id == t.id) ts ≡ some c)

HasId-later : (t u : RefreshToken) (ts : List RefreshToken) → HasId ts u → HasId (t ∷ ts) u
HasId-later t u ts (c, h) = elim (Bool-cases (t.id == u.id)) [
  | inl e ↦ (t, rw e refl)
  | inr e ↦ (c, rw e h)
]

-- Some row has the id of each row.
HasId-self : (ts : List RefreshToken) → All (HasId ts) ts
HasId-self [] = tt
HasId-self (t ∷ ts) = (
  (t, rw (==-refl t.id) refl),
  All-mono (HasId ts) (HasId (t ∷ ts)) ts (λ u. HasId-later t u ts) (HasId-self ts),
)

-- A token of a family that is revoked is refused, whatever its own state, and changes nothing.
revoked_refused :
    (hash_token : Text → Text) (value : Text) (now : ℕ) (ip : Text) (t c : RefreshToken)
    (family : SessionFamily) (s : Sessions)
    → find (with_id t.family_id) s.families ≡ some family
    → is_live family ≡ false
    → find (λ (u : RefreshToken). u.id == t.id) s.tokens ≡ some c
    → rotate_found hash_token value now ip t s ≡ ok (s, none)
unfolding rotate_found rotate_locked
revoked_refused hash_token value now ip t c family s f dead e = rw (f, e, dead) refl

refused_of :
    (hash_token : Text → Text) (value : Text) (now : ℕ) (ip : Text) (k : ℕ) (t : RefreshToken)
    (family : SessionFamily) (s : Sessions)
    → find (with_id k) s.families ≡ some family
    → is_live family ≡ false
    → HasId s.tokens t
    → (t.family_id ≢ k) ⊎ (rotate_found hash_token value now ip t s ≡ ok (s, none))
refused_of hash_token value now ip k t family s f dead (c, e) =
    elim (Bool-cases (t.family_id == k)) [
      | inr other ↦ inl (λ q. cc ((==_iff t.family_id k).1 q))
      | inl same ↦ inr (
          revoked_refused hash_token value now ip t c family s
            (ap (λ i. find (with_id i) s.families) ((==_iff t.family_id k).0 same) ∙ f) dead e)
    ]

-- If a token is presented whose session is live, in time and in use and whose user is active, and
-- the token is not active, nor the one rotated last within the grace window, then the refresh is
-- refused: the session is revoked with the reuse as the reason, none of its tokens is active any
-- more, and the reuse is the last event of the history. From then on a refresh with any token of
-- the session is refused at every time, and changes nothing.
pub rotate-reuse :
    (hash_token : Text → Text) (value : Text) (now : ℕ) (presented ip : Text) (token : RefreshToken)
    (family : SessionFamily) (user : User) (s : Sessions)
    → find (λ (t : RefreshToken). same_text t.token_hash (hash_token presented)) s.tokens
      ≡ some token
    → find (λ (t : RefreshToken). t.id == token.id) s.tokens ≡ some token
    → find (λ (f : SessionFamily). f.id == token.family_id) s.families ≡ some family
    → find (λ (u : User). u.id == family.user_id) s.users ≡ some user
    → family.revoked_at ≡ none
    → now < family.absolute_expires_at
    → now < token.expires_at
    → now - family.last_used_at ≤ session_idle_ms
    → user.is_active ≡ true
    → is_active_token token ≡ false
    → is_within_grace_window token now s ≡ false
    → (s' : Sessions) × (rotate hash_token value now presented ip s ≡ ok (s', none))
      × (find (λ (f : SessionFamily). f.id == token.family_id) s'.families
          ≡ some (record family { revoked_at = some now; revoked_reason = some reuse_detected }))
      × (active_count token.family_id s'.tokens ≡ 0)
      × (s'.history
          ≡ s.history ++ session_reuse_detected family.id family.user_id user.username ip ∷ [])
      × ((value' ip' : Text) (later : ℕ)
          → All
              (λ (t : RefreshToken).
                (t.family_id ≢ token.family_id)
                ⊎ (rotate_found hash_token value' later ip' t s' ≡ ok (s', none)))
              s'.tokens)
unfolding rotate rotate_found rotate_locked rotate_checked revoke_family revoke_families
rotate-reuse hash_token value now presented ip token family user s ht hi hf hu live in_time unspent
      used active spent late =
    let in_it : family.id ≡ token.family_id =
      (==_iff family.id token.family_id).0
        (find-holds (λ (f : SessionFamily). f.id == token.family_id) s.families hf) in
    let s' = reused now ip family user s in
    let is_live' : is_live family ≡ true = rw live refl in
    let not_expired : expired now token family ≡ false =
      let a : leb family.absolute_expires_at now ≡ false = ground arith in
      let b : leb token.expires_at now ≡ false = ground arith in rw (is_live', a, b) refl in
    let not_idle : ltb session_idle_ms (now - family.last_used_at) ≡ false = ground arith in
    let revoked : find (with_id token.family_id) s'.families ≡ some (revoked_for_reuse now family) =
      subst
        (λ k.
          find (with_id token.family_id) (revoke_family_rows (k ∷ []) now reuse_detected s.families)
          ≡ some (revoked_for_reuse now family))
        (sym in_it) (revoke_family_rows-find token.family_id now s.families hf is_live') in
    (
      s',
      rw (ht, hf, hi, not_expired, not_idle, hu, active, spent, late) refl,
      revoked,
      rw (← in_it) (revoke_token_rows-count family.id s.tokens),
      refl,
      λ value' ip' later.
          All-mono (HasId s'.tokens) _ s'.tokens
            (λ t h.
              refused_of hash_token value' later ip' token.family_id t
                (revoked_for_reuse now family) s' revoked refl h)
            (HasId-self s'.tokens),
    )
