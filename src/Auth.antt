-- ===== src/Auth.antt =====
-- apps/api/src/modules/auth/session.service.ts: families of refresh tokens with rotation, a grace
-- window and the detection of reuse. `hash_token` (SHA-256) and the random value of a new token are
-- arguments; a family's identifier, a UUID of the database's, is a number.
use Prim.Native.Nat.{min}
use item_lending_management.Prelude.{
  Bool, List, Option, Text, [], false, find, if◌then◌else◌, includes, keep, leb, length, ltb, map,
  none, not, same_text, some, suc, take, true, ℕ, ◌&&◌, ◌*◌, ◌++◌, ◌+◌, ◌-◌, ◌==◌, ◌||◌, ◌∷◌,
}
use item_lending_management.Failure.{Result, caller_bug, ok, or_throw, ◌>>=◌}
pub mod Active
pub mod Rotate
pub mod Reuse
pub mod Throttle
mod Tests

-- `REFRESH_SLIDING_MS`, `SESSION_ABSOLUTE_MS`, `SESSION_IDLE_MS`, `REFRESH_GRACE_MS` of
-- auth.constants.ts, with the minutes of packages/shared/src/constants.ts
abbrev pub refresh_sliding_ms : ℕ
refresh_sliding_ms = 14 * (24 * (60 * (60 * 1000)))

abbrev pub session_absolute_ms : ℕ
session_absolute_ms = 30 * (24 * (60 * (60 * 1000)))

abbrev pub session_idle_ms : ℕ
session_idle_ms = 15 * (60 * 1000) + 15 * (60 * 1000)

abbrev pub refresh_grace_ms : ℕ
refresh_grace_ms = 30 * 1000

pub data TokenStatus : Type 0 where
  token_active token_rotated token_retired token_revoked : TokenStatus

pub data RevokeReason : Type 0 where
  logout logout_all reuse_detected password_changed password_reset : RevokeReason
  user_deactivated idle : RevokeReason

pub record RefreshToken : Type 0 where
  pub id : ℕ
  pub family_id : ℕ
  pub token_hash : Text
  pub status : TokenStatus
  pub expires_at : ℕ
  pub rotated_at : Option ℕ
  pub created_at : ℕ

pub record SessionFamily : Type 0 where
  pub id : ℕ
  pub user_id : ℕ
  pub absolute_expires_at : ℕ
  pub created_ip : Text
  pub user_agent : Option Text
  pub last_used_at : ℕ
  pub revoked_at : Option ℕ
  pub revoked_reason : Option RevokeReason

pub record User : Type 0 where
  pub id : ℕ
  pub username : Text
  pub is_active : Bool
  pub token_version : ℕ

pub data SessionEvent : Type 0 where
  session_reuse_detected : ℕ → ℕ → Text → Text → SessionEvent
  logout_all_done : ℕ → Text → ℕ → SessionEvent

pub record Sessions : Type 0 where
  pub users : List User
  pub families : List SessionFamily
  pub tokens : List RefreshToken
  pub next_family_id : ℕ
  pub next_token_id : ℕ
  pub history : List SessionEvent

pub record IssuedToken : Type 0 where
  pub value : Text
  pub expires_at : ℕ
  pub family_id : ℕ
  pub max_age_ms : ℕ

abbrev pub is_active_token : RefreshToken → Bool
is_active_token t = elim t.status [ token_active ↦ true | _ ↦ false ]

abbrev pub is_rotated_token : RefreshToken → Bool
is_rotated_token t = elim t.status [ token_rotated ↦ true | _ ↦ false ]

abbrev pub is_revoked_token : RefreshToken → Bool
is_revoked_token t = elim t.status [ token_revoked ↦ true | _ ↦ false ]

-- `updateMany({ where, data })`
abbrev pub update_where {ℓ} : {A : Type ℓ} → (A → Bool) → (A → A) → List A → List A
update_where p change [] = []
update_where p change (x ∷ xs) =
    let rest = update_where p change xs in if p x then change x ∷ rest else x ∷ rest

abbrev pub in_family : ℕ → RefreshToken → Bool
in_family family_id t = t.family_id == family_id

-- The database stamps `created_at` itself; its clock is taken to be the server's.
unfoldable pub issue : (Text → Text) → Text → ℕ → SessionFamily → Sessions → Sessions × IssuedToken
issue hash_token value now family s =
    let expires_at = min (now + refresh_sliding_ms) family.absolute_expires_at in
    (
      record s {
        tokens =
            s.tokens
            ++ record {
              id = s.next_token_id;
              family_id = family.id;
              token_hash = hash_token value;
              status = token_active;
              expires_at = expires_at;
              rotated_at = none;
              created_at = now;
            }
              ∷ [];
        next_token_id = suc s.next_token_id;
      },
      record {
        value = value;
        expires_at = expires_at;
        family_id = family.id;
        max_age_ms = expires_at - now;
      },
    )

-- `userAgent?.slice(0, 255) ?? null`
abbrev pub sliced : Option Text → Option Text
sliced none = none
sliced (some agent) = some (take 255 agent)

abbrev pub new_family : ℕ → ℕ → Text → Option Text → ℕ → SessionFamily
new_family now user_id ip user_agent id = record {
  id = id;
  user_id = user_id;
  absolute_expires_at = now + session_absolute_ms;
  created_ip = ip;
  user_agent = sliced user_agent;
  last_used_at = now;
  revoked_at = none;
  revoked_reason = none;
}

unfoldable pub create_family :
    (Text → Text) → Text → ℕ → ℕ → Text → Option Text → Sessions → Sessions × IssuedToken
create_family hash_token value now user_id ip user_agent s =
    let family = new_family now user_id ip user_agent s.next_family_id in
    issue hash_token value now family
      (record s { families = s.families ++ family ∷ []; next_family_id = suc s.next_family_id })

abbrev pub is_live : SessionFamily → Bool
is_live f = elim f.revoked_at [ none ↦ true | some _ ↦ false ]

abbrev pub revoke_family_rows : List ℕ → ℕ → RevokeReason → List SessionFamily → List SessionFamily
revoke_family_rows family_ids now reason =
    update_where (λ (f : SessionFamily). includes f.id family_ids && is_live f)
      (λ (f : SessionFamily). record f { revoked_at = some now; revoked_reason = some reason })

abbrev pub revoke_token_rows : List ℕ → List RefreshToken → List RefreshToken
revoke_token_rows family_ids =
    update_where (λ (t : RefreshToken). includes t.family_id family_ids && not (is_revoked_token t))
      (λ (t : RefreshToken). record t { status = token_revoked })

unfoldable pub revoke_families : List ℕ → ℕ → RevokeReason → Sessions → Sessions
revoke_families [] now reason s = s
revoke_families (id ∷ ids) now reason s = record s {
  families = revoke_family_rows (id ∷ ids) now reason s.families;
  tokens = revoke_token_rows (id ∷ ids) s.tokens;
}

unfoldable pub revoke_family : ℕ → ℕ → RevokeReason → Sessions → Sessions
revoke_family family_id = revoke_families (family_id ∷ [])

-- The later rotation, the later row on a tie; a missing time sorts first, as the database does.
abbrev pub rotated_before : RefreshToken → RefreshToken → Bool
rotated_before t u = elim t.rotated_at [
  | none ↦ false
  | some a ↦ elim u.rotated_at [
    | none ↦ true
    | some b ↦ ltb a b || (a == b && ltb t.created_at u.created_at)
  ]
]

abbrev pub newest_of : RefreshToken → List RefreshToken → RefreshToken
newest_of t [] = t
newest_of t (u ∷ us) = if rotated_before t u then newest_of u us else newest_of t us

-- `newest?.id === token.id` for the `newest` of `findFirst`
abbrev pub is_newest : RefreshToken → List RefreshToken → Bool
is_newest token [] = false
is_newest token (t ∷ ts) = (newest_of t ts).id == token.id

abbrev pub within_grace : RefreshToken → ℕ → Bool
within_grace token now = elim token.rotated_at [
  | none ↦ false
  | some rotated_at ↦ not (ltb refresh_grace_ms (now - rotated_at))
]

unfoldable pub is_within_grace_window : RefreshToken → ℕ → Sessions → Bool
is_within_grace_window token now s =
    is_rotated_token token
    && within_grace token now
    && is_newest token
        (keep (λ (t : RefreshToken). in_family token.family_id t && is_rotated_token t) s.tokens)

-- Both branches that give a new token: the old ones are set aside, the family is used, and a token
-- is issued.
abbrev pub renew :
    (Text → Text) → Text → ℕ → SessionFamily → List RefreshToken → Sessions → Sessions × IssuedToken
renew hash_token value now family tokens s = issue hash_token value now family (record s {
  tokens = tokens;
  families =
      update_where (λ (f : SessionFamily). f.id == family.id)
        (λ (f : SessionFamily). record f { last_used_at = now }) s.families;
})

abbrev pub mark_rotated : ℕ → ℕ → List RefreshToken → List RefreshToken
mark_rotated id now =
    update_where (λ (t : RefreshToken). t.id == id)
      (λ (t : RefreshToken). record t { status = token_rotated; rotated_at = some now })

abbrev pub retire_active : ℕ → ℕ → List RefreshToken → List RefreshToken
retire_active family_id now =
    update_where (λ (t : RefreshToken). in_family family_id t && is_active_token t)
      (λ (t : RefreshToken). record t { status = token_retired; rotated_at = some now })

abbrev pub accepted : Sessions × IssuedToken → Result (Sessions × Option IssuedToken)
accepted (s, token) = ok (s, some token)

-- The reuse: the family revoked, and the event written.
abbrev pub reused : ℕ → Text → SessionFamily → User → Sessions → Sessions
reused now ip family user s =
    let revoked = revoke_family family.id now reuse_detected s in
    record revoked {
      history =
          revoked.history ++ session_reuse_detected family.id family.user_id user.username ip ∷ [];
    }

-- `rotate` behind the checks of times: the token is spent, or replaced in the window, or reused.
unfoldable pub rotate_checked :
    (Text → Text)
    → Text
    → ℕ
    → Text
    → RefreshToken
    → SessionFamily
    → User
    → Sessions
    → Result (Sessions × Option IssuedToken)
rotate_checked hash_token value now ip current family user s =
    if not user.is_active
    then ok (revoke_family family.id now user_deactivated s, none)
    else if is_active_token current
    then accepted (renew hash_token value now family (mark_rotated current.id now s.tokens) s)
    else if is_within_grace_window current now s
    then accepted (renew hash_token value now family (retire_active family.id now s.tokens) s)
    else ok (reused now ip family user s, none)

abbrev pub expired : ℕ → RefreshToken → SessionFamily → Bool
expired now current family =
    not (is_live family) || (leb family.absolute_expires_at now || leb current.expires_at now)

unfoldable pub rotate_locked :
    (Text → Text)
    → Text
    → ℕ
    → Text
    → RefreshToken
    → SessionFamily
    → Sessions
    → Result (Sessions × Option IssuedToken)
rotate_locked hash_token value now ip current family s =
    let user = or_throw caller_bug (find (λ (u : User). u.id == family.user_id) s.users) in
    if expired now current family
    then ok (s, none)
    else if ltb session_idle_ms (now - family.last_used_at)
    then ok (revoke_family family.id now idle s, none)
    else user >>= λ found. rotate_checked hash_token value now ip current family found s

unfoldable pub rotate_found :
    (Text → Text)
    → Text
    → ℕ
    → Text
    → RefreshToken
    → Sessions
    → Result (Sessions × Option IssuedToken)
rotate_found hash_token value now ip token s = do
  family ← or_throw caller_bug (find (λ (f : SessionFamily). f.id == token.family_id) s.families)
  current ← or_throw caller_bug (find (λ (t : RefreshToken). t.id == token.id) s.tokens)
  rotate_locked hash_token value now ip current family s

abbrev pub on_token :
    Option RefreshToken
    → (RefreshToken → Result (Sessions × Option IssuedToken))
    → Sessions
    → Result (Sessions × Option IssuedToken)
on_token none next s = ok (s, none)
on_token (some token) next s = next token

unfoldable pub rotate :
    (Text → Text) → Text → ℕ → Text → Text → Sessions → Result (Sessions × Option IssuedToken)
rotate hash_token value now presented ip s =
    on_token (find (λ (t : RefreshToken). same_text t.token_hash (hash_token presented)) s.tokens)
      (λ token. rotate_found hash_token value now ip token s) s

unfoldable pub revoke_all_families : ℕ → ℕ → RevokeReason → Sessions → Sessions × ℕ
revoke_all_families user_id now reason s =
    let families = keep (λ (f : SessionFamily). f.user_id == user_id && is_live f) s.families in
    (revoke_families (map (λ (f : SessionFamily). f.id) families) now reason s, length families)

unfoldable pub logout_everywhere : ℕ → User → Sessions → Sessions
logout_everywhere now user s =
    let (revoked, families) = revoke_all_families user.id now logout_all s in
    record revoked {
      users =
          update_where (λ (u : User). u.id == user.id)
            (λ (u : User). record u { token_version = suc u.token_version }) revoked.users;
      history = revoked.history ++ logout_all_done user.id user.username families ∷ [];
    }

-- The family of a presented token; its lock is taken before it is returned.
unfoldable pub lock_family_by_token : (Text → Text) → Text → Sessions → Option SessionFamily
lock_family_by_token hash_token presented s =
    elim (find (λ (t : RefreshToken). same_text t.token_hash (hash_token presented)) s.tokens) [
      | none ↦ none
      | some token ↦ find (λ (f : SessionFamily). f.id == token.family_id) s.families
    ]
