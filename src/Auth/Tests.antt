-- ===== src/Auth/Tests.antt =====
-- Refreshes of a session of apps/api/src/modules/auth/session.service.ts.
use item_lending_management.Prelude.{
  All, Text, [], arith, false, find, none, refl, some, true, ℕ, ◌++◌, ◌==◌, ◌∷◌, ◌≡◌, ◌≢◌, ◌⊎◌,
}
use item_lending_management.Failure.{ok}
use item_lending_management.Auth.{
  IssuedToken, RefreshToken, SessionFamily, Sessions, User, is_within_grace_window, issue,
  new_family, reuse_detected, rotate, rotate_checked, rotate_found, rotate_locked,
  session_reuse_detected, token_active, token_rotated,
}
use item_lending_management.Auth.Active.{OneActive, active_count}
use item_lending_management.Auth.Rotate.{rotate-OneActive}
use item_lending_management.Auth.Reuse.{rotate-reuse}
use item_lending_management.Auth.Throttle.{
  LoginThrottle, Throttled, account_throttle_duration_ms, count_failure, counted, counted-lock,
  fresh_row, lockout_duration_minutes, lockout_duration_ms, minutes, register_failure,
}

abbrev same : Text → Text
same t = t

abbrev user : User
user = record { id = 3; username = 97 ∷ []; is_active = true; token_version = 0 }

abbrev family : SessionFamily
family = new_family 1000 3 (49 ∷ []) none 1

abbrev first_token : RefreshToken
first_token = record {
  id = 1;
  family_id = 1;
  token_hash = 10 ∷ [];
  status = token_active;
  expires_at = 500000;
  rotated_at = none;
  created_at = 1000;
}

abbrev sessions : Sessions
sessions = record {
  users = user ∷ [];
  families = family ∷ [];
  tokens = first_token ∷ [];
  next_family_id = 2;
  next_token_id = 2;
  history = [];
}

abbrev second_token : RefreshToken
second_token = record {
  id = 2;
  family_id = 1;
  token_hash = 11 ∷ [];
  status = token_active;
  expires_at = 1209602000;
  rotated_at = none;
  created_at = 2000;
}

abbrev spent : RefreshToken
spent = record first_token { status = token_rotated; rotated_at = some 2000 }

abbrev refreshed : Sessions
refreshed = record {
  users = user ∷ [];
  families = record family { last_used_at = 2000 } ∷ [];
  tokens = spent ∷ second_token ∷ [];
  next_family_id = 2;
  next_token_id = 3;
  history = [];
}

abbrev issued : IssuedToken
issued = record { value = 11 ∷ []; expires_at = 1209602000; family_id = 1; max_age_ms = 1209600000 }

rotate_test : rotate same (11 ∷ []) 2000 (10 ∷ []) (49 ∷ []) sessions ≡ ok (refreshed, some issued)
unfolding rotate rotate_found rotate_locked rotate_checked issue
rotate_test = refl

one_active : OneActive sessions
one_active f = ground arith

rotate-OneActive_example : OneActive refreshed
rotate-OneActive_example =
    rotate-OneActive same (11 ∷ []) 2000 (10 ∷ []) (49 ∷ []) sessions (refl, tt) one_active
      rotate_test

late_test : is_within_grace_window spent 32001 refreshed ≡ false
unfolding is_within_grace_window
late_test = refl

abbrev Reused : ℕ → Text → Text → RefreshToken → SessionFamily → User → Sessions → Type 0
Reused now presented ip token family user s =
    (s' : Sessions) × (rotate same (12 ∷ []) now presented ip s ≡ ok (s', none))
    × (find (λ (f : SessionFamily). f.id == token.family_id) s'.families
        ≡ some (record family { revoked_at = some now; revoked_reason = some reuse_detected }))
    × (active_count token.family_id s'.tokens ≡ 0)
    × (s'.history
        ≡ s.history ++ session_reuse_detected family.id family.user_id user.username ip ∷ [])
    × ((value' ip' : Text) (later : ℕ)
        → All
            (λ (t : RefreshToken).
              (t.family_id ≢ token.family_id)
              ⊎ (rotate_found same value' later ip' t s' ≡ ok (s', none)))
            s'.tokens)

rotate-reuse_example :
    Reused 32001 (10 ∷ []) (49 ∷ []) spent (record family { last_used_at = 2000 }) user refreshed
rotate-reuse_example =
    rotate-reuse same (12 ∷ []) 32001 (10 ∷ []) (49 ∷ []) spent
      (record family { last_used_at = 2000 }) user refreshed refl refl refl refl refl (omega arith)
      (omega arith) (omega arith) refl refl late_test

lockout_duration_minutes_example :
    (lockout_duration_ms 3 ≡ minutes 8) × (account_throttle_duration_ms 3 ≡ minutes 40)
lockout_duration_minutes_example = lockout_duration_minutes 3

abbrev four_failures : LoginThrottle
four_failures = record (fresh_row (49 ∷ []) (97 ∷ []) 1000) { failure_count = 4 }

locked_test :
    (register_failure 2000 four_failures (four_failures ∷ [])).1
    ≡ record { locked_ms = some 60000; lockout_count = 1 }
unfolding register_failure count_failure counted lockout_duration_ms
locked_test = refl

counted-lock_example : Throttled 2000 four_failures
counted-lock_example = counted-lock 2000 four_failures (omega arith)
