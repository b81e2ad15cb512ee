-- ===== src/Auth/Throttle.antt =====
-- apps/api/src/modules/auth/login-throttle.service.ts: failed logins counted per address and
-- username, and per username from all addresses, with the durations of auth.constants.ts.
use native.Mathlib.Numerals.{unary_clauses}
use Prim.Native.Nat.{max, min}
use item_lending_management.Prelude.{
  Bool, List, Option, Text, [], arith, false, find, get_elem?, get_or, if◌then◌else◌, keep, leb,
  length, ltb, none, not, refl, same_text, some, suc, true, zero, ℕ, ◌&&◌, ◌*◌, ◌++◌, ◌+◌, ◌-◌, ◌/◌,
  ◌<◌, ◌^◌, ◌||◌, ◌↔◌, ◌∷◌, ◌≡◌, ◌≢◌, ◌≤◌,
}
use item_lending_management.Auth.{update_where}

abbrev pub login_failure_window_ms : ℕ
login_failure_window_ms = 15 * (60 * 1000)

abbrev pub login_max_failures : ℕ
login_max_failures = 5

abbrev pub lockout_base_ms : ℕ
lockout_base_ms = 60 * 1000

abbrev pub lockout_max_ms : ℕ
lockout_max_ms = 15 * (60 * 1000)

unfoldable pub lockout_duration_ms : ℕ → ℕ
lockout_duration_ms lockout_count = min lockout_max_ms (lockout_base_ms * 2 ^ lockout_count)

-- The address `*`, as its code unit.
abbrev pub account_throttle_ip : Text
account_throttle_ip = 42 ∷ []

abbrev pub account_failure_window_ms : ℕ
account_failure_window_ms = 60 * (60 * 1000)

abbrev pub account_max_failures : ℕ
account_max_failures = 20

abbrev pub account_min_distinct_addresses : ℕ
account_min_distinct_addresses = 3

abbrev pub account_throttle_base_ms : ℕ
account_throttle_base_ms = 5 * (60 * 1000)

abbrev pub account_throttle_max_ms : ℕ
account_throttle_max_ms = 60 * (60 * 1000)

unfoldable pub account_throttle_duration_ms : ℕ → ℕ
account_throttle_duration_ms throttle_count =
    min account_throttle_max_ms (account_throttle_base_ms * 2 ^ throttle_count)

pub record LoginThrottle : Type 0 where
  pub ip : Text
  pub username : Text
  pub failure_count : ℕ
  pub window_started_at : ℕ
  pub locked_until : Option ℕ
  pub lockout_count : ℕ
  pub updated_at : ℕ

-- The lock is given in milliseconds, of which the source reports the minutes.
pub record LockoutResult : Type 0 where
  pub locked_ms : Option ℕ
  pub lockout_count : ℕ

abbrev pub is_pair : Text → Text → LoginThrottle → Bool
is_pair ip username row = same_text row.ip ip && same_text row.username username

abbrev pub fresh_row : Text → Text → ℕ → LoginThrottle
fresh_row ip username now = record {
  ip = ip;
  username = username;
  failure_count = 0;
  window_started_at = now;
  locked_until = none;
  lockout_count = 0;
  updated_at = now;
}

-- `lock`: the row there is, or a new one.
unfoldable pub lock : ℕ → Text → Text → List LoginThrottle → List LoginThrottle × LoginThrottle
lock now ip username rows = elim (find (is_pair ip username) rows) [
  | some row ↦ (rows, row)
  | none ↦ (rows ++ fresh_row ip username now ∷ [], fresh_row ip username now)
]

unfoldable pub is_locked : ℕ → LoginThrottle → Bool
is_locked now row = elim row.locked_until [ none ↦ false | some until ↦ ltb now until ]

-- `Math.ceil(ms / 1000)`, at least 1
abbrev pub whole_seconds : ℕ → ℕ
whole_seconds ms = max 1 ((ms + 999) / 1000)

unfoldable pub retry_after_seconds : ℕ → LoginThrottle → Option ℕ
retry_after_seconds now row = elim row.locked_until [
  | none ↦ none
  | some until ↦ if ltb now until then some (whole_seconds (until - now)) else none
]

abbrev pub window_expired : ℕ → ℕ → LoginThrottle → Bool
window_expired now window_ms row = ltb window_ms (now - row.window_started_at)

abbrev pub next_count : ℕ → ℕ → LoginThrottle → ℕ
next_count now window_ms row = if window_expired now window_ms row then 1 else row.failure_count + 1

-- The row and the answer of `countFailure`.
unfoldable pub counted : ℕ → ℕ → ℕ → (ℕ → ℕ) → Bool → LoginThrottle → LoginThrottle × LockoutResult
counted now window_ms max_failures duration_ms may_lock row =
    let failure_count = next_count now window_ms row in
    if ltb failure_count max_failures || not may_lock
    then (
      record row {
        failure_count = failure_count;
        window_started_at = if window_expired now window_ms row then now else row.window_started_at;
        updated_at = now;
      },
      record { locked_ms = none; lockout_count = row.lockout_count },
    )
    else (
      record row {
        failure_count = 0;
        window_started_at = now;
        locked_until = some (now + duration_ms row.lockout_count);
        lockout_count = suc row.lockout_count;
        updated_at = now;
      },
      record {
        locked_ms = some (duration_ms row.lockout_count);
        lockout_count = suc row.lockout_count;
      },
    )

-- `countFailure`, which updates the row of the pair.
unfoldable pub count_failure :
    ℕ
    → ℕ
    → ℕ
    → (ℕ → ℕ)
    → Bool
    → LoginThrottle
    → List LoginThrottle
    → List LoginThrottle × LockoutResult
count_failure now window_ms max_failures duration_ms may_lock row rows =
    let (updated, result) = counted now window_ms max_failures duration_ms may_lock row in
    (update_where (is_pair row.ip row.username) (λ _. updated) rows, result)

unfoldable pub register_failure :
    ℕ → LoginThrottle → List LoginThrottle → List LoginThrottle × LockoutResult
register_failure now =
    count_failure now login_failure_window_ms login_max_failures lockout_duration_ms true

unfoldable pub lock_account : ℕ → Text → List LoginThrottle → List LoginThrottle × LoginThrottle
lock_account now = lock now account_throttle_ip

abbrev pub is_failing : ℕ → Text → LoginThrottle → Bool
is_failing now username row =
    same_text row.username username
    && not (same_text row.ip account_throttle_ip)
    && ltb now (row.updated_at + account_failure_window_ms)
    && (ltb 0 row.failure_count || elim row.locked_until [ none ↦ false | some _ ↦ true ])

unfoldable pub failing_addresses : ℕ → Text → List LoginThrottle → ℕ
failing_addresses now username rows = length (keep (is_failing now username) rows)

unfoldable pub register_account_failure :
    ℕ → LoginThrottle → List LoginThrottle → List LoginThrottle × LockoutResult
register_account_failure now row rows =
    let addresses = failing_addresses now row.username rows in
    count_failure now account_failure_window_ms account_max_failures account_throttle_duration_ms
      (leb account_min_distinct_addresses addresses) row rows

unfoldable pub clear : Text → Text → List LoginThrottle → List LoginThrottle
clear ip username = keep (λ row. not (is_pair ip username row))

pow_positive : (n : ℕ) → 1 ≤ 2 ^ n
pow_positive zero = omega arith
pow_positive (suc n) =
    let ih = pow_positive n in
    let e : 2 ^ suc n ≡ 2 * 2 ^ n = simp unary_clauses (omega arith) in rw e (omega (arith, ih))

-- A lock lasts at least a minute and at most fifteen, and no shorter than the one before.
pub duration_bounds :
    (n : ℕ)
    → (lockout_base_ms ≤ lockout_duration_ms n)
      × (lockout_duration_ms n ≤ lockout_max_ms)
      × (lockout_duration_ms n ≤ lockout_duration_ms (suc n))
unfolding lockout_duration_ms
duration_bounds n =
    let p = pow_positive n in
    let e : 2 ^ suc n ≡ 2 * 2 ^ n = simp unary_clauses (omega arith) in
    (omega (arith, p), omega (arith, p), rw e (omega (arith, p)))

pow_step : (n : ℕ) → 2 ^ suc n ≡ 2 * 2 ^ n
pow_step n = simp unary_clauses (omega arith)

pow_sixteen : (n : ℕ) → 16 ≤ 2 ^ suc (suc (suc (suc n)))
pow_sixteen n =
    rw (pow_step (suc (suc (suc n))), pow_step (suc (suc n)), pow_step (suc n), pow_step n)
      (omega (arith, pow_positive n))

abbrev pub minutes : ℕ → ℕ
minutes n = n * (60 * 1000)

-- The locks of a pair last 1, 2, 4 and 8 minutes, and every later one 15; those of an account last
-- 5, 10, 20 and 40 minutes, and every later one 60.
pub lockout_duration_minutes :
    (n : ℕ)
    → (lockout_duration_ms n ≡ minutes (get_or (get_elem? (1 ∷ 2 ∷ 4 ∷ 8 ∷ []) n) 15))
      × (account_throttle_duration_ms n ≡ minutes (get_or (get_elem? (5 ∷ 10 ∷ 20 ∷ 40 ∷ []) n) 60))
unfolding lockout_duration_ms account_throttle_duration_ms
lockout_duration_minutes zero = (refl, refl)
lockout_duration_minutes (suc zero) = (refl, refl)
lockout_duration_minutes (suc (suc zero)) = (refl, refl)
lockout_duration_minutes (suc (suc (suc zero))) = (refl, refl)
lockout_duration_minutes (suc (suc (suc (suc n)))) =
    let p = pow_sixteen n in (omega (arith, p), omega (arith, p))

abbrev pub Throttled : ℕ → LoginThrottle → Type 0
Throttled now row =
    let (row', result) =
      counted now login_failure_window_ms login_max_failures lockout_duration_ms true row in
    (row'.failure_count < login_max_failures)
    × ((result.locked_ms ≢ none)
        ↔ ((row.failure_count ≡ 4) × (now - row.window_started_at ≤ login_failure_window_ms)))
    × ((d : ℕ)
        → result.locked_ms ≡ some d
        → (lockout_base_ms ≤ d)
          × (d ≤ lockout_max_ms)
          × ((later : ℕ) → is_locked later row' ≡ ltb later (now + d)))

-- For a pair whose count is below five, a failure leaves the count below five; it locks the pair
-- exactly when it is the fifth within the window, and then the pair is locked at every time from the
-- failure until a minute at least and fifteen minutes at most have passed, and from then on is not.
pub counted-lock :
    (now : ℕ) (row : LoginThrottle) → row.failure_count < login_max_failures → Throttled now row
unfolding counted is_locked
counted-lock now row h =
    let b = duration_bounds row.lockout_count in
    (
      ground (arith, b),
      (λ k. ground (arith), λ k. ground (arith)),
      λ d k. (ground (arith, b), ground (arith, b), λ later. ground arith),
    )
