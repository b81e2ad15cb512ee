-- ===== src/Idempotency.antt =====
-- apps/api/src/modules/idempotency/idempotency.service.ts: creation requests that happen once per
-- key. `B` is the type of an answer's body and `R` the rest of the database. The request's hash and
-- the check of the key's form, which go by SHA-256 and a pattern, are the caller's.
use item_lending_management.Prelude.{
  Bool, List, Option, Text, [], any, false, find, if◌then◌else◌, keep, leb, none, not, same_text,
  some, suc, true, ℕ, ◌&&◌, ◌*◌, ◌++◌, ◌+◌, ◌==◌, ◌∷◌,
}
use item_lending_management.Failure.{
  Failure, Result, api, err, idempotency_key_reused, idempotency_key_taken, ok,
}
pub mod Once

-- `IDEMPOTENCY_TTL_HOURS * HOUR_MS`
abbrev pub ttl_ms : ℕ
ttl_ms = 24 * (60 * 60 * 1000)

pub data IdempotencyScope : Type 0 where
  order_create return_create payment_create pallet_hand_back : IdempotencyScope

pub record IdempotentRequest : Type 0 where
  pub user_id : ℕ
  pub key : Text
  pub scope : IdempotencyScope
  pub request_hash : Text

pub record IdempotentResult (B : Type 0) : Type 0 where
  pub body : B
  pub replayed : Bool

-- A row of `idempotency_keys`.
pub record KeyRow (B : Type 0) : Type 0 where
  pub id : ℕ
  pub user_id : ℕ
  pub key : Text
  pub scope : IdempotencyScope
  pub request_hash : Text
  pub response_status : ℕ
  pub response_body : B
  pub created_at : ℕ
  pub expires_at : ℕ

pub record Keyed (B : Type 0) (R : Type 0) : Type 0 where
  pub keys : List (KeyRow B)
  pub next_key_id : ℕ
  pub rows : R

-- How a creating transaction ends: thrown (and rolled back), the throw that carries a stored answer
-- (`StoredReplay`, rolled back too), or committed.
pub data Ending (B : Type 0) (R : Type 0) : Type 0 where
  thrown : Failure → Ending B R
  stored_replay : B → Ending B R
  committed : Keyed B R → B → Ending B R

-- `where: { userId_key: { userId, key } }`
abbrev pub is_row_of : {B : Type 0} → IdempotentRequest → KeyRow B → Bool
is_row_of request row = row.user_id == request.user_id && same_text row.key request.key

abbrev pub stored_row : {B : Type 0} → ℕ → IdempotentRequest → B → ℕ → KeyRow B
stored_row now request body id = record {
  id = id;
  user_id = request.user_id;
  key = request.key;
  scope = request.scope;
  request_hash = request.request_hash;
  response_status = 201;
  response_body = body;
  created_at = now;
  expires_at = now + ttl_ms;
}

module _ {B : Type 0} {R : Type 0} where
  abbrev pub read_stored :
      ℕ → IdempotentRequest → Keyed B R → Option (KeyRow B) → Result (Keyed B R × Option B)
  read_stored now request db none = ok (db, none)
  read_stored now request db (some row) =
      if leb row.expires_at now
      then ok (record db { keys = keep (λ (k : KeyRow B). not (k.id == row.id)) db.keys }, none)
      else if not (same_text row.request_hash request.request_hash)
      then err (api idempotency_key_reused)
      else ok (db, some row.response_body)

  unfoldable pub find_stored : ℕ → IdempotentRequest → Keyed B R → Result (Keyed B R × Option B)
  find_stored now request db = read_stored now request db (find (is_row_of request) db.keys)

  unfoldable pub store : ℕ → IdempotentRequest → B → Keyed B R → Result (Keyed B R)
  store now request body db =
      if any (is_row_of request) db.keys
      then err idempotency_key_taken
      else ok (record {
        keys = db.keys ++ stored_row now request body db.next_key_id ∷ [];
        next_key_id = suc db.next_key_id;
        rows = db.rows;
      })

  abbrev pub on_store : B → Result (Keyed B R) → Ending B R
  on_store body (err e) = thrown e
  on_store body (ok db) = committed db body

  abbrev pub on_work : ℕ → IdempotentRequest → Keyed B R → Result (R × B) → Ending B R
  on_work now request db (err e) = thrown e
  on_work now request db (ok (rows, body)) =
      on_store body (store now request body (record db { rows = rows }))

  abbrev pub on_replay :
      ℕ → IdempotentRequest → (R → Result (R × B)) → Result (Keyed B R × Option B) → Ending B R
  on_replay now request work (err e) = thrown e
  on_replay now request work (ok (db, some body)) = stored_replay body
  on_replay now request work (ok (db, none)) = on_work now request db (work db.rows)

  -- A creating transaction as the callers write it: `replayIfStored` behind the first lock, the work,
  -- and `store` as the last statement.
  unfoldable pub creating : ℕ → IdempotentRequest → (R → Result (R × B)) → Keyed B R → Ending B R
  creating now request work db = on_replay now request work (find_stored now request db)

  -- `if (winner === null) throw error`, or the winner's answer
  abbrev pub on_winner :
      Keyed B R → Result (Keyed B R × Option B) → Keyed B R × Result (IdempotentResult B)
  on_winner db (err e) = (db, err e)
  on_winner db (ok (db', none)) = (db', err idempotency_key_taken)
  on_winner db (ok (db', some winner)) = (db', ok (record { body = winner; replayed = true }))

  -- The `try` of `run` with its `catch`. The winner is looked up among what is committed before the
  -- transaction; a commit in its midst is not modelled.
  abbrev pub settle :
      ℕ → IdempotentRequest → Keyed B R → Ending B R → Keyed B R × Result (IdempotentResult B)
  settle now request db (committed db' body) = (db', ok (record { body = body; replayed = false }))
  settle now request db (stored_replay body) = (db, ok (record { body = body; replayed = true }))
  settle now request db (thrown idempotency_key_taken) = on_winner db (find_stored now request db)
  settle now request db (thrown e) = (db, err e)

  -- `others` is what other requests commit between the first look-up, which is outside the
  -- transaction, and the transaction's first lock.
  abbrev pub on_found :
      ℕ
      → IdempotentRequest
      → (Keyed B R → Keyed B R)
      → (Keyed B R → Ending B R)
      → Keyed B R
      → Result (Keyed B R × Option B)
      → Keyed B R × Result (IdempotentResult B)
  on_found now request others create db (err e) = (db, err e)
  on_found now request others create db (ok (db', some stored)) =
      (db', ok (record { body = stored; replayed = true }))
  on_found now request others create db (ok (db', none)) =
      settle now request (others db') (create (others db'))

  unfoldable pub run :
      ℕ
      → IdempotentRequest
      → (Keyed B R → Keyed B R)
      → (Keyed B R → Ending B R)
      → Keyed B R
      → Keyed B R × Result (IdempotentResult B)
  run now request others create db =
      on_found now request others create db (find_stored now request db)
