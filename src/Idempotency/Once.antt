-- ===== src/Idempotency/Once.antt =====
-- That a creation request of apps/api/src/modules/idempotency/idempotency.service.ts happens once.
use item_lending_management.Prelude.{
  ==-refl, Bool, Bool-cases, List, Option, [], any, ap, arith, false, find, inl, inr, leb, none,
  refl, same_text_refl, some, sym, true, ℕ, ◌++◌, ◌+◌, ◌<◌, ◌||◌, ◌∙◌, ◌∷◌, ◌≡◌, ◌≢◌,
}
use item_lending_management.Failure.{
  Result, Result-cases, api, caller_bug, err, idempotency_key_taken, if-false, if-true, ok,
  ok-injective, out_quantity_negative, owed_negative, unknown_order_line, unsafe_integer,
}
use item_lending_management.Idempotency.{
  Ending, IdempotentRequest, IdempotentResult, Keyed, committed, creating, find_stored, is_row_of,
  on_found, on_replay, on_store, on_winner, on_work, run, settle, store, stored_replay, stored_row,
  thrown, ttl_ms,
}

find-append_none {ℓ} :
    {A : Type ℓ} (p : A → Bool) (xs : List A) (x : A)
    → any p xs ≡ false
    → p x ≡ true
    → find p (xs ++ x ∷ []) ≡ some x
find-append_none p [] x h e = rw e refl
find-append_none p (y ∷ xs) x h e = elim (Bool-cases (p y)) [
  | inl t ↦ absurd (let c : true ≡ false = sym (ap (λ (b : Bool). b || any p xs) t) ∙ h in cc)
  | inr f ↦ rw f (find-append_none p xs x (sym (ap (λ (b : Bool). b || any p xs) f) ∙ h) e)
]

module _ {B : Type 0} {R : Type 0} where
  -- If a key is stored and the time is before the row's expiry, the same request finds that answer.
  store-find_stored :
      (now later : ℕ) (request : IdempotentRequest) (body : B) (db : Keyed B R) {db' : Keyed B R}
      → later < now + ttl_ms
      → store now request body db ≡ ok db'
      → find_stored later request db' ≡ ok (db', some body)
  unfolding store find_stored
  store-find_stored now later request body db {db'} lt h =
      let free = any (is_row_of request) db.keys in
      elim (Bool-cases free) [
        | inl t ↦ absurd (let c = sym (if-true free _ _ t) ∙ h in cc)
        | inr f ↦
            let e = ok-injective (sym (if-false free _ _ f) ∙ h) in
            let same : is_row_of request (stored_row now request body db.next_key_id) ≡ true =
              rw (==-refl request.user_id) (same_text_refl request.key) in
            let fresh : leb (now + ttl_ms) later ≡ false = ground arith in
            rw
              (
                ← e,
                find-append_none (is_row_of request) db.keys
                    (stored_row now request body db.next_key_id) f same,
                fresh,
                same_text_refl request.request_hash,
              )
              refl
      ]

  store-committed :
      (now : ℕ) (request : IdempotentRequest) (body : B) (db : Keyed B R) {db' : Keyed B R} {b : B}
      → on_store body (store now request body db) ≡ committed db' b
      → store now request b db ≡ ok db'
  store-committed now request body db h = elim (Result-cases (store now request body db)) [
    | inl (e, q) ↦ absurd (let c = sym (ap (on_store body) q) ∙ h in cc)
    | inr (d, q) ↦ let c = sym (ap (on_store body) q) ∙ h in cc
  ]

  creating-committed :
      (now : ℕ) (request : IdempotentRequest) (work : R → Result (R × B)) (db : Keyed B R)
      {db' : Keyed B R} {body : B}
      → creating now request work db ≡ committed db' body
      → (before : Keyed B R) × (store now request body before ≡ ok db')
  unfolding creating
  creating-committed now request work db h = elim (Result-cases (find_stored now request db)) [
    | inl (e, q) ↦ absurd (let c = sym (ap (on_replay now request work) q) ∙ h in cc)
    | inr ((d, some b), q) ↦ absurd (let c = sym (ap (on_replay now request work) q) ∙ h in cc)
    | inr ((d, none), q) ↦
        let c = sym (ap (on_replay now request work) q) ∙ h in
        elim (Result-cases (work d.rows)) [
          | inl (e, w) ↦ absurd (let c' = sym (ap (on_work now request d) w) ∙ c in cc)
          | inr ((rows, b), w) ↦ (
            record d { rows = rows },
            store-committed now request b (record d { rows = rows })
                (sym (ap (on_work now request d) w) ∙ c),
          )
        ]
  ]

  winner-replayed :
      (db : Keyed B R) (r : Result (Keyed B R × Option B)) {db' : Keyed B R} {b : B}
      → on_winner db r ≢ (db', ok (record { body = b; replayed = false }))
  winner-replayed db (err e) h = cc
  winner-replayed db (ok (d, none)) h = cc
  winner-replayed db (ok (d, some w)) h = cc

  settle-committed :
      (now : ℕ) (request : IdempotentRequest) (db : Keyed B R) (ending : Ending B R)
      {db' : Keyed B R} {b : B}
      → settle now request db ending ≡ (db', ok (record { body = b; replayed = false }))
      → ending ≡ committed db' b
  settle-committed now request db (committed d body) h = cc
  settle-committed now request db (stored_replay body) h = cc
  settle-committed now request db (thrown idempotency_key_taken) h =
      absurd (winner-replayed db (find_stored now request db) h)
  settle-committed now request db (thrown (api e)) h = cc
  settle-committed now request db (thrown unsafe_integer) h = cc
  settle-committed now request db (thrown (unknown_order_line l)) h = cc
  settle-committed now request db (thrown (out_quantity_negative l)) h = cc
  settle-committed now request db (thrown owed_negative) h = cc
  settle-committed now request db (thrown caller_bug) h = cc

  -- If a creation request was carried out (its answer is not a replay) and the same request comes
  -- again before the key's row expires, then whatever its transaction would do and whatever other
  -- requests would commit meanwhile, the answer is the first one's, marked as a replay, and the
  -- database is left as it was.
  pub run-replayed :
      (now later : ℕ) (request : IdempotentRequest) (others others' : Keyed B R → Keyed B R)
      (work : R → Result (R × B)) (again : Keyed B R → Ending B R) (db : Keyed B R)
      {db' : Keyed B R} {b : B}
      → run now request others (creating now request work) db
        ≡ (db', ok (record { body = b; replayed = false }))
      → later < now + ttl_ms
      → run later request others' again db' ≡ (db', ok (record { body = b; replayed = true }))
  unfolding run
  run-replayed now later request others others' work again db {db'} {b} h lt =
      elim (Result-cases (find_stored now request db)) [
        | inl (e, q) ↦ absurd (
            let c = sym (ap (on_found now request others (creating now request work) db) q) ∙ h in
            cc)
        | inr ((d, some w), q) ↦ absurd (
            let c = sym (ap (on_found now request others (creating now request work) db) q) ∙ h in
            cc)
        | inr ((d, none), q) ↦
            let c = sym (ap (on_found now request others (creating now request work) db) q) ∙ h in
            let s =
              settle-committed now request (others d) (creating now request work (others d)) c in
            let (before, st) = creating-committed now request work (others d) s in
            ap (on_found later request others' again db')
              (store-find_stored now later request b before lt st)
      ]

  run-waited :
      (now : ℕ) (request : IdempotentRequest) (others : Keyed B R → Keyed B R)
      (work : R → Result (R × B)) (db : Keyed B R) {d d' : Keyed B R} {b : B}
      → find_stored now request db ≡ ok (d, none)
      → find_stored now request (others d) ≡ ok (d', some b)
      → run now request others (creating now request work) db
        ≡ (others d, ok (record { body = b; replayed = true }))
  unfolding run creating
  run-waited now request others work db {d} h h' = rw (h, h') refl

  -- Two submissions of one request overlap: the second comes, is carried out and stores its answer
  -- after the first one's look-up found none and before its transaction has its first lock. Then,
  -- until the stored row expires, the first gives the answer of the second, marked as a replay, and
  -- leaves the database as the second did, whatever its own work would have done.
  pub run-overlapped :
      (now later : ℕ) (request : IdempotentRequest) (work work' : R → Result (R × B))
      (db : Keyed B R) {found db' : Keyed B R} {b : B}
      → find_stored later request db ≡ ok (found, none)
      → run now request (λ d. d) (creating now request work') found
        ≡ (db', ok (record { body = b; replayed = false }))
      → later < now + ttl_ms
      → run later request
          (λ d. (run now request (λ d'. d') (creating now request work') d).0)
          (creating later request work)
          db
        ≡ (db', ok (record { body = b; replayed = true }))
  unfolding run creating
  run-overlapped now later request work work' db {found} {db'} {b} none_yet second lt =
      elim (Result-cases (find_stored now request found)) [
        | inl (e, q) ↦
            absurd (let c = sym (ap (on_found now request same work_of found) q) ∙ second in cc)
        | inr ((d, some w), q) ↦
            absurd (let c = sym (ap (on_found now request same work_of found) q) ∙ second in cc)
        | inr ((d, none), q) ↦
            let c = sym (ap (on_found now request same work_of found) q) ∙ second in
            let (before, st) =
              creating-committed now request work' d
                (settle-committed now request d (work_of d) c) in
            let stored = store-find_stored now later request b before lt st in
            let left = ap (λ (x : Keyed B R × Result (IdempotentResult B)). x.0) second in
            run-waited later request others work db none_yet
              (ap (find_stored later request) left ∙ stored)
            ∙ ap (λ (x : Keyed B R). (x, ok (record { body = b; replayed = true }))) left
      ]
    where
      same : Keyed B R → Keyed B R
      same d = d

      others : Keyed B R → Keyed B R
      others d = (run now request (λ d'. d') (creating now request work') d).0

      work_of : Keyed B R → Ending B R
      work_of = creating now request work'
