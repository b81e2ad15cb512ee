-- ===== src/Semaphore.antt =====
-- apps/api/src/common/utils/semaphore.ts: a counting semaphore with a bounded queue and a bounded
-- wait. A piece of work is known by a number; its life is a sequence of steps of the semaphore.
use item_lending_management.Prelude.{
  List, [], if◌then◌else◌, includes, leb, length, ltb, true, ℕ, ◌++◌, ◌+◌, ◌-◌, ◌==◌, ◌∷◌, ◌≡◌, ◌≢◌,
  ◌≤◌,
}
pub mod Sound
mod Tests

-- `SemaphoreOptions`, less the length of the wait, which only says when a timer may fire.
pub record SemaphoreOptions : Type 0 where
  pub permits : ℕ
  pub max_queue : ℕ

-- `active` and `queue`, and beside them what the callers see: who is inside its work, and who was
-- refused.
pub record Semaphore : Type 0 where
  pub active : ℕ
  pub queue : List ℕ
  pub inside : List ℕ
  pub refused : List ℕ

abbrev pub idle_semaphore : Semaphore
idle_semaphore = record { active = 0; queue = []; inside = []; refused = [] }

unfoldable pub acquire : SemaphoreOptions → ℕ → Semaphore → Semaphore
acquire options caller s =
    if ltb s.active options.permits
    then record s { active = s.active + 1; inside = caller ∷ s.inside }
    else if leb options.max_queue (length s.queue)
    then record s { refused = caller ∷ s.refused }
    else record s { queue = s.queue ++ caller ∷ [] }

-- One place of a caller taken out.
abbrev pub leave : ℕ → List ℕ → List ℕ
leave caller [] = []
leave caller (w ∷ ws) = let rest = leave caller ws in if w == caller then ws else w ∷ rest

-- The timer of a waiting caller: out of the queue and refused.
unfoldable pub time_out : ℕ → Semaphore → Semaphore
time_out caller s = record s { queue = leave caller s.queue; refused = caller ∷ s.refused }

-- `this.queue.shift()`, which is given the slot, or the slot is freed.
abbrev pub hand_over : List ℕ → Semaphore → Semaphore
hand_over [] s = record s { active = s.active - 1 }
hand_over (next ∷ rest) s = record s { queue = rest; inside = next ∷ s.inside }

unfoldable pub release : ℕ → Semaphore → Semaphore
release caller s = hand_over s.queue (record s { inside = leave caller s.inside })

-- What can happen to a semaphore, in any order that the callers allow: a call comes in, a waiter's
-- timer fires, work ends.
pub data Step (options : SemaphoreOptions) : Semaphore → Semaphore → Type 0 where
  arrives : (caller : ℕ) (s : Semaphore) → Step options s (acquire options caller s)
  times_out :
      (caller : ℕ) (s : Semaphore)
      → includes caller s.queue ≡ true
      → Step options s (time_out caller s)
  ends :
      (caller : ℕ) (s : Semaphore)
      → includes caller s.inside ≡ true
      → Step options s (release caller s)

pub data Reachable (options : SemaphoreOptions) : Semaphore → Type 0 where
  at_rest : Reachable options idle_semaphore
  after : (s t : Semaphore) → Reachable options s → Step options s t → Reachable options t

-- The permits are kept to, the queue's bound too, `active` counts who is inside, and nobody waits
-- while a slot is free.
pub record IsSound (options : SemaphoreOptions) (s : Semaphore) : Type 0 where
  pub counted : s.active ≡ length s.inside
  pub permitted : s.active ≤ options.permits
  pub bounded : length s.queue ≤ options.max_queue
  pub busy : (s.queue ≢ []) → s.active ≡ options.permits
