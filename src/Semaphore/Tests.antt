-- ===== src/Semaphore/Tests.antt =====
-- A run of the semaphore of apps/api/src/common/utils/semaphore.ts with one permit.
use item_lending_management.Prelude.{[], includes, refl, true, ◌∷◌, ◌≡◌}
use item_lending_management.Semaphore.{
  IsSound, Reachable, Semaphore, SemaphoreOptions, acquire, after, arrives, at_rest, ends,
  idle_semaphore, release,
}
use item_lending_management.Semaphore.Sound.{Reachable-IsSound}

abbrev options : SemaphoreOptions
options = record { permits = 1; max_queue = 1 }

abbrev two_called : Semaphore
two_called = acquire options 8 (acquire options 7 idle_semaphore)

full_test :
    acquire options 9 two_called
    ≡ record { active = 1; queue = 8 ∷ []; inside = 7 ∷ []; refused = 9 ∷ [] }
unfolding acquire
full_test = refl

handed_over_test :
    release 7 two_called ≡ record { active = 1; queue = []; inside = 8 ∷ []; refused = [] }
unfolding acquire release
handed_over_test = refl

inside_test : includes 7 two_called.inside ≡ true
unfolding acquire
inside_test = refl

handed_over : Reachable options (release 7 two_called)
handed_over =
    after two_called (release 7 two_called)
      (after (acquire options 7 idle_semaphore) two_called
        (after idle_semaphore (acquire options 7 idle_semaphore) at_rest (arrives 7 idle_semaphore))
        (arrives 8 (acquire options 7 idle_semaphore)))
      (ends 7 two_called inside_test)

Reachable-IsSound_example : IsSound options (release 7 two_called)
Reachable-IsSound_example = Reachable-IsSound options handed_over
