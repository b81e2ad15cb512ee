-- ===== src/Semaphore/Sound.antt =====
-- What holds of the semaphore of apps/api/src/common/utils/semaphore.ts after any sequence of steps.
use item_lending_management.Prelude.{
  Bool-cases, List, [], ap, arith, false, includes, inl, inr, leb, length, length-append, ltb, refl,
  suc, sym, true, ℕ, ◌<◌, ◌==◌, ◌∙◌, ◌∷◌, ◌≡◌, ◌≢◌, ◌≤◌,
}
use item_lending_management.Semaphore.{
  IsSound, Reachable, Semaphore, SemaphoreOptions, Step, acquire, after, arrives, at_rest, ends,
  hand_over, leave, release, time_out, times_out,
}

leave-length : (c : ℕ) (ws : List ℕ) → includes c ws ≡ true → suc (length (leave c ws)) ≡ length ws
leave-length c [] h = cc
leave-length c (w ∷ ws) h = elim (Bool-cases (w == c)) [
  | inl e ↦ rw e refl
  | inr e ↦
      let f : (c == w) ≡ false = ground arith in
      let h' : includes c ws ≡ true = rw f at h in rw e (omega (arith, leave-length c ws h'))
]

leave_shorter : (c : ℕ) (ws : List ℕ) → length (leave c ws) ≤ length ws
leave_shorter c [] = omega arith
leave_shorter c (w ∷ ws) = ground (arith, leave_shorter c ws)

acquire-IsSound :
    (o : SemaphoreOptions) (c : ℕ) (s : Semaphore) → IsSound o s → IsSound o (acquire o c s)
unfolding acquire
acquire-IsSound o c s i =
    let a = i.counted in
    let b = i.permitted in
    let q = i.bounded in
    elim (Bool-cases (ltb s.active o.permits)) [
      | inl e ↦ rw e (record {
        counted = omega (arith, a);
        permitted = ground (arith, e, b);
        bounded = q;
        busy = λ n. absurd (let k = i.busy n in ground (arith, e, k));
      })
      | inr e ↦ elim (Bool-cases (leb o.max_queue (length s.queue))) [
        | inl f ↦ rw (e, f) (record { counted = a; permitted = b; bounded = q; busy = i.busy })
        | inr f ↦
            rw (e, f)
              (record {
                counted = a;
                permitted = b;
                bounded = rw (length-append s.queue (c ∷ [])) (ground (arith, f));
                busy = λ n. ground (arith, e, b);
              })
      ]
    ]

nonempty : (ws : List ℕ) → (ws ≢ []) → 0 < length ws
nonempty [] h = absurd (h refl)
nonempty (w ∷ ws) h = omega arith

time_out-IsSound :
    (o : SemaphoreOptions) (c : ℕ) (s : Semaphore) → IsSound o s → IsSound o (time_out c s)
unfolding time_out
time_out-IsSound o c s i = record {
  counted = i.counted;
  permitted = i.permitted;
  bounded = let b = i.bounded in let k = leave_shorter c s.queue in omega (arith, b, k);
  busy = λ n. i.busy (λ e. n (ap (leave c) e));
}

hand_over-IsSound :
    (o : SemaphoreOptions) (c : ℕ) (s : Semaphore) (ws : List ℕ)
    → s.queue ≡ ws
    → includes c s.inside ≡ true
    → IsSound o s
    → IsSound o (hand_over ws (record s { inside = leave c s.inside }))
hand_over-IsSound o c s [] h e i =
    let l = leave-length c s.inside e in
    let a = i.counted in
    let b = i.permitted in
    let q = i.bounded in
    record {
      counted = omega (arith, a, l);
      permitted = omega (arith, b);
      bounded = q;
      busy = λ n. absurd (n h);
    }
hand_over-IsSound o c s (w ∷ ws) h e i =
    let l = leave-length c s.inside e in
    let a = i.counted in
    let q : suc (length ws) ≤ o.max_queue = rw (← ap (length {A = ℕ}) h) i.bounded in
    record {
      counted = omega (arith, a, l);
      permitted = i.permitted;
      bounded = omega (arith, q);
      busy = λ n. i.busy (λ z. absurd (let k : w ∷ ws ≡ [] = sym h ∙ z in cc));
    }

Step-IsSound : (o : SemaphoreOptions) {s t : Semaphore} → Step o s t → IsSound o s → IsSound o t
unfolding release
Step-IsSound o (arrives c s) i = acquire-IsSound o c s i
Step-IsSound o (times_out c s h) i = time_out-IsSound o c s i
Step-IsSound o (ends c s h) i = hand_over-IsSound o c s s.queue refl h i

-- After any sequence of calls, timers and ends of work, the number of pieces of work inside is the
-- one counted and at most the permits, no more than the bound wait, and nobody waits while a slot is
-- free.
pub Reachable-IsSound : (o : SemaphoreOptions) {s : Semaphore} → Reachable o s → IsSound o s
Reachable-IsSound o at_rest = record {
  counted = refl;
  permitted = omega arith;
  bounded = omega arith;
  busy = λ n. absurd (n refl);
}
Reachable-IsSound o (after r t before step) = Step-IsSound o step (Reachable-IsSound o before)
