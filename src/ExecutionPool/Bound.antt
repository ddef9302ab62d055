-- ===== src/ExecutionPool/Bound.antt =====
-- The pool's counters are those of its threads, and no more threads run than it admits.
use agent_langraph.Prelude.{
  ℕ, zero, suc, ◌+◌, ◌-◌, ◌≤◌, ◌≡◌, refl, ◌∙◌, Bool, true, false, Option, List, [], ◌∷◌, arith, leb,
  ltb, by_if, leb→gt, ltb→lt,
}
use agent_langraph.ExecutionPool.{
  Pool, Thread, outside, asking, blocked, running, unlimited, has_passed, try_enter, wake_up,
  release, after_outcome, advance, step_thread, Move, run,
}

abbrev pub runs : Thread → ℕ
runs running = 1
runs _ = 0

abbrev pub is_blocked : Thread → ℕ
is_blocked (blocked deadline) = 1
is_blocked _ = 0

abbrev pub count : (Thread → ℕ) → List Thread → ℕ
count f [] = 0
count f (t ∷ ts) = f t + count f ts

pub record CountsThreads (ts : List Thread) (p : Pool) : Type 0 where
  pub active : p.active ≡ count runs ts
  pub waiting : p.waiting ≡ count is_blocked ts
  pub bounded : p.active ≤ p.max_concurrent

-- What a step does to the counters, for the thread that takes it.
pub record Balanced (t : Thread) (p : Pool) (after : Pool × Thread) : Type 0 where
  pub active : after.0.active + runs t ≡ p.active + runs after.1
  pub waiting : after.0.waiting + is_blocked t ≡ p.waiting + is_blocked after.1
  pub bounded : after.0.active ≤ after.0.max_concurrent
  pub same_max : after.0.max_concurrent ≡ p.max_concurrent

try_enter-Balanced :
    (now : ℕ) (deadline : Option ℕ) (p : Pool)
    → p.active ≤ p.max_concurrent
    → Balanced outside p (after_outcome (try_enter now deadline p))
unfolding try_enter
try_enter-Balanced now deadline p h =
    by_if (λ r. Balanced outside p (after_outcome r)) (leb p.max_concurrent p.active)
      (λ full.
        by_if (λ r. Balanced outside p (after_outcome r)) (has_passed now deadline)
          (λ e. record { active = refl; waiting = refl; bounded = h; same_max = refl })
          (λ e. record { active = refl; waiting = omega arith; bounded = h; same_max = refl }))
      (λ free. record {
        active = omega arith;
        waiting = refl;
        bounded = omega (arith, leb→gt p.max_concurrent p.active free);
        same_max = refl;
      })

wake_up-Balanced :
    (now : ℕ) (deadline : Option ℕ) (p : Pool)
    → p.active ≤ p.max_concurrent
    → 1 ≤ p.waiting
    → Balanced (blocked deadline) p (after_outcome (wake_up now deadline p))
unfolding wake_up
wake_up-Balanced now deadline p h w =
    by_if (λ r. Balanced (blocked deadline) p (after_outcome r)) (ltb p.active p.max_concurrent)
      (λ free. record {
        active = omega arith;
        waiting = omega arith;
        bounded = omega (arith, ltb→lt p.active p.max_concurrent free);
        same_max = refl;
      })
      (λ full.
        by_if (λ r. Balanced (blocked deadline) p (after_outcome r)) (has_passed now deadline)
          (λ e. record { active = refl; waiting = omega arith; bounded = h; same_max = refl })
          (λ e. again (try_enter-Balanced now deadline (record p { waiting = p.waiting - 1 }) h)))
  where
    again :
        {r : Pool × Thread}
        → Balanced outside (record p { waiting = p.waiting - 1 }) r
        → Balanced (blocked deadline) p r
    again b = record {
      active = b.active;
      waiting = omega (arith, b.waiting);
      bounded = b.bounded;
      same_max = b.same_max;
    }

advance-Balanced :
    (enabled : Bool) (now : ℕ) (t : Thread) (p : Pool)
    → p.active ≤ p.max_concurrent
    → runs t ≤ p.active
    → is_blocked t ≤ p.waiting
    → Balanced t p (advance enabled now t p)
unfolding advance release
advance-Balanced true now outside p h r w = record {
  active = refl;
  waiting = refl;
  bounded = h;
  same_max = refl;
}
advance-Balanced enabled now (asking deadline) p h r w =
    let b = try_enter-Balanced now deadline p h in
    record { active = b.active; waiting = b.waiting; bounded = b.bounded; same_max = b.same_max }
advance-Balanced false now outside p h r w = record {
  active = refl;
  waiting = refl;
  bounded = h;
  same_max = refl;
}
advance-Balanced enabled now (blocked deadline) p h r w = wake_up-Balanced now deadline p h w
advance-Balanced enabled now running p h r w = record {
  active = omega arith;
  waiting = refl;
  bounded = omega arith;
  same_max = refl;
}
advance-Balanced enabled now unlimited p h r w = record {
  active = refl;
  waiting = refl;
  bounded = h;
  same_max = refl;
}

-- What a move does to the counters, for all the threads.
record AllBalanced (ts : List Thread) (p : Pool) (after : Pool × List Thread) : Type 0 where
  active : after.0.active + count runs ts ≡ p.active + count runs after.1
  waiting : after.0.waiting + count is_blocked ts ≡ p.waiting + count is_blocked after.1
  bounded : after.0.active ≤ after.0.max_concurrent
  same_max : after.0.max_concurrent ≡ p.max_concurrent

step_thread-AllBalanced :
    (enabled : Bool) (now i : ℕ) (ts : List Thread) (p : Pool)
    → p.active ≤ p.max_concurrent
    → count runs ts ≤ p.active
    → count is_blocked ts ≤ p.waiting
    → AllBalanced ts p (step_thread enabled now i ts p)
unfolding step_thread
step_thread-AllBalanced enabled now i [] p h r w = record {
  active = refl;
  waiting = refl;
  bounded = h;
  same_max = refl;
}
step_thread-AllBalanced enabled now zero (t ∷ ts) p h r w =
    let b = advance-Balanced enabled now t p h (omega arith) (omega arith) in
    record {
      active = omega (arith, b.active);
      waiting = omega (arith, b.waiting);
      bounded = b.bounded;
      same_max = b.same_max;
    }
step_thread-AllBalanced enabled now (suc i) (t ∷ ts) p h r w =
    let b = step_thread-AllBalanced enabled now i ts p h (omega arith) (omega arith) in
    record {
      active = omega (arith, b.active);
      waiting = omega (arith, b.waiting);
      bounded = b.bounded;
      same_max = b.same_max;
    }

step_thread-CountsThreads :
    (enabled : Bool) (now i : ℕ) (ts : List Thread) (p : Pool)
    → CountsThreads ts p
    → let (q, us) = step_thread enabled now i ts p in
      CountsThreads us q × (q.max_concurrent ≡ p.max_concurrent)
step_thread-CountsThreads enabled now i ts p c =
    let b =
      step_thread-AllBalanced enabled now i ts p c.bounded (omega (arith, c.active))
        (omega (arith, c.waiting)) in
    (
      record {
        active = omega (arith, b.active, c.active);
        waiting = omega (arith, b.waiting, c.waiting);
        bounded = b.bounded;
      },
      b.same_max,
    )

-- From a pool that counts its threads, and however these interleave, the pool counts those that run
-- with a slot and those that wait, and no more than `max_concurrent` run, which stays as it is.
pub run-CountsThreads :
    (ms : List Move) (ts : List Thread) (p : Pool)
    → CountsThreads ts p
    → let (q, us) = run ms ts p in CountsThreads us q × (q.max_concurrent ≡ p.max_concurrent)
unfolding run
run-CountsThreads [] ts p c = (c, refl)
run-CountsThreads (m ∷ ms) ts p c =
    let step = step_thread-CountsThreads m.enabled m.now m.thread ts p c in
    let rest =
      run-CountsThreads ms (step_thread m.enabled m.now m.thread ts p).1
        (step_thread m.enabled m.now m.thread ts p).0 step.0 in
    (rest.0, rest.1 ∙ step.1)
