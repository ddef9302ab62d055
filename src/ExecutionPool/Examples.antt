-- ===== src/ExecutionPool/Examples.antt =====
-- A pool of one slot, with a timeout of 30, and three threads.
use agent_langraph.Prelude.{ℕ, ◌≡◌, refl, true, some, List, [], ◌∷◌, arith}
use agent_langraph.ExecutionPool.{
  Pool, Thread, outside, running, Move, run, new_pool, wake_up, try_enter, deadline_of, release,
  advance, step_thread,
}
use agent_langraph.ExecutionPool.Bound.{CountsThreads, run-CountsThreads}
use agent_langraph.ExecutionPool.Reject.{Explained, wake_up-Explained}

abbrev three : List Thread
three = outside ∷ outside ∷ outside ∷ []

abbrev move : ℕ → ℕ → Move
move thread now = record { thread = thread; now = now; enabled = true }

-- The first runs, the second and the third wait; the first leaves, the third wakes up first and gets
-- the slot, and the second is turned away when its time is up.
abbrev moves : List Move
moves =
    move 0 0
    ∷ move 0 0
    ∷ move 1 1
    ∷ move 1 2
    ∷ move 2 2
    ∷ move 2 2
    ∷ move 0 10
    ∷ move 2 11
    ∷ move 1 31
    ∷ []

abbrev after : Pool
after = record { max_concurrent = 1; timeout = 30; active = 1; waiting = 0; rejected_total = 1 }

contended : run moves three (new_pool 0 30) ≡ (after, outside ∷ outside ∷ running ∷ [])
unfolding run new_pool step_thread advance wake_up try_enter deadline_of release
contended = refl

-- The second thread gets the lock 40 ticks after its deadline was computed, and never waits.
late_lock :
    run (move 0 0 ∷ move 0 0 ∷ move 1 1 ∷ move 1 41 ∷ []) three (new_pool 0 30)
    ≡ (after, running ∷ outside ∷ outside ∷ [])
unfolding run new_pool step_thread advance wake_up try_enter deadline_of release
late_lock = refl

start : (timeout : ℕ) → CountsThreads three (new_pool 1 timeout)
unfolding new_pool
start timeout = record { active = refl; waiting = refl; bounded = omega arith }

run-CountsThreads_example :
    let (q, us) = run moves three (new_pool 1 30) in
    CountsThreads us q × (q.max_concurrent ≡ (new_pool 1 30).max_concurrent)
run-CountsThreads_example = run-CountsThreads moves three (new_pool 1 30) (start 30)

wake_up-Explained_example : Explained 31 (some 31) after (wake_up 31 (some 31) after)
wake_up-Explained_example = wake_up-Explained 31 (some 31) after
