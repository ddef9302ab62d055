-- ===== src/ExecutionPool.antt =====
-- app/services/graph_execution_pool.py: how many graphs run at a time. What `acquire` does between two
-- waits is one step, since it holds the lock, and reads the clock once; the deadline is computed in a
-- step of its own, before the lock. What it tells the metrics service is left out.
pub mod Bound
pub mod Reject
mod Examples
use agent_langraph.Prelude.{
  ℕ, zero, suc, ◌+◌, ◌-◌, max, Bool, true, false, ◌&&◌, Option, none, some, List, [], ◌∷◌,
  if◌then◌else◌, ltb, leb, eqb,
}

pub record Pool : Type 0 where
  pub max_concurrent : ℕ
  pub timeout : ℕ
  pub active : ℕ
  pub waiting : ℕ
  pub rejected_total : ℕ

-- Where a thread is: outside `acquire`, with a deadline and before the lock, in `_cond.wait` until its deadline (`none` for no limit), in
-- the body with a slot, or in the body while the back pressure is switched off.
pub data Thread : Type 0 where
  outside : Thread
  asking : Option ℕ → Thread
  blocked : Option ℕ → Thread
  running : Thread
  unlimited : Thread

-- What a step comes to: `rejected` is GraphExecutionRejected.
pub data Outcome : Type 0 where
  entered : Outcome
  waits : Option ℕ → Outcome
  rejected : Outcome

-- `__init__`; a timeout below 0 is 0.
unfoldable pub new_pool : ℕ → ℕ → Pool
new_pool max_concurrent timeout = record {
  max_concurrent = max 1 max_concurrent;
  timeout = timeout;
  active = 0;
  waiting = 0;
  rejected_total = 0;
}

unfoldable pub deadline_of : ℕ → Pool → Option ℕ
deadline_of now p = if ltb 0 p.timeout then some (now + p.timeout) else none

abbrev pub has_passed : ℕ → Option ℕ → Bool
has_passed now none = false
has_passed now (some deadline) = leb deadline now

abbrev pub take_slot : Pool → Pool
take_slot p = record p { active = suc p.active }

abbrev pub reject : Pool → Pool
reject p = record p { rejected_total = suc p.rejected_total }

-- The head of the loop, up to `_cond.wait`, or the end of the loop.
unfoldable pub try_enter : ℕ → Option ℕ → Pool → Pool × Outcome
try_enter now deadline p =
    if leb p.max_concurrent p.active
    then (if has_passed now deadline
        then (reject p, rejected)
        else (record p { waiting = suc p.waiting }, waits deadline))
    else (take_slot p, entered)

-- What follows `_cond.wait`, by a notification or not, up to the next wait.
unfoldable pub wake_up : ℕ → Option ℕ → Pool → Pool × Outcome
unfolding try_enter
wake_up now deadline p =
    let q = record p { waiting = p.waiting - 1 } in
    if ltb q.active q.max_concurrent
    then (take_slot q, entered)
    else if has_passed now deadline
    then (reject q, rejected)
    else try_enter now deadline q

-- The `finally` part.
unfoldable pub release : Pool → Pool
release p = record p { active = p.active - 1 }

abbrev pub thread_after : Outcome → Thread
thread_after entered = running
thread_after (waits deadline) = blocked deadline
thread_after rejected = outside

abbrev pub after_outcome : Pool × Outcome → Pool × Thread
after_outcome (p, o) = (p, thread_after o)

-- The next step of a thread; `enabled` is GRAPH_RUNNER_BACKPRESSURE_ENABLED.
unfoldable pub advance : Bool → ℕ → Thread → Pool → Pool × Thread
unfolding deadline_of try_enter wake_up release
advance enabled now outside p = (p, if enabled then asking (deadline_of now p) else unlimited)
advance enabled now (asking deadline) p = after_outcome (try_enter now deadline p)
advance enabled now (blocked deadline) p = after_outcome (wake_up now deadline p)
advance enabled now running p = (release p, outside)
advance enabled now unlimited p = (p, outside)

-- A step of the thread at this place, where there is one.
unfoldable pub step_thread : Bool → ℕ → ℕ → List Thread → Pool → Pool × List Thread
unfolding advance
step_thread enabled now i [] p = (p, [])
step_thread enabled now zero (t ∷ ts) p = let (q, u) = advance enabled now t p in (q, u ∷ ts)
step_thread enabled now (suc i) (t ∷ ts) p =
    let (q, us) = step_thread enabled now i ts p in (q, t ∷ us)

-- An interleaving: which thread moves next, when, and how the setting stands.
pub record Move : Type 0 where
  pub thread : ℕ
  pub now : ℕ
  pub enabled : Bool

unfoldable pub run : List Move → List Thread → Pool → Pool × List Thread
unfolding step_thread
run [] ts p = (p, ts)
run (m ∷ ms) ts p = let (q, us) = step_thread m.enabled m.now m.thread ts p in run ms us q
