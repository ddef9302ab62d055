-- ===== src/TaskControl/Workers.antt =====
-- The requests that are addressed to one worker of a task.
use agent_langraph.Prelude.{
  String, ◌≡◌, refl, inl, inr, Bool, true, false, ◌&&◌, ◌||◌, ||_false, Bool-cases, Option, none,
  some, arith, List, [], ◌∷◌, eq_iff, if◌then◌else◌, ◌==◌, any_of,
}
use agent_langraph.Prelude.Dict.{get-empty, get-put, get-remove}
use agent_langraph.TaskControl.{
  WorkerControl, Registry, Updates, no_updates, names_worker, worker_name, or_else, mutate,
  mutate_worker, apply_worker_updates, fresh_worker, register_task_control, sync_task_control_epoch,
  request_interrupt_stream, request_pause, request_cancel, snapshot_worker_control,
  clear_task_control, snapshot_task_control,
}
use agent_langraph.TaskControl.Requests.{
  Op, register, sync_epoch, interrupt_stream, pause, cancel, clear, step, run,
}

-- The worker controls after one more call of `_mutate_worker`.
snapshot-mutate_worker :
    (now u v t w : String) (x : Updates) (r : Registry)
    → snapshot_worker_control t w (mutate_worker now u v x r).0 ≡ (
        if u == t && v == w
        then some (
            apply_worker_updates now x (or_else (snapshot_worker_control u v r) (fresh_worker u v)))
        else snapshot_worker_control t w r)
unfolding snapshot_worker_control mutate_worker
snapshot-mutate_worker now u v t w x r = rw get-put (elim (Bool-cases (u == t)) [
  | inl same ↦ rw same (rw get-put (rw ((eq_iff u t).0 same) (refl)))
  | inr other ↦ rw other
])

snapshot-mutate :
    (now u t w : String) (x : Updates) (r : Registry)
    → snapshot_worker_control t w (mutate now u x r).0 ≡ snapshot_worker_control t w r
unfolding snapshot_worker_control mutate
snapshot-mutate now u t w x r = ground arith

-- Whether the worker `w` of the task `t` is asked to pause or to cancel.
abbrev pub asks_worker_pause : String → String → Op → Bool
asks_worker_pause t w (pause now u v by why) = names_worker v && (u == t && worker_name v == w)
asks_worker_pause t w _ = false

abbrev pub asks_worker_cancel : String → String → Op → Bool
asks_worker_cancel t w (cancel now u v by why) = names_worker v && (u == t && worker_name v == w)
asks_worker_cancel t w _ = false

abbrev pub clears : String → Op → Bool
clears t (clear u) = u == t
clears t _ = false

abbrev pub pause_flag : Option WorkerControl → Bool
pause_flag none = false
pause_flag (some c) = c.pause_requested

abbrev pub cancel_flag : Option WorkerControl → Bool
cancel_flag none = false
cancel_flag (some c) = c.cancel_requested

abbrev pub Asked : Bool → Bool → Option WorkerControl → Option WorkerControl → Type 0
Asked paused cancelled c c' =
    (pause_flag c' ≡ (pause_flag c || paused)) × (cancel_flag c' ≡ (cancel_flag c || cancelled))

abbrev pause_update : String → String → Updates
pause_update by why = record no_updates {
  pause_requested = some true;
  requested_by = some by;
  reason = some why;
}

abbrev cancel_update : String → String → Updates
cancel_update by why = record no_updates {
  cancel_requested = some true;
  requested_by = some by;
  reason = some why;
}

step-Asked :
    (t w : String) (op : Op) (r : Registry)
    → clears t op ≡ false
    → Asked
        (asks_worker_pause t w op)
        (asks_worker_cancel t w op)
        (snapshot_worker_control t w r)
        (snapshot_worker_control t w (step op r))
unfolding step snapshot_worker_control register_task_control sync_task_control_epoch
    request_interrupt_stream request_pause request_cancel clear_task_control mutate
    apply_worker_updates fresh_worker
step-Asked t w (register u run epoch) r keeps = ground arith
step-Asked t w (sync_epoch now u epoch) r keeps = ground arith
step-Asked t w (interrupt_stream now u by why) r keeps = ground arith
step-Asked t w (pause now u v by why) r keeps = ground (
  arith,
  snapshot-mutate_worker now u (worker_name v) t w (pause_update by why) r,
  eq_iff u t,
  eq_iff (worker_name v) w,
)
step-Asked t w (cancel now u v by why) r keeps = ground (
  arith,
  snapshot-mutate_worker now u (worker_name v) t w (cancel_update by why) r,
  eq_iff u t,
  eq_iff (worker_name v) w,
)
step-Asked t w (clear u) r keeps = rw get-remove (ground arith)

-- Over any operations that do not clear the task `t`, each flag of its worker `w` is up at the end
-- exactly if it was up before or was asked for of this worker. A new run's registration is such an
-- operation: what was asked of a worker in an earlier run stands until the task is cleared.
pub worker_requests_exact :
    (t w : String) (ops : List Op) (r : Registry)
    → any_of (clears t) ops ≡ false
    → Asked
        (any_of (asks_worker_pause t w) ops)
        (any_of (asks_worker_cancel t w) ops)
        (snapshot_worker_control t w r)
        (snapshot_worker_control t w (run ops r))
unfolding run
worker_requests_exact t w [] r keeps = ground arith
worker_requests_exact t w (op ∷ ops) r keeps =
    let first = ||_false (clears t op) (any_of (clears t) ops) keeps in
    ground (arith, step-Asked t w op r first.0, worker_requests_exact t w ops (step op r) first.1)

-- A cleared task has no control and no worker controls, and every other task keeps its own.
pub clear_task_control_forgets :
    (t u w : String) (r : Registry)
    → let r' = clear_task_control t r in
      (snapshot_task_control u r' ≡ (if t == u then none else snapshot_task_control u r))
      × (snapshot_worker_control u w r' ≡ (if t == u then none else snapshot_worker_control u w r))
unfolding clear_task_control snapshot_worker_control snapshot_task_control
clear_task_control_forgets t u w r = (
  rw get-remove,
  rw get-remove
      (elim (Bool-cases (t == u)) [ inl same ↦ rw same (get-empty w) | inr other ↦ rw other ]),
)
