-- ===== src/TaskControl.antt =====
-- app/services/task_control.py: the registry in which a request to pause, to cancel or to stop a
-- stream is left for the thread that runs the task. Every function holds the module's lock, so an
-- interleaving of threads is a list of these operations. `_now_iso()` is the argument `now`.
-- Snapshots are copies, as in the code; the handle that `register_task_control` returns is the
-- entry of the dictionary itself.
pub mod Requests
pub mod Workers
pub mod Signals
mod Examples
use agent_langraph.Prelude.{
  ℕ, String, Bool, true, false, Option, none, some, [], truthy, if◌then◌else◌, ◌||◌, is_some,
}
use agent_langraph.Prelude.Int.{ℤ, max_zero}
use agent_langraph.Prelude.Dict
use agent_langraph.Prelude.Dict.{Dict}

pub record TaskControl : Type 0 where
  pub task_id : String
  pub run_id : String
  pub stream_interrupted : Bool
  pub pause_requested : Bool
  pub cancel_requested : Bool
  pub foreground_epoch : ℕ
  pub requested_at : Option String
  pub requested_by : Option String
  pub reason : Option String

pub record WorkerControl : Type 0 where
  pub task_id : String
  pub worker_id : String
  pub pause_requested : Bool
  pub cancel_requested : Bool
  pub requested_at : Option String
  pub requested_by : Option String
  pub reason : Option String

-- The two dictionaries of the module.
pub record Registry : Type 0 where
  pub control_by_task : Dict TaskControl
  pub worker_control_by_task : Dict (Dict WorkerControl)

abbrev pub empty : Registry
empty = record { control_by_task = []; worker_control_by_task = [] }

-- The keyword arguments that a call of `_mutate` or `_mutate_worker` gives.
pub record Updates : Type 0 where
  pub stream_interrupted : Option Bool
  pub pause_requested : Option Bool
  pub cancel_requested : Option Bool
  pub foreground_epoch : Option ℕ
  pub requested_by : Option String
  pub reason : Option String

abbrev pub no_updates : Updates
no_updates = record {
  stream_interrupted = none;
  pause_requested = none;
  cancel_requested = none;
  foreground_epoch = none;
  requested_by = none;
  reason = none;
}

unfoldable pub fresh_control : String → String → ℕ → TaskControl
fresh_control task_id run_id epoch = record {
  task_id = task_id;
  run_id = run_id;
  stream_interrupted = false;
  pause_requested = false;
  cancel_requested = false;
  foreground_epoch = epoch;
  requested_at = none;
  requested_by = none;
  reason = none;
}

unfoldable pub register_task_control : String → String → ℤ → Registry → Registry × TaskControl
unfolding fresh_control
register_task_control task_id run_id epoch r =
    let control = fresh_control task_id run_id (max_zero epoch) in
    (record r { control_by_task = Dict.put task_id control r.control_by_task }, control)

-- `setattr` where the update is given.
abbrev pub assign {ℓ} : {A : Type ℓ} → Option A → A → A
assign none old = old
assign (some new) old = new

abbrev pub assign_some {ℓ} : {A : Type ℓ} → Option A → Option A → Option A
assign_some none old = old
assign_some (some new) old = some new

unfoldable pub apply_updates : String → Updates → TaskControl → TaskControl
apply_updates now u c = record c {
  stream_interrupted = assign u.stream_interrupted c.stream_interrupted;
  pause_requested = assign u.pause_requested c.pause_requested;
  cancel_requested = assign u.cancel_requested c.cancel_requested;
  foreground_epoch = assign u.foreground_epoch c.foreground_epoch;
  requested_at =
      if is_some u.stream_interrupted || (is_some u.pause_requested || is_some u.cancel_requested)
      then some now
      else c.requested_at;
  requested_by = assign_some u.requested_by c.requested_by;
  reason = assign_some u.reason c.reason;
}

mutate_found :
    Option TaskControl → String → String → Updates → Registry → Registry × Option TaskControl
unfolding apply_updates
mutate_found none now task_id u r = (r, none)
mutate_found (some c) now task_id u r =
    let c' = apply_updates now u c in
    (record r { control_by_task = Dict.put task_id c' r.control_by_task }, some c')

-- `_mutate`
unfoldable pub mutate : String → String → Updates → Registry → Registry × Option TaskControl
unfolding mutate_found
mutate now task_id u r = mutate_found (Dict.get task_id r.control_by_task) now task_id u r

unfoldable pub sync_task_control_epoch :
    String → String → ℤ → Registry → Registry × Option TaskControl
unfolding mutate
sync_task_control_epoch now task_id epoch r =
    mutate now task_id (record no_updates { foreground_epoch = some (max_zero epoch) }) r

unfoldable pub apply_worker_updates : String → Updates → WorkerControl → WorkerControl
apply_worker_updates now u c = record c {
  pause_requested = assign u.pause_requested c.pause_requested;
  cancel_requested = assign u.cancel_requested c.cancel_requested;
  requested_at =
      if is_some u.pause_requested || is_some u.cancel_requested then some now else c.requested_at;
  requested_by = assign_some u.requested_by c.requested_by;
  reason = assign_some u.reason c.reason;
}

unfoldable pub fresh_worker : String → String → WorkerControl
fresh_worker task_id worker_id = record {
  task_id = task_id;
  worker_id = worker_id;
  pause_requested = false;
  cancel_requested = false;
  requested_at = none;
  requested_by = none;
  reason = none;
}

abbrev pub or_else {ℓ} : {A : Type ℓ} → Option A → A → A
or_else none default = default
or_else (some a) default = a

-- The workers of a task: `_worker_control_by_task.get(key) or {}`.
unfoldable pub bucket : String → Registry → Dict WorkerControl
bucket task_id r = or_else (Dict.get task_id r.worker_control_by_task) []

-- `_mutate_worker`: the bucket and the entry are made where they are missing.
unfoldable pub mutate_worker :
    String → String → String → Updates → Registry → Registry × WorkerControl
unfolding apply_worker_updates fresh_worker bucket
mutate_worker now task_id worker_id u r =
    let b = bucket task_id r in
    let c' =
      apply_worker_updates now u
        (or_else (Dict.get worker_id b) (fresh_worker task_id worker_id)) in
    (
      record r {
        worker_control_by_task =
            Dict.put task_id (Dict.put worker_id c' b) r.worker_control_by_task;
      },
      c',
    )

pub data Snapshot : Type 0 where
  nothing : Snapshot
  task : TaskControl → Snapshot
  worker : WorkerControl → Snapshot

abbrev of_task : Registry × Option TaskControl → Registry × Snapshot
of_task (r, none) = (r, nothing)
of_task (r, some c) = (r, task c)

unfoldable pub request_interrupt_stream :
    String → String → String → String → Registry → Registry × Snapshot
unfolding mutate
request_interrupt_stream now task_id by reason r = of_task (
    mutate now task_id
      (record no_updates {
        stream_interrupted = some true;
        requested_by = some by;
        reason = some reason;
      })
      r)

-- A worker id that is missing or empty means the whole task.
unfoldable pub names_worker : Option String → Bool
names_worker none = false
names_worker (some w) = truthy w

abbrev pub worker_name : Option String → String
worker_name none = ""
worker_name (some w) = w

request : Updates → String → String → Option String → Registry → Registry × Snapshot
unfolding names_worker mutate mutate_worker
request u now task_id worker_id r =
    if names_worker worker_id
    then (let (r', c) = mutate_worker now task_id (worker_name worker_id) u r in (r', worker c))
    else of_task (mutate now task_id u r)

unfoldable pub request_pause :
    String → String → Option String → String → String → Registry → Registry × Snapshot
unfolding request
request_pause now task_id worker_id by reason r =
    request
      (record no_updates {
        pause_requested = some true;
        requested_by = some by;
        reason = some reason;
      })
      now task_id worker_id r

unfoldable pub request_cancel :
    String → String → Option String → String → String → Registry → Registry × Snapshot
unfolding request
request_cancel now task_id worker_id by reason r =
    request
      (record no_updates {
        cancel_requested = some true;
        requested_by = some by;
        reason = some reason;
      })
      now task_id worker_id r

unfoldable pub snapshot_task_control : String → Registry → Option TaskControl
snapshot_task_control task_id r = Dict.get task_id r.control_by_task

unfoldable pub snapshot_worker_control : String → String → Registry → Option WorkerControl
unfolding bucket
snapshot_worker_control task_id worker_id r = Dict.get worker_id (bucket task_id r)

unfoldable pub snapshot_all_worker_controls : String → Registry → Dict WorkerControl
unfolding bucket
snapshot_all_worker_controls task_id r = bucket task_id r

unfoldable pub clear_task_control : String → Registry → Registry
clear_task_control task_id r = record {
  control_by_task = Dict.remove task_id r.control_by_task;
  worker_control_by_task = Dict.remove task_id r.worker_control_by_task;
}
