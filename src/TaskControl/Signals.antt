-- ===== src/TaskControl/Signals.antt =====
-- app/services/execution_control.py: how a running step reads the registry
-- (`check_for_control_signal` and the functions round it), and the cancellation token of
-- app/services/foreground_execution.py.
use agent_langraph.Prelude.{
  ℕ, String, ◌≡◌, Bool, true, false, not, ◌&&◌, ◌||◌, Option, none, some, arith, if◌then◌else◌, ltb,
  or_text, eqb,
}
use agent_langraph.TaskControl.{
  TaskControl, WorkerControl, Registry, names_worker, worker_name, snapshot_task_control,
  snapshot_worker_control,
}

pub data ControlState : Type 0 where
  idle running_step streaming_output pause_requested cancel_requested : ControlState

control_state : TaskControl → ControlState
control_state c =
    if c.cancel_requested
    then cancel_requested
    else if c.pause_requested
    then pause_requested
    else if c.stream_interrupted
    then streaming_output
    else running_step

unfoldable pub effective_control_state : Option TaskControl → ControlState
unfolding control_state
effective_control_state none = idle
effective_control_state (some c) = control_state c

-- The exceptions, each with its message; `epoch_stale` carries the two epochs of its message.
pub data Signal : Type 0 where
  cancel_request pause_request stream_interrupt : String → Signal
  epoch_stale : ℕ → ℕ → Signal

pub data Checked (A : Type 0) : Type 0 where
  value : A → Checked A
  raise : Signal → Checked A

-- The keyword arguments of `check_for_control_signal`.
pub record Flags : Type 0 where
  pub step_epoch : Option ℕ
  pub raise_on_pause : Bool
  pub raise_on_cancel : Bool
  pub raise_on_stream_interrupt : Bool
  pub raise_on_epoch_stale : Bool

-- `_worker_cancel_pause`: whether the worker is to stop.
unfoldable pub worker_cancel_pause : Option WorkerControl → Bool → Bool → Checked Bool
worker_cancel_pause none on_pause on_cancel = value false
worker_cancel_pause (some w) on_pause on_cancel =
    if w.cancel_requested
    then (if on_cancel
        then raise (cancel_request (or_text w.reason "worker cancel requested"))
        else value true)
    else if w.pause_requested
    then (if on_pause
        then raise (pause_request (or_text w.reason "worker pause requested"))
        else value true)
    else value false

-- The epoch test at the end; `phase` stands in its message only.
unfoldable pub check_epoch : Flags → TaskControl → Checked (Option TaskControl)
check_epoch f c = elim f.step_epoch [
  | none ↦ value (some c)
  | some e ↦
      if f.raise_on_epoch_stale && ltb e c.foreground_epoch
      then raise (epoch_stale c.foreground_epoch e)
      else value (some c)
]

unfoldable pub check_task : Flags → Option TaskControl → Checked (Option TaskControl)
unfolding check_epoch
check_task f none = value none
check_task f (some c) =
    if c.cancel_requested
    then (if f.raise_on_cancel
        then raise (cancel_request (or_text c.reason "cancel requested"))
        else value (some c))
    else if c.pause_requested
    then (if f.raise_on_pause
        then raise (pause_request (or_text c.reason "pause requested"))
        else value (some c))
    else if c.stream_interrupted && f.raise_on_stream_interrupt
    then raise (stream_interrupt (or_text c.reason "stream interrupted"))
    else check_epoch f c

after_worker : Checked Bool → Flags → Option TaskControl → Checked (Option TaskControl)
after_worker (raise s) f c = raise s
after_worker (value true) f c = value c
after_worker (value false) f c = check_task f c

unfoldable pub check_for_control_signal :
    String → Option String → Flags → Registry → Checked (Option TaskControl)
unfolding worker_cancel_pause after_worker check_task names_worker
check_for_control_signal task_id worker_id f r =
    let c = snapshot_task_control task_id r in
    if names_worker worker_id
    then after_worker
        (worker_cancel_pause (snapshot_worker_control task_id (worker_name worker_id) r)
          f.raise_on_pause f.raise_on_cancel)
        f c
    else check_task f c

unfoldable pub should_pause_at_boundary : String → Registry → Bool
should_pause_at_boundary task_id r = elim (snapshot_task_control task_id r) [
  | none ↦ false
  | some c ↦ c.pause_requested || c.cancel_requested
]

-- What a worker's record and a task's record ask for.
abbrev pub worker_wants_cancel : Option WorkerControl → Bool
worker_wants_cancel none = false
worker_wants_cancel (some w) = w.cancel_requested

abbrev pub worker_wants_pause : Option WorkerControl → Bool
worker_wants_pause none = false
worker_wants_pause (some w) = w.pause_requested && not w.cancel_requested

abbrev pub task_wants_cancel : Option TaskControl → Bool
task_wants_cancel none = false
task_wants_cancel (some c) = c.cancel_requested

abbrev pub is_cancel : {A : Type 0} → Checked A → Bool
is_cancel (raise (cancel_request m)) = true
is_cancel _ = false

abbrev pub worker_of : String → Option String → Registry → Option WorkerControl
worker_of t w r = if names_worker w then snapshot_worker_control t (worker_name w) r else none

-- With `raise_on_cancel`, a check raises the cancellation exactly if the worker that it names, if
-- any, is to cancel, or the task is and that worker is not to pause: a pause that is asked of the
-- worker hides a cancellation of the whole task from it.
pub cancel_raised_iff :
    (t : String) (w : Option String) (f : Flags) (r : Registry)
    → f.raise_on_cancel ≡ true
    → is_cancel (check_for_control_signal t w f r) ≡ (
        worker_wants_cancel (worker_of t w r)
        || (task_wants_cancel (snapshot_task_control t r)
            && not (worker_wants_pause (worker_of t w r))))
unfolding check_for_control_signal
cancel_raised_iff t w f r on = ground arith

-- Nothing is asked of a task, and no newer epoch has begun.
abbrev pub is_quiet : Option ℕ → Option TaskControl → Bool
is_quiet e none = true
is_quiet none (some c) = not (c.cancel_requested || (c.pause_requested || c.stream_interrupted))
is_quiet (some e) (some c) = not (
    c.cancel_requested || (c.pause_requested || (c.stream_interrupted || ltb e c.foreground_epoch)))

abbrev pub passes : {A : Type 0} → Checked A → Bool
passes (value a) = true
passes (raise s) = false

abbrev pub all_flags : Option ℕ → Flags
all_flags e = record {
  step_epoch = e;
  raise_on_pause = true;
  raise_on_cancel = true;
  raise_on_stream_interrupt = true;
  raise_on_epoch_stale = true;
}

-- With every `raise_on` flag up and no worker named, a check passes exactly if the task is not
-- registered, or nothing is asked of it and its epoch is not past the step's.
pub strict_check_passes_iff :
    (t : String) (e : Option ℕ) (r : Registry)
    → passes (check_for_control_signal t none (all_flags e) r)
      ≡ is_quiet e (snapshot_task_control t r)
unfolding check_for_control_signal
strict_check_passes_iff t none r = ground arith
strict_check_passes_iff t (some e) r = ground arith

-- `CancellationToken`
pub record CancellationToken : Type 0 where
  pub task_id : String
  pub epoch : ℕ
  pub cancelled : Bool

unfoldable pub is_stale : ℕ → CancellationToken → Bool
is_stale current k = k.cancelled || not (eqb current k.epoch)

check_control : Option TaskControl → CancellationToken → CancellationToken × Checked (Unit {0})
check_control none k = (k, value tt)
check_control (some c) k =
    if c.cancel_requested
    then (
      record k { cancelled = true },
      raise (cancel_request (or_text c.reason "cancel requested")),
    )
    else if ltb k.epoch c.foreground_epoch
    then (record k { cancelled = true }, raise (epoch_stale c.foreground_epoch k.epoch))
    else (k, value tt)

-- `CancellationToken.check`; the message of a repeated check names the phase.
unfoldable pub check_token :
    String → Registry → CancellationToken → CancellationToken × Checked (Unit {0})
unfolding check_control
check_token phase r k =
    if k.cancelled
    then (k, raise (cancel_request phase))
    else check_control (snapshot_task_control k.task_id r) k

-- A token that has once refused refuses ever after, whatever becomes of the registry; and it
-- passes exactly if it has not refused, its task is not cancelled and has no newer epoch.
pub check_token_latches :
    (phase later : String) (r r' : Registry) (k : CancellationToken)
    → let (k', x) = check_token phase r k in
      (passes x ≡ (
        not k.cancelled && elim (snapshot_task_control k.task_id r) [
          | none ↦ true
          | some c ↦ not (c.cancel_requested || ltb k.epoch c.foreground_epoch)
        ]))
      × (passes x ≡ false → passes (check_token later r' k').1 ≡ false)
unfolding check_token
check_token_latches phase later r r' k = (ground arith, ground arith)
