-- ===== src/TaskControl/Examples.antt =====
-- A task with a run, a worker, and requests from several sides.
use agent_langraph.Prelude.{◌≡◌, refl, false, none, some, [], ◌∷◌, any_of, List}
use agent_langraph.Prelude.Int.{pos}
use agent_langraph.Prelude.Dict
use agent_langraph.TaskControl.{TaskControl, Registry, snapshot_task_control}
use agent_langraph.TaskControl.Requests.{
  Op, register, sync_epoch, pause, cancel, run, requests_exact, FlagsAfter, asks_pause, asks_cancel,
  asks_interrupt,
}
use agent_langraph.TaskControl.Signals.{CancellationToken}

abbrev control : TaskControl
control = record {
  task_id = "t";
  run_id = "r1";
  stream_interrupted = false;
  pause_requested = false;
  cancel_requested = false;
  foreground_epoch = 2;
  requested_at = none;
  requested_by = none;
  reason = none;
}

abbrev registry : Registry
registry = record { control_by_task = ("t", control) ∷ []; worker_control_by_task = [] }

abbrev ops : List Op
ops =
    cancel "12:00" "t" (some "w") "web" "stop the worker"
    ∷ pause "12:01" "t" none "web" "wait"
    ∷ register "u" "r2" (pos 0)
    ∷ sync_epoch "12:02" "t" (pos 3)
    ∷ []

requests_exact_example :
    (c : TaskControl) × (snapshot_task_control "t" (run ops registry) ≡ some c)
    × FlagsAfter
        (any_of (asks_pause "t") ops)
        (any_of (asks_cancel "t") ops)
        (any_of (asks_interrupt "t") ops)
        control
        c
unfolding snapshot_task_control Dict.get
requests_exact_example = requests_exact "t" ops registry control refl refl

abbrev token : CancellationToken
token = record { task_id = "t"; epoch = 1; cancelled = false }
