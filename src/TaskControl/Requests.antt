-- ===== src/TaskControl/Requests.antt =====
-- What a list of operations on the registry keeps.
use agent_langraph.Prelude.{
  String, ◌≡◌, Bool, true, false, inl, inr, Bool-cases, Option-cases, ◌⊎◌, Option, none, some,
  arith, List, [], ◌∷◌, eq_iff, eq_refl, if◌then◌else◌, ◌==◌, any_of, not, ◌&&◌, ◌||◌, ||_false,
}
use agent_langraph.Prelude.Int.{ℤ, max_zero}
use agent_langraph.Prelude.Dict
use agent_langraph.Prelude.Dict.{get-put, get-remove}
use agent_langraph.TaskControl.{
  TaskControl, Registry, Updates, register_task_control, no_updates, names_worker, mutate,
  apply_updates, sync_task_control_epoch, request_interrupt_stream, request_pause, request_cancel,
  snapshot_task_control, clear_task_control,
}

-- An operation, with the time and the texts that it is given.
pub data Op : Type 0 where
  register : String → String → ℤ → Op
  sync_epoch : String → String → ℤ → Op
  interrupt_stream : String → String → String → String → Op
  pause cancel : String → String → Option String → String → String → Op
  clear : String → Op

unfoldable pub step : Op → Registry → Registry
step (register t run epoch) r = (register_task_control t run epoch r).0
step (sync_epoch now t epoch) r = (sync_task_control_epoch now t epoch r).0
step (interrupt_stream now t by why) r = (request_interrupt_stream now t by why r).0
step (pause now t w by why) r = (request_pause now t w by why r).0
step (cancel now t w by why) r = (request_cancel now t w by why r).0
step (clear t) r = clear_task_control t r

unfoldable pub run : List Op → Registry → Registry
run [] r = r
run (op ∷ ops) r = run ops (step op r)

-- The task that an operation is about.
abbrev pub target : Op → String
target (register t run epoch) = t
target (sync_epoch now t epoch) = t
target (interrupt_stream now t by why) = t
target (pause now t w by why) = t
target (cancel now t w by why) = t
target (clear t) = t

-- Whether an operation starts a new run of the task `t` or forgets it.
abbrev pub resets : String → Op → Bool
resets t (register u run epoch) = u == t
resets t (clear u) = u == t
resets t _ = false

-- The updates of an operation that is addressed to a task as a whole, with its time.
task_update : Op → Option (String × Updates)
unfolding names_worker
task_update (register t run epoch) = none
task_update (sync_epoch now t epoch) =
    some (now, record no_updates { foreground_epoch = some (max_zero epoch) })
task_update (interrupt_stream now t by why) = some (
  now,
  record no_updates { stream_interrupted = some true; requested_by = some by; reason = some why },
)
task_update (pause now t w by why) =
    if names_worker w
    then none
    else some (
      now,
      record no_updates { pause_requested = some true; requested_by = some by; reason = some why },
    )
task_update (cancel now t w by why) =
    if names_worker w
    then none
    else some (
      now,
      record no_updates { cancel_requested = some true; requested_by = some by; reason = some why },
    )
task_update (clear t) = none

updated : Option (String × Updates) → TaskControl → TaskControl
updated none c = c
updated (some (now, u)) c = apply_updates now u c

mutate_hit :
    (now t k : String) (u : Updates) (r : Registry) {c : TaskControl}
    → Dict.get k r.control_by_task ≡ some c
    → Dict.get k (mutate now t u r).0.control_by_task
      ≡ some (if t == k then apply_updates now u c else c)
unfolding mutate
mutate_hit now t k u r {c} h = elim (Bool-cases (t == k)) [
  | inl same ↦ let e : t ≡ k = (eq_iff t k).0 same in rw (same, e, h) (rw get-put (rw (eq_refl k)))
  | inr other ↦ rw other (missed (Option-cases (Dict.get t r.control_by_task)) other)
]
  where
    missed :
        (Dict.get t r.control_by_task ≡ none)
          ⊎ ((d : TaskControl) × (Dict.get t r.control_by_task ≡ some d))
        → (t == k) ≡ false
        → Dict.get k (mutate now t u r).0.control_by_task ≡ some c
    missed (inl e) other = rw (e, mutate) h
    missed (inr (d, e)) other = rw (e, mutate) (rw get-put (rw other h))

step_hit :
    (t : String) (op : Op) (r : Registry) {c : TaskControl}
    → Dict.get t r.control_by_task ≡ some c
    → resets t op ≡ false
    → Dict.get t (step op r).control_by_task
      ≡ some (if target op == t then updated (task_update op) c else c)
unfolding step updated task_update register_task_control sync_task_control_epoch
    request_interrupt_stream request_pause request_cancel clear_task_control
step_hit t (register u run epoch) r h keeps = rw get-put (rw keeps h)
step_hit t (sync_epoch now u epoch) r h keeps =
    mutate_hit now u t (record no_updates { foreground_epoch = some (max_zero epoch) }) r h
step_hit t (interrupt_stream now u by why) r {c} h keeps = ground (
  arith,
  mutate_hit now u t
      (record no_updates {
        stream_interrupted = some true;
        requested_by = some by;
        reason = some why;
      })
      r h,
)
step_hit t (pause now u w by why) r h keeps = ground (
  arith,
  mutate_hit now u t
      (record no_updates { pause_requested = some true; requested_by = some by; reason = some why })
      r h,
)
step_hit t (cancel now u w by why) r h keeps = ground (
  arith,
  mutate_hit now u t
      (record no_updates {
        cancel_requested = some true;
        requested_by = some by;
        reason = some why;
      })
      r h,
)
step_hit t (clear u) r h keeps = rw get-remove (rw keeps h)

-- Whether an operation asks the task `t` as a whole to pause, to cancel, to stop its stream.
abbrev pub asks_pause : String → Op → Bool
asks_pause t (pause now u w by why) = u == t && not (names_worker w)
asks_pause t _ = false

abbrev pub asks_cancel : String → Op → Bool
asks_cancel t (cancel now u w by why) = u == t && not (names_worker w)
asks_cancel t _ = false

abbrev pub asks_interrupt : String → Op → Bool
asks_interrupt t (interrupt_stream now u by why) = u == t
asks_interrupt t _ = false

-- The flags of `c'` are those of `c` and those that were asked for.
abbrev pub FlagsAfter : Bool → Bool → Bool → TaskControl → TaskControl → Type 0
FlagsAfter paused cancelled interrupted c c' =
    (c'.pause_requested ≡ (c.pause_requested || paused))
    × (c'.cancel_requested ≡ (c.cancel_requested || cancelled))
    × (c'.stream_interrupted ≡ (c.stream_interrupted || interrupted))
    × (c'.run_id ≡ c.run_id)

step_flags :
    (t : String) (op : Op) (c : TaskControl)
    → resets t op ≡ false
    → FlagsAfter
        (asks_pause t op)
        (asks_cancel t op)
        (asks_interrupt t op)
        c
        (if target op == t then updated (task_update op) c else c)
unfolding updated task_update apply_updates
step_flags t (register u run epoch) c keeps = ground arith
step_flags t (sync_epoch now u epoch) c keeps = ground arith
step_flags t (interrupt_stream now u by why) c keeps = ground arith
step_flags t (pause now u w by why) c keeps = ground arith
step_flags t (cancel now u w by why) c keeps = ground arith
step_flags t (clear u) c keeps = ground arith

-- Over any operations on any tasks, of which none registers or clears the task `t`, its control
-- stays registered under its run, and each of its flags is up at the end exactly if it was up
-- before or was asked for: a request is never lost, and none comes from another task's or from a
-- worker's.
pub requests_exact :
    (t : String) (ops : List Op) (r : Registry) (c : TaskControl)
    → snapshot_task_control t r ≡ some c
    → any_of (resets t) ops ≡ false
    → (c' : TaskControl) × (snapshot_task_control t (run ops r) ≡ some c')
      × FlagsAfter
          (any_of (asks_pause t) ops)
          (any_of (asks_cancel t) ops)
          (any_of (asks_interrupt t) ops)
          c
          c'
unfolding run snapshot_task_control
requests_exact t [] r c h keeps = (c, h, ground arith)
requests_exact t (op ∷ ops) r c h keeps =
    let first = ||_false (resets t op) (any_of (resets t) ops) keeps in
    let c₁ : TaskControl = if target op == t then updated (task_update op) c else c in
    let later = requests_exact t ops (step op r) c₁ (step_hit t op r h first.0) first.1 in
    let now = step_flags t op c first.0 in (later.0, later.1, ground (arith, now, later.2))
