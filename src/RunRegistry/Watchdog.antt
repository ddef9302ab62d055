-- ===== src/RunRegistry/Watchdog.antt =====
-- `check_turn_wall_clock_budget` and what `finalize_timed_out_task` does to the registries. What the
-- task store does for each task, exceptions included, is the argument `store`.
pub mod Finalize
pub mod Overdue
use agent_langraph.Prelude.{
  ℕ, ◌+◌, ◌<◌, String, ◌≡◌, ◌⊎◌, inl, inr, Bool, true, false, Bool-cases, Option-cases, Option,
  none, some, arith, List, [], ◌∷◌, eq_iff, eq_refl, if◌then◌else◌, ◌==◌, truthy, leb, member, All,
  subst, sym, refl, ◌∙◌, ◌++◌, ||_false,
}
use agent_langraph.Prelude.Dict
use agent_langraph.Prelude.Dict.{Dict, get-empty, get-put, get-remove}
use agent_langraph.TaskControl.{Registry, request_cancel}
use agent_langraph.RunRegistry.{Runs, end_graph_run, get_active_run_id}
use agent_langraph.RunRegistry.Ownership.{IsConsistent, end-IsConsistent}

-- `now - started <= budget` is skipped; the subtraction is moved to the other side.
unfoldable pub timed_out : ℕ → ℕ → Dict ℕ → List String
timed_out now budget [] = []
timed_out now budget ((t, started) ∷ d) =
    let rest = timed_out now budget d in if leb now (started + budget) then rest else t ∷ rest

-- The registry of runs, the registry of controls and the events left for the streams.
pub record World : Type 0 where
  pub runs : Runs
  pub controls : Registry
  pub pending_stream_events : Dict String

unfoldable pub end_active : Option String → String → Runs → Runs
end_active none t r = r
end_active (some id) t r = if truthy id then end_graph_run t id r else r

-- What the task store does for a task: `store.load` raises, finds nothing, or finds a state; with a
-- state, `merge_state` or `store.save` raises, or the state is saved.
pub data Stored : Type 0 where
  load_raises missing save_raises saved : Stored

abbrev pub raises : Stored → Bool
raises load_raises = true
raises missing = false
raises save_raises = true
raises saved = false

pub data Result (A : Type 0) : Type 0 where
  returned : A → Result A
  raised : Result A

-- The live run is ended and the task cancelled, which is done before the state is saved.
unfoldable pub cut_off : String → String → String → World → World
unfolding end_active
cut_off now t reason w = record w {
  runs = end_active (get_active_run_id t w.runs) t w.runs;
  controls = (request_cancel now t none "turn_watchdog" reason w.controls).0;
}

-- The event that is left for the stream is told apart by its reason alone.
unfoldable pub finalize_stored : Stored → String → String → String → World → World × Result Bool
unfolding cut_off
finalize_stored load_raises now t reason w = (w, raised)
finalize_stored missing now t reason w = (w, returned false)
finalize_stored save_raises now t reason w = (cut_off now t reason w, raised)
finalize_stored saved now t reason w = (
  record (cut_off now t reason w) {
    pending_stream_events = Dict.put t reason w.pending_stream_events;
  },
  returned true,
)

unfoldable pub finalize_timed_out_task :
    (String → Stored) → String → String → String → World → World × Result Bool
unfolding finalize_stored
finalize_timed_out_task store now t reason w = finalize_stored (store t) now t reason w

-- What was written before an exception stays written.
unfoldable pub and_then :
    {A B : Type 0} → World × Result A → (World → World × Result B) → World × Result B
and_then (w, returned a) f = f w
and_then (w, raised) f = (w, raised)

-- The loop over the tasks that timed out, in which nothing catches an exception.
unfoldable pub finalize_all :
    (String → Stored) → String → List String → World → World × Result (Unit {0})
unfolding and_then
finalize_all store now [] w = (w, returned tt)
finalize_all store now (t ∷ ts) w =
    and_then (finalize_timed_out_task store now t "turn_wall_clock_budget_exceeded" w)
      (finalize_all store now ts)

-- A budget of 0 turns the check off. The tasks are collected first, then finalized.
unfoldable pub check_turn_wall_clock_budget :
    (String → Stored) → ℕ → ℕ → String → World → World × Result (List String)
unfolding and_then
check_turn_wall_clock_budget store budget now now_iso w =
    if leb budget 0
    then (w, returned [])
    else (let ts = timed_out now budget w.runs.run_started_at in
        and_then (finalize_all store now_iso ts w) (λ w'. (w', returned ts)))
