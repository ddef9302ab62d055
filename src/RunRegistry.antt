-- ===== src/RunRegistry.antt =====
-- app/services/graph_run_registry.py: which run of the graph is live for each task, and
-- app/services/turn_watchdog.py as far as it ends runs. The id of a run is the argument `run_id`
-- (`uuid4().hex` in the code), and `time.monotonic()` is `now`, in clock ticks.
pub mod Ownership
pub mod Watchdog
mod Examples
use agent_langraph.Prelude.{
  ℕ, ◌+◌, String, Bool, true, false, Option, none, some, [], List, ◌∷◌, truthy, if◌then◌else◌, not,
  ◌&&◌, ◌==◌, ltb,
}
use agent_langraph.Prelude.Dict
use agent_langraph.Prelude.Dict.{Dict}

pub record Runs : Type 0 where
  pub active_run_by_task : Dict String
  pub run_started_at : Dict ℕ

abbrev pub empty : Runs
empty = record { active_run_by_task = []; run_started_at = [] }

unfoldable pub begin_graph_run : String → String → ℕ → Runs → Runs
begin_graph_run task_id run_id now r = record {
  active_run_by_task = Dict.put task_id run_id r.active_run_by_task;
  run_started_at = Dict.put task_id now r.run_started_at;
}

-- Whether an optional text is the text given.
abbrev pub holds : Option String → String → Bool
holds none s = false
holds (some t) s = t == s

unfoldable pub end_graph_run : String → String → Runs → Runs
end_graph_run task_id run_id r =
    if holds (Dict.get task_id r.active_run_by_task) run_id
    then record {
      active_run_by_task = Dict.remove task_id r.active_run_by_task;
      run_started_at = Dict.remove task_id r.run_started_at;
    }
    else r

unfoldable pub get_active_run_id : String → Runs → Option String
get_active_run_id task_id r = Dict.get task_id r.active_run_by_task

-- The tests of `is_graph_run_active`: an empty id counts as none.
matches : Option String → Option String → Bool
matches none run_id = false
matches (some active) none = truthy active
matches (some active) (some run_id) = truthy active && not (truthy run_id && not (active == run_id))

unfoldable pub is_graph_run_active : String → Option String → Runs → Bool
unfolding matches get_active_run_id
is_graph_run_active task_id run_id r = matches (get_active_run_id task_id r) run_id
