-- ===== src/RunRegistry/Examples.antt =====
-- Two runs of one task, the first of which ends late, and a run that is overdue.
use agent_langraph.Prelude.{String, ◌≡◌, refl, arith, [], ◌∷◌, ◌==◌, if◌then◌else◌}
use agent_langraph.Prelude.Dict
use agent_langraph.RunRegistry.{Runs, empty, begin_graph_run}
use agent_langraph.RunRegistry.Ownership.{begin, run, step}
use agent_langraph.RunRegistry.Watchdog.{
  World, Stored, saved, load_raises, raised, timed_out, check_turn_wall_clock_budget,
}
use agent_langraph.RunRegistry.Watchdog.Finalize.{IsSame}
use agent_langraph.RunRegistry.Watchdog.Overdue.{watchdog_leaves_rest}
use agent_langraph.TaskControl

abbrev first : Runs
first = begin_graph_run "t" "a" 10 empty

abbrev world : World
world = record {
  runs = run (begin "t" "a" 10 ∷ []) empty;
  controls = TaskControl.empty;
  pending_stream_events = [];
}

-- Two tasks are overdue, and the state of the first cannot be loaded.
abbrev two_overdue : World
two_overdue = record world { runs = run (begin "s" "b" 10 ∷ begin "t" "a" 10 ∷ []) empty }

abbrev unreadable : String → Stored
unreadable t = if t == "s" then load_raises else saved

watchdog_leaves_rest_example :
    let (w, r) = check_turn_wall_clock_budget unreadable 480 500 "12:00" two_overdue in
    (r ≡ raised) × IsSame "12:00" "t" w.runs two_overdue.runs
unfolding run step begin_graph_run timed_out Dict.get Dict.put
watchdog_leaves_rest_example =
    watchdog_leaves_rest unreadable "12:00" 480 500 two_overdue "t" "s" [] ("t" ∷ []) (omega arith)
      refl refl refl refl
