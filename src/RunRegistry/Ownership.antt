-- ===== src/RunRegistry/Ownership.antt =====
-- A run that has begun stays the live one until it ends or a newer one begins.
use agent_langraph.Prelude.{
  ℕ, String, ◌≡◌, ◌≢◌, Bool, true, false, ◌&&◌, ||_false, none, some, arith, List, [], ◌∷◌, eq_iff,
  eq_refl, ◌==◌, any_of, truthy, is_some,
}
use agent_langraph.Prelude.Dict
use agent_langraph.Prelude.Dict.{get-empty, get-put, get-remove}
use agent_langraph.RunRegistry.{
  Runs, empty, begin_graph_run, end_graph_run, get_active_run_id, is_graph_run_active,
}

pub data Op : Type 0 where
  begin : String → String → ℕ → Op
  end : String → String → Op

unfoldable pub step : Op → Runs → Runs
step (begin t run now) r = begin_graph_run t run now r
step (end t run) r = end_graph_run t run r

unfoldable pub run : List Op → Runs → Runs
run [] r = r
run (op ∷ ops) r = run ops (step op r)

-- Whether an operation begins a run of the task, or ends this very run of it.
abbrev pub displaces : String → String → Op → Bool
displaces t id (begin u run now) = u == t
displaces t id (end u run) = u == t && run == id

step_keeps :
    (t id : String) (op : Op) (r : Runs)
    → Dict.get t r.active_run_by_task ≡ some id
    → displaces t id op ≡ false
    → Dict.get t (step op r).active_run_by_task ≡ some id
unfolding step begin_graph_run end_graph_run
step_keeps t id (begin u run now) r h keeps = rw get-put (rw keeps h)
step_keeps t id (end u run) r h keeps =
    ground (arith, get-remove u t r.active_run_by_task, eq_iff u t, eq_iff id run, eq_iff run id)

run_keeps :
    (t id : String) (ops : List Op) (r : Runs)
    → Dict.get t r.active_run_by_task ≡ some id
    → any_of (displaces t id) ops ≡ false
    → Dict.get t (run ops r).active_run_by_task ≡ some id
unfolding run
run_keeps t id [] r h keeps = h
run_keeps t id (op ∷ ops) r h keeps =
    let first = ||_false (displaces t id op) (any_of (displaces t id) ops) keeps in
    run_keeps t id ops (step op r) (step_keeps t id op r h first.0) first.1

-- After a run with a non-empty id has begun, it is the live run of its task through any later
-- operations that neither begin a run of the task nor end this one: ending an older run of the
-- same task, late or twice, does not clear it.
pub begun_run_stays_active :
    (t id : String) (now : ℕ) (ops : List Op) (r : Runs)
    → truthy id ≡ true
    → any_of (displaces t id) ops ≡ false
    → let r' = run ops (begin_graph_run t id now r) in
      (get_active_run_id t r' ≡ some id)
      × (is_graph_run_active t (some id) r' ≡ true)
      × (is_graph_run_active t none r' ≡ true)
unfolding get_active_run_id is_graph_run_active
begun_run_stays_active t id now ops r real keeps =
    let h = run_keeps t id ops (begin_graph_run t id now r) (begun t id now r) keeps in
    (h, ground (arith, h, eq_refl id), ground (arith, h))
  where
    begun :
        (t id : String) (now : ℕ) (r : Runs)
        → Dict.get t (begin_graph_run t id now r).active_run_by_task ≡ some id
    begun t id now r = unfold begin_graph_run in rw get-put (rw (eq_refl t))

-- Every task with a live run has a start time and the other way round, and no live id is empty.
pub record IsConsistent (r : Runs) : Type 0 where
  pub together :
      (t : String)
      → is_some (Dict.get t r.active_run_by_task) ≡ is_some (Dict.get t r.run_started_at)
  pub named : (t : String) → Dict.get t r.active_run_by_task ≢ some ""

abbrev pub BeginsNamed : Op → Type 0
BeginsNamed (begin t run now) = truthy run ≡ true
BeginsNamed (end t run) = Unit

begin-IsConsistent :
    (t id : String) (now : ℕ) (r : Runs)
    → truthy id ≡ true
    → IsConsistent r
    → IsConsistent (begin_graph_run t id now r)
unfolding begin_graph_run
begin-IsConsistent t id now r real c = record {
  together = λ u.
      ground (
        arith,
        get-put t u id r.active_run_by_task,
        get-put t u now r.run_started_at,
        c.together u,
      );
  named = λ u. ground (arith, get-put t u id r.active_run_by_task, c.named u, eq_iff id "");
}

pub end-IsConsistent :
    (t id : String) (r : Runs) → IsConsistent r → IsConsistent (end_graph_run t id r)
unfolding end_graph_run
end-IsConsistent t id r c = record {
  together = λ u.
      ground
        (arith, get-remove t u r.active_run_by_task, get-remove t u r.run_started_at, c.together u);
  named = λ u. ground (arith, get-remove t u r.active_run_by_task, c.named u);
}

abbrev pub AllNamed : List Op → Type 0
AllNamed [] = Unit
AllNamed (op ∷ ops) = BeginsNamed op × AllNamed ops

-- From a consistent registry, any operations of which each begins a run under a non-empty id keep
-- the two dictionaries in step.
pub run-IsConsistent :
    (ops : List Op) (r : Runs) → AllNamed ops → IsConsistent r → IsConsistent (run ops r)
unfolding run step
run-IsConsistent [] r ok c = c
run-IsConsistent (begin t id now ∷ ops) r ok c =
    run-IsConsistent ops (begin_graph_run t id now r) ok.1 (begin-IsConsistent t id now r ok.0 c)
run-IsConsistent (end t id ∷ ops) r ok c =
    run-IsConsistent ops (end_graph_run t id r) ok.1 (end-IsConsistent t id r c)

pub empty-IsConsistent : IsConsistent empty
empty-IsConsistent = record {
  together = λ t. rw (get-empty {V = String} t, get-empty {V = ℕ} t);
  named = λ t. rw (get-empty {V = String} t) (λ e. cc e);
}
