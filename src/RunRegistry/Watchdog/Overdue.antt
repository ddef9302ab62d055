-- ===== src/RunRegistry/Watchdog/Overdue.antt =====
-- What the check of the wall clock comes to for a task that is overdue.
use agent_langraph.Prelude.{
  ℕ, ◌<◌, String, ◌≡◌, inl, inr, true, false, Bool-cases, arith, List, [], ◌∷◌, ◌==◌, leb, member,
  All, subst, sym, refl, ◌∙◌, ◌++◌, ||_false,
}
use agent_langraph.Prelude.Dict
use agent_langraph.Prelude.Dict.{Dict, get-empty, get-put, get-remove}
use agent_langraph.RunRegistry.Watchdog.{
  timed_out, World, Stored, raises, Result, returned, raised, finalize_stored,
  finalize_timed_out_task, and_then, finalize_all, check_turn_wall_clock_budget,
}
use agent_langraph.RunRegistry.Watchdog.Finalize.{IsEnded, IsSame, stored-IsSame, goes_on, stops}

-- No call of the store raises for these tasks.
abbrev pub NoneRaises : (String → Stored) → List String → Type 0
NoneRaises store ts = All (λ u. raises (store u) ≡ false) ts

abbrev late : String
late = "turn_wall_clock_budget_exceeded"

module _ (store : String → Stored) (iso : String) where
  -- The loop ran to its end, and the task is ended.
  abbrev Done : String → World × Result (Unit {0}) → Type 0
  Done t (w, r) = (r ≡ returned tt) × IsEnded t w.runs

  -- The loop stopped with an exception, and left the task as it was.
  abbrev Left : String → World → World × Result (Unit {0}) → Type 0
  Left t w (w', r) = (r ≡ raised) × IsSame iso t w'.runs w.runs

  finalize_all_stops :
      (t u : String) (before rest : List String) (w : World)
      → raises (store u) ≡ true
      → (t == u) ≡ false
      → member t before ≡ false
      → Left t w (finalize_all store iso (before ++ (u ∷ rest)) w)
  unfolding finalize_all finalize_timed_out_task
  finalize_all_stops t u [] rest w h other m =
      subst (Left t w) (sym (stops iso u late (store u) w (finalize_all store iso rest) h))
        (refl, stored-IsSame iso u late t (store u) w other)
  finalize_all_stops t u (b ∷ before) rest w h other m =
      let others = ||_false (t == b) (member t before) m in
      let first = stored-IsSame iso b late t (store b) w others.0 in
      let next = finalize_all store iso (before ++ (u ∷ rest)) in
      elim (Bool-cases (raises (store b))) [
        | inl bad ↦ subst (Left t w) (sym (stops iso b late (store b) w next bad)) (refl, first)
        | inr good ↦
            let (r, same) =
              finalize_all_stops t u before rest (finalize_stored (store b) iso b late w).0 h other
                others.1 in
            subst (Left t w) (sym (goes_on iso b late (store b) w next good))
              (r, (same.0 ∙ first.0, same.1 ∙ first.1))
      ]

  -- With a positive budget, when the task store raises for a task that has timed out, the check
  -- raises, and a task that comes after that one keeps its live run and its start time, however long
  -- it has run.
  pub watchdog_leaves_rest :
      (budget now : ℕ) (w : World) (t u : String) (before rest : List String)
      → 0 < budget
      → timed_out now budget w.runs.run_started_at ≡ before ++ (u ∷ rest)
      → raises (store u) ≡ true
      → (t == u) ≡ false
      → member t before ≡ false
      → let (w', r) = check_turn_wall_clock_budget store budget now iso w in
        (r ≡ raised) × IsSame iso t w'.runs w.runs
  unfolding check_turn_wall_clock_budget
  watchdog_leaves_rest budget now w t u before rest on e h other m =
      let off : leb budget 0 ≡ false = ground arith in
      rw (off, e)
        (stopped (finalize_all store iso (before ++ (u ∷ rest)) w)
          (finalize_all_stops t u before rest w h other m))
    where
      stopped :
          (r : World × Result (Unit {0}))
          → Left t w r
          → let (w', o) = and_then r (λ w'. (w', returned (before ++ (u ∷ rest)))) in
            (o ≡ raised) × IsSame iso t w'.runs w.runs
      stopped (w', returned x) (r, same) = cc r
      stopped (w', raised) (r, same) = (refl, same)
