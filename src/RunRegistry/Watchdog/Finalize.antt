-- ===== src/RunRegistry/Watchdog/Finalize.antt =====
-- What `finalize_timed_out_task` does to the registry of the runs.
use agent_langraph.Prelude.{
  ℕ, ◌+◌, ◌<◌, String, ◌≡◌, ◌⊎◌, inl, inr, true, false, Bool-cases, Option-cases, none, some, arith,
  [], ◌∷◌, eq_iff, eq_refl, ◌==◌, truthy, member, refl,
}
use agent_langraph.Prelude.Dict
use agent_langraph.Prelude.Dict.{Dict, get-empty, get-put, get-remove}
use agent_langraph.RunRegistry.{Runs, end_graph_run, get_active_run_id}
use agent_langraph.RunRegistry.Ownership.{IsConsistent, end-IsConsistent}
use agent_langraph.RunRegistry.Watchdog.{
  timed_out, World, end_active, Stored, load_raises, missing, save_raises, saved, raises, Result,
  raised, cut_off, finalize_stored, and_then,
}

pub member-timed_out :
    (now budget : ℕ) (d : Dict ℕ) (t : String) (s : ℕ)
    → Dict.get t d ≡ some s
    → s + budget < now
    → member t (timed_out now budget d) ≡ true
unfolding timed_out Dict.get
member-timed_out now budget [] t s h late = cc
member-timed_out now budget ((u, s') ∷ d) t s h late =
    ground (arith, member-timed_out now budget d t s, eq_iff u t, eq_iff t u)

abbrev pub IsEnded : String → Runs → Type 0
IsEnded t r = (Dict.get t r.active_run_by_task ≡ none) × (Dict.get t r.run_started_at ≡ none)

module _ (iso : String) where
  pub cut_off-IsConsistent :
      (t reason : String) (w : World)
      → IsConsistent w.runs
      → IsConsistent (cut_off iso t reason w).runs
  unfolding cut_off
  cut_off-IsConsistent t reason w c = ended (Option-cases (get_active_run_id t w.runs))
    where
      ended :
          ((get_active_run_id t w.runs ≡ none)
            ⊎ ((id : String) × (get_active_run_id t w.runs ≡ some id)))
          → IsConsistent (end_active (get_active_run_id t w.runs) t w.runs)
      ended (inl e) = rw e c
      ended (inr (id, e)) = rw e (elim (Bool-cases (truthy id)) [
        | inl real ↦ rw real (end-IsConsistent t id w.runs c)
        | inr blank ↦ rw blank c
      ])

  end_self :
      (t id : String) (r : Runs)
      → Dict.get t r.active_run_by_task ≡ some id
      → let r' = end_graph_run t id r in
        (Dict.get t r'.active_run_by_task ≡ none) × (Dict.get t r'.run_started_at ≡ none)
  unfolding end_graph_run
  end_self t id r e =
      rw e (rw (eq_refl id) (rw get-remove (rw (eq_refl t)), rw get-remove (rw (eq_refl t))))

  end_active_ends :
      (t : String) (r : Runs)
      → IsConsistent r
      → let r' = end_active (Dict.get t r.active_run_by_task) t r in
        (Dict.get t r'.active_run_by_task ≡ none) × (Dict.get t r'.run_started_at ≡ none)
  unfolding end_active
  end_active_ends t r c = elim (Option-cases (Dict.get t r.active_run_by_task)) [
    | inl e ↦ rw e (e, ground (arith, e, c.together t))
    | inr (id, e) ↦
        let real : truthy id ≡ true = ground (arith, e, c.named t, eq_iff id "") in
        rw e (rw real (end_self t id r e))
  ]

  -- The task that is cut off has no live run and no start time left.
  pub cut_off_ends :
      (t reason : String) (w : World)
      → IsConsistent w.runs
      → IsEnded t (cut_off iso t reason w).runs
  unfolding cut_off get_active_run_id
  cut_off_ends t reason w c = end_active_ends t w.runs c

  end-IsEnded : (t u id : String) (r : Runs) → IsEnded t r → IsEnded t (end_graph_run u id r)
  unfolding end_graph_run
  end-IsEnded t u id r e =
      ground (arith, get-remove u t r.active_run_by_task, get-remove u t r.run_started_at)

  pub cut_off-IsEnded :
      (t u reason : String) (w : World) → IsEnded t w.runs → IsEnded t (cut_off iso u reason w).runs
  unfolding cut_off end_active
  cut_off-IsEnded t u reason w e = elim (Option-cases (get_active_run_id u w.runs)) [
    | inl none_active ↦ rw none_active (ground arith)
    | inr (id, active) ↦ rw active (ground (arith, end-IsEnded t u id w.runs e))
  ]

  -- What the registry of runs knows of a task.
  abbrev pub IsSame : String → Runs → Runs → Type 0
  IsSame t a b =
      (Dict.get t a.active_run_by_task ≡ Dict.get t b.active_run_by_task)
      × (Dict.get t a.run_started_at ≡ Dict.get t b.run_started_at)

  end-IsSame : (t u id : String) (r : Runs) → (t == u) ≡ false → IsSame t (end_graph_run u id r) r
  unfolding end_graph_run
  end-IsSame t u id r other = ground (
    arith,
    get-remove u t r.active_run_by_task,
    get-remove u t r.run_started_at,
    eq_iff t u,
    eq_iff u t,
    other,
  )

  pub cut_off-IsSame :
      (t u reason : String) (w : World)
      → (t == u) ≡ false
      → IsSame t (cut_off iso u reason w).runs w.runs
  unfolding cut_off end_active
  cut_off-IsSame t u reason w other = elim (Option-cases (get_active_run_id u w.runs)) [
    | inl none_active ↦ rw none_active (refl, refl)
    | inr (id, active) ↦ rw active (elim (Bool-cases (truthy id)) [
      | inl real ↦ rw real (end-IsSame t u id w.runs other)
      | inr blank ↦ rw blank (refl, refl)
    ])
  ]

module _ (iso u reason : String) where
  pub stored-IsConsistent :
      (s : Stored) (w : World)
      → IsConsistent w.runs
      → IsConsistent (finalize_stored s iso u reason w).0.runs
  unfolding finalize_stored
  stored-IsConsistent load_raises w c = c
  stored-IsConsistent missing w c = c
  stored-IsConsistent save_raises w c = cut_off-IsConsistent iso u reason w c
  stored-IsConsistent saved w c = cut_off-IsConsistent iso u reason w c

  pub stored_ends :
      (s : Stored) (w : World)
      → s ≡ saved
      → IsConsistent w.runs
      → IsEnded u (finalize_stored s iso u reason w).0.runs
  unfolding finalize_stored
  stored_ends s w is_saved c = rw is_saved (cut_off_ends iso u reason w c)

  pub stored-IsEnded :
      (t : String) (s : Stored) (w : World)
      → IsEnded t w.runs
      → IsEnded t (finalize_stored s iso u reason w).0.runs
  unfolding finalize_stored
  stored-IsEnded t load_raises w e = e
  stored-IsEnded t missing w e = e
  stored-IsEnded t save_raises w e = cut_off-IsEnded iso t u reason w e
  stored-IsEnded t saved w e = cut_off-IsEnded iso t u reason w e

  pub stored-IsSame :
      (t : String) (s : Stored) (w : World)
      → (t == u) ≡ false
      → IsSame iso t (finalize_stored s iso u reason w).0.runs w.runs
  unfolding finalize_stored
  stored-IsSame t load_raises w other = (refl, refl)
  stored-IsSame t missing w other = (refl, refl)
  stored-IsSame t save_raises w other = cut_off-IsSame iso t u reason w other
  stored-IsSame t saved w other = cut_off-IsSame iso t u reason w other

  pub goes_on :
      (s : Stored) (w : World) (f : World → World × Result (Unit {0}))
      → raises s ≡ false
      → and_then (finalize_stored s iso u reason w) f ≡ f (finalize_stored s iso u reason w).0
  unfolding finalize_stored and_then
  goes_on load_raises w f h = cc h
  goes_on missing w f h = refl
  goes_on save_raises w f h = cc h
  goes_on saved w f h = refl

  pub stops :
      (s : Stored) (w : World) (f : World → World × Result (Unit {0}))
      → raises s ≡ true
      → and_then (finalize_stored s iso u reason w) f
        ≡ ((finalize_stored s iso u reason w).0, raised)
  unfolding finalize_stored and_then
  stops load_raises w f h = refl
  stops missing w f h = cc h
  stops save_raises w f h = refl
  stops saved w f h = cc h
