-- ===== src/Converge/Honest.antt =====
-- What a converged turn says of its edits, and what a read loop leads to.
use agent_langraph.Prelude.{
  ℕ, suc, ◌+◌, ◌≤◌, ◌≡◌, ◌≢◌, ◌↔◌, refl, inl, inr, Bool, true, false, Bool-cases, List, [], ◌∷◌,
  arith, if◌then◌else◌, eqb, keep, length, All,
}
use agent_langraph.Converge.{
  proceed, replan, finalize, force_write, ConvergeResult, result, ToolResult, State, Services,
  is_edit_applied, is_edit, counted, edit_counts, is_read, tool_counts_as_side_effect,
  read_loop_from, read_loop_detected, decide_edits, decide_read_loop, evaluate_convergence,
}

-- An edit that replaced something.
abbrev pub IsHonest : ToolResult → Type 0
IsHonest r = is_edit r ≡ true → is_edit_applied r.result ≡ true

counted_le : (rs : List ToolResult) → (counted rs).1 ≤ (counted rs).0
unfolding counted
counted_le [] = omega arith
counted_le (r ∷ rs) = ground (arith, counted_le rs)

counted-IsHonest : (rs : List ToolResult) → (counted rs).0 ≤ (counted rs).1 → All IsHonest rs
unfolding counted
counted-IsHonest [] h = tt
counted-IsHonest (r ∷ rs) h =
    (λ e. ground (arith, counted_le rs), counted-IsHonest rs (ground (arith, counted_le rs)))

pub decide_edits-done :
    (services : Services) (attempted applied : ℕ)
    → (decide_edits services attempted applied).done ≡ true
    → attempted ≤ applied
unfolding decide_edits
decide_edits-done services attempted applied h = ground arith

eqb_zero : (n : ℕ) → eqb n 0 ≡ true → n ≡ 0
eqb_zero n h = ground arith

done-edits_le :
    (services : Services) (s : State)
    → (evaluate_convergence services s).done ≡ true
    → (edit_counts s).0 ≤ (edit_counts s).1
unfolding evaluate_convergence
done-edits_le services s h = elim (Bool-cases (eqb (edit_counts s).0 0)) [
  | inl e ↦ omega (arith, eqb_zero (edit_counts s).0 e)
  | inr e ↦ decide_edits-done services (edit_counts s).0 (edit_counts s).1 (rw e at h)
]

edit_counts-counted : (s : State) → s.edits_attempted ≡ 0 → edit_counts s ≡ counted s.tool_results
unfolding edit_counts
edit_counts-counted s e = rw e

-- If the facts of the turn count no edits, then a turn that has converged holds no edit without a
-- replacement: every result of the edit tool replaced something.
pub converged-IsHonest :
    (services : Services) (s : State)
    → s.edits_attempted ≡ 0
    → (evaluate_convergence services s).done ≡ true
    → All IsHonest s.tool_results
converged-IsHonest services s none_counted h =
    counted-IsHonest s.tool_results
      (rw (← edit_counts-counted s none_counted) (done-edits_le services s h))

abbrev pub HasNoEffect : ToolResult → Type 0
HasNoEffect r = tool_counts_as_side_effect r ≡ false

read_loop_from-HasNoEffect :
    (reads : ℕ) (rs : List ToolResult) → read_loop_from reads rs ≡ true → All HasNoEffect rs
unfolding read_loop_from
read_loop_from-HasNoEffect reads [] h = tt
read_loop_from-HasNoEffect reads (r ∷ rs) h = (
  ground arith,
  read_loop_from-HasNoEffect (if is_read r then suc reads else reads) rs (ground arith),
)

read_loop_from-enough :
    (reads : ℕ) (rs : List ToolResult)
    → read_loop_from reads rs ≡ true
    → 3 ≤ reads + length (keep is_read rs)
unfolding read_loop_from
read_loop_from-enough reads [] h = ground arith
read_loop_from-enough reads (r ∷ rs) h =
    ground (arith, read_loop_from-enough (suc reads) rs, read_loop_from-enough reads rs)

read_loop_from-found :
    (reads : ℕ) (rs : List ToolResult)
    → All HasNoEffect rs
    → 3 ≤ reads + length (keep is_read rs)
    → read_loop_from reads rs ≡ true
unfolding read_loop_from
read_loop_from-found reads [] a n = ground arith
read_loop_from-found reads (r ∷ rs) a n =
    ground (arith, a.0, read_loop_from-found (suc reads) rs a.1, read_loop_from-found reads rs a.1)

pub decide_read_loop-stops :
    (services : Services)
    → ((decide_read_loop services).done ≡ false) × ((decide_read_loop services).next ≢ proceed)
unfolding decide_read_loop
decide_read_loop-stops services =
    stops services.read_loop_should_force_write services.write_budget_exhausted
      services.artifact_edit_needs_write_after_reads
  where
    chosen : Bool → Bool → Bool → ConvergeResult
    chosen force exhausted needs_write =
        if force
        then (if exhausted
            then result false finalize "write_budget_exhausted"
            else result false force_write "read_loop_force_write")
        else if needs_write
        then result false replan "artifact_edit_needs_write"
        else result false finalize "read_loop"

    stops :
        (force exhausted needs_write : Bool)
        → ((chosen force exhausted needs_write).done ≡ false)
          × ((chosen force exhausted needs_write).next ≢ proceed)
    stops true true n = (refl, λ e. cc e)
    stops true false n = (refl, λ e. cc e)
    stops false x true = (refl, λ e. cc e)
    stops false x false = (refl, λ e. cc e)

-- In a turn without edits there is a read loop exactly if no result has a side effect and at least
-- three are reads that succeeded; a turn with one has not converged and does not go on.
pub read_loop_stops :
    (services : Services) (s : State)
    → (edit_counts s).0 ≡ 0
    → ((read_loop_detected s.tool_results ≡ true)
        ↔ (All HasNoEffect s.tool_results × (3 ≤ length (keep is_read s.tool_results))))
      × (read_loop_detected s.tool_results ≡ true
          → ((evaluate_convergence services s).done ≡ false)
            × ((evaluate_convergence services s).next ≢ proceed))
unfolding evaluate_convergence read_loop_detected
read_loop_stops services s no_edits = (
  (
    λ h. (
      read_loop_from-HasNoEffect 0 s.tool_results h,
      omega (arith, read_loop_from-enough 0 s.tool_results h),
    ),
    λ h. read_loop_from-found 0 s.tool_results h.0 (omega (arith, h.1)),
  ),
  λ h. rw (no_edits, h) (decide_read_loop-stops services),
)
