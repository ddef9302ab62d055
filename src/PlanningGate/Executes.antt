-- ===== src/PlanningGate/Executes.antt =====
-- What is stored of a replan after planning.
use agent_langraph.Prelude.{
  ◌+◌, ◌≤◌, String, ◌≡◌, refl, true, false, not, none, List, arith, if◌then◌else◌, by_if, ltb→lt,
  ltb→ge,
}
use agent_langraph.TaskAgenda.{is_empty}
use agent_langraph.Router.{Node}
use agent_langraph.PlanningGate.{
  Signals, Gate, Stored, nothing, replanned, degraded, route_audit_issues,
  apply_planning_replan_signal, can_planning_replan_again, route_after_incremental_planning,
}

-- What is stored of a replan.
abbrev pub IsCounted : Gate → Stored → Type 0
IsCounted g nothing = Unit
IsCounted g degraded = g.max_planning_revisions ≤ g.signals.planning_revision_count
IsCounted g (replanned s) =
    (s.planning_revision_count ≤ g.max_planning_revisions)
    × (s.planning_revision_count
        ≡ g.signals.planning_revision_count + (if g.signals.route_audit_replan then 0 else 1))
    × (s.route_audit_replan ≡ true)

no_more :
    (g : Gate)
    → can_planning_replan_again g ≡ false
    → g.max_planning_revisions ≤ g.signals.planning_revision_count
unfolding can_planning_replan_again
no_more g h = ltb→ge g.signals.planning_revision_count g.max_planning_revisions h

signal-IsCounted :
    (unique : List String → List String) (g : Gate)
    → not (is_empty (route_audit_issues g.signals)) ≡ true
    → can_planning_replan_again g ≡ true
    → IsCounted g (replanned (apply_planning_replan_signal unique none g.signals))
unfolding apply_planning_replan_signal can_planning_replan_again
signal-IsCounted unique g misaligned again =
    let below = ltb→lt g.signals.planning_revision_count g.max_planning_revisions again in
    by_if Fine (is_empty (route_audit_issues g.signals)) (λ e. cc (misaligned, e))
      (λ e.
        by_if Fine g.signals.route_audit_replan (λ f. (omega (arith, below), rw f (omega arith), f))
          (λ f. (omega (arith, below), rw f refl, refl)))
  where
    Fine : Signals → Type 0
    Fine s = IsCounted g (replanned s)

-- What the fork after planning stores of a replan: a signal whose count of revisions is within the
-- limit and one more than before, unless the flag was set before, when it is the same; a degraded
-- plan only where the revisions are used up; or nothing.
pub replan-IsCounted :
    (unique : List String → List String) (g : Gate)
    → IsCounted g (route_after_incremental_planning unique g).1
unfolding route_after_incremental_planning
replan-IsCounted unique g =
    by_if (λ (r : Node × Stored). IsCounted g r.1) g.is_session_inquiry (λ e. tt)
      (λ e.
        by_if (λ (r : Node × Stored). IsCounted g r.1)
          (not (is_empty (route_audit_issues g.signals)))
          (λ misaligned.
            by_if (λ (r : Node × Stored). IsCounted g r.1) (can_planning_replan_again g)
              (λ again. signal-IsCounted unique g misaligned again)
              (λ spent.
                by_if (λ (r : Node × Stored). IsCounted g r.1) g.degrades (λ e. no_more g spent)
                  (λ e. tt)))
          (λ e. tt))
