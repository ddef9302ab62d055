-- ===== src/PlanningGate.antt =====
-- app/runtime/planning_gate_router.py: the fork after planning, with the replan signal of
-- app/services/planning_retry_signals.py.
pub mod Executes
mod Examples
use agent_langraph.Prelude.{
  ℕ, suc, ◌+◌, String, Bool, true, false, not, ◌&&◌, ◌||◌, Option, none, some, List, [], ◌∷◌, ◌++◌,
  if◌then◌else◌, is_some, any_of, leb, ltb,
}
use agent_langraph.TaskAgenda.{is_empty}
use agent_langraph.Router
use agent_langraph.Router.{
  Node, tool_execution, context_governance, incremental_planning, dead_letter, retrieval,
  engineering_execution, failed_route, writing_route_allowed, is_non_retryable_tool_failure,
}
use agent_langraph.TurnContract.{Payload, contract_tool_names, contract_requires_side_effects}
use agent_langraph.TurnContract.Guard.{contract_requires_execution_route}

-- The keys of the route audit in the payload, and the count of revisions; `feedback` is the list of
-- issues that `build_replan_feedback` makes its text of.
pub record Signals : Type 0 where
  pub aligned : Option Bool
  pub audit_issues : List String
  pub route_audit_replan : Bool
  pub feedback : List String
  pub planning_revision_count : ℕ

-- What the fork reads. Truths that other services read off the same state are part of it: whether the
-- turn asks for the sources of the session, `should_route_engineering_execution`, the two questions of
-- retrieval_policy.py, whether the planned actions retrieve, and whether a step names a search.
pub record Gate : Type 0 where
  pub router : Router.State
  pub payload : Payload
  pub signals : Signals
  pub max_planning_revisions : ℕ
  pub degrades : Bool
  pub state_tools : List String
  pub is_session_inquiry : Bool
  pub after_tool_execution : Bool
  pub is_engineering : Bool
  pub skip_retrieval : Bool
  pub retrieval_after_planning : Bool
  pub needs_session_memory : Bool
  pub writing_intent : Bool
  pub actions_retrieve : Bool
  pub steps_search : Bool
  pub skip_without_tools : Bool

abbrev pub first_five : List String → List String
first_five (a ∷ b ∷ c ∷ d ∷ e ∷ rest) = a ∷ b ∷ c ∷ d ∷ e ∷ []
first_five xs = xs

unfoldable pub route_audit_issues : Signals → List String
route_audit_issues s = elim s.aligned [
  | none ↦ []
  | some b ↦ if b then [] else first_five s.audit_issues
]

-- `issues` is none where `apply_planning_replan_signal` is called without them; `unique` is
-- `list(dict.fromkeys(xs))`.
unfoldable pub apply_planning_replan_signal :
    (List String → List String) → Option (List String) → Signals → Signals
unfolding route_audit_issues
apply_planning_replan_signal unique issues s =
    let resolved : List String = elim issues [ none ↦ route_audit_issues s | some xs ↦ xs ] in
    if is_empty resolved then s else if s.route_audit_replan then s else record s {
      route_audit_replan = true;
      feedback = unique (s.audit_issues ++ resolved);
      planning_revision_count = s.planning_revision_count + 1;
    }

unfoldable pub can_planning_replan_again : Gate → Bool
can_planning_replan_again g = ltb g.signals.planning_revision_count g.max_planning_revisions

unfoldable pub effective_selected_tools : Gate → List String
effective_selected_tools g =
    if is_empty g.state_tools then contract_tool_names g.payload else g.state_tools

-- What the fork writes to the stored state.
pub data Stored : Type 0 where
  nothing : Stored
  replanned : Signals → Stored
  degraded : Stored

-- A contract that tools must fulfil.
unfoldable pub route_of_contract : Gate → Node
unfolding effective_selected_tools
route_of_contract g =
    if not (is_empty (effective_selected_tools g))
    then tool_execution
    else if writing_route_allowed g.router
    then context_governance
    else if not (is_empty (contract_tool_names g.payload))
    then tool_execution
    else tool_execution

abbrev pub tools_or_governance : Gate → Node
tools_or_governance g =
    if contract_requires_side_effects g.payload && not (is_empty (contract_tool_names g.payload))
    then tool_execution
    else context_governance

-- The fork where no contract and no failure decides.
unfoldable pub route_of_plan : Gate → Node
unfolding effective_selected_tools
route_of_plan g =
    let tools = not (is_empty (effective_selected_tools g)) in
    let writing = writing_route_allowed g.router in
    let needs_retrieval =
      if g.writing_intent && not g.skip_retrieval
      then true
      else g.actions_retrieve || g.steps_search in
    if g.is_engineering
    then engineering_execution
    else if writing && (not tools && g.skip_retrieval)
    then context_governance
    else if g.skip_retrieval && not g.retrieval_after_planning
    then (if tools
        then tool_execution
        else if writing
        then context_governance
        else tools_or_governance g)
    else if g.needs_session_memory && (not tools && not g.writing_intent)
    then retrieval
    else if g.skip_without_tools && (not tools && (not needs_retrieval && not g.writing_intent))
    then context_governance
    else if needs_retrieval
    then retrieval
    else if tools
    then tool_execution
    else if writing
    then context_governance
    else tools_or_governance g

unfoldable pub route_after_audit : Gate → Node
unfolding route_of_contract route_of_plan
route_after_audit g =
    if g.router.had_fatal_error
    then failed_route g.router incremental_planning
    else if contract_requires_execution_route g.payload
    then route_of_contract g
    else if g.router.last_tool_failed && g.after_tool_execution
    then (if is_non_retryable_tool_failure g.router
        then context_governance
        else if leb g.router.max_retry_count g.router.retry_count
        then dead_letter
        else route_of_plan g)
    else route_of_plan g

unfoldable pub route_after_incremental_planning : (List String → List String) → Gate → Node × Stored
unfolding route_audit_issues apply_planning_replan_signal can_planning_replan_again
    route_after_audit
route_after_incremental_planning unique g =
    if g.is_session_inquiry
    then (retrieval, nothing)
    else if not (is_empty (route_audit_issues g.signals))
    then (if can_planning_replan_again g
        then (incremental_planning, replanned (apply_planning_replan_signal unique none g.signals))
        else if g.degrades
        then (incremental_planning, degraded)
        else (route_after_audit g, nothing))
    else (route_after_audit g, nothing)
