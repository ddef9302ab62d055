-- ===== src/Router.antt =====
-- app/runtime/router.py and app/runtime/reflection_router.py: the forks of the graph after a node.
pub mod Retry
mod Examples
use Prim.Native.String.{◌++◌}
use text.Mathlib.Text.{find?}
use agent_langraph.Prelude.{
  ℕ, String, Bool, true, false, not, ◌&&◌, ◌||◌, Option, none, some, List, [], ◌∷◌, ◌==◌,
  if◌then◌else◌, or_text, any_of, member, leb, is_some,
}
use agent_langraph.Converge.{
  Next, proceed, replan, finalize, force_write, ConvergeResult, Action, is_empty,
}

pub data Node : Type 0 where
  tool_execution context_governance incremental_planning dead_letter : Node
  retrieval engineering_execution reasoning policy output human_review rejected : Node

-- A tool result as the routers read it; `flagged` is `tool_result_flag(item, "non_retryable")`.
pub record ToolRow : Type 0 where
  pub status : Option String
  pub has_error : Bool
  pub non_retryable : Bool
  pub flagged : Bool
  pub error_code : Option String

-- The state, and what other services say of it. `validation_issues` is
-- `validate_turn_contract_execution(state)`, `last_action` that of the last entry of the audit log.
pub record State : Type 0 where
  pub retry_count : ℕ
  pub max_retry_count : ℕ
  pub errors : List String
  pub last_action : Option String
  pub tool_rows : List ToolRow
  pub state_selects_tools : Bool
  pub contract_names_tools : Bool
  pub contract_requires_side_effects : Bool
  pub is_turn_contract_fulfilled : Bool
  pub validation_issues : List String
  pub mode_blocks_writing : Bool
  pub writing_gate_allowed : Bool
  pub writing_intent_enabled : Bool
  pub last_tool_failed : Bool
  pub had_fatal_error : Bool
  pub is_batch_continuation_ready : Bool
  pub can_planning_replan_again : Bool
  pub pending_actions : List Action
  pub policy_result : Option String

-- A signal that a router writes to the stored state on its way.
pub data Saved : Type 0 where
  nothing_saved : Saved
  force_write_signal : Saved
  planning_replan_signal : List String → Saved

unfoldable pub failed_route : State → Node → Node
failed_route s retry_node = if leb s.max_retry_count s.retry_count then dead_letter else retry_node

unfoldable pub writing_route_allowed : State → Bool
writing_route_allowed s =
    if s.mode_blocks_writing then false else s.writing_gate_allowed && s.writing_intent_enabled

abbrev pub is_failure_row : ToolRow → Bool
is_failure_row r =
    (elim r.status [ none ↦ false | some t ↦ member t ("error" ∷ "skipped" ∷ []) ]) || r.has_error

unfoldable pub is_non_retryable_tool_failure : State → Bool
is_non_retryable_tool_failure s =
    any_of (λ e. is_some (find? e "tool_execution(non_retryable)")) s.errors
    || ((or_text s.last_action "" == "non_retryable_error")
        || any_of
            (λ r.
              is_failure_row r
              && ((r.non_retryable || r.flagged)
                  || (or_text r.error_code "" == "artifact_not_found")))
            s.tool_rows)

unfoldable pub route_after_retrieval : State → Node
unfolding failed_route writing_route_allowed
route_after_retrieval s =
    if s.had_fatal_error
    then failed_route s retrieval
    else if s.state_selects_tools
    then tool_execution
    else if writing_route_allowed s
    then context_governance
    else if s.contract_requires_side_effects && s.contract_names_tools
    then tool_execution
    else context_governance

abbrev pub is_next : Next → Next → Bool
is_next proceed proceed = true
is_next replan replan = true
is_next finalize finalize = true
is_next force_write force_write = true
is_next _ _ = false

-- `issues or [f"converge:{reason}"]`
abbrev pub or_issues : List String → String → List String
or_issues [] reason = ("converge:" ++ reason) ∷ []
or_issues (i ∷ is) reason = i ∷ is

-- The fork after a tool that did not fail and is not in a batch.
unfoldable pub route_after_success : State → ConvergeResult → Node × Saved
unfolding writing_route_allowed
route_after_success s conv =
    if is_next conv.next force_write
    then (incremental_planning, force_write_signal)
    else if is_next conv.next replan && s.can_planning_replan_again
    then (incremental_planning, planning_replan_signal (or_issues s.validation_issues conv.reason))
    else if conv.done || is_next conv.next finalize
    then (context_governance, nothing_saved)
    else if writing_route_allowed s
    then (context_governance, nothing_saved)
    else if (s.contract_requires_side_effects && s.contract_names_tools)
        && (not (is_empty s.pending_actions) && not s.is_turn_contract_fulfilled)
    then (tool_execution, nothing_saved)
    else (context_governance, nothing_saved)

unfoldable pub route_after_failure : State → Node × Saved
unfolding is_non_retryable_tool_failure
route_after_failure s =
    if is_non_retryable_tool_failure s
    then (context_governance, nothing_saved)
    else if leb s.max_retry_count s.retry_count
    then (dead_letter, nothing_saved)
    else (tool_execution, nothing_saved)

-- `conv` is the answer of `evaluate_convergence` for the state.
unfoldable pub route_after_tool : State → ConvergeResult → Node × Saved
unfolding route_after_success route_after_failure
route_after_tool s conv =
    if s.last_tool_failed
    then route_after_failure s
    else if s.is_batch_continuation_ready
    then (tool_execution, nothing_saved)
    else route_after_success s conv

unfoldable pub route_after_engineering : State → Node
unfolding failed_route
route_after_engineering s =
    if s.had_fatal_error then failed_route s engineering_execution else policy

unfoldable pub route_after_policy : State → Node
route_after_policy s =
    let result = or_text s.policy_result "CONTINUE" in
    if result == "CONTINUE"
    then output
    else if member result ("REVIEW" ∷ "ESCALATE" ∷ [])
    then human_review
    else rejected

-- What `route_after_reflection` reads; the limits are settings.
pub record Reflection : Type 0 where
  pub count : ℕ
  pub max_rounds : ℕ
  pub recommended_action : Option String
  pub retry_planning : Bool
  pub retry_reasoning : Bool
  pub planning_revision_count : ℕ
  pub max_planning_revisions : ℕ

unfoldable pub route_after_reflection : Reflection → Node
route_after_reflection r =
    let recommended = or_text r.recommended_action "" in
    if leb r.max_rounds r.count
    then policy
    else if ((recommended == "replan") || r.retry_planning)
        && not (leb r.max_planning_revisions r.planning_revision_count)
    then incremental_planning
    else if (recommended == "retry_same_step") || r.retry_reasoning
    then reasoning
    else policy
