-- ===== src/Router/Examples.antt =====
-- A tool that failed once, of two tries.
use agent_langraph.Prelude.{◌≡◌, refl, ◌⊎◌, true, false, none, some, [], ◌∷◌}
use agent_langraph.Converge.{proceed, replan, ConvergeResult, result}
use agent_langraph.Router.{
  incremental_planning, State, ToolRow, planning_replan_signal, is_non_retryable_tool_failure,
  route_after_tool,
}
use agent_langraph.Router.Retry.{IsRetryable, IsOwed, tool_again_only_if}

abbrev failure : ToolRow
failure = record {
  status = some "error";
  has_error = true;
  non_retryable = false;
  flagged = false;
  error_code = some "timeout";
}

abbrev failed_state : State
failed_state = record {
  retry_count = 1;
  max_retry_count = 2;
  errors = "tool_execution: timeout" ∷ [];
  last_action = none;
  tool_rows = failure ∷ [];
  state_selects_tools = true;
  contract_names_tools = false;
  contract_requires_side_effects = false;
  is_turn_contract_fulfilled = false;
  validation_issues = [];
  mode_blocks_writing = false;
  writing_gate_allowed = false;
  writing_intent_enabled = false;
  last_tool_failed = true;
  had_fatal_error = false;
  is_batch_continuation_ready = false;
  can_planning_replan_again = true;
  pending_actions = [];
  policy_result = none;
}

abbrev no_signal : ConvergeResult
no_signal = result false proceed "no_signal"

replanned :
    route_after_tool
      (record failed_state { last_tool_failed = false })
      (result false replan "edit_not_applied")
    ≡ (incremental_planning, planning_replan_signal ("converge:edit_not_applied" ∷ []))
unfolding route_after_tool
replanned = refl

tool_again_only_if_example :
    IsRetryable failed_state
    ⊎ ((failed_state.is_batch_continuation_ready ≡ true) ⊎ IsOwed failed_state no_signal)
unfolding route_after_tool is_non_retryable_tool_failure
tool_again_only_if_example = tool_again_only_if failed_state no_signal refl
