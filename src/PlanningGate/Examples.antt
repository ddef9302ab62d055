-- ===== src/PlanningGate/Examples.antt =====
-- A turn whose contract names a tool, before and after an audit that finds its route misaligned.
use agent_langraph.Prelude.{◌≡◌, refl, true, false, none, some, [], ◌∷◌}
use agent_langraph.Router
use agent_langraph.Router.{Node, tool_execution, incremental_planning}
use agent_langraph.TurnContract.{
  Payload, tools_of, contract_of, contract_from_payload, contract_tool_names,
}
use agent_langraph.TurnContract.Guard.{contract_requires_execution_route}
use agent_langraph.PlanningGate.{Gate, nothing, route_after_incremental_planning}
use agent_langraph.PlanningGate.Executes.{IsCounted, replan-IsCounted}

abbrev router : Router.State
router = record {
  retry_count = 0;
  max_retry_count = 2;
  errors = [];
  last_action = none;
  tool_rows = [];
  state_selects_tools = false;
  contract_names_tools = true;
  contract_requires_side_effects = true;
  is_turn_contract_fulfilled = false;
  validation_issues = [];
  mode_blocks_writing = false;
  writing_gate_allowed = false;
  writing_intent_enabled = false;
  last_tool_failed = false;
  had_fatal_error = false;
  is_batch_continuation_ready = false;
  can_planning_replan_again = true;
  pending_actions = [];
  policy_result = none;
}

abbrev payload : Payload
payload = record {
  turn_contract = some (record { primary_op = "run_tool"; ops = []; tools = "web_search" ∷ [] });
  selected_tools = [];
  planned_actions = [];
}

abbrev gate : Gate
gate = record {
  router = router;
  payload = payload;
  signals = record {
    aligned = some true;
    audit_issues = [];
    route_audit_replan = false;
    feedback = [];
    planning_revision_count = 0;
  };
  max_planning_revisions = 2;
  degrades = false;
  state_tools = [];
  is_session_inquiry = false;
  after_tool_execution = false;
  is_engineering = false;
  skip_retrieval = true;
  retrieval_after_planning = false;
  needs_session_memory = false;
  writing_intent = false;
  actions_retrieve = false;
  steps_search = false;
  skip_without_tools = true;
}

abbrev misaligned : Gate
misaligned = record gate {
  signals = record {
    aligned = some false;
    audit_issues = "mode" ∷ [];
    route_audit_replan = false;
    feedback = [];
    planning_revision_count = 1;
  };
}

to_tools : route_after_incremental_planning (λ xs. xs) gate ≡ (tool_execution, nothing)
unfolding route_after_incremental_planning contract_requires_execution_route contract_tool_names
    contract_from_payload contract_of tools_of
to_tools = refl

back_to_planning : (route_after_incremental_planning (λ xs. xs) misaligned).0 ≡ incremental_planning
unfolding route_after_incremental_planning
back_to_planning = refl

replan-IsCounted_example :
    IsCounted misaligned (route_after_incremental_planning (λ xs. xs) misaligned).1
replan-IsCounted_example = replan-IsCounted (λ xs. xs) misaligned
