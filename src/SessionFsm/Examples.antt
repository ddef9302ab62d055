-- ===== src/SessionFsm/Examples.antt =====
-- A session that was steered and is dispatched again.
use agent_langraph.Prelude.{◌≡◌, refl, true, false, none, some, []}
use agent_langraph.RunRegistry.{Runs}
use agent_langraph.SessionFsm.{
  running, replanning, waiting_user, Payload, State, get_fsm_state, routing_needs_replan,
  sync_legacy_flags_from_fsm, sync_fsm_state, transition_fsm,
}
use agent_langraph.SessionFsm.Flags.{running_reverts}

abbrev runs : Runs
runs = record { active_run_by_task = []; run_started_at = [] }

abbrev payload : Payload
payload = record {
  fsm_state = none;
  require_planning_after_contract_invalidation = none;
  require_planning_after_steer = none;
  steer_planning_done = none;
  foreground_replan_dispatch = some true;
  pending_replan = none;
  skip_planning_llm = some true;
  turn_contract = some true;
  selected_tools = none;
  tool_params = none;
  tool_stages = none;
  turn_contract_invalidation = none;
}

abbrev session : State
session = record {
  input_payload = payload;
  fsm_state = none;
  review_required = false;
  status = some "TOOL_RUNNING";
  task_id = some "t";
  execution_run = none;
}

abbrev reviewed : State
reviewed = record session { review_required = true }

-- The phase is WAITING_USER, and the routes see a replan.
waiting_replan :
    (get_fsm_state runs reviewed ≡ waiting_user) × (routing_needs_replan reviewed ≡ true)
unfolding get_fsm_state routing_needs_replan
waiting_replan = (refl, refl)

running_reverts_example :
    ((transition_fsm running session).input_payload.foreground_replan_dispatch ≡ some true)
    × ((sync_legacy_flags_from_fsm runs session).input_payload.foreground_replan_dispatch
        ≡ some true)
    × (get_fsm_state runs (sync_fsm_state runs (transition_fsm running session)) ≡ replanning)
running_reverts_example = running_reverts runs session refl refl
