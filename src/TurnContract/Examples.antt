-- ===== src/TurnContract/Examples.antt =====
-- A turn that is to read a chapter and then edit it.
use agent_langraph.Prelude.{
  ◌≡◌, refl, true, false, not, ◌&&◌, ◌||◌, none, some, List, [], ◌∷◌, map, any_of,
}
use agent_langraph.TaskAgenda.{is_empty}
use agent_langraph.SessionFsm.{running, is_replanning}
use agent_langraph.TurnContract.{
  Action, Payload, Facts, action_tool, primary_op_tool, primary_of, add_new, tools_of,
  is_side_effect, contract_of_actions, contract_issues, contract_requires_side_effects,
  is_turn_contract_fulfilled, validate_turn_contract_execution, contract_of, contract_from_payload,
  requires, missing_tools, tool_missing, primary_op_unfulfilled,
}
use agent_langraph.TurnContract.Build.{requires-contract_of_actions}
use agent_langraph.TurnContract.Honour.{
  is_honest, all_in, primary_done, contract_issues_lem, executed_fulfils,
}
use agent_langraph.TurnContract.Guard.{
  Turn, can_finalize_turn, executed, turn_in_waiting, turn_executed_step, is_write,
  primary_of_payload, can_finalize_turn_lem,
}

abbrev acts : List Action
acts =
    record { kind = "read_artifact"; name = "" } ∷ record { kind = "edit_artifact"; name = "" } ∷ []

abbrev empty : Payload
empty = record { turn_contract = none; selected_tools = []; planned_actions = [] }

abbrev payload : Payload
payload = record empty { turn_contract = some (contract_of_actions acts) }

abbrev done : Facts
done = record {
  tools_executed = "read_text_artifact" ∷ "edit_text_artifact" ∷ [];
  executed_actions = true;
  edit_applied = some true;
  write_verified = none;
  write_unchanged = false;
}

abbrev only_read : Facts
only_read = record done { tools_executed = "read_text_artifact" ∷ []; edit_applied = none }

requires-contract_of_actions_example :
    contract_requires_side_effects payload ≡ any_of is_side_effect (map (λ a. a.kind) acts)
requires-contract_of_actions_example = requires-contract_of_actions acts empty (refl, (refl, tt))

executed_fulfils_example : is_turn_contract_fulfilled payload done ≡ true
unfolding action_tool primary_op_tool contract_of_actions primary_of
executed_fulfils_example = executed_fulfils acts empty done (refl, (refl, tt)) refl

contract_issues_lem_example : is_empty (contract_issues (contract_of_actions acts) only_read) ≡ (
    all_in only_read.tools_executed (tools_of (contract_of_actions acts))
    && (primary_done (contract_of_actions acts) only_read
        && is_honest (contract_of_actions acts) only_read))
contract_issues_lem_example = contract_issues_lem (contract_of_actions acts) only_read

abbrev turn : Turn
turn = record {
  fsm = running;
  review_required = false;
  pending_confirm = false;
  turn_step_executed = false;
  payload = payload;
  facts = only_read;
}

-- The edit was not made, and the turn may be finalized.
finalized_unfulfilled :
    (can_finalize_turn turn ≡ (true, executed))
    × (validate_turn_contract_execution payload only_read
        ≡ tool_missing "edit_text_artifact" ∷ primary_op_unfulfilled "edit_artifact" ∷ [])
unfolding can_finalize_turn validate_turn_contract_execution contract_issues contract_from_payload
    contract_of contract_of_actions contract_requires_side_effects requires tools_of missing_tools
    primary_of add_new action_tool primary_op_tool
finalized_unfulfilled = (refl, refl)

can_finalize_turn_lem_example : (can_finalize_turn turn).0 ≡ (
    not (is_replanning turn.fsm)
    && (not (contract_requires_side_effects turn.payload)
        || (turn_in_waiting turn
            || (turn_executed_step turn
                || (not (is_write (primary_of_payload turn.payload))
                    && is_turn_contract_fulfilled turn.payload turn.facts)))))
can_finalize_turn_lem_example = can_finalize_turn_lem turn
