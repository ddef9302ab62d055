-- ===== src/SessionFsm.antt =====
-- app/services/session_fsm.py: the phase of a session, and the flags that follow it; with merge_state
-- of app/runtime/state.py and the payload's part of app/services/turn_contract_lifecycle.py.
pub mod Phase
pub mod Flags
mod Examples
use agent_langraph.Prelude.{
  String, Bool, true, false, not, ◌&&◌, ◌||◌, Option, none, some, List, [], ◌∷◌, ◌==◌,
  if◌then◌else◌, truthy, or_text, member,
}
use agent_langraph.RunRegistry.{Runs, is_graph_run_active}
use agent_langraph.Prelude.Texts.{ends_with}

pub data FsmState : Type 0 where
  idle : FsmState
  running : FsmState
  replanning : FsmState
  waiting_user : FsmState

unfoldable pub fsm_name : FsmState → String
fsm_name idle = "IDLE"
fsm_name running = "RUNNING"
fsm_name replanning = "REPLANNING"
fsm_name waiting_user = "WAITING_USER"

-- `raw in VALID_FSM_STATES`, and the state of that name.
unfoldable pub valid_fsm_state : String → Option FsmState
valid_fsm_state raw =
    if raw == "IDLE"
    then some idle
    else if raw == "RUNNING"
    then some running
    else if raw == "REPLANNING"
    then some replanning
    else if raw == "WAITING_USER"
    then some waiting_user
    else none

-- The entry of `turn_contract_invalidation`, but for its time.
pub record Invalidation : Type 0 where
  pub reason : String
  pub had_contract : Bool

-- The keys of `input_payload` that are read or written here: `none` is a key that is missing, and a
-- flag is the truth of its value. For `turn_contract` that is whether it holds a contract.
pub record Payload : Type 0 where
  pub fsm_state : Option String
  pub require_planning_after_contract_invalidation : Option Bool
  pub require_planning_after_steer : Option Bool
  pub steer_planning_done : Option Bool
  pub foreground_replan_dispatch : Option Bool
  pub pending_replan : Option Bool
  pub skip_planning_llm : Option Bool
  pub turn_contract : Option Bool
  pub selected_tools : Option Bool
  pub tool_params : Option Bool
  pub tool_stages : Option Bool
  pub turn_contract_invalidation : Option Invalidation

-- `execution_run`, if it is a dict.
pub record ExecutionRun : Type 0 where
  pub cancelled : Bool
  pub run_id : Option String

pub record State : Type 0 where
  pub input_payload : Payload
  pub fsm_state : Option String
  pub review_required : Bool
  pub status : Option String
  pub task_id : Option String
  pub execution_run : Option ExecutionRun

-- `bool(payload.get(key))`
abbrev pub is_set : Option Bool → Bool
is_set none = false
is_set (some b) = b

-- `{**old, **new}` at one key.
abbrev pub over {ℓ} : {A : Type ℓ} → Option A → Option A → Option A
over old none = old
over old (some v) = some v

unfoldable pub merge_payload : Payload → Payload → Payload
merge_payload old new = record {
  fsm_state = over old.fsm_state new.fsm_state;
  require_planning_after_contract_invalidation =
      over old.require_planning_after_contract_invalidation
        new.require_planning_after_contract_invalidation;
  require_planning_after_steer =
      over old.require_planning_after_steer new.require_planning_after_steer;
  steer_planning_done = over old.steer_planning_done new.steer_planning_done;
  foreground_replan_dispatch = over old.foreground_replan_dispatch new.foreground_replan_dispatch;
  pending_replan = over old.pending_replan new.pending_replan;
  skip_planning_llm = over old.skip_planning_llm new.skip_planning_llm;
  turn_contract = over old.turn_contract new.turn_contract;
  selected_tools = over old.selected_tools new.selected_tools;
  tool_params = over old.tool_params new.tool_params;
  tool_stages = over old.tool_stages new.tool_stages;
  turn_contract_invalidation = over old.turn_contract_invalidation new.turn_contract_invalidation;
}

-- `merge_state(state, input_payload=payload)`: a dict under this key is merged into the one there.
unfoldable pub merge_state : Payload → State → State
unfolding merge_payload
merge_state payload s = record s { input_payload = merge_payload s.input_payload payload }

abbrev pub valid_of : Option String → Option FsmState
valid_of none = none
valid_of (some raw) = valid_fsm_state raw

unfoldable pub explicit_fsm_state : State → Option FsmState
unfolding valid_fsm_state
explicit_fsm_state s = elim s.input_payload.fsm_state [
  | none ↦ valid_of s.fsm_state
  | some raw ↦ if truthy raw then valid_fsm_state raw else valid_of s.fsm_state
]

unfoldable pub contract_replan_required : Payload → Bool
contract_replan_required p = is_set p.require_planning_after_contract_invalidation

unfoldable pub legacy_replan_pending : State → Bool
unfolding contract_replan_required
legacy_replan_pending s =
    let p = s.input_payload in
    contract_replan_required p
    || ((is_set p.require_planning_after_steer && not (is_set p.steer_planning_done))
        || is_set p.foreground_replan_dispatch)

unfoldable pub active_graph_run : Runs → State → Bool
active_graph_run runs s = elim s.execution_run [
  | none ↦ false
  | some run ↦
      let run_id = or_text run.run_id "" in
      let task_id = or_text s.task_id "" in
      not run.cancelled
      && (truthy run_id && (truthy task_id && is_graph_run_active task_id (some run_id) runs))
]

unfoldable pub derive_fsm_from_legacy : Runs → State → FsmState
unfolding legacy_replan_pending active_graph_run
derive_fsm_from_legacy runs s =
    if s.review_required
    then waiting_user
    else if legacy_replan_pending s
    then replanning
    else if active_graph_run runs s
    then running
    else idle

abbrev pub or_else {ℓ} : {A : Type ℓ} → Option A → A → A
or_else none a = a
or_else (some b) a = b

unfoldable pub get_fsm_state : Runs → State → FsmState
unfolding explicit_fsm_state derive_fsm_from_legacy
get_fsm_state runs s = or_else (explicit_fsm_state s) (derive_fsm_from_legacy runs s)

-- The guard on other texts is the type of the new state.
unfoldable pub set_fsm_state : FsmState → State → State
unfolding merge_state fsm_name
set_fsm_state f s =
    record (merge_state (record s.input_payload { fsm_state = some (fsm_name f) }) s) {
      fsm_state = some (fsm_name f);
    }

unfoldable pub invalidate_turn_contract_payload : Payload → Payload
invalidate_turn_contract_payload p = record p {
  turn_contract = some false;
  selected_tools = some false;
  tool_params = some false;
  tool_stages = some false;
  require_planning_after_contract_invalidation = some true;
  turn_contract_invalidation =
      some (record { reason = "steer"; had_contract = is_set p.turn_contract });
}

unfoldable pub apply_replan_gate : Payload → Payload
unfolding invalidate_turn_contract_payload
apply_replan_gate p = record (invalidate_turn_contract_payload p) {
  require_planning_after_steer = some true;
  steer_planning_done = some false;
  skip_planning_llm = none;
}

unfoldable pub synced_payload : FsmState → Payload → Payload
unfolding apply_replan_gate
synced_payload replanning p =
    if is_set p.require_planning_after_steer then p else apply_replan_gate p
synced_payload running p = record p { foreground_replan_dispatch = none }
synced_payload idle p =
    if is_set p.steer_planning_done
    then record p {
      require_planning_after_steer = none;
      foreground_replan_dispatch = none;
      pending_replan = none;
    }
    else p
synced_payload waiting_user p = p

-- The test whether the payload changed only saves a merge of a payload with itself.
unfoldable pub sync_legacy_flags_from_fsm : Runs → State → State
unfolding synced_payload get_fsm_state merge_state
sync_legacy_flags_from_fsm runs s =
    merge_state (synced_payload (get_fsm_state runs s) s.input_payload) s

abbrev pub is_replanning : FsmState → Bool
is_replanning replanning = true
is_replanning _ = false

unfoldable pub routing_needs_replan : State → Bool
unfolding explicit_fsm_state legacy_replan_pending
routing_needs_replan s = elim (explicit_fsm_state s) [
  | none ↦ legacy_replan_pending s
  | some f ↦ is_replanning f
]

unfoldable pub is_fsm_replanning : Runs → State → Bool
unfolding get_fsm_state
is_fsm_replanning runs s = is_replanning (get_fsm_state runs s)

unfoldable pub has_failed : Option String → Bool
has_failed status =
    let text = or_text status "" in
    ends_with "FAILED" text
    || member text ("FAILED" ∷ "TOOL_FAILED" ∷ "REASON_FAILED" ∷ "CANCELLED" ∷ [])

-- The state that `sync_fsm_state` settles on.
unfoldable pub current_fsm_state : FsmState → Option FsmState → Option String → FsmState
unfolding has_failed
current_fsm_state replanning explicit status = replanning
current_fsm_state waiting_user explicit status = waiting_user
current_fsm_state idle (some running) status = if has_failed status then idle else running
current_fsm_state idle none status = idle
current_fsm_state idle (some f) status = f
current_fsm_state running none status = running
current_fsm_state running (some f) status = f

unfoldable pub sync_fsm_state : Runs → State → State
unfolding current_fsm_state derive_fsm_from_legacy set_fsm_state sync_legacy_flags_from_fsm
sync_fsm_state runs s = sync_legacy_flags_from_fsm runs (
    set_fsm_state
      (current_fsm_state (derive_fsm_from_legacy runs s) (valid_of s.input_payload.fsm_state)
        s.status)
      s)

unfoldable pub transition_fsm : FsmState → State → State
unfolding set_fsm_state apply_replan_gate merge_state
transition_fsm replanning s =
    let updated = set_fsm_state replanning s in
    if is_set updated.input_payload.require_planning_after_steer
    then updated
    else merge_state (apply_replan_gate updated.input_payload) updated
transition_fsm running s =
    let updated = set_fsm_state running s in
    merge_state (record updated.input_payload { foreground_replan_dispatch = none }) updated
transition_fsm idle s = set_fsm_state idle s
transition_fsm waiting_user s = set_fsm_state waiting_user s
