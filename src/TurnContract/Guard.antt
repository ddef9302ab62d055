-- ===== src/TurnContract/Guard.antt =====
-- app/services/turn_guard.py: whether a turn may be finalized.
use agent_langraph.Prelude.{
  String, ◌≡◌, Bool, true, false, not, ◌&&◌, ◌||◌, none, some, [], ◌∷◌, arith, if◌then◌else◌,
  member,
}
use agent_langraph.Prelude.Texts.{starts_with}
use agent_langraph.TaskAgenda.{is_empty}
use agent_langraph.SessionFsm.{FsmState, waiting_user, is_replanning}
use agent_langraph.TurnContract.{
  Payload, Facts, contract_from_payload, contract_tool_names, contract_requires_side_effects,
  is_turn_contract_fulfilled,
}

-- What the guard reads: what `get_fsm_state` answers, the flags of the state and of the payload, and
-- the facts of the turn; `pending_confirm` stands for the two keys of a steering that awaits the user.
pub record Turn : Type 0 where
  pub fsm : FsmState
  pub review_required : Bool
  pub pending_confirm : Bool
  pub turn_step_executed : Bool
  pub payload : Payload
  pub facts : Facts

abbrev pub is_waiting : FsmState → Bool
is_waiting waiting_user = true
is_waiting _ = false

unfoldable pub turn_executed_step : Turn → Bool
turn_executed_step t =
    if t.turn_step_executed
    then true
    else if not (is_empty t.facts.tools_executed)
    then true
    else t.facts.executed_actions

unfoldable pub turn_in_waiting : Turn → Bool
turn_in_waiting t =
    if is_waiting t.fsm then true else if t.review_required then true else t.pending_confirm

unfoldable pub mark_turn_step_executed : Turn → Turn
mark_turn_step_executed t = record t { turn_step_executed = true }

-- The reasons.
pub data Reason : Type 0 where
  fsm_replanning : Reason
  waits_for_user : Reason
  unexecuted_write : String → Reason
  executed : Reason
  unexecuted_contract : Reason
  fine : Reason

unfoldable pub primary_of_payload : Payload → String
primary_of_payload p = elim (contract_from_payload p) [ none ↦ "" | some c ↦ c.primary_op ]

-- The operations of which a step must have been executed.
unfoldable pub is_write : String → Bool
unfolding starts_with
is_write primary =
    starts_with "write_" primary || member primary ("edit_plot" ∷ "append_body" ∷ "reset_body" ∷ [])

unfoldable pub can_finalize_turn : Turn → Bool × Reason
unfolding turn_executed_step turn_in_waiting primary_of_payload is_write
can_finalize_turn t =
    let primary = primary_of_payload t.payload in
    if is_replanning t.fsm
    then (false, fsm_replanning)
    else if contract_requires_side_effects t.payload
    then (if turn_in_waiting t
        then (true, waits_for_user)
        else if is_write primary && not (turn_executed_step t)
        then (false, unexecuted_write primary)
        else if turn_executed_step t
        then (true, executed)
        else if is_turn_contract_fulfilled t.payload t.facts
        then (true, executed)
        else (false, unexecuted_contract))
    else (true, fine)

unfoldable pub contract_requires_execution_route : Payload → Bool
unfolding contract_from_payload contract_tool_names contract_requires_side_effects
contract_requires_execution_route p = elim (contract_from_payload p) [
  | none ↦ false
  | some c ↦
      if member c.primary_op
        ("edit_plot" ∷ "write_outline" ∷ "reset_body" ∷ "append_body" ∷ "write_body" ∷ [])
      then true
      else if not (is_empty (contract_tool_names p))
      then true
      else contract_requires_side_effects p
]

allowed :
    (r : Reason) (replan need waiting write step fulfilled : Bool)
    → let verdict : Bool × Reason =
        if replan
        then (false, fsm_replanning)
        else if need
        then (if waiting
            then (true, waits_for_user)
            else if write && not step
            then (false, r)
            else if step
            then (true, executed)
            else if fulfilled
            then (true, executed)
            else (false, unexecuted_contract))
        else (true, fine) in
      verdict.0 ≡ (not replan && (not need || (waiting || (step || (not write && fulfilled)))))
allowed r replan need waiting write step fulfilled = ground arith

-- A turn may be finalized exactly if its session is not to be planned again and its contract demands
-- no side effect, or the turn waits for the user, or it executed any step at all, or, where its
-- primary operation is no write, the contract is fulfilled.
pub can_finalize_turn_lem :
    (t : Turn)
    → (can_finalize_turn t).0 ≡ (
        not (is_replanning t.fsm)
        && (not (contract_requires_side_effects t.payload)
            || (turn_in_waiting t
                || (turn_executed_step t
                    || (not (is_write (primary_of_payload t.payload))
                        && is_turn_contract_fulfilled t.payload t.facts)))))
unfolding can_finalize_turn
can_finalize_turn_lem t =
    allowed (unexecuted_write (primary_of_payload t.payload)) (is_replanning t.fsm)
      (contract_requires_side_effects t.payload) (turn_in_waiting t)
      (is_write (primary_of_payload t.payload)) (turn_executed_step t)
      (is_turn_contract_fulfilled t.payload t.facts)
