-- ===== src/SessionFsm/Phase.antt =====
-- Which phase a session is in after a transition, and what the routes read of it.
use agent_langraph.Prelude.{
  ◌≡◌, refl, Bool, true, false, not, ◌&&◌, ◌||◌, Option, none, some, if◌then◌else◌, truthy, is_some,
}
use agent_langraph.RunRegistry.{Runs}
use agent_langraph.SessionFsm.{
  FsmState, idle, running, replanning, waiting_user, fsm_name, valid_fsm_state, State, is_set,
  merge_payload, merge_state, explicit_fsm_state, legacy_replan_pending, active_graph_run, or_else,
  derive_fsm_from_legacy, get_fsm_state, set_fsm_state, invalidate_turn_contract_payload,
  apply_replan_gate, is_replanning, routing_needs_replan, is_fsm_replanning, transition_fsm,
}

pub valid-fsm_name : (f : FsmState) → valid_fsm_state (fsm_name f) ≡ some f
unfolding valid_fsm_state fsm_name
valid-fsm_name idle = refl
valid-fsm_name running = refl
valid-fsm_name replanning = refl
valid-fsm_name waiting_user = refl

truthy-fsm_name : (f : FsmState) → truthy (fsm_name f) ≡ true
unfolding fsm_name
truthy-fsm_name idle = refl
truthy-fsm_name running = refl
truthy-fsm_name replanning = refl
truthy-fsm_name waiting_user = refl

-- A payload that names a phase decides it.
pub explicit_named :
    (f : FsmState) (s : State)
    → s.input_payload.fsm_state ≡ some (fsm_name f)
    → explicit_fsm_state s ≡ some f
unfolding explicit_fsm_state
explicit_named f s h = rw h (rw (truthy-fsm_name f) (valid-fsm_name f))

transition_named :
    (f : FsmState) (s : State) → (transition_fsm f s).input_payload.fsm_state ≡ some (fsm_name f)
unfolding transition_fsm set_fsm_state merge_state merge_payload apply_replan_gate
    invalidate_turn_contract_payload
transition_named idle s = refl
transition_named waiting_user s = refl
transition_named running s = refl
transition_named replanning s =
    named (is_set (set_fsm_state replanning s).input_payload.require_planning_after_steer)
  where
    named :
        (b : Bool)
        → (if b
            then set_fsm_state replanning s
            else merge_state
                (apply_replan_gate (set_fsm_state replanning s).input_payload)
                (set_fsm_state replanning s)).input_payload.fsm_state
          ≡ some (fsm_name replanning)
    named true = refl
    named false = refl

-- After a transition the session is in the phase that was asked for, whatever phase, flags and run
-- it had, and the routes see a replan exactly in REPLANNING.
pub transition_fsm_lem :
    (runs : Runs) (f : FsmState) (s : State)
    → (get_fsm_state runs (transition_fsm f s) ≡ f)
      × (routing_needs_replan (transition_fsm f s) ≡ is_replanning f)
unfolding get_fsm_state routing_needs_replan
transition_fsm_lem runs f s =
    let e = explicit_named f (transition_fsm f s) (transition_named f s) in
    (rw e refl, rw (routing_needs_replan, e) refl)

seen :
    (e : Option FsmState) (review legacy active : Bool)
    → (elim e [ none ↦ legacy | some f ↦ is_replanning f ]) ≡ (
        is_replanning (
          or_else e (
            if review
            then waiting_user
            else if legacy
            then replanning
            else if active
            then running
            else idle))
        || (not (is_some e) && (review && legacy)))
seen none true true active = refl
seen none true false active = refl
seen none false true active = refl
seen none false false true = refl
seen none false false false = refl
seen (some replanning) review legacy active = refl
seen (some idle) review legacy active = refl
seen (some running) review legacy active = refl
seen (some waiting_user) review legacy active = refl

-- The routes see a replan where the phase is REPLANNING and in one case more: no phase is named, a
-- review is due, which makes the phase WAITING_USER, and an older replan flag is set.
pub routing_needs_replan_lem :
    (runs : Runs) (s : State)
    → routing_needs_replan s ≡ (
        is_fsm_replanning runs s
        || (not (is_some (explicit_fsm_state s)) && (s.review_required && legacy_replan_pending s)))
unfolding routing_needs_replan is_fsm_replanning get_fsm_state derive_fsm_from_legacy
routing_needs_replan_lem runs s =
    seen (explicit_fsm_state s) s.review_required (legacy_replan_pending s)
      (active_graph_run runs s)
