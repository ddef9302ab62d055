-- ===== src/SessionFsm/Flags.antt =====
-- The flags that a transition means to take out of the payload: `merge_state` merges the payload into
-- the one that is there, so that a key taken out of the copy comes back.
use agent_langraph.Prelude.{
  ◌≡◌, refl, ap, ◌∙◌, inl, inr, true, false, ||_true, Bool-cases, Option, none, some,
}
use agent_langraph.RunRegistry.{Runs}
use agent_langraph.SessionFsm.{
  FsmState, idle, running, replanning, waiting_user, fsm_name, Payload, State, is_set, over,
  merge_payload, merge_state, legacy_replan_pending, derive_fsm_from_legacy, get_fsm_state,
  set_fsm_state, synced_payload, invalidate_turn_contract_payload, apply_replan_gate,
  sync_legacy_flags_from_fsm, current_fsm_state, sync_fsm_state, transition_fsm,
}
use agent_langraph.SessionFsm.Phase.{explicit_named}

over_self {ℓ} : {A : Type ℓ} (o : Option A) → over o o ≡ o
over_self none = refl
over_self (some a) = refl

synced-dispatch :
    (f : FsmState) (p : Payload)
    → (merge_payload p (synced_payload f p)).foreground_replan_dispatch
      ≡ p.foreground_replan_dispatch
unfolding merge_payload synced_payload apply_replan_gate invalidate_turn_contract_payload
synced-dispatch running p = refl
synced-dispatch waiting_user p = over_self p.foreground_replan_dispatch
synced-dispatch idle p = elim (Bool-cases (is_set p.steer_planning_done)) [
  | inl e ↦ rw e refl
  | inr e ↦ rw e (over_self p.foreground_replan_dispatch)
]
synced-dispatch replanning p = elim (Bool-cases (is_set p.require_planning_after_steer)) [
  | inl e ↦ rw e (over_self p.foreground_replan_dispatch)
  | inr e ↦ rw e (over_self p.foreground_replan_dispatch)
]

transition_running-dispatch :
    (s : State)
    → (transition_fsm running s).input_payload.foreground_replan_dispatch
      ≡ s.input_payload.foreground_replan_dispatch
unfolding transition_fsm set_fsm_state merge_state merge_payload
transition_running-dispatch s = rw (over_self s.input_payload.foreground_replan_dispatch) refl

synced-fsm_state :
    (g : FsmState) (p : Payload) → (merge_payload p (synced_payload g p)).fsm_state ≡ p.fsm_state
unfolding merge_payload synced_payload apply_replan_gate invalidate_turn_contract_payload
synced-fsm_state running p = over_self p.fsm_state
synced-fsm_state waiting_user p = over_self p.fsm_state
synced-fsm_state idle p = elim (Bool-cases (is_set p.steer_planning_done)) [
  | inl e ↦ rw e (over_self p.fsm_state)
  | inr e ↦ rw e (over_self p.fsm_state)
]
synced-fsm_state replanning p = elim (Bool-cases (is_set p.require_planning_after_steer)) [
  | inl e ↦ rw e (over_self p.fsm_state)
  | inr e ↦ rw e (over_self p.fsm_state)
]

set-named :
    (f : FsmState) (s : State) → (set_fsm_state f s).input_payload.fsm_state ≡ some (fsm_name f)
unfolding set_fsm_state merge_state merge_payload
set-named f s = refl

synced_phase :
    (runs : Runs) (f : FsmState) (s : State)
    → get_fsm_state runs (sync_legacy_flags_from_fsm runs (set_fsm_state f s)) ≡ f
unfolding sync_legacy_flags_from_fsm merge_state get_fsm_state
synced_phase runs f s =
    let u = set_fsm_state f s in
    let e =
      explicit_named f (merge_state (synced_payload (get_fsm_state runs u) u.input_payload) u)
        (synced-fsm_state (get_fsm_state runs u) u.input_payload ∙ set-named f s) in
    rw e refl

dispatched_derives :
    (runs : Runs) (s : State)
    → s.review_required ≡ false
    → is_set s.input_payload.foreground_replan_dispatch ≡ true
    → derive_fsm_from_legacy runs s ≡ replanning
unfolding derive_fsm_from_legacy legacy_replan_pending
dispatched_derives runs s no_review dispatched =
    rw (no_review, dispatched) (rw ||_true (rw ||_true refl))

sync_fsm_state-replanning :
    (runs : Runs) (s : State)
    → derive_fsm_from_legacy runs s ≡ replanning
    → get_fsm_state runs (sync_fsm_state runs s) ≡ replanning
unfolding sync_fsm_state current_fsm_state
sync_fsm_state-replanning runs s h = rw h (synced_phase runs replanning s)

review-transition_running :
    (s : State) → (transition_fsm running s).review_required ≡ s.review_required
unfolding transition_fsm set_fsm_state merge_state
review-transition_running s = refl

-- A transition to RUNNING does not take the dispatch flag of a replan out of the payload, nor does
-- the synchronization of the flags in any phase; and where that flag is set and no review is due,
-- the next synchronization takes the running session back to REPLANNING.
pub running_reverts :
    (runs : Runs) (s : State)
    → s.review_required ≡ false
    → is_set s.input_payload.foreground_replan_dispatch ≡ true
    → ((transition_fsm running s).input_payload.foreground_replan_dispatch
        ≡ s.input_payload.foreground_replan_dispatch)
      × ((sync_legacy_flags_from_fsm runs s).input_payload.foreground_replan_dispatch
          ≡ s.input_payload.foreground_replan_dispatch)
      × (get_fsm_state runs (sync_fsm_state runs (transition_fsm running s)) ≡ replanning)
unfolding sync_legacy_flags_from_fsm merge_state
running_reverts runs s no_review dispatched = (
  transition_running-dispatch s,
  synced-dispatch (get_fsm_state runs s) s.input_payload,
  sync_fsm_state-replanning runs (transition_fsm running s) (
      dispatched_derives runs (transition_fsm running s) (review-transition_running s ∙ no_review)
        (ap is_set (transition_running-dispatch s) ∙ dispatched)),
)
