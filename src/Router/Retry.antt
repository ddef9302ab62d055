-- ===== src/Router/Retry.antt =====
-- When the tool node is entered once more, and how often.
use agent_langraph.Prelude.{
  ◌<◌, ◌≡◌, refl, ◌⊎◌, inl, inr, Bool, true, false, not, ◌&&◌, ◌||◌, Bool-cases, arith, leb,
  ||_false,
}
use agent_langraph.Converge.{replan, finalize, force_write, ConvergeResult, is_empty}
use agent_langraph.Router.{
  tool_execution, State, writing_route_allowed, is_non_retryable_tool_failure, is_next,
  route_after_success, route_after_failure, route_after_tool,
}

-- A failed tool may be tried again.
abbrev pub IsRetryable : State → Type 0
IsRetryable s =
    (s.last_tool_failed ≡ true)
    × (is_non_retryable_tool_failure s ≡ false)
    × (s.retry_count < s.max_retry_count)

-- A turn that has not converged owes an action.
abbrev pub IsOwed : State → ConvergeResult → Type 0
IsOwed s conv =
    (conv.done ≡ false)
    × (is_empty s.pending_actions ≡ false)
    × (s.is_turn_contract_fulfilled ≡ false)

route_after_failure-tool :
    (s : State)
    → (route_after_failure s).0 ≡ tool_execution
    → (is_non_retryable_tool_failure s ≡ false) × (s.retry_count < s.max_retry_count)
unfolding route_after_failure
route_after_failure-tool s h = elim (Bool-cases (is_non_retryable_tool_failure s)) [
  | inl e ↦ cc (rw e at h)
  | inr e ↦ elim (Bool-cases (leb s.max_retry_count s.retry_count)) [
    | inl f ↦ cc (rw (e, f) at h)
    | inr f ↦ (e, ground arith)
  ]
]

abbrev owed : State → Bool
owed s =
    (s.contract_requires_side_effects && s.contract_names_tools)
    && (not (is_empty s.pending_actions) && not s.is_turn_contract_fulfilled)

both_not : (a b c : Bool) → (a && (not b && not c)) ≡ true → (b ≡ false) × (c ≡ false)
both_not true false false h = (refl, refl)
both_not true false true h = cc h
both_not true true c h = cc h
both_not false b c h = cc h

owed-pending :
    (s : State)
    → owed s ≡ true
    → (is_empty s.pending_actions ≡ false) × (s.is_turn_contract_fulfilled ≡ false)
owed-pending s h =
    both_not (s.contract_requires_side_effects && s.contract_names_tools)
      (is_empty s.pending_actions) s.is_turn_contract_fulfilled h

route_after_success-tool :
    (s : State) (conv : ConvergeResult)
    → (route_after_success s conv).0 ≡ tool_execution
    → IsOwed s conv
unfolding route_after_success
route_after_success-tool s conv h = elim (Bool-cases (is_next conv.next force_write)) [
  | inl a ↦ cc (rw a at h)
  | inr a ↦ elim (Bool-cases (is_next conv.next replan && s.can_planning_replan_again)) [
    | inl b ↦ cc (rw (a, b) at h)
    | inr b ↦ elim (Bool-cases (conv.done || is_next conv.next finalize)) [
      | inl c ↦ cc (rw (a, b, c) at h)
      | inr c ↦ elim (Bool-cases (writing_route_allowed s)) [
        | inl d ↦ cc (rw (a, b, c, d) at h)
        | inr d ↦ elim (Bool-cases (owed s)) [
          | inl e ↦
              let pending = owed-pending s e in
              ((||_false conv.done (is_next conv.next finalize) c).0, pending.0, pending.1)
          | inr e ↦ cc (rw (a, b, c, d, e) at h)
        ]
      ]
    ]
  ]
]

-- The tool node is entered again only after a failure that may be retried, with retries left; in a
-- batch that goes on; or where the turn has not converged, its contract is not fulfilled and an
-- action of its plan is pending.
pub tool_again_only_if :
    (s : State) (conv : ConvergeResult)
    → (route_after_tool s conv).0 ≡ tool_execution
    → IsRetryable s ⊎ ((s.is_batch_continuation_ready ≡ true) ⊎ IsOwed s conv)
unfolding route_after_tool
tool_again_only_if s conv h = elim (Bool-cases s.last_tool_failed) [
  | inl f ↦ let again = route_after_failure-tool s (rw f at h) in inl (f, again.0, again.1)
  | inr f ↦ elim (Bool-cases s.is_batch_continuation_ready) [
    | inl b ↦ inr (inl b)
    | inr b ↦ inr (inr (route_after_success-tool s conv (rw (f, b) at h)))
  ]
]
