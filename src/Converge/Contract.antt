-- ===== src/Converge/Contract.antt =====
-- What a converged turn says of the actions that its planner declared.
use agent_langraph.Prelude.{
  String, ◌≡◌, refl, sym, ◌∙◌, ◌⊎◌, inl, inr, Bool, true, false, not, ◌&&◌, Bool-cases, some, List,
  [], ◌∷◌, ◌==◌, keep, All, truthy,
}
use agent_langraph.Converge.{
  ToolResult, Action, State, Services, action_tool, executed_ok, is_pending,
  pending_planned_actions, edit_counts, decide_read_loop, decide_contract, read_loop_detected,
  is_empty, evaluate_convergence,
}
use agent_langraph.Converge.Honest.{decide_read_loop-stops}

-- The tool of an action has a result that is ok, or the action is a removal that a rename did.
abbrev pub IsExecuted : Services → List ToolResult → Action → Type 0
IsExecuted services rs a =
    (tool : String)
    → action_tool a ≡ some tool
    → truthy tool ≡ true
    → (executed_ok rs tool ≡ true)
      ⊎ (((tool == "rm_path") && services.rename_cleanup_obviated a) ≡ true)

settled_or : (t e o : Bool) → ((t && not e) && not o) ≡ false → t ≡ true → (e ≡ true) ⊎ (o ≡ true)
settled_or true true o h q = inl refl
settled_or true false true h q = inr refl
settled_or true false false h q = cc h
settled_or false e o h q = cc q

not_pending-IsExecuted :
    (services : Services) (rs : List ToolResult) (a : Action)
    → is_pending services rs a ≡ false
    → IsExecuted services rs a
unfolding is_pending
not_pending-IsExecuted services rs a h tool is_tool named =
    settled_or (truthy tool) (executed_ok rs tool)
      ((tool == "rm_path") && services.rename_cleanup_obviated a) (rw (is_pending, is_tool) at h)
      named

keep_none-IsExecuted :
    (services : Services) (rs : List ToolResult) (actions : List Action)
    → is_empty (keep (is_pending services rs) actions) ≡ true
    → All (IsExecuted services rs) actions
keep_none-IsExecuted services rs [] h = tt
keep_none-IsExecuted services rs (a ∷ rest) h = elim (Bool-cases (is_pending services rs a)) [
  | inl p ↦ cc (rw p at h)
  | inr p ↦
      (not_pending-IsExecuted services rs a p, keep_none-IsExecuted services rs rest (rw p at h))
]

decide_contract-pending :
    (services : Services) (s : State)
    → (decide_contract services s).done ≡ true
    → is_empty (pending_planned_actions services s) ≡ true
unfolding decide_contract
decide_contract-pending services s h =
    elim (Bool-cases (is_empty (pending_planned_actions services s))) [
      | inl e ↦ e
      | inr e ↦ cc (rw e at h)
    ]

-- In a turn that attempted no edit and has converged, every declared write, edit and tool run has a
-- result that is ok, except a removal that a rename has made needless.
pub converged_actions-IsExecuted :
    (services : Services) (s : State)
    → (edit_counts s).0 ≡ 0
    → (evaluate_convergence services s).done ≡ true
    → All (IsExecuted services s.tool_results) s.planned_actions
unfolding evaluate_convergence pending_planned_actions
converged_actions-IsExecuted services s no_edits h =
    elim (Bool-cases (read_loop_detected s.tool_results)) [
      | inl loop ↦
          let stuck : (decide_read_loop services).done ≡ true = rw (no_edits, loop) at h in
          cc (sym stuck ∙ (decide_read_loop-stops services).0)
      | inr none_found ↦
          keep_none-IsExecuted services s.tool_results s.planned_actions
            (decide_contract-pending services s (rw (no_edits, none_found) at h))
    ]
