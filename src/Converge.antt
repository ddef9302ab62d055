-- ===== src/Converge.antt =====
-- app/services/converge.py: the one decision whether a turn's loop has converged.
pub mod Honest
pub mod Contract
mod Examples
use Prim.Native.String.{◌++◌}
use agent_langraph.Prelude.Texts.{is_blank}
use agent_langraph.Prelude.{
  ℕ, suc, String, Bool, true, false, not, ◌&&◌, ◌||◌, Option, none, some, List, [], ◌∷◌, ◌==◌,
  if◌then◌else◌, truthy, or_text, keep, any_of, member, leb, eqb,
}

pub data Next : Type 0 where
  proceed : Next
  replan : Next
  finalize : Next
  force_write : Next

pub record ConvergeResult : Type 0 where
  pub done : Bool
  pub next : Next
  pub reason : String

abbrev pub read_loop_threshold : ℕ
read_loop_threshold = 3

abbrev pub side_effect_tools : List String
side_effect_tools =
    "write_text_artifact" ∷ "append_text_artifact" ∷ "edit_text_artifact" ∷ "write_file"
    ∷ "append_file" ∷ "replace_in_file" ∷ "move_path" ∷ "copy_path" ∷ "touch_file" ∷ "mkdir_path"
    ∷ "rm_path" ∷ []

-- The result of a tool, if it is a dict, by its keys that are read; replacements are counted up from 0.
pub record Outcome : Type 0 where
  pub status : Option String
  pub replacements : ℕ

pub record ToolResult : Type 0 where
  pub tool : Option String
  pub status : Option String
  pub result : Option Outcome

-- A planned action that is a dict: its type, and the name in its `params`.
pub record Action : Type 0 where
  pub kind : Option String
  pub name : Option String

-- What the decision reads of the state, after its guards on types.
pub record State : Type 0 where
  pub edits_attempted : ℕ
  pub edits_applied : ℕ
  pub tool_results : List ToolResult
  pub planned_actions : List Action
  pub summary : Option String
  pub answer : Option String
  pub final_answer : Option String

-- What the decision asks other services about this state.
pub record Services : Type 0 where
  pub writing_intent_active : Bool
  pub write_budget_exhausted : Bool
  pub read_loop_should_force_write : Bool
  pub artifact_edit_needs_write_after_reads : Bool
  pub rename_cleanup_obviated : Action → Bool
  pub contract_requires_side_effects : Bool
  pub is_turn_contract_fulfilled : Bool
  pub turn_has_persisted_write : Bool
  pub writing_false_promise_without_write : String → Bool
  pub writing_explicit_ask : String → Bool

-- `is_edit_applied` of app/domain/action.py
unfoldable pub is_edit_applied : Option Outcome → Bool
is_edit_applied none = false
is_edit_applied (some o) = elim o.status [
  | none ↦ false
  | some s ↦ (s == "ok") && leb 1 o.replacements
]

abbrev pub tool_of : ToolResult → String
tool_of r = or_text r.tool ""

-- `str(item.get("status") or "ok") in ("ok", "cached")`
abbrev pub has_succeeded : ToolResult → Bool
has_succeeded r = member (or_text r.status "ok") ("ok" ∷ "cached" ∷ [])

abbrev pub is_edit : ToolResult → Bool
is_edit r = tool_of r == "edit_text_artifact"

-- The loop of `_edit_counts` over the results.
unfoldable pub counted : List ToolResult → ℕ × ℕ
unfolding is_edit_applied
counted [] = (0, 0)
counted (r ∷ rs) =
    let (attempted, applied) = counted rs in
    if is_edit r
    then (suc attempted, (if is_edit_applied r.result then suc applied else applied))
    else (attempted, applied)

unfoldable pub edit_counts : State → ℕ × ℕ
unfolding counted
edit_counts s =
    if not (eqb s.edits_attempted 0)
    then (s.edits_attempted, s.edits_applied)
    else counted s.tool_results

-- The tool that a planned action calls, if it is one of the three that are checked.
unfoldable pub action_tool : Action → Option String
action_tool a =
    if or_text a.kind "" == "write_artifact"
    then some "write_text_artifact"
    else if or_text a.kind "" == "edit_artifact"
    then some "edit_text_artifact"
    else if or_text a.kind "" == "run_tool"
    then some (or_text a.name "")
    else none

-- `tool in executed_ok`
unfoldable pub executed_ok : List ToolResult → String → Bool
executed_ok rs tool = any_of (λ r. has_succeeded r && (tool_of r == tool)) rs

unfoldable pub is_pending : Services → List ToolResult → Action → Bool
unfolding action_tool executed_ok
is_pending services rs a = elim (action_tool a) [
  | none ↦ false
  | some tool ↦
      (truthy tool && not (executed_ok rs tool))
      && not ((tool == "rm_path") && services.rename_cleanup_obviated a)
]

unfoldable pub pending_planned_actions : Services → State → List Action
unfolding is_pending
pending_planned_actions services s = keep (is_pending services s.tool_results) s.planned_actions

abbrev pub is_goal_completing : Action → Bool
is_goal_completing a =
    member (or_text a.kind "")
      ("answer" ∷ "run_code" ∷ "write_artifact" ∷ "edit_artifact" ∷ "run_tool" ∷ [])

abbrev pub is_empty {ℓ} : {A : Type ℓ} → List A → Bool
is_empty [] = true
is_empty (x ∷ xs) = false

unfoldable pub exploratory_actions_only : State → Bool
exploratory_actions_only s =
    if is_empty s.planned_actions then false else not (any_of is_goal_completing s.planned_actions)

unfoldable pub tool_counts_as_side_effect : ToolResult → Bool
unfolding is_edit_applied
tool_counts_as_side_effect r =
    if not (has_succeeded r)
    then false
    else if is_edit r
    then is_edit_applied r.result
    else member (tool_of r) side_effect_tools

-- A read of a text artifact that succeeded.
unfoldable pub is_read : ToolResult → Bool
is_read r = (tool_of r == "read_text_artifact") && has_succeeded r

-- The loop of `_read_loop_detected`, from the reads counted so far.
unfoldable pub read_loop_from : ℕ → List ToolResult → Bool
read_loop_from reads [] = leb read_loop_threshold reads
read_loop_from reads (r ∷ rs) =
    let rest = read_loop_from (if is_read r then suc reads else reads) rs in
    if tool_counts_as_side_effect r then false else rest

unfoldable pub read_loop_detected : List ToolResult → Bool
unfolding read_loop_from
read_loop_detected rs = read_loop_from 0 rs

-- `str(reasoning.get("summary") or reasoning.get("answer") or "")`, then `final_answer`.
unfoldable pub answer_text : State → String
unfolding is_blank
answer_text s =
    let reasoned = or_text s.summary (or_text s.answer "") in
    if is_blank reasoned then or_text s.final_answer "" else reasoned

abbrev pub result : Bool → Next → String → ConvergeResult
result d n r = record { done = d; next = n; reason = r }

unfoldable pub decide_edits : Services → ℕ → ℕ → ConvergeResult
decide_edits services attempted applied =
    if leb attempted applied
    then result true proceed "edit_applied"
    else if services.writing_intent_active
    then (if services.write_budget_exhausted
        then result false finalize "write_budget_exhausted"
        else result false force_write "edit_not_applied_force_write")
    else result false replan "edit_not_applied"

unfoldable pub decide_read_loop : Services → ConvergeResult
decide_read_loop services =
    if services.read_loop_should_force_write
    then (if services.write_budget_exhausted
        then result false finalize "write_budget_exhausted"
        else result false force_write "read_loop_force_write")
    else if services.artifact_edit_needs_write_after_reads
    then result false replan "artifact_edit_needs_write"
    else result false finalize "read_loop"

unfoldable pub decide_answer : Services → String → ConvergeResult
unfolding is_blank
decide_answer services text =
    if is_blank text
    then result false proceed "no_signal"
    else if services.writing_intent_active && not services.turn_has_persisted_write
    then (if services.writing_false_promise_without_write text
        then result false force_write "writing_false_promise"
        else if not (services.writing_explicit_ask text)
        then result false force_write "writing_answer_without_persist"
        else result true proceed "answer_ready")
    else result true proceed "answer_ready"

unfoldable pub joined_kinds : List Action → String
joined_kinds [] = ""
joined_kinds (a ∷ []) = or_text a.kind ""
joined_kinds (a ∷ b ∷ rest) = or_text a.kind "" ++ ("," ++ joined_kinds (b ∷ rest))

unfoldable pub pending_reason : List Action → String
unfolding joined_kinds
pending_reason actions = "actions_pending:" ++ joined_kinds actions

unfoldable pub decide_contract : Services → State → ConvergeResult
unfolding pending_planned_actions pending_reason exploratory_actions_only decide_answer answer_text
decide_contract services s =
    if not (is_empty (pending_planned_actions services s))
    then result false replan (pending_reason (pending_planned_actions services s))
    else if exploratory_actions_only s && not (is_empty s.tool_results)
    then result false replan "exploration_needs_replan"
    else if services.contract_requires_side_effects
    then (if services.is_turn_contract_fulfilled
        then result true proceed "contract_fulfilled"
        else result false replan "contract_unfulfilled")
    else decide_answer services (answer_text s)

unfoldable pub evaluate_convergence : Services → State → ConvergeResult
unfolding edit_counts decide_edits read_loop_detected decide_read_loop decide_contract
evaluate_convergence services s =
    if not (eqb (edit_counts s).0 0)
    then decide_edits services (edit_counts s).0 (edit_counts s).1
    else if read_loop_detected s.tool_results
    then decide_read_loop services
    else decide_contract services s
