-- ===== src/Converge/Examples.antt =====
-- A turn that edited and left a tool run undone, and one that only read.
use agent_langraph.Prelude.{◌≡◌, refl, true, false, none, some, List, [], ◌∷◌, All}
use agent_langraph.Prelude.Texts.{is_blank}
use agent_langraph.Converge.{
  proceed, result, ToolResult, Action, State, Services, is_read, tool_counts_as_side_effect,
  evaluate_convergence,
}
use agent_langraph.Converge.Honest.{IsHonest, converged-IsHonest}
use agent_langraph.Converge.Contract.{IsExecuted, converged_actions-IsExecuted}

abbrev services : Services
services = record {
  writing_intent_active = false;
  write_budget_exhausted = false;
  read_loop_should_force_write = false;
  artifact_edit_needs_write_after_reads = false;
  rename_cleanup_obviated = λ a. false;
  contract_requires_side_effects = false;
  is_turn_contract_fulfilled = false;
  turn_has_persisted_write = false;
  writing_false_promise_without_write = λ t. false;
  writing_explicit_ask = λ t. false;
}

abbrev edited : ToolResult
edited = record {
  tool = some "edit_text_artifact";
  status = none;
  result = some (record { status = some "ok"; replacements = 2 });
}

abbrev read : ToolResult
read = record { tool = some "read_text_artifact"; status = some "cached"; result = none }

abbrev grep_run : Action
grep_run = record { kind = some "run_tool"; name = some "grep_file" }

abbrev turn : List ToolResult → List Action → State
turn results actions = record {
  edits_attempted = 0;
  edits_applied = 0;
  tool_results = results;
  planned_actions = actions;
  summary = none;
  answer = some " ";
  final_answer = some "done";
}

applied_first :
    evaluate_convergence services (turn (edited ∷ []) (grep_run ∷ []))
    ≡ result true proceed "edit_applied"
unfolding evaluate_convergence
applied_first = refl

answer_last : evaluate_convergence services (turn [] []) ≡ result true proceed "answer_ready"
unfolding evaluate_convergence is_blank
answer_last = refl

converged-IsHonest_example : All IsHonest (edited ∷ [])
unfolding evaluate_convergence
converged-IsHonest_example =
    converged-IsHonest services (turn (edited ∷ []) (grep_run ∷ [])) refl refl

abbrev grepped : ToolResult
grepped = record { tool = some "grep_file"; status = some "ok"; result = none }

converged_actions-IsExecuted_example : All (IsExecuted services (grepped ∷ [])) (grep_run ∷ [])
unfolding evaluate_convergence is_blank tool_counts_as_side_effect is_read
converged_actions-IsExecuted_example =
    converged_actions-IsExecuted services (turn (grepped ∷ []) (grep_run ∷ [])) refl refl

abbrev reads : State
reads = turn (read ∷ read ∷ grepped ∷ read ∷ []) []
