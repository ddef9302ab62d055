-- ===== src/ResourceBudget/Examples.antt =====
-- A budget of 10,000 tokens, with costs counted in millionths.
use agent_langraph.Prelude.{
  ℕ, ◌+◌, ◌*◌, ◌≡◌, refl, inl, true, false, Option, none, some, List, [], ◌∷◌, arith, ltb, leb,
}
use agent_langraph.ResourceBudget.{
  Costs, Settings, BudgetContext, State, PromptSettings, from_state, apply_to_state,
  estimate_tokens, init_task_budget, before_invoke, after_invoke,
}
use agent_langraph.ResourceBudget.Stored.{
  from_state-apply_to_state, run_calls, billed_sum, unbilled_sum, stored_forgets_estimates,
}
use agent_langraph.ResourceBudget.Run.{Call, run}

abbrev costs : Costs ℕ
costs = record {
  is_positive = ltb 0;
  reaches = λ cost limit. leb limit cost;
  charge = λ tokens cost. cost + tokens * 2;
  round = λ c. c;
  zero_cost = 0;
}

abbrev settings : Settings
settings = record { ratio_num = 9; ratio_den = 10 }

abbrev fresh : BudgetContext ℕ
fresh = record {
  token_limit = 10000;
  cost_limit = 0;
  tokens_used = 0;
  tokens_used_estimate = 0;
  tokens_used_billed = 0;
  cost_used = 0;
  exhausted = false;
  model_downgrade = false;
}

abbrev empty_state : State ℕ ℕ
empty_state = record { token_budget = none; cost_budget = none }

starts_fresh : from_state costs (init_task_budget costs 0 10000 none 0 empty_state) ≡ fresh
unfolding from_state init_task_budget apply_to_state
starts_fresh = refl

-- A streamed call of 8,000 characters that nobody billed, and one that was billed.
abbrev calls : List (ℕ × Option ℕ)
calls = (8000, none) ∷ (4000, some 900) ∷ []

from_state-apply_to_state_example :
    from_state costs (apply_to_state costs fresh empty_state) ≡ fresh
from_state-apply_to_state_example =
    from_state-apply_to_state costs fresh empty_state (inl refl) (λ e. refl) refl

stored_forgets_estimates_example :
    ((run_calls costs calls fresh).tokens_used ≡ billed_sum calls + unbilled_sum calls)
    × ((from_state costs
          (apply_to_state costs (run_calls costs calls fresh) empty_state)).tokens_used
        ≡ billed_sum calls)
stored_forgets_estimates_example =
    stored_forgets_estimates costs calls fresh empty_state refl refl (omega arith)

abbrev long_call : Call
long_call = record { prompt = 30000; exchange = 36000; billed = none }

-- The first call leaves 1,000 tokens, which the second does not fit in; then the budget is spent.
spends :
    run costs settings (long_call ∷ long_call ∷ long_call ∷ []) fresh
    ≡ (long_call, true) ∷ (long_call, false) ∷ (long_call, false) ∷ []
unfolding run before_invoke after_invoke estimate_tokens
spends = refl

abbrev prompts : PromptSettings
prompts = record {
  governance_default = 0;
  adaptive = true;
  window_share = 60000;
  out_reserve = 4096;
  floor = 2048;
  ceiling = 32000;
}

abbrev spent : BudgetContext ℕ
spent = record fresh { tokens_used = 10500; tokens_used_estimate = 10500; exhausted = true }
