-- ===== src/ResourceBudget.antt =====
-- app/services/resource_budget.py: the tokens and the cost that a task may use.
pub mod Stored
pub mod Run
pub mod Prompt
mod Examples
use agent_langraph.Prelude.{
  ℕ, zero, suc, ◌+◌, ◌-◌, ◌*◌, ◌/◌, min, max, Bool, true, false, not, ◌&&◌, ◌||◌, Option, none,
  some, if◌then◌else◌, ltb, leb, eqb,
}

-- What the code does with floats that are costs: whether one is above 0, whether one reaches another,
-- the charge for tokens at COST_PER_1K_TOKENS (none where that is not above 0), and `round(c, 6)`.
pub record Costs (C : Type 0) : Type 0 where
  pub is_positive : C → Bool
  pub reaches : C → C → Bool
  pub charge : ℕ → C → C
  pub round : C → C
  pub zero_cost : C

-- BUDGET_DOWNGRADE_RATIO as a fraction.
pub record Settings : Type 0 where
  pub ratio_num : ℕ
  pub ratio_den : ℕ

pub record BudgetContext (C : Type 0) : Type 0 where
  pub token_limit : ℕ
  pub cost_limit : C
  pub tokens_used : ℕ
  pub tokens_used_estimate : ℕ
  pub tokens_used_billed : ℕ
  pub cost_used : C
  pub exhausted : Bool
  pub model_downgrade : Bool

-- `state["token_budget"]`; `U` stands for the records of the last usage, of which an empty one is none.
pub record TokenBudget (U : Type 0) : Type 0 where
  pub limit : ℕ
  pub used : ℕ
  pub used_estimate : ℕ
  pub used_billed : ℕ
  pub exhausted : Bool
  pub model_downgrade : Bool
  pub last_usage : Option U
  pub last_usage_local : Option U
  pub used_local : Option ℕ
  pub llm_call_count : ℕ

pub record CostBudget (C : Type 0) : Type 0 where
  pub limit : C
  pub used : C
  pub exhausted : Bool

-- The two keys of the state; `none` is a key that is missing or empty.
pub record State (C U : Type 0) : Type 0 where
  pub token_budget : Option (TokenBudget U)
  pub cost_budget : Option (CostBudget C)

-- `a or b` of two counts.
abbrev pub or_count : ℕ → ℕ → ℕ
or_count a b = if eqb a 0 then b else a

-- `_estimate_tokens` of a text of this length.
unfoldable pub estimate_tokens : ℕ → ℕ
estimate_tokens length = max 1 (length / 4)

abbrev pub cost_part : {C : Type 0} → Costs C → Option (CostBudget C) → C × C
cost_part costs none = (costs.zero_cost, costs.zero_cost)
cost_part costs (some b) = (b.limit, b.used)

-- What is kept of the last usage.
abbrev pub kept_of : {U : Type 0} → Option (TokenBudget U) → (Option U × Option U) × (Option ℕ × ℕ)
kept_of none = ((none, none), (none, 0))
kept_of (some b) = ((b.last_usage, b.last_usage_local), (b.used_local, b.llm_call_count))

module _ {C U : Type 0} (costs : Costs C) where
  unfoldable pub from_state : State C U → BudgetContext C
  from_state s =
      let (cost_limit, cost_used) = cost_part costs s.cost_budget in
      elim s.token_budget [
        | none ↦ record {
          token_limit = 0;
          cost_limit = cost_limit;
          tokens_used = 0;
          tokens_used_estimate = 0;
          tokens_used_billed = 0;
          cost_used = cost_used;
          exhausted = false;
          model_downgrade = false;
        }
        | some b ↦ record {
          token_limit = b.limit;
          cost_limit = cost_limit;
          tokens_used = b.used;
          tokens_used_estimate = or_count b.used_estimate b.used;
          tokens_used_billed = b.used_billed;
          cost_used = cost_used;
          exhausted = b.exhausted;
          model_downgrade = b.model_downgrade;
        }
      ]

  unfoldable pub apply_to_state : BudgetContext C → State C U → State C U
  apply_to_state ctx s =
      let ((last_usage, last_usage_local), (used_local, llm_call_count)) = kept_of s.token_budget in
      record {
        token_budget = some (record {
          limit = ctx.token_limit;
          used = or_count ctx.tokens_used_billed ctx.tokens_used;
          used_estimate = ctx.tokens_used_estimate;
          used_billed = ctx.tokens_used_billed;
          exhausted = ctx.exhausted;
          model_downgrade = ctx.model_downgrade;
          last_usage = last_usage;
          last_usage_local = last_usage_local;
          used_local = used_local;
          llm_call_count = llm_call_count;
        });
        cost_budget = some (record {
          limit = ctx.cost_limit;
          used = costs.round ctx.cost_used;
          exhausted = ctx.exhausted;
        });
      }

  -- The payload's overrides, of which 0 counts as none, before the settings.
  unfoldable pub init_task_budget : ℕ → ℕ → Option C → C → State C U → State C U
  unfolding apply_to_state
  init_task_budget payload_tokens default_tokens payload_cost default_cost s =
      apply_to_state
        (record {
          token_limit = or_count payload_tokens default_tokens;
          cost_limit = elim payload_cost [ none ↦ default_cost | some c ↦ c ];
          tokens_used = 0;
          tokens_used_estimate = 0;
          tokens_used_billed = 0;
          cost_used = costs.zero_cost;
          exhausted = false;
          model_downgrade = false;
        })
        s

-- `before_invoke` returns, or raises BudgetExceededError; it may change the context either way.
pub data Admission (C : Type 0) : Type 0 where
  admitted : BudgetContext C → Admission C
  budget_exceeded : BudgetContext C → Admission C

-- The tokens that a call is taken to have used, and those that it is charged for.
abbrev pub counted_tokens : Option ℕ → ℕ → ℕ
counted_tokens none estimated = estimated
counted_tokens (some billed) estimated = or_count billed estimated

abbrev pub charged_tokens : Option ℕ → ℕ → ℕ
charged_tokens none estimated = estimated
charged_tokens (some billed) estimated = billed

abbrev pub billed_count : Option ℕ → ℕ
billed_count none = 0
billed_count (some billed) = billed

module _ {C : Type 0} where
  -- `prompt` is the length of the system prompt and the user's content together.
  unfoldable pub before_invoke : Settings → ℕ → BudgetContext C → Admission C
  unfolding estimate_tokens
  before_invoke settings prompt ctx =
      let projected = ctx.tokens_used + estimate_tokens prompt in
      if ctx.exhausted
      then budget_exceeded ctx
      else if ltb 0 ctx.token_limit && ltb ctx.token_limit projected
      then budget_exceeded (record ctx { exhausted = true })
      else if ltb 0 ctx.token_limit
          && leb (ctx.token_limit * settings.ratio_num) (projected * settings.ratio_den)
      then admitted (record ctx { model_downgrade = true })
      else admitted ctx

  -- `exchange` is the length of the prompt and the response together.
  unfoldable pub after_invoke : Costs C → ℕ → Option ℕ → BudgetContext C → BudgetContext C
  unfolding estimate_tokens
  after_invoke costs exchange billed ctx =
      let estimated = estimate_tokens exchange in
      let used = ctx.tokens_used + counted_tokens billed estimated in
      let cost = costs.charge (charged_tokens billed estimated) ctx.cost_used in
      record ctx {
        tokens_used_estimate = ctx.tokens_used_estimate + estimated;
        tokens_used_billed = ctx.tokens_used_billed + billed_count billed;
        tokens_used = used;
        cost_used = cost;
        exhausted =
            ctx.exhausted
            || ((ltb 0 ctx.token_limit && leb ctx.token_limit used)
                || (costs.is_positive ctx.cost_limit && costs.reaches cost ctx.cost_limit));
      }

-- The settings that bound a prompt; `window_share` is `int(window * utilization)`.
pub record PromptSettings : Type 0 where
  pub governance_default : ℕ
  pub adaptive : Bool
  pub window_share : ℕ
  pub out_reserve : ℕ
  pub floor : ℕ
  pub ceiling : ℕ

unfoldable pub clamp_int : ℕ → ℕ → ℕ → ℕ
clamp_int value floor ceiling = max floor (min ceiling value)

-- `resolve_prompt_token_budget`: a target below 0 is lifted to the floor, which is not below 0.
unfoldable pub resolve_prompt_token_budget : {C : Type 0} → PromptSettings → ℕ → BudgetContext C → ℕ
unfolding clamp_int
resolve_prompt_token_budget p policy_default ctx =
    let limit = or_count ctx.token_limit (or_count p.governance_default policy_default) in
    let remaining = max 512 (limit - ctx.tokens_used) in
    let budget = clamp_int (p.window_share - ctx.tokens_used - p.out_reserve) p.floor p.ceiling in
    if eqb limit 0
    then policy_default
    else if not p.adaptive
    then min policy_default remaining
    else max 512 (if ltb 0 ctx.token_limit then min budget remaining else budget)
