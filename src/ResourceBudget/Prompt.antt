-- ===== src/ResourceBudget/Prompt.antt =====
-- How large a prompt may be.
use agent_langraph.Prelude.{
  ℕ, ◌-◌, ◌≤◌, ◌<◌, min, max, ◌≡◌, Bool, true, false, not, arith, if◌then◌else◌, eqb, ltb,
}
use agent_langraph.ResourceBudget.{
  BudgetContext, PromptSettings, or_count, clamp_int, resolve_prompt_token_budget,
}

within :
    (adaptive : Bool) (limit used policy clamped : ℕ)
    → 0 < limit
    → (if eqb limit 0
        then policy
        else if not adaptive
        then min policy (max 512 (limit - used))
        else max 512 (if ltb 0 limit then min clamped (max 512 (limit - used)) else clamped))
      ≤ max 512 (limit - used)
within true limit used policy clamped some_limit = ground arith
within false limit used policy clamped some_limit = ground arith

or_count-some : (a b : ℕ) → 0 < a → or_count a b ≡ a
or_count-some a b h = ground arith

-- A task with a token limit is given a prompt that fits in what is left of the limit, or in 512
-- tokens where less is left.
pub resolve_prompt_token_budget_lem :
    {C : Type 0} (p : PromptSettings) (policy_default : ℕ) (ctx : BudgetContext C)
    → 0 < ctx.token_limit
    → resolve_prompt_token_budget p policy_default ctx ≤ max 512 (ctx.token_limit - ctx.tokens_used)
unfolding resolve_prompt_token_budget
resolve_prompt_token_budget_lem p policy_default ctx some_limit =
    rw (or_count-some ctx.token_limit (or_count p.governance_default policy_default) some_limit) (
      within p.adaptive ctx.token_limit ctx.tokens_used policy_default
        (clamp_int (p.window_share - ctx.tokens_used - p.out_reserve) p.floor p.ceiling) some_limit)
