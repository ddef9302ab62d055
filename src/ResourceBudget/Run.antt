-- ===== src/ResourceBudget/Run.antt =====
-- Which calls a budget lets through.
use agent_langraph.Prelude.{ℕ, ◌+◌, ◌≤◌, ◌≡◌, Bool, true, false, Option, List, [], ◌∷◌, All}
use agent_langraph.ResourceBudget.{
  Costs, Settings, BudgetContext, Admission, admitted, budget_exceeded, estimate_tokens,
  before_invoke, after_invoke, counted_tokens,
}

-- A call: the lengths of its prompt and of the whole exchange, and what was billed.
pub record Call : Type 0 where
  pub prompt : ℕ
  pub exchange : ℕ
  pub billed : Option ℕ

module _ {C : Type 0} (costs : Costs C) (settings : Settings) where
  -- What becomes of the context in one call, and whether the call was let through.
  abbrev finished : Call → Admission C → BudgetContext C × Bool
  finished c (admitted ctx) = (after_invoke costs c.exchange c.billed ctx, true)
  finished c (budget_exceeded ctx) = (ctx, false)

  unfoldable pub invoke : Call → BudgetContext C → BudgetContext C × Bool
  invoke c ctx = finished c (before_invoke settings c.prompt ctx)

  unfoldable pub run : List Call → BudgetContext C → List (Call × Bool)
  unfolding invoke
  run [] ctx = []
  run (c ∷ cs) ctx = (c, (invoke c ctx).1) ∷ run cs (invoke c ctx).0

  -- The tokens of a call: what was billed for it, or where nothing was, the estimate.
  abbrev pub tokens_of : Call → ℕ
  tokens_of c = counted_tokens c.billed (estimate_tokens c.exchange)

  abbrev pub IsRefused : Call × Bool → Type 0
  IsRefused (c, through) = through ≡ false

  -- What asking for a call says: one that is admitted has room, one that is not exhausts the budget.
  abbrev Asked : ℕ → ℕ → ℕ → Admission C → Type 0
  Asked limit used projected (admitted ctx) =
      (projected ≤ limit) × (ctx.token_limit ≡ limit) × (ctx.tokens_used ≡ used)
  Asked limit used projected (budget_exceeded ctx) = ctx.exhausted ≡ true

  -- When the calls let through have used `spent` tokens: a call that is let through has room for its
  -- prompt beside them and adds its own, and after a refusal there are only refusals.
  abbrev pub IsOrderly : ℕ → ℕ → List (Call × Bool) → Type 0
  IsOrderly limit spent [] = Unit
  IsOrderly limit spent ((c, true) ∷ xs) =
      (spent + estimate_tokens c.prompt ≤ limit) × IsOrderly limit (spent + tokens_of c) xs
  IsOrderly limit spent ((c, false) ∷ xs) = All IsRefused xs
