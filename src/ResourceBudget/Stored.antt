-- ===== src/ResourceBudget/Stored.antt =====
-- What a budget loses between two nodes, when it is written to the state and read again.
use agent_langraph.Prelude.{
  ℕ, zero, suc, ◌+◌, ◌≤◌, ◌≡◌, refl, ◌∙◌, ◌⊎◌, inl, inr, Option, none, some, List, [], ◌∷◌, arith,
  if◌then◌else◌, eqb,
}
use agent_langraph.ResourceBudget.{
  Costs, BudgetContext, State, or_count, estimate_tokens, billed_count, from_state, apply_to_state,
  after_invoke,
}

or_count-estimate : (e u : ℕ) → (e ≡ 0 → u ≡ 0) → or_count e u ≡ e
or_count-estimate zero u h = h refl
or_count-estimate (suc e) u h = ground arith

or_count-billed : (b u : ℕ) → (b ≡ 0) ⊎ (b ≡ u) → or_count b u ≡ u
or_count-billed b u (inl h) = rw h refl
or_count-billed b u (inr h) = ground arith

-- A call: the length of its exchange, and the tokens that the provider billed, if it says so.
abbrev pub Call : Type 0
Call = ℕ × Option ℕ

-- The tokens of the calls that were billed, and of those that were not.
abbrev pub billed_sum : List Call → ℕ
billed_sum [] = 0
billed_sum ((n, b) ∷ cs) = billed_count b + billed_sum cs

abbrev pub unbilled_sum : List Call → ℕ
unbilled_sum [] = 0
unbilled_sum ((n, b) ∷ cs) =
    (if eqb (billed_count b) 0 then estimate_tokens n else 0) + unbilled_sum cs

module _ {C : Type 0} (costs : Costs C) where
  unfoldable pub run_calls : List Call → BudgetContext C → BudgetContext C
  unfolding after_invoke
  run_calls [] ctx = ctx
  run_calls ((n, b) ∷ cs) ctx = run_calls cs (after_invoke costs n b ctx)

  run_calls-counts :
      (cs : List Call) (ctx : BudgetContext C)
      → ((run_calls cs ctx).tokens_used ≡ ctx.tokens_used + (billed_sum cs + unbilled_sum cs))
        × ((run_calls cs ctx).tokens_used_billed ≡ ctx.tokens_used_billed + billed_sum cs)
  unfolding run_calls
  run_calls-counts [] ctx = omega arith
  run_calls-counts ((n, none) ∷ cs) ctx =
      let rest = run_calls-counts cs (after_invoke costs n none ctx) in
      (rest.0 ∙ omega arith, rest.1 ∙ omega arith)
  run_calls-counts ((n, some b) ∷ cs) ctx =
      let rest = run_calls-counts cs (after_invoke costs n (some b) ctx) in
      (rest.0 ∙ ground arith, rest.1 ∙ omega arith)

module _ {C U : Type 0} (costs : Costs C) where
  -- A budget that was written and read again is the same, if its calls were billed all or none, the
  -- estimate is not 0 where tokens were used, and the cost has no more than six decimals.
  pub from_state-apply_to_state :
      (ctx : BudgetContext C) (s : State C U)
      → (ctx.tokens_used_billed ≡ 0) ⊎ (ctx.tokens_used_billed ≡ ctx.tokens_used)
      → (ctx.tokens_used_estimate ≡ 0 → ctx.tokens_used ≡ 0)
      → costs.round ctx.cost_used ≡ ctx.cost_used
      → from_state costs (apply_to_state costs ctx s) ≡ ctx
  unfolding from_state apply_to_state
  from_state-apply_to_state ctx s billed estimated rounded =
      let used = or_count-billed ctx.tokens_used_billed ctx.tokens_used billed in
      let estimate = or_count-estimate ctx.tokens_used_estimate ctx.tokens_used estimated in
      rw used (rw (estimate, rounded) refl)

module _ {C U : Type 0} (costs : Costs C) where
  -- A task that has used nothing yet counts the billed tokens of its calls and the estimates of
  -- those that were not billed; if any was billed, writing the budget to the state and reading it
  -- again leaves the billed tokens alone, and the others are forgotten.
  pub stored_forgets_estimates :
      (cs : List Call) (ctx : BudgetContext C) (s : State C U)
      → ctx.tokens_used ≡ 0
      → ctx.tokens_used_billed ≡ 0
      → 1 ≤ billed_sum cs
      → ((run_calls costs cs ctx).tokens_used ≡ billed_sum cs + unbilled_sum cs)
        × ((from_state costs (apply_to_state costs (run_calls costs cs ctx) s)).tokens_used
            ≡ billed_sum cs)
  unfolding from_state apply_to_state
  stored_forgets_estimates cs ctx s no_use no_bill some_bill =
      let counts = run_calls-counts costs cs ctx in
      (omega (arith, counts.0), ground (arith, counts.1))
