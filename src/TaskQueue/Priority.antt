-- ===== src/TaskQueue/Priority.antt =====
-- app/services/queue_priority.py: a priority that grows with the time a task has waited.
use agent_langraph.Prelude.{
  ℕ, suc, zero, ◌+◌, ◌-◌, ◌/◌, ◌≤◌, ◌≡◌, refl, inl, inr, true, Option, none, some, arith, ap, ◌∙◌,
  Bool-cases, leb,
}
use agent_langraph.Prelude.Int.{max_zero}
use agent_langraph.TaskQueue.Score.{ℤ, pos, negsuc, leq, difference, ◌+ℤ◌, min_of}

-- `QUEUE_STARVATION_SEC`, of which 0 stands for none and less, and `QUEUE_STARVATION_MAX_BOOST`.
pub record Settings : Type 0 where
  pub starvation_sec : ℕ
  pub max_boost : ℤ

-- `age // starvation_sec`, rounded down, below 0 too.
abbrev pub boosts : ℕ → ℤ → ℤ
boosts zero age = pos 0
boosts (suc s) (pos n) = pos (n / suc s)
boosts (suc s) (negsuc n) = negsuc (n / suc s)

-- `enqueued_at` is `none` where its text is no time.
unfoldable pub effective_priority : Settings → ℤ → Option ℕ → ℕ → ℤ
effective_priority settings base none now = base
effective_priority settings base (some enqueued) now = elim settings.starvation_sec [
  | zero ↦ base
  | suc s ↦ base +ℤ min_of (boosts (suc s) (difference now enqueued)) settings.max_boost
]

-- `max(0, min(9, effective))`
unfoldable pub celery_task_priority : ℤ → ℕ
celery_task_priority effective = max_zero (min_of (pos 9) effective)

boosted :
    (base k most : ℕ)
    → (n : ℕ) × (n ≤ most) × ((pos base +ℤ min_of (pos k) (pos most)) ≡ pos (base + n))
boosted base k most = elim (Bool-cases (leb most k)) [
  | inl e ↦ (most, omega arith, rw e refl)
  | inr e ↦ (k, ground arith, rw e refl)
]

le→leb : (a b : ℕ) → a ≤ b → leb a b ≡ true
le→leb a b h = ground arith

-- The priority with its boost.
effective_form :
    (s base enqueued now most : ℕ)
    → enqueued ≤ now
    → (n : ℕ) × (n ≤ most)
      × (effective_priority
            (record { starvation_sec = s; max_boost = pos most })
            (pos base)
            (some enqueued)
            now
          ≡ pos (base + n))
unfolding effective_priority
effective_form zero base enqueued now most past = (0, omega arith, ap pos (omega arith))
effective_form (suc s) base enqueued now most past =
    let later : difference now enqueued ≡ pos (now - enqueued) =
      rw (le→leb enqueued now past) refl in
    let form = boosted base ((now - enqueued) / suc s) most in (form.0, form.1, rw later form.2)

-- A boost is at most the highest that is set, and a task enqueued no later than now does not sink
-- below its priority if that is not negative; a broker's priority is at most 9.
pub effective_priority_bounds :
    (settings : Settings) (base : ℕ) (enqueued now most : ℕ)
    → settings.max_boost ≡ pos most
    → enqueued ≤ now
    → (leq (pos base) (effective_priority settings (pos base) (some enqueued) now) ≡ true)
      × (leq (effective_priority settings (pos base) (some enqueued) now) (pos (base + most))
          ≡ true)
      × (celery_task_priority (effective_priority settings (pos base) (some enqueued) now) ≤ 9)
unfolding celery_task_priority
effective_priority_bounds settings base enqueued now most limit past =
    let form = effective_form settings.starvation_sec base enqueued now most past in
    let value : effective_priority settings (pos base) (some enqueued) now ≡ pos (base + form.0) =
      ap
        (λ m.
          effective_priority (record { starvation_sec = settings.starvation_sec; max_boost = m })
            (pos base) (some enqueued) now)
        limit
      ∙ form.2 in
    rw value (ground arith, ground (arith, form.1), ground arith)
