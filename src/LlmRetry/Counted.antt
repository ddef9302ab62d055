-- ===== src/LlmRetry/Counted.antt =====
-- How the breaker counts the attempts of a call.
use agent_langraph.Prelude.{
  ℕ, zero, suc, ◌+◌, ◌*◌, String, ◌≡◌, refl, ap, ◌∙◌, Bool, true, false, [], ◌∷◌, ◌++◌, arith,
}
use agent_langraph.CircuitBreaker.{record_failure, failed}
use agent_langraph.CircuitBreaker.Classify.{
  LlmErrorCategory, classify_llm_error, is_retryable_category,
}
use agent_langraph.LlmRetry.{
  Attempt, raised, Reply, error, retryable_error, World, note_failure, note_error, sleep, is_fatal,
  is_transient, Verdict, again, ends, after_attempt, retry_loop,
}

-- An error that is retried, and of a category that counts as a failure.
pub record IsTransient {A : Type 0} (a : Attempt A) : Type 0 where
  pub text : String
  pub name : String
  pub raises : a ≡ raised text name
  pub not_fatal : is_fatal (classify_llm_error text name) ≡ false
  pub transient : is_transient text ≡ true
  pub counts : is_retryable_category (classify_llm_error text name) ≡ true

count-note_failure :
    (now : ℕ) (w : World)
    → w.guarded ≡ true
    → ((note_failure now w).guarded ≡ true)
      × ((note_failure now w).breaker.failure_count ≡ w.breaker.failure_count + 1)
unfolding note_failure record_failure failed
count-note_failure now w g = rw g (refl, refl)

count-note_error :
    (now : ℕ) (c : LlmErrorCategory) (w : World)
    → w.guarded ≡ true
    → is_retryable_category c ≡ true
    → ((note_error now c w).guarded ≡ true)
      × ((note_error now c w).breaker.failure_count ≡ w.breaker.failure_count + 1)
unfolding note_error
count-note_error now c w g k =
    rw k (count-note_failure now (record w { errors = w.errors ++ (c ∷ []) }) g)

module _ {A : Type 0} (try : ℕ → ℕ × Attempt A) where
  abbrev after : ℕ → ℕ → Verdict A → World × Reply A
  after left attempt v = elim v [
    | ends w' r ↦ (w', r)
    | again w' ↦ retry_loop try left (attempt + 1) w'
  ]

  judge : Bool → ℕ → World → Verdict A
  judge last attempt w = after_attempt last attempt (try attempt).0 (try attempt).1 w

  module _ (attempt : ℕ) (w : World) (bad : IsTransient (try attempt).1) where
    noted : World
    noted = note_error (try attempt).0 (classify_llm_error bad.text bad.name) w

    judge_last : judge true attempt w ≡ ends noted (error (retryable_error bad.text))
    unfolding judge noted after_attempt
    judge_last = rw bad.raises (rw (bad.not_fatal, bad.transient) refl)

    judge_again : judge false attempt w ≡ again (sleep attempt (note_failure (try attempt).0 noted))
    unfolding judge noted after_attempt
    judge_again = rw bad.raises (rw (bad.not_fatal, bad.transient) refl)

    count-noted :
        w.guarded ≡ true
        → (noted.guarded ≡ true) × (noted.breaker.failure_count ≡ w.breaker.failure_count + 1)
    unfolding noted
    count-noted g =
        count-note_error (try attempt).0 (classify_llm_error bad.text bad.name) w g bad.counts

    count-again :
        w.guarded ≡ true
        → let w' = sleep attempt (note_failure (try attempt).0 noted) in
          (w'.guarded ≡ true) × (w'.breaker.failure_count ≡ w.breaker.failure_count + 2)
    unfolding sleep
    count-again g =
        let one = count-noted g in
        let two = count-note_failure (try attempt).0 noted one.0 in
        (two.0, omega (arith, one.1, two.1))

  -- With the breaker enabled, a call whose attempts all fail in a way that is retried and counts as
  -- a failure counts each of them twice but the last: the handler notes the failure of the
  -- category, and notes it again before it sleeps.
  pub failures_doubled :
      (left attempt : ℕ) (w : World)
      → w.guarded ≡ true
      → ((n : ℕ) → IsTransient (try n).1)
      → (retry_loop try (suc left) attempt w).0.breaker.failure_count
        ≡ w.breaker.failure_count + 2 * left + 1
  unfolding retry_loop judge
  failures_doubled zero attempt w g bad =
      ap (λ v. (after zero attempt v).0.breaker.failure_count) (judge_last attempt w (bad attempt))
      ∙ omega (arith, (count-noted attempt w (bad attempt) g).1)
  failures_doubled (suc left) attempt w g bad =
      let next = count-again attempt w (bad attempt) g in
      ap (λ v. (after (suc left) attempt v).0.breaker.failure_count)
        (judge_again attempt w (bad attempt))
      ∙ failures_doubled left (attempt + 1)
          (sleep attempt (note_failure (try attempt).0 (noted attempt w (bad attempt)))) next.0 bad
      ∙ omega (arith, next.1)
