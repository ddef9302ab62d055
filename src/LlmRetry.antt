-- ===== src/LlmRetry.antt =====
-- `with_retry` of app/services/llm_client.py: a call of the model with its retries, round the shared
-- circuit breaker.
pub mod Attempts
pub mod Counted
mod Examples
use agent_langraph.Prelude.{
  ℕ, zero, suc, ◌+◌, String, Bool, true, false, not, ◌||◌, List, [], ◌∷◌, ◌++◌, if◌then◌else◌,
}
use agent_langraph.CircuitBreaker.{
  Breaker, Metrics, Permit, allowed, circuit_open_error, allow_call, record_success, record_failure,
}
use agent_langraph.CircuitBreaker.Classify.{
  LlmErrorCategory, auth_error, content_filter, context_too_long, contains_any, classify_llm_error,
  is_retryable_category,
}

-- How one call of the wrapped function ends: it returns, it raises one of the two classes that have a
-- handler of their own, or another `Exception` with its text in lower case and its class's name, or
-- what `except Exception` does not catch.
pub data Attempt (A : Type 0) : Type 0 where
  returned : A → Attempt A
  circuit_open : String → Attempt A
  retryable : String → Attempt A
  raised : String → String → Attempt A
  escaped : String → Attempt A

pub data Error : Type 0 where
  open_error : String → Error
  retryable_error : String → Error
  exception : String → String → Error
  escape : String → Error
  runtime_error : Error

pub data Reply (A : Type 0) : Type 0 where
  result : A → Reply A
  error : Error → Reply A

-- What a call changes: the breaker with its gauge, the counter of errors by category, and the
-- exponents of the delays slept; `guarded` is LLM_CIRCUIT_BREAKER_ENABLED.
pub record World : Type 0 where
  pub guarded : Bool
  pub breaker : Breaker
  pub metrics : Metrics
  pub errors : List LlmErrorCategory
  pub sleeps : List ℕ

unfoldable pub note_success : World → World
note_success w =
    if w.guarded
    then (let (b, m) = record_success w.breaker w.metrics in record w { breaker = b; metrics = m })
    else w

unfoldable pub note_failure : ℕ → World → World
note_failure now w =
    if w.guarded
    then (let (b, m) = record_failure now w.breaker w.metrics in
        record w { breaker = b; metrics = m })
    else w

unfoldable pub sleep : ℕ → World → World
sleep attempt w = record w { sleeps = w.sleeps ++ (attempt ∷ []) }

-- `inc_llm_error`, and the breaker's part of the last handler.
unfoldable pub note_error : ℕ → LlmErrorCategory → World → World
unfolding note_success note_failure
note_error now c w =
    let w' = record w { errors = w.errors ++ (c ∷ []) } in
    if is_retryable_category c then note_failure now w' else note_success w'

unfoldable pub is_fatal : LlmErrorCategory → Bool
is_fatal auth_error = true
is_fatal content_filter = true
is_fatal context_too_long = true
is_fatal _ = false

unfoldable pub is_transient : String → Bool
is_transient message =
    contains_any
      ("timeout" ∷ "rate" ∷ "529" ∷ "503" ∷ "502" ∷ "incomplete chunked" ∷ "peer closed" ∷ [])
      message

abbrev pub is_zero : ℕ → Bool
is_zero zero = true
is_zero (suc n) = false

-- What becomes of an attempt: the loop goes on, or it ends with a reply; `last` says that it is the
-- last attempt there is.
pub data Verdict (A : Type 0) : Type 0 where
  again : World → Verdict A
  ends : World → Reply A → Verdict A

module _ {A : Type 0} where
  unfoldable pub after_attempt : Bool → ℕ → ℕ → Attempt A → World → Verdict A
  unfolding note_success note_failure note_error sleep is_fatal is_transient
  after_attempt last attempt now (returned a) w = ends (note_success w) (result a)
  after_attempt last attempt now (circuit_open name) w = ends w (error (open_error name))
  after_attempt last attempt now (escaped text) w = ends w (error (escape text))
  after_attempt last attempt now (retryable text) w =
      if last
      then ends (note_failure now w) (error (retryable_error text))
      else again (sleep attempt (note_failure now w))
  after_attempt last attempt now (raised text name) w =
      let c = classify_llm_error text name in
      let w' = note_error now c w in
      if is_fatal c
      then ends w' (error (exception text name))
      else if is_transient text
      then (if last
          then ends w' (error (retryable_error text))
          else again (sleep attempt (note_failure now w')))
      else ends w' (error (exception text name))

  module _ (try : ℕ → ℕ × Attempt A) where
    -- The loop with `left` attempts to go: `try` gives the end of each attempt and its time.
    unfoldable pub retry_loop : ℕ → ℕ → World → World × Reply A
    unfolding after_attempt
    retry_loop zero attempt w = (w, error runtime_error)
    retry_loop (suc left) attempt w =
        elim (after_attempt (is_zero left) attempt (try attempt).0 (try attempt).1 w) [
          | ends w' r ↦ (w', r)
          | again w' ↦ retry_loop left (attempt + 1) w'
        ]

    unfoldable pub after_permit : Permit → ℕ → World → World × Reply A
    unfolding retry_loop
    after_permit allowed retries w = retry_loop retries 0 w
    after_permit (circuit_open_error name) retries w = (w, error (open_error name))

    -- The permit is asked for once, before the first attempt.
    unfoldable pub with_retry : ℕ → ℕ → World → World × Reply A
    unfolding after_permit
    with_retry retries now w =
        if w.guarded
        then (let (b, p) = allow_call now w.breaker in
            after_permit p retries (record w { breaker = b }))
        else retry_loop retries 0 w
