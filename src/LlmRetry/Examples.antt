-- ===== src/LlmRetry/Examples.antt =====
-- A call that times out, with three attempts and a breaker that opens at five failures.
use agent_langraph.Prelude.{ℕ, ◌+◌, ◌*◌, ◌≡◌, refl, true, false, [], arith}
use agent_langraph.CircuitBreaker.{
  Breaker, closed, opened, allow_call, record_failure, record_success,
}
use agent_langraph.CircuitBreaker.Classify.{
  is_retryable_category, classify_llm_error, is_auth, is_content_filter, is_context_too_long,
  is_timeout, is_rate_limit, contains, contains_any,
}
use agent_langraph.LlmRetry.{
  Attempt, raised, World, error, retryable_error, is_fatal, is_transient, retry_loop, with_retry,
}
use agent_langraph.LlmRetry.Attempts.{Follows, with_retry_lem}
use agent_langraph.LlmRetry.Counted.{IsTransient, failures_doubled}

abbrev breaker : Breaker
breaker = record {
  name = "default";
  failure_threshold = 5;
  recovery_timeout = 60;
  half_open_max_calls = 1;
  state = closed;
  failure_count = 0;
  last_failure_time = 0;
  half_open_calls = 0;
}

abbrev world : World
world = record {
  guarded = true;
  breaker = breaker;
  metrics = record { enabled = false; has_gauge = false; gauge = [] };
  errors = [];
  sleeps = [];
}

abbrev times_out : ℕ → ℕ × Attempt ℕ
times_out n = (10 * n, raised "timeout" "error")

-- Three attempts, five failures: the breaker is open after one call.
opened_by_one_call :
    ((with_retry times_out 3 0 world).0.breaker.state ≡ opened)
    × ((with_retry times_out 3 0 world).1 ≡ error (retryable_error "timeout"))
unfolding with_retry allow_call record_failure record_success is_retryable_category
    classify_llm_error is_auth is_content_filter is_context_too_long is_timeout is_rate_limit
    contains contains_any
opened_by_one_call = (refl, refl)

times_out-IsTransient : (n : ℕ) → IsTransient (times_out n).1
unfolding is_retryable_category classify_llm_error is_auth is_content_filter is_context_too_long
    is_timeout is_rate_limit contains contains_any is_fatal is_transient
times_out-IsTransient n = record {
  text = "timeout";
  name = "error";
  raises = refl;
  not_fatal = refl;
  transient = refl;
  counts = refl;
}

failures_doubled_example : (retry_loop times_out 3 0 world).0.breaker.failure_count ≡ 0 + 2 * 2 + 1
failures_doubled_example = failures_doubled times_out 2 0 world refl times_out-IsTransient

with_retry_lem_example :
    let (b, p) = allow_call 0 breaker in
    Follows times_out true p 3 world b (with_retry times_out 3 0 world)
with_retry_lem_example = with_retry_lem times_out 3 0 world (omega arith)
