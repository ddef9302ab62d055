-- ===== src/CircuitBreaker/Examples.antt =====
-- A breaker with a threshold of 2 and a recovery time of 60 ticks, at work.
use agent_langraph.Prelude.{ℕ, ◌≡◌, refl, true, arith, [], ◌∷◌, List}
use agent_langraph.CircuitBreaker.{
  closed, opened, half_open, Breaker, Metrics, allow_call, record_failure, circuit_open_error, call,
  escaped,
}
use agent_langraph.CircuitBreaker.Classify.{
  classify_llm_error, rate_limit, contains, is_auth, is_content_filter, is_context_too_long,
  is_timeout, is_rate_limit,
}
use agent_langraph.CircuitBreaker.Invariant.{
  IsValid, Event, permit, failure, run, run-IsValid, step, probes, probes_after,
}
use agent_langraph.CircuitBreaker.Recovery.{permits, escaped_probe_starves}
use agent_langraph.CircuitBreaker.Registry.{Settings}

abbrev breaker : Breaker
breaker = record {
  name = "chat";
  failure_threshold = 2;
  recovery_timeout = 60;
  half_open_max_calls = 1;
  state = closed;
  failure_count = 0;
  last_failure_time = 0;
  half_open_calls = 0;
}

abbrev tripped : Breaker
tripped = record breaker { state = opened; failure_count = 2; last_failure_time = 20 }

abbrev metrics : Metrics
metrics = record { enabled = true; has_gauge = true; gauge = [] }

abbrev history : List Event
history = failure 10 ∷ failure 20 ∷ permit 30 ∷ permit 80 ∷ permit 81 ∷ []

history_ends : (run history (breaker, metrics)).0.state ≡ half_open
unfolding run step allow_call record_failure
history_ends = refl

-- The first permit is asked for too early, the second lets the probe through, the third is refused.
one_probe : probes history (breaker, metrics) 0 ≡ 1
unfolding probes step probes_after allow_call record_failure
one_probe = refl

breaker-IsValid : IsValid breaker 0
breaker-IsValid = ground arith

run-IsValid_example :
    IsValid (run history (breaker, metrics)).0 (probes history (breaker, metrics) 0)
run-IsValid_example = run-IsValid history breaker metrics 0 (omega arith) breaker-IsValid

escaped_probe_starves_example :
    let s = (call {A = ℕ} {E = ℕ} 80 90 (escaped 7) tripped metrics).0 in
    (run (permits (100 ∷ 100000 ∷ [])) s ≡ s)
    × ((allow_call 999999 s.0).1 ≡ circuit_open_error "chat")
escaped_probe_starves_example =
    escaped_probe_starves ℕ 80 90 7 tripped metrics (100 ∷ 100000 ∷ []) 999999 refl refl
      (omega arith)

abbrev settings : Settings
settings = record { llm_circuit_failure_threshold = 5; llm_circuit_recovery_timeout_sec = 60 }

abbrev other_settings : Settings
other_settings = record { llm_circuit_failure_threshold = 1; llm_circuit_recovery_timeout_sec = 1 }

rate_limited : classify_llm_error "error 429: slow down" "apierror" ≡ rate_limit
unfolding classify_llm_error is_auth is_content_filter is_context_too_long is_timeout is_rate_limit
    contains
rate_limited = refl
