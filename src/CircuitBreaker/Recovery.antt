-- ===== src/CircuitBreaker/Recovery.antt =====
-- When a breaker trips, how long it refuses, and what a probe decides.
use agent_langraph.Prelude.{
  ℕ, ◌+◌, ◌≤◌, ◌<◌, ◌≡◌, refl, true, arith, List, [], ◌∷◌, if◌then◌else◌, leb, length, Bool, false,
  ◌⊎◌, ◌||◌, ap,
}
use agent_langraph.CircuitBreaker.{
  CircuitState, closed, opened, half_open, Breaker, Reply, Metrics, allowed, circuit_open_error,
  allow_call, record_failure, Outcome, returned, raised, escaped, result, refused, error, call,
}
use agent_langraph.CircuitBreaker.Invariant.{step, run, permit, failure, Event}

abbrev pub is_half_open : CircuitState → Bool
is_half_open half_open = true
is_half_open _ = false

-- Failures at the given times.
unfoldable pub failures : List ℕ → List Event
failures [] = []
failures (t ∷ ts) = failure t ∷ failures ts

failures_count :
    (ts : List ℕ) (b : Breaker) (m : Metrics)
    → (run (failures ts) (b, m)).0.failure_count ≡ b.failure_count + length ts
unfolding failures run step record_failure
failures_count [] b m = omega arith
failures_count (t ∷ ts) b m =
    omega (arith, failures_count ts (record_failure t b m).0 (record_failure t b m).1)

opened_stays :
    (ts : List ℕ) (b : Breaker) (m : Metrics)
    → b.state ≡ opened
    → (run (failures ts) (b, m)).0.state ≡ opened
unfolding failures run step record_failure
opened_stays [] b m h = h
opened_stays (t ∷ ts) b m h =
    opened_stays ts (record_failure t b m).0 (record_failure t b m).1 (ground arith)

trips_from :
    (ts : List ℕ) (b : Breaker) (m : Metrics)
    → b.state ≡ closed
    → b.failure_count < b.failure_threshold
    → (run (failures ts) (b, m)).0.state
      ≡ (if leb b.failure_threshold (b.failure_count + length ts) then opened else closed)
unfolding failures run step record_failure
trips_from [] b m h below = ground arith
trips_from (t ∷ ts) b m h below = ground (
  arith,
  trips_from ts (record_failure t b m).0 (record_failure t b m).1,
  opened_stays ts (record_failure t b m).0 (record_failure t b m).1,
)

-- From a closed breaker that has counted fewer failures than its threshold, a run of failures
-- with nothing else between opens it exactly if the count reaches the threshold.
pub trips_exactly :
    (ts : List ℕ) (b : Breaker) (m : Metrics)
    → b.state ≡ closed
    → b.failure_count < b.failure_threshold
    → ((run (failures ts) (b, m)).0.state
        ≡ (if leb b.failure_threshold (b.failure_count + length ts) then opened else closed))
      × ((run (failures ts) (b, m)).0.failure_count ≡ b.failure_count + length ts)
trips_exactly ts b m h below = (trips_from ts b m h below, failures_count ts b m)

-- An open breaker with a positive half-open budget lets a call through exactly if the recovery
-- time has passed since the last failure; a refusal leaves it as it was, and the call let through
-- is the first probe.
pub opened_allows_iff :
    (now : ℕ) (b : Breaker)
    → b.state ≡ opened
    → 0 < b.half_open_max_calls
    → allow_call now b ≡ (
        if leb (b.last_failure_time + b.recovery_timeout) now
        then (record b { state = half_open; half_open_calls = 1 }, allowed)
        else (b, circuit_open_error b.name))
unfolding allow_call
opened_allows_iff now b h budget = ground arith

-- A half-open breaker whose budget is used up.
abbrev pub IsExhausted : Breaker → Type 0
IsExhausted b = (b.state ≡ half_open) × (b.half_open_max_calls ≤ b.half_open_calls)

unfoldable pub permits : List ℕ → List Event
permits [] = []
permits (t ∷ ts) = permit t ∷ permits ts

allow_call-IsExhausted :
    (now : ℕ) (b : Breaker) → IsExhausted b → allow_call now b ≡ (b, circuit_open_error b.name)
unfolding allow_call
allow_call-IsExhausted now b h = ground arith

exhausted_stays :
    (ts : List ℕ) (b : Breaker) (m : Metrics) → IsExhausted b → run (permits ts) (b, m) ≡ (b, m)
unfolding permits run step
exhausted_stays [] b m h = refl
exhausted_stays (t ∷ ts) b m h = rw (allow_call-IsExhausted t b h, run) (exhausted_stays ts b m h)

module _ {A E : Type 0} where
  -- How a call ended that the breaker `p` let through at the time of its end.
  abbrev pub Finished : Outcome A E → ℕ → Breaker → Breaker → Reply A E → Type 0
  Finished (returned a) later p b reply =
      (reply ≡ result a) × (b.state ≡ closed) × (b.failure_count ≡ 0) × (b.half_open_calls ≡ 0)
  Finished (raised e) later p b reply =
      (reply ≡ error e)
      × (b.failure_count ≡ p.failure_count + 1)
      × (b.last_failure_time ≡ later)
      × (b.state ≡ (
          if is_half_open p.state || leb p.failure_threshold (p.failure_count + 1)
          then opened
          else closed))
  Finished (escaped e) later p b reply = (reply ≡ error e) × (b ≡ p)

  -- What one call of a valid breaker does: a refused call records nothing and calls nothing; one
  -- that returns closes the breaker with its counters at 0; one that raises is counted, and opens
  -- the breaker if it was a probe or reached the threshold.
  pub call_cases :
      (now later : ℕ) (out : Outcome A E) (b : Breaker) (m : Metrics)
      → let (r, reply) = call now later out b m in
        let p = allow_call now b in
        ((p.1 ≡ circuit_open_error b.name) × (reply ≡ refused b.name) × (r ≡ (p.0, m)))
        ⊎ ((p.1 ≡ allowed) × Finished out later p.0 r.0 reply)
  unfolding call
  call_cases now later out b m = ground arith

module _ (A : Type 0) {E : Type 0} where
  escaped_exhausts :
      (now later : ℕ) (e : E) (b : Breaker) (m : Metrics)
      → b.state ≡ opened
      → b.half_open_max_calls ≡ 1
      → b.last_failure_time + b.recovery_timeout ≤ now
      → let s = (call {A = A} now later (escaped e) b m).0.0 in IsExhausted s × (s.name ≡ b.name)
  unfolding call
  escaped_exhausts now later e b m h one recovered = ground arith

  -- A probe that ends in what `except Exception` does not catch uses up a budget of one: however
  -- many calls are tried at whatever later times, each is refused and nothing changes.
  pub escaped_probe_starves :
      (now later : ℕ) (e : E) (b : Breaker) (m : Metrics) (ts : List ℕ) (t : ℕ)
      → b.state ≡ opened
      → b.half_open_max_calls ≡ 1
      → b.last_failure_time + b.recovery_timeout ≤ now
      → let s = (call {A = A} now later (escaped e) b m).0 in
        (run (permits ts) s ≡ s) × ((allow_call t s.0).1 ≡ circuit_open_error b.name)
  escaped_probe_starves now later e b m ts t h one recovered =
      let s = (call {A = A} now later (escaped e) b m).0 in
      let x = escaped_exhausts now later e b m h one recovered in
      (
        exhausted_stays ts s.0 s.1 x.0,
        rw (allow_call-IsExhausted t s.0 x.0) (ap circuit_open_error x.1),
      )
