-- ===== src/CircuitBreaker.antt =====
-- app/services/circuit_breaker.py: the breaker of the calls to a language model. A method that
-- changes the object returns the new record. `time.monotonic()` is an argument, a number of clock
-- ticks, so that differences of times carry no rounding. Threads enter as orders of the methods,
-- each of which runs under the object's lock.
pub mod Classify
pub mod Gauge
pub mod Invariant
pub mod Recovery
pub mod Registry
mod Examples
use agent_langraph.Prelude.{ℕ, ◌+◌, String, Bool, Option, none, some, if◌then◌else◌, leb, ◌&&◌}
use agent_langraph.Prelude.Dict
use agent_langraph.Prelude.Dict.{Dict}

pub data CircuitState : Type 0 where
  closed opened half_open : CircuitState

pub record Breaker : Type 0 where
  pub name : String
  pub failure_threshold : ℕ
  pub recovery_timeout : ℕ
  pub half_open_max_calls : ℕ
  pub state : CircuitState
  pub failure_count : ℕ
  pub last_failure_time : ℕ
  pub half_open_calls : ℕ

-- The constructor of the data class, with its defaults for the fields that are not settings.
unfoldable pub new : String → ℕ → ℕ → Breaker
new name threshold timeout = record {
  name = name;
  failure_threshold = threshold;
  recovery_timeout = timeout;
  half_open_max_calls = 1;
  state = closed;
  failure_count = 0;
  last_failure_time = 0;
  half_open_calls = 0;
}

-- `now - last >= timeout`, with the subtraction moved to the other side: no truncation.
maybe_transition_from : CircuitState → ℕ → Breaker → Breaker
maybe_transition_from opened now b =
    if leb (b.last_failure_time + b.recovery_timeout) now
    then record b { state = half_open; half_open_calls = 0 }
    else b
maybe_transition_from _ now b = b

-- `_maybe_transition`
unfoldable pub maybe_transition : ℕ → Breaker → Breaker
unfolding maybe_transition_from
maybe_transition now b = maybe_transition_from b.state now b

unfoldable pub succeeded : Breaker → Breaker
succeeded b = record b { failure_count = 0; state = closed; half_open_calls = 0 }

-- The state that a failure leaves; `n` is the count with the failure in it.
state_after_failure : CircuitState → ℕ → Breaker → CircuitState
state_after_failure half_open n b = opened
state_after_failure closed n b = if leb b.failure_threshold n then opened else closed
state_after_failure opened n b = opened

unfoldable pub failed : ℕ → Breaker → Breaker
unfolding state_after_failure
failed now b =
    let n = b.failure_count + 1 in
    record b { failure_count = n; last_failure_time = now; state = state_after_failure b.state n b }

-- `CircuitOpenError` carries the name of the breaker.
pub data Permit : Type 0 where
  allowed : Permit
  circuit_open_error : String → Permit

admit : CircuitState → Breaker → Breaker × Permit
admit opened b = (b, circuit_open_error b.name)
admit half_open b =
    if leb b.half_open_max_calls b.half_open_calls
    then (b, circuit_open_error b.name)
    else (record b { half_open_calls = b.half_open_calls + 1 }, allowed)
admit closed b = (b, allowed)

unfoldable pub allow_call : ℕ → Breaker → Breaker × Permit
unfolding maybe_transition admit
allow_call now b = let b' = maybe_transition now b in admit b'.state b'

-- What metrics_service.py keeps of a breaker: the one of its three series that is at 1.
pub record Metrics : Type 0 where
  pub enabled : Bool  -- settings.METRICS_ENABLED
  pub has_gauge : Bool  -- the Prometheus gauge was created
  pub gauge : Dict CircuitState

-- `set_llm_circuit_state`: the series of the state given is set to 1 and the other two to 0.
unfoldable pub set_llm_circuit_state : String → CircuitState → Metrics → Metrics
set_llm_circuit_state name st m =
    if m.has_gauge then record m { gauge = Dict.put name st m.gauge } else m

unfoldable pub emit_circuit_metric : String → CircuitState → Metrics → Metrics
unfolding set_llm_circuit_state
emit_circuit_metric name st m = if m.enabled then set_llm_circuit_state name st m else m

unfoldable pub record_success : Breaker → Metrics → Breaker × Metrics
unfolding succeeded
record_success b m = let b' = succeeded b in (b', emit_circuit_metric b'.name b'.state m)

unfoldable pub record_failure : ℕ → Breaker → Metrics → Breaker × Metrics
unfolding failed
record_failure now b m = let b' = failed now b in (b', emit_circuit_metric b'.name b'.state m)

-- How the wrapped function ends: it returns, it raises an `Exception`, or it raises what
-- `except Exception` does not catch (a cancellation, KeyboardInterrupt).
pub data Outcome (A E : Type 0) : Type 0 where
  returned : A → Outcome A E
  raised : E → Outcome A E
  escaped : E → Outcome A E

pub data Reply (A E : Type 0) : Type 0 where
  result : A → Reply A E
  refused : String → Reply A E
  error : E → Reply A E

module _ {A E : Type 0} where
  -- The end of `call`, at the time `now`.
  finish_call : ℕ → Outcome A E → Breaker → Metrics → (Breaker × Metrics) × Reply A E
  unfolding record_success record_failure
  finish_call now (returned a) b m = (record_success b m, result a)
  finish_call now (raised e) b m = (record_failure now b m, error e)
  finish_call now (escaped e) b m = ((b, m), error e)

  after_permit : Permit → ℕ → Outcome A E → Breaker → Metrics → (Breaker × Metrics) × Reply A E
  unfolding finish_call
  after_permit allowed now out b m = finish_call now out b m
  after_permit (circuit_open_error name) now out b m = ((b, m), refused name)

  -- `call`, with nothing between its start at `now` and its end at `later`; the outcome is the
  -- one that the function would have.
  unfoldable pub call : ℕ → ℕ → Outcome A E → Breaker → Metrics → (Breaker × Metrics) × Reply A E
  unfolding allow_call after_permit
  call now later out b m = let r = allow_call now b in after_permit r.1 later out r.0 m
