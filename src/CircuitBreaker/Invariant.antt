-- ===== src/CircuitBreaker/Invariant.antt =====
-- What holds of a breaker between any two method calls, by whatever threads.
use agent_langraph.Prelude.{ℕ, ◌+◌, ◌≤◌, ◌<◌, String, ◌≡◌, Bool, true, false, arith, List, [], ◌∷◌}
use agent_langraph.CircuitBreaker.{
  closed, opened, half_open, allowed, circuit_open_error, Breaker, Metrics, new, allow_call,
  record_success, record_failure,
}

-- Of a breaker that has let `n` probes through since it became half-open: the probes are counted and
-- within the budget, and a closed breaker is below its threshold.
pub record IsValid (b : Breaker) (n : ℕ) : Type 0 where
  pub probes_counted : b.state ≡ half_open → b.half_open_calls ≡ n
  pub probes_capped : b.state ≡ half_open → n ≤ b.half_open_max_calls
  pub closed_below : b.state ≡ closed → b.failure_count < b.failure_threshold

pub new-IsValid :
    (name : String) (threshold timeout : ℕ) → 0 < threshold → IsValid (new name threshold timeout) 0
unfolding new
new-IsValid name threshold timeout h = ground arith

-- One entry of a lock-ordered history of a breaker and its gauge.
pub data Event : Type 0 where
  permit : ℕ → Event
  success : Event
  failure : ℕ → Event

unfoldable pub step : Event → Breaker × Metrics → Breaker × Metrics
step (permit now) (b, m) = ((allow_call now b).0, m)
step success (b, m) = record_success b m
step (failure now) (b, m) = record_failure now b m

unfoldable pub run : List Event → Breaker × Metrics → Breaker × Metrics
run [] s = s
run (e ∷ es) s = run es (step e s)

-- The calls that an event lets through, read off the answer of `allow_call` and not off a counter.
abbrev pub let_through : Event → Breaker → ℕ
let_through (permit now) b = elim (allow_call now b).1 [ allowed ↦ 1 | circuit_open_error name ↦ 0 ]
let_through success b = 0
let_through (failure now) b = 0

-- The probes let through since the breaker became half-open, of which there were `n` before the
-- event: a breaker that was not half-open before the event starts at none.
unfoldable pub probes_after : Event → Breaker → ℕ → ℕ
probes_after e b n = elim b.state [
  | half_open ↦ n + let_through e b
  | opened ↦ let_through e b
  | closed ↦ 0
]

unfoldable pub probes : List Event → Breaker × Metrics → ℕ → ℕ
unfolding step probes_after
probes [] s n = n
probes (e ∷ es) s n = probes es (step e s) (probes_after e s.0 n)

step-IsValid :
    (e : Event) (b : Breaker) (m : Metrics) (n : ℕ)
    → 0 < b.failure_threshold
    → IsValid b n
    → IsValid (step e (b, m)).0 (probes_after e b n)
unfolding step allow_call record_success record_failure probes_after
step-IsValid (permit now) b m n t h = ground arith
step-IsValid success b m n t h = ground arith
step-IsValid (failure now) b m n t h = ground arith

step-threshold :
    (e : Event) (b : Breaker) (m : Metrics)
    → (step e (b, m)).0.failure_threshold ≡ b.failure_threshold
unfolding step allow_call record_success record_failure
step-threshold (permit now) b m = ground arith
step-threshold success b m = ground arith
step-threshold (failure now) b m = ground arith

-- After any methods in any order, from a valid breaker with a positive threshold: a half-open
-- breaker has let through at most `half_open_max_calls` calls since it became half-open, and counts
-- just these, and a closed breaker has counted fewer failures than the threshold.
pub run-IsValid :
    (es : List Event) (b : Breaker) (m : Metrics) (n : ℕ)
    → 0 < b.failure_threshold
    → IsValid b n
    → IsValid (run es (b, m)).0 (probes es (b, m) n)
unfolding run probes
run-IsValid [] b m n t h = h
run-IsValid (e ∷ es) b m n t h =
    let s = step e (b, m) in
    run-IsValid es s.0 s.1 (probes_after e b n) (rw step-threshold t) (step-IsValid e b m n t h)

-- The events that end a call.
abbrev pub is_record : Event → Bool
is_record (permit now) = false
is_record success = true
is_record (failure now) = true
