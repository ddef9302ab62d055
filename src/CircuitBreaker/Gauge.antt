-- ===== src/CircuitBreaker/Gauge.antt =====
-- What the metrics say of a breaker's state.
use agent_langraph.Prelude.{◌≡◌, ◌≢◌, true, some, arith, List, [], ◌∷◌, eq_refl, String}
use agent_langraph.Prelude.Dict
use agent_langraph.Prelude.Dict.{get-put}
use agent_langraph.CircuitBreaker.{
  closed, half_open, Breaker, Metrics, record_success, record_failure, emit_circuit_metric, failed,
}
use agent_langraph.CircuitBreaker.Invariant.{step, run, permit, failure, success, Event, is_record}

-- With the metrics on, a recorded success or failure leaves the gauge at the state of the breaker.
pub gauge_follows :
    (e : Event) (b : Breaker) (m : Metrics)
    → m.enabled ≡ true
    → m.has_gauge ≡ true
    → is_record e ≡ true
    → let (b', m') = step e (b, m) in Dict.get b.name m'.gauge ≡ some b'.state
unfolding step record_success record_failure emit_circuit_metric
gauge_follows (permit now) b m on has r = cc
gauge_follows success b m on has r = rw (on, has) (rw get-put (ground (arith, eq_refl b.name)))
gauge_follows (failure now) b m on has r =
    rw (on, has) (rw get-put (ground (arith, eq_refl b.name)))

step-gauge :
    (e : Event) (b : Breaker) (m : Metrics) (k : String)
    → Dict.get k m.gauge ≢ some half_open
    → Dict.get k (step e (b, m)).1.gauge ≢ some half_open
unfolding step record_success record_failure emit_circuit_metric
step-gauge (permit now) b m k h = h
step-gauge success b m k h = ground (arith, get-put b.name k closed m.gauge)
step-gauge (failure now) b m k h = ground (arith, get-put b.name k (failed now b).state m.gauge)

-- No order of methods ever makes the gauge show `half_open`, though a breaker is in that state
-- from the first call after the recovery time to the end of its probe.
pub gauge-ne-half_open :
    (es : List Event) (b : Breaker) (m : Metrics) (k : String)
    → Dict.get k m.gauge ≢ some half_open
    → Dict.get k (run es (b, m)).1.gauge ≢ some half_open
unfolding run
gauge-ne-half_open [] b m k h = h
gauge-ne-half_open (e ∷ es) b m k h =
    let s = step e (b, m) in gauge-ne-half_open es s.0 s.1 k (step-gauge e b m k h)
