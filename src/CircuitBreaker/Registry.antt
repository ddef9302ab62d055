-- ===== src/CircuitBreaker/Registry.antt =====
-- The breakers of a process, by name: `get_llm_circuit_breaker` and `reset_circuit_breakers`. The
-- dictionary holds the shared object of each name, so a change of it is a `put` under its name.
use agent_langraph.Prelude.{
  ℕ, String, Option, none, some, ◌≡◌, [], eq_refl, eq_iff, arith, if◌then◌else◌, ◌==◌,
}
use agent_langraph.Prelude.Dict
use agent_langraph.Prelude.Dict.{Dict, get-put}
use agent_langraph.CircuitBreaker.{Breaker, new}

pub record Settings : Type 0 where
  pub llm_circuit_failure_threshold : ℕ
  pub llm_circuit_recovery_timeout_sec : ℕ

found_or_new : Settings → String → Option Breaker → Dict Breaker → Dict Breaker × Breaker
found_or_new cfg name (some b) breakers = (breakers, b)
found_or_new cfg name none breakers =
    let b = new name cfg.llm_circuit_failure_threshold cfg.llm_circuit_recovery_timeout_sec in
    (Dict.put name b breakers, b)

unfoldable pub get_llm_circuit_breaker : Settings → String → Dict Breaker → Dict Breaker × Breaker
unfolding found_or_new
get_llm_circuit_breaker cfg name breakers = found_or_new cfg name (Dict.get name breakers) breakers

unfoldable pub reset_circuit_breakers : Dict Breaker → Dict Breaker
reset_circuit_breakers breakers = []

-- A breaker that is fetched is the one kept under its name, a second fetch, whatever the settings
-- are by then, gives the same one and changes nothing, and no other name is touched.
pub get_llm_circuit_breaker_shared :
    (cfg later : Settings) (name other : String) (breakers : Dict Breaker)
    → let (breakers', b) = get_llm_circuit_breaker cfg name breakers in
      (get_llm_circuit_breaker later name breakers' ≡ (breakers', b))
      × (Dict.get name breakers' ≡ some b)
      × (Dict.get other breakers' ≡ (if name == other then some b else Dict.get other breakers))
unfolding get_llm_circuit_breaker
get_llm_circuit_breaker_shared cfg later name other breakers = ground (
  arith,
  get-put name name
      (new name cfg.llm_circuit_failure_threshold cfg.llm_circuit_recovery_timeout_sec) breakers,
  get-put name other
      (new name cfg.llm_circuit_failure_threshold cfg.llm_circuit_recovery_timeout_sec) breakers,
  eq_refl name,
  eq_iff name other,
)
