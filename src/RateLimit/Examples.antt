-- ===== src/RateLimit/Examples.antt =====
-- Two requests in 60 ticks from one user, and a third.
use agent_langraph.Prelude.{◌≤◌, ◌≡◌, refl, true, false, arith, [], ◌∷◌, List}
use agent_langraph.Prelude.Dict
use agent_langraph.RateLimit.{Limiter, memory_check, window, no_client}
use agent_langraph.RateLimit.Window.{Request, run, spec_run, run_refines, empty-Agrees}
use agent_langraph.RateLimit.Bound.{count_within, admitted, sliding_window_bound}
use agent_langraph.RateLimit.Enforce.{Settings, Backend}

abbrev none_yet : Limiter
none_yet = record { windows = [] }

abbrev requests : List Request
requests = ("u", 10) ∷ ("u", 20) ∷ ("v", 20) ∷ ("u", 69) ∷ ("u", 70) ∷ []

run-requests : run 2 60 requests none_yet ≡ true ∷ true ∷ true ∷ false ∷ true ∷ []
unfolding run memory_check window Dict.get Dict.put
run-requests = refl

run_refines_example : run 2 60 requests none_yet ≡ (spec_run 2 60 requests []).0
run_refines_example = run_refines 2 60 requests 0 none_yet [] (omega arith) (empty-Agrees 60)

sliding_window_bound_example :
    count_within 60 69 "u" (admitted 2 60 requests (run 2 60 requests none_yet)) ≤ 2
sliding_window_bound_example = sliding_window_bound 2 60 requests "u" 69 (omega arith)

abbrev settings : Settings
settings = record { enabled = true; user_per_min = 1; ip_per_min = 5; window_sec = 60 }

abbrev in_memory : Backend
in_memory = record { use_redis = false; redis = no_client }

abbrev busy : Limiter
busy = record { windows = ("user:u", 10 ∷ []) ∷ [] }
