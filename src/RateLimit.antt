-- ===== src/RateLimit.antt =====
-- app/services/rate_limit.py: the sliding window of the HTTP interface. `time.monotonic()` is the
-- argument `now`, in clock ticks. A limit below 0 acts as 0, so limits are naturals. What Redis
-- answers is an argument: its counter is not part of the repository.
pub mod Window
pub mod Bound
pub mod Enforce
mod Examples
use agent_langraph.Prelude.{
  ℕ, ◌+◌, String, Bool, true, false, Option, none, some, List, [], ◌∷◌, ◌++◌, ◌&&◌, leb, ltb, keep,
  length, if◌then◌else◌,
}
use agent_langraph.Prelude.Dict
use agent_langraph.Prelude.Dict.{Dict}

pub record Limiter : Type 0 where
  pub windows : Dict (List ℕ)

-- `_windows[key]` of the `defaultdict(list)`
window_or : Option (List ℕ) → List ℕ
window_or none = []
window_or (some ts) = ts

unfoldable pub window : String → Limiter → List ℕ
unfolding window_or
window key l = window_or (Dict.get key l.windows)

-- `t > now - window_sec`, with the subtraction moved to the other side.
abbrev pub is_recent : ℕ → ℕ → ℕ → Bool
is_recent window_sec now t = ltb now (t + window_sec)

unfoldable pub prune : String → ℕ → ℕ → Limiter → Limiter
prune key window_sec now l = record l {
  windows = Dict.put key (keep (is_recent window_sec now) (window key l)) l.windows;
}

unfoldable pub memory_check : String → ℕ → ℕ → ℕ → Limiter → Limiter × Bool
unfolding prune
memory_check key limit window_sec now l =
    let l' = prune key window_sec now l in
    if leb limit (length (window key l'))
    then (l', false)
    else (record l' { windows = Dict.put key (window key l' ++ (now ∷ [])) l'.windows }, true)

-- One use of the Redis client: it is not there, its pipeline raises, or INCR gives the count.
pub data Redis : Type 0 where
  no_client broken : Redis
  counted : ℕ → Redis

unfoldable pub redis_check : Redis → String → ℕ → ℕ → ℕ → Limiter → Limiter × Bool
unfolding memory_check
redis_check no_client key limit window_sec now l = memory_check key limit window_sec now l
redis_check broken key limit window_sec now l = memory_check key limit window_sec now l
redis_check (counted n) key limit window_sec now l = (l, leb n limit)

-- `use_redis` is the setting together with the first look at the client; `redis` is what the
-- second look and the pipeline give.
unfoldable pub check : Bool → Redis → String → ℕ → ℕ → ℕ → Limiter → Limiter × Bool
unfolding redis_check
check use_redis redis key limit window_sec now l =
    if leb limit 0
    then (l, true)
    else if use_redis
    then redis_check redis key limit window_sec now l
    else memory_check key limit window_sec now l
