-- ===== src/RateLimit/Enforce.antt =====
-- `enforce_rate_limits`: the two checks of a request, the user's before the address's.
use agent_langraph.Prelude.{ℕ, String, ◌≡◌, Bool, true, false, arith, if◌then◌else◌, ◌==◌}
use agent_langraph.RateLimit.Window.{window-memory_check_ne}
use agent_langraph.RateLimit.{Limiter, window, Redis, redis_check, check}

pub record Settings : Type 0 where
  pub enabled : Bool
  pub user_per_min : ℕ
  pub ip_per_min : ℕ
  pub window_sec : ℕ

-- `HTTPException` 429, told apart by the word at the end of its detail.
pub data Verdict : Type 0 where
  accepted too_many_user too_many_ip : Verdict

-- How the Redis side of one check shows itself.
pub record Backend : Type 0 where
  pub use_redis : Bool
  pub redis : Redis

unfoldable pub enforce_rate_limits :
    Settings → Backend → Backend → String → String → ℕ → Limiter → Limiter × Verdict
enforce_rate_limits cfg user_side ip_side user_key ip_key now l =
    if cfg.enabled
    then (let (l₁, user_ok) =
          check user_side.use_redis user_side.redis user_key cfg.user_per_min cfg.window_sec now
            l in
        if user_ok
        then (let (l₂, ip_ok) =
              check ip_side.use_redis ip_side.redis ip_key cfg.ip_per_min cfg.window_sec now l₁ in
            (l₂, if ip_ok then accepted else too_many_ip))
        else (l₁, too_many_user))
    else (l, accepted)

check_others :
    (b : Backend) (key other : String) (limit w now : ℕ) (l : Limiter)
    → (key == other) ≡ false
    → window other (check b.use_redis b.redis key limit w now l).0 ≡ window other l
unfolding check redis_check
check_others b key other limit w now l ne =
    ground (arith, window-memory_check_ne key other limit w now l ne)

-- A request that is refused for its user has spent nothing of its address's budget, and with the
-- limits off nothing is spent at all.
pub enforce_user_first :
    (cfg : Settings) (u i : Backend) (user_key ip_key : String) (now : ℕ) (l : Limiter)
    → (user_key == ip_key) ≡ false
    → (enforce_rate_limits cfg u i user_key ip_key now l).1 ≡ too_many_user
    → (cfg.enabled ≡ true)
      × ((check u.use_redis u.redis user_key cfg.user_per_min cfg.window_sec now l).1 ≡ false)
      × (window ip_key (enforce_rate_limits cfg u i user_key ip_key now l).0 ≡ window ip_key l)
unfolding enforce_rate_limits
enforce_user_first cfg u i user_key ip_key now l ne refused =
    ground (arith, check_others u user_key ip_key cfg.user_per_min cfg.window_sec now l ne)
