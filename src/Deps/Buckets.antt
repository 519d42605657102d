-- ===== src/Deps/Buckets.antt =====
-- `rater`: a manager that keeps one token bucket for each address. Its calls read the clock.
use cncnet_server.Base.{ℕ, Bool}
use cncnet_server.Net.{IpAddr}

pub record Rater : Type 1 where
  pub RateLimiterConfig : Type 0
  -- Most tokens, tokens added in each interval, and the interval in milliseconds.
  pub limiter_config : ℕ → ℕ → ℕ → RateLimiterConfig
  pub IpRateLimiterManager : Type 0
  -- Cleanup interval and idle time, in milliseconds.
  pub with_cleanup_settings : RateLimiterConfig → ℕ → ℕ → IpRateLimiterManager
  pub manager_try_acquire : IpRateLimiterManager → IpAddr → ℕ → Bool × IpRateLimiterManager
  pub active_ips : IpRateLimiterManager → ℕ
  pub clear : IpRateLimiterManager → IpRateLimiterManager
