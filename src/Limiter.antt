-- ===== src/Limiter.antt =====
-- src/rate_limiter.rs: the two wrappers of rater's manager. A call that reads the clock takes the
-- reading.
use cncnet_server.Base.{ℕ, ◌*◌, Bool}
use cncnet_server.Net.{IpAddr}
use cncnet_server.Deps.{Rater}

module _ (r : Rater) where
  open r use {
    RateLimiterConfig, limiter_config, IpRateLimiterManager, with_cleanup_settings,
    manager_try_acquire, clear,
  }

  pub record ConnectionRateLimiter : Type 0 where
    pub connection_manager : IpRateLimiterManager

  unfoldable pub connection_limiter_new : ℕ → ConnectionRateLimiter
  connection_limiter_new max_per_ip =
      let config = limiter_config max_per_ip max_per_ip 60000 in
      record { connection_manager = with_cleanup_settings config 60000 300000 }

  unfoldable pub try_acquire : ConnectionRateLimiter → IpAddr → ℕ → Bool × ConnectionRateLimiter
  try_acquire l addr clock =
      let (allowed, manager) = manager_try_acquire l.connection_manager addr clock in
      (allowed, record { connection_manager = manager })

  unfoldable pub get_active_ip_count : ConnectionRateLimiter → ℕ
  get_active_ip_count l = r.active_ips l.connection_manager

  pub record RateLimiter : Type 0 where
    pub manager : IpRateLimiterManager

  unfoldable pub rate_limiter_new : ℕ → ℕ → RateLimiter
  rate_limiter_new window_seconds max_per_ip =
      let config = limiter_config max_per_ip max_per_ip (window_seconds * 1000) in
      record {
        manager = with_cleanup_settings config (window_seconds * 1000) (window_seconds * 5000);
      }

  unfoldable pub check_and_increment : RateLimiter → IpAddr → ℕ → Bool × RateLimiter
  check_and_increment l addr clock =
      let (allowed, after) = manager_try_acquire l.manager addr clock in
      (allowed, record { manager = after })

  unfoldable pub reset : RateLimiter → RateLimiter
  reset l = record { manager = clear l.manager }
