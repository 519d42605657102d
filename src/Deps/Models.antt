-- ===== src/Deps/Models.antt =====
-- The interfaces can be met: a list with distinct keys is a `DashMap`, and there are simple packages.
mod AssocList
pub use AssocList.{assoc_map}
use cncnet_server.Base.{
  ℕ, suc, ◌+◌, ◌-◌, ◌≡◌, refl, Bool, true, false, Option, none, some, List, [], ltb, if◌then◌else◌,
}
use cncnet_server.Net.{SocketAddr, IpAddr}
use cncnet_server.Deps.Clients.{Relay}
use cncnet_server.Deps.Buckets.{Rater}

-- A client that remembers when it was last heard of, and its timeout in seconds.
pub record Client : Type 0 where
  pub endpoint : Option SocketAddr
  pub last_tick : ℕ
  pub timeout : ℕ

abbrev pub plain_relay : Relay
plain_relay = record {
  TunnelClient = Client;
  client_new = λ timeout clock. record { endpoint = none; last_tick = clock; timeout = timeout };
  new_with_endpoint =
      λ a timeout clock. record { endpoint = some a; last_tick = clock; timeout = timeout };
  remote_ep = λ c. c.endpoint;
  is_timed_out = λ c clock. ltb (c.last_tick + c.timeout) clock;
  set_last_receive_tick_at = λ c now. record c { last_tick = now };
  update_stats = λ c rx tx now. c;
  QualityAnalyzer = ℕ × ℕ;
  analyzer_new = (0, 0);
  record_packet = λ q lost. (q.0 + 1, if lost then q.1 + 1 else q.1);
  validate_address = λ a. true;
  sha1 = λ bytes. bytes;
  remote_ep-client_new = λ timeout clock. refl;
  remote_ep-new_with_endpoint = λ a timeout clock. refl;
  remote_ep-set_last_receive_tick_at = λ c now. refl;
  remote_ep-update_stats = λ c rx tx now. refl;
}

-- One bucket for all addresses, which is never refilled.
abbrev pub plain_rater : Rater
plain_rater = record {
  RateLimiterConfig = ℕ;
  limiter_config = λ most refill interval. most;
  IpRateLimiterManager = ℕ × ℕ;
  with_cleanup_settings = λ config cleanup idle. (config, config);
  manager_try_acquire = λ m addr clock. if ltb 0 m.1 then (true, (m.0, m.1 - 1)) else (false, m);
  active_ips = λ m. 0;
  clear = λ m. (m.0, m.0);
}
