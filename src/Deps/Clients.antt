-- ===== src/Deps/Clients.antt =====
-- `udp_relay_core`, and the digest of `sha1`. A method that reads the clock takes the reading.
-- `TunnelClient` is shared behind an `Arc` and changed through `&self`: such a method returns the
-- client as it is afterwards.
use cncnet_server.Base.{ℕ, ◌≡◌, Bool, Option, none, some, List}
use cncnet_server.Net.{SocketAddr}

pub record Relay : Type 1 where
  pub TunnelClient : Type 0
  -- Timeout in seconds, and the clock.
  pub client_new : ℕ → ℕ → TunnelClient
  -- Endpoint, timeout in seconds, and the clock.
  pub new_with_endpoint : SocketAddr → ℕ → ℕ → TunnelClient
  pub remote_ep : TunnelClient → Option SocketAddr
  pub is_timed_out : TunnelClient → ℕ → Bool
  pub set_last_receive_tick_at : TunnelClient → ℕ → TunnelClient
  -- Bytes received, bytes sent, and the time.
  pub update_stats : TunnelClient → ℕ → ℕ → ℕ → TunnelClient
  pub QualityAnalyzer : Type 0
  pub analyzer_new : QualityAnalyzer
  pub record_packet : QualityAnalyzer → Bool → QualityAnalyzer
  pub validate_address : SocketAddr → Bool
  pub sha1 : List ℕ → List ℕ
  pub remote_ep-client_new : (timeout clock : ℕ) → remote_ep (client_new timeout clock) ≡ none
  pub remote_ep-new_with_endpoint :
      (a : SocketAddr) (timeout clock : ℕ) → remote_ep (new_with_endpoint a timeout clock) ≡ some a
  -- The endpoint is a plain field, so a method on `&self` cannot change it.
  pub remote_ep-set_last_receive_tick_at :
      (c : TunnelClient) (now : ℕ) → remote_ep (set_last_receive_tick_at c now) ≡ remote_ep c
  pub remote_ep-update_stats :
      (c : TunnelClient) (rx tx now : ℕ) → remote_ep (update_stats c rx tx now) ≡ remote_ep c
