-- ===== src/Endpoint.antt =====
-- The endpoints of a tunnel's map of clients, which both tunnels keep.
use cncnet_server.Base.{ℕ, ◌≡◌, ◌∙◌, Option, none, some, ◌==◌, if◌then◌else◌, arith}
use cncnet_server.Deps.{Deps}
use cncnet_server.Net.{SocketAddr}

-- The endpoint that an id is registered to.
abbrev pub endpoint_in : (d : Deps) → d.Map d.TunnelClient → ℕ → Option SocketAddr
endpoint_in d m k = elim (d.get k m) [ none ↦ none | some c ↦ d.remote_ep c ]

module _ (d : Deps) where
  open d use {
    Map, get, insert, TunnelClient, remote_ep, get-insert, new_with_endpoint,
    remote_ep-new_with_endpoint, update_stats, set_last_receive_tick_at, remote_ep-update_stats,
    remote_ep-set_last_receive_tick_at,
  }

  pub endpoint_in-insert :
      (m : Map TunnelClient) (k j : ℕ) (c : TunnelClient)
      → endpoint_in d (insert k c m) j ≡ (if k == j then remote_ep c else endpoint_in d m j)
  endpoint_in-insert m k j c = ground (arith, get-insert k j c m)

  -- Writing a client back with the endpoint that it had changes no endpoint.
  pub endpoint_in-touch :
      (m : Map TunnelClient) (k j : ℕ) (c e : TunnelClient)
      → get k m ≡ some c
      → remote_ep e ≡ remote_ep c
      → endpoint_in d (insert k e m) j ≡ endpoint_in d m j
  endpoint_in-touch m k j c e found same = endpoint_in-insert m k j e ∙ ground arith

  pub remote_ep-touched :
      (c : TunnelClient) (rx tx now : ℕ)
      → remote_ep (update_stats (set_last_receive_tick_at c now) rx tx now) ≡ remote_ep c
  remote_ep-touched c rx tx now = rw (remote_ep-update_stats, remote_ep-set_last_receive_tick_at)
