-- ===== src/V2/Relay.antt =====
-- Relaying a packet to the receiver in src/tunnel_v2.rs: the second half of `handle_data_forward`.
use cncnet_server.Base.{
  ℕ, ◌≡◌, refl, ap, ◌≢◌, ◌⊎◌, inl, inr, none, some, List, length, Option-cases, Bool-cases, is_some,
  All,
}
use cncnet_server.Deps.{Deps}
use cncnet_server.Endpoint.{endpoint_in, endpoint_in-touch}
use cncnet_server.Metrics.{LocalMetricsBatch}
use cncnet_server.Net.{SocketAddr, same_addr, same_addr_ne, Io, Datagram}
use cncnet_server.V2.{TunnelV2, Outcome, forward_info, relay_packet}
use cncnet_server.V2.Sender.{SameIds, insert-SameIds}

module _ (d : Deps) where
  open d use {
    Map, get, insert, TunnelClient, remote_ep, update_stats, remote_ep-update_stats,
    validate_address,
  }

  pub forward_info_cases :
      (t : TunnelV2 d) (receiver_id : ℕ) (remote_addr : SocketAddr)
      → (forward_info d t receiver_id remote_addr ≡ none)
        ⊎ ((ep : SocketAddr) × (c : TunnelClient) × (forward_info d t receiver_id remote_addr
              ≡ some (ep, c))
            × (get receiver_id t.mappings ≡ some c)
            × (remote_ep c ≡ some ep)
            × (ep ≢ remote_addr))
  unfolding forward_info
  forward_info_cases t receiver_id remote_addr = elim (Option-cases (get receiver_id t.mappings)) [
    | inl e ↦ inl (rw (e, forward_info) refl)
    | inr (c, e) ↦ elim (Option-cases (remote_ep c)) [
      | inl f ↦ inl (rw (e, f, forward_info) refl)
      | inr (ep, f) ↦ elim (Bool-cases (same_addr ep remote_addr)) [
        | inl same ↦ inl (rw (e, f, same, forward_info) refl)
        | inr other ↦
            inr
              (ep, c, rw (e, f, other, forward_info) refl, e, f, same_addr_ne ep remote_addr other)
      ]
    ]
  ]

  -- What relaying to `receiver_id` does: the endpoints and the ids stay, and what is sent is the
  -- packet, to the receiver's endpoint.
  pub record Relays (t : TunnelV2 d) (receiver_id : ℕ) (packet : List ℕ) (remote_addr : SocketAddr)
      (o : Outcome d) : Type 0 where
    pub endpoints : (j : ℕ) → endpoint_in d o.tunnel.mappings j ≡ endpoint_in d t.mappings j
    pub ids : SameIds d t.mappings o.tunnel.mappings
    pub sends :
        All
          (λ (dg : Datagram).
            (endpoint_in d t.mappings receiver_id ≡ some dg.target)
            × (dg.target ≢ remote_addr)
            × (dg.payload ≡ packet))
          o.sent

  pub relay_packet-Relays :
      (t : TunnelV2 d) (receiver_id : ℕ) (packet : List ℕ) (remote_addr : SocketAddr)
      (batch : LocalMetricsBatch) (io : Io)
      → Relays t receiver_id packet remote_addr
          (relay_packet d t receiver_id packet remote_addr batch io)
  unfolding relay_packet
  relay_packet-Relays t receiver_id packet remote_addr batch io =
      elim (forward_info_cases t receiver_id remote_addr) [
        | inl e ↦
            rw (e, relay_packet)
              (record {
                endpoints = λ j. refl;
                ids = record { same = λ j. refl; as_many = refl };
                sends = tt;
              })
        | inr (ep, c, e, found, has, other) ↦
            rw (e, relay_packet)
              (elim (Bool-cases (io.send_to packet ep)) [
                | inl taken ↦ rw taken (record {
                  endpoints = λ j.
                      endpoint_in-touch d t.mappings receiver_id j c _ found
                        (remote_ep-update_stats c 0 (length packet) io.now);
                  ids = insert-SameIds d t.mappings receiver_id _ (ap is_some found);
                  sends = ((rw (found, endpoint_in) has, other, refl), tt);
                })
                | inr failed ↦ rw failed (record {
                  endpoints = λ j. refl;
                  ids = record { same = λ j. refl; as_many = refl };
                  sends = tt;
                })
              ])
      ]
