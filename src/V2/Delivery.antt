-- ===== src/V2/Delivery.antt =====
-- What a packet makes src/tunnel_v2.rs send, and what it does to the ids.
use cncnet_server.Base.{
  ℕ, ◌≡◌, refl, sym, ap, ◌∙◌, ◌≢◌, ◌⊎◌, inl, inr, true, false, not, ◌&&◌, Option, some, List, [],
  ◌==◌, ltb, length, arith, Option-cases, if_cases, All, All-map, take, ==_iff,
}
use cncnet_server.Deps.{Deps}
use cncnet_server.Endpoint.{endpoint_in}
use cncnet_server.Limiter.{check_and_increment}
use cncnet_server.Metrics.{LocalMetricsBatch, record_v2_rx}
use cncnet_server.Net.{SocketAddr, ip, Io, Datagram}
use cncnet_server.V2.{
  TunnelV2, Outcome, check_sender, handle_data_forward, handle_ping, receive_ping, validate_packet,
  dispatch_packet, on_udp_receive, sender_of, receiver_of,
}
use cncnet_server.V2.Sender.{SameIds, SameIds-trans, may_speak, registered, check_sender-Settles}
use cncnet_server.V2.Relay.{relay_packet-Relays}

-- The reply to a ping: its first twelve bytes, back to where it came from.
abbrev pub IsPong : List ℕ → SocketAddr → Datagram → Type 0
IsPong packet remote_addr dg =
    (sender_of packet ≡ 0)
    × (receiver_of packet ≡ 0)
    × (length packet ≡ 50)
    × (dg.payload ≡ take 12 packet)
    × (dg.target ≡ remote_addr)

module _ (d : Deps) where
  open d use {Map, get, TunnelClient, validate_address}

  -- A packet passed on, unchanged, from a sender that may speak under its id, to the endpoint of the
  -- receiver's id, which is not the sender's own address; and not in maintenance mode.
  pub record IsForwarded (t : TunnelV2 d) (packet : List ℕ) (remote_addr : SocketAddr) (io : Io)
      (t' : TunnelV2 d) (dg : Datagram) : Type 0 where
    pub valid : validate_address remote_addr ≡ true
    pub opened : t.maintenance_mode ≡ false
    pub speaks : may_speak d t (sender_of packet) remote_addr io ≡ true
    pub sender : endpoint_in d t'.mappings (sender_of packet) ≡ some remote_addr
    pub receiver : endpoint_in d t'.mappings (receiver_of packet) ≡ some dg.target
    pub elsewhere : dg.target ≢ remote_addr
    pub unchanged : dg.payload ≡ packet

  -- What a packet may do: send the reply to a ping or the packet itself, register its sender's id to
  -- its address, and neither allocate an id nor free one.
  pub record Handled (t : TunnelV2 d) (packet : List ℕ) (remote_addr : SocketAddr) (io : Io)
      (o : Outcome d) : Type 0 where
    pub sends :
        All
          (λ dg. IsPong packet remote_addr dg ⊎ IsForwarded t packet remote_addr io o.tunnel dg)
          o.sent
    pub endpoints :
        (j : ℕ)
        → (endpoint_in d o.tunnel.mappings j ≡ endpoint_in d t.mappings j)
          ⊎ ((j ≡ sender_of packet)
              × (may_speak d t j remote_addr io ≡ true)
              × (endpoint_in d o.tunnel.mappings j ≡ some remote_addr))
    pub ids : SameIds d t.mappings o.tunnel.mappings

  module _ (t : TunnelV2 d) (packet : List ℕ) (remote_addr : SocketAddr) (io : Io) where
    -- Nothing sent, and the same map.
    quiet :
        (o : Outcome d)
        → o.sent ≡ []
        → o.tunnel.mappings ≡ t.mappings
        → Handled t packet remote_addr io o
    quiet o none_sent same = record {
      sends = rw none_sent tt;
      endpoints = λ j. inl (ap (λ m. endpoint_in d m j) same);
      ids = rw same (record { same = λ j. refl; as_many = refl });
    }

    ping-Handled :
        (batch : LocalMetricsBatch)
        → sender_of packet ≡ 0
        → receiver_of packet ≡ 0
        → Handled t packet remote_addr io (receive_ping d t packet remote_addr batch io)
    unfolding receive_ping handle_ping
    ping-Handled batch from to =
        if_cases (Handled t packet remote_addr io) (length packet == 50) _ _
          (λ size.
            if_cases (Handled t packet remote_addr io)
              (check_and_increment d.rater t.ping_limiter (ip remote_addr) io.clock).0 _ _
              (λ _.
                if_cases (Handled t packet remote_addr io) (io.send_to (take 12 packet) remote_addr)
                  _ _
                  (λ _. record {
                    sends = (inl (from, to, (==_iff _ _).0 size, refl, refl), tt);
                    endpoints = λ j. inl refl;
                    ids = record { same = λ j. refl; as_many = refl };
                  })
                  (λ _. quiet _ refl refl))
              (λ _. quiet _ refl refl))
          (λ _. quiet _ refl refl)

    -- An endpoint after the sender has been checked.
    moved :
        (endpoint : Option SocketAddr) (j : ℕ)
        → endpoint ≡ registered d t (sender_of packet) remote_addr io j
        → (endpoint ≡ endpoint_in d t.mappings j)
          ⊎ ((j ≡ sender_of packet)
              × (may_speak d t j remote_addr io ≡ true)
              × (endpoint ≡ some remote_addr))
    moved endpoint j e = ground (arith, e)

    registered_self :
        may_speak d t (sender_of packet) remote_addr io ≡ true
        → registered d t (sender_of packet) remote_addr io (sender_of packet) ≡ some remote_addr
    registered_self speaks = ground arith

    forward-Handled :
        (batch : LocalMetricsBatch)
        → validate_address remote_addr ≡ true
        → t.maintenance_mode ≡ false
        → Handled t packet remote_addr io (
            handle_data_forward d t
              (sender_of packet)
              (receiver_of packet)
              packet
              remote_addr
              batch
              io)
    unfolding handle_data_forward
    forward-Handled batch valid opened = elim (Option-cases (get (sender_of packet) t.mappings)) [
      | inl e ↦ rw (e, handle_data_forward) (quiet _ refl refl)
      | inr (c, e) ↦
          let settled = check_sender-Settles d t (sender_of packet) remote_addr io c packet e in
          let t' : TunnelV2 d = (check_sender d t (sender_of packet) c packet remote_addr io).0 in
          let relays = relay_packet-Relays d t' (receiver_of packet) packet remote_addr batch io in
          rw (e, handle_data_forward)
            (if_cases (Handled t packet remote_addr io)
              (check_sender d t (sender_of packet) c packet remote_addr io).1 _ _
              (λ goes_on.
                let speaks = sym settled.goes_on ∙ goes_on in
                record {
                  sends =
                      All-map
                        (λ dg r. inr (record {
                          valid = valid;
                          opened = opened;
                          speaks = speaks;
                          sender =
                              relays.endpoints (sender_of packet)
                              ∙ settled.endpoints (sender_of packet)
                              ∙ registered_self speaks;
                          receiver = relays.endpoints (receiver_of packet) ∙ r.0;
                          elsewhere = r.1;
                          unchanged = r.2;
                        }))
                        _ relays.sends;
                  endpoints = λ j. moved _ j (relays.endpoints j ∙ settled.endpoints j);
                  ids = SameIds-trans d settled.ids relays.ids;
                })
              (λ stops. record {
                sends = tt;
                endpoints = λ j. moved _ j (settled.endpoints j);
                ids = settled.ids;
              }))
    ]

  -- Whatever a packet holds, what the V2 tunnel sends because of it is the reply to a ping, its first
  -- twelve bytes, to where it came from; or the packet itself, unchanged, outside maintenance mode,
  -- from a sender that may speak under its id and is registered to it afterwards, to the endpoint
  -- that the receiver's id is registered to, which is another address. The packet changes the endpoint
  -- of no id but its sender's, that only to its own address and if it may speak under the id, and it
  -- neither allocates an id nor frees one.
  pub on_udp_receive-Handled :
      (t : TunnelV2 d) (packet : List ℕ) (remote_addr : SocketAddr) (batch : LocalMetricsBatch)
      (io : Io)
      → Handled t packet remote_addr io (on_udp_receive d t packet remote_addr batch io)
  unfolding on_udp_receive dispatch_packet validate_packet
  on_udp_receive-Handled t packet remote_addr batch io =
      let P : Outcome d → Type 0 = Handled t packet remote_addr io in
      let quiet_here : (o : Outcome d) → o.sent ≡ [] → o.tunnel.mappings ≡ t.mappings → P o =
        quiet t packet remote_addr io in
      let counted = record_v2_rx batch (length packet) in
      if_cases P (ltb (length packet) 4) _ _ (λ _. quiet_here _ refl refl)
        (λ _.
          if_cases P (not (validate_packet d (sender_of packet) (receiver_of packet) remote_addr)) _
            _ (λ _. quiet_here _ refl refl)
            (λ valid.
              if_cases P ((sender_of packet == 0) && (receiver_of packet == 0)) _ _
                (λ zeros.
                  ping-Handled t packet remote_addr io counted (ground (arith, zeros))
                    (ground (arith, zeros)))
                (λ _.
                  if_cases P t.maintenance_mode _ _ (λ _. quiet_here _ refl refl)
                    (λ opened.
                      forward-Handled t packet remote_addr io counted (ground (arith, valid))
                        opened))))
