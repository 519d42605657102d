-- ===== src/V3/Delivery.antt =====
-- What src/tunnel_v3.rs sends, and to whom.
use cncnet_server.Base.{
  ℕ, ◌≡◌, refl, sym, ◌∙◌, ◌≢◌, ◌⊎◌, inl, inr, true, false, not, ◌&&◌, Option, some, List, ◌==◌,
  if◌then◌else◌, leb, length, arith, Option-cases, Bool-cases, if_cases, All, All-map, take, ==_iff,
}
use cncnet_server.Base.Words.{u32_max}
use cncnet_server.Net.{SocketAddr, ip, Io, Datagram}
use cncnet_server.Deps.{Deps}
use cncnet_server.Limiter.{check_and_increment}
use cncnet_server.Metrics.{LocalMetricsBatch, record_v3_rx}
use cncnet_server.V3.{
  TunnelV3, Outcome, check_sender, relay_packet, handle_data_forward, handle_ping, validate_packet,
  parse_packet_header,
}
use cncnet_server.Endpoint.{endpoint_in, endpoint_in-touch}
use cncnet_server.V3.Lookup.{forward_info_cases}
use cncnet_server.V3.Receive.{receive_ping, dispatch_packet, on_receive}
use cncnet_server.V3.Sender.{may_speak, check_sender-Settles}

-- The reply to a ping: its first twelve bytes, back to where it came from.
abbrev pub IsPong : List ℕ → SocketAddr → Datagram → Type 0
IsPong packet remote_addr dg =
    (parse_packet_header packet ≡ some (0, 0))
    × (length packet ≡ 50)
    × (dg.payload ≡ take 12 packet)
    × (dg.target ≡ remote_addr)

module _ (d : Deps) where
  open d use {TunnelClient, remote_ep-update_stats, validate_address}

  -- A packet passed on, unchanged, from a sender that may speak under its id, to the endpoint of the
  -- receiver's id, which is not the sender's own address; and not in maintenance mode.
  abbrev pub IsForwarded : TunnelV3 d → List ℕ → SocketAddr → Io → TunnelV3 d → Datagram → Type 0
  IsForwarded t packet remote_addr io t' dg =
      (sender_id : ℕ) × (receiver_id : ℕ) × (parse_packet_header packet
        ≡ some (sender_id, receiver_id))
      × (validate_address remote_addr ≡ true)
      × (t.maintenance_mode ≡ false)
      × (may_speak d t sender_id remote_addr io ≡ true)
      × (endpoint_in d t'.mappings sender_id ≡ some remote_addr)
      × (endpoint_in d t'.mappings receiver_id ≡ some dg.target)
      × (dg.target ≢ remote_addr)
      × (dg.payload ≡ packet)

  -- All that a packet may make the tunnel send.
  abbrev pub IsDue : TunnelV3 d → List ℕ → SocketAddr → Io → TunnelV3 d → Datagram → Type 0
  IsDue t packet remote_addr io t' dg =
      IsPong packet remote_addr dg ⊎ IsForwarded t packet remote_addr io t' dg

  module _ (t : TunnelV3 d) (remote_addr : SocketAddr) (batch : LocalMetricsBatch) (io : Io) where
    -- Passing a packet on changes no endpoint.
    pub relay_packet-endpoint :
        (receiver_id : ℕ) (packet : List ℕ) (j : ℕ)
        → endpoint_in d (relay_packet d t receiver_id packet remote_addr batch io).tunnel.mappings j
          ≡ endpoint_in d t.mappings j
    unfolding relay_packet
    relay_packet-endpoint receiver_id packet j =
        elim (forward_info_cases d t receiver_id remote_addr) [
          | inl e ↦ rw (e, relay_packet) refl
          | inr (ep, c, e, found, has, other) ↦
              rw (e, relay_packet)
                (elim (Bool-cases (io.send_to packet ep)) [
                  | inl taken ↦ rw taken (
                      endpoint_in-touch d t.mappings receiver_id j c _ found
                        (remote_ep-update_stats c 0 (length packet) io.now))
                  | inr failed ↦ rw failed refl
                ])
        ]

    abbrev Reaches : ℕ → List ℕ → Datagram → Type 0
    Reaches receiver_id packet dg =
        (endpoint_in d t.mappings receiver_id ≡ some dg.target)
        × (dg.target ≢ remote_addr)
        × (dg.payload ≡ packet)

    relay_packet-sent :
        (receiver_id : ℕ) (packet : List ℕ)
        → All
            (Reaches receiver_id packet)
            (relay_packet d t receiver_id packet remote_addr batch io).sent
    unfolding relay_packet
    relay_packet-sent receiver_id packet = elim (forward_info_cases d t receiver_id remote_addr) [
      | inl e ↦ rw (e, relay_packet) tt
      | inr (ep, c, e, found, has, other) ↦
          rw (e, relay_packet)
            (elim (Bool-cases (io.send_to packet ep)) [
              | inl taken ↦ rw taken ((rw (found, endpoint_in) has, other, refl), tt)
              | inr failed ↦ rw failed tt
            ])
    ]

  module _ (t : TunnelV3 d) (remote_addr : SocketAddr) (batch : LocalMetricsBatch) (io : Io) where
    -- The endpoints of a tunnel in which a sender that may speak is registered to its address.
    abbrev pub registered : ℕ → ℕ → Option SocketAddr
    registered sender_id j =
        if may_speak d t sender_id remote_addr io && sender_id == j
        then some remote_addr
        else endpoint_in d t.mappings j

    -- The endpoints after a packet between two ids.
    pub handle_data_forward-endpoint :
        (sender_id receiver_id : ℕ) (packet : List ℕ) (j : ℕ)
        → endpoint_in d
            (handle_data_forward d t sender_id receiver_id packet remote_addr batch
              io).tunnel.mappings
            j
          ≡ registered sender_id j
    unfolding handle_data_forward
    handle_data_forward-endpoint sender_id receiver_id packet j =
        let settled = check_sender-Settles d t sender_id remote_addr io packet in
        let t' : TunnelV3 d = (check_sender d t sender_id packet remote_addr io).0 in
        if_cases {A = Outcome d} (λ o. endpoint_in d o.tunnel.mappings j ≡ registered sender_id j)
          (check_sender d t sender_id packet remote_addr io).1 _ _
          (λ _. relay_packet-endpoint t' remote_addr batch io receiver_id packet j ∙ settled.1 j)
          (λ _. settled.1 j)

    registered_self :
        (sender_id : ℕ)
        → may_speak d t sender_id remote_addr io ≡ true
        → registered sender_id sender_id ≡ some remote_addr
    registered_self sender_id speaks = ground arith

    handle_data_forward-sent :
        (sender_id receiver_id : ℕ) (packet : List ℕ)
        → parse_packet_header packet ≡ some (sender_id, receiver_id)
        → validate_address remote_addr ≡ true
        → t.maintenance_mode ≡ false
        → let o = handle_data_forward d t sender_id receiver_id packet remote_addr batch io in
          All (IsForwarded t packet remote_addr io o.tunnel) o.sent
    unfolding handle_data_forward
    handle_data_forward-sent sender_id receiver_id packet parsed valid open_mode =
        let settled = check_sender-Settles d t sender_id remote_addr io packet in
        let t' : TunnelV3 d = (check_sender d t sender_id packet remote_addr io).0 in
        let before = relay_packet-endpoint t' remote_addr batch io receiver_id packet in
        if_cases {A = Outcome d} (λ o. All (IsForwarded t packet remote_addr io o.tunnel) o.sent)
          (check_sender d t sender_id packet remote_addr io).1 _ _
          (λ speaks.
            All-map
              (λ dg reached. (
                sender_id,
                receiver_id,
                parsed,
                valid,
                open_mode,
                sym settled.0 ∙ speaks,
                before sender_id
                    ∙ settled.1 sender_id
                    ∙ registered_self sender_id (sym settled.0 ∙ speaks),
                before receiver_id ∙ reached.0,
                reached.1,
                reached.2,
              ))
              _ (relay_packet-sent t' remote_addr batch io receiver_id packet))
          (λ _. tt)

    receive_ping-sent :
        (packet : List ℕ)
        → parse_packet_header packet ≡ some (0, 0)
        → let o = receive_ping d t packet remote_addr batch io in
          All (IsDue t packet remote_addr io o.tunnel) o.sent
    unfolding receive_ping handle_ping
    receive_ping-sent packet parsed =
        if_cases {A = Outcome d} (λ o. All (IsDue t packet remote_addr io o.tunnel) o.sent)
          (length packet == 50) _ _
          (λ size.
            if_cases {A = Outcome d} (λ o. All (IsDue t packet remote_addr io o.tunnel) o.sent)
              (check_and_increment d.rater t.ping_limiter (ip remote_addr) io.clock).0 _ _
              (λ _.
                if_cases {A = Outcome d} (λ o. All (IsDue t packet remote_addr io o.tunnel) o.sent)
                  (io.send_to (take 12 packet) remote_addr) _ _
                  (λ _. (inl (parsed, (==_iff _ _).0 size, refl, refl), tt)) (λ _. tt))
              (λ _. tt))
          (λ _. tt)

    dispatch_packet-sent :
        (sender_id receiver_id : ℕ) (packet : List ℕ)
        → parse_packet_header packet ≡ some (sender_id, receiver_id)
        → let o = dispatch_packet d t sender_id receiver_id packet remote_addr batch io in
          All (IsDue t packet remote_addr io o.tunnel) o.sent
    unfolding dispatch_packet validate_packet
    dispatch_packet-sent sender_id receiver_id packet parsed =
        if_cases {A = Outcome d} (λ o. All (IsDue t packet remote_addr io o.tunnel) o.sent)
          ((sender_id == 0) && (receiver_id == u32_max) && leb 29 (length packet)) _ _ (λ _. tt)
          (λ _.
            if_cases {A = Outcome d} (λ o. All (IsDue t packet remote_addr io o.tunnel) o.sent)
              (not (validate_packet d sender_id receiver_id remote_addr)) _ _ (λ _. tt)
              (λ valid.
                if_cases {A = Outcome d} (λ o. All (IsDue t packet remote_addr io o.tunnel) o.sent)
                  ((sender_id == 0) && (receiver_id == 0)) _ _
                  (λ zeros. receive_ping-sent packet (ground (arith, parsed, zeros)))
                  (λ _.
                    if_cases {A = Outcome d}
                      (λ o. All (IsDue t packet remote_addr io o.tunnel) o.sent) t.maintenance_mode
                      _ _ (λ _. tt)
                      (λ open_mode.
                        All-map (λ dg forwarded. inr forwarded) _
                          (handle_data_forward-sent sender_id receiver_id packet parsed
                            (ground (arith, valid)) open_mode)))))

  -- Whatever a packet holds, what the tunnel sends because of it is the reply to a ping, its first
  -- twelve bytes, to where it came from; or the packet itself, unchanged, outside maintenance mode,
  -- from a sender that may speak under its id and is registered to it afterwards, to the endpoint
  -- that the receiver's id is registered to, which is another address.
  pub on_receive-sent :
      (t : TunnelV3 d) (packet : List ℕ) (remote_addr : SocketAddr) (batch : LocalMetricsBatch)
      (io : Io)
      → let o = on_receive d t packet remote_addr batch io in
        All (IsDue t packet remote_addr io o.tunnel) o.sent
  unfolding on_receive
  on_receive-sent t packet remote_addr batch io = elim (Option-cases (parse_packet_header packet)) [
    | inl e ↦ rw (e, on_receive) tt
    | inr ((sender_id, receiver_id), e) ↦
        rw (e, on_receive)
          (dispatch_packet-sent t remote_addr (record_v3_rx batch (length packet)) io sender_id
            receiver_id packet e)
  ]
