-- ===== src/V2/Refinement.antt =====
-- How the handlers of src/tunnel_v2.rs relate to the steps of `Relay`, the one of the V3 tunnel.
use cncnet_server.Base.{
  ℕ, ◌≡◌, refl, sym, ◌∙◌, ◌≢◌, ◌⊎◌, inl, inr, Bool, true, false, not, ◌&&◌, ◌||◌, Option, none,
  some, List, [], ◌∷◌, ◌==◌, if◌then◌else◌, if_cases, ltb, length, take, arith, Option-cases,
  Bool-cases,
}
use cncnet_server.Deps.{Deps}
use cncnet_server.Endpoint.{endpoint_in}
use cncnet_server.Limiter.{check_and_increment}
use cncnet_server.Metrics.{LocalMetricsBatch, record_v2_rx}
use cncnet_server.Net.{SocketAddr, same_addr_iff, ip, Io, Datagram}
use cncnet_server.Relay.{
  View, Input, incoming, Same-self, Speaks, RelayStep, idle, pong, register, forward,
}
use cncnet_server.V2.{
  TunnelV2, Outcome, sender_of, receiver_of, check_sender, relay_packet, handle_data_forward,
  handle_ping, receive_ping, validate_packet, dispatch_packet, on_udp_receive,
}
use cncnet_server.V2.Relay.{forward_info_cases, relay_packet-Relays}
use cncnet_server.V2.Sender.{may_speak, check_sender-Settles}

-- The ids of a V2 packet.
abbrev pub header : List ℕ → Option (ℕ × ℕ)
header packet = if ltb (length packet) 4 then none else some (sender_of packet, receiver_of packet)

module _ (d : Deps) where
  open d use {get, remote_ep, is_timed_out, TunnelClient}

  abbrev pub view : TunnelV2 d → View
  view t = record { endpoints = endpoint_in d t.mappings; closed = t.maintenance_mode }

  -- The ids whose client has timed out at a reading of the clock in a handler.
  abbrev pub timed_out : TunnelV2 d → Io → ℕ → Bool
  timed_out t io j = elim (get j t.mappings) [
    | none ↦ false
    | some c ↦ is_timed_out c io.clock || is_timed_out c (io.sweep_clock j)
  ]

  abbrev pub Refines : TunnelV2 d → Io → Input → List Datagram → TunnelV2 d → Type 0
  Refines t io i sent t' = RelayStep header (timed_out t io) (view t) i sent (view t')

  may_speak-entitled :
      (t : TunnelV2 d) (k : ℕ) (a : SocketAddr) (io : Io)
      → may_speak d t k a io ≡ true
      → (endpoint_in d t.mappings k ≡ none)
        ⊎ ((endpoint_in d t.mappings k ≡ some a) ⊎ (timed_out t io k ≡ true))
  unfolding may_speak
  may_speak-entitled t k a io speaks = elim (Option-cases (get k t.mappings)) [
    | inl e ↦ inl (rw (e, endpoint_in) refl)
    | inr (c, e) ↦ elim (Option-cases (remote_ep c)) [
      | inl f ↦ inl (rw (e, f, endpoint_in) refl)
      | inr (ep, f) ↦ elim (Bool-cases (is_timed_out c io.clock)) [
        | inl late ↦ inr (inr (ground (arith, e, late)))
        | inr alive ↦ inr (inl (ground (arith, e, f, alive, speaks, same_addr_iff ep a)))
      ]
    ]
  ]

  check_sender-mode :
      (t : TunnelV2 d) (k : ℕ) (c : TunnelClient) (packet : List ℕ) (a : SocketAddr) (io : Io)
      → (check_sender d t k c packet a io).0.maintenance_mode ≡ t.maintenance_mode
  unfolding check_sender
  check_sender-mode t k c packet a io = ground arith

  relay_packet-mode :
      (t : TunnelV2 d) (r : ℕ) (packet : List ℕ) (a : SocketAddr) (batch : LocalMetricsBatch)
      (io : Io)
      → (relay_packet d t r packet a batch io).tunnel.maintenance_mode ≡ t.maintenance_mode
  unfolding relay_packet
  relay_packet-mode t r packet a batch io = ground arith

  -- Relaying sends the packet on, or nothing.
  relay_packet-cases :
      (t : TunnelV2 d) (r : ℕ) (packet : List ℕ) (a : SocketAddr) (batch : LocalMetricsBatch)
      (io : Io)
      → ((relay_packet d t r packet a batch io).sent ≡ [])
        ⊎ ((ep : SocketAddr) × ((relay_packet d t r packet a batch io).sent
              ≡ record { payload = packet; target = ep } ∷ [])
            × (endpoint_in d t.mappings r ≡ some ep)
            × (ep ≢ a))
  unfolding relay_packet
  relay_packet-cases t r packet a batch io = elim (forward_info_cases d t r a) [
    | inl e ↦ inl (rw (e, relay_packet) refl)
    | inr (ep, c, e, found, has, other) ↦ elim (Bool-cases (io.send_to packet ep)) [
      | inl taken ↦ inr (ep, rw (e, relay_packet, taken) refl, rw (found, endpoint_in) has, other)
      | inr failed ↦ inl (rw (e, relay_packet, failed) refl)
    ]
  ]

  module _ (t : TunnelV2 d) (packet : List ℕ) (a : SocketAddr) (io : Io) where
    abbrev Step : Outcome d → Type 0
    Step o = Refines t io (incoming packet a) o.sent o.tunnel

    -- What a sender with a client does to the relay.
    checked-Refines :
        (c : TunnelClient) (k r : ℕ) (batch : LocalMetricsBatch)
        → header packet ≡ some (k, r)
        → t.maintenance_mode ≡ false
        → get k t.mappings ≡ some c
        → let checked = check_sender d t k c packet a io in
          Step (
            if checked.1
            then relay_packet d checked.0 r packet a batch io
            else record { tunnel = checked.0; batch = batch; sent = [] })
    checked-Refines c k r batch parsed opened found =
        let settled = check_sender-Settles d t k a io c packet found in
        let t' : TunnelV2 d = (check_sender d t k c packet a io).0 in
        let same = (relay_packet-Relays d t' r packet a batch io).endpoints in
        if_cases {A = Outcome d} Step (check_sender d t k c packet a io).1 _ _
          (λ valid.
            let o : Outcome d = relay_packet d t' r packet a batch io in
            let allowed : may_speak d t k a io ≡ true = sym settled.goes_on ∙ valid in
            let speaks : Speaks (timed_out t io) (view t) k a (view o.tunnel) = record {
              opened = opened;
              entitled = may_speak-entitled t k a io allowed;
              registered = λ j. same j ∙ settled.endpoints j ∙ ground (arith, allowed);
              still =
                  relay_packet-mode t' r packet a batch io ∙ check_sender-mode t k c packet a io;
            } in
            elim (relay_packet-cases t' r packet a batch io) [
              | inl silent ↦ rw silent (register k r parsed speaks)
              | inr (ep, sent, at, other) ↦
                  rw sent (forward k r ep parsed speaks (same r ∙ at) other)
            ])
          (λ invalid. idle (record {
            endpoints = λ j. settled.endpoints j ∙ ground (arith, settled.goes_on, invalid);
            closed = check_sender-mode t k c packet a io;
          }))

    handle_data_forward-Refines :
        (k r : ℕ) (batch : LocalMetricsBatch)
        → header packet ≡ some (k, r)
        → t.maintenance_mode ≡ false
        → Step (handle_data_forward d t k r packet a batch io)
    unfolding handle_data_forward
    handle_data_forward-Refines k r batch parsed opened = elim (Option-cases (get k t.mappings)) [
      | inl e ↦ rw (e, handle_data_forward) (idle (Same-self (view t)))
      | inr (c, e) ↦ rw (e, handle_data_forward) (checked-Refines c k r batch parsed opened e)
    ]

    receive_ping-Refines :
        (batch : LocalMetricsBatch)
        → header packet ≡ some (0, 0)
        → Step (receive_ping d t packet a batch io)
    unfolding receive_ping handle_ping
    receive_ping-Refines batch parsed =
        let same = Same-self (view t) in
        if_cases Step (length packet == 50) _ _
          (λ _.
            if_cases Step (check_and_increment d.rater t.ping_limiter (ip a) io.clock).0 _ _
              (λ _.
                if_cases Step (io.send_to (take 12 packet) a) _ _ (λ _. pong parsed same)
                  (λ _. idle same))
              (λ _. idle same))
          (λ _. idle same)

  -- Whatever a packet holds, what `on_udp_receive` does and sends is one step of the relay: nothing;
  -- the reply to a ping; or the sender registered, with the packet passed on or not.
  pub on_udp_receive-Refines :
      (t : TunnelV2 d) (packet : List ℕ) (a : SocketAddr) (batch : LocalMetricsBatch) (io : Io)
      → let o = on_udp_receive d t packet a batch io in
        Refines t io (incoming packet a) o.sent o.tunnel
  unfolding on_udp_receive dispatch_packet
  on_udp_receive-Refines t packet a batch io =
      let P : Outcome d → Type 0 = Step t packet a io in
      let same = Same-self (view t) in
      let counted = record_v2_rx batch (length packet) in
      let k = sender_of packet in
      let r = receiver_of packet in
      if_cases P (ltb (length packet) 4) _ _ (λ _. idle same)
        (λ long.
          let parsed : header packet ≡ some (k, r) = rw long refl in
          if_cases P (not (validate_packet d k r a)) _ _ (λ _. idle same)
            (λ _.
              if_cases P ((k == 0) && (r == 0)) _ _
                (λ zeros.
                  receive_ping-Refines t packet a io counted (ground (arith, parsed, zeros)))
                (λ _.
                  if_cases P t.maintenance_mode _ _ (λ _. idle same)
                    (λ opened.
                      handle_data_forward-Refines t packet a io k r counted parsed opened))))
