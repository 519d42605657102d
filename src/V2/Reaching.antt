-- ===== src/V2/Reaching.antt =====
-- When a packet reaches its receiver through src/tunnel_v2.rs.
use cncnet_server.Base.{
  ℕ, ◌≤◌, ◌≡◌, refl, ◌∙◌, ◌≢◌, inl, inr, true, false, not, ◌&&◌, some, List, [], ◌∷◌, ◌==◌,
  if_cases, ltb, length, arith, Option-cases, is_some,
}
use cncnet_server.Deps.{Deps}
use cncnet_server.Endpoint.{endpoint_in}
use cncnet_server.Metrics.{LocalMetricsBatch, record_v2_rx}
use cncnet_server.Net.{SocketAddr, same_addr_apart, Io}
use cncnet_server.V2.{
  TunnelV2, Outcome, sender_of, receiver_of, validate_packet, check_sender, forward_info,
  relay_packet, handle_data_forward, dispatch_packet, on_udp_receive,
}
use cncnet_server.V2.Sender.{may_speak, check_sender-Settles}

module _ (d : Deps) where
  open d use {get, remote_ep}

  may_speak-known :
      (t : TunnelV2 d) (k : ℕ) (a : SocketAddr) (io : Io)
      → may_speak d t k a io ≡ true
      → is_some (get k t.mappings) ≡ true
  unfolding may_speak
  may_speak-known t k a io speaks = elim (Option-cases (get k t.mappings)) [
    | inl e ↦ absurd (ground (arith, e, speaks))
    | inr (c, e) ↦ rw e refl
  ]

  relay_packet-reaches :
      (t : TunnelV2 d) (r : ℕ) (packet : List ℕ) (a ep : SocketAddr) (batch : LocalMetricsBatch)
      (io : Io)
      → endpoint_in d t.mappings r ≡ some ep
      → ep ≢ a
      → io.send_to packet ep ≡ true
      → (relay_packet d t r packet a batch io).sent ≡ record { payload = packet; target = ep } ∷ []
  unfolding relay_packet forward_info
  relay_packet-reaches t r packet a ep batch io at other taken =
      elim (Option-cases (get r t.mappings)) [
        | inl e ↦ absurd (ground (arith, e, at))
        | inr (c, e) ↦
            let has : remote_ep c ≡ some ep = ground (arith, e, at) in
            rw (e, has, same_addr_apart ep a other, relay_packet, forward_info, taken) refl
      ]

  handle_data_forward-reaches :
      (t : TunnelV2 d) (k r : ℕ) (packet : List ℕ) (a ep : SocketAddr) (batch : LocalMetricsBatch)
      (io : Io)
      → may_speak d t k a io ≡ true
      → k ≢ r
      → endpoint_in d t.mappings r ≡ some ep
      → ep ≢ a
      → io.send_to packet ep ≡ true
      → (handle_data_forward d t k r packet a batch io).sent
        ≡ record { payload = packet; target = ep } ∷ []
  unfolding handle_data_forward
  handle_data_forward-reaches t k r packet a ep batch io speaks differ at other taken =
      elim (Option-cases (get k t.mappings)) [
        | inl e ↦ absurd (ground (arith, may_speak-known t k a io speaks, e))
        | inr (c, e) ↦
            let settled = check_sender-Settles d t k a io c packet e in
            let t' : TunnelV2 d = (check_sender d t k c packet a io).0 in
            let there : endpoint_in d t'.mappings r ≡ some ep =
              settled.endpoints r ∙ ground (arith, differ, at) in
            rw (e, handle_data_forward, settled.goes_on ∙ speaks)
              (relay_packet-reaches t' r packet a ep batch io there other taken)
      ]

  -- A packet of four bytes at least that is of a valid form and no ping (from 0 to 0), outside
  -- maintenance mode, from a sender that may speak under its id, to the id of another client with
  -- another address, which the socket takes: it is sent on, unchanged and once, to the receiver's
  -- address, and nothing else is sent.
  pub on_udp_receive-reaches :
      (t : TunnelV2 d) (packet : List ℕ) (a ep : SocketAddr) (batch : LocalMetricsBatch) (io : Io)
      → let k = sender_of packet in
        let r = receiver_of packet in
        4 ≤ length packet
        → (k == 0 && r == 0) ≡ false
        → validate_packet d k r a ≡ true
        → t.maintenance_mode ≡ false
        → may_speak d t k a io ≡ true
        → k ≢ r
        → endpoint_in d t.mappings r ≡ some ep
        → ep ≢ a
        → io.send_to packet ep ≡ true
        → (on_udp_receive d t packet a batch io).sent
          ≡ record { payload = packet; target = ep } ∷ []
  unfolding on_udp_receive dispatch_packet
  on_udp_receive-reaches t packet a ep batch io long relayed valid opened speaks differ at other
        taken =
      let k = sender_of packet in
      let r = receiver_of packet in
      let Goal : Outcome d → Type 0 = λ o. o.sent ≡ record { payload = packet; target = ep } ∷ [] in
      if_cases Goal (ltb (length packet) 4) _ _ (λ short. absurd (ground (arith, long, short)))
        (λ _.
          if_cases Goal (not (validate_packet d k r a)) _ _
            (λ invalid. absurd (ground (arith, valid, invalid)))
            (λ _.
              if_cases Goal ((k == 0) && (r == 0)) _ _
                (λ ping. absurd (ground (arith, relayed, ping)))
                (λ _.
                  if_cases Goal t.maintenance_mode _ _
                    (λ closed. absurd (ground (arith, opened, closed)))
                    (λ _.
                      handle_data_forward-reaches t k r packet a ep
                        (record_v2_rx batch (length packet)) io speaks differ at other taken))))
