-- ===== src/V3/Reaching.antt =====
-- When a packet reaches its receiver through src/tunnel_v3.rs.
use cncnet_server.Base.{
  ℕ, ◌≡◌, refl, ◌∙◌, ◌≢◌, inl, inr, true, false, not, ◌&&◌, ◌||◌, some, List, [], ◌∷◌, ◌==◌,
  if_cases, leb, length, arith, Option-cases,
}
use cncnet_server.Base.Words.{u32_max}
use cncnet_server.Deps.{Deps}
use cncnet_server.Endpoint.{endpoint_in}
use cncnet_server.Metrics.{LocalMetricsBatch, record_v3_rx}
use cncnet_server.Net.{SocketAddr, same_addr_apart, Io}
use cncnet_server.V3.{
  TunnelV3, Outcome, parse_packet_header, validate_packet, check_sender, forward_info, relay_packet,
  handle_data_forward,
}
use cncnet_server.V3.Receive.{dispatch_packet, on_receive}
use cncnet_server.V3.Sender.{may_speak, check_sender-Settles}

module _ (d : Deps) where
  open d use {get, remote_ep}

  relay_packet-reaches :
      (t : TunnelV3 d) (r : ℕ) (packet : List ℕ) (a ep : SocketAddr) (batch : LocalMetricsBatch)
      (io : Io)
      → endpoint_in d t.mappings r ≡ some ep
      → ep ≢ a
      → io.send_to packet ep ≡ true
      → (relay_packet d t r packet a batch io).sent ≡ record { payload = packet; target = ep } ∷ []
  unfolding relay_packet forward_info
  relay_packet-reaches t r packet a ep batch io at other taken =
      elim (Option-cases (get r t.mappings)) [
        | inl e ↦ absurd (ground (arith, e, at))
        | inr (c, e) ↦
            let has : remote_ep c ≡ some ep = ground (arith, e, at) in
            rw (e, has, same_addr_apart ep a other, relay_packet, forward_info, taken) refl
      ]

  handle_data_forward-reaches :
      (t : TunnelV3 d) (k r : ℕ) (packet : List ℕ) (a ep : SocketAddr) (batch : LocalMetricsBatch)
      (io : Io)
      → may_speak d t k a io ≡ true
      → k ≢ r
      → endpoint_in d t.mappings r ≡ some ep
      → ep ≢ a
      → io.send_to packet ep ≡ true
      → (handle_data_forward d t k r packet a batch io).sent
        ≡ record { payload = packet; target = ep } ∷ []
  unfolding handle_data_forward
  handle_data_forward-reaches t k r packet a ep batch io speaks differ at other taken =
      let settled = check_sender-Settles d t k a io packet in
      let t' : TunnelV3 d = (check_sender d t k packet a io).0 in
      let there : endpoint_in d t'.mappings r ≡ some ep =
        settled.1 r ∙ ground (arith, differ, at) in
      rw (settled.0 ∙ speaks) (relay_packet-reaches t' r packet a ep batch io there other taken)

  -- A packet of a valid form that is no ping and has not the ids of a command (from 0 to 0 or 2³² - 1),
  -- outside maintenance mode, from a sender that may speak under its id, to the id of another client
  -- with another address, which the socket takes: it is sent on, unchanged and once, to the receiver's
  -- address, and nothing else is sent.
  pub on_receive-reaches :
      (t : TunnelV3 d) (k r : ℕ) (packet : List ℕ) (a ep : SocketAddr) (batch : LocalMetricsBatch)
      (io : Io)
      → parse_packet_header packet ≡ some (k, r)
      → (k == 0 && (r == u32_max || r == 0)) ≡ false
      → validate_packet d k r a ≡ true
      → t.maintenance_mode ≡ false
      → may_speak d t k a io ≡ true
      → k ≢ r
      → endpoint_in d t.mappings r ≡ some ep
      → ep ≢ a
      → io.send_to packet ep ≡ true
      → (on_receive d t packet a batch io).sent ≡ record { payload = packet; target = ep } ∷ []
  unfolding on_receive dispatch_packet
  on_receive-reaches t k r packet a ep batch io parsed relayed valid opened speaks differ at other
        taken =
      let Goal : Outcome d → Type 0 = λ o. o.sent ≡ record { payload = packet; target = ep } ∷ [] in
      rw (parsed, on_receive)
        (if_cases Goal ((k == 0) && (r == u32_max) && leb 29 (length packet)) _ _
          (λ command. absurd (ground (arith, relayed, command)))
          (λ _.
            if_cases Goal (not (validate_packet d k r a)) _ _
              (λ invalid. absurd (ground (arith, valid, invalid)))
              (λ _.
                if_cases Goal ((k == 0) && (r == 0)) _ _
                  (λ ping. absurd (ground (arith, relayed, ping)))
                  (λ _.
                    if_cases Goal t.maintenance_mode _ _
                      (λ closed. absurd (ground (arith, opened, closed)))
                      (λ _.
                        handle_data_forward-reaches t k r packet a ep
                          (record_v3_rx batch (length packet)) io speaks differ at other taken)))))
