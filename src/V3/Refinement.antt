-- ===== src/V3/Refinement.antt =====
-- How the handlers and tasks of src/tunnel_v3.rs relate to the steps of `Relay`.
use cncnet_server.Base.{
  ℕ, ◌-◌, ◌≡◌, refl, sym, ap, ◌∙◌, ◌≢◌, ◌⊎◌, inl, inr, Bool, true, false, not, ◌&&◌, ◌||◌, none,
  some, List, [], ◌∷◌, ◌==◌, if_cases, ltb, leb, length, get_or, take, drop, slice_eq, arith,
  Option-cases, Bool-cases,
}
use cncnet_server.Base.Words.{u32_max}
use cncnet_server.Deps.{Deps}
use cncnet_server.Endpoint.{endpoint_in}
use cncnet_server.Limiter.{check_and_increment}
use cncnet_server.Metrics.{LocalMetricsBatch, record_v3_rx}
use cncnet_server.Net.{SocketAddr, same_addr_iff, ip, Io, Datagram}
use cncnet_server.Relay.{
  View, Input, incoming, Same, Same-self, Speaks, Swept, RelayStep, idle, pong, register, forward,
  toggle, sweep,
}
use cncnet_server.V3.{
  TunnelV3, Outcome, parse_packet_header, check_sender, relay_packet, handle_data_forward,
  handle_ping, validate_packet, command_rate_limit_secs,
}
use cncnet_server.V3.Cleanup.{is_expired, cleanup_expired_mappings}
use cncnet_server.V3.Commands.{check_sender-control, relay_packet-control}
use cncnet_server.V3.Delivery.{relay_packet-endpoint}
use cncnet_server.V3.Lookup.{forward_info_cases}
use cncnet_server.V3.Receive.{
  run_command, execute_command, receive_ping, dispatch_packet, on_receive,
}
use cncnet_server.V3.Sender.{may_speak, check_sender-Settles}

module _ (d : Deps) where
  open d use {get, remote_ep, is_timed_out, get-retain, TunnelClient}

  -- A tunnel as a relay.
  abbrev pub view : TunnelV3 d → View
  view t = record { endpoints = endpoint_in d t.mappings; closed = t.maintenance_mode }

  -- The ids whose client has timed out at a reading of the clock in a handler.
  abbrev pub timed_out : TunnelV3 d → Io → ℕ → Bool
  timed_out t io j = elim (get j t.mappings) [
    | none ↦ false
    | some c ↦ is_timed_out c io.clock || is_expired d io j c
  ]

  -- The step from a tunnel to another, with what is sent.
  abbrev pub Refines : TunnelV3 d → Io → Input → List Datagram → TunnelV3 d → Type 0
  Refines t io i sent t' = RelayStep parse_packet_header (timed_out t io) (view t) i sent (view t')

  may_speak-entitled :
      (t : TunnelV3 d) (k : ℕ) (a : SocketAddr) (io : Io)
      → may_speak d t k a io ≡ true
      → (endpoint_in d t.mappings k ≡ none)
        ⊎ ((endpoint_in d t.mappings k ≡ some a) ⊎ (timed_out t io k ≡ true))
  unfolding may_speak
  may_speak-entitled t k a io speaks = elim (Option-cases (get k t.mappings)) [
    | inl e ↦ inl (rw (e, endpoint_in) refl)
    | inr (c, e) ↦ elim (Option-cases (remote_ep c)) [
      | inl f ↦ inl (rw (e, f, endpoint_in) refl)
      | inr (ep, f) ↦ elim (Bool-cases (is_timed_out c io.clock)) [
        | inl late ↦ inr (inr (ground (arith, e, late)))
        | inr alive ↦ inr (inl (ground (arith, e, f, alive, speaks, same_addr_iff ep a)))
      ]
    ]
  ]

  check_sender-Speaks :
      (t : TunnelV3 d) (k : ℕ) (packet : List ℕ) (a : SocketAddr) (io : Io)
      → t.maintenance_mode ≡ false
      → (check_sender d t k packet a io).1 ≡ true
      → Speaks (timed_out t io) (view t) k a (view (check_sender d t k packet a io).0)
  check_sender-Speaks t k packet a io opened valid =
      let settled = check_sender-Settles d t k a io packet in
      let speaks : may_speak d t k a io ≡ true = sym settled.0 ∙ valid in
      record {
        opened = opened;
        entitled = may_speak-entitled t k a io speaks;
        registered = λ j. settled.1 j ∙ ground (arith, speaks);
        still = ap (λ c. c.0) (check_sender-control d t k packet a io);
      }

  -- A sender that is turned away changes nothing of the relay.
  check_sender-Same :
      (t : TunnelV3 d) (k : ℕ) (packet : List ℕ) (a : SocketAddr) (io : Io)
      → (check_sender d t k packet a io).1 ≡ false
      → Same (view t) (view (check_sender d t k packet a io).0)
  check_sender-Same t k packet a io invalid =
      let settled = check_sender-Settles d t k a io packet in
      record {
        endpoints = λ j. settled.1 j ∙ ground (arith, settled.0, invalid);
        closed = ap (λ c. c.0) (check_sender-control d t k packet a io);
      }

  -- Relaying sends the packet on, or nothing.
  relay_packet-cases :
      (t : TunnelV3 d) (r : ℕ) (packet : List ℕ) (a : SocketAddr) (batch : LocalMetricsBatch)
      (io : Io)
      → ((relay_packet d t r packet a batch io).sent ≡ [])
        ⊎ ((ep : SocketAddr) × ((relay_packet d t r packet a batch io).sent
              ≡ record { payload = packet; target = ep } ∷ [])
            × (endpoint_in d t.mappings r ≡ some ep)
            × (ep ≢ a))
  unfolding relay_packet
  relay_packet-cases t r packet a batch io = elim (forward_info_cases d t r a) [
    | inl e ↦ inl (rw (e, relay_packet) refl)
    | inr (ep, c, e, found, has, other) ↦ elim (Bool-cases (io.send_to packet ep)) [
      | inl taken ↦ inr (ep, rw (e, relay_packet, taken) refl, rw (found, endpoint_in) has, other)
      | inr failed ↦ inl (rw (e, relay_packet, failed) refl)
    ]
  ]

  handle_data_forward-Refines :
      (t : TunnelV3 d) (k r : ℕ) (packet : List ℕ) (a : SocketAddr) (batch : LocalMetricsBatch)
      (io : Io)
      → parse_packet_header packet ≡ some (k, r)
      → t.maintenance_mode ≡ false
      → let o = handle_data_forward d t k r packet a batch io in
        Refines t io (incoming packet a) o.sent o.tunnel
  unfolding handle_data_forward
  handle_data_forward-Refines t k r packet a batch io parsed opened =
      let t' : TunnelV3 d = (check_sender d t k packet a io).0 in
      let o : Outcome d = relay_packet d t' r packet a batch io in
      let same = relay_packet-endpoint d t' a batch io r packet in
      let still : o.tunnel.maintenance_mode ≡ t'.maintenance_mode =
        ap (λ c. c.0) (relay_packet-control d t' r packet a batch io) in
      if_cases {A = Outcome d} (λ o'. Refines t io (incoming packet a) o'.sent o'.tunnel)
        (check_sender d t k packet a io).1 _ _
        (λ valid.
          let s = check_sender-Speaks t k packet a io opened valid in
          let speaks : Speaks (timed_out t io) (view t) k a (view o.tunnel) = record {
            opened = s.opened;
            entitled = s.entitled;
            registered = λ j. same j ∙ s.registered j;
            still = still ∙ s.still;
          } in
          elim (relay_packet-cases t' r packet a batch io) [
            | inl silent ↦ rw silent (register k r parsed speaks)
            | inr (ep, sent, at, other) ↦ rw sent (forward k r ep parsed speaks (same r ∙ at) other)
          ])
        (λ invalid. idle (check_sender-Same t k packet a io invalid))

  receive_ping-Refines :
      (t : TunnelV3 d) (packet : List ℕ) (a : SocketAddr) (batch : LocalMetricsBatch) (io : Io)
      → parse_packet_header packet ≡ some (0, 0)
      → let o = receive_ping d t packet a batch io in
        Refines t io (incoming packet a) o.sent o.tunnel
  unfolding receive_ping handle_ping
  receive_ping-Refines t packet a batch io parsed =
      let P : Outcome d → Type 0 = λ o. Refines t io (incoming packet a) o.sent o.tunnel in
      if_cases P (length packet == 50) _ _
        (λ _.
          if_cases P (check_and_increment d.rater t.ping_limiter (ip a) io.clock).0 _ _
            (λ _.
              if_cases P (io.send_to (take 12 packet) a) _ _ (λ _. pong parsed (Same-self (view t)))
                (λ _. idle (Same-self (view t))))
            (λ _. idle (Same-self (view t))))
        (λ _. idle (Same-self (view t)))

  pub cleanup-Swept :
      (t : TunnelV3 d) (io : Io)
      → Swept (timed_out t io) (view t) (view (cleanup_expired_mappings d t io))
  unfolding cleanup_expired_mappings
  cleanup-Swept t io = record {
    endpoints = λ j.
        let kept = get-retain (λ i e. not (is_expired d io i e)) j t.mappings in
        elim (Option-cases (get j t.mappings)) [
          | inl e ↦ inl (ground (arith, kept, e))
          | inr (c, e) ↦ elim (Bool-cases (is_expired d io j c)) [
            | inl late ↦ inr (ground (arith, e, late), ground (arith, kept, e, late))
            | inr alive ↦ inl (ground (arith, kept, e, alive))
          ]
        ];
    closed = refl;
  }

  execute_command-Refines :
      (t : TunnelV3 d) (packet : List ℕ) (a : SocketAddr) (io : Io)
      → Refines t io (incoming packet a) [] (execute_command d t packet io)
  unfolding execute_command run_command
  execute_command-Refines t packet a io = elim (Option-cases t.maintenance_password_sha1) [
    | inl e ↦ rw (e, execute_command) (idle (Same-self (view t)))
    | inr (sha1, e) ↦
        let P : TunnelV3 d → Type 0 = Refines t io (incoming packet a) [] in
        let t' : TunnelV3 d = record t { last_command_tick = io.elapsed_secs } in
        rw (e, execute_command)
          (if_cases P (ltb (io.elapsed_secs - t.last_command_tick) command_rate_limit_secs) _ _
            (λ _. idle (Same-self (view t)))
            (λ _.
              if_cases P (slice_eq (take 20 (drop 9 packet)) sha1) _ _
                (λ _.
                  if_cases P (get_or packet 8 0 == 0) _ _ (λ _. toggle (λ j. refl) refl)
                    (λ _.
                      if_cases P (get_or packet 8 0 == 1) _ _ (λ _. sweep (cleanup-Swept t' io))
                        (λ _. idle (Same-self (view t)))))
                (λ _. idle (Same-self (view t)))))
  ]

  dispatch_packet-Refines :
      (t : TunnelV3 d) (k r : ℕ) (packet : List ℕ) (a : SocketAddr) (batch : LocalMetricsBatch)
      (io : Io)
      → parse_packet_header packet ≡ some (k, r)
      → let o = dispatch_packet d t k r packet a batch io in
        Refines t io (incoming packet a) o.sent o.tunnel
  unfolding dispatch_packet
  dispatch_packet-Refines t k r packet a batch io parsed =
      let P : Outcome d → Type 0 = λ o. Refines t io (incoming packet a) o.sent o.tunnel in
      let same = Same-self (view t) in
      if_cases P ((k == 0) && (r == u32_max) && leb 29 (length packet)) _ _
        (λ _. execute_command-Refines t packet a io)
        (λ _.
          if_cases P (not (validate_packet d k r a)) _ _ (λ _. idle same)
            (λ _.
              if_cases P ((k == 0) && (r == 0)) _ _
                (λ zeros. receive_ping-Refines t packet a batch io (ground (arith, parsed, zeros)))
                (λ _.
                  if_cases P t.maintenance_mode _ _ (λ _. idle same)
                    (λ opened. handle_data_forward-Refines t k r packet a batch io parsed opened))))

  -- Whatever a packet holds, a command included, what `on_receive` does and sends is one step of the
  -- relay: nothing; the reply to a ping; the sender registered, with the packet passed on or not; the
  -- mode toggled; or addresses of timed-out clients taken away.
  pub on_receive-Refines :
      (t : TunnelV3 d) (packet : List ℕ) (a : SocketAddr) (batch : LocalMetricsBatch) (io : Io)
      → let o = on_receive d t packet a batch io in Refines t io (incoming packet a) o.sent o.tunnel
  unfolding on_receive
  on_receive-Refines t packet a batch io = elim (Option-cases (parse_packet_header packet)) [
    | inl e ↦ rw (e, on_receive) (idle (Same-self (view t)))
    | inr ((k, r), e) ↦
        rw (e, on_receive)
          (dispatch_packet-Refines t k r packet a (record_v3_rx batch (length packet)) io e)
  ]
