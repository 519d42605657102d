-- ===== src/V3/Ownership.antt =====
-- Who owns an id of the V3 tunnel, and for how long.
use cncnet_server.Base.{
  ℕ, ◌-◌, ◌≡◌, refl, ◌∙◌, inl, inr, false, not, ◌&&◌, some, List, ◌==◌, ltb, leb, length, arith,
  Option-cases, if_cases, take, drop, get_or, slice_eq,
}
use cncnet_server.Base.Words.{u32_max}
use cncnet_server.Net.{SocketAddr, same_addr_iff, ip, Io}
use cncnet_server.Deps.{Deps}
use cncnet_server.Limiter.{check_and_increment}
use cncnet_server.Metrics.{LocalMetricsBatch, record_v3_rx}
use cncnet_server.V3.{
  TunnelV3, Outcome, handle_ping, validate_packet, parse_packet_header, command_rate_limit_secs,
}
use cncnet_server.V3.Cleanup.{cleanup_expired_mappings, is_expired}
use cncnet_server.Endpoint.{endpoint_in}
use cncnet_server.V3.Receive.{
  run_command, receive_ping, dispatch_packet, on_receive, execute_command,
}
use cncnet_server.V3.Sender.{may_speak}
use cncnet_server.V3.Delivery.{registered, handle_data_forward-endpoint}

module _ (d : Deps) where
  open d use {get, TunnelClient, remote_ep, is_timed_out, get-retain}

  -- The client of an id, heard of recently enough at every reading of the clock in a handler.
  pub record IsAlive (t : TunnelV3 d) (io : Io) (k : ℕ) (c : TunnelClient) : Type 0 where
    pub found : get k t.mappings ≡ some c
    pub in_time : is_timed_out c io.clock ≡ false
    pub in_sweep : is_timed_out c (io.sweep_clock k) ≡ false

  pub cleanup-keeps :
      (t : TunnelV3 d) (io : Io) (k : ℕ) (c : TunnelClient)
      → IsAlive t io k c
      → endpoint_in d (cleanup_expired_mappings d t io).mappings k ≡ endpoint_in d t.mappings k
  unfolding cleanup_expired_mappings
  cleanup-keeps t io k c alive = ground (
    arith,
    alive.found,
    alive.in_sweep,
    get-retain (λ i e. not (is_expired d io i e)) k t.mappings,
  )

  module _ (t : TunnelV3 d) (io : Io) (k : ℕ) (c : TunnelClient) (alive : IsAlive t io k c) where
    -- The id's endpoint, unchanged.
    abbrev Keeps : TunnelV3 d → Type 0
    Keeps t' = endpoint_in d t'.mappings k ≡ endpoint_in d t.mappings k

    registered-keeps :
        (sender_id : ℕ) (remote_addr : SocketAddr) (batch : LocalMetricsBatch)
        → registered d t remote_addr batch io sender_id k ≡ endpoint_in d t.mappings k
    unfolding may_speak
    registered-keeps sender_id remote_addr batch = elim (Option-cases (remote_ep c)) [
      | inl e ↦ ground (arith, alive.found, alive.in_time)
      | inr (ep, e) ↦ ground (arith, alive.found, alive.in_time, same_addr_iff ep remote_addr)
    ]

    execute_command-Keeps : (packet : List ℕ) → Keeps (execute_command d t packet io)
    unfolding execute_command run_command
    execute_command-Keeps packet = elim (Option-cases t.maintenance_password_sha1) [
      | inl e ↦ rw (e, execute_command) refl
      | inr (sha1, e) ↦
          let t' : TunnelV3 d = record t { last_command_tick = io.elapsed_secs } in
          let alive' : IsAlive t' io k c = record {
            found = alive.found;
            in_time = alive.in_time;
            in_sweep = alive.in_sweep;
          } in
          rw (e, execute_command)
            (if_cases Keeps (ltb (io.elapsed_secs - t.last_command_tick) command_rate_limit_secs) _
              _ (λ _. refl)
              (λ _.
                if_cases Keeps (slice_eq (take 20 (drop 9 packet)) sha1) _ _
                  (λ _.
                    if_cases Keeps (get_or packet 8 0 == 0) _ _ (λ _. refl)
                      (λ _.
                        if_cases Keeps (get_or packet 8 0 == 1) _ _
                          (λ _. cleanup-keeps t' io k c alive') (λ _. refl)))
                  (λ _. refl)))
    ]

    receive_ping-Keeps :
        (packet : List ℕ) (remote_addr : SocketAddr) (batch : LocalMetricsBatch)
        → Keeps (receive_ping d t packet remote_addr batch io).tunnel
    unfolding receive_ping handle_ping
    receive_ping-Keeps packet remote_addr batch =
        if_cases {A = Outcome d} (λ o. Keeps o.tunnel) (length packet == 50) _ _
          (λ _.
            if_cases {A = Outcome d} (λ o. Keeps o.tunnel)
              (check_and_increment d.rater t.ping_limiter (ip remote_addr) io.clock).0 _ _
              (λ _.
                if_cases {A = Outcome d} (λ o. Keeps o.tunnel)
                  (io.send_to (take 12 packet) remote_addr) _ _ (λ _. refl) (λ _. refl))
              (λ _. refl))
          (λ _. refl)

    dispatch_packet-Keeps :
        (sender_id receiver_id : ℕ) (packet : List ℕ) (remote_addr : SocketAddr)
        (batch : LocalMetricsBatch)
        → Keeps (dispatch_packet d t sender_id receiver_id packet remote_addr batch io).tunnel
    unfolding dispatch_packet
    dispatch_packet-Keeps sender_id receiver_id packet remote_addr batch =
        if_cases {A = Outcome d} (λ o. Keeps o.tunnel)
          ((sender_id == 0) && (receiver_id == u32_max) && leb 29 (length packet)) _ _
          (λ _. execute_command-Keeps packet)
          (λ _.
            if_cases {A = Outcome d} (λ o. Keeps o.tunnel)
              (not (validate_packet d sender_id receiver_id remote_addr)) _ _ (λ _. refl)
              (λ _.
                if_cases {A = Outcome d} (λ o. Keeps o.tunnel)
                  ((sender_id == 0) && (receiver_id == 0)) _ _
                  (λ _. receive_ping-Keeps packet remote_addr batch)
                  (λ _.
                    if_cases {A = Outcome d} (λ o. Keeps o.tunnel) t.maintenance_mode _ _
                      (λ _. refl)
                      (λ _.
                        handle_data_forward-endpoint d t remote_addr batch io sender_id receiver_id
                          packet k
                        ∙ registered-keeps sender_id remote_addr batch))))

  -- No packet, from whatever address and whatever it holds, a command included, moves an id whose
  -- client has not timed out to another endpoint, or takes it away.
  pub on_receive-keeps :
      (t : TunnelV3 d) (packet : List ℕ) (remote_addr : SocketAddr) (batch : LocalMetricsBatch)
      (io : Io) (k : ℕ) (c : TunnelClient)
      → IsAlive t io k c
      → endpoint_in d (on_receive d t packet remote_addr batch io).tunnel.mappings k
        ≡ endpoint_in d t.mappings k
  unfolding on_receive
  on_receive-keeps t packet remote_addr batch io k c alive =
      elim (Option-cases (parse_packet_header packet)) [
        | inl e ↦ rw (e, on_receive) refl
        | inr ((sender_id, receiver_id), e) ↦
            rw (e, on_receive)
              (dispatch_packet-Keeps t io k c alive sender_id receiver_id packet remote_addr
                (record_v3_rx batch (length packet)))
      ]
