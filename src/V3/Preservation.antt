-- ===== src/V3/Preservation.antt =====
-- The registry of the tunnel under the handlers and loops of src/tunnel_v3.rs.
use cncnet_server.Base.{
  ℕ, Bool, true, false, not, ◌&&◌, List, ◌==◌, ltb, leb, if◌then◌else◌, length, get_or, take, drop,
  slice_eq, Option-cases, inl, inr, ◌-◌, ◌%◌, ◌+◌,
}
use cncnet_server.Base.Words.{u32_max}
use cncnet_server.Net.{SocketAddr, ip, Io}
use cncnet_server.Deps.{Deps}
use cncnet_server.Limiter.{check_and_increment}
use cncnet_server.Metrics.{LocalMetricsBatch, record_v3_rx}
use cncnet_server.V3.{
  TunnelV3, Outcome, check_sender, handle_data_forward, handle_ping, parse_packet_header,
  validate_packet, max_packet_size, command_rate_limit_secs,
}
use cncnet_server.V3.Cleanup.{is_expired, cleanup_expired_mappings}
use cncnet_server.V3.Heartbeat.{heartbeat_tick}
use cncnet_server.V3.Invariant.{Inv, check_sender-Inv, relay_packet-Inv}
use cncnet_server.V3.Receive.{
  run_command, execute_command, receive_ping, dispatch_packet, on_receive,
}
use cncnet_server.V3.Registry.{sweep-Registry}
use cncnet_server.V3.Worker.{Received, datagram, failure, Worker, receive_round}

module _ (d : Deps) where
  -- An `if` whose branches both keep the invariant.
  if-Inv :
      {A : Type 0} (f : A → TunnelV3 d) (b : Bool) (x y : A)
      → Inv d (f x)
      → Inv d (f y)
      → Inv d (f (if b then x else y))
  if-Inv f true x y v w = v
  if-Inv f false x y v w = w

  pub cleanup-Inv : (t : TunnelV3 d) (io : Io) → Inv d t → Inv d (cleanup_expired_mappings d t io)
  unfolding cleanup_expired_mappings
  cleanup-Inv t io v = sweep-Registry d (is_expired d io) v

  execute_command-Inv :
      (t : TunnelV3 d) (packet : List ℕ) (io : Io) → Inv d t → Inv d (execute_command d t packet io)
  unfolding execute_command run_command
  execute_command-Inv t packet io v = elim (Option-cases t.maintenance_password_sha1) [
    | inl e ↦ rw (e, execute_command) v
    | inr (sha1, e) ↦
        rw (e, execute_command)
          (if-Inv (λ x. x) (ltb (io.elapsed_secs - t.last_command_tick) command_rate_limit_secs) _ _
            v
            (if-Inv (λ x. x) (slice_eq (take 20 (drop 9 packet)) sha1) _ _
              (if-Inv (λ x. x) (get_or packet 8 0 == 0) _ _ v
                (if-Inv (λ x. x) (get_or packet 8 0 == 1) _ _ (cleanup-Inv _ io v) v))
              v))
  ]

  module _ (t : TunnelV3 d) (remote_addr : SocketAddr) (batch : LocalMetricsBatch) (io : Io) where
    handle_ping-Inv :
        (packet : List ℕ) → Inv d t → Inv d (handle_ping d t packet remote_addr batch io).tunnel
    unfolding handle_ping
    handle_ping-Inv packet v =
        if-Inv {A = Outcome d} (λ o. o.tunnel) (io.send_to (take 12 packet) remote_addr) _ _ v v

    handle_data_forward-Inv :
        (sender_id receiver_id : ℕ) (packet : List ℕ)
        → Inv d t
        → Inv d (handle_data_forward d t sender_id receiver_id packet remote_addr batch io).tunnel
    unfolding handle_data_forward
    handle_data_forward-Inv sender_id receiver_id packet v =
        let w = check_sender-Inv d t sender_id remote_addr io packet v in
        if-Inv {A = Outcome d} (λ o. o.tunnel) (check_sender d t sender_id packet remote_addr io).1
          _ _ (relay_packet-Inv d _ receiver_id remote_addr io packet batch w) w

    receive_ping-Inv :
        (packet : List ℕ) → Inv d t → Inv d (receive_ping d t packet remote_addr batch io).tunnel
    unfolding receive_ping handle_ping
    receive_ping-Inv packet v =
        if-Inv {A = Outcome d} (λ o. o.tunnel) (length packet == 50) _ _
          (if-Inv {A = Outcome d} (λ o. o.tunnel)
            (check_and_increment d.rater t.ping_limiter (ip remote_addr) io.clock).0 _ _
            (if-Inv {A = Outcome d} (λ o. o.tunnel) (io.send_to (take 12 packet) remote_addr) _ _ v
              v)
            v)
          v

    dispatch_packet-Inv :
        (sender_id receiver_id : ℕ) (packet : List ℕ)
        → Inv d t
        → Inv d (dispatch_packet d t sender_id receiver_id packet remote_addr batch io).tunnel
    unfolding dispatch_packet
    dispatch_packet-Inv sender_id receiver_id packet v =
        if-Inv {A = Outcome d} (λ o. o.tunnel)
          ((sender_id == 0) && (receiver_id == u32_max) && leb 29 (length packet)) _ _
          (execute_command-Inv t packet io v)
          (if-Inv {A = Outcome d} (λ o. o.tunnel)
            (not (validate_packet d sender_id receiver_id remote_addr)) _ _ v
            (if-Inv {A = Outcome d} (λ o. o.tunnel) ((sender_id == 0) && (receiver_id == 0)) _ _
              (receive_ping-Inv packet v)
              (if-Inv {A = Outcome d} (λ o. o.tunnel) t.maintenance_mode _ _ v
                (handle_data_forward-Inv sender_id receiver_id packet v))))

  -- A packet, whatever its bytes, keeps the map of clients within `max_clients`, every client with an
  -- endpoint, and an analyzer for exactly the ids that have a client.
  pub on_receive-Inv :
      (t : TunnelV3 d) (packet : List ℕ) (remote_addr : SocketAddr) (batch : LocalMetricsBatch)
      (io : Io)
      → Inv d t
      → Inv d (on_receive d t packet remote_addr batch io).tunnel
  unfolding on_receive
  on_receive-Inv t packet remote_addr batch io v =
      elim (Option-cases (parse_packet_header packet)) [
        | inl e ↦ rw (e, on_receive) v
        | inr ((sender_id, receiver_id), e) ↦
            rw (e, on_receive)
              (dispatch_packet-Inv t remote_addr (record_v3_rx batch (length packet)) io sender_id
                receiver_id packet v)
      ]

  pub receive_round-Inv :
      (w : Worker d) (e : Received × Io) → Inv d w.tunnel → Inv d (receive_round d w e).tunnel
  unfolding receive_round
  receive_round-Inv w (datagram packet addr, io) v =
      if-Inv {A = Worker d} (λ o. o.tunnel)
        (leb 8 (length packet) && leb (length packet) max_packet_size) _ _
        (on_receive-Inv w.tunnel packet addr w.batch io v) v
  receive_round-Inv w (failure, io) v = v

  -- So does a tick of the heartbeat.
  pub heartbeat_tick-Inv :
      (counter : ℕ) (t : TunnelV3 d) (io : Io)
      → Inv d t
      → Inv d (heartbeat_tick d counter t io).tunnel
  unfolding heartbeat_tick
  heartbeat_tick-Inv counter t io v =
      if-Inv (λ x. x) ((((counter + 1) % 256) % 3) == 0) _ _ (cleanup-Inv t io v) v
