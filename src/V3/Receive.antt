-- ===== src/V3/Receive.antt =====
-- `execute_command` and `on_receive` of src/tunnel_v3.rs.
use cncnet_server.Base.{
  ℕ, ◌-◌, not, ◌&&◌, none, some, List, [], ltb, leb, ◌==◌, if◌then◌else◌, length, get_or, take,
  drop, slice_eq,
}
use cncnet_server.Base.Words.{u32_max}
use cncnet_server.Net.{SocketAddr, ip, Io}
use cncnet_server.Deps.{Deps}
use cncnet_server.Limiter.{check_and_increment}
use cncnet_server.Metrics.{LocalMetricsBatch, record_v3_rx}
use cncnet_server.V3.{
  TunnelV3, Outcome, parse_packet_header, validate_packet, handle_ping, handle_data_forward,
  command_rate_limit_secs,
}
use cncnet_server.V3.Cleanup.{cleanup_expired_mappings}

module _ (d : Deps) where
  -- The command byte, for a packet with the right digest.
  unfoldable pub run_command : TunnelV3 d → ℕ → Io → TunnelV3 d
  run_command t command io =
      if command == 0
      then record t { maintenance_mode = not t.maintenance_mode }
      else if command == 1
      then cleanup_expired_mappings d t io
      else t

  -- The caller has checked that the packet has 29 bytes, so no index is out of range.
  unfoldable pub execute_command : TunnelV3 d → List ℕ → Io → TunnelV3 d
  execute_command t packet io = elim t.maintenance_password_sha1 [
    | none ↦ t
    | some expected_sha1 ↦
        let t' : TunnelV3 d = record t { last_command_tick = io.elapsed_secs } in
        let password_sha1 = take 20 (drop 9 packet) in
        if ltb (io.elapsed_secs - t.last_command_tick) command_rate_limit_secs
        then t
        else if slice_eq password_sha1 expected_sha1
        then run_command t' (get_or packet 8 0) io
        else t'
  ]

  -- The branch of `on_receive` for a packet from id 0 to id 0.
  unfoldable pub receive_ping :
      TunnelV3 d → List ℕ → SocketAddr → LocalMetricsBatch → Io → Outcome d
  receive_ping t packet remote_addr batch io =
      let (allowed, limiter) =
        check_and_increment d.rater t.ping_limiter (ip remote_addr) io.clock in
      let t' : TunnelV3 d = record t { ping_limiter = limiter } in
      if length packet == 50
      then (if allowed
          then handle_ping d t' packet remote_addr batch io
          else record { tunnel = t'; batch = batch; sent = [] })
      else record { tunnel = t; batch = batch; sent = [] }

  -- `on_receive` behind its parsed header.
  unfoldable pub dispatch_packet :
      TunnelV3 d → ℕ → ℕ → List ℕ → SocketAddr → LocalMetricsBatch → Io → Outcome d
  dispatch_packet t sender_id receiver_id packet remote_addr batch io =
      if (sender_id == 0) && (receiver_id == u32_max) && leb 29 (length packet)
      then record { tunnel = execute_command t packet io; batch = batch; sent = [] }
      else if not (validate_packet d sender_id receiver_id remote_addr)
      then record { tunnel = t; batch = batch; sent = [] }
      else if (sender_id == 0) && (receiver_id == 0)
      then receive_ping t packet remote_addr batch io
      else if t.maintenance_mode
      then record { tunnel = t; batch = batch; sent = [] }
      else handle_data_forward d t sender_id receiver_id packet remote_addr batch io

  unfoldable pub on_receive : TunnelV3 d → List ℕ → SocketAddr → LocalMetricsBatch → Io → Outcome d
  on_receive t packet remote_addr batch io = elim (parse_packet_header packet) [
    | none ↦ record { tunnel = t; batch = batch; sent = [] }
    | some (sender_id, receiver_id) ↦
        dispatch_packet t sender_id receiver_id packet remote_addr
          (record_v3_rx batch (length packet)) io
  ]
