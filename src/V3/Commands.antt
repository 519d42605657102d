-- ===== src/V3/Commands.antt =====
-- Who can change what by a command packet: `execute_command` of src/tunnel_v3.rs.
use cncnet_server.Base.{
  ℕ, ◌+◌, ◌≤◌, ◌<◌, ◌≡◌, ◌∙◌, inl, inr, Bool, true, false, not, ◌&&◌, Option, none, some, List,
  ◌==◌, if◌then◌else◌, leb, length, arith, Option-cases, is_some, if_cases, take, drop, get_or,
  slice_eq,
}
use cncnet_server.Base.Words.{u32_max}
use cncnet_server.Net.{SocketAddr, Io}
use cncnet_server.Deps.{Deps}
use cncnet_server.Metrics.{LocalMetricsBatch}
use cncnet_server.V3.{
  TunnelV3, Outcome, refresh_sender, reconnect_sender, connect_sender, known_sender, check_sender,
  relay_packet, handle_data_forward, handle_ping, parse_packet_header, validate_packet,
}
use cncnet_server.V3.Cleanup.{cleanup_expired_mappings}
use cncnet_server.V3.Receive.{
  run_command, execute_command, receive_ping, dispatch_packet, on_receive,
}

module _ (d : Deps) where
  -- The part of the tunnel that only commands change.
  abbrev pub control : TunnelV3 d → Bool × ℕ × Option (List ℕ)
  control t = (t.maintenance_mode, t.last_command_tick, t.maintenance_password_sha1)

  -- From id 0 to id 2³² - 1, and at least 29 bytes long.
  unfoldable pub is_command : List ℕ → Bool
  is_command packet = elim (parse_packet_header packet) [
    | none ↦ false
    | some (sender_id, receiver_id) ↦
        (sender_id == 0) && (receiver_id == u32_max) && leb 29 (length packet)
  ]

  -- A command packet counts if a password is configured and a minute has passed since the last one.
  unfoldable pub counts : TunnelV3 d → List ℕ → Io → Bool
  counts t packet io =
      is_command packet
      && is_some t.maintenance_password_sha1
      && leb (t.last_command_tick + 60) io.elapsed_secs

  -- It is carried out if its bytes 9 to 28 are the password's digest.
  pub is_authorised : TunnelV3 d → List ℕ → Io → Bool
  is_authorised t packet io = counts t packet io && elim t.maintenance_password_sha1 [
    | none ↦ false
    | some sha1 ↦ slice_eq (take 20 (drop 9 packet)) sha1
  ]

  -- The control after a packet, said without the code.
  pub control_after : TunnelV3 d → List ℕ → Io → Bool × ℕ × Option (List ℕ)
  unfolding counts is_authorised
  control_after t packet io = (
    if is_authorised t packet io && get_or packet 8 0 == 0
        then not t.maintenance_mode
        else t.maintenance_mode,
    if counts t packet io then io.elapsed_secs else t.last_command_tick,
    t.maintenance_password_sha1,
  )

  pub check_sender-control :
      (t : TunnelV3 d) (sender_id : ℕ) (packet : List ℕ) (remote_addr : SocketAddr) (io : Io)
      → control (check_sender d t sender_id packet remote_addr io).0 ≡ control t
  unfolding check_sender known_sender refresh_sender reconnect_sender connect_sender
  check_sender-control t sender_id packet remote_addr io = ground arith

  pub relay_packet-control :
      (t : TunnelV3 d) (receiver_id : ℕ) (packet : List ℕ) (remote_addr : SocketAddr)
      (batch : LocalMetricsBatch) (io : Io)
      → control (relay_packet d t receiver_id packet remote_addr batch io).tunnel ≡ control t
  unfolding relay_packet
  relay_packet-control t receiver_id packet remote_addr batch io = ground arith

  pub handle_data_forward-control :
      (t : TunnelV3 d) (sender_id receiver_id : ℕ) (packet : List ℕ) (remote_addr : SocketAddr)
      (batch : LocalMetricsBatch) (io : Io)
      → control (handle_data_forward d t sender_id receiver_id packet remote_addr batch io).tunnel
        ≡ control t
  unfolding handle_data_forward
  handle_data_forward-control t sender_id receiver_id packet remote_addr batch io =
      let checked = check_sender d t sender_id packet remote_addr io in
      let same = check_sender-control t sender_id packet remote_addr io in
      if_cases {A = Outcome d} (λ o. control o.tunnel ≡ control t) checked.1 _ _
        (λ _. relay_packet-control checked.0 receiver_id packet remote_addr batch io ∙ same)
        (λ _. same)

  pub receive_ping-control :
      (t : TunnelV3 d) (packet : List ℕ) (remote_addr : SocketAddr) (batch : LocalMetricsBatch)
      (io : Io)
      → control (receive_ping d t packet remote_addr batch io).tunnel ≡ control t
  unfolding receive_ping handle_ping
  receive_ping-control t packet remote_addr batch io = ground arith

  execute_command-control :
      (t : TunnelV3 d) (packet : List ℕ) (io : Io)
      → is_command packet ≡ true
      → control (execute_command d t packet io) ≡ control_after t packet io
  unfolding execute_command run_command cleanup_expired_mappings control_after
  execute_command-control t packet io is = ground arith

  other-control :
      (t : TunnelV3 d) (packet : List ℕ) (io : Io)
      → is_command packet ≡ false
      → control t ≡ control_after t packet io
  unfolding control_after
  other-control t packet io other = ground arith

  -- A packet toggles maintenance mode exactly if it is an authorised command with command byte 0;
  -- it moves `last_command_tick`, to the present second, exactly if it is a command packet that
  -- counts, whatever its password; and it never changes the password's digest.
  pub on_receive-control :
      (t : TunnelV3 d) (packet : List ℕ) (remote_addr : SocketAddr) (batch : LocalMetricsBatch)
      (io : Io)
      → control (on_receive d t packet remote_addr batch io).tunnel ≡ control_after t packet io
  unfolding on_receive dispatch_packet is_command
  on_receive-control t packet remote_addr batch io =
      elim (Option-cases (parse_packet_header packet)) [
        | inl e ↦ rw (e, on_receive) (other-control t packet io (rw (e, is_command)))
        | inr ((sender_id, receiver_id), e) ↦
            let Control : Outcome d → Type 0 = λ o. control o.tunnel ≡ control_after t packet io in
            rw (e, on_receive)
              (if_cases Control
                ((sender_id == 0) && (receiver_id == u32_max) && leb 29 (length packet)) _ _
                (λ is. execute_command-control t packet io (rw (e, is_command) is))
                (λ other.
                  let same = other-control t packet io (rw (e, is_command) other) in
                  if_cases Control (not (validate_packet d sender_id receiver_id remote_addr)) _ _
                    (λ _. same)
                    (λ _.
                      if_cases Control ((sender_id == 0) && (receiver_id == 0)) _ _
                        (λ _. receive_ping-control t packet remote_addr _ io ∙ same)
                        (λ _.
                          if_cases Control t.maintenance_mode _ _ (λ _. same)
                            (λ _.
                              handle_data_forward-control t sender_id receiver_id packet remote_addr
                                _ io
                              ∙ same)))))
      ]

  -- Before a minute has passed, no packet counts.
  pub too_soon :
      (t : TunnelV3 d) (packet : List ℕ) (io : Io)
      → io.elapsed_secs < t.last_command_tick + 60
      → control_after t packet io ≡ control t
  unfolding control_after is_authorised counts
  too_soon t packet io soon = ground arith

  pub counts-tick :
      (t : TunnelV3 d) (packet : List ℕ) (io : Io)
      → counts t packet io ≡ true
      → (control_after t packet io).1 ≡ io.elapsed_secs
  unfolding control_after
  counts-tick t packet io counted = ground (arith, counted)

  pub counts-length :
      (t : TunnelV3 d) (packet : List ℕ) (io : Io) → counts t packet io ≡ true → 29 ≤ length packet
  unfolding counts is_command
  counts-length t packet io counted = elim (Option-cases (parse_packet_header packet)) [
    | inl e ↦ ground (arith, e)
    | inr ((sender_id, receiver_id), e) ↦ ground (arith, e)
  ]
