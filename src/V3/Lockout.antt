-- ===== src/V3/Lockout.antt =====
-- The minute after a command packet, under all tasks of src/tunnel_v3.rs.
use cncnet_server.Base.{
  ℕ, ◌+◌, ◌≤◌, ◌<◌, ◌≡◌, refl, ap, ◌∙◌, true, ◌&&◌, List, [], ◌∷◌, if_cases, leb, length, arith,
  All,
}
use cncnet_server.Deps.{Deps}
use cncnet_server.Net.{SocketAddr, Io}
use cncnet_server.V3.{TunnelV3, max_packet_size}
use cncnet_server.V3.Cleanup.{cleanup_expired_mappings}
use cncnet_server.V3.Commands.{
  control, counts, on_receive-control, too_soon, counts-length, counts-tick,
}
use cncnet_server.V3.Heartbeat.{heartbeat_tick}
use cncnet_server.V3.System.{Event, round, tick, System, worker_of, system_step, system_run}
use cncnet_server.V3.Worker.{Received, datagram, failure, Worker, receive_round}

-- When an event happens, in whole seconds since start-up.
abbrev pub seconds_of : Event → ℕ
seconds_of (round i (r, io)) = io.elapsed_secs
seconds_of (tick io) = io.elapsed_secs

module _ (d : Deps) where
  receive_round-control :
      (w : Worker d) (r : Received) (io : Io)
      → io.elapsed_secs < w.tunnel.last_command_tick + 60
      → control d (receive_round d w (r, io)).tunnel ≡ control d w.tunnel
  unfolding receive_round
  receive_round-control w (datagram packet addr) io soon =
      if_cases {A = Worker d} (λ w'. control d w'.tunnel ≡ control d w.tunnel)
        (leb 8 (length packet) && leb (length packet) max_packet_size) _ _
        (λ _.
          on_receive-control d w.tunnel packet addr w.batch io ∙ too_soon d w.tunnel packet io soon)
        (λ _. refl)
  receive_round-control w failure io soon = refl

  heartbeat_tick-control :
      (counter : ℕ) (t : TunnelV3 d) (io : Io)
      → control d (heartbeat_tick d counter t io).tunnel ≡ control d t
  unfolding heartbeat_tick cleanup_expired_mappings
  heartbeat_tick-control counter t io = ground arith

  system_step-control :
      (s : System d) (e : Event)
      → seconds_of e < s.tunnel.last_command_tick + 60
      → control d (system_step d s e).tunnel ≡ control d s.tunnel
  unfolding system_step
  system_step-control s (round i (r, io)) soon = receive_round-control (worker_of d s i) r io soon
  system_step-control s (tick io) soon = heartbeat_tick-control s.cleanup_counter s.tunnel io

  system_run-control :
      (s : System d) (later : List Event) (now : ℕ)
      → s.tunnel.last_command_tick ≡ now
      → All (λ e. seconds_of e < now + 60) later
      → control d (system_run d s later).tunnel ≡ control d s.tunnel
  unfolding system_run
  system_run-control s [] now at soon = refl
  system_run-control s (e ∷ later) now at soon =
      let same = system_step-control s e (omega (arith, soon.0, at)) in
      let still : (system_step d s e).tunnel.last_command_tick ≡ now = cc in
      system_run-control (system_step d s e) later now still soon.1 ∙ same

  command-control :
      (s : System d) (i : ℕ) (packet : List ℕ) (addr : SocketAddr) (io : Io)
      → counts d s.tunnel packet io ≡ true
      → length packet ≤ max_packet_size
      → (system_step d s (round i (datagram packet addr, io))).tunnel.last_command_tick
        ≡ io.elapsed_secs
  unfolding system_step receive_round
  command-control s i packet addr io counted fits =
      let long = counts-length d s.tunnel packet io counted in
      if_cases {A = Worker d} (λ w. w.tunnel.last_command_tick ≡ io.elapsed_secs)
        (leb 8 (length packet) && leb (length packet) max_packet_size) _ _
        (λ _.
          ap (λ c. c.1) (on_receive-control d s.tunnel packet addr (worker_of d s i).batch io)
          ∙ counts-tick d s.tunnel packet io counted)
        (λ out. absurd (ground (arith, long, fits, out)))

  -- When a worker receives a command packet that counts, even one with a wrong password, nothing that
  -- any worker or the heartbeat does while fewer than 60 seconds have passed since then, however many
  -- packets and ticks that is, changes the maintenance mode, the password's digest or
  -- `last_command_tick`, which stays at the second of that packet.
  pub command-locks_out :
      (s : System d) (i : ℕ) (packet : List ℕ) (addr : SocketAddr) (io : Io) (later : List Event)
      → counts d s.tunnel packet io ≡ true
      → length packet ≤ max_packet_size
      → All (λ e. seconds_of e < io.elapsed_secs + 60) later
      → let s' = system_step d s (round i (datagram packet addr, io)) in
        (control d (system_run d s' later).tunnel ≡ control d s'.tunnel)
        × (s'.tunnel.last_command_tick ≡ io.elapsed_secs)
  command-locks_out s i packet addr io later counted fits soon =
      let at = command-control s i packet addr io counted fits in
      (
        system_run-control (system_step d s (round i (datagram packet addr, io))) later
            io.elapsed_secs at soon,
        at,
      )
