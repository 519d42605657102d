-- ===== src/V3/Sound.antt =====
-- The V3 tunnel under all of its tasks: its configuration, and the order in its maps.
use cncnet_server.Base.{
  ℕ, ◌≡◌, refl, ◌∙◌, inl, inr, ◌&&◌, List, [], ◌∷◌, if_cases, leb, length, arith, Option-cases,
}
use mathlib.Core.Path.{subst}
use cncnet_server.Config.{ServerConfig}
use cncnet_server.Deps.{Deps}
use cncnet_server.Metrics.{Metrics, LocalMetricsBatch, record_v3_rx}
use cncnet_server.Net.{SocketAddr, Io}
use cncnet_server.V3.{
  TunnelV3, Outcome, tunnel_new, refresh_sender, reconnect_sender, connect_sender, known_sender,
  check_sender, relay_packet, handle_data_forward, handle_ping, parse_packet_header,
  max_packet_size,
}
use cncnet_server.V3.Cleanup.{cleanup_expired_mappings}
use cncnet_server.V3.Heartbeat.{heartbeat_tick}
use cncnet_server.V3.Invariant.{Inv, tunnel_new-Inv}
use cncnet_server.V3.Preservation.{receive_round-Inv, heartbeat_tick-Inv}
use cncnet_server.V3.Receive.{
  run_command, execute_command, receive_ping, dispatch_packet, on_receive,
}
use cncnet_server.V3.Registry.{Registry}
use cncnet_server.V3.System.{
  Event, round, tick, System, system_start, worker_of, system_step, system_run,
}
use cncnet_server.V3.Worker.{Received, datagram, failure, Worker, receive_round}

module _ (d : Deps) where
  check_sender-config :
      (t : TunnelV3 d) (sender_id : ℕ) (packet : List ℕ) (remote_addr : SocketAddr) (io : Io)
      → (check_sender d t sender_id packet remote_addr io).0.config ≡ t.config
  unfolding check_sender known_sender refresh_sender reconnect_sender connect_sender
  check_sender-config t sender_id packet remote_addr io = ground arith

  relay_packet-config :
      (t : TunnelV3 d) (receiver_id : ℕ) (packet : List ℕ) (remote_addr : SocketAddr)
      (batch : LocalMetricsBatch) (io : Io)
      → (relay_packet d t receiver_id packet remote_addr batch io).tunnel.config ≡ t.config
  unfolding relay_packet
  relay_packet-config t receiver_id packet remote_addr batch io = ground arith

  handle_data_forward-config :
      (t : TunnelV3 d) (sender_id receiver_id : ℕ) (packet : List ℕ) (remote_addr : SocketAddr)
      (batch : LocalMetricsBatch) (io : Io)
      → (handle_data_forward d t sender_id receiver_id packet remote_addr batch io).tunnel.config
        ≡ t.config
  unfolding handle_data_forward
  handle_data_forward-config t sender_id receiver_id packet remote_addr batch io =
      let checked = check_sender d t sender_id packet remote_addr io in
      let same = check_sender-config t sender_id packet remote_addr io in
      if_cases {A = Outcome d} (λ o. o.tunnel.config ≡ t.config) checked.1 _ _
        (λ _. relay_packet-config checked.0 receiver_id packet remote_addr batch io ∙ same)
        (λ _. same)

  dispatch_packet-config :
      (t : TunnelV3 d) (sender_id receiver_id : ℕ) (packet : List ℕ) (remote_addr : SocketAddr)
      (batch : LocalMetricsBatch) (io : Io)
      → (dispatch_packet d t sender_id receiver_id packet remote_addr batch io).tunnel.config
        ≡ t.config
  unfolding dispatch_packet execute_command run_command cleanup_expired_mappings receive_ping
      handle_ping
  dispatch_packet-config t sender_id receiver_id packet remote_addr batch io =
      ground (arith, handle_data_forward-config t sender_id receiver_id packet remote_addr batch io)

  on_receive-config :
      (t : TunnelV3 d) (packet : List ℕ) (remote_addr : SocketAddr) (batch : LocalMetricsBatch)
      (io : Io)
      → (on_receive d t packet remote_addr batch io).tunnel.config ≡ t.config
  unfolding on_receive
  on_receive-config t packet remote_addr batch io =
      elim (Option-cases (parse_packet_header packet)) [
        | inl e ↦ rw (e, on_receive) refl
        | inr ((sender_id, receiver_id), e) ↦
            rw (e, on_receive)
              (dispatch_packet-config t sender_id receiver_id packet remote_addr
                (record_v3_rx batch (length packet)) io)
      ]

  receive_round-config :
      (w : Worker d) (e : Received × Io) → (receive_round d w e).tunnel.config ≡ w.tunnel.config
  unfolding receive_round
  receive_round-config w (datagram packet addr, io) =
      if_cases {A = Worker d} (λ o. o.tunnel.config ≡ w.tunnel.config)
        (leb 8 (length packet) && leb (length packet) max_packet_size) _ _
        (λ _. on_receive-config w.tunnel packet addr w.batch io) (λ _. refl)
  receive_round-config w (failure, io) = refl

  heartbeat_tick-config :
      (counter : ℕ) (t : TunnelV3 d) (io : Io)
      → (heartbeat_tick d counter t io).tunnel.config ≡ t.config
  unfolding heartbeat_tick cleanup_expired_mappings
  heartbeat_tick-config counter t io = ground arith

  abbrev pub Sound : ServerConfig → TunnelV3 d → Type 0
  Sound config t =
      (t.config ≡ config) × Registry d config.max_clients t.mappings t.quality_analyzers

  -- From the invariant of a tunnel with the configuration that it started with.
  sound : (config : ServerConfig) (t : TunnelV3 d) → t.config ≡ config → Inv d t → Sound config t
  sound config t same v = (
    same,
    subst (λ (c : ServerConfig). Registry d c.max_clients t.mappings t.quality_analyzers) same v,
  )

  step-Inv : (s : System d) (e : Event) → Inv d s.tunnel → Inv d (system_step d s e).tunnel
  unfolding system_step
  step-Inv s (round i e) v = receive_round-Inv d (worker_of d s i) e v
  step-Inv s (tick io) v = heartbeat_tick-Inv d s.cleanup_counter s.tunnel io v

  step-config : (s : System d) (e : Event) → (system_step d s e).tunnel.config ≡ s.tunnel.config
  unfolding system_step
  step-config s (round i e) = receive_round-config (worker_of d s i) e
  step-config s (tick io) = heartbeat_tick-config s.cleanup_counter s.tunnel io

  run-Inv :
      (s : System d) (es : List Event)
      → Inv d s.tunnel
      → Inv d (system_run d s es).tunnel × ((system_run d s es).tunnel.config ≡ s.tunnel.config)
  unfolding system_run
  run-Inv s [] v = (v, refl)
  run-Inv s (e ∷ es) v =
      let (w, same) = run-Inv (system_step d s e) es (step-Inv s e v) in (w, same ∙ step-config s e)

  -- From the start of the server, through the rounds of any number of workers and the ticks of the
  -- heartbeat in any order, each as one step, with any packets and receive errors: the configuration
  -- stays as it is, the V3 tunnel never has more clients than `max_clients`, each client has an endpoint,
  -- and exactly the ids that have a client have an analyzer.
  pub system_run-Sound :
      (config : ServerConfig) (m : Metrics) (workers : ℕ) (es : List Event)
      → Sound config (system_run d (system_start d config m workers) es).tunnel
  unfolding system_start tunnel_new
  system_run-Sound config m workers es =
      let s = system_start d config m workers in
      let (v, same) = run-Inv s es (tunnel_new-Inv d config m) in
      sound config (system_run d s es).tunnel same v
