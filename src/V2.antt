-- ===== src/V2.antt =====
-- src/tunnel_v2.rs: the state of the V2 tunnel and the handlers of a packet. An id is an i16, kept as
-- its bit pattern. A handler is one step, and a method on a shared `TunnelClient` writes the changed
-- client back under its key.
pub mod Response
pub mod Allocate
pub mod Draws
pub mod Slots
pub mod Requests
pub mod Supply
pub mod Sender
pub mod Relay
pub mod Delivery
pub mod Reaching
pub mod Http
pub mod Listener
pub mod Periodic
pub mod Worker
pub mod Start
pub mod Accounting
pub mod System
pub mod Refinement
pub mod Implements
pub mod Maintenance
pub mod Race
mod Tests
use cncnet_server.Base.{
  ℕ, ◌-◌, ◌≡◌, Bool, true, false, not, ◌&&◌, ◌||◌, Option, none, some, List, [], ◌∷◌, ltb, leb,
  ◌==◌, if◌then◌else◌, length, get_or, take,
}
use cncnet_server.Base.Words.{add64, as_u32, from_be_bytes_16}
use cncnet_server.Config.{ServerConfig}
use cncnet_server.Deps.{Deps}
use cncnet_server.Limiter.{RateLimiter, rate_limiter_new, check_and_increment}
use cncnet_server.Metrics.{Metrics, LocalMetricsBatch, record_v2_rx, record_v2_tx}
use cncnet_server.Net.{SocketAddr, same_addr, ip, Datagram, Io}

abbrev pub max_pings_per_ip : ℕ
max_pings_per_ip = 20

abbrev pub timeout_seconds : ℕ
timeout_seconds = 30

abbrev pub max_packet_size : ℕ
max_packet_size = 1472

-- The two ids of a packet, big-endian.
abbrev pub sender_of : List ℕ → ℕ
unfolding from_be_bytes_16
sender_of packet = from_be_bytes_16 (get_or packet 0 0) (get_or packet 1 0)

abbrev pub receiver_of : List ℕ → ℕ
unfolding from_be_bytes_16
receiver_of packet = from_be_bytes_16 (get_or packet 2 0) (get_or packet 3 0)

module _ (d : Deps) where
  open d use {
    Map, get, insert, create_dashmap_with_capacity, TunnelClient, new_with_endpoint, remote_ep,
    is_timed_out, set_last_receive_tick_at, update_stats, validate_address,
  }

  -- The semaphore of HTTP connections and the HTTP client belong to packages.
  pub record TunnelV2 : Type 0 where
    pub config : ServerConfig
    pub metrics : Metrics
    pub mappings : Map TunnelClient
    pub ping_limiter : RateLimiter d.rater
    pub request_limiter : RateLimiter d.rater
    pub maintenance_mode : Bool
    pub dropped_connections : ℕ

  pub record Outcome : Type 0 where
    pub tunnel : TunnelV2
    pub batch : LocalMetricsBatch
    pub sent : List Datagram

  unfoldable pub tunnel_new : ServerConfig → Metrics → TunnelV2
  tunnel_new config metrics = record {
    config = config;
    metrics = metrics;
    mappings = create_dashmap_with_capacity config.max_clients;
    ping_limiter = rate_limiter_new d.rater 60 max_pings_per_ip;
    request_limiter = rate_limiter_new d.rater 60 (as_u32 config.ip_limit_v2);
    maintenance_mode = false;
    dropped_connections = 0;
  }

  unfoldable pub validate_packet : ℕ → ℕ → SocketAddr → Bool
  validate_packet sender_id receiver_id addr =
      if (sender_id == receiver_id) && not (sender_id == 0) then false else validate_address addr

  unfoldable pub handle_ping : TunnelV2 → List ℕ → SocketAddr → LocalMetricsBatch → Io → Outcome
  handle_ping t packet remote_addr batch io =
      let m = t.metrics in
      let t' : TunnelV2 = record t {
        metrics = record m { v2_ping_requests = add64 m.v2_ping_requests 1 };
      } in
      let response = take 12 packet in
      if io.send_to response remote_addr
      then record {
        tunnel = t';
        batch = record_v2_tx batch (length response);
        sent = record { payload = response; target = remote_addr } ∷ [];
      }
      else record { tunnel = t'; batch = batch; sent = [] }

  -- The client that an address gets under an id that was allocated before.
  abbrev pub connect_client : TunnelV2 → ℕ → SocketAddr → Io → TunnelV2
  connect_client t sender_id remote_addr io = record t {
    mappings = insert sender_id (new_with_endpoint remote_addr timeout_seconds io.clock) t.mappings;
  }

  -- A client that is heard of from its endpoint.
  abbrev pub refresh_client : TunnelV2 → ℕ → TunnelClient → List ℕ → Io → TunnelV2
  refresh_client t sender_id sender packet io = record t {
    mappings =
        insert sender_id
          (update_stats (set_last_receive_tick_at sender io.now) (length packet) 0 io.now)
          t.mappings;
  }

  -- The first half of `handle_data_forward`, for a sender with a client: the tunnel, and whether the
  -- handler goes on.
  unfoldable pub check_sender :
      TunnelV2 → ℕ → TunnelClient → List ℕ → SocketAddr → Io → TunnelV2 × Bool
  check_sender t sender_id sender packet remote_addr io = elim (remote_ep sender) [
    | none ↦ (connect_client t sender_id remote_addr io, true)
    | some ep ↦
        if not (same_addr ep remote_addr)
        then (if is_timed_out sender io.clock
            then (connect_client t sender_id remote_addr io, true)
            else (t, false))
        else (refresh_client t sender_id sender packet io, true)
  ]

  unfoldable pub forward_info : TunnelV2 → ℕ → SocketAddr → Option (SocketAddr × TunnelClient)
  forward_info t receiver_id remote_addr = elim (get receiver_id t.mappings) [
    | none ↦ none
    | some receiver ↦ elim (remote_ep receiver) [
      | none ↦ none
      | some ep ↦ if same_addr ep remote_addr then none else some (ep, receiver)
    ]
  ]

  -- The second half of `handle_data_forward`.
  unfoldable pub relay_packet :
      TunnelV2 → ℕ → List ℕ → SocketAddr → LocalMetricsBatch → Io → Outcome
  relay_packet t receiver_id packet remote_addr batch io =
      elim (forward_info t receiver_id remote_addr) [
        | none ↦ record { tunnel = t; batch = batch; sent = [] }
        | some (receiver_ep, receiver_client) ↦
            if io.send_to packet receiver_ep
            then record {
              tunnel = record t {
                mappings =
                    insert receiver_id (update_stats receiver_client 0 (length packet) io.now)
                      t.mappings;
              };
              batch = record_v2_tx batch (length packet);
              sent = record { payload = packet; target = receiver_ep } ∷ [];
            }
            else record { tunnel = t; batch = batch; sent = [] }
      ]

  unfoldable pub handle_data_forward :
      TunnelV2 → ℕ → ℕ → List ℕ → SocketAddr → LocalMetricsBatch → Io → Outcome
  handle_data_forward t sender_id receiver_id packet remote_addr batch io =
      elim (get sender_id t.mappings) [
        | none ↦ record { tunnel = t; batch = batch; sent = [] }
        | some sender ↦
            let (t', goes_on) = check_sender t sender_id sender packet remote_addr io in
            if goes_on
            then relay_packet t' receiver_id packet remote_addr batch io
            else record { tunnel = t'; batch = batch; sent = [] }
      ]

  unfoldable pub receive_ping : TunnelV2 → List ℕ → SocketAddr → LocalMetricsBatch → Io → Outcome
  receive_ping t packet remote_addr batch io =
      let (allowed, limiter) =
        check_and_increment d.rater t.ping_limiter (ip remote_addr) io.clock in
      let t' : TunnelV2 = record t { ping_limiter = limiter } in
      if length packet == 50
      then (if allowed
          then handle_ping t' packet remote_addr batch io
          else record { tunnel = t'; batch = batch; sent = [] })
      else record { tunnel = t; batch = batch; sent = [] }

  -- `on_udp_receive` behind its two ids.
  unfoldable pub dispatch_packet :
      TunnelV2 → ℕ → ℕ → List ℕ → SocketAddr → LocalMetricsBatch → Io → Outcome
  dispatch_packet t sender_id receiver_id packet remote_addr batch io =
      if not (validate_packet sender_id receiver_id remote_addr)
      then record { tunnel = t; batch = batch; sent = [] }
      else if (sender_id == 0) && (receiver_id == 0)
      then receive_ping t packet remote_addr batch io
      else if t.maintenance_mode
      then record { tunnel = t; batch = batch; sent = [] }
      else handle_data_forward t sender_id receiver_id packet remote_addr batch io

  unfoldable pub on_udp_receive : TunnelV2 → List ℕ → SocketAddr → LocalMetricsBatch → Io → Outcome
  on_udp_receive t packet remote_addr batch io =
      if ltb (length packet) 4
      then record { tunnel = t; batch = batch; sent = [] }
      else dispatch_packet t (sender_of packet) (receiver_of packet) packet remote_addr
          (record_v2_rx batch (length packet)) io
