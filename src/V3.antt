-- ===== src/V3.antt =====
-- src/tunnel_v3.rs: the state of the V3 tunnel and the handlers of a packet. A handler is one step:
-- no other worker runs between its reads and its writes. A method on a shared `TunnelClient` or
-- `QualityAnalyzer` writes the changed object back under its key.
pub mod Receive
pub mod Cleanup
pub mod Lookup
pub mod Registry
pub mod Sender
pub mod Delivery
pub mod Ownership
pub mod Reaching
pub mod Commands
pub mod Lockout
pub mod Accounting
pub mod Expiry
pub mod Invariant
pub mod Preservation
pub mod Heartbeat
pub mod Worker
pub mod Race
pub mod Capacity
pub mod Overshoot
pub mod Start
pub mod System
pub mod Sound
pub mod Totals
pub mod Refinement
pub mod Implements
mod Tests
use cncnet_server.Base.{
  ℕ, ◌-◌, ◌≡◌, Bool, true, false, not, ◌&&◌, ◌||◌, Option, none, some, List, [], ◌∷◌, ltb, leb,
  ◌==◌, if◌then◌else◌, is_some, length, get_or, take, drop, map, filter, slice_eq,
}
use cncnet_server.Base.Words.{add64, as_u32, u32_max, from_le_bytes_32}
use cncnet_server.Net.{SocketAddr, same_addr, ip, Datagram, Io}
use cncnet_server.Deps.{Deps}
use cncnet_server.Config.{ServerConfig}
use cncnet_server.Limiter.{
  ConnectionRateLimiter, connection_limiter_new, try_acquire, RateLimiter, rate_limiter_new,
  check_and_increment, reset,
}
use cncnet_server.Metrics.{Metrics, LocalMetricsBatch, record_v3_rx, record_v3_tx}

abbrev pub command_rate_limit_secs : ℕ
command_rate_limit_secs = 60

abbrev pub max_pings_per_ip : ℕ
max_pings_per_ip = 20

abbrev pub timeout_seconds : ℕ
timeout_seconds = 30

abbrev pub max_packet_size : ℕ
max_packet_size = 1472

-- Sender and receiver, little-endian.
unfoldable pub parse_packet_header : List ℕ → Option (ℕ × ℕ)
unfolding from_le_bytes_32
parse_packet_header packet =
    if ltb (length packet) 8
    then none
    else some (
      from_le_bytes_32 (get_or packet 0 0) (get_or packet 1 0) (get_or packet 2 0)
          (get_or packet 3 0),
      from_le_bytes_32 (get_or packet 4 0) (get_or packet 5 0) (get_or packet 6 0)
          (get_or packet 7 0),
    )

module _ (d : Deps) where
  open d use {
    Map, get, insert, remove, contains_key, len, retain, iter, create_dashmap_with_capacity,
    TunnelClient, new_with_endpoint, remote_ep, is_timed_out, set_last_receive_tick_at,
    update_stats, QualityAnalyzer, analyzer_new, record_packet, validate_address, sha1,
  }

  pub record TunnelV3 : Type 0 where
    pub config : ServerConfig
    pub metrics : Metrics
    pub mappings : Map TunnelClient
    pub connection_limiter : ConnectionRateLimiter d.rater
    pub ping_limiter : RateLimiter d.rater
    pub maintenance_mode : Bool
    pub last_command_tick : ℕ
    pub maintenance_password_sha1 : Option (List ℕ)
    pub quality_analyzers : Map QualityAnalyzer

  -- The tunnel and the worker's batch after a handler, and the datagrams that the socket took.
  pub record Outcome : Type 0 where
    pub tunnel : TunnelV3
    pub batch : LocalMetricsBatch
    pub sent : List Datagram

  unfoldable pub tunnel_new : ServerConfig → Metrics → TunnelV3
  tunnel_new config metrics = record {
    config = config;
    metrics = metrics;
    mappings = create_dashmap_with_capacity config.max_clients;
    connection_limiter = connection_limiter_new d.rater (as_u32 config.ip_limit);
    ping_limiter = rate_limiter_new d.rater 60 max_pings_per_ip;
    maintenance_mode = false;
    last_command_tick = 0;
    maintenance_password_sha1 = elim config.maintenance_password [
      | [] ↦ none
      | c ∷ s ↦ some (sha1 (c ∷ s))
    ];
    quality_analyzers = create_dashmap_with_capacity config.max_clients;
  }

  unfoldable pub validate_packet : ℕ → ℕ → SocketAddr → Bool
  validate_packet sender_id receiver_id addr =
      if (sender_id == receiver_id) && not (sender_id == 0) then false else validate_address addr

  unfoldable pub handle_ping : TunnelV3 → List ℕ → SocketAddr → LocalMetricsBatch → Io → Outcome
  handle_ping t packet remote_addr batch io =
      let m = t.metrics in
      let t' : TunnelV3 = record t {
        metrics = record m { v3_ping_requests = add64 m.v3_ping_requests 1 };
      } in
      let response = take 12 packet in
      if io.send_to response remote_addr
      then record {
        tunnel = t';
        batch = record_v3_tx batch (length response);
        sent = record { payload = response; target = remote_addr } ∷ [];
      }
      else record { tunnel = t'; batch = batch; sent = [] }

  -- A known sender that speaks from its endpoint.
  unfoldable pub refresh_sender : TunnelV3 → ℕ → TunnelClient → List ℕ → Io → TunnelV3
  refresh_sender t sender_id client packet io = record t {
    mappings =
        insert sender_id
          (update_stats (set_last_receive_tick_at client io.now) (length packet) 0 io.now)
          t.mappings;
    quality_analyzers = elim (get sender_id t.quality_analyzers) [
      | none ↦ t.quality_analyzers
      | some analyzer ↦ insert sender_id (record_packet analyzer false) t.quality_analyzers
    ];
  }

  -- The client that an address gets, with its analyzer.
  abbrev register : TunnelV3 → ℕ → SocketAddr → Io → TunnelV3
  register t sender_id remote_addr io = record t {
    mappings = insert sender_id (new_with_endpoint remote_addr timeout_seconds io.clock) t.mappings;
    quality_analyzers = insert sender_id analyzer_new t.quality_analyzers;
  }

  -- The id of a client that has timed out, from another address.
  unfoldable pub reconnect_sender : TunnelV3 → ℕ → SocketAddr → Io → TunnelV3 × Bool
  reconnect_sender t sender_id remote_addr io =
      let (allowed, limiter) = try_acquire d.rater t.connection_limiter (ip remote_addr) io.clock in
      let t' : TunnelV3 = record t { connection_limiter = limiter } in
      if allowed then (register t' sender_id remote_addr io, true) else (t', false)

  -- A new id, with room for it.
  unfoldable pub connect_sender : TunnelV3 → ℕ → SocketAddr → Io → TunnelV3 × Bool
  connect_sender t sender_id remote_addr io =
      let (allowed, limiter) = try_acquire d.rater t.connection_limiter (ip remote_addr) io.clock in
      let t' : TunnelV3 = record t { connection_limiter = limiter } in
      let new = register t' sender_id remote_addr io in
      let m = t.metrics in
      if allowed
      then (record new { metrics = record m { v3_active_clients = len new.mappings } }, true)
      else (record t' { metrics = record m { rate_limit_hits = add64 m.rate_limit_hits 1 } }, false)

  -- A new id, with no room for it.
  abbrev pub refuse_sender : TunnelV3 → TunnelV3 × Bool
  refuse_sender t =
      let m = t.metrics in
      (record t { metrics = record m { dropped_packets = add64 m.dropped_packets 1 } }, false)

  -- `sender_valid` for an id that has a client.
  unfoldable pub known_sender :
      TunnelV3 → ℕ → TunnelClient → List ℕ → SocketAddr → Io → TunnelV3 × Bool
  known_sender t sender_id client packet remote_addr io = elim (remote_ep client) [
    | none ↦ (t, false)
    | some ep ↦
        if not (same_addr ep remote_addr)
        then (if is_timed_out client io.clock
            then reconnect_sender t sender_id remote_addr io
            else (t, false))
        else (refresh_sender t sender_id client packet io, true)
  ]

  -- `sender_valid` of `handle_data_forward`, with what its computation does to the tunnel.
  unfoldable pub check_sender : TunnelV3 → ℕ → List ℕ → SocketAddr → Io → TunnelV3 × Bool
  check_sender t sender_id packet remote_addr io = elim (get sender_id t.mappings) [
    | some client ↦ known_sender t sender_id client packet remote_addr io
    | none ↦
        if ltb (len t.mappings) t.config.max_clients
        then connect_sender t sender_id remote_addr io
        else refuse_sender t
  ]

  -- Where the packet goes: the receiver's endpoint, unless it is the sender's own address.
  unfoldable pub forward_info : TunnelV3 → ℕ → SocketAddr → Option (SocketAddr × TunnelClient)
  forward_info t receiver_id remote_addr = elim (get receiver_id t.mappings) [
    | none ↦ none
    | some receiver ↦ elim (remote_ep receiver) [
      | none ↦ none
      | some ep ↦ if same_addr ep remote_addr then none else some (ep, receiver)
    ]
  ]

  -- The rest of `handle_data_forward`, for a valid sender.
  unfoldable pub relay_packet :
      TunnelV3 → ℕ → List ℕ → SocketAddr → LocalMetricsBatch → Io → Outcome
  relay_packet t receiver_id packet remote_addr batch io =
      elim (forward_info t receiver_id remote_addr) [
        | none ↦ record { tunnel = t; batch = batch; sent = [] }
        | some (receiver_ep, receiver_client) ↦
            if io.send_to packet receiver_ep
            then record {
              tunnel = record t {
                mappings =
                    insert receiver_id (update_stats receiver_client 0 (length packet) io.now)
                      t.mappings;
              };
              batch = record_v3_tx batch (length packet);
              sent = record { payload = packet; target = receiver_ep } ∷ [];
            }
            else record {
              tunnel = record t {
                quality_analyzers = elim (get receiver_id t.quality_analyzers) [
                  | none ↦ t.quality_analyzers
                  | some analyzer ↦
                      insert receiver_id (record_packet analyzer true) t.quality_analyzers
                ];
              };
              batch = batch;
              sent = [];
            }
      ]

  unfoldable pub handle_data_forward :
      TunnelV3 → ℕ → ℕ → List ℕ → SocketAddr → LocalMetricsBatch → Io → Outcome
  handle_data_forward t sender_id receiver_id packet remote_addr batch io =
      let (t', sender_valid) = check_sender t sender_id packet remote_addr io in
      if sender_valid
      then relay_packet t' receiver_id packet remote_addr batch io
      else record { tunnel = t'; batch = batch; sent = [] }
