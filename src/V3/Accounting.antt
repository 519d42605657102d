-- ===== src/V3/Accounting.antt =====
-- The V3 counters: what a worker of src/tunnel_v3.rs counts, against what it received and sent.
use cncnet_server.Base.{
  ℕ, suc, ◌+◌, ◌%◌, ◌≤◌, ◌≡◌, ◌≢◌, ◌⊎◌, inl, inr, Bool, true, false, ◌&&◌, none, List, [], ◌∷◌,
  if◌then◌else◌, leb, length, length-append, arith, Option-cases, Bool-cases,
}
use cncnet_server.Base.Words.{add32, u64_mod}
use cncnet_server.Net.{SocketAddr, Io}
use cncnet_server.Deps.{Deps}
use cncnet_server.Metrics.{
  Metrics, LocalMetricsBatch, record_v3_rx, record_v3_tx, flush, maybe_flush,
}
use cncnet_server.V3.{
  TunnelV3, Outcome, refresh_sender, reconnect_sender, connect_sender, known_sender, check_sender,
  relay_packet, handle_data_forward, handle_ping, parse_packet_header, max_packet_size,
}
use cncnet_server.V3.Cleanup.{cleanup_expired_mappings}
use cncnet_server.V3.Receive.{
  run_command, execute_command, receive_ping, dispatch_packet, on_receive,
}
use cncnet_server.V3.Worker.{Received, datagram, failure, Worker, receive_round, receive_loop}

module _ (d : Deps) where
  -- The counters that only the receive loop changes.
  abbrev pub traffic : Metrics → ℕ × ℕ × ℕ
  traffic m = (m.v3_packets_received, m.v3_packets_sent, m.invalid_packets)

  -- What a handler does to the counters: it leaves the shared ones, and counts what it sends.
  pub record Accounts (t : TunnelV3 d) (batch : LocalMetricsBatch) (o : Outcome d) : Type 0 where
    pub shared : traffic o.tunnel.metrics ≡ traffic t.metrics
    pub counter : o.batch.counter ≡ batch.counter
    pub received : o.batch.v3_packets_rx ≡ batch.v3_packets_rx
    pub sent :
        ((length o.sent ≡ 0) × (o.batch.v3_packets_tx ≡ batch.v3_packets_tx))
        ⊎ ((length o.sent ≡ 1) × (o.batch.v3_packets_tx ≡ add32 batch.v3_packets_tx 1))

  check_sender-traffic :
      (t : TunnelV3 d) (sender_id : ℕ) (packet : List ℕ) (remote_addr : SocketAddr) (io : Io)
      → traffic (check_sender d t sender_id packet remote_addr io).0.metrics ≡ traffic t.metrics
  unfolding check_sender known_sender refresh_sender reconnect_sender connect_sender
  check_sender-traffic t sender_id packet remote_addr io = ground arith

  relay_packet-Accounts :
      (t : TunnelV3 d) (receiver_id : ℕ) (packet : List ℕ) (remote_addr : SocketAddr)
      (batch : LocalMetricsBatch) (io : Io)
      → Accounts t batch (relay_packet d t receiver_id packet remote_addr batch io)
  unfolding relay_packet record_v3_tx
  relay_packet-Accounts t receiver_id packet remote_addr batch io = ground arith

  receive_ping-Accounts :
      (t : TunnelV3 d) (packet : List ℕ) (remote_addr : SocketAddr) (batch : LocalMetricsBatch)
      (io : Io)
      → Accounts t batch (receive_ping d t packet remote_addr batch io)
  unfolding receive_ping handle_ping record_v3_tx
  receive_ping-Accounts t packet remote_addr batch io = ground arith

  execute_command-traffic :
      (t : TunnelV3 d) (packet : List ℕ) (io : Io)
      → traffic (execute_command d t packet io).metrics ≡ traffic t.metrics
  unfolding execute_command run_command cleanup_expired_mappings
  execute_command-traffic t packet io = ground arith

  handle_data_forward-Accounts :
      (t : TunnelV3 d) (sender_id receiver_id : ℕ) (packet : List ℕ) (remote_addr : SocketAddr)
      (batch : LocalMetricsBatch) (io : Io)
      → Accounts t batch (handle_data_forward d t sender_id receiver_id packet remote_addr batch io)
  unfolding handle_data_forward
  handle_data_forward-Accounts t sender_id receiver_id packet remote_addr batch io =
      let t' : TunnelV3 d = (check_sender d t sender_id packet remote_addr io).0 in
      ground (
        arith,
        check_sender-traffic t sender_id packet remote_addr io,
        relay_packet-Accounts t' receiver_id packet remote_addr batch io,
      )

  dispatch_packet-Accounts :
      (t : TunnelV3 d) (sender_id receiver_id : ℕ) (packet : List ℕ) (remote_addr : SocketAddr)
      (batch : LocalMetricsBatch) (io : Io)
      → Accounts t batch (dispatch_packet d t sender_id receiver_id packet remote_addr batch io)
  unfolding dispatch_packet
  dispatch_packet-Accounts t sender_id receiver_id packet remote_addr batch io = ground (
    arith,
    execute_command-traffic t packet io,
    receive_ping-Accounts t packet remote_addr batch io,
    handle_data_forward-Accounts t sender_id receiver_id packet remote_addr batch io,
  )

  -- Packets that a worker takes, and those that it counts as invalid.
  abbrev pub is_sized : List ℕ → Bool
  is_sized packet = leb 8 (length packet) && leb (length packet) max_packet_size

  abbrev pub taken : List (Received × Io) → ℕ
  taken [] = 0
  taken ((datagram packet addr, io) ∷ es) = if is_sized packet then suc (taken es) else taken es
  taken ((failure, io) ∷ es) = taken es

  abbrev pub refused : List (Received × Io) → ℕ
  refused [] = 0
  refused ((datagram packet addr, io) ∷ es) =
      if is_sized packet then refused es else suc (refused es)
  refused ((failure, io) ∷ es) = refused es

  -- The counters after `n` packets taken and `i` refused, from the counters `m`. What the worker has
  -- not flushed yet is less than a batch.
  pub record Counted (m : Metrics) (n i : ℕ) (w : Worker d) : Type 0 where
    pub received :
        (w.tunnel.metrics.v3_packets_received + w.batch.v3_packets_rx) % u64_mod
        ≡ (m.v3_packets_received + n) % u64_mod
    pub sent :
        (w.tunnel.metrics.v3_packets_sent + w.batch.v3_packets_tx) % u64_mod
        ≡ (m.v3_packets_sent + length w.sent) % u64_mod
    pub invalid : w.tunnel.metrics.invalid_packets % u64_mod ≡ (m.invalid_packets + i) % u64_mod
    pub few_received : w.batch.v3_packets_rx ≤ w.batch.counter % 64
    pub few_sent : w.batch.v3_packets_tx ≤ w.batch.counter % 64

  parse_packet_header-none :
      (packet : List ℕ) → 8 ≤ length packet → parse_packet_header packet ≢ none
  unfolding parse_packet_header
  parse_packet_header-none packet long e = ground arith

  on_receive-Accounts :
      (t : TunnelV3 d) (packet : List ℕ) (remote_addr : SocketAddr) (batch : LocalMetricsBatch)
      (io : Io)
      → 8 ≤ length packet
      → Accounts t (record_v3_rx batch (length packet)) (on_receive d t packet remote_addr batch io)
  unfolding on_receive
  on_receive-Accounts t packet remote_addr batch io long =
      elim (Option-cases (parse_packet_header packet)) [
        | inl e ↦ absurd (parse_packet_header-none packet long e)
        | inr ((sender_id, receiver_id), e) ↦
            rw (e, on_receive)
              (dispatch_packet-Accounts t sender_id receiver_id packet remote_addr
                (record_v3_rx batch (length packet)) io)
      ]

  module _ (m : Metrics) (n i : ℕ) where
    round_taken :
        (w : Worker d) (packet : List ℕ) (addr : SocketAddr) (io : Io)
        → is_sized packet ≡ true
        → Counted m n i w
        → Counted m (suc n) i (receive_round d w (datagram packet addr, io))
    unfolding receive_round maybe_flush flush record_v3_rx
    round_taken w packet addr io sized c = ground (
      arith,
      on_receive-Accounts w.tunnel packet addr w.batch io,
      length-append w.sent (on_receive d w.tunnel packet addr w.batch io).sent,
    )

    round_refused :
        (w : Worker d) (packet : List ℕ) (addr : SocketAddr) (io : Io)
        → is_sized packet ≡ false
        → Counted m n i w
        → Counted m n (suc i) (receive_round d w (datagram packet addr, io))
    unfolding receive_round
    round_refused w packet addr io sized c = ground arith

    round_failure :
        (w : Worker d) (io : Io) → Counted m n i w → Counted m n i (receive_round d w (failure, io))
    unfolding receive_round flush
    round_failure w io c = ground arith

  pub recount :
      (m : Metrics) {n i n' i' : ℕ} (w : Worker d)
      → n ≡ n'
      → i ≡ i'
      → Counted m n i w
      → Counted m n' i' w
  recount m w p q c = rw (← p, ← q) c

  pub receive_loop-Counted :
      (m : Metrics) (n i : ℕ) (w : Worker d) (es : List (Received × Io))
      → Counted m n i w
      → Counted m (n + taken es) (i + refused es) (receive_loop d w es)
  unfolding receive_loop
  receive_loop-Counted m n i w [] c = recount m w (omega arith) (omega arith) c
  receive_loop-Counted m n i w ((datagram packet addr, io) ∷ es) c =
      elim (Bool-cases (is_sized packet)) [
        | inl sized ↦
            recount m _ (ground arith) (ground arith)
              (receive_loop-Counted m (suc n) i _ es (round_taken m n i w packet addr io sized c))
        | inr not_sized ↦ recount m _ (ground arith) (ground arith) (
            receive_loop-Counted m n (suc i) _ es
              (round_refused m n i w packet addr io not_sized c))
      ]
  receive_loop-Counted m n i w ((failure, io) ∷ es) c =
      receive_loop-Counted m n i _ es (round_failure m n i w io c)
