-- ===== src/V2/Accounting.antt =====
-- The V2 counters: what a worker of src/tunnel_v2.rs counts, against what it received and sent.
use cncnet_server.Base.{
  ℕ, suc, ◌+◌, ◌%◌, ◌≤◌, ◌≡◌, refl, ◌⊎◌, inl, inr, Bool, true, false, ◌&&◌, List, [], ◌∷◌, ◌==◌,
  if◌then◌else◌, if_cases, leb, length, length-append, arith, Bool-cases, Option-cases,
}
use cncnet_server.Base.Words.{add32, u64_mod, u16_mod}
use cncnet_server.Deps.{Deps}
use cncnet_server.Metrics.{
  Metrics, LocalMetricsBatch, record_v2_rx, record_v2_tx, flush, maybe_flush, poured, drained,
  flush_interval,
}
use cncnet_server.Net.{SocketAddr, Io}
use cncnet_server.V2.{
  TunnelV2, Outcome, check_sender, relay_packet, handle_data_forward, handle_ping, receive_ping,
  dispatch_packet, on_udp_receive, max_packet_size, sender_of, receiver_of,
}
use cncnet_server.V2.Worker.{
  Received, datagram, failure, Worker, worker_start, receive_round, receive_loop,
}

module _ (d : Deps) where
  open d use {get}

  -- What a handler does to the counters: it leaves the shared ones, and counts what it sends.
  pub record Accounts (t : TunnelV2 d) (batch : LocalMetricsBatch) (o : Outcome d) : Type 0 where
    pub shared_received : o.tunnel.metrics.v2_packets_received ≡ t.metrics.v2_packets_received
    pub shared_sent : o.tunnel.metrics.v2_packets_sent ≡ t.metrics.v2_packets_sent
    pub counter : o.batch.counter ≡ batch.counter
    pub received : o.batch.v2_packets_rx ≡ batch.v2_packets_rx
    pub sent :
        ((length o.sent ≡ 0) × (o.batch.v2_packets_tx ≡ batch.v2_packets_tx))
        ⊎ ((length o.sent ≡ 1) × (o.batch.v2_packets_tx ≡ add32 batch.v2_packets_tx 1))

  check_sender-metrics :
      (t : TunnelV2 d) (k : ℕ) (c : d.TunnelClient) (packet : List ℕ) (a : SocketAddr) (io : Io)
      → (check_sender d t k c packet a io).0.metrics ≡ t.metrics
  unfolding check_sender
  check_sender-metrics t k c packet a io = ground arith

  module _ (t : TunnelV2 d) (packet : List ℕ) (a : SocketAddr) (batch : LocalMetricsBatch)
      (io : Io) where
    relay_packet-Accounts :
        (receiver_id : ℕ) → Accounts t batch (relay_packet d t receiver_id packet a batch io)
    unfolding relay_packet record_v2_tx
    relay_packet-Accounts receiver_id = ground arith

    receive_ping-Accounts : Accounts t batch (receive_ping d t packet a batch io)
    unfolding receive_ping handle_ping record_v2_tx
    receive_ping-Accounts = ground arith

    unchanged-Accounts : Accounts t batch (record { tunnel = t; batch = batch; sent = [] })
    unchanged-Accounts = ground arith

  handle_data_forward-Accounts :
      (t : TunnelV2 d) (s r : ℕ) (packet : List ℕ) (a : SocketAddr) (batch : LocalMetricsBatch)
      (io : Io)
      → Accounts t batch (handle_data_forward d t s r packet a batch io)
  unfolding handle_data_forward
  handle_data_forward-Accounts t s r packet a batch io = elim (Option-cases (get s t.mappings)) [
    | inl e ↦ rw (e, handle_data_forward) (unchanged-Accounts t packet a batch io)
    | inr (c, e) ↦
        let t' : TunnelV2 d = (check_sender d t s c packet a io).0 in
        rw (e, handle_data_forward)
          (ground (
            arith,
            check_sender-metrics t s c packet a io,
            relay_packet-Accounts t' packet a batch io r,
          ))
  ]

  on_udp_receive-Accounts :
      (t : TunnelV2 d) (packet : List ℕ) (a : SocketAddr) (batch : LocalMetricsBatch) (io : Io)
      → leb 4 (length packet) ≡ true
      → Accounts t (record_v2_rx batch (length packet)) (on_udp_receive d t packet a batch io)
  unfolding on_udp_receive dispatch_packet
  on_udp_receive-Accounts t packet a batch io long =
      let counted = record_v2_rx batch (length packet) in
      ground (
        arith,
        long,
        receive_ping-Accounts t packet a counted io,
        handle_data_forward-Accounts t (sender_of packet) (receiver_of packet) packet a counted io,
      )

  -- Packets that a worker takes.
  abbrev pub is_sized : List ℕ → Bool
  is_sized packet = leb 4 (length packet) && leb (length packet) max_packet_size

  abbrev pub taken : List (Received × Io) → ℕ
  taken [] = 0
  taken ((datagram packet addr, io) ∷ es) = if is_sized packet then suc (taken es) else taken es
  taken ((failure, io) ∷ es) = taken es

  -- The counters after `n` packets taken, from the counters `m`. What the worker has not flushed yet
  -- is less than a batch.
  pub record Counted (m : Metrics) (n : ℕ) (w : Worker d) : Type 0 where
    pub received :
        (w.tunnel.metrics.v2_packets_received + w.batch.v2_packets_rx) % u64_mod
        ≡ (m.v2_packets_received + n) % u64_mod
    pub sent :
        (w.tunnel.metrics.v2_packets_sent + w.batch.v2_packets_tx) % u64_mod
        ≡ (m.v2_packets_sent + length w.sent) % u64_mod
    pub few_received : w.batch.v2_packets_rx ≤ w.batch.counter % 64
    pub few_sent : w.batch.v2_packets_tx ≤ w.batch.counter % 64

  -- A batch and the shared counters, before and after `maybe_flush`.
  record Flushed (b b' : LocalMetricsBatch) (m m' : Metrics) : Type 0 where
    received :
        (m'.v2_packets_received + b'.v2_packets_rx) % u64_mod
        ≡ (m.v2_packets_received + b.v2_packets_rx) % u64_mod
    sent :
        (m'.v2_packets_sent + b'.v2_packets_tx) % u64_mod
        ≡ (m.v2_packets_sent + b.v2_packets_tx) % u64_mod
    few_received : b'.v2_packets_rx ≤ b'.counter % 64
    few_sent : b'.v2_packets_tx ≤ b'.counter % 64

  poured_lem : (s l : ℕ) → (poured s l + drained l) % u64_mod ≡ (s + l) % u64_mod
  poured_lem s l = ground arith

  maybe_flush-Flushed :
      (b : LocalMetricsBatch) (m : Metrics)
      → b.v2_packets_rx ≤ suc (b.counter % 64)
      → b.v2_packets_tx ≤ suc (b.counter % 64)
      → Flushed b (maybe_flush b m).0 m (maybe_flush b m).1
  unfolding maybe_flush flush
  maybe_flush-Flushed b m few few' =
      if_cases {A = LocalMetricsBatch × Metrics} (λ r. Flushed b r.0 m r.1)
        ((((b.counter + 1) % u16_mod) % flush_interval) == 0) _ _
        (λ due. record {
          received = poured_lem m.v2_packets_received b.v2_packets_rx;
          sent = poured_lem m.v2_packets_sent b.v2_packets_tx;
          few_received = ground arith;
          few_sent = ground arith;
        })
        (λ early. record {
          received = refl;
          sent = refl;
          few_received = ground (arith, early, few);
          few_sent = ground (arith, early, few');
        })

  module _ (w : Worker d) (packet : List ℕ) (o : Outcome d)
      (a : Accounts w.tunnel (record_v2_rx w.batch (length packet)) o) where
    sent_fits :
        w.batch.v2_packets_tx ≤ w.batch.counter % 64
        → o.batch.v2_packets_tx ≤ suc (o.batch.counter % 64)
    unfolding record_v2_rx
    sent_fits few = ground (arith, a.sent, a.counter, few)

    sent_counted :
        w.batch.v2_packets_tx ≤ w.batch.counter % 64
        → (o.tunnel.metrics.v2_packets_sent + o.batch.v2_packets_tx) % u64_mod
          ≡ (w.tunnel.metrics.v2_packets_sent + w.batch.v2_packets_tx + length o.sent) % u64_mod
    unfolding record_v2_rx
    sent_counted few = ground (arith, a.sent, a.shared_sent, few)

  module _ (m : Metrics) (n : ℕ) where
    round_taken :
        (w : Worker d) (packet : List ℕ) (addr : SocketAddr) (io : Io)
        → is_sized packet ≡ true
        → Counted m n w
        → Counted m (suc n) (receive_round d w (datagram packet addr, io))
    unfolding receive_round record_v2_rx
    round_taken w packet addr io sized c =
        let out = on_udp_receive d w.tunnel packet addr w.batch io in
        let a = on_udp_receive-Accounts w.tunnel packet addr w.batch io (ground (arith, sized)) in
        let more = length-append w.sent out.sent in
        let f =
          maybe_flush-Flushed out.batch out.tunnel.metrics
            (omega (arith, a.received, a.counter, c.few_received))
            (sent_fits w packet out a c.few_sent) in
        rw sized (record {
          received =
              omega (arith, f.received, a.received, a.shared_received, c.received, c.few_received);
          sent = omega (arith, f.sent, sent_counted w packet out a c.few_sent, c.sent, more);
          few_received = f.few_received;
          few_sent = f.few_sent;
        })

    round_refused :
        (w : Worker d) (packet : List ℕ) (addr : SocketAddr) (io : Io)
        → is_sized packet ≡ false
        → Counted m n w
        → Counted m n (receive_round d w (datagram packet addr, io))
    unfolding receive_round
    round_refused w packet addr io sized c = ground arith

    round_failure :
        (w : Worker d) (io : Io) → Counted m n w → Counted m n (receive_round d w (failure, io))
    unfolding receive_round flush
    round_failure w io c = ground arith

  recount : (m : Metrics) {n n' : ℕ} (w : Worker d) → n ≡ n' → Counted m n w → Counted m n' w
  recount m w p c = rw (← p) c

  receive_loop-Counted :
      (m : Metrics) (n : ℕ) (w : Worker d) (es : List (Received × Io))
      → Counted m n w
      → Counted m (n + taken es) (receive_loop d w es)
  unfolding receive_loop
  receive_loop-Counted m n w [] c = recount m w (omega arith) c
  receive_loop-Counted m n w ((datagram packet addr, io) ∷ es) c =
      elim (Bool-cases (is_sized packet)) [
        | inl sized ↦
            recount m _ (ground arith)
              (receive_loop-Counted m (suc n) _ es (round_taken m n w packet addr io sized c))
        | inr not_sized ↦
            recount m _ (ground arith)
              (receive_loop-Counted m n _ es (round_refused m n w packet addr io not_sized c))
      ]
  receive_loop-Counted m n w ((failure, io) ∷ es) c =
      receive_loop-Counted m n _ es (round_failure m n w io c)

  start : (t : TunnelV2 d) → Counted t.metrics 0 (worker_start d t)
  unfolding worker_start
  start t = record {
    received = refl;
    sent = refl;
    few_received = omega arith;
    few_sent = omega arith;
  }

  -- A V2 worker that starts on a tunnel with the counters `m` and goes through any events, receive
  -- errors included: the shared counter and its own batch together have counted, modulo 2^64, every
  -- packet of 4 to 1472 bytes as received and every datagram that it sent as sent, and fewer than 64 of
  -- each wait in the batch.
  pub v2_worker-Counted :
      (t : TunnelV2 d) (es : List (Received × Io))
      → Counted t.metrics (taken es) (receive_loop d (worker_start d t) es)
  v2_worker-Counted t es =
      recount t.metrics _ (omega arith)
        (receive_loop-Counted t.metrics 0 (worker_start d t) es (start t))
