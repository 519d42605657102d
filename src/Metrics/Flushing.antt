-- ===== src/Metrics/Flushing.antt =====
-- How `flush` and `maybe_flush` of src/metrics.rs relate a batch to the counters it flushes into.
use cncnet_server.Base.{
  ℕ, ◌+◌, ◌*◌, ◌%◌, ◌≤◌, ◌<◌, ◌≡◌, refl, false, none, some, List, [], ◌∷◌, ◌==◌, if_cases, arith,
}
use cncnet_server.Base.Words.{u64_mod, u16_mod}
use cncnet_server.Metrics.{
  Metrics, LocalMetricsBatch, batch_new, record_v3_rx, record_v3_tx, record_v2_rx, record_v2_tx,
  flush, maybe_flush, drained, flush_interval,
}
use cncnet_server.Metrics.Batch.{
  Record, v3_rx, v3_tx, v2_rx, v2_tx, Turn, handled, failed, noted, turn, batched, counted,
  counted_turn, counted_each, Level, Level-poured, poured-direct, Levels, AtMost, noted-AtMost,
  noted-Levels,
}

flush-Levels :
    (b : LocalMetricsBatch) (m r : Metrics) → Levels b m r → Levels (flush b m).0 (flush b m).1 r
unfolding flush
flush-Levels b m r v = record {
  v3_packets_rx = Level-poured _ _ _ v.v3_packets_rx;
  v3_packets_tx = Level-poured _ _ _ v.v3_packets_tx;
  v3_bytes_rx = Level-poured _ _ _ v.v3_bytes_rx;
  v3_bytes_tx = Level-poured _ _ _ v.v3_bytes_tx;
  v2_packets_rx = Level-poured _ _ _ v.v2_packets_rx;
  v2_packets_tx = Level-poured _ _ _ v.v2_packets_tx;
  v2_bytes_rx = Level-poured _ _ _ v.v2_bytes_rx;
  v2_bytes_tx = Level-poured _ _ _ v.v2_bytes_tx;
}

drained_none : (l n : ℕ) → drained l ≤ n
drained_none l n = ground arith

flush-AtMost : (n : ℕ) (b : LocalMetricsBatch) (m : Metrics) → AtMost n (flush b m).0
unfolding flush
flush-AtMost n b m = record {
  v3_packets_rx = drained_none b.v3_packets_rx n;
  v3_packets_tx = drained_none b.v3_packets_tx n;
  v2_packets_rx = drained_none b.v2_packets_rx n;
  v2_packets_tx = drained_none b.v2_packets_tx n;
}

-- A batch before a round: its packets are at most two for each round since the last flush.
record Pending (b : LocalMetricsBatch) (m r : Metrics) : Type 0 where
  levels : Levels b m r
  few : AtMost (2 * (b.counter % 64)) b

counter_next :
    (c : ℕ)
    → ((((c + 1) % u16_mod) % flush_interval) == 0) ≡ false
    → 2 * (c % 64) + 2 ≤ 2 * (((c + 1) % u16_mod) % 64)
counter_next c more = ground arith

-- `maybe_flush` after a round of at most two packets.
maybe_flush-Pending :
    (b : LocalMetricsBatch) (m r : Metrics)
    → Levels b m r
    → AtMost (2 * (b.counter % 64) + 2) b
    → Pending (maybe_flush b m).0 (maybe_flush b m).1 r
unfolding maybe_flush
maybe_flush-Pending b m r v h =
    let counter = (b.counter + 1) % u16_mod in
    let b' : LocalMetricsBatch = record b { counter = counter } in
    let v' : Levels b' m r = record {
      v3_packets_rx = v.v3_packets_rx;
      v3_packets_tx = v.v3_packets_tx;
      v3_bytes_rx = v.v3_bytes_rx;
      v3_bytes_tx = v.v3_bytes_tx;
      v2_packets_rx = v.v2_packets_rx;
      v2_packets_tx = v.v2_packets_tx;
      v2_bytes_rx = v.v2_bytes_rx;
      v2_bytes_tx = v.v2_bytes_tx;
    } in
    if_cases {A = LocalMetricsBatch × Metrics} (λ x. Pending x.0 x.1 r)
      ((counter % flush_interval) == 0) _ _
      (λ _. record { levels = flush-Levels b' m r v'; few = flush-AtMost _ b' m })
      (λ more. record {
        levels = v';
        few =
            let next = counter_next b.counter more in
            record {
              v3_packets_rx = omega (arith, h.v3_packets_rx, next);
              v3_packets_tx = omega (arith, h.v3_packets_tx, next);
              v2_packets_rx = omega (arith, h.v2_packets_rx, next);
              v2_packets_tx = omega (arith, h.v2_packets_tx, next);
            };
      })

AtMost-le : (n k : ℕ) (b : LocalMetricsBatch) → n ≤ k → AtMost n b → AtMost k b
AtMost-le n k b le h = record {
  v3_packets_rx = omega (arith, le, h.v3_packets_rx);
  v3_packets_tx = omega (arith, le, h.v3_packets_tx);
  v2_packets_rx = omega (arith, le, h.v2_packets_rx);
  v2_packets_tx = omega (arith, le, h.v2_packets_tx);
}

noted-counter : (x : Record) (b : LocalMetricsBatch) → (noted x b).counter ≡ b.counter
unfolding record_v3_rx record_v3_tx record_v2_rx record_v2_tx
noted-counter (v3_rx n) b = refl
noted-counter (v3_tx n) b = refl
noted-counter (v2_rx n) b = refl
noted-counter (v2_tx n) b = refl

small : (c : ℕ) → 2 * (c % 64) + 1 ≤ 1000
small c = omega arith

turn-Pending :
    (t : Turn) (b : LocalMetricsBatch) (m r : Metrics)
    → Pending b m r
    → Pending (turn t b m).0 (turn t b m).1 (counted_turn t r)
turn-Pending (handled x none) b m r v =
    let n = 2 * (b.counter % 64) in
    maybe_flush-Pending (noted x b) m (counted x r)
      (noted-Levels x n b m r (omega (arith, small b.counter)) v.few v.levels)
      (AtMost-le (n + 1) _ (noted x b) (rw (noted-counter x b) (omega arith))
        (noted-AtMost x n b v.few))
turn-Pending (handled x (some y)) b m r v =
    let n = 2 * (b.counter % 64) in
    let once = noted-AtMost x n b v.few in
    let level = noted-Levels x n b m r (omega (arith, small b.counter)) v.few v.levels in
    maybe_flush-Pending (noted y (noted x b)) m (counted y (counted x r))
      (noted-Levels y (n + 1) (noted x b) m (counted x r) (small b.counter) once level)
      (AtMost-le (n + 1 + 1) _ (noted y (noted x b))
        (rw (noted-counter y (noted x b), noted-counter x b) (omega arith))
        (noted-AtMost y (n + 1) (noted x b) once))
turn-Pending failed b m r v = record {
  levels = flush-Levels b m r v.levels;
  few = flush-AtMost _ b m;
}

batched-Pending :
    (ts : List Turn) (b : LocalMetricsBatch) (m r : Metrics)
    → Pending b m r
    → Pending (batched ts b m).0 (batched ts b m).1 (counted_each ts r)
unfolding batched
batched-Pending [] b m r v = v
batched-Pending (t ∷ ts) b m r v =
    batched-Pending ts (turn t b m).0 (turn t b m).1 (counted_turn t r) (turn-Pending t b m r v)

-- The eight counters that batches go to are words of 64 bits.
pub record AreWords (m : Metrics) : Type 0 where
  pub v3_packets_received : m.v3_packets_received < u64_mod
  pub v3_packets_sent : m.v3_packets_sent < u64_mod
  pub v3_bytes_received : m.v3_bytes_received < u64_mod
  pub v3_bytes_sent : m.v3_bytes_sent < u64_mod
  pub v2_packets_received : m.v2_packets_received < u64_mod
  pub v2_packets_sent : m.v2_packets_sent < u64_mod
  pub v2_bytes_received : m.v2_bytes_received < u64_mod
  pub v2_bytes_sent : m.v2_bytes_sent < u64_mod

pub record SameTraffic (m r : Metrics) : Type 0 where
  pub v3_packets_received : m.v3_packets_received ≡ r.v3_packets_received
  pub v3_packets_sent : m.v3_packets_sent ≡ r.v3_packets_sent
  pub v3_bytes_received : m.v3_bytes_received ≡ r.v3_bytes_received
  pub v3_bytes_sent : m.v3_bytes_sent ≡ r.v3_bytes_sent
  pub v2_packets_received : m.v2_packets_received ≡ r.v2_packets_received
  pub v2_packets_sent : m.v2_packets_sent ≡ r.v2_packets_sent
  pub v2_bytes_received : m.v2_bytes_received ≡ r.v2_bytes_received
  pub v2_bytes_sent : m.v2_bytes_sent ≡ r.v2_bytes_sent

Level-nothing : (s : ℕ) → s < u64_mod → Level s 0 s
Level-nothing s h = record { together = omega (arith, h); fits = h }

start-Pending : (m : Metrics) → AreWords m → Pending batch_new m m
start-Pending m h = record {
  levels = record {
    v3_packets_rx = Level-nothing _ h.v3_packets_received;
    v3_packets_tx = Level-nothing _ h.v3_packets_sent;
    v3_bytes_rx = Level-nothing _ h.v3_bytes_received;
    v3_bytes_tx = Level-nothing _ h.v3_bytes_sent;
    v2_packets_rx = Level-nothing _ h.v2_packets_received;
    v2_packets_tx = Level-nothing _ h.v2_packets_sent;
    v2_bytes_rx = Level-nothing _ h.v2_bytes_received;
    v2_bytes_tx = Level-nothing _ h.v2_bytes_sent;
  };
  few = record {
    v3_packets_rx = omega arith;
    v3_packets_tx = omega arith;
    v2_packets_rx = omega arith;
    v2_packets_tx = omega arith;
  };
}

-- From a new batch, through any rounds of one or two packets with `maybe_flush` after each, and errors
-- with `flush`: after one more flush, all eight counters of packets and bytes are what they would be if
-- every packet had been added to them at once, modulo 2^64, although the counters of packets in the
-- batch have 32 bits and its counter of rounds 16.
pub batched-SameTraffic :
    (ts : List Turn) (m : Metrics)
    → AreWords m
    → let (b, m') = batched ts batch_new m in SameTraffic (flush b m').1 (counted_each ts m)
unfolding flush
batched-SameTraffic ts m h =
    let v = (batched-Pending ts batch_new m m (start-Pending m h)).levels in
    record {
      v3_packets_received = poured-direct _ _ _ v.v3_packets_rx;
      v3_packets_sent = poured-direct _ _ _ v.v3_packets_tx;
      v3_bytes_received = poured-direct _ _ _ v.v3_bytes_rx;
      v3_bytes_sent = poured-direct _ _ _ v.v3_bytes_tx;
      v2_packets_received = poured-direct _ _ _ v.v2_packets_rx;
      v2_packets_sent = poured-direct _ _ _ v.v2_packets_tx;
      v2_bytes_received = poured-direct _ _ _ v.v2_bytes_rx;
      v2_bytes_sent = poured-direct _ _ _ v.v2_bytes_tx;
    }
