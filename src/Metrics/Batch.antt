-- ===== src/Metrics/Batch.antt =====
-- The batches of src/metrics.rs, compared with counting every packet at once.
use cncnet_server.Base.{ℕ, ◌+◌, ◌%◌, ◌≤◌, ◌<◌, ◌≡◌, Option, none, some, List, [], ◌∷◌, arith}
use cncnet_server.Base.Words.{add32, add64, u64_mod}
use cncnet_server.Metrics.{
  Metrics, LocalMetricsBatch, record_v3_rx, record_v3_tx, record_v2_rx, record_v2_tx, flush,
  maybe_flush, poured, drained,
}

-- A call of one of the four `record_…` functions, with the number of bytes.
pub data Record : Type 0 where
  v3_rx v3_tx v2_rx v2_tx : ℕ → Record

-- A round of a receive loop: a packet that is counted, perhaps another that is sent, and `maybe_flush`;
-- or an error, and `flush`.
pub data Turn : Type 0 where
  handled : Record → Option Record → Turn
  failed : Turn

abbrev pub noted : Record → LocalMetricsBatch → LocalMetricsBatch
noted (v3_rx n) b = record_v3_rx b n
noted (v3_tx n) b = record_v3_tx b n
noted (v2_rx n) b = record_v2_rx b n
noted (v2_tx n) b = record_v2_tx b n

abbrev pub noted_if : Option Record → LocalMetricsBatch → LocalMetricsBatch
noted_if none b = b
noted_if (some r) b = noted r b

abbrev pub turn : Turn → LocalMetricsBatch → Metrics → LocalMetricsBatch × Metrics
turn (handled r s) b m = maybe_flush (noted_if s (noted r b)) m
turn failed b m = flush b m

unfoldable pub batched : List Turn → LocalMetricsBatch → Metrics → LocalMetricsBatch × Metrics
batched [] b m = (b, m)
batched (t ∷ ts) b m = let (b', m') = turn t b m in batched ts b' m'

-- Counting at once: a `fetch_add` of the packet and of its bytes.
abbrev pub counted : Record → Metrics → Metrics
counted (v3_rx n) m = record m {
  v3_packets_received = add64 m.v3_packets_received 1;
  v3_bytes_received = add64 m.v3_bytes_received n;
}
counted (v3_tx n) m = record m {
  v3_packets_sent = add64 m.v3_packets_sent 1;
  v3_bytes_sent = add64 m.v3_bytes_sent n;
}
counted (v2_rx n) m = record m {
  v2_packets_received = add64 m.v2_packets_received 1;
  v2_bytes_received = add64 m.v2_bytes_received n;
}
counted (v2_tx n) m = record m {
  v2_packets_sent = add64 m.v2_packets_sent 1;
  v2_bytes_sent = add64 m.v2_bytes_sent n;
}

abbrev pub counted_turn : Turn → Metrics → Metrics
counted_turn (handled r none) m = counted r m
counted_turn (handled r (some s)) m = counted s (counted r m)
counted_turn failed m = m

abbrev pub counted_each : List Turn → Metrics → Metrics
counted_each [] m = m
counted_each (t ∷ ts) m = counted_each ts (counted_turn t m)

-- A shared and a local counter that make up a third together.
pub record Level (shared local direct : ℕ) : Type 0 where
  pub together : (shared + local) % u64_mod ≡ direct
  pub fits : shared < u64_mod

Level-add64 : (s l r n : ℕ) → Level s l r → Level s (add64 l n) (add64 r n)
Level-add64 s l r n v = record { together = omega (arith, v.together); fits = v.fits }

Level-add32 : (s l r : ℕ) → l ≤ 1000 → Level s l r → Level s (add32 l 1) (add64 r 1)
Level-add32 s l r few v = record { together = omega (arith, v.together, few); fits = v.fits }

pub Level-poured : (s l r : ℕ) → Level s l r → Level (poured s l) (drained l) r
Level-poured s l r v = record {
  together = ground (arith, v.together);
  fits = ground (arith, v.fits);
}

pub poured-direct : (s l r : ℕ) → Level s l r → poured s l ≡ r
poured-direct s l r v = ground (arith, v.together, v.fits)

-- All eight counters.
pub record Levels (b : LocalMetricsBatch) (m r : Metrics) : Type 0 where
  pub v3_packets_rx : Level m.v3_packets_received b.v3_packets_rx r.v3_packets_received
  pub v3_packets_tx : Level m.v3_packets_sent b.v3_packets_tx r.v3_packets_sent
  pub v3_bytes_rx : Level m.v3_bytes_received b.v3_bytes_rx r.v3_bytes_received
  pub v3_bytes_tx : Level m.v3_bytes_sent b.v3_bytes_tx r.v3_bytes_sent
  pub v2_packets_rx : Level m.v2_packets_received b.v2_packets_rx r.v2_packets_received
  pub v2_packets_tx : Level m.v2_packets_sent b.v2_packets_tx r.v2_packets_sent
  pub v2_bytes_rx : Level m.v2_bytes_received b.v2_bytes_rx r.v2_bytes_received
  pub v2_bytes_tx : Level m.v2_bytes_sent b.v2_bytes_tx r.v2_bytes_sent

-- No counter of packets is above a number.
pub record AtMost (n : ℕ) (b : LocalMetricsBatch) : Type 0 where
  pub v3_packets_rx : b.v3_packets_rx ≤ n
  pub v3_packets_tx : b.v3_packets_tx ≤ n
  pub v2_packets_rx : b.v2_packets_rx ≤ n
  pub v2_packets_tx : b.v2_packets_tx ≤ n

pub noted-AtMost :
    (r : Record) (n : ℕ) (b : LocalMetricsBatch) → AtMost n b → AtMost (n + 1) (noted r b)
unfolding record_v3_rx record_v3_tx record_v2_rx record_v2_tx
noted-AtMost (v3_rx k) n b h = ground arith
noted-AtMost (v3_tx k) n b h = ground arith
noted-AtMost (v2_rx k) n b h = ground arith
noted-AtMost (v2_tx k) n b h = ground arith

pub noted-Levels :
    (x : Record) (n : ℕ) (b : LocalMetricsBatch) (m r : Metrics)
    → n ≤ 1000
    → AtMost n b
    → Levels b m r
    → Levels (noted x b) m (counted x r)
unfolding record_v3_rx record_v3_tx record_v2_rx record_v2_tx
noted-Levels (v3_rx k) n b m r few h v = record {
  v3_packets_rx = Level-add32 _ _ _ (omega (arith, few, h.v3_packets_rx)) v.v3_packets_rx;
  v3_packets_tx = v.v3_packets_tx;
  v3_bytes_rx = Level-add64 _ _ _ k v.v3_bytes_rx;
  v3_bytes_tx = v.v3_bytes_tx;
  v2_packets_rx = v.v2_packets_rx;
  v2_packets_tx = v.v2_packets_tx;
  v2_bytes_rx = v.v2_bytes_rx;
  v2_bytes_tx = v.v2_bytes_tx;
}
noted-Levels (v3_tx k) n b m r few h v = record {
  v3_packets_rx = v.v3_packets_rx;
  v3_packets_tx = Level-add32 _ _ _ (omega (arith, few, h.v3_packets_tx)) v.v3_packets_tx;
  v3_bytes_rx = v.v3_bytes_rx;
  v3_bytes_tx = Level-add64 _ _ _ k v.v3_bytes_tx;
  v2_packets_rx = v.v2_packets_rx;
  v2_packets_tx = v.v2_packets_tx;
  v2_bytes_rx = v.v2_bytes_rx;
  v2_bytes_tx = v.v2_bytes_tx;
}
noted-Levels (v2_rx k) n b m r few h v = record {
  v3_packets_rx = v.v3_packets_rx;
  v3_packets_tx = v.v3_packets_tx;
  v3_bytes_rx = v.v3_bytes_rx;
  v3_bytes_tx = v.v3_bytes_tx;
  v2_packets_rx = Level-add32 _ _ _ (omega (arith, few, h.v2_packets_rx)) v.v2_packets_rx;
  v2_packets_tx = v.v2_packets_tx;
  v2_bytes_rx = Level-add64 _ _ _ k v.v2_bytes_rx;
  v2_bytes_tx = v.v2_bytes_tx;
}
noted-Levels (v2_tx k) n b m r few h v = record {
  v3_packets_rx = v.v3_packets_rx;
  v3_packets_tx = v.v3_packets_tx;
  v3_bytes_rx = v.v3_bytes_rx;
  v3_bytes_tx = v.v3_bytes_tx;
  v2_packets_rx = v.v2_packets_rx;
  v2_packets_tx = Level-add32 _ _ _ (omega (arith, few, h.v2_packets_tx)) v.v2_packets_tx;
  v2_bytes_rx = v.v2_bytes_rx;
  v2_bytes_tx = Level-add64 _ _ _ k v.v2_bytes_tx;
}
