-- ===== src/Metrics.antt =====
-- src/metrics.rs: the shared counters, and the batch that each worker keeps of its own. An atomic is
-- a number that wraps as its type does.
pub mod Export
pub mod Batch
pub mod Flushing
pub mod Exact
pub mod Race
pub mod Tests
use cncnet_server.Base.{ℕ, ◌+◌, ◌%◌, ltb, ◌==◌, if◌then◌else◌}
use cncnet_server.Base.Words.{add64, add32, u16_mod}

-- The public atomics.
pub record Metrics : Type 0 where
  pub v3_packets_received : ℕ
  pub v3_packets_sent : ℕ
  pub v3_bytes_received : ℕ
  pub v3_bytes_sent : ℕ
  pub v3_active_clients : ℕ
  pub v3_ping_requests : ℕ
  pub v2_packets_received : ℕ
  pub v2_packets_sent : ℕ
  pub v2_bytes_received : ℕ
  pub v2_bytes_sent : ℕ
  pub v2_active_clients : ℕ
  pub v2_http_requests : ℕ
  pub v2_ping_requests : ℕ
  pub p2p_requests : ℕ
  pub p2p_responses : ℕ
  pub rate_limit_hits : ℕ
  pub dropped_packets : ℕ
  pub dropped_connections : ℕ
  pub invalid_packets : ℕ

-- The part of `Metrics::new` that sets the public atomics.
abbrev pub metrics_new : Metrics
metrics_new = record {
  v3_packets_received = 0;
  v3_packets_sent = 0;
  v3_bytes_received = 0;
  v3_bytes_sent = 0;
  v3_active_clients = 0;
  v3_ping_requests = 0;
  v2_packets_received = 0;
  v2_packets_sent = 0;
  v2_bytes_received = 0;
  v2_bytes_sent = 0;
  v2_active_clients = 0;
  v2_http_requests = 0;
  v2_ping_requests = 0;
  p2p_requests = 0;
  p2p_responses = 0;
  rate_limit_hits = 0;
  dropped_packets = 0;
  dropped_connections = 0;
  invalid_packets = 0;
}

pub record LocalMetricsBatch : Type 0 where
  pub v3_packets_rx : ℕ
  pub v3_packets_tx : ℕ
  pub v3_bytes_rx : ℕ
  pub v3_bytes_tx : ℕ
  pub v2_packets_rx : ℕ
  pub v2_packets_tx : ℕ
  pub v2_bytes_rx : ℕ
  pub v2_bytes_tx : ℕ
  pub counter : ℕ

abbrev pub flush_interval : ℕ
flush_interval = 64

abbrev pub batch_new : LocalMetricsBatch
batch_new = record {
  v3_packets_rx = 0;
  v3_packets_tx = 0;
  v3_bytes_rx = 0;
  v3_bytes_tx = 0;
  v2_packets_rx = 0;
  v2_packets_tx = 0;
  v2_bytes_rx = 0;
  v2_bytes_tx = 0;
  counter = 0;
}

unfoldable pub record_v3_rx : LocalMetricsBatch → ℕ → LocalMetricsBatch
record_v3_rx b bytes = record b {
  v3_packets_rx = add32 b.v3_packets_rx 1;
  v3_bytes_rx = add64 b.v3_bytes_rx bytes;
}

unfoldable pub record_v3_tx : LocalMetricsBatch → ℕ → LocalMetricsBatch
record_v3_tx b bytes = record b {
  v3_packets_tx = add32 b.v3_packets_tx 1;
  v3_bytes_tx = add64 b.v3_bytes_tx bytes;
}

unfoldable pub record_v2_rx : LocalMetricsBatch → ℕ → LocalMetricsBatch
record_v2_rx b bytes = record b {
  v2_packets_rx = add32 b.v2_packets_rx 1;
  v2_bytes_rx = add64 b.v2_bytes_rx bytes;
}

unfoldable pub record_v2_tx : LocalMetricsBatch → ℕ → LocalMetricsBatch
record_v2_tx b bytes = record b {
  v2_packets_tx = add32 b.v2_packets_tx 1;
  v2_bytes_tx = add64 b.v2_bytes_tx bytes;
}

-- One block of `flush`: what becomes of the shared counter, and of the local one.
abbrev pub poured : ℕ → ℕ → ℕ
poured shared local = if ltb 0 local then add64 shared local else shared

abbrev pub drained : ℕ → ℕ
drained local = if ltb 0 local then 0 else local

unfoldable pub flush : LocalMetricsBatch → Metrics → LocalMetricsBatch × Metrics
flush b m = (
  record b {
    v3_packets_rx = drained b.v3_packets_rx;
    v3_packets_tx = drained b.v3_packets_tx;
    v3_bytes_rx = drained b.v3_bytes_rx;
    v3_bytes_tx = drained b.v3_bytes_tx;
    v2_packets_rx = drained b.v2_packets_rx;
    v2_packets_tx = drained b.v2_packets_tx;
    v2_bytes_rx = drained b.v2_bytes_rx;
    v2_bytes_tx = drained b.v2_bytes_tx;
  },
  record m {
    v3_packets_received = poured m.v3_packets_received b.v3_packets_rx;
    v3_packets_sent = poured m.v3_packets_sent b.v3_packets_tx;
    v3_bytes_received = poured m.v3_bytes_received b.v3_bytes_rx;
    v3_bytes_sent = poured m.v3_bytes_sent b.v3_bytes_tx;
    v2_packets_received = poured m.v2_packets_received b.v2_packets_rx;
    v2_packets_sent = poured m.v2_packets_sent b.v2_packets_tx;
    v2_bytes_received = poured m.v2_bytes_received b.v2_bytes_rx;
    v2_bytes_sent = poured m.v2_bytes_sent b.v2_bytes_tx;
  },
)

unfoldable pub maybe_flush : LocalMetricsBatch → Metrics → LocalMetricsBatch × Metrics
maybe_flush b m =
    let counter = (b.counter + 1) % u16_mod in
    let b' : LocalMetricsBatch = record b { counter = counter } in
    if (counter % flush_interval) == 0 then flush b' m else (b', m)
