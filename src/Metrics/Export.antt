-- ===== src/Metrics/Export.antt =====
-- `update_prometheus` of src/metrics.rs: the counters of the `prometheus` package follow the atomics.
use cncnet_server.Base.{ℕ, ◌-◌, ◌≡◌}
use cncnet_server.Base.Words.{ℤ, as_i64, add64}
use cncnet_server.Metrics.{Metrics}

-- What the code uses of the package. A counter is a u64 behind an atomic,
-- a gauge an i64.
pub record Prometheus : Type 1 where
  pub IntCounter : Type 0
  pub counter_new : IntCounter
  pub inc_by : IntCounter → ℕ → IntCounter
  pub counter_get : IntCounter → ℕ
  pub IntGauge : Type 0
  pub gauge_new : IntGauge
  pub gauge_set : IntGauge → ℤ → IntGauge
  pub gauge_get : IntGauge → ℤ
  pub counter_get-new : counter_get counter_new ≡ 0
  pub counter_get-inc_by :
      (c : IntCounter) (n : ℕ) → counter_get (inc_by c n) ≡ add64 (counter_get c) n
  pub gauge_get-set : (g : IntGauge) (n : ℤ) → gauge_get (gauge_set g n) ≡ n

module _ (p : Prometheus) where
  open p use {IntCounter, counter_new, inc_by, IntGauge, gauge_new, gauge_set}

  -- A `last_…` field and the `prom_…` counter that goes with it.
  pub record Channel : Type 0 where
    pub last : ℕ
    pub prom : IntCounter

  abbrev pub channel_new : Channel
  channel_new = record { last = 0; prom = counter_new }

  -- `last.swap(value)`, which gives the value before.
  unfoldable pub swap : Channel → ℕ → Channel × ℕ
  swap c value = (record c { last = value }, c.last)

  -- `prom.inc_by(value.saturating_sub(prev))`
  unfoldable pub credit : Channel → ℕ → ℕ → Channel
  credit c value prev = record c { prom = inc_by c.prom (value - prev) }

  -- The swap and the increment of one counter.
  unfoldable pub export_channel : ℕ → Channel → Channel
  export_channel value c = let (c', prev) = swap c value in credit c' value prev

  pub record Exporter : Type 0 where
    pub v3_packets_received : Channel
    pub v3_packets_sent : Channel
    pub v3_bytes_received : Channel
    pub v3_bytes_sent : Channel
    pub v2_packets_received : Channel
    pub v2_packets_sent : Channel
    pub v2_http_requests : Channel
    pub rate_limit_hits : Channel
    pub dropped_packets : Channel
    pub dropped_connections : Channel
    pub v3_active_clients : IntGauge
    pub v2_active_clients : IntGauge
    pub uptime_seconds : IntGauge

  abbrev pub exporter_new : Exporter
  exporter_new = record {
    v3_packets_received = channel_new;
    v3_packets_sent = channel_new;
    v3_bytes_received = channel_new;
    v3_bytes_sent = channel_new;
    v2_packets_received = channel_new;
    v2_packets_sent = channel_new;
    v2_http_requests = channel_new;
    rate_limit_hits = channel_new;
    dropped_packets = channel_new;
    dropped_connections = channel_new;
    v3_active_clients = gauge_new;
    v2_active_clients = gauge_new;
    uptime_seconds = gauge_new;
  }

  unfoldable pub update_prometheus : Metrics → ℕ → Exporter → Exporter
  update_prometheus m elapsed_secs e = record {
    v3_packets_received = export_channel m.v3_packets_received e.v3_packets_received;
    v3_packets_sent = export_channel m.v3_packets_sent e.v3_packets_sent;
    v3_bytes_received = export_channel m.v3_bytes_received e.v3_bytes_received;
    v3_bytes_sent = export_channel m.v3_bytes_sent e.v3_bytes_sent;
    v2_packets_received = export_channel m.v2_packets_received e.v2_packets_received;
    v2_packets_sent = export_channel m.v2_packets_sent e.v2_packets_sent;
    v2_http_requests = export_channel m.v2_http_requests e.v2_http_requests;
    rate_limit_hits = export_channel m.rate_limit_hits e.rate_limit_hits;
    dropped_packets = export_channel m.dropped_packets e.dropped_packets;
    dropped_connections = export_channel m.dropped_connections e.dropped_connections;
    v3_active_clients = gauge_set e.v3_active_clients (as_i64 m.v3_active_clients);
    v2_active_clients = gauge_set e.v2_active_clients (as_i64 m.v2_active_clients);
    uptime_seconds = gauge_set e.uptime_seconds (as_i64 elapsed_secs);
  }
