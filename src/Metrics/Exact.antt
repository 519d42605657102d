-- ===== src/Metrics/Exact.antt =====
-- Exports of src/metrics.rs, one at a time, and the counters they show.
use cncnet_server.Base.{ℕ, ◌-◌, ◌≤◌, ◌<◌, ◌≡◌, refl, List, [], ◌∷◌, arith}
use cncnet_server.Base.Words.{u64_mod, as_i64}
use cncnet_server.Metrics.{Metrics, metrics_new}
use cncnet_server.Metrics.Export.{
  Prometheus, Channel, channel_new, swap, credit, export_channel, Exporter, exporter_new,
  update_prometheus,
}

-- The counters that are exported have not gone down, and have not wrapped.
pub record Grows (m m' : Metrics) : Type 0 where
  pub v3_packets_received :
      (m.v3_packets_received ≤ m'.v3_packets_received) × (m'.v3_packets_received < u64_mod)
  pub v3_packets_sent : (m.v3_packets_sent ≤ m'.v3_packets_sent) × (m'.v3_packets_sent < u64_mod)
  pub v3_bytes_received :
      (m.v3_bytes_received ≤ m'.v3_bytes_received) × (m'.v3_bytes_received < u64_mod)
  pub v3_bytes_sent : (m.v3_bytes_sent ≤ m'.v3_bytes_sent) × (m'.v3_bytes_sent < u64_mod)
  pub v2_packets_received :
      (m.v2_packets_received ≤ m'.v2_packets_received) × (m'.v2_packets_received < u64_mod)
  pub v2_packets_sent : (m.v2_packets_sent ≤ m'.v2_packets_sent) × (m'.v2_packets_sent < u64_mod)
  pub v2_http_requests :
      (m.v2_http_requests ≤ m'.v2_http_requests) × (m'.v2_http_requests < u64_mod)
  pub rate_limit_hits : (m.rate_limit_hits ≤ m'.rate_limit_hits) × (m'.rate_limit_hits < u64_mod)
  pub dropped_packets : (m.dropped_packets ≤ m'.dropped_packets) × (m'.dropped_packets < u64_mod)
  pub dropped_connections :
      (m.dropped_connections ≤ m'.dropped_connections) × (m'.dropped_connections < u64_mod)

-- From one export to the next.
abbrev pub AllGrow : Metrics → List (Metrics × ℕ) → Type 0
AllGrow m [] = Unit
AllGrow m ((m', elapsed) ∷ l) = Grows m m' × AllGrow m' l

-- The counters at the last export.
abbrev pub final : Metrics → List (Metrics × ℕ) → Metrics
final m [] = m
final m ((m', elapsed) ∷ l) = final m' l

module _ (p : Prometheus) where
  open p use {counter_get, gauge_get, counter_get-new, counter_get-inc_by, gauge_get-set}

  -- A Prometheus counter that shows `value`, remembered as the last value exported.
  pub record Shows (value : ℕ) (c : Channel p) : Type 0 where
    pub prom : counter_get c.prom ≡ value
    pub last : c.last ≡ value

  pub export_channel-Shows :
      (value value' : ℕ) (c : Channel p)
      → (value ≤ value') × (value' < u64_mod)
      → Shows value c
      → Shows value' (export_channel p value' c)
  unfolding export_channel swap credit
  export_channel-Shows value value' c grows s = record {
    prom = ground (arith, counter_get-inc_by c.prom (value' - c.last), s.prom, s.last, grows);
    last = refl;
  }

  -- Every Prometheus counter shows the value that its atomic had.
  pub record Exact (m : Metrics) (e : Exporter p) : Type 0 where
    pub v3_packets_received : Shows m.v3_packets_received e.v3_packets_received
    pub v3_packets_sent : Shows m.v3_packets_sent e.v3_packets_sent
    pub v3_bytes_received : Shows m.v3_bytes_received e.v3_bytes_received
    pub v3_bytes_sent : Shows m.v3_bytes_sent e.v3_bytes_sent
    pub v2_packets_received : Shows m.v2_packets_received e.v2_packets_received
    pub v2_packets_sent : Shows m.v2_packets_sent e.v2_packets_sent
    pub v2_http_requests : Shows m.v2_http_requests e.v2_http_requests
    pub rate_limit_hits : Shows m.rate_limit_hits e.rate_limit_hits
    pub dropped_packets : Shows m.dropped_packets e.dropped_packets
    pub dropped_connections : Shows m.dropped_connections e.dropped_connections

  -- And every gauge, as the i64 that the value is cast to: itself, as long as it is below 2^63.
  pub record Gauges (m : Metrics) (elapsed : ℕ) (e : Exporter p) : Type 0 where
    pub v3_active_clients : gauge_get e.v3_active_clients ≡ as_i64 m.v3_active_clients
    pub v2_active_clients : gauge_get e.v2_active_clients ≡ as_i64 m.v2_active_clients
    pub uptime_seconds : gauge_get e.uptime_seconds ≡ as_i64 elapsed

  update_prometheus-Exact :
      (m m' : Metrics) (elapsed : ℕ) (e : Exporter p)
      → Grows m m'
      → Exact m e
      → Exact m' (update_prometheus p m' elapsed e)
  unfolding update_prometheus
  update_prometheus-Exact m m' elapsed e g x = record {
    v3_packets_received =
        export_channel-Shows m.v3_packets_received m'.v3_packets_received e.v3_packets_received
          g.v3_packets_received x.v3_packets_received;
    v3_packets_sent =
        export_channel-Shows m.v3_packets_sent m'.v3_packets_sent e.v3_packets_sent
          g.v3_packets_sent x.v3_packets_sent;
    v3_bytes_received =
        export_channel-Shows m.v3_bytes_received m'.v3_bytes_received e.v3_bytes_received
          g.v3_bytes_received x.v3_bytes_received;
    v3_bytes_sent =
        export_channel-Shows m.v3_bytes_sent m'.v3_bytes_sent e.v3_bytes_sent g.v3_bytes_sent
          x.v3_bytes_sent;
    v2_packets_received =
        export_channel-Shows m.v2_packets_received m'.v2_packets_received e.v2_packets_received
          g.v2_packets_received x.v2_packets_received;
    v2_packets_sent =
        export_channel-Shows m.v2_packets_sent m'.v2_packets_sent e.v2_packets_sent
          g.v2_packets_sent x.v2_packets_sent;
    v2_http_requests =
        export_channel-Shows m.v2_http_requests m'.v2_http_requests e.v2_http_requests
          g.v2_http_requests x.v2_http_requests;
    rate_limit_hits =
        export_channel-Shows m.rate_limit_hits m'.rate_limit_hits e.rate_limit_hits
          g.rate_limit_hits x.rate_limit_hits;
    dropped_packets =
        export_channel-Shows m.dropped_packets m'.dropped_packets e.dropped_packets
          g.dropped_packets x.dropped_packets;
    dropped_connections =
        export_channel-Shows m.dropped_connections m'.dropped_connections e.dropped_connections
          g.dropped_connections x.dropped_connections;
  }

  update_prometheus-Gauges :
      (m : Metrics) (elapsed : ℕ) (e : Exporter p)
      → Gauges m elapsed (update_prometheus p m elapsed e)
  unfolding update_prometheus
  update_prometheus-Gauges m elapsed e = record {
    v3_active_clients = gauge_get-set e.v3_active_clients (as_i64 m.v3_active_clients);
    v2_active_clients = gauge_get-set e.v2_active_clients (as_i64 m.v2_active_clients);
    uptime_seconds = gauge_get-set e.uptime_seconds (as_i64 elapsed);
  }

  -- One export after the other.
  unfoldable pub export_each : List (Metrics × ℕ) → Exporter p → Exporter p
  export_each [] e = e
  export_each ((m, elapsed) ∷ l) e = export_each l (update_prometheus p m elapsed e)

  exports-Exact :
      (m : Metrics) (l : List (Metrics × ℕ)) (e : Exporter p)
      → AllGrow m l
      → Exact m e
      → Exact (final m l) (export_each l e)
  unfolding export_each
  exports-Exact m [] e g x = x
  exports-Exact m ((m', elapsed) ∷ l) e g x =
      exports-Exact m' l _ g.1 (update_prometheus-Exact m m' elapsed e g.0 x)

  start-Shows : Shows 0 (channel_new p)
  start-Shows = record { prom = counter_get-new; last = refl }

  new-Exact : Exact metrics_new (exporter_new p)
  new-Exact = record {
    v3_packets_received = start-Shows;
    v3_packets_sent = start-Shows;
    v3_bytes_received = start-Shows;
    v3_bytes_sent = start-Shows;
    v2_packets_received = start-Shows;
    v2_packets_sent = start-Shows;
    v2_http_requests = start-Shows;
    rate_limit_hits = start-Shows;
    dropped_packets = start-Shows;
    dropped_connections = start-Shows;
  }

  -- From the start, after any number of exports, one after the other, of counters that have not gone
  -- down between two exports and stay below 2^64: after one more, every Prometheus counter shows exactly
  -- the value of its atomic, although each export only adds a difference, and every gauge its value cast
  -- to an i64.
  pub export_each-Exact :
      (l : List (Metrics × ℕ)) (m : Metrics) (elapsed : ℕ)
      → AllGrow metrics_new l
      → Grows (final metrics_new l) m
      → Exact m (update_prometheus p m elapsed (export_each l (exporter_new p)))
        × Gauges m elapsed (update_prometheus p m elapsed (export_each l (exporter_new p)))
  export_each-Exact l m elapsed g h =
      let e = export_each l (exporter_new p) in
      (
        update_prometheus-Exact (final metrics_new l) m elapsed e h
            (exports-Exact metrics_new l (exporter_new p) g new-Exact),
        update_prometheus-Gauges m elapsed e,
      )
