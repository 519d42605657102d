-- ===== src/Metrics/Tests.antt =====
-- Exports at concrete counters: a Prometheus counter that is a number, and the theorems at inputs that
-- meet their hypotheses.
use cncnet_server.Base.{ℕ, ◌+◌, ◌-◌, ◌≤◌, ◌<◌, ◌≡◌, refl, none, some, List, [], ◌∷◌, ◌++◌, arith}
use cncnet_server.Base.Words.{u64_mod, ℤ, pos, negsuc, as_i64, add64}
use cncnet_server.Metrics.{
  Metrics, metrics_new, batch_new, record_v3_rx, record_v3_tx, record_v2_rx, flush, maybe_flush,
}
use cncnet_server.Metrics.Batch.{Turn, handled, failed, v3_rx, v3_tx, v2_rx, batched, counted_each}
use cncnet_server.Metrics.Flushing.{AreWords, SameTraffic, batched-SameTraffic}
use cncnet_server.Metrics.Exact.{Grows, Exact, Gauges, export_each, export_each-Exact}
use cncnet_server.Metrics.Export.{Prometheus, Channel, exporter_new, update_prometheus}
use cncnet_server.Metrics.Race.{
  idle, race_start, race_run, Alone, actions, race_run-shows, crossing, race_run-counts_twice,
}

abbrev pub numbers : Prometheus
numbers = record {
  IntCounter = ℕ;
  counter_new = 0;
  inc_by = add64;
  counter_get = λ c. c;
  IntGauge = ℤ;
  gauge_new = pos 0;
  gauge_set = λ g n. n;
  gauge_get = λ g. g;
  counter_get-new = refl;
  counter_get-inc_by = λ c n. refl;
  gauge_get-set = λ g n. refl;
}

abbrev pub later : Metrics
later = record metrics_new { v3_packets_received = 5; v2_active_clients = 2 }

abbrev pub still_later : Metrics
still_later = record later { v3_packets_received = 8; dropped_packets = 1 }

small_growth : (a b : ℕ) → a ≤ b → b < 10 → (a ≤ b) × (b < u64_mod)
small_growth a b h k = (h, omega arith)

unchanged : (0 ≤ 0) × (0 < u64_mod)
unchanged = small_growth 0 0 (omega arith) (omega arith)

pub first_growth : Grows metrics_new later
first_growth = record {
  v3_packets_received = small_growth 0 5 (omega arith) (omega arith);
  v3_packets_sent = unchanged;
  v3_bytes_received = unchanged;
  v3_bytes_sent = unchanged;
  v2_packets_received = unchanged;
  v2_packets_sent = unchanged;
  v2_http_requests = unchanged;
  rate_limit_hits = unchanged;
  dropped_packets = unchanged;
  dropped_connections = unchanged;
}

pub second_growth : Grows later still_later
second_growth = record {
  v3_packets_received = small_growth 5 8 (omega arith) (omega arith);
  v3_packets_sent = unchanged;
  v3_bytes_received = unchanged;
  v3_bytes_sent = unchanged;
  v2_packets_received = unchanged;
  v2_packets_sent = unchanged;
  v2_http_requests = unchanged;
  rate_limit_hits = unchanged;
  dropped_packets = small_growth 0 1 (omega arith) (omega arith);
  dropped_connections = unchanged;
}

export_each-Exact_example :
    let e =
      update_prometheus numbers still_later 60
        (export_each numbers ((later, 30) ∷ []) (exporter_new numbers)) in
    Exact numbers still_later e × Gauges numbers still_later 60 e
export_each-Exact_example =
    export_each-Exact numbers ((later, 30) ∷ []) still_later 60 (first_growth, tt) second_growth

abbrev alone : List (Alone numbers)
alone =
    record { before = 0; after_load = 3; after_swap = 0 }
    ∷ record { before = 1; after_load = 0; after_swap = 2 }
    ∷ []

race_run-shows_example :
    let r = race_run numbers (race_start numbers (idle ∷ [])) (actions numbers alone) in
    (r.live ≡ 6) × (r.channel.prom ≡ 4)
race_run-shows_example = race_run-shows numbers alone (omega arith)

abbrev five : Channel numbers
five = record { last = 5; prom = 5 }

-- The two exports that cross, and the two above.
race_run-counts_twice_example :
    let r =
      race_run numbers
        (record { live = 5; channel = five; phases = idle ∷ idle ∷ [] })
        (crossing numbers 3 ++ actions numbers alone) in
    (r.live ≡ 14) × (r.channel.prom ≡ 12 + 3)
race_run-counts_twice_example =
    race_run-counts_twice numbers 5 3 five alone (record { prom = refl; last = refl }) (omega arith)

wraps : as_i64 (u64_mod - 1) ≡ negsuc 0
wraps = refl

-- A packet that is sent on, an error, a packet that is not, and one of the other protocol.
abbrev turns : List Turn
turns =
    handled (v3_rx 100) (some (v3_tx 100))
    ∷ failed
    ∷ handled (v3_rx 60) none
    ∷ handled (v2_rx 20) none
    ∷ []

bytes_wait : (batched turns batch_new metrics_new).1.v3_bytes_received ≡ 100
unfolding batched record_v3_rx record_v3_tx record_v2_rx maybe_flush flush
bytes_wait = refl

new-AreWords : AreWords metrics_new
new-AreWords = record {
  v3_packets_received = omega arith;
  v3_packets_sent = omega arith;
  v3_bytes_received = omega arith;
  v3_bytes_sent = omega arith;
  v2_packets_received = omega arith;
  v2_packets_sent = omega arith;
  v2_bytes_received = omega arith;
  v2_bytes_sent = omega arith;
}

batched-SameTraffic_example :
    let (b, m') = batched turns batch_new metrics_new in
    SameTraffic (flush b m').1 (counted_each turns metrics_new)
batched-SameTraffic_example = batched-SameTraffic turns metrics_new new-AreWords
