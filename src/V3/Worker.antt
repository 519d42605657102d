-- ===== src/V3/Worker.antt =====
-- `receive_loop` of src/tunnel_v3.rs, as a fold over what the socket gives.
use cncnet_server.Base.{ℕ, ◌&&◌, List, [], ◌∷◌, ◌++◌, ltb, leb, if◌then◌else◌, length}
use cncnet_server.Base.Words.{add64, add32}
use cncnet_server.Net.{SocketAddr, Datagram, Io}
use cncnet_server.Deps.{Deps}
use cncnet_server.Metrics.{LocalMetricsBatch, batch_new, flush, maybe_flush}
use cncnet_server.V3.{TunnelV3, max_packet_size}
use cncnet_server.V3.Receive.{on_receive}

-- What `recv_from` returns.
pub data Received : Type 0 where
  datagram : List ℕ → SocketAddr → Received
  failure : Received

module _ (d : Deps) where
  -- The loop's variables. The tunnel's metrics are the shared ones.
  pub record Worker : Type 0 where
    pub tunnel : TunnelV3 d
    pub batch : LocalMetricsBatch
    pub receive_errors : ℕ
    pub sent : List Datagram

  unfoldable pub worker_start : TunnelV3 d → Worker
  worker_start t = record { tunnel = t; batch = batch_new; receive_errors = 0; sent = [] }

  -- After `on_receive`: `batch.maybe_flush(&self.metrics)`.
  abbrev pub flush_after : TunnelV3 d → LocalMetricsBatch → LocalMetricsBatch × TunnelV3 d
  flush_after t batch =
      let (batch', metrics) = maybe_flush batch t.metrics in
      (batch', record t { metrics = metrics })

  -- One round of the loop.
  unfoldable pub receive_round : Worker → Received × Io → Worker
  receive_round w (datagram packet addr, io) =
      let t = w.tunnel in
      let m = t.metrics in
      let out = on_receive d t packet addr w.batch io in
      let (batch', t') = flush_after out.tunnel out.batch in
      if leb 8 (length packet) && leb (length packet) max_packet_size
      then record { tunnel = t'; batch = batch'; receive_errors = 0; sent = w.sent ++ out.sent }
      else record w {
        tunnel = record t { metrics = record m { invalid_packets = add64 m.invalid_packets 1 } };
        receive_errors = 0;
      }
  receive_round w (failure, io) =
      let t = w.tunnel in
      let (batch', metrics) = flush w.batch t.metrics in
      let errors = add32 w.receive_errors 1 in
      record w {
        tunnel = record t { metrics = metrics };
        batch = batch';
        receive_errors = if ltb 100 errors then 0 else errors;
      }

  unfoldable pub receive_loop : Worker → List (Received × Io) → Worker
  receive_loop w [] = w
  receive_loop w (e ∷ es) = receive_loop (receive_round w e) es
