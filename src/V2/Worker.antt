-- ===== src/V2/Worker.antt =====
-- `receive_loop` of src/tunnel_v2.rs, as a fold over what the socket gives.
use cncnet_server.Base.{ℕ, ◌&&◌, List, [], ◌∷◌, ◌++◌, leb, if◌then◌else◌, length}
use cncnet_server.Deps.{Deps}
use cncnet_server.Metrics.{LocalMetricsBatch, batch_new, flush, maybe_flush}
use cncnet_server.Net.{SocketAddr, Datagram, Io}
use cncnet_server.V2.{TunnelV2, on_udp_receive, max_packet_size}

-- What `recv_from` returns.
pub data Received : Type 0 where
  datagram : List ℕ → SocketAddr → Received
  failure : Received

module _ (d : Deps) where
  pub record Worker : Type 0 where
    pub tunnel : TunnelV2 d
    pub batch : LocalMetricsBatch
    pub sent : List Datagram

  unfoldable pub worker_start : TunnelV2 d → Worker
  worker_start t = record { tunnel = t; batch = batch_new; sent = [] }

  -- After `on_udp_receive`: `batch.maybe_flush(&self.metrics)`.
  abbrev pub flush_after : TunnelV2 d → LocalMetricsBatch → LocalMetricsBatch × TunnelV2 d
  flush_after t batch =
      let (batch', metrics) = maybe_flush batch t.metrics in
      (batch', record t { metrics = metrics })

  -- One round of the loop.
  unfoldable pub receive_round : Worker → Received × Io → Worker
  receive_round w (datagram packet addr, io) =
      let out = on_udp_receive d w.tunnel packet addr w.batch io in
      let (batch', t') = flush_after out.tunnel out.batch in
      if leb 4 (length packet) && leb (length packet) max_packet_size
      then record { tunnel = t'; batch = batch'; sent = w.sent ++ out.sent }
      else w
  receive_round w (failure, io) =
      let t = w.tunnel in
      let (batch', metrics) = flush w.batch t.metrics in
      record w { tunnel = record t { metrics = metrics }; batch = batch' }

  unfoldable pub receive_loop : Worker → List (Received × Io) → Worker
  receive_loop w [] = w
  receive_loop w (e ∷ es) = receive_loop (receive_round w e) es
