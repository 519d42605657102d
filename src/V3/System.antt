-- ===== src/V3/System.antt =====
-- The tasks that `start` of src/tunnel_v3.rs spawns on one tunnel: the workers, each with a batch of
-- its own, and the heartbeat. They take turns in any order, one round or one tick at a time.
use cncnet_server.Base.{ℕ, zero, suc, List, [], ◌∷◌, ◌++◌, get_or, set}
use cncnet_server.Config.{ServerConfig}
use cncnet_server.Deps.{Deps}
use cncnet_server.Metrics.{Metrics, LocalMetricsBatch, batch_new}
use cncnet_server.Net.{Datagram, Io}
use cncnet_server.V3.{TunnelV3, tunnel_new}
use cncnet_server.V3.Heartbeat.{heartbeat_tick}
use cncnet_server.V3.Worker.{Received, Worker, receive_round}

-- What a worker has of its own.
pub record Local : Type 0 where
  pub batch : LocalMetricsBatch
  pub receive_errors : ℕ

abbrev pub local_new : Local
local_new = record { batch = batch_new; receive_errors = 0 }

abbrev pub locals_new : ℕ → List Local
locals_new zero = []
locals_new (suc workers) = local_new ∷ locals_new workers

-- A round of the worker with a number, and a tick of the heartbeat.
pub data Event : Type 0 where
  round : ℕ → Received × Io → Event
  tick : Io → Event

module _ (d : Deps) where
  pub record System : Type 0 where
    pub tunnel : TunnelV3 d
    pub locals : List Local
    pub cleanup_counter : ℕ
    pub sent : List Datagram

  unfoldable pub system_start : ServerConfig → Metrics → ℕ → System
  system_start config m workers = record {
    tunnel = tunnel_new d config m;
    locals = locals_new workers;
    cleanup_counter = 0;
    sent = [];
  }

  -- A worker's loop variables, before it has sent anything.
  abbrev pub worker_of : System → ℕ → Worker d
  worker_of s i =
      let mine = get_or s.locals i local_new in
      record {
        tunnel = s.tunnel;
        batch = mine.batch;
        receive_errors = mine.receive_errors;
        sent = [];
      }

  unfoldable pub system_step : System → Event → System
  system_step s (round i e) =
      let w = receive_round d (worker_of s i) e in
      record s {
        tunnel = w.tunnel;
        locals = set s.locals i (record { batch = w.batch; receive_errors = w.receive_errors });
        sent = s.sent ++ w.sent;
      }
  system_step s (tick io) =
      let beat = heartbeat_tick d s.cleanup_counter s.tunnel io in
      record s { tunnel = beat.tunnel; cleanup_counter = beat.cleanup_counter }

  unfoldable pub system_run : System → List Event → System
  system_run s [] = s
  system_run s (e ∷ es) = system_run (system_step s e) es
