-- ===== src/Health.antt =====
-- src/health.rs: the server for health checks and metrics.
pub mod Accepting
pub mod Serving
mod Tests
use cncnet_server.Base.{
  ℕ, zero, suc, ◌+◌, Option, none, some, List, [], ◌∷◌, ◌++◌, if◌then◌else◌, slice_eq,
}
use cncnet_server.Errors.{ServerError}
use cncnet_server.Metrics.{Metrics}
use cncnet_server.Metrics.Export.{Prometheus, Exporter, update_prometheus}
use cncnet_server.Text.{codes}
use cncnet_server.V2.Response.{Response, status_ok, not_found, plain}

-- The loop of `start_health_server`. The pattern `Ok((stream, _))` of its select turns the branch off
-- where `accept` fails: what is left to wait for is the shutdown, and the loop does not come round.
pub data HealthTask : Type 0 where
  listening accept_disabled stopped panicked : HealthTask

pub record HealthServer : Type 0 where
  pub task : HealthTask
  -- The tasks that it has spawned for connections.
  pub connections : ℕ

-- `bind(addr).await.unwrap()`
unfoldable pub start_health_server : Option ServerError → HealthServer
start_health_server none = record { task = listening; connections = 0 }
start_health_server (some e) = record { task = panicked; connections = 0 }

-- What `accept` or the shutdown receiver answers.
pub data HealthEvent : Type 0 where
  accepted accept_failed shut_down : HealthEvent

unfoldable pub next_task : HealthTask → HealthEvent → HealthTask
next_task listening accepted = listening
next_task listening accept_failed = accept_disabled
next_task listening shut_down = stopped
next_task accept_disabled shut_down = stopped
next_task accept_disabled accepted = accept_disabled
next_task accept_disabled accept_failed = accept_disabled
next_task stopped e = stopped
next_task panicked e = panicked

abbrev pub spawned : HealthTask → HealthEvent → ℕ
spawned listening accepted = 1
spawned task e = 0

unfoldable pub health_step : HealthServer → HealthEvent → HealthServer
unfolding next_task
health_step s e = record {
  task = next_task s.task e;
  connections = s.connections + spawned s.task e;
}

unfoldable pub health_run : HealthServer → List HealthEvent → HealthServer
health_run s [] = s
health_run s (e ∷ es) = health_run (health_step s e) es

-- A request: its path, and the counters and the seconds since the start when it is handled.
pub record HealthRequest : Type 0 where
  pub path : List ℕ
  pub metrics : Metrics
  pub elapsed_secs : ℕ

-- The package's text of the counters is a parameter.
module _ (p : Prometheus) (encode : Exporter p → List ℕ) where
  unfoldable pub export_prometheus : Metrics → ℕ → Exporter p → Exporter p × List ℕ
  export_prometheus m elapsed_secs e =
      let e' = update_prometheus p m elapsed_secs e in (e', encode e')

  unfoldable pub handle_health_request : HealthRequest → Exporter p → Exporter p × Response
  handle_health_request req e =
      if slice_eq req.path (codes "/health")
      then (e, plain status_ok (codes "OK"))
      else if slice_eq req.path (codes "/ready")
      then (e, plain status_ok (codes "READY"))
      else if slice_eq req.path (codes "/metrics")
      then (let (e', exported) = export_prometheus req.metrics req.elapsed_secs e in
          (e', plain status_ok exported))
      else (e, plain not_found (codes "Not Found"))

  -- Requests, one after the other, on any connections.
  unfoldable pub handle_each : List HealthRequest → Exporter p → Exporter p
  handle_each [] e = e
  handle_each (req ∷ reqs) e = handle_each reqs (handle_health_request req e).0
