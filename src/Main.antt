-- ===== src/Main.antt =====
-- src/main.rs: the services of the server, and how the server shuts down. The code is that of a
-- Unix target; `aarch64` tells the two builds apart.
pub mod Runtime
pub mod Life
pub mod Finish
pub mod Starting
pub mod Unfailing
mod Tests
use cncnet_server.Base.{
  ℕ, zero, suc, ◌+◌, ◌*◌, ◌%◌, ◌<◌, ◌≡◌, Bool, true, false, not, ◌&&◌, Option, none, some, List, [],
  ◌∷◌, ◌++◌, map, ltb, if◌then◌else◌, slice_eq, get_or, set,
}
use cncnet_server.Config.{Args, ServerConfig, ConfigError, ConfigResult, ok, bail, from_args}
use cncnet_server.Errors as Errors
use cncnet_server.Health.{
  HealthServer, HealthEvent, shut_down, stopped, start_health_server, health_step,
}
use cncnet_server.P2p.Start as P2pStart
use cncnet_server.Shutdown.{
  Watch, ShutdownCoordinator, coordinator_new, call_shutdown, shutdown_step, recv_returns, Call,
  finished,
}
use cncnet_server.Socket.{
  Socket, Os, Task, receive_loop, heartbeat_loop, http_server, limiter_reset,
}
use cncnet_server.Text.{codes}
use cncnet_server.V2.Start as V2Start
use cncnet_server.V3.Start as V3Start

-- What `shutdown_handler` waits for, and the other signals.
pub data Signal : Type 0 where
  ctrl_c terminate other : Signal

abbrev pub shutdown_handler : Signal → Bool
shutdown_handler ctrl_c = true
shutdown_handler terminate = true
shutdown_handler other = false

pub data Service : Type 0 where
  p2p : ℕ → Service
  tunnel_v3 tunnel_v2 : Service

abbrev pub services_of : ServerConfig → List Service
services_of config =
    (if config.no_p2p then [] else p2p 8054 ∷ p2p 3478 ∷ []) ++ (tunnel_v3 ∷ tunnel_v2 ∷ [])

-- The build, the processors and the operating system.
pub record Machine : Type 0 where
  pub aarch64 : Bool
  pub cpus : ℕ
  pub os : Os

-- `start` of a service.
abbrev pub start_service :
    Machine → ServerConfig → List Socket → Service → Errors.Result (List Task)
start_service m config opened (p2p port) = P2pStart.start m.cpus m.os port opened
start_service m config opened tunnel_v3 = V3Start.start m.aarch64 m.cpus m.os config opened
start_service m config opened tunnel_v2 = V2Start.start m.cpus m.os config opened

-- The task of a service: before its first poll, after it, after an error of `start`, which is logged,
-- and after the shutdown, whose branch of the select drops the service.
pub data ServiceTask : Type 0 where
  spawned : ServiceTask
  running : List Task → ServiceTask
  failed : Errors.ServerError → ServiceTask
  ended : ServiceTask

abbrev pub is_over : ServiceTask → Bool
is_over spawned = false
is_over (running tasks) = false
is_over (failed e) = true
is_over ended = true

-- Where `async_main` stands: before the signal, in `shutdown.shutdown()`, at the `timeout` for so many
-- seconds, and at its end, with whether all services had stopped.
pub data Phase : Type 0 where
  until_signal in_shutdown : Phase
  joining : ℕ → Phase
  returned : Bool → Phase

abbrev pub sockets_of : List Task → List Socket
sockets_of [] = []
sockets_of (receive_loop worker_id s ∷ tasks) = s ∷ sockets_of tasks
sockets_of (heartbeat_loop ∷ tasks) = sockets_of tasks
sockets_of (http_server ∷ tasks) = sockets_of tasks
sockets_of (limiter_reset ∷ tasks) = sockets_of tasks

-- What the first poll of a service's task makes of it.
abbrev pub begun : Errors.Result (List Task) → ServiceTask
begun (Errors.err e) = failed e
begun (Errors.ok tasks) = running tasks

abbrev pub has_returned : Phase → Bool
has_returned until_signal = false
has_returned in_shutdown = false
has_returned (joining n) = false
has_returned (returned in_time) = true

-- The sockets that are open: those of the services that run.
abbrev pub opened_by : List (Service × ServiceTask) → List Socket
opened_by [] = []
opened_by ((s, spawned) ∷ l) = opened_by l
opened_by ((s, running tasks) ∷ l) = sockets_of tasks ++ opened_by l
opened_by ((s, failed e) ∷ l) = opened_by l
opened_by ((s, ended) ∷ l) = opened_by l

abbrev pub all_over : List (Service × ServiceTask) → Bool
all_over [] = true
all_over ((s, task) ∷ l) = is_over task && all_over l

module _ (w : Watch) where
  pub record Server : Type 0 where
    pub config : ServerConfig
    pub coordinator : ShutdownCoordinator w
    pub health : HealthServer
    pub services : List (Service × ServiceTask)
    pub phase : Phase

  pub data Outcome : Type 0 where
    refused : ConfigError → Outcome
    up : Server → Outcome

  -- The server that waits for a signal. `bound` is how the port of the health server is answered.
  unfoldable pub server_new : Option Errors.ServerError → ServerConfig → Server
  server_new bound config = record {
    config = config;
    coordinator = coordinator_new w;
    health = start_health_server bound;
    services = map (λ s. (s, spawned)) (services_of config);
    phase = until_signal;
  }

  -- `async_main` until it waits for a signal: nothing is started where the arguments are refused.
  abbrev pub started : Option Errors.ServerError → ConfigResult → Outcome
  started bound (bail e) = refused e
  started bound (ok config) = up (server_new bound config)

  unfoldable pub async_main : Option Errors.ServerError → Args → Outcome
  async_main bound args = started bound (from_args args)

  abbrev pub service_at : Server → ℕ → Service × ServiceTask
  service_at s i = get_or s.services i (tunnel_v3, ended)

  -- The first poll of a service's task.
  unfoldable pub begin_service : Machine → Server → ℕ → Server
  begin_service m s i =
      let service = (service_at s i).0 in
      let started = start_service m s.config (opened_by s.services) service in
      record s { services = set s.services i (service, begun started) }

  -- The branch of the shutdown in the select of a service.
  unfoldable pub end_service : Server → ℕ → Server
  end_service s i = record s { services = set s.services i ((service_at s i).0, ended) }

  -- `shutdown_handler` returns, and `shutdown` is called.
  unfoldable pub begin_shutdown : Server → Server
  begin_shutdown s = record s { coordinator = call_shutdown w s.coordinator; phase = in_shutdown }

  -- The only call of `shutdown`.
  abbrev pub call_of : ShutdownCoordinator w → Call
  call_of c = get_or c.calls 0 finished

  -- The end of `async_main`: the health server is aborted.
  unfoldable pub end_main : Bool → Server → Server
  end_main in_time s = record s {
    health = record (s.health) { task = stopped };
    phase = returned in_time;
  }

  -- The steps of the tasks, in any order; none is taken after `main` has returned.
  pub data MainStep (m : Machine) (s : Server) : Server → Type 0 where
    begins :
        (i : ℕ)
        → has_returned s.phase ≡ false
        → (service_at s i).1 ≡ spawned
        → MainStep m s (begin_service m s i)
    ends :
        (i : ℕ)
        → has_returned s.phase ≡ false
        → recv_returns w s.coordinator ≡ true
        → is_over (service_at s i).1 ≡ false
        → MainStep m s (end_service s i)
    health_event :
        (e : HealthEvent)
        → has_returned s.phase ≡ false
        → (e ≡ shut_down → recv_returns w s.coordinator ≡ true)
        → MainStep m s (record s { health = health_step s.health e })
    signalled :
        (g : Signal)
        → s.phase ≡ until_signal
        → shutdown_handler g ≡ true
        → MainStep m s (begin_shutdown s)
    shuts_down :
        s.phase ≡ in_shutdown
        → MainStep m s
            (record s { coordinator = shutdown_step w s.coordinator 0 (call_of s.coordinator) })
    joins :
        s.phase ≡ in_shutdown
        → call_of s.coordinator ≡ finished
        → MainStep m s (record s { phase = joining 0 })
    second :
        (n : ℕ) → s.phase ≡ joining n → n < 30 → MainStep m s (record s { phase = joining (n + 1) })
    in_time :
        (n : ℕ) → s.phase ≡ joining n → all_over s.services ≡ true → MainStep m s (end_main true s)
    times_out : s.phase ≡ joining 30 → MainStep m s (end_main false s)

  pub data MainReach (m : Machine) (s : Server) : Server → Type 0 where
    main_here : MainReach m s s
    main_next : {t u : Server} → MainReach m s t → MainStep m t u → MainReach m s u
