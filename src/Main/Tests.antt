-- ===== src/Main/Tests.antt =====
-- The server at concrete arguments, on a system that keeps a port for sockets that share it.
use cncnet_server.Base.{
  ℕ, suc, ltb, ◌≡◌, refl, ◌≢◌, Bool, true, false, not, ◌&&◌, ◌||◌, none, some, List, [], ◌∷◌, ◌==◌,
  if◌then◌else◌, All, arith,
}
use cncnet_server.Config.{ServerConfig, ConfigResult, ok, bail, from_args, trim, trim_start}
use cncnet_server.Config.Tests.{some_args}
use cncnet_server.Errors as Errors
use cncnet_server.Health.{start_health_server}
use cncnet_server.Main.{
  Machine, tunnel_v2, start_service, failed, all_over, joining, returned, Server, up, async_main,
  server_new, begin_service, begin_shutdown, end_service, end_main, call_of, terminate, MainReach,
  main_here, main_next, begins, signalled, shuts_down, joins, second,
}
use cncnet_server.Main.Finish.{Orderly, async_main-Orderly, async_main-stops}
use cncnet_server.Main.Runtime.{configure_runtime, init_tracing}
use cncnet_server.Main.Unfailing.{async_main-starts}
use cncnet_server.P2p.Start as P2pStart
use cncnet_server.Samples.{small_config}
use cncnet_server.Shutdown.{coordinator_new, call_shutdown, shutdown_step, recv_returns}
use cncnet_server.Shutdown.Tests.{cell}
use cncnet_server.Socket.{Socket, Os, bound_socket, open_sockets, start_workers}
use cncnet_server.Socket.Shared.{LetsShare, ready}
use cncnet_server.V2.Start as V2Start
use cncnet_server.V3.Start as V3Start

-- A port is taken if a socket is bound to it and one of the two does not share.
abbrev taken : List Socket → Socket → ℕ → Bool
taken [] s port = false
taken (o ∷ os) s port =
    (elim o.bound [ none ↦ false | some p ↦ p == port && not (o.reuse_port && s.reuse_port) ])
    || taken os s port

abbrev in_use : Errors.ServerError
in_use = Errors.io 98

-- The highest descriptor in use; 0, 1 and 2 are the standard streams.
abbrev highest : List Socket → ℕ
highest [] = 2
highest (o ∷ os) = if ltb (highest os) o.fd then o.fd else highest os

abbrev linux : Os
linux = record {
  descriptor = λ opened. suc (highest opened);
  answer = λ opened c. none;
  answer_bind = λ opened s port. if taken opened s port then some in_use else none;
}

not_taken :
    (opened : List Socket) (s : Socket) (port : ℕ)
    → All (λ o. o.reuse_port ≡ true) opened
    → s.reuse_port ≡ true
    → taken opened s port ≡ false
not_taken [] s port h e = refl
not_taken (o ∷ os) s port h e = ground (arith, h.0, not_taken os s port h.1 e)

linux-LetsShare : LetsShare linux
linux-LetsShare = record {
  calls = λ opened c. refl;
  binds = λ opened s port h e. rw (not_taken opened s port h e) refl;
}

abbrev machine : Machine
machine = record { aarch64 = false; cpus = 8; os = linux }

-- What a test by computation has to see through.
program : Unit {0}
unfolding from_args trim trim_start start_health_server async_main server_new begin_service
    begin_shutdown end_service end_main coordinator_new call_shutdown shutdown_step recv_returns
    bound_socket open_sockets start_workers P2pStart.start V2Start.start V3Start.start
program = tt

abbrev config_of : ConfigResult → ServerConfig
config_of (ok config) = config
config_of (bail e) = small_config

abbrev at_start : Server cell
at_start = server_new cell none (config_of (from_args some_args))

starts : async_main cell none some_args ≡ up at_start
unfolding program
starts = refl

-- The services start, the tunnels first, and the signal to terminate comes.
abbrev one_started : Server cell
one_started = begin_service cell machine at_start 2

abbrev two_started : Server cell
two_started = begin_service cell machine one_started 3

abbrev three_started : Server cell
three_started = begin_service cell machine two_started 0

abbrev signal_came : Server cell
signal_came = begin_shutdown cell three_started

abbrev swapped : Server cell
swapped = record signal_came {
  coordinator = shutdown_step cell signal_came.coordinator 0 (call_of cell signal_came.coordinator);
}

abbrev sent : Server cell
sent = record swapped {
  coordinator = shutdown_step cell swapped.coordinator 0 (call_of cell swapped.coordinator);
}

abbrev waits : Server cell
waits = record sent { phase = joining 0 }

abbrev waits_longer : Server cell
waits_longer = record waits { phase = joining 1 }

three_run : all_over three_started.services ≡ false
unfolding program
three_run = refl

life : MainReach cell machine at_start waits_longer
unfolding program
life =
    main_next
      (main_next
        (main_next
          (main_next
            (main_next
              (main_next (main_next (main_next main_here (begins 2 refl refl)) (begins 3 refl refl))
                (begins 0 refl refl))
              (signalled terminate refl refl))
            (shuts_down refl))
          (shuts_down refl))
        (joins refl refl))
      (second 0 refl (omega arith))

async_main-Orderly_example : Orderly cell waits_longer
async_main-Orderly_example =
    async_main-Orderly cell machine none some_args at_start waits_longer starts life

async_main-stops_example :
    (u : Server cell) × MainReach cell machine waits_longer u
    × (u.phase ≡ returned true)
    × (all_over u.services ≡ true)
unfolding program
async_main-stops_example =
    async_main-stops cell machine none some_args at_start waits_longer 1 starts life refl

async_main-starts_example :
    All (λ x. (e : Errors.ServerError) → x.1 ≢ failed e) waits_longer.services
async_main-starts_example =
    async_main-starts cell machine linux-LetsShare none some_args at_start waits_longer starts life

-- A socket of another program, which does not share, has the port of the V2 tunnel.
abbrev foreign : Socket
foreign = record (ready 7 0 0 50000) { reuse_port = false }

v2_is_refused :
    start_service machine (config_of (from_args some_args)) (foreign ∷ []) tunnel_v2
    ≡ Errors.err in_use
unfolding program
v2_is_refused = refl

four_threads : (configure_runtime true 8 some_args).worker_threads ≡ some 4
unfolding configure_runtime
four_threads = refl

pretty_log : (init_tracing none some_args.log_level some_args.log_format).thread_ids ≡ true
unfolding init_tracing
pretty_log = refl
