-- ===== src/V2/Tests.antt =====
-- The V2 tunnel at concrete packets and requests: tests, and the theorems at inputs that meet their
-- hypotheses.
use cncnet_server.Base.{
  ℕ, ◌+◌, ◌%◌, ◌<◌, ◌≡◌, refl, ◌≢◌, true, some, none, List, [], ◌∷◌, ◌++◌, ◌*◌, ◌≤◌, ◌∙◌, All,
  length, get_or, arith,
}
use cncnet_server.Base.Words.{from_be_bytes_16}
use cncnet_server.Relay.{RelayRun, blank}
use cncnet_server.V2.Refinement.{header, view}
use cncnet_server.V2.Implements.{inputs, outputs, Reach-implements}
use cncnet_server.Limiter.{rate_limiter_new, check_and_increment, reset}
use cncnet_server.Metrics.{metrics_new, batch_new, record_v2_rx, record_v2_tx, flush, maybe_flush}
use cncnet_server.Net.{same_addr, same_addr_ne, Io}
use cncnet_server.Samples.{plain, alice, bob, small_config, at_second}
use cncnet_server.Text.{codes}
use cncnet_server.Text.Decimal.{to_string, i16_to_string, parse_unsigned, parse_i16}
use cncnet_server.V2.{
  TunnelV2, tunnel_new, validate_packet, handle_ping, check_sender, forward_info, relay_packet,
  handle_data_forward, receive_ping, dispatch_packet, on_udp_receive,
}
use cncnet_server.V2.Accounting.{Counted, taken, v2_worker-Counted}
use cncnet_server.V2.Worker.{Received, datagram, failure, worker_start, receive_round, receive_loop}
use cncnet_server.V2.Allocate.{
  clients_parameter, draw_ids, give_back, finish_request, handle_request,
}
use cncnet_server.V2.Delivery.{Handled, on_udp_receive-Handled}
use cncnet_server.V2.Http.{
  Request, accept_connection, handle_status, handle_maintenance, route, handle_http_request,
}
use cncnet_server.V2.Maintenance.{switches, handle_http_request-mode}
use cncnet_server.V2.Race.{
  Race, waiting, task_step, RaceReach, race_here, race_next, access, length-task_step, idle_tasks,
  all_pending, race_bounded,
}
use cncnet_server.V2.Periodic.{cleanup_expired_mappings, heartbeat_tick}
use cncnet_server.V2.Reaching.{on_udp_receive-reaches}
use cncnet_server.V2.Sender.{may_speak}
use cncnet_server.V2.Requests.{Settled, handle_request-Settled}
use cncnet_server.V2.Response.{status_ok, json}
use cncnet_server.V2.System.{packet, request, tick, here, next, Reach, Sound, tunnel-Sound}

-- What a test by computation has to see through.
program : Unit {0}
unfolding from_be_bytes_16 rate_limiter_new check_and_increment reset record_v2_rx record_v2_tx
    same_addr to_string i16_to_string parse_unsigned parse_i16 tunnel_new validate_packet
    handle_ping check_sender forward_info relay_packet handle_data_forward receive_ping
    dispatch_packet on_udp_receive clients_parameter draw_ids give_back finish_request
    handle_request accept_connection handle_status handle_maintenance route handle_http_request
    cleanup_expired_mappings heartbeat_tick switches
program = tt

abbrev pub fresh : TunnelV2 plain
fresh = tunnel_new plain small_config metrics_new

-- Ids 7, 8, 9, and so on.
abbrev pub draws : ℕ → ℕ
draws i = (7 + i) % 65536

pub draws_in_range : (i : ℕ) → draws i < 65536
draws_in_range i = omega arith

abbrev pub two_wanted : List ℕ
two_wanted = codes "clients=2"

abbrev two_clients : TunnelV2 plain
two_clients = (handle_request plain fresh (some two_wanted) draws (at_second 0)).0

answer_lists_ids :
    (handle_request plain fresh (some two_wanted) draws (at_second 0)).1
    ≡ json status_ok (codes "[7,8]")
unfolding program
answer_lists_ids = refl

-- From Alice, id 7, to id 8.
abbrev hello : List ℕ
hello = 0 ∷ 7 ∷ 0 ∷ 8 ∷ 42 ∷ []

abbrev joined : TunnelV2 plain
joined = (on_udp_receive plain two_clients (0 ∷ 8 ∷ 0 ∷ 7 ∷ []) bob batch_new (at_second 1)).tunnel

hello_reaches_bob :
    (on_udp_receive plain joined hello alice batch_new (at_second 2)).sent
    ≡ record { payload = hello; target = bob } ∷ []
unfolding program
hello_reaches_bob = refl

handle_request-Settled_example :
    Settled plain fresh
      (clients_parameter (some two_wanted))
      (at_second 0)
      (handle_request plain fresh (some two_wanted) draws (at_second 0))
handle_request-Settled_example =
    handle_request-Settled plain fresh (some two_wanted) draws (at_second 0) draws_in_range

on_udp_receive-Handled_example :
    Handled plain joined hello alice
      (at_second 2)
      (on_udp_receive plain joined hello alice batch_new (at_second 2))
on_udp_receive-Handled_example =
    on_udp_receive-Handled plain joined hello alice batch_new (at_second 2)

abbrev ask : Request
ask = record { is_get = true; path = codes "/request"; query = some two_wanted }

abbrev asked : TunnelV2 plain
asked = (handle_http_request plain fresh ask alice draws (at_second 0)).0

abbrev spoken : TunnelV2 plain
spoken = (on_udp_receive plain asked hello alice batch_new (at_second 1)).tunnel

abbrev swept : TunnelV2 plain
swept = (heartbeat_tick plain spoken (at_second 2)).0

life : Reach plain fresh swept
life =
    next
      (next (next here (request ask alice draws (at_second 0) draws_in_range))
        (packet hello alice batch_new (at_second 1)))
      (tick (at_second 2))

tunnel-Sound_example : Sound plain 2 swept
tunnel-Sound_example = tunnel-Sound plain small_config metrics_new swept life

Reach-implements_example :
    RelayRun header blank (inputs plain life) (outputs plain life) (view plain swept)
Reach-implements_example = Reach-implements plain small_config metrics_new swept life

-- The password of the configuration is two characters of code 7.
abbrev switch_on : Request
switch_on = record {
  is_get = true;
  path = codes "/maintenance/" ++ (7 ∷ 7 ∷ 47 ∷ []);
  query = none;
}

handle_http_request-mode_example :
    (handle_http_request plain fresh switch_on alice draws (at_second 0)).0.maintenance_mode ≡ true
unfolding program
handle_http_request-mode_example =
    handle_http_request-mode plain fresh switch_on alice draws (at_second 0)

-- Two tasks ask for two ids each while there is room for two, and both pass the test of the limit
-- before either inserts.
abbrev empty : Race plain
empty = record { mappings = plain.create_dashmap_with_capacity 2; tasks = idle_tasks plain 2 }

abbrev after : List (ℕ × ℕ) → Race plain → Race plain
after [] r = r
after ((i, input) ∷ l) r = after l (task_step plain 2 0 r i input (get_or r.tasks i waiting))

abbrev accesses : List (ℕ × ℕ)
accesses =
    (0, 2) ∷ (1, 2) ∷ (0, 7) ∷ (0, 0) ∷ (1, 8) ∷ (1, 0) ∷ (0, 9) ∷ (0, 0) ∷ (1, 10) ∷ (1, 0) ∷ []

crossing_goes_over_the_limit : plain.len (after accesses empty).mappings ≡ 4
unfolding program task_step
crossing_goes_over_the_limit = refl

tasks_exist : All (λ (e : ℕ × ℕ). e.0 < 2) accesses
tasks_exist = (
  omega arith,
  (
    omega arith,
    (
      omega arith,
      (
        omega arith,
        (
          omega arith,
          (omega arith, (omega arith, (omega arith, (omega arith, (omega arith, tt))))),
        ),
      ),
    ),
  ),
)

after-RaceReach :
    (l : List (ℕ × ℕ)) (r : Race plain)
    → All (λ (e : ℕ × ℕ). e.0 < 2) l
    → length r.tasks ≡ 2
    → RaceReach plain 2 empty r
    → RaceReach plain 2 empty (after l r)
after-RaceReach [] r inside two s = s
after-RaceReach ((i, input) ∷ l) r inside two s =
    after-RaceReach l (task_step plain 2 0 r i input (get_or r.tasks i waiting)) inside.1
      (length-task_step plain 2 0 r i input (get_or r.tasks i waiting) ∙ two)
      (race_next s (access i input 0 (omega (arith, inside.0, two))))

race_bounded_example :
    plain.len (after accesses empty).mappings + all_pending plain (after accesses empty).tasks
    ≤ 2 + 8 * 1
race_bounded_example =
    race_bounded plain 2 1 (plain.create_dashmap_with_capacity 2) (after accesses empty)
      (omega arith) (after-RaceReach accesses empty tasks_exist refl race_here)

abbrev events : List (Received × Io)
events =
    (datagram hello alice, at_second 1)
    ∷ (datagram (1 ∷ []) bob, at_second 1)
    ∷ (failure, at_second 2)
    ∷ (datagram (0 ∷ 8 ∷ 0 ∷ 7 ∷ []) bob, at_second 3)
    ∷ []

worker_relays_one :
    (receive_loop plain (worker_start plain two_clients) events).sent
    ≡ record { payload = 0 ∷ 8 ∷ 0 ∷ 7 ∷ []; target = alice } ∷ []
unfolding program worker_start receive_round receive_loop maybe_flush flush
worker_relays_one = refl

v2_worker-Counted_example :
    Counted plain two_clients.metrics
      (taken plain events)
      (receive_loop plain (worker_start plain two_clients) events)
v2_worker-Counted_example = v2_worker-Counted plain two_clients events

alice-differs : bob ≢ alice
unfolding same_addr
alice-differs = same_addr_ne bob alice refl

alice-may_speak : may_speak plain joined 7 alice (at_second 2) ≡ true
unfolding program may_speak
alice-may_speak = refl

-- Alice's packet reaches Bob.
on_udp_receive-reaches_example :
    (on_udp_receive plain joined hello alice batch_new (at_second 2)).sent
    ≡ record { payload = hello; target = bob } ∷ []
unfolding program
on_udp_receive-reaches_example =
    on_udp_receive-reaches plain joined hello alice bob batch_new (at_second 2) (omega arith) refl
      refl refl alice-may_speak (λ q. omega arith) refl alice-differs refl
