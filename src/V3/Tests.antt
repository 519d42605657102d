-- ===== src/V3/Tests.antt =====
-- The V3 tunnel at concrete packets: tests, and the theorems at inputs that meet their hypotheses.
use cncnet_server.Base.{ℕ, ◌≡◌, refl, ◌≢◌, true, some, none, List, [], ◌∷◌, arith, All}
use cncnet_server.Base.Words.{from_le_bytes_32}
use cncnet_server.Deps.Models.{Client}
use cncnet_server.Relay.{RelayRun, blank}
use cncnet_server.V3.Refinement.{view}
use cncnet_server.V3.Implements.{inputs, system_run-implements}
use cncnet_server.Limiter.{
  connection_limiter_new, try_acquire, rate_limiter_new, check_and_increment, reset,
}
use cncnet_server.Metrics.{metrics_new, batch_new, record_v3_rx, record_v3_tx, flush, maybe_flush}
use cncnet_server.Net.{same_addr, same_addr_ne, Io}
use cncnet_server.Samples.{plain, alice, bob, small_config, at_second, packet_between}
use cncnet_server.V3.{
  TunnelV3, parse_packet_header, tunnel_new, validate_packet, handle_ping, refresh_sender,
  reconnect_sender, connect_sender, known_sender, check_sender, forward_info, relay_packet,
  handle_data_forward,
}
use cncnet_server.V3.Cleanup.{remove_all, cleanup_expired_mappings, is_expired}
use cncnet_server.V3.Lockout.{command-locks_out}
use cncnet_server.V3.Commands.{control, control_after, counts, is_command, on_receive-control}
use cncnet_server.V3.Delivery.{IsDue, on_receive-sent}
use cncnet_server.V3.Expiry.{heartbeat-cleans}
use cncnet_server.V3.Heartbeat.{heartbeat_tick, heartbeat_loop}
use cncnet_server.Endpoint.{endpoint_in}
use cncnet_server.V3.Ownership.{IsAlive, on_receive-keeps}
use cncnet_server.V3.Reaching.{on_receive-reaches}
use cncnet_server.V3.Receive.{
  run_command, execute_command, receive_ping, dispatch_packet, on_receive,
}
use cncnet_server.V3.Sender.{may_speak, Settles, check_sender-Settles}
use cncnet_server.V3.Sound.{Sound, system_run-Sound}
use cncnet_server.V3.System.{Event, round, tick, system_start, system_step, system_run}
use cncnet_server.V3.Totals.{Totals, system_taken, system_refused, system_run-Totals}
use cncnet_server.V3.Worker.{Received, datagram, failure, worker_start, receive_round, receive_loop}

-- What a test by computation has to see through.
program : Unit {0}
unfolding from_le_bytes_32 connection_limiter_new try_acquire rate_limiter_new check_and_increment
    reset record_v3_rx record_v3_tx flush maybe_flush same_addr parse_packet_header tunnel_new
    validate_packet handle_ping refresh_sender reconnect_sender connect_sender known_sender
    check_sender forward_info relay_packet handle_data_forward remove_all cleanup_expired_mappings
    heartbeat_tick heartbeat_loop run_command execute_command receive_ping dispatch_packet
    on_receive worker_start receive_round receive_loop
program = tt

abbrev fresh : TunnelV3 plain
fresh = tunnel_new plain small_config metrics_new

-- Alice has registered id 1, and Bob id 2.
abbrev one_client : TunnelV3 plain
one_client = (on_receive plain fresh (packet_between 1 2) alice batch_new (at_second 0)).tunnel

abbrev two_clients : TunnelV3 plain
two_clients = (on_receive plain one_client (packet_between 2 1) bob batch_new (at_second 1)).tunnel

alice_client : Client
alice_client = record { endpoint = some alice; last_tick = 0; timeout = 30 }

reply_reaches_alice :
    (on_receive plain one_client (packet_between 2 1) bob batch_new (at_second 1)).sent
    ≡ record { payload = packet_between 2 1; target = alice } ∷ []
unfolding program
reply_reaches_alice = refl

third_is_refused :
    (on_receive plain two_clients
      (packet_between 3 1)
      bob
      batch_new
      (at_second 1)).tunnel.metrics.dropped_packets
    ≡ 1
unfolding program
third_is_refused = refl

abbrev events : List (Received × Io)
events =
    (datagram (packet_between 1 2) alice, at_second 0)
    ∷ (failure, at_second 0)
    ∷ (datagram (1 ∷ 2 ∷ []) alice, at_second 0)
    ∷ (datagram (packet_between 2 1) bob, at_second 1)
    ∷ []

check_sender-Settles_example :
    Settles plain one_client 2 bob
      (at_second 1)
      (may_speak plain one_client 2 bob (at_second 1))
      (check_sender plain one_client 2 (packet_between 2 1) bob (at_second 1))
check_sender-Settles_example =
    check_sender-Settles plain one_client 2 bob (at_second 1) (packet_between 2 1)

on_receive-sent_example :
    let o = on_receive plain one_client (packet_between 2 1) bob batch_new (at_second 1) in
    All (IsDue plain one_client (packet_between 2 1) bob (at_second 1) o.tunnel) o.sent
on_receive-sent_example =
    on_receive-sent plain one_client (packet_between 2 1) bob batch_new (at_second 1)

alice-IsAlive : IsAlive plain one_client (at_second 5) 1 alice_client
unfolding program alice_client
alice-IsAlive = record { found = refl; in_time = refl; in_sweep = refl }

-- Bob tries to take Alice's id.
on_receive-keeps_example :
    endpoint_in plain
      (on_receive plain one_client (packet_between 1 2) bob batch_new (at_second 5)).tunnel.mappings
      1
    ≡ endpoint_in plain one_client.mappings 1
on_receive-keeps_example =
    on_receive-keeps plain one_client (packet_between 1 2) bob batch_new (at_second 5) 1
      alice_client alice-IsAlive

-- From id 0 to id 2³² - 1, command 0, with a digest that is too short, and then zeros.
abbrev wrong_command : List ℕ
wrong_command =
    0 ∷ 0 ∷ 0 ∷ 0 ∷ 255 ∷ 255 ∷ 255 ∷ 255 ∷ 0 ∷ 7 ∷ 7 ∷ 0 ∷ 0 ∷ 0 ∷ 0 ∷ 0 ∷ 0 ∷ 0 ∷ 0 ∷ 0 ∷ 0 ∷ 0
    ∷ 0 ∷ 0 ∷ 0 ∷ 0 ∷ 0 ∷ 0 ∷ 0 ∷ []

on_receive-control_example :
    control plain (on_receive plain fresh wrong_command bob batch_new (at_second 61)).tunnel
    ≡ control_after plain fresh wrong_command (at_second 61)
on_receive-control_example =
    on_receive-control plain fresh wrong_command bob batch_new (at_second 61)

started-counts :
    counts plain (system_start plain small_config metrics_new 2).tunnel wrong_command (at_second 61)
    ≡ true
unfolding program counts is_command system_start
started-counts = refl

-- After it comes a command by Alice, a packet of Bob's to her, a tick and one more command.
abbrev within_a_minute : List Event
within_a_minute =
    round 1 (datagram wrong_command alice, at_second 70)
    ∷ round 0 (datagram (packet_between 2 1) bob, at_second 90)
    ∷ tick (at_second 120)
    ∷ round 0 (datagram wrong_command bob, at_second 120)
    ∷ []

command-locks_out_example :
    let s =
      system_step plain
        (system_start plain small_config metrics_new 2)
        (round 0 (datagram wrong_command bob, at_second 61)) in
    (control plain (system_run plain s within_a_minute).tunnel ≡ control plain s.tunnel)
    × (s.tunnel.last_command_tick ≡ 61)
command-locks_out_example =
    command-locks_out plain (system_start plain small_config metrics_new 2) 0 wrong_command bob
      (at_second 61) within_a_minute started-counts (omega arith)
      (omega arith, (omega arith, (omega arith, (omega arith, tt))))

alice_found : plain.get 1 one_client.mappings ≡ some alice_client
unfolding program alice_client
alice_found = refl

alice_late : is_expired plain (at_second 60) 1 alice_client ≡ true
unfolding alice_client
alice_late = refl

heartbeat-cleans_example :
    plain.get 1
      (heartbeat_loop plain 255 one_client
        (at_second 60 ∷ at_second 60 ∷ at_second 60 ∷ [])).mappings
    ≡ none
heartbeat-cleans_example =
    heartbeat-cleans plain 255 one_client (at_second 60) (at_second 60) (at_second 60) 1
      alice_client (omega arith) alice_found alice_late alice_late alice_late

-- Two workers and the heartbeat.
abbrev turns : List Event
turns =
    round 0 (datagram (packet_between 1 2) alice, at_second 0)
    ∷ round 1 (datagram (packet_between 2 1) bob, at_second 1)
    ∷ tick (at_second 2)
    ∷ round 0 (failure, at_second 3)
    ∷ round 1 (datagram (1 ∷ []) bob, at_second 3)
    ∷ []

turns_send_one :
    (system_run plain (system_start plain small_config metrics_new 2) turns).sent
    ≡ record { payload = packet_between 2 1; target = alice } ∷ []
unfolding program system_start system_step system_run
turns_send_one = refl

system_run-Sound_example :
    Sound plain small_config
      (system_run plain (system_start plain small_config metrics_new 2) turns).tunnel
system_run-Sound_example = system_run-Sound plain small_config metrics_new 2 turns

system_run-Totals_example :
    Totals plain metrics_new 2
      (system_taken plain turns)
      (system_refused plain turns)
      (system_run plain (system_start plain small_config metrics_new 2) turns)
system_run-Totals_example =
    system_run-Totals plain small_config metrics_new 2 turns
      (omega arith, (omega arith, (tt, (omega arith, (omega arith, tt)))))

system_run-implements_example :
    let s = system_start plain small_config metrics_new 2 in
    RelayRun parse_packet_header blank
      (inputs plain s turns)
      (system_run plain s turns).sent
      (view plain (system_run plain s turns).tunnel)
system_run-implements_example = system_run-implements plain small_config metrics_new 2 turns

alice-differs : alice ≢ bob
unfolding same_addr
alice-differs = same_addr_ne alice bob refl

bob-may_speak : may_speak plain two_clients 2 bob (at_second 2) ≡ true
unfolding program may_speak
bob-may_speak = refl

-- Bob's packet reaches Alice.
on_receive-reaches_example :
    (on_receive plain two_clients (packet_between 2 1) bob batch_new (at_second 2)).sent
    ≡ record { payload = packet_between 2 1; target = alice } ∷ []
unfolding program
on_receive-reaches_example =
    on_receive-reaches plain two_clients 2 1 (packet_between 2 1) bob alice batch_new (at_second 2)
      refl refl refl refl bob-may_speak (λ q. omega arith) refl alice-differs refl
