-- ===== src/V3/Implements.antt =====
-- How the runs of all tasks of src/tunnel_v3.rs together relate to the runs of `Relay`.
use cncnet_server.Base.{
  ℕ, ◌+◌, ◌%◌, ◌≡◌, refl, sym, ap, ◌∙◌, Bool, false, ◌&&◌, Option, List, [], ◌∷◌, ◌++◌, ◌==◌,
  if_cases, leb, length,
}
use mathlib.Core.Path.{subst, fun_ext}
use mathlib.Core.List.{append_assoc, append-nil}
use cncnet_server.Config.{ServerConfig}
use cncnet_server.Deps.{Deps}
use cncnet_server.Endpoint.{endpoint_in}
use cncnet_server.Metrics.{Metrics}
use cncnet_server.Net.{SocketAddr, Io, Datagram}
use cncnet_server.Relay.{
  blank, Input, incoming, internal, Same-self, idle, sweep, RelayRun, stop, go,
}
use cncnet_server.V3.{TunnelV3, tunnel_new, parse_packet_header, max_packet_size}
use cncnet_server.V3.Heartbeat.{heartbeat_tick}
use cncnet_server.V3.Refinement.{view, timed_out, Refines, cleanup-Swept, on_receive-Refines}
use cncnet_server.V3.System.{
  Event, round, tick, System, system_start, worker_of, system_step, system_run,
}
use cncnet_server.V3.Worker.{Received, datagram, failure, Worker, receive_round}

module _ (d : Deps) where
  open d use {get-create}

  -- What an event is to the relay: a datagram that the worker reads, or something internal.
  abbrev input_of : Received → Input
  input_of (datagram packet a) = incoming packet a
  input_of failure = internal

  abbrev pub input : Event → Input
  input (round i (r, io)) = input_of r
  input (tick io) = internal

  abbrev pub clock_of : Event → Io
  clock_of (round i (r, io)) = io
  clock_of (tick io) = io

  receive_round-Refines :
      (w : Worker d) (r : Received) (io : Io)
      → w.sent ≡ []
      → let w' = receive_round d w (r, io) in Refines d w.tunnel io (input_of r) w'.sent w'.tunnel
  unfolding receive_round
  receive_round-Refines w (datagram packet a) io quiet =
      if_cases {A = Worker d} (λ w'. Refines d w.tunnel io (incoming packet a) w'.sent w'.tunnel)
        (leb 8 (length packet) && leb (length packet) max_packet_size) _ _
        (λ _. rw quiet (on_receive-Refines d w.tunnel packet a w.batch io))
        (λ _. rw quiet (idle (Same-self (view d w.tunnel))))
  receive_round-Refines w failure io quiet = rw quiet (idle (Same-self (view d w.tunnel)))

  heartbeat_tick-Refines :
      (counter : ℕ) (t : TunnelV3 d) (io : Io)
      → Refines d t io internal [] (heartbeat_tick d counter t io).tunnel
  unfolding heartbeat_tick
  heartbeat_tick-Refines counter t io =
      if_cases (Refines d t io internal []) ((((counter + 1) % 256) % 3) == 0) _ _
        (λ _. sweep (cleanup-Swept d t io)) (λ _. idle (Same-self (view d t)))

  -- A step of the system is a step of the relay, which sends what the system sends.
  abbrev StepRefines : System d → Event → Type 0
  StepRefines s e =
      (out : List Datagram) × ((system_step d s e).sent ≡ s.sent ++ out)
      × Refines d s.tunnel (clock_of e) (input e) out (system_step d s e).tunnel

  system_step-Refines : (s : System d) (e : Event) → StepRefines s e
  unfolding system_step
  system_step-Refines s (round i (r, io)) =
      (_, refl, receive_round-Refines (worker_of d s i) r io refl)
  system_step-Refines s (tick io) =
      ([], sym (append-nil s.sent), heartbeat_tick-Refines s.cleanup_counter s.tunnel io)

  -- The inputs of a run, each with the ids whose clients had timed out then.
  pub inputs : System d → List Event → List (Input × (ℕ → Bool))
  inputs s [] = []
  inputs s (e ∷ es) = (input e, timed_out d s.tunnel (clock_of e)) ∷ inputs (system_step d s e) es

  abbrev RunRefines : System d → List Event → Type 0
  RunRefines s es =
      (out : List Datagram) × ((system_run d s es).sent ≡ s.sent ++ out)
      × RelayRun parse_packet_header (view d s.tunnel) (inputs s es) out
          (view d (system_run d s es).tunnel)

  run-Refines : (s : System d) (es : List Event) → RunRefines s es
  unfolding inputs system_run
  run-Refines s [] = ([], sym (append-nil s.sent), stop)
  run-Refines s (e ∷ es) =
      let (out, sent, refines) = system_step-Refines s e in
      let (rest, sent', runs) = run-Refines (system_step d s e) es in
      (
        out ++ rest,
        sent' ∙ ap (λ l. l ++ rest) sent ∙ append_assoc s.sent out rest,
        go refines runs,
      )

  start-blank :
      (config : ServerConfig) (m : Metrics) (workers : ℕ)
      → view d (system_start d config m workers).tunnel ≡ blank
  unfolding system_start tunnel_new
  start-blank config m workers =
      ap (λ (f : ℕ → Option SocketAddr). record { endpoints = f; closed = false })
        (fun_ext (λ j. rw (endpoint_in, get-create) refl))

  -- Every run of the server's V3 tasks from its start is a run of the relay from the blank one, with the
  -- same datagrams sent in the same order: the datagrams read are its inputs, and an id may be taken over
  -- or lost in a step only where its client has timed out by a clock read in that step.
  pub system_run-implements :
      (config : ServerConfig) (m : Metrics) (workers : ℕ) (es : List Event)
      → let s = system_start d config m workers in
        RelayRun parse_packet_header blank
          (inputs s es)
          (system_run d s es).sent
          (view d (system_run d s es).tunnel)
  unfolding system_start
  system_run-implements config m workers es =
      let s = system_start d config m workers in
      let (out, sent, runs) = run-Refines s es in
      subst
        (λ v.
          RelayRun parse_packet_header v (inputs s es) (system_run d s es).sent
            (view d (system_run d s es).tunnel))
        (start-blank config m workers)
        (subst
          (λ l.
            RelayRun parse_packet_header (view d s.tunnel) (inputs s es) l
              (view d (system_run d s es).tunnel))
          (sym sent) runs)
