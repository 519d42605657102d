-- ===== src/V2/Implements.antt =====
-- How the life of the V2 tunnel, HTTP requests included, relates to the runs of `Relay`.
use mathlib.Core.Path.{subst, fun_ext}
use cncnet_server.Base.{
  ℕ, ◌<◌, ◌≡◌, refl, ap, inl, inr, Bool, false, not, ◌&&◌, Option, none, some, List, [], ◌∷◌, ◌++◌,
  if_cases, arith, Option-cases, Bool-cases, slice_eq, leb, length, get_or,
}
use cncnet_server.Base.Words.{add64}
use cncnet_server.Config.{ServerConfig}
use cncnet_server.Deps.{Deps}
use cncnet_server.Endpoint.{endpoint_in}
use cncnet_server.Limiter.{check_and_increment}
use cncnet_server.Metrics.{Metrics}
use cncnet_server.Net.{SocketAddr, ip, Io, Datagram}
use cncnet_server.Relay.{
  blank, Input, incoming, internal, Same-self, Swept, RelayStep, idle, toggle, sweep, RelayRun,
  stop, go, RelayRun-append,
}
use cncnet_server.Text.{codes, starts_with, split}
use cncnet_server.V2.{TunnelV2, tunnel_new, on_udp_receive, timeout_seconds}
use cncnet_server.V2.Allocate.{handle_request}
use cncnet_server.V2.Http.{
  Request, accept_connection, handle_maintenance, route, handle_http_request,
}
use cncnet_server.V2.Maintenance.{switches, handle_http_request-mode}
use cncnet_server.V2.Periodic.{cleanup_expired_mappings, heartbeat_tick}
use cncnet_server.V2.Refinement.{header, view, timed_out, Refines, on_udp_receive-Refines}
use cncnet_server.V2.Requests.{handle_request-Settled}
use cncnet_server.V2.Response.{Response}
use cncnet_server.V2.Slots.{elem, IsFree, All-elem}
use cncnet_server.V2.System.{Step, packet, flushed, connection, request, tick, Reach, here, next}

module _ (d : Deps) where
  open d use {
    get, TunnelClient, is_timed_out, client_new, remote_ep-client_new, get-retain, get-create,
  }

  -- Every id has the endpoint that it had.
  abbrev Unmoved : TunnelV2 d → TunnelV2 d × Response → Type 0
  Unmoved t r = (j : ℕ) → endpoint_in d r.0.mappings j ≡ endpoint_in d t.mappings j

  handle_request-Unmoved :
      (t : TunnelV2 d) (query : Option (List ℕ)) (rng : ℕ → ℕ) (io : Io)
      → ((i : ℕ) → rng i < 65536)
      → Unmoved t (handle_request d t query rng io)
  handle_request-Unmoved t query rng io range j =
      elim (handle_request-Settled d t query rng io range) [
        | inl (ns, g) ↦ elim (Bool-cases (elem j ns)) [
          | inl drawn ↦
              let free = All-elem (IsFree d t.mappings) j ns g.drawn.free drawn in
              ground (
                arith,
                g.drawn.reads j,
                drawn,
                free.2,
                remote_ep-client_new timeout_seconds io.clock,
              )
          | inr old ↦ ground (arith, g.drawn.reads j, old)
        ]
        | inr r ↦ ap (λ c. elim c [ none ↦ none | some e ↦ d.remote_ep e ]) (r.same j)
      ]

  route-Unmoved :
      (t : TunnelV2 d) (req : Request) (rng : ℕ → ℕ) (io : Io)
      → ((i : ℕ) → rng i < 65536)
      → Unmoved t (route d t req rng io)
  unfolding route handle_maintenance
  route-Unmoved t req rng io range =
      let P : TunnelV2 d × Response → Type 0 = Unmoved t in
      if_cases P (not req.is_get) _ _ (λ _ j. refl)
        (λ _.
          if_cases P (slice_eq req.path (codes "/status")) _ _ (λ _ j. refl)
            (λ _.
              if_cases P (slice_eq req.path (codes "/request")) _ _
                (λ _. handle_request-Unmoved t req.query rng io range)
                (λ _.
                  if_cases P (starts_with (codes "/maintenance/") req.path) _ _
                    (λ _.
                      if_cases P (slice_eq t.config.maintenance_password []) _ _ (λ _ j. refl)
                        (λ _.
                          if_cases P
                            (leb 3 (length (split b'/' req.path))
                              && slice_eq (get_or (split b'/' req.path) 2 [])
                                  t.config.maintenance_password)
                            _ _ (λ _ j. refl) (λ _ j. refl)))
                    (λ _.
                      if_cases P (slice_eq req.path (codes "/health")) _ _ (λ _ j. refl)
                        (λ _ j. refl)))))

  handle_http_request-Unmoved :
      (t : TunnelV2 d) (req : Request) (a : SocketAddr) (rng : ℕ → ℕ) (io : Io)
      → ((i : ℕ) → rng i < 65536)
      → Unmoved t (handle_http_request d t req a rng io)
  unfolding handle_http_request
  handle_http_request-Unmoved t req a rng io range =
      let (allowed, limiter) = check_and_increment d.rater t.request_limiter (ip a) io.clock in
      let m = t.metrics in
      let counted : TunnelV2 d = record t {
        request_limiter = limiter;
        metrics = record m { v2_http_requests = add64 m.v2_http_requests 1 };
      } in
      if_cases (Unmoved t) (not allowed) _ _ (λ _ j. refl)
        (λ _. route-Unmoved counted req rng io range)

  handle_http_request-Refines :
      (t : TunnelV2 d) (req : Request) (a : SocketAddr) (rng : ℕ → ℕ) (io : Io)
      → ((i : ℕ) → rng i < 65536)
      → Refines d t io internal [] (handle_http_request d t req a rng io).0
  handle_http_request-Refines t req a rng io range =
      let unmoved = handle_http_request-Unmoved t req a rng io range in
      let mode = handle_http_request-mode d t req a rng io in
      elim (Bool-cases (switches d t req a io)) [
        | inl on ↦ toggle unmoved (ground (arith, mode, on))
        | inr off ↦ idle (record { endpoints = unmoved; closed = ground (arith, mode, off) })
      ]

  heartbeat_tick-Swept :
      (t : TunnelV2 d) (io : Io)
      → Swept (timed_out d t io) (view d t) (view d (heartbeat_tick d t io).0)
  unfolding heartbeat_tick cleanup_expired_mappings
  heartbeat_tick-Swept t io = record {
    endpoints = λ j.
        let kept =
          get-retain (λ key value. not (is_timed_out value (io.sweep_clock key))) j t.mappings in
        elim (Option-cases (get j t.mappings)) [
          | inl e ↦ inl (ground (arith, kept, e))
          | inr (c, e) ↦ elim (Bool-cases (is_timed_out c (io.sweep_clock j))) [
            | inl late ↦ inr (ground (arith, e, late), ground (arith, kept, e, late))
            | inr alive ↦ inl (ground (arith, kept, e, alive))
          ]
        ];
    closed = refl;
  }

  -- What a step is to the relay, and what it sends.
  pub input : {t u : TunnelV2 d} → Step d t u → Input × (ℕ → Bool)
  input {t} (packet bytes a batch io) = (incoming bytes a, timed_out d t io)
  input (flushed m) = (internal, λ j. false)
  input (connection permit) = (internal, λ j. false)
  input {t} (request req a rng io range) = (internal, timed_out d t io)
  input {t} (tick io) = (internal, timed_out d t io)

  pub output : {t u : TunnelV2 d} → Step d t u → List Datagram
  output {t} (packet bytes a batch io) = (on_udp_receive d t bytes a batch io).sent
  output _ = []

  Step-Refines :
      {t u : TunnelV2 d} (s : Step d t u)
      → RelayStep header (input s).1 (view d t) (input s).0 (output s) (view d u)
  unfolding input output accept_connection
  Step-Refines {t} (packet bytes a batch io) = on_udp_receive-Refines d t bytes a batch io
  Step-Refines {t} (flushed m) = idle (Same-self (view d t))
  Step-Refines {t} (connection permit) =
      if_cases (λ u. RelayStep header (λ j. false) (view d t) internal [] (view d u)) permit _ _
        (λ _. idle (Same-self (view d t))) (λ _. idle (Same-self (view d t)))
  Step-Refines {t} (request req a rng io range) = handle_http_request-Refines t req a rng io range
  Step-Refines {t} (tick io) = sweep (heartbeat_tick-Swept t io)

  -- The inputs of a life, each with the ids whose clients had timed out then, and all that was sent.
  pub inputs : {t u : TunnelV2 d} → Reach d t u → List (Input × (ℕ → Bool))
  inputs here = []
  inputs (next r s) = inputs r ++ (input s ∷ [])

  pub outputs : {t u : TunnelV2 d} → Reach d t u → List Datagram
  outputs here = []
  outputs (next r s) = outputs r ++ (output s ++ [])

  Reach-runs :
      {t u : TunnelV2 d} (r : Reach d t u)
      → RelayRun header (view d t) (inputs r) (outputs r) (view d u)
  unfolding inputs outputs
  Reach-runs here = stop
  Reach-runs (next r s) = RelayRun-append (Reach-runs r) (go (Step-Refines s) stop)

  start-blank : (config : ServerConfig) (m : Metrics) → view d (tunnel_new d config m) ≡ blank
  unfolding tunnel_new
  start-blank config m =
      ap (λ (f : ℕ → Option SocketAddr). record { endpoints = f; closed = false })
        (fun_ext (λ j. rw (endpoint_in, get-create) refl))

  -- From the start of the V2 tunnel, through any packets, HTTP requests, dropped connections, flushes
  -- and ticks in any order, each as one step: what happens is a run of the relay from the blank one,
  -- with the same datagrams sent in the same order. The packets are its inputs; HTTP requests move no
  -- address, also where they allocate ids or give them back; and an id may be taken over or lost in a
  -- step only where its client has timed out by a clock read in that step.
  pub Reach-implements :
      (config : ServerConfig) (m : Metrics) (t : TunnelV2 d) (r : Reach d (tunnel_new d config m) t)
      → RelayRun header blank (inputs r) (outputs r) (view d t)
  Reach-implements config m t r =
      subst (λ v. RelayRun header v (inputs r) (outputs r) (view d t)) (start-blank config m)
        (Reach-runs r)
