-- ===== src/V2/System.antt =====
-- The life of the V2 tunnel: packets, HTTP requests and ticks, in any order.
use cncnet_server.Base.{
  ℕ, ◌≤◌, ◌<◌, ◌≡◌, refl, sym, ap, ◌∙◌, ◌≢◌, inl, inr, Bool, true, not, ◌&&◌, Option, List, [],
  if_cases, arith, Option-cases, Bool-cases, is_some, leb, length, length-filter-le, slice_eq,
  get_or,
}
use cncnet_server.Config.{ServerConfig}
use cncnet_server.Deps.{Deps}
use cncnet_server.Limiter.{check_and_increment}
use cncnet_server.Metrics.{Metrics, LocalMetricsBatch, record_v2_rx}
use cncnet_server.Net.{SocketAddr, ip, Io}
use cncnet_server.Text.{codes, starts_with, split}
use cncnet_server.V2.{
  TunnelV2, Outcome, tunnel_new, check_sender, relay_packet, handle_data_forward, handle_ping,
  receive_ping, dispatch_packet, on_udp_receive, sender_of, receiver_of,
}
use cncnet_server.V2.Allocate.{handle_request, finish_request}
use cncnet_server.V2.Delivery.{on_udp_receive-Handled}
use cncnet_server.V2.Http.{
  Request, accept_connection, handle_maintenance, route, handle_http_request,
}
use cncnet_server.V2.Periodic.{cleanup_expired_mappings, heartbeat_tick}
use cncnet_server.Base.Words.{add64}
use cncnet_server.V2.Response.{Response}
use cncnet_server.V2.Requests.{handle_request-Settled}
use cncnet_server.V2.Slots.{elem, IsFree, All-elem}

module _ (d : Deps) where
  open d use {
    Map, get, len, retain, iter, TunnelClient, is_timed_out, get-create, len-create, get-retain,
    len-retain, len-iter,
  }

  -- One thing that happens to the tunnel. The ids that the random numbers give are in range.
  pub data Step (t : TunnelV2 d) : TunnelV2 d → Type 0 where
    packet :
        (bytes : List ℕ) (a : SocketAddr) (batch : LocalMetricsBatch) (io : Io)
        → Step t (on_udp_receive d t bytes a batch io).tunnel
    flushed : (m : Metrics) → Step t (record t { metrics = m })
    connection : (permit : Bool) → Step t (accept_connection d t permit)
    request :
        (req : Request) (a : SocketAddr) (rng : ℕ → ℕ) (io : Io)
        → ((i : ℕ) → rng i < 65536)
        → Step t (handle_http_request d t req a rng io).0
    tick : (io : Io) → Step t (heartbeat_tick d t io).0

  pub data Reach (t : TunnelV2 d) : TunnelV2 d → Type 0 where
    here : Reach t t
    next : {u v : TunnelV2 d} → Reach t u → Step u v → Reach t v

  -- No more clients than the limit, and every id a non-zero i16.
  pub record SoundMap (limit configured : ℕ) (m : Map TunnelClient) : Type 0 where
    pub limited : configured ≡ limit
    pub bounded : len m ≤ limit
    pub named : (k : ℕ) → is_some (get k m) ≡ true → (k ≢ 0) × (k < 65536)

  abbrev pub Sound : ℕ → TunnelV2 d → Type 0
  Sound limit t = SoundMap limit t.config.max_clients t.mappings

  check_sender-config :
      (t : TunnelV2 d) (k : ℕ) (c : TunnelClient) (bytes : List ℕ) (a : SocketAddr) (io : Io)
      → (check_sender d t k c bytes a io).0.config ≡ t.config
  unfolding check_sender
  check_sender-config t k c bytes a io = ground arith

  relay_packet-config :
      (t : TunnelV2 d) (k : ℕ) (bytes : List ℕ) (a : SocketAddr) (batch : LocalMetricsBatch)
      (io : Io)
      → (relay_packet d t k bytes a batch io).tunnel.config ≡ t.config
  unfolding relay_packet
  relay_packet-config t k bytes a batch io = ground arith

  handle_data_forward-config :
      (t : TunnelV2 d) (s r : ℕ) (bytes : List ℕ) (a : SocketAddr) (batch : LocalMetricsBatch)
      (io : Io)
      → (handle_data_forward d t s r bytes a batch io).tunnel.config ≡ t.config
  unfolding handle_data_forward
  handle_data_forward-config t s r bytes a batch io = elim (Option-cases (get s t.mappings)) [
    | inl e ↦ rw (e, handle_data_forward) refl
    | inr (c, e) ↦
        let t' : TunnelV2 d = (check_sender d t s c bytes a io).0 in
        rw (e, handle_data_forward)
          (if_cases {A = Outcome d} (λ o. o.tunnel.config ≡ t.config)
            (check_sender d t s c bytes a io).1 _ _
            (λ _. relay_packet-config t' r bytes a batch io ∙ check_sender-config t s c bytes a io)
            (λ _. check_sender-config t s c bytes a io))
  ]

  on_udp_receive-config :
      (t : TunnelV2 d) (bytes : List ℕ) (a : SocketAddr) (batch : LocalMetricsBatch) (io : Io)
      → (on_udp_receive d t bytes a batch io).tunnel.config ≡ t.config
  unfolding on_udp_receive dispatch_packet receive_ping handle_ping
  on_udp_receive-config t bytes a batch io = ground (
    arith,
    handle_data_forward-config t (sender_of bytes) (receiver_of bytes) bytes a
        (record_v2_rx batch (length bytes)) io,
  )

  handle_request-config :
      (t : TunnelV2 d) (query : Option (List ℕ)) (rng : ℕ → ℕ) (io : Io)
      → (handle_request d t query rng io).0.config ≡ t.config
  unfolding handle_request finish_request
  handle_request-config t query rng io = ground arith

  module _ (limit : ℕ) where
    on_udp_receive-Sound :
        (t : TunnelV2 d) (bytes : List ℕ) (a : SocketAddr) (batch : LocalMetricsBatch) (io : Io)
        → Sound limit t
        → Sound limit (on_udp_receive d t bytes a batch io).tunnel
    on_udp_receive-Sound t bytes a batch io s =
        let h = on_udp_receive-Handled d t bytes a batch io in
        record {
          limited =
              ap (λ (c : ServerConfig). c.max_clients) (on_udp_receive-config t bytes a batch io)
              ∙ s.limited;
          bounded = omega (arith, h.ids.as_many, s.bounded);
          named = λ k present. s.named k (sym (h.ids.same k) ∙ present);
        }

    handle_request-Sound :
        (t : TunnelV2 d) (query : Option (List ℕ)) (rng : ℕ → ℕ) (io : Io)
        → ((i : ℕ) → rng i < 65536)
        → Sound limit t
        → Sound limit (handle_request d t query rng io).0
    handle_request-Sound t query rng io range s =
        elim (handle_request-Settled d t query rng io range) [
          | inl (ns, g) ↦ record {
            limited =
                ap (λ (c : ServerConfig). c.max_clients) (handle_request-config t query rng io)
                ∙ s.limited;
            bounded = omega (arith, g.within, s.limited);
            named = λ k present. elim (Bool-cases (elem k ns)) [
              | inl drawn ↦
                  let free = All-elem (IsFree d t.mappings) k ns g.drawn.free drawn in
                  (free.1, free.0)
              | inr old ↦ s.named k (ground (arith, g.drawn.reads k))
            ];
          }
          | inr r ↦ record {
            limited =
                ap (λ (c : ServerConfig). c.max_clients) (handle_request-config t query rng io)
                ∙ s.limited;
            bounded = omega (arith, r.as_many, s.bounded);
            named = λ k present. s.named k (ap is_some (sym (r.same k)) ∙ present);
          }
        ]

    handle_http_request-Sound :
        (t : TunnelV2 d) (req : Request) (a : SocketAddr) (rng : ℕ → ℕ) (io : Io)
        → ((i : ℕ) → rng i < 65536)
        → Sound limit t
        → Sound limit (handle_http_request d t req a rng io).0
    unfolding handle_http_request route handle_maintenance
    handle_http_request-Sound t req a rng io range s =
        let P : TunnelV2 d × Response → Type 0 = λ r. Sound limit r.0 in
        let (allowed, limiter) = check_and_increment d.rater t.request_limiter (ip a) io.clock in
        let m = t.metrics in
        let counted : TunnelV2 d = record t {
          request_limiter = limiter;
          metrics = record m { v2_http_requests = add64 m.v2_http_requests 1 };
        } in
        if_cases P (not allowed) _ _ (λ _. s)
          (λ _.
            if_cases P (not req.is_get) _ _ (λ _. s)
              (λ _.
                if_cases P (slice_eq req.path (codes "/status")) _ _ (λ _. s)
                  (λ _.
                    if_cases P (slice_eq req.path (codes "/request")) _ _
                      (λ _. handle_request-Sound counted req.query rng io range s)
                      (λ _.
                        if_cases P (starts_with (codes "/maintenance/") req.path) _ _
                          (λ _.
                            if_cases P (slice_eq t.config.maintenance_password []) _ _ (λ _. s)
                              (λ _.
                                if_cases P
                                  (leb 3 (length (split b'/' req.path))
                                    && slice_eq (get_or (split b'/' req.path) 2 [])
                                        t.config.maintenance_password)
                                  _ _ (λ _. s) (λ _. s)))
                          (λ _.
                            if_cases P (slice_eq req.path (codes "/health")) _ _ (λ _. s)
                              (λ _. s))))))

    heartbeat_tick-Sound :
        (t : TunnelV2 d) (io : Io) → Sound limit t → Sound limit (heartbeat_tick d t io).0
    unfolding heartbeat_tick cleanup_expired_mappings
    heartbeat_tick-Sound t io s =
        let keep : ℕ → TunnelClient → Bool = λ k c. not (is_timed_out c (io.sweep_clock k)) in
        record {
          limited = s.limited;
          bounded = omega (
            arith,
            s.bounded,
            len-retain keep t.mappings,
            len-iter t.mappings,
            length-filter-le (λ e. keep e.0 e.1) (iter t.mappings),
          );
          named = λ k present. s.named k (ground (arith, get-retain keep k t.mappings));
        }

    Step-Sound : {t u : TunnelV2 d} → Step t u → Sound limit t → Sound limit u
    unfolding accept_connection
    Step-Sound {t} (packet bytes a batch io) s = on_udp_receive-Sound t bytes a batch io s
    Step-Sound (flushed m) s = s
    Step-Sound {t} (connection permit) s = if_cases (Sound limit) permit _ _ (λ _. s) (λ _. s)
    Step-Sound {t} (request req a rng io range) s = handle_http_request-Sound t req a rng io range s
    Step-Sound {t} (tick io) s = heartbeat_tick-Sound t io s

    Reach-Sound : {t u : TunnelV2 d} → Sound limit t → Reach t u → Sound limit u
    Reach-Sound s here = s
    Reach-Sound s (next r st) = Step-Sound st (Reach-Sound s r)

  tunnel_new-Sound :
      (config : ServerConfig) (m : Metrics) → Sound config.max_clients (tunnel_new d config m)
  unfolding tunnel_new
  tunnel_new-Sound config m = record {
    limited = refl;
    bounded = omega (arith, len-create {V = TunnelClient} config.max_clients);
    named =
        λ k present. absurd (ground (arith, get-create {V = TunnelClient} k config.max_clients));
  }

  -- From the start, through any packets, HTTP requests, dropped connections, flushes and ticks in any
  -- order, each as one step, the V2 tunnel never has more clients than `max_clients`, and never a client
  -- under id 0 or outside the range of an i16.
  pub tunnel-Sound :
      (config : ServerConfig) (m : Metrics) (t : TunnelV2 d)
      → Reach (tunnel_new d config m) t
      → Sound config.max_clients t
  tunnel-Sound config m t r = Reach-Sound config.max_clients (tunnel_new-Sound config m) r
