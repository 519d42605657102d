-- ===== src/V3/Totals.antt =====
-- The V3 counters under all of the workers of src/tunnel_v3.rs.
use cncnet_server.Base.{
  ℕ, zero, suc, ◌+◌, ◌%◌, ◌≤◌, ◌<◌, ◌≡◌, refl, List, [], ◌∷◌, arith, length, length-append,
  length-set, get_or, set, All,
}
use cncnet_server.Base.Words.{u64_mod}
use cncnet_server.Config.{ServerConfig}
use cncnet_server.Deps.{Deps}
use cncnet_server.Metrics.{Metrics}
use cncnet_server.Net.{Io}
use cncnet_server.V3.{TunnelV3, tunnel_new}
use cncnet_server.V3.Accounting.{traffic, Counted, taken, refused, receive_loop-Counted}
use cncnet_server.V3.Accounting
use cncnet_server.V3.Cleanup.{cleanup_expired_mappings}
use cncnet_server.V3.Heartbeat.{heartbeat_tick}
use cncnet_server.V3.System.{
  Local, local_new, locals_new, Event, round, tick, System, system_start, worker_of, system_step,
  system_run,
}
use cncnet_server.V3.Worker.{Received, Worker, receive_round, receive_loop}

-- What waits in the batches: the sum of a number of each worker.
abbrev pub waiting : (Local → ℕ) → List Local → ℕ
waiting f [] = 0
waiting f (l ∷ ls) = f l + waiting f ls

waiting-set :
    (f : Local → ℕ) (ls : List Local) (i : ℕ) (l : Local)
    → i < length ls
    → f (get_or ls i local_new) + waiting f (set ls i l) ≡ f l + waiting f ls
waiting-set f [] i l inside = absurd (omega arith)
waiting-set f (k ∷ ls) zero l inside = omega arith
waiting-set f (k ∷ ls) (suc i) l inside = omega (arith, waiting-set f ls i l (omega arith))

-- Fewer than 64 packets of a kind wait in a batch.
abbrev pub IsSmall : Local → Type 0
IsSmall l =
    (l.batch.v3_packets_rx ≤ l.batch.counter % 64) × (l.batch.v3_packets_tx ≤ l.batch.counter % 64)

IsSmall-get_or : (ls : List Local) (i : ℕ) → All IsSmall ls → IsSmall (get_or ls i local_new)
IsSmall-get_or [] i h = (omega arith, omega arith)
IsSmall-get_or (l ∷ ls) zero h = h.0
IsSmall-get_or (l ∷ ls) (suc i) h = IsSmall-get_or ls i h.1

IsSmall-set :
    (ls : List Local) (i : ℕ) (l : Local) → All IsSmall ls → IsSmall l → All IsSmall (set ls i l)
IsSmall-set [] i l h small = tt
IsSmall-set (k ∷ ls) zero l h small = (small, h.1)
IsSmall-set (k ∷ ls) (suc i) l h small = (h.0, IsSmall-set ls i l h.1 small)

module _ (d : Deps) where
  -- The packets that the workers take, and those that they refuse.
  abbrev pub system_taken : List Event → ℕ
  system_taken [] = 0
  system_taken (round i e ∷ es) = taken d (e ∷ []) + system_taken es
  system_taken (tick io ∷ es) = system_taken es

  abbrev pub system_refused : List Event → ℕ
  system_refused [] = 0
  system_refused (round i e ∷ es) = refused d (e ∷ []) + system_refused es
  system_refused (tick io ∷ es) = system_refused es

  -- The worker of a round is one of those that were started.
  abbrev pub IsNumbered : ℕ → Event → Type 0
  IsNumbered workers (round i e) = i < workers
  IsNumbered workers (tick io) = Unit

  -- The counters after `n` packets taken and `i` refused by all workers, from the counters `m`.
  pub record Totals (m : Metrics) (workers n i : ℕ) (s : System d) : Type 0 where
    pub working : length s.locals ≡ workers
    pub received :
        (s.tunnel.metrics.v3_packets_received + waiting (λ l. l.batch.v3_packets_rx) s.locals)
          % u64_mod
        ≡ (m.v3_packets_received + n) % u64_mod
    pub sent :
        (s.tunnel.metrics.v3_packets_sent + waiting (λ l. l.batch.v3_packets_tx) s.locals) % u64_mod
        ≡ (m.v3_packets_sent + length s.sent) % u64_mod
    pub invalid : s.tunnel.metrics.invalid_packets % u64_mod ≡ (m.invalid_packets + i) % u64_mod
    pub small : All IsSmall s.locals

  -- The counters as a worker sees them, with its own batch poured in.
  abbrev view : Worker d → Metrics
  view w =
      let m = w.tunnel.metrics in
      record m {
        v3_packets_received = m.v3_packets_received + w.batch.v3_packets_rx;
        v3_packets_sent = m.v3_packets_sent + w.batch.v3_packets_tx;
      }

  round-Counted :
      (s : System d) (i : ℕ) (e : Received × Io)
      → All IsSmall s.locals
      → Counted d
          (view (worker_of d s i))
          (taken d (e ∷ []))
          (refused d (e ∷ []))
          (receive_round d (worker_of d s i) e)
  unfolding receive_loop
  round-Counted s i e small =
      let w = worker_of d s i in
      let mine = IsSmall-get_or s.locals i small in
      Accounting.recount d (view w) (receive_loop d w (e ∷ [])) (omega arith) (omega arith) (
        receive_loop-Counted d (view w) 0 0 w (e ∷ []) (record {
          received = omega arith;
          sent = omega arith;
          invalid = omega arith;
          few_received = mine.0;
          few_sent = mine.1;
        }))

  heartbeat_tick-traffic :
      (counter : ℕ) (t : TunnelV3 d) (io : Io)
      → traffic d (heartbeat_tick d counter t io).tunnel.metrics ≡ traffic d t.metrics
  unfolding heartbeat_tick cleanup_expired_mappings
  heartbeat_tick-traffic counter t io = ground arith

  module _ (m : Metrics) (workers n i : ℕ) where
    round-Totals :
        (s : System d) (j : ℕ) (e : Received × Io)
        → j < workers
        → Totals m workers n i s
        → Totals m workers
            (n + taken d (e ∷ []))
            (i + refused d (e ∷ []))
            (system_step d s (round j e))
    unfolding system_step
    round-Totals s j e numbered v =
        let w = receive_round d (worker_of d s j) e in
        let l : Local = record { batch = w.batch; receive_errors = w.receive_errors } in
        let c = round-Counted s j e v.small in
        let inside : j < length s.locals = omega (arith, v.working) in
        record {
          working = omega (arith, length-set s.locals j l, v.working);
          received = omega (
            arith,
            c.received,
            v.received,
            waiting-set (λ k. k.batch.v3_packets_rx) s.locals j l inside,
          );
          sent = omega (
            arith,
            c.sent,
            v.sent,
            length-append s.sent w.sent,
            waiting-set (λ k. k.batch.v3_packets_tx) s.locals j l inside,
          );
          invalid = omega (arith, c.invalid, v.invalid);
          small = IsSmall-set s.locals j l v.small (c.few_received, c.few_sent);
        }

    tick-Totals :
        (s : System d) (io : Io)
        → Totals m workers n i s
        → Totals m workers n i (system_step d s (tick io))
    unfolding system_step
    tick-Totals s io v =
        let same = heartbeat_tick-traffic s.cleanup_counter s.tunnel io in
        record {
          working = v.working;
          received = ground (arith, same, v.received);
          sent = ground (arith, same, v.sent);
          invalid = ground (arith, same, v.invalid);
          small = v.small;
        }

  recount :
      (m : Metrics) (workers : ℕ) {n i n' i' : ℕ} (s : System d)
      → n ≡ n'
      → i ≡ i'
      → Totals m workers n i s
      → Totals m workers n' i' s
  recount m workers s p q c = rw (← p, ← q) c

  run-Totals :
      (m : Metrics) (workers n i : ℕ) (s : System d) (es : List Event)
      → All (IsNumbered workers) es
      → Totals m workers n i s
      → Totals m workers (n + system_taken es) (i + system_refused es) (system_run d s es)
  unfolding system_run
  run-Totals m workers n i s [] numbered v = recount m workers s (omega arith) (omega arith) v
  run-Totals m workers n i s (round j e ∷ es) numbered v =
      recount m workers _ (omega arith) (omega arith) (
        run-Totals m workers (n + taken d (e ∷ [])) (i + refused d (e ∷ [])) _ es numbered.1
          (round-Totals m workers n i s j e numbered.0 v))
  run-Totals m workers n i s (tick io ∷ es) numbered v =
      run-Totals m workers n i _ es numbered.1 (tick-Totals m workers n i s io v)

  start-Totals :
      (config : ServerConfig) (m : Metrics) (workers : ℕ)
      → Totals m workers 0 0 (system_start d config m workers)
  unfolding system_start tunnel_new
  start-Totals config m workers = record {
    working = length_new workers;
    received = omega (arith, none_waiting (λ l. l.batch.v3_packets_rx) refl workers);
    sent = omega (arith, none_waiting (λ l. l.batch.v3_packets_tx) refl workers);
    invalid = omega arith;
    small = all_small workers;
  }
    where
      length_new : (k : ℕ) → length (locals_new k) ≡ k
      length_new zero = refl
      length_new (suc k) = omega (arith, length_new k)

      none_waiting : (f : Local → ℕ) → f local_new ≡ 0 → (k : ℕ) → waiting f (locals_new k) ≡ 0
      none_waiting f e zero = refl
      none_waiting f e (suc k) = omega (arith, e, none_waiting f e k)

      all_small : (k : ℕ) → All IsSmall (locals_new k)
      all_small zero = tt
      all_small (suc k) = ((omega arith, omega arith), all_small k)

  -- From the start of the server with the counters `m`, through the rounds of its workers and the
  -- ticks of the heartbeat in any order, receive errors included: the shared counter and the batches of
  -- all workers together have counted, modulo 2^64, every packet of 8 to 1472 bytes as received, every
  -- datagram sent as sent, and every other packet as invalid; and fewer than 64 of each wait in the
  -- batch of a worker.
  pub system_run-Totals :
      (config : ServerConfig) (m : Metrics) (workers : ℕ) (es : List Event)
      → All (IsNumbered workers) es
      → Totals m workers
          (system_taken es)
          (system_refused es)
          (system_run d (system_start d config m workers) es)
  system_run-Totals config m workers es numbered =
      recount m workers (system_run d (system_start d config m workers) es) (omega arith)
        (omega arith) (run-Totals m workers 0 0 _ es numbered (start-Totals config m workers))
