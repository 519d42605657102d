-- ===== src/V3/Overshoot.antt =====
-- How far workers that register clients at the same time can go above `max_clients`.
mod Tests
use cncnet_server.Base.{
  ℕ, zero, suc, ◌+◌, ◌≤◌, ◌<◌, ◌≡◌, refl, sym, ap, ◌∙◌, inl, inr, Bool, true, false, not, ◌&&◌,
  Option, none, some, List, [], ◌∷◌, ltb, if◌then◌else◌, if_cases, length, get_or, set, arith,
  is_some, Option-cases,
}
use mathlib.Core.Path.{subst}
use cncnet_server.Deps.{Deps}
use cncnet_server.Net.{SocketAddr, same_addr, Io}
use cncnet_server.V3.{timeout_seconds}
use cncnet_server.V3.Capacity.{
  target, is_harmless, to_come, Bounded, set-Bounded, admit-Bounded, insert-Bounded, remove-Bounded,
}
use cncnet_server.V3.Race.{
  Handling, ready, unknown, admitted, reconnecting, Registering, worker_step, RegisterStep, works,
  swept, RegisterReach, none_yet, and_then,
}

module _ (d : Deps) where
  open d use {Map, get, len, TunnelClient, new_with_endpoint, remote_ep, is_timed_out}

  module _ (max_clients k : ℕ) where
    worker_step-Bounded :
        (io : Io) (r : Registering d) (i sender_id : ℕ) (a : SocketAddr) (acquired : Bool)
        (h : Handling)
        → get_or r.workers i ready ≡ h
        → Bounded d max_clients k r
        → Bounded d max_clients k (worker_step d max_clients io r i sender_id a acquired h)
    unfolding worker_step
    worker_step-Bounded io r i id a acquired ready e v = elim (Option-cases (get id r.mappings)) [
      | inl f ↦
          rw (f, worker_step) (set-Bounded d max_clients k r i (unknown id) (rw e refl) refl v)
      | inr (c, f) ↦ elim (Option-cases (remote_ep c)) [
        | inl g ↦ rw (f, worker_step, g) v
        | inr (ep, g) ↦
            rw (f, worker_step, g)
              (if_cases (Bounded d max_clients k)
                (not (same_addr ep a) && is_timed_out c io.clock && acquired) _ _
                (λ _. set-Bounded d max_clients k r i (reconnecting id) (rw e refl) (rw f refl) v)
                (λ _. v))
      ]
    ]
    worker_step-Bounded io r i sender_id a acquired (unknown id) e v =
        if_cases (Bounded d max_clients k) (ltb (len r.mappings) max_clients && acquired) _ _
          (λ room. admit-Bounded d max_clients k r i id (ground (arith, room)) v)
          (λ _. set-Bounded d max_clients k r i ready (rw e refl) refl v)
    worker_step-Bounded io r i sender_id a acquired (admitted id) e v =
        insert-Bounded d max_clients k r i id (new_with_endpoint a timeout_seconds io.clock)
          (rw e refl) v
    worker_step-Bounded io r i sender_id a acquired (reconnecting id) e v =
        insert-Bounded d max_clients k r i id (new_with_endpoint a timeout_seconds io.clock)
          (rw e refl) v

    RegisterStep-Bounded :
        {r u : Registering d}
        → RegisterStep d max_clients r u
        → Bounded d max_clients k r
        → Bounded d max_clients k u
    RegisterStep-Bounded {r} (works i sender_id a acquired io inside) v =
        worker_step-Bounded io r i sender_id a acquired (get_or r.workers i ready) refl v
    RegisterStep-Bounded {r} (swept id) v = remove-Bounded d max_clients k r id v

    RegisterReach-Bounded :
        {r u : Registering d}
        → RegisterReach d max_clients r u
        → Bounded d max_clients k r
        → Bounded d max_clients k u
    RegisterReach-Bounded none_yet v = v
    RegisterReach-Bounded (and_then s t) v = RegisterStep-Bounded t (RegisterReach-Bounded s v)

  -- So many workers between packets.
  abbrev pub all_ready : ℕ → List Handling
  all_ready zero = []
  all_ready (suc n) = ready ∷ all_ready n

  length-all_ready : (n : ℕ) → length (all_ready n) ≡ n
  length-all_ready zero = refl
  length-all_ready (suc n) = ap suc (length-all_ready n)

  to_come-all_ready : (m : Map TunnelClient) (n : ℕ) → to_come d m (all_ready n) ≡ 0
  to_come-all_ready m zero = refl
  to_come-all_ready m (suc n) = omega (arith, to_come-all_ready m n)

  -- The test of the limit and the insertion are not one step, nor are the test whether a client has
  -- timed out and the insertion of the new one, which a sweep can come between. So `k + 1` workers can
  -- go above `max_clients`, but by no more than `k`: whatever the order of their accesses to the map and
  -- of the ids that sweeps take away, the clients there are and the different ids that are to come are
  -- at most `max_clients + k`. With one worker, the limit holds.
  pub register_bounded :
      (max_clients k : ℕ) (m : Map TunnelClient) (r : Registering d)
      → len m ≤ max_clients
      → RegisterReach d max_clients (record { mappings = m; workers = all_ready (suc k) }) r
      → len r.mappings + to_come d r.mappings r.workers ≤ max_clients + k
  register_bounded max_clients k m r within s =
      let v = RegisterReach-Bounded max_clients k s (record {
        working = length-all_ready (suc k);
        bounded = omega (arith, within, to_come-all_ready m (suc k));
      }) in
      v.bounded
