-- ===== src/V2/Supply.antt =====
-- When `handle_request` in src/tunnel_v2.rs finds enough ids: how many a stream offers.
mod Tests
use cncnet_server.Base.{
  ℕ, zero, suc, ◌+◌, ◌≤◌, ◌<◌, ◌≡◌, refl, ap, ◌∙◌, inl, inr, Bool, true, false, not, ◌&&◌, ◌||◌,
  Option, none, some, List, [], ◌∷◌, ◌++◌, map, ltb, ◌==◌, if◌then◌else◌, length, length-map,
  if_cases, All, arith, Bool-cases, is_some, take, filter, if_cases,
}
use cncnet_server.Deps.{Deps}
use cncnet_server.Net.{Io}
use cncnet_server.Text.{join}
use cncnet_server.Text.Decimal.{i16_to_string}
use cncnet_server.V2.{TunnelV2}
use cncnet_server.V2.Allocate.{
  clients_parameter, handle_request, finish_request, draw_ids, max_attempts,
}
use cncnet_server.V2.Draws.{stream, firsts, usable, offered, enter, draw_ids-offered}
use cncnet_server.V2.Requests.{Granted, handle_request-Settled}
use cncnet_server.V2.Response.{Response, status_ok, json}
use cncnet_server.V2.Slots.{elem, distinct, len-give_back}

All-stream :
    (P : ℕ → Type 0) (rng : ℕ → ℕ) (left i : ℕ) → ((j : ℕ) → P (rng j)) → All P (stream rng left i)
All-stream P rng zero i h = tt
All-stream P rng (suc left) i h = (h i, All-stream P rng left (suc i) h)

All-firsts : (P : ℕ → Type 0) (seen ns : List ℕ) → All P ns → All P (firsts seen ns)
All-firsts P seen [] h = tt
All-firsts P seen (n ∷ ns) h =
    if_cases (All P) (elem n seen) _ _ (λ _. All-firsts P seen ns h.1)
      (λ _. (h.0, All-firsts P (n ∷ seen) ns h.1))

elem-firsts : (k : ℕ) (seen ns : List ℕ) → elem k seen ≡ true → elem k (firsts seen ns) ≡ false
elem-firsts k seen [] e = refl
elem-firsts k seen (n ∷ ns) e =
    ground (arith, elem-firsts k seen ns e, elem-firsts k (n ∷ seen) ns (ground (arith, e)), e)

elem_self : (n : ℕ) (seen : List ℕ) → elem n (n ∷ seen) ≡ true
elem_self n seen = ground arith

distinct-firsts : (seen ns : List ℕ) → distinct (firsts seen ns) ≡ true
distinct-firsts seen [] = refl
distinct-firsts seen (n ∷ ns) =
    if_cases (λ l. distinct l ≡ true) (elem n seen) _ _ (λ _. distinct-firsts seen ns)
      (λ _.
        ground
          (arith, distinct-firsts (n ∷ seen) ns, elem-firsts n (n ∷ seen) ns (elem_self n seen)))

elem-filter :
    (p : ℕ → Bool) (k : ℕ) (ns : List ℕ) → elem k ns ≡ false → elem k (filter p ns) ≡ false
elem-filter p k [] e = refl
elem-filter p k (n ∷ ns) e = ground (arith, e, elem-filter p k ns)

distinct-filter : (p : ℕ → Bool) (ns : List ℕ) → distinct ns ≡ true → distinct (filter p ns) ≡ true
distinct-filter p [] e = refl
distinct-filter p (n ∷ ns) e = ground (arith, e, distinct-filter p ns, elem-filter p n ns)

All-filter : (P : ℕ → Type 0) (p : ℕ → Bool) (ns : List ℕ) → All P ns → All P (filter p ns)
All-filter P p [] h = tt
All-filter P p (n ∷ ns) h =
    if_cases (All P) (p n) _ _ (λ _. (h.0, All-filter P p ns h.1)) (λ _. All-filter P p ns h.1)

All-filter_self : (p : ℕ → Bool) (ns : List ℕ) → All (λ n. p n ≡ true) (filter p ns)
All-filter_self p [] = tt
All-filter_self p (n ∷ ns) =
    if_cases (All (λ n. p n ≡ true)) (p n) _ _ (λ e. (e, All-filter_self p ns))
      (λ _. All-filter_self p ns)

length-take : {A : Type 0} (n : ℕ) (xs : List A) → n ≤ length xs → length (take n xs) ≡ n
length-take zero xs h = refl
length-take (suc n) [] h = absurd (omega (arith, h))
length-take (suc n) (x ∷ xs) h = ap suc (length-take n xs (omega (arith, h)))

module _ (d : Deps) where
  open d use {Map, get, len, TunnelClient}

  abbrev taken : Map TunnelClient → ℕ → Bool
  taken m n = is_some (get n m)

  -- Of different numbers, at most one is 0, and the others are usable or taken.
  parts :
      (m : Map TunnelClient) (ns : List ℕ)
      → distinct ns ≡ true
      → length ns
        ≤ (length (filter (usable d m) ns) + length (filter (taken m) ns))
          + (if elem 0 ns then 1 else 0)
  parts m [] e = omega arith
  parts m (n ∷ ns) e = ground (arith, e, parts m ns)

  taken_few :
      (m : Map TunnelClient) (ns : List ℕ)
      → distinct ns ≡ true
      → All (λ n. n < 65536) ns
      → length (filter (taken m) ns) ≤ len m
  taken_few m ns e range =
      let present = filter (taken m) ns in
      omega (
        arith,
        len-give_back d present m (All-filter (λ n. n < 65536) (taken m) ns range)
            (distinct-filter (taken m) ns e) (All-filter_self (taken m) ns),
      )

  -- Draws offer all their different numbers, but for 0 and the ids in use.
  offered_many :
      (m : Map TunnelClient) (draws : List ℕ)
      → All (λ n. n < 65536) draws
      → length (firsts [] draws) ≤ length (offered d m draws) + (len m + 1)
  offered_many m draws range =
      let ns = firsts [] draws in
      let e = distinct-firsts [] draws in
      ground (arith, parts m ns e, taken_few m ns e (All-firsts (λ n. n < 65536) [] draws range))

  -- What the answer of a request with as many ids as asked for is.
  finish_request-answer :
      (t : TunnelV2 d) (m : Map TunnelClient) (clients : ℕ) (ids : List ℕ)
      → length ids ≡ clients
      → (finish_request d t clients (m, map i16_to_string ids)).1
        ≡ json status_ok (b'[' ∷ (join b',' (map i16_to_string ids) ++ (b']' ∷ [])))
  unfolding finish_request
  finish_request-answer t m clients ids all =
      if_cases {A = TunnelV2 d × Response}
        (λ r. r.1 ≡ json status_ok (b'[' ∷ (join b',' (map i16_to_string ids) ++ (b']' ∷ []))))
        (ltb (length (map i16_to_string ids)) clients) _ _
        (λ short. absurd (ground (arith, length-map ids i16_to_string))) (λ _. refl)

  -- Outside maintenance mode, for 2 to 8 clients within the limit, what is left is the loop.
  handle_request-loop :
      (t : TunnelV2 d) (query : Option (List ℕ)) (rng : ℕ → ℕ) (io : Io)
      → let clients = clients_parameter query in
        t.maintenance_mode ≡ false
        → 2 ≤ clients
        → clients ≤ 8
        → len t.mappings + clients ≤ t.config.max_clients
        → handle_request d t query rng io
          ≡ finish_request d t clients (draw_ids d rng io clients max_attempts 0 t.mappings [])
  unfolding handle_request
  handle_request-loop t query rng io opened low high room =
      let sized : (ltb (clients_parameter query) 2 || ltb 8 (clients_parameter query)) ≡ false =
        ground (arith, low, high) in
      let fits : ltb t.config.max_clients (len t.mappings + clients_parameter query) ≡ false =
        ground (arith, room) in
      rw (opened, sized, fits) refl

  -- The answer that lists some ids.
  abbrev pub granting : List ℕ → Response
  granting ids = json status_ok (b'[' ∷ (join b',' (map i16_to_string ids) ++ (b']' ∷ [])))

  finish_request-granting :
      (t : TunnelV2 d) (clients attempts : ℕ) (rng : ℕ → ℕ) (io : Io)
      → ((i : ℕ) → rng i < 65536)
      → len t.mappings + (clients + 1) ≤ length (firsts [] (stream rng attempts 0))
      → (finish_request d t clients (draw_ids d rng io clients attempts 0 t.mappings [])).1
        ≡ granting (take clients (offered d t.mappings (stream rng attempts 0)))
  finish_request-granting t clients attempts rng io range enough =
      let draws = stream rng attempts 0 in
      let many = offered_many t.mappings draws (All-stream (λ n. n < 65536) rng attempts 0 range) in
      let ids = take clients (offered d t.mappings draws) in
      rw (draw_ids-offered d rng io clients attempts t.mappings range) (
        finish_request-answer t (enter d io ids t.mappings) clients ids
          (length-take clients (offered d t.mappings draws) (omega (arith, many, enough))))

  -- Outside maintenance mode, a request for 2 to 8 clients within the limit is granted if the first
  -- 1000 random numbers have enough different ones among them: one more than the clients there are and
  -- those asked for. The answer then lists the first ids that the numbers offer, leaving out 0, the ids
  -- in use and repetitions.
  pub handle_request-grants :
      (t : TunnelV2 d) (query : Option (List ℕ)) (rng : ℕ → ℕ) (io : Io)
      → let clients = clients_parameter query in
        let draws = stream rng max_attempts 0 in
        ((i : ℕ) → rng i < 65536)
        → t.maintenance_mode ≡ false
        → 2 ≤ clients
        → clients ≤ 8
        → len t.mappings + clients ≤ t.config.max_clients
        → len t.mappings + (clients + 1) ≤ length (firsts [] draws)
        → ((ns : List ℕ) × Granted d t clients io (handle_request d t query rng io) ns)
          × ((handle_request d t query rng io).1
              ≡ granting (take clients (offered d t.mappings draws)))
  handle_request-grants t query rng io range opened low high room enough =
      let answer =
        ap (λ r. r.1) (handle_request-loop t query rng io opened low high room)
        ∙ finish_request-granting t (clients_parameter query) max_attempts rng io range enough in
      elim (handle_request-Settled d t query rng io range) [
        | inl granted ↦ (granted, answer)
        | inr refused ↦ absurd (refused.status (ap (λ r. r.status) answer))
      ]
