-- ===== src/V2/Draws.antt =====
-- Which ids the loop of `handle_request` in src/tunnel_v2.rs draws: an independent description of its
-- stopping and skipping, and when it draws enough.
use mathlib.Core.List.{map-append, append_assoc, append-nil}
use mathlib.Core.Path.{subst}
use cncnet_server.Base.{
  ℕ, zero, suc, ◌+◌, ◌<◌, ◌≡◌, refl, sym, ap, ◌∙◌, inl, inr, Bool, true, false, not, ◌&&◌, List, [],
  ◌∷◌, ◌++◌, map, ltb, ◌==◌, if◌then◌else◌, length, length-append, length-map, if_cases, arith,
  Bool-cases, is_some, take, filter,
}
use cncnet_server.Deps.{Deps}
use cncnet_server.Net.{Io}
use cncnet_server.Text.Decimal.{i16_to_string}
use cncnet_server.V2.{timeout_seconds}
use cncnet_server.V2.Allocate.{draw_ids}
use cncnet_server.V2.Slots.{elem, elem-append, Drawn, Drawn-more, Drawn-none}

-- The draws of the attempts that are left.
abbrev pub stream : (ℕ → ℕ) → ℕ → ℕ → List ℕ
stream rng zero attempts = []
stream rng (suc left) attempts = rng attempts ∷ stream rng left (suc attempts)

-- Each number where it comes for the first time, and not at all if it is in `seen`.
abbrev pub firsts : List ℕ → List ℕ → List ℕ
firsts seen [] = []
firsts seen (n ∷ ns) = if elem n seen then firsts seen ns else n ∷ firsts (n ∷ seen) ns

module _ (d : Deps) where
  open d use {Map, get, insert, contains_key, contains_key_lem, TunnelClient, client_new}

  -- An id that a client may get.
  abbrev pub usable : Map TunnelClient → ℕ → Bool
  usable m n = not (n == 0) && not (is_some (get n m))

  -- The ids that a stream offers: each once, and only those that a client may get.
  abbrev pub offered : Map TunnelClient → List ℕ → List ℕ
  offered m draws = filter (usable m) (firsts [] draws)

  -- The map with a new client for each id.
  abbrev pub enter : Io → List ℕ → Map TunnelClient → Map TunnelClient
  enter io [] m = m
  enter io (n ∷ ns) m = enter io ns (insert n (client_new timeout_seconds io.clock) m)

  module _ (rng : ℕ → ℕ) (range : (i : ℕ) → rng i < 65536) (io : Io)
      (before : Map TunnelClient) where
    -- Of the draws in `seen`, those that are usable are the ids in `ns`.
    abbrev Agrees : List ℕ → List ℕ → Type 0
    Agrees seen ns = (k : ℕ) → elem k ns ≡ (elem k seen && usable before k)

    abbrev Equal : ℕ → ℕ → ℕ → ℕ → Map TunnelClient → List ℕ → List ℕ → Type 0
    Equal clients left attempts room after ns seen =
        let new = take room (filter (usable before) (firsts seen (stream rng left attempts))) in
        draw_ids d rng io clients left attempts after (map i16_to_string ns)
        ≡ (enter io new after, map i16_to_string (ns ++ new))

    abbrev pair : Map TunnelClient → List ℕ → Map TunnelClient × List (List ℕ)
    pair m ns = (m, map i16_to_string ns)

    no_more : (after : Map TunnelClient) (ns : List ℕ) → pair after ns ≡ pair after (ns ++ [])
    no_more after ns = ap (pair after) (sym (append-nil ns))

    Agrees-fresh :
        (n : ℕ) (seen ns : List ℕ)
        → usable before n ≡ true
        → Agrees seen ns
        → Agrees (n ∷ seen) (ns ++ n ∷ [])
    Agrees-fresh n seen ns good agrees k = ground (arith, elem-append k n ns, agrees k, good)

    Agrees-stale :
        (n : ℕ) (seen ns : List ℕ) → usable before n ≡ false → Agrees seen ns → Agrees (n ∷ seen) ns
    Agrees-stale n seen ns bad agrees k = ground (arith, agrees k, bad)

    -- The loop's test of an id: usable at first, and not drawn since.
    test_fresh :
        (n : ℕ) (after : Map TunnelClient) (ns seen : List ℕ)
        → Drawn d io before after ns
        → Agrees seen ns
        → (not (n == 0) && not (contains_key n after)) ≡ (usable before n && not (elem n seen))
    test_fresh n after ns seen drawn agrees =
        ground (arith, contains_key_lem n after, drawn.reads n, agrees n)

    draw_ids-Equal :
        (clients left attempts room : ℕ) (after : Map TunnelClient) (ns seen : List ℕ)
        → length ns + room ≡ clients
        → Drawn d io before after ns
        → Agrees seen ns
        → Equal clients left attempts room after ns seen
    unfolding draw_ids
    draw_ids-Equal clients zero attempts zero after ns seen total drawn agrees = no_more after ns
    draw_ids-Equal clients zero attempts (suc room) after ns seen total drawn agrees =
        no_more after ns
    draw_ids-Equal clients (suc left) attempts zero after ns seen total drawn agrees =
        if_cases (λ r. r ≡ (after, map i16_to_string (ns ++ [])))
          (ltb (length (map i16_to_string ns)) clients) _ _
          (λ short. absurd (ground (arith, length-map ns i16_to_string))) (λ _. no_more after ns)
    draw_ids-Equal clients (suc left) attempts (suc room) after ns seen total drawn agrees =
        let n = rng attempts in
        let test = test_fresh n after ns seen drawn agrees in
        let m : Map TunnelClient = insert n (client_new timeout_seconds io.clock) after in
        let tail : List ℕ = stream rng left (suc attempts) in
        let new : List ℕ = take room (filter (usable before) (firsts (n ∷ seen) tail)) in
        let short : ltb (length (map i16_to_string ns)) clients ≡ true =
          ground (arith, length-map ns i16_to_string) in
        elim (Bool-cases (elem n seen)) [
          | inl again ↦
              let stale : (not (n == 0) && not (contains_key n after)) ≡ false =
                test ∙ ground (arith, again) in
              rw (short, again, stale)
                (draw_ids-Equal clients left (suc attempts) (suc room) after ns seen total drawn
                  agrees)
          | inr first ↦ elim (Bool-cases (usable before n)) [
            | inl good ↦
                let fresh : (not (n == 0) && not (contains_key n after)) ≡ true =
                  test ∙ ground (arith, good, first) in
                let rest =
                  draw_ids-Equal clients left (suc attempts) room m (ns ++ n ∷ []) (n ∷ seen)
                    (omega (arith, total, length-append ns (n ∷ [])))
                    (Drawn-more d io drawn n (range attempts) fresh)
                    (Agrees-fresh n seen ns good agrees) in
                rw (short, first, fresh, good)
                  (subst
                    (λ texts.
                      draw_ids d rng io clients left (suc attempts) m texts
                      ≡ (enter io new m, map i16_to_string (ns ++ n ∷ new)))
                    (map-append i16_to_string ns (n ∷ []))
                    (rest ∙ ap (pair (enter io new m)) (append_assoc ns (n ∷ []) new)))
            | inr bad ↦
                let stale : (not (n == 0) && not (contains_key n after)) ≡ false =
                  test ∙ ground (arith, bad) in
                rw (short, first, stale, bad)
                  (draw_ids-Equal clients left (suc attempts) (suc room) after ns (n ∷ seen) total
                    drawn (Agrees-stale n seen ns bad agrees))
          ]
        ]

  -- The loop of `attempts` attempts, from no id, gives exactly the first ids that the stream offers in as
  -- many draws, in their order and no more than asked for, and enters a new client for each. An id is
  -- offered where it is drawn for the first time, if it is not 0 and was not in use before the loop.
  pub draw_ids-offered :
      (rng : ℕ → ℕ) (io : Io) (clients attempts : ℕ) (m : Map TunnelClient)
      → ((i : ℕ) → rng i < 65536)
      → let ids = take clients (offered m (stream rng attempts 0)) in
        draw_ids d rng io clients attempts 0 m [] ≡ (enter io ids m, map i16_to_string ids)
  draw_ids-offered rng io clients attempts m range =
      draw_ids-Equal rng range io m clients attempts 0 clients m [] [] (omega arith)
        (Drawn-none d io m) (λ k. refl)
