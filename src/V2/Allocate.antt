-- ===== src/V2/Allocate.antt =====
-- `handle_request` of src/tunnel_v2.rs: the allocation of ids. The random ids are a stream of bit
-- patterns, one for each attempt.
use cncnet_server.Base.{
  ℕ, zero, suc, ◌+◌, not, ◌&&◌, ◌||◌, Option, none, some, List, [], ◌∷◌, ◌++◌, ltb, ◌==◌,
  if◌then◌else◌, length,
}
use cncnet_server.Base.Words.{u64_mod}
use cncnet_server.Deps.{Deps}
use cncnet_server.Net.{Io}
use cncnet_server.Text.{codes, strip_prefix, split, join}
use cncnet_server.Text.Decimal.{i16_to_string, parse_i16, parse_unsigned}
use cncnet_server.V2.{TunnelV2, timeout_seconds}
use cncnet_server.V2.Response.{Response, status_ok, bad_request, service_unavailable, plain, json}

abbrev pub max_attempts : ℕ
max_attempts = 1000

-- `find` of a parameter that starts with `clients=`, and what stands behind.
abbrev pub find_clients : List (List ℕ) → Option (List ℕ)
find_clients [] = none
find_clients (p ∷ ps) = elim (strip_prefix (codes "clients=") p) [
  | none ↦ find_clients ps
  | some v ↦ some v
]

-- The `clients` parameter of a query, or 0.
unfoldable pub clients_parameter : Option (List ℕ) → ℕ
unfolding parse_unsigned
clients_parameter none = 0
clients_parameter (some query) = elim (find_clients (split b'&' query)) [
  | none ↦ 0
  | some v ↦ elim (parse_unsigned u64_mod v) [ none ↦ 0 | some n ↦ n ]
]

module _ (d : Deps) where
  open d use {Map, insert, remove, contains_key, len, TunnelClient, client_new}

  -- The loop over the attempts that are left. The ids are kept as texts, in the order in which they
  -- were drawn.
  unfoldable pub draw_ids :
      (ℕ → ℕ) → Io → ℕ → ℕ → ℕ → Map TunnelClient → List (List ℕ) → Map TunnelClient × List (List ℕ)
  draw_ids rng io clients zero attempts m client_ids = (m, client_ids)
  draw_ids rng io clients (suc left) attempts m client_ids =
      let client_id = rng attempts in
      let fresh = not (client_id == 0) && not (contains_key client_id m) in
      let m' = if fresh then insert client_id (client_new timeout_seconds io.clock) m else m in
      let client_ids' =
        if fresh then client_ids ++ (i16_to_string client_id ∷ []) else client_ids in
      let rest = draw_ids rng io clients left (suc attempts) m' client_ids' in
      if ltb (length client_ids) clients then rest else (m, client_ids)

  -- The ids drawn so far are given back.
  unfoldable pub give_back : List (List ℕ) → Map TunnelClient → Map TunnelClient
  give_back [] m = m
  give_back (id_str ∷ ids) m = elim (parse_i16 id_str) [
    | none ↦ give_back ids m
    | some id ↦ give_back ids (remove id m)
  ]

  -- What follows the loop.
  unfoldable pub finish_request :
      TunnelV2 d → ℕ → Map TunnelClient × List (List ℕ) → TunnelV2 d × Response
  finish_request t clients (m, client_ids) =
      let metrics' = t.metrics in
      if ltb (length client_ids) clients
      then (
        record t { mappings = give_back client_ids m },
        plain service_unavailable (codes "Could not allocate requested clients"),
      )
      else (
        record t { mappings = m; metrics = record metrics' { v2_active_clients = len m } },
        json status_ok (b'[' ∷ (join b',' client_ids ++ (b']' ∷ []))),
      )

  unfoldable pub handle_request :
      TunnelV2 d → Option (List ℕ) → (ℕ → ℕ) → Io → TunnelV2 d × Response
  handle_request t query rng io =
      let clients = clients_parameter query in
      if t.maintenance_mode
      then (t, plain service_unavailable (codes "Server in maintenance mode"))
      else if ltb clients 2 || ltb 8 clients
      then (t, plain bad_request (codes "Invalid clients parameter (2-8)"))
      else if ltb t.config.max_clients (len t.mappings + clients)
      then (t, plain service_unavailable (codes "Not enough slots available"))
      else finish_request t clients (draw_ids rng io clients max_attempts 0 t.mappings [])
