-- ===== src/V2/Requests.antt =====
-- `handle_request` of src/tunnel_v2.rs: what becomes of the ids of a request.
use mathlib.Core.Path.{subst}
use cncnet_server.Base.{
  ℕ, ◌+◌, ◌≤◌, ◌<◌, ◌≡◌, refl, sym, ◌∙◌, ◌≢◌, ◌⊎◌, inl, inr, true, false, ◌||◌, Option, none, some,
  List, [], ◌∷◌, ◌++◌, map, ltb, if◌then◌else◌, length, length-map, if_cases, All, All-map, arith,
  is_some,
}
use cncnet_server.Deps.{Deps}
use cncnet_server.Net.{Io}
use cncnet_server.Text.{join}
use cncnet_server.Text.Decimal.{i16_to_string}
use cncnet_server.V2.{TunnelV2, timeout_seconds}
use cncnet_server.V2.Allocate.{
  clients_parameter, draw_ids, give_back, finish_request, handle_request, max_attempts,
}
use cncnet_server.V2.Response.{Response, status_ok, json}
use cncnet_server.V2.Slots.{
  elem, IsFree, Drawn, Drawn-none, draw_ids-Draws, get-give_back, len-give_back, All-elem,
}

module _ (d : Deps) where
  open d use {Map, get, len, TunnelClient, client_new}

  -- The request is granted with the ids `ns`: as many as were asked for, from 2 to 8, different, new,
  -- not 0; they are the answer's body, and the only change to the map, which stays within the limit.
  pub record Granted (t : TunnelV2 d) (clients : ℕ) (io : Io) (r : TunnelV2 d × Response)
      (ns : List ℕ) : Type 0 where
    pub opened : t.maintenance_mode ≡ false
    pub asked : length ns ≡ clients
    pub at_least : 2 ≤ clients
    pub at_most : clients ≤ 8
    pub drawn : Drawn d io t.mappings r.0.mappings ns
    pub within : len r.0.mappings ≤ t.config.max_clients
    pub active : r.0.metrics.v2_active_clients ≡ len r.0.mappings
    pub answer : r.1 ≡ json status_ok (b'[' ∷ (join b',' (map i16_to_string ns) ++ (b']' ∷ [])))

  -- The request is refused, and every id reads as before.
  pub record Refused (t : TunnelV2 d) (r : TunnelV2 d × Response) : Type 0 where
    pub status : r.1.status ≢ status_ok
    pub same : (k : ℕ) → get k r.0.mappings ≡ get k t.mappings
    pub as_many : len r.0.mappings ≡ len t.mappings

  abbrev pub Settled : TunnelV2 d → ℕ → Io → TunnelV2 d × Response → Type 0
  Settled t clients io r = ((ns : List ℕ) × Granted t clients io r ns) ⊎ Refused t r

  free_absent :
      (k : ℕ) (m : Map TunnelClient) (ns : List ℕ)
      → All (IsFree d m) ns
      → elem k ns ≡ true
      → get k m ≡ none
  free_absent k m ns free e = (All-elem (IsFree d m) k ns free e).2

  drawn_present :
      (io : Io) (before after : Map TunnelClient) (ns js : List ℕ)
      → ((k : ℕ)
          → get k after
            ≡ (if elem k ns then some (client_new timeout_seconds io.clock) else get k before))
      → ((k : ℕ) → elem k js ≡ true → elem k ns ≡ true)
      → All (λ k. is_some (get k after) ≡ true) js
  drawn_present io before after ns [] reads sub = tt
  drawn_present io before after ns (j ∷ js) reads sub = (
    ground (arith, reads j, sub j),
    drawn_present io before after ns js reads (λ k e. sub k (ground arith)),
  )

  module _ (io : Io) {before after : Map TunnelClient} {ns : List ℕ}
      (drawn : Drawn d io before after ns) where
    -- Giving back what was drawn restores the map.
    get-give_back_drawn : (k : ℕ) → get k (give_back d (map i16_to_string ns) after) ≡ get k before
    get-give_back_drawn k =
        get-give_back d k ns after (All-map (λ n f. f.0) ns drawn.free)
        ∙ ground (arith, drawn.reads k, free_absent k before ns drawn.free)

    len-give_back_drawn : len (give_back d (map i16_to_string ns) after) ≡ len before
    len-give_back_drawn = omega (
      arith,
      drawn.size,
      len-give_back d ns after (All-map (λ n f. f.0) ns drawn.free) drawn.different
          (drawn_present io before after ns ns drawn.reads (λ k e. e)),
    )

  finish_request-Settled :
      (t : TunnelV2 d) (clients : ℕ) (io : Io) (m : Map TunnelClient) (ns : List ℕ)
      → Drawn d io t.mappings m ns
      → length ns ≤ clients
      → t.maintenance_mode ≡ false
      → 2 ≤ clients
      → clients ≤ 8
      → len t.mappings + clients ≤ t.config.max_clients
      → Settled t clients io (finish_request d t clients (m, map i16_to_string ns))
  unfolding finish_request
  finish_request-Settled t clients io m ns drawn few opened low high room =
      if_cases (Settled t clients io) (ltb (length (map i16_to_string ns)) clients) _ _
        (λ short. inr (record {
          status = λ e. omega arith;
          same = get-give_back_drawn io drawn;
          as_many = len-give_back_drawn io drawn;
        }))
        (λ enough.
          let all : length ns ≡ clients = ground (arith, length-map ns i16_to_string) in
          inl (
            ns,
            record {
              opened = opened;
              asked = all;
              at_least = low;
              at_most = high;
              drawn = drawn;
              within = omega (arith, drawn.size);
              active = refl;
              answer = refl;
            },
          ))

  -- A request for ids is all or nothing. It is granted, outside maintenance mode, with the number of
  -- ids asked for, from 2 to 8: different ids, none of them 0 or in use, each registered to a client
  -- without an endpoint, listed in the answer, all other ids reading as before, and no more clients
  -- than `max_clients`. Or it is refused, with another status than 200, and every id reads as before,
  -- also where ids were drawn and had to be given back.
  pub handle_request-Settled :
      (t : TunnelV2 d) (query : Option (List ℕ)) (rng : ℕ → ℕ) (io : Io)
      → ((i : ℕ) → rng i < 65536)
      → Settled t (clients_parameter query) io (handle_request d t query rng io)
  unfolding handle_request
  handle_request-Settled t query rng io range =
      let clients = clients_parameter query in
      let Goal : TunnelV2 d × Response → Type 0 = Settled t clients io in
      let no_change : (r : Response) → r.status ≢ status_ok → Goal (t, r) =
        λ r other. inr (record { status = other; same = λ k. refl; as_many = refl }) in
      let (ns, texts, drawn, few) =
        draw_ids-Draws d rng io clients max_attempts 0 t.mappings t.mappings [] range
          (Drawn-none d io t.mappings) (omega arith) in
      if_cases Goal t.maintenance_mode _ _ (λ _. no_change _ (λ e. omega arith))
        (λ opened.
          if_cases Goal (ltb clients 2 || ltb 8 clients) _ _ (λ _. no_change _ (λ e. omega arith))
            (λ sized.
              if_cases Goal (ltb t.config.max_clients (len t.mappings + clients)) _ _
                (λ _. no_change _ (λ e. omega arith))
                (λ room.
                  subst
                    (λ ids. Goal (
                      finish_request d t clients
                        ((draw_ids d rng io clients max_attempts 0 t.mappings []).0, ids)))
                    (sym texts)
                    (finish_request-Settled t clients io _ ns drawn few opened (ground arith)
                      (ground arith) (ground arith)))))
