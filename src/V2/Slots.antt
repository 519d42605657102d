-- ===== src/V2/Slots.antt =====
-- The ids that `handle_request` of src/tunnel_v2.rs draws and gives back.
use mathlib.Core.List.{map-append}
use mathlib.Core.Path.{subst}
use cncnet_server.Base.{
  ℕ, zero, suc, ◌+◌, ◌≤◌, ◌<◌, ◌≡◌, refl, ◌∙◌, ◌≢◌, inl, inr, Bool, true, false, not, ◌&&◌, ◌||◌,
  none, some, List, [], ◌∷◌, ◌++◌, map, ltb, ◌==◌, if◌then◌else◌, length, length-append, length-map,
  if_cases, All, arith, Bool-cases, is_some,
}
pub use cncnet_server.Base.{elem}
use cncnet_server.Deps.{Deps}
use cncnet_server.Deps.Counting.{len_pos}
use cncnet_server.Net.{Io}
use cncnet_server.Text.Decimal.{i16_to_string, parse_i16-i16_to_string}
use cncnet_server.V2.{timeout_seconds}
use cncnet_server.V2.Allocate.{draw_ids, give_back}

abbrev pub distinct : List ℕ → Bool
distinct [] = true
distinct (n ∷ ns) = not (elem n ns) && distinct ns

pub elem-append : (k n : ℕ) (ns : List ℕ) → elem k (ns ++ n ∷ []) ≡ (elem k ns || n == k)
elem-append k n [] = ground arith
elem-append k n (i ∷ ns) = ground (arith, elem-append k n ns)

distinct-append :
    (n : ℕ) (ns : List ℕ) → elem n ns ≡ false → distinct ns ≡ true → distinct (ns ++ n ∷ []) ≡ true
distinct-append n [] out d = refl
distinct-append n (i ∷ ns) out d = ground (arith, elem-append i n ns, distinct-append n ns)

All-append_one {ℓ} : (P : ℕ → Type ℓ) (n : ℕ) (ns : List ℕ) → All P ns → P n → All P (ns ++ n ∷ [])
All-append_one P n [] h p = (p, tt)
All-append_one P n (i ∷ ns) h p = (h.0, All-append_one P n ns h.1 p)

pub All-elem {ℓ} : (P : ℕ → Type ℓ) (k : ℕ) (ns : List ℕ) → All P ns → elem k ns ≡ true → P k
All-elem P k [] h e = absurd (ground arith)
All-elem P k (n ∷ ns) h e = elim (Bool-cases (n == k)) [
  | inl same ↦ subst P (ground arith) h.0
  | inr other ↦ All-elem P k ns h.1 (ground arith)
]

module _ (d : Deps) where
  open d use {
    Map, get, insert, remove, contains_key, len, TunnelClient, client_new, get-insert, get-remove,
    contains_key_lem, len-insert, len-remove, len-iter, lookup-iter, iter,
  }

  -- What makes an id good for a new client: in the range of an i16, not 0, and free.
  abbrev pub IsFree : Map TunnelClient → ℕ → Type 0
  IsFree m n = (n < 65536) × (n ≢ 0) × (get n m ≡ none)

  -- The map after `ns` have been drawn from `m₀`.
  pub record Drawn (io : Io) (before after : Map TunnelClient) (ns : List ℕ) : Type 0 where
    pub reads :
        (k : ℕ)
        → get k after
          ≡ (if elem k ns then some (client_new timeout_seconds io.clock) else get k before)
    pub free : All (IsFree before) ns
    pub different : distinct ns ≡ true
    pub size : len after ≡ len before + length ns

  pub Drawn-none : (io : Io) (m : Map TunnelClient) → Drawn io m m []
  Drawn-none io m = record { reads = λ k. refl; free = tt; different = refl; size = omega arith }

  module _ (io : Io) {before after : Map TunnelClient} {ns : List ℕ}
      (drawn : Drawn io before after ns) where
    not_elem : (n : ℕ) → get n after ≡ none → elem n ns ≡ false
    not_elem n absent = ground (arith, drawn.reads n)

    pub Drawn-more :
        (n : ℕ)
        → n < 65536
        → not (n == 0) && not (contains_key n after) ≡ true
        → Drawn io before (insert n (client_new timeout_seconds io.clock) after) (ns ++ n ∷ [])
    Drawn-more n range fresh =
        let absent : get n after ≡ none = ground (arith, contains_key_lem n after) in
        let new = not_elem n absent in
        record {
          reads = λ k. ground (
            arith,
            get-insert n k (client_new timeout_seconds io.clock) after,
            elem-append k n ns,
            drawn.reads k,
          );
          free =
              All-append_one (IsFree before) n ns drawn.free
                (range, ground arith, ground (arith, drawn.reads n));
          different = distinct-append n ns new drawn.different;
          size = ground (
            arith,
            len-insert n (client_new timeout_seconds io.clock) after,
            length-append ns (n ∷ []),
            drawn.size,
          );
        }

  -- What the loop returns: the map after some ids have been drawn, and their texts.
  abbrev pub Draws : Io → ℕ → Map TunnelClient → Map TunnelClient × List (List ℕ) → Type 0
  Draws io clients before r =
      (ns : List ℕ) × (r.1 ≡ map i16_to_string ns) × Drawn io before r.0 ns × (length ns ≤ clients)

  -- The loop draws different free ids, keeps them as texts, and stops at the number asked for.
  pub draw_ids-Draws :
      (rng : ℕ → ℕ) (io : Io) (clients left attempts : ℕ) (before after : Map TunnelClient)
      (ns : List ℕ)
      → ((i : ℕ) → rng i < 65536)
      → Drawn io before after ns
      → length ns ≤ clients
      → Draws io clients before
          (draw_ids d rng io clients left attempts after (map i16_to_string ns))
  unfolding draw_ids
  draw_ids-Draws rng io clients zero attempts before after ns range drawn few =
      (ns, refl, drawn, few)
  draw_ids-Draws rng io clients (suc left) attempts before after ns range drawn few =
      let n = rng attempts in
      let client = client_new timeout_seconds io.clock in
      if_cases (Draws io clients before) (ltb (length (map i16_to_string ns)) clients) _ _
        (λ short.
          let room : suc (length ns) ≤ clients = ground (arith, length-map ns i16_to_string) in
          elim (Bool-cases (not (n == 0) && not (contains_key n after))) [
            | inl fresh ↦ rw fresh (
                subst
                  (λ ids.
                    Draws io clients before
                      (draw_ids d rng io clients left (suc attempts) (insert n client after) ids))
                  (map-append i16_to_string ns (n ∷ []))
                  (draw_ids-Draws rng io clients left (suc attempts) before (insert n client after)
                    (ns ++ n ∷ []) range (Drawn-more io drawn n (range attempts) fresh)
                    (omega (arith, length-append ns (n ∷ [])))))
            | inr stale ↦
                rw stale (
                  draw_ids-Draws rng io clients left (suc attempts) before after ns range drawn few)
          ])
        (λ _. (ns, refl, drawn, few))

  pub get-give_back :
      (k : ℕ) (ns : List ℕ) (m : Map TunnelClient)
      → All (λ n. n < 65536) ns
      → get k (give_back d (map i16_to_string ns) m) ≡ (if elem k ns then none else get k m)
  unfolding give_back
  get-give_back k [] m range = refl
  get-give_back k (n ∷ ns) m range =
      rw (parse_i16-i16_to_string n range.0, give_back)
        (get-give_back k ns (remove n m) range.1 ∙ ground (arith, get-remove n k m))

  All-get_remove :
      (n : ℕ) (ns : List ℕ) (m : Map TunnelClient)
      → elem n ns ≡ false
      → All (λ k. is_some (get k m) ≡ true) ns
      → All (λ k. is_some (get k (remove n m)) ≡ true) ns
  All-get_remove n [] m out h = tt
  All-get_remove n (i ∷ ns) m out h =
      (ground (arith, get-remove n i m, h.0), All-get_remove n ns m (ground arith) h.1)

  pub len-give_back :
      (ns : List ℕ) (m : Map TunnelClient)
      → All (λ n. n < 65536) ns
      → distinct ns ≡ true
      → All (λ k. is_some (get k m) ≡ true) ns
      → len (give_back d (map i16_to_string ns) m) + length ns ≡ len m
  unfolding give_back
  len-give_back [] m range different present = omega arith
  len-give_back (n ∷ ns) m range different present =
      rw (parse_i16-i16_to_string n range.0, give_back)
        (omega (
          arith,
          len-give_back ns (remove n m) range.1 (ground arith)
              (All-get_remove n ns m (ground arith) present.1),
          len_removed,
        ))
    where
      len_removed : suc (len (remove n m)) ≡ len m
      len_removed = ground (arith, len-remove n m, len_pos d n m present.0)
