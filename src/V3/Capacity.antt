-- ===== src/V3/Capacity.antt =====
-- What workers that register clients at the same time are still to add to the map.
use cncnet_server.Base.{
  ℕ, zero, suc, ◌+◌, ◌≤◌, ◌<◌, ◌≡◌, refl, ap, ◌∙◌, inl, inr, Bool, true, false, not, ◌&&◌, ◌||◌,
  Option, none, some, List, [], ◌∷◌, ◌==◌, if◌then◌else◌, length, length-set, get_or, set, arith,
  is_some, Bool-cases,
}
use cncnet_server.Deps.{Deps}
use cncnet_server.Deps.Counting.{len_pos}
use cncnet_server.V3.Race.{Handling, ready, unknown, admitted, reconnecting, Registering}

-- The id that a worker is about to insert.
abbrev pub target : Handling → Option ℕ
target ready = none
target (unknown id) = none
target (admitted id) = some id
target (reconnecting id) = some id

abbrev wants : Option ℕ → ℕ → Bool
wants none k = false
wants (some j) k = j == k

abbrev is_wanted : ℕ → List Handling → Bool
is_wanted k [] = false
is_wanted k (h ∷ hs) = wants (target h) k || is_wanted k hs

is_wanted-get_or :
    (k : ℕ) (hs : List Handling) (i : ℕ)
    → target (get_or hs i ready) ≡ some k
    → is_wanted k hs ≡ true
is_wanted-get_or k [] i e = absurd (cc)
is_wanted-get_or k (h ∷ hs) zero e = rw e (ground arith)
is_wanted-get_or k (h ∷ hs) (suc i) e = rw (is_wanted-get_or k hs i e) (ground arith)

module _ (d : Deps) where
  open d use {
    Map, get, insert, remove, len, TunnelClient, new_with_endpoint, remote_ep, is_timed_out,
    get-insert, get-remove, len-insert, len-remove,
  }

  -- Whether a worker is about to insert an id that is not in the map, where no later worker is too.
  abbrev adds : Map TunnelClient → Option ℕ → List Handling → ℕ
  adds m none hs = 0
  adds m (some k) hs = if is_some (get k m) || is_wanted k hs then 0 else 1

  -- The different ids that are to come into the map.
  abbrev pub to_come : Map TunnelClient → List Handling → ℕ
  to_come m [] = 0
  to_come m (h ∷ hs) = adds m (target h) hs + to_come m hs

  adds-le : (m : Map TunnelClient) (t : Option ℕ) (hs : List Handling) → adds m t hs ≤ 1
  adds-le m none hs = omega arith
  adds-le m (some k) hs = ground arith

  to_come-le : (m : Map TunnelClient) (hs : List Handling) → to_come m hs ≤ length hs
  to_come-le m [] = omega arith
  to_come-le m (h ∷ hs) = omega (arith, adds-le m (target h) hs, to_come-le m hs)

  adds-insert :
      (k : ℕ) (c : TunnelClient) (m : Map TunnelClient) (t : Option ℕ) (hs : List Handling)
      → adds (insert k c m) t hs
          + (if (wants t k || is_wanted k hs) && not (is_some (get k m)) then 1 else 0)
        ≡ adds m t hs + (if is_wanted k hs && not (is_some (get k m)) then 1 else 0)
  adds-insert k c m none hs = ground arith
  adds-insert k c m (some j) hs = ground (arith, get-insert k j c m)

  to_come-insert :
      (k : ℕ) (c : TunnelClient) (m : Map TunnelClient) (hs : List Handling)
      → to_come (insert k c m) hs + (if is_wanted k hs && not (is_some (get k m)) then 1 else 0)
        ≡ to_come m hs
  to_come-insert k c m [] = ground arith
  to_come-insert k c m (h ∷ hs) =
      omega (arith, adds-insert k c m (target h) hs, to_come-insert k c m hs)

  adds-remove :
      (k : ℕ) (m : Map TunnelClient) (t : Option ℕ) (hs : List Handling)
      → adds (remove k m) t hs + (if is_wanted k hs && is_some (get k m) then 1 else 0)
        ≡ adds m t hs + (if (wants t k || is_wanted k hs) && is_some (get k m) then 1 else 0)
  adds-remove k m none hs = ground arith
  adds-remove k m (some j) hs = ground (arith, get-remove k j m)

  to_come-remove :
      (k : ℕ) (m : Map TunnelClient) (hs : List Handling)
      → to_come (remove k m) hs
        ≡ to_come m hs + (if is_wanted k hs && is_some (get k m) then 1 else 0)
  to_come-remove k m [] = ground arith
  to_come-remove k m (h ∷ hs) = omega (arith, adds-remove k m (target h) hs, to_come-remove k m hs)

  -- A worker that is not about to insert an id, or only one that is in the map.
  abbrev pub is_harmless : Map TunnelClient → Option ℕ → Bool
  is_harmless m none = true
  is_harmless m (some k) = is_some (get k m)

  module _ (m : Map TunnelClient) where
    wants-harmless :
        (j : ℕ) (t : Option ℕ)
        → is_some (get j m) ≡ false
        → is_harmless m t ≡ true
        → wants t j ≡ false
    wants-harmless j none absent h = refl
    wants-harmless j (some k) absent h = ground (arith, absent, h)

    adds-harmless : (t : Option ℕ) (hs : List Handling) → is_harmless m t ≡ true → adds m t hs ≡ 0
    adds-harmless none hs h = refl
    adds-harmless (some k) hs h = rw h refl

    adds-same :
        (t : Option ℕ) (hs hs' : List Handling)
        → ((j : ℕ) → is_some (get j m) ≡ false → is_wanted j hs' ≡ is_wanted j hs)
        → adds m t hs' ≡ adds m t hs
    adds-same none hs hs' same = refl
    adds-same (some k) hs hs' same = elim (Bool-cases (is_some (get k m))) [
      | inl present ↦ rw present refl
      | inr absent ↦ rw (absent, same k absent) refl
    ]

    module _ (new : Handling) (to : is_harmless m (target new) ≡ true) where
      is_wanted-set :
          (hs : List Handling) (i j : ℕ)
          → is_harmless m (target (get_or hs i ready)) ≡ true
          → is_some (get j m) ≡ false
          → is_wanted j (set hs i new) ≡ is_wanted j hs
      is_wanted-set [] i j from absent = refl
      is_wanted-set (h ∷ hs) zero j from absent =
          rw (wants-harmless j (target new) absent to, wants-harmless j (target h) absent from) refl
      is_wanted-set (h ∷ hs) (suc i) j from absent =
          ap (λ b. wants (target h) j || b) (is_wanted-set hs i j from absent)

      to_come-set :
          (hs : List Handling) (i : ℕ)
          → is_harmless m (target (get_or hs i ready)) ≡ true
          → to_come m (set hs i new) ≡ to_come m hs
      to_come-set [] i from = refl
      to_come-set (h ∷ hs) zero from =
          rw (adds-harmless (target new) hs to, adds-harmless (target h) hs from) refl
      to_come-set (h ∷ hs) (suc i) from = omega (
        arith,
        adds-same (target h) hs (set hs i new) (λ j. is_wanted-set hs i j from),
        to_come-set hs i from,
      )

  -- With `k + 1` workers, the clients there are and the ids that are to come.
  pub record Bounded (max_clients k : ℕ) (r : Registering d) : Type 0 where
    pub working : length r.workers ≡ suc k
    pub bounded : len r.mappings + to_come r.mappings r.workers ≤ max_clients + k

  module _ (max_clients k : ℕ) where
    pub set-Bounded :
        (r : Registering d) (i : ℕ) (new : Handling)
        → is_harmless r.mappings (target (get_or r.workers i ready)) ≡ true
        → is_harmless r.mappings (target new) ≡ true
        → Bounded max_clients k r
        → Bounded max_clients k (record r { workers = set r.workers i new })
    set-Bounded r i new from to v = record {
      working = length-set r.workers i new ∙ v.working;
      bounded = omega (arith, to_come-set r.mappings new to r.workers i from, v.bounded);
    }

    pub admit-Bounded :
        (r : Registering d) (i id : ℕ)
        → len r.mappings < max_clients
        → Bounded max_clients k r
        → Bounded max_clients k (record r { workers = set r.workers i (admitted id) })
    admit-Bounded r i id room v = record {
      working = length-set r.workers i (admitted id) ∙ v.working;
      bounded = omega (
        arith,
        room,
        to_come-le r.mappings (set r.workers i (admitted id)),
        length-set r.workers i (admitted id),
        v.working,
      );
    }

    pub insert-Bounded :
        (r : Registering d) (i id : ℕ) (c : TunnelClient)
        → target (get_or r.workers i ready) ≡ some id
        → Bounded max_clients k r
        → Bounded max_clients k
            (record { mappings = insert id c r.mappings; workers = set r.workers i ready })
    insert-Bounded r i id c e v =
        let m : Map TunnelClient = insert id c r.mappings in
        let present : is_some (get id m) ≡ true = ground (arith, get-insert id id c r.mappings) in
        record {
          working = length-set r.workers i ready ∙ v.working;
          bounded = ground (
            arith,
            to_come-set m ready refl r.workers i (rw e present),
            to_come-insert id c r.mappings r.workers,
            is_wanted-get_or id r.workers i e,
            len-insert id c r.mappings,
            v.bounded,
          );
        }

    pub remove-Bounded :
        (r : Registering d) (id : ℕ)
        → Bounded max_clients k r
        → Bounded max_clients k (record r { mappings = remove id r.mappings })
    remove-Bounded r id v = record {
      working = v.working;
      bounded = ground (
        arith,
        to_come-remove id r.mappings r.workers,
        len-remove id r.mappings,
        len_pos d id r.mappings,
        v.bounded,
      );
    }
