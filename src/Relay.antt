-- ===== src/Relay.antt =====
-- What a tunnel promises, whatever the protocol: a relay with one address for each registered id. A
-- client in src/tunnel_v3.rs and src/tunnel_v2.rs is its address here; statistics, limiters, capacity
-- and the representation of the maps are forgotten.
use mathlib.Core.List.{append_assoc}
use mathlib.Core.Path.{subst, sym}
use cncnet_server.Base.{
  ℕ, ◌≡◌, refl, ◌≢◌, ◌⊎◌, Bool, true, false, not, Option, none, some, List, [], ◌∷◌, ◌++◌, ◌==◌,
  if◌then◌else◌, take,
}
use cncnet_server.Net.{SocketAddr, Datagram}

pub record View : Type 0 where
  pub endpoints : ℕ → Option SocketAddr
  -- Maintenance mode.
  pub closed : Bool

-- The relay before anything has happened.
abbrev pub blank : View
blank = record { endpoints = λ j. none; closed = false }

-- What a step of a tunnel is about: a datagram, or nothing from outside.
pub data Input : Type 0 where
  incoming : List ℕ → SocketAddr → Input
  internal : Input

-- The same relay.
pub record Same (v v' : View) : Type 0 where
  pub endpoints : (j : ℕ) → v'.endpoints j ≡ v.endpoints j
  pub closed : v'.closed ≡ v.closed

-- An open relay takes `a` for the sender `k`: the id has no address, or has this one, or its client has
-- timed out. Then the id has this address, and no other id changes.
pub record Speaks (expired : ℕ → Bool) (v : View) (k : ℕ) (a : SocketAddr) (v' : View)
    : Type 0 where
  pub opened : v.closed ≡ false
  pub entitled : (v.endpoints k ≡ none) ⊎ ((v.endpoints k ≡ some a) ⊎ (expired k ≡ true))
  pub registered : (j : ℕ) → v'.endpoints j ≡ (if k == j then some a else v.endpoints j)
  pub still : v'.closed ≡ v.closed

-- Only ids of clients that have timed out lose their address.
pub record Swept (expired : ℕ → Bool) (v v' : View) : Type 0 where
  pub endpoints :
      (j : ℕ) → (v'.endpoints j ≡ v.endpoints j) ⊎ ((expired j ≡ true) × (v'.endpoints j ≡ none))
  pub closed : v'.closed ≡ v.closed

-- One step, with the datagrams that it sends. The protocol gives the ids in a packet, and the clients
-- give which ids have timed out.
pub data RelayStep (header : List ℕ → Option (ℕ × ℕ)) (expired : ℕ → Bool) (v : View)
    : Input → List Datagram → View → Type 0 where
  idle : {i : Input} {v' : View} → Same v v' → RelayStep header expired v i [] v'
  pong :
      {packet : List ℕ} {a : SocketAddr} {v' : View}
      → header packet ≡ some (0, 0)
      → Same v v'
      → RelayStep header expired v
          (incoming packet a)
          (record { payload = take 12 packet; target = a } ∷ [])
          v'
  register :
      {packet : List ℕ} {a : SocketAddr} {v' : View} (sender receiver : ℕ)
      → header packet ≡ some (sender, receiver)
      → Speaks expired v sender a v'
      → RelayStep header expired v (incoming packet a) [] v'
  forward :
      {packet : List ℕ} {a : SocketAddr} {v' : View} (sender receiver : ℕ) (ep : SocketAddr)
      → header packet ≡ some (sender, receiver)
      → Speaks expired v sender a v'
      → v'.endpoints receiver ≡ some ep
      → ep ≢ a
      → RelayStep header expired v
          (incoming packet a)
          (record { payload = packet; target = ep } ∷ [])
          v'
  toggle :
      {i : Input} {v' : View}
      → ((j : ℕ) → v'.endpoints j ≡ v.endpoints j)
      → v'.closed ≡ not v.closed
      → RelayStep header expired v i [] v'
  sweep : {i : Input} {v' : View} → Swept expired v v' → RelayStep header expired v i [] v'

-- A run: for each step its input, with the ids that had timed out then.
pub data RelayRun (header : List ℕ → Option (ℕ × ℕ))
    : View → List (Input × (ℕ → Bool)) → List Datagram → View → Type 0 where
  stop : {v : View} → RelayRun header v [] [] v
  go :
      {v u w : View} {i : Input} {expired : ℕ → Bool} {is : List (Input × (ℕ → Bool))}
      {sent rest : List Datagram}
      → RelayStep header expired v i sent u
      → RelayRun header u is rest w
      → RelayRun header v ((i, expired) ∷ is) (sent ++ rest) w

pub Same-self : (v : View) → Same v v
Same-self v = record { endpoints = λ j. refl; closed = refl }

-- Two runs, one after the other.
pub RelayRun-append :
    {header : List ℕ → Option (ℕ × ℕ)} {u v w : View} {is js : List (Input × (ℕ → Bool))}
    {sent rest : List Datagram}
    → RelayRun header u is sent v
    → RelayRun header v js rest w
    → RelayRun header u (is ++ js) (sent ++ rest) w
RelayRun-append stop r = r
RelayRun-append {header} {w} {js} {rest} (go {v} {i} {expired} {is} {sent} {rest = more} s q) r =
    subst (λ l. RelayRun header v ((i, expired) ∷ (is ++ js)) l w)
      (sym (append_assoc sent more rest)) (go s (RelayRun-append q r))
