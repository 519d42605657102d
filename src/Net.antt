-- ===== src/Net.antt =====
-- The parts of `std::net` that the server uses: addresses, and datagrams on their way out.
use cncnet_server.Base.{
  ℕ, ◌≡◌, refl, ◌≢◌, ◌↔◌, Bool, true, false, ◌&&◌, List, ◌==◌, arith, Bool-cases, inl, inr,
}

-- An IPv6 address is its 128-bit number.
pub data IpAddr : Type 0 where
  v4 : ℕ → ℕ → ℕ → ℕ → IpAddr
  v6 : ℕ → IpAddr

-- An IPv6 socket address also has a flow label and a scope, which equality compares.
pub data SocketAddr : Type 0 where
  addr_v4 : ℕ → ℕ → ℕ → ℕ → ℕ → SocketAddr
  addr_v6 : ℕ → ℕ → ℕ → ℕ → SocketAddr

abbrev pub ip : SocketAddr → IpAddr
ip (addr_v4 a b c d port) = v4 a b c d
ip (addr_v6 host port flowinfo scope_id) = v6 host

abbrev pub port : SocketAddr → ℕ
port (addr_v4 a b c d p) = p
port (addr_v6 host p flowinfo scope_id) = p

-- `==` of socket addresses.
unfoldable pub same_addr : SocketAddr → SocketAddr → Bool
same_addr (addr_v4 a b c e p) (addr_v4 a' b' c' e' p') =
    a == a' && b == b' && c == c' && e == e' && p == p'
same_addr (addr_v4 a b c e p) (addr_v6 host' p' flowinfo' scope_id') = false
same_addr (addr_v6 host p flowinfo scope_id) (addr_v4 a' b' c' e' p') = false
same_addr (addr_v6 host p flowinfo scope_id) (addr_v6 host' p' flowinfo' scope_id') =
    host == host' && p == p' && flowinfo == flowinfo' && scope_id == scope_id'

pub same_addr_iff : (a b : SocketAddr) → (same_addr a b ≡ true) ↔ (a ≡ b)
unfolding same_addr
same_addr_iff (addr_v4 a b c e p) (addr_v4 a' b' c' e' p') = ground arith
same_addr_iff (addr_v4 a b c e p) (addr_v6 host' p' flowinfo' scope_id') = ground arith
same_addr_iff (addr_v6 host p flowinfo scope_id) (addr_v4 a' b' c' e' p') = ground arith
same_addr_iff (addr_v6 host p flowinfo scope_id) (addr_v6 host' p' flowinfo' scope_id') =
    ground arith

pub same_addr_ne : (a b : SocketAddr) → same_addr a b ≡ false → a ≢ b
same_addr_ne a b h e = ground (arith, same_addr_iff a b)

pub same_addr_self : (a : SocketAddr) → same_addr a a ≡ true
same_addr_self a = (same_addr_iff a a).1 refl

-- What a socket was asked to send, and where to.
pub record Datagram : Type 0 where
  pub payload : List ℕ
  pub target : SocketAddr

-- What the world answers during one handler: the time that `TunnelClient::current_timestamp` gives,
-- the reading of every other clock that a called package consults, the reading when a sweep over a
-- map comes to a key, the whole seconds since start-up, and whether a send succeeds.
pub record Io : Type 0 where
  pub now : ℕ
  pub clock : ℕ
  pub sweep_clock : ℕ → ℕ
  pub elapsed_secs : ℕ
  pub send_to : List ℕ → SocketAddr → Bool

-- Different addresses are told apart.
pub same_addr_apart : (a b : SocketAddr) → a ≢ b → same_addr a b ≡ false
same_addr_apart a b h = elim (Bool-cases (same_addr a b)) [
  | inl same ↦ absurd (h ((same_addr_iff a b).0 same))
  | inr other ↦ other
]
