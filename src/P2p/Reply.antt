-- ===== src/P2p/Reply.antt =====
-- What a reply of src/peer_to_peer.rs says, as its receiver reads it.
use mathlib.Core.Path.{subst}
use cncnet_server.Base.{
  sym, ap, ◌∙◌, ℕ, suc, ◌+◌, ◌*◌, ◌/◌, ◌%◌, ◌<◌, ◌≡◌, refl, Bool, not, ◌&&◌, List, [], ◌∷◌, ◌==◌,
  if◌then◌else◌, arith, length, get_or, take, drop, map,
}
use cncnet_server.Base.Words.{add64, xor, xor-xor}
use cncnet_server.Deps.{Deps}
use cncnet_server.Limiter.{check_and_increment}
use cncnet_server.Net.{IpAddr, v4, v6, SocketAddr, addr_v4, addr_v6, ip, port, Io}
use cncnet_server.P2p.{
  PeerToPeer, Outcome, stun_id, write_reply, mask_from, received_id, answer, on_receive,
}

-- The numbers of an address are in range.
abbrev pub IsInRange : SocketAddr → Type 0
IsInRange (addr_v4 a b c e p) = (a < 256) × (b < 256) × (c < 256) × (e < 256) × (p < 65536)
IsInRange (addr_v6 host p flowinfo scope_id) = p < 65536

-- What a client is told of its address: nothing of an IPv6 address but the port.
abbrev pub public_octets : IpAddr → List ℕ
public_octets (v4 a b c e) = a ∷ b ∷ c ∷ e ∷ []
public_octets (v6 host) = 0 ∷ 0 ∷ 0 ∷ 0 ∷ []

-- How a client reads a reply: it takes the mask off the first six bytes.
abbrev unmask : List ℕ → List ℕ
unmask = map (λ b. xor 8 b 0x20)

abbrev pub read_octets : List ℕ → List ℕ
read_octets reply = unmask (take 4 reply)

abbrev pub read_port : List ℕ → ℕ
read_port reply = xor 8 (get_or reply 4 0) 0x20 * 256 + xor 8 (get_or reply 5 0) 0x20

-- A buffer that holds the id, and behind it the bytes `tail`.
abbrev pub IsTemplate : List ℕ → List ℕ → Type 0
IsTemplate tail buffer =
    (length buffer ≡ 40) × (take 2 (drop 6 buffer) ≡ 0x66 ∷ 0x96 ∷ []) × (drop 8 buffer ≡ tail)

-- A reply to an address: a template from which the address can be read.
pub record IsReply (tail : List ℕ) (addr : SocketAddr) (reply : List ℕ) : Type 0 where
  pub octets : read_octets reply ≡ public_octets (ip addr)
  pub port_read : read_port reply ≡ port addr
  pub template : IsTemplate tail reply

port_bytes : (p : ℕ) → p < 65536 → p / 256 % 256 * 256 + p % 256 ≡ p
port_bytes p small = omega arith

first_of :
    {n : ℕ} (buffer : List ℕ)
    → length buffer ≡ suc n
    → (b : ℕ) × (rest : List ℕ) × (buffer ≡ b ∷ rest) × (length rest ≡ n)
first_of [] e = absurd (omega (arith, e))
first_of (b ∷ rest) e = (b, rest, refl, omega (arith, e))

-- A reply buffer begins with eight bytes.
pub eight_of :
    (buffer : List ℕ)
    → length buffer ≡ 40
    → (b0 : ℕ) × (b1 : ℕ) × (b2 : ℕ) × (b3 : ℕ) × (b4 : ℕ) × (b5 : ℕ) × (b6 : ℕ) × (b7 : ℕ)
      × (rest : List ℕ) × (buffer ≡ b0 ∷ b1 ∷ b2 ∷ b3 ∷ b4 ∷ b5 ∷ b6 ∷ b7 ∷ rest)
eight_of buffer size =
    let (b0, r0, e0, l0) = first_of buffer size in
    let (b1, r1, e1, l1) = first_of r0 l0 in
    let (b2, r2, e2, l2) = first_of r1 l1 in
    let (b3, r3, e3, l3) = first_of r2 l2 in
    let (b4, r4, e4, l4) = first_of r3 l3 in
    let (b5, r5, e5, l5) = first_of r4 l4 in
    let (b6, r6, e6, l6) = first_of r5 l5 in
    let (b7, r7, e7, l7) = first_of r6 l6 in (b0, b1, b2, b3, b4, b5, b6, b7, r7, cc)

module _ (tail : List ℕ) (b0 b1 b2 b3 b4 b5 b6 b7 : ℕ) where
  written-IsReply :
      (addr : SocketAddr)
      → IsInRange addr
      → IsTemplate tail (b0 ∷ b1 ∷ b2 ∷ b3 ∷ b4 ∷ b5 ∷ b6 ∷ b7 ∷ tail)
      → IsReply tail addr (write_reply addr (b0 ∷ b1 ∷ b2 ∷ b3 ∷ b4 ∷ b5 ∷ b6 ∷ b7 ∷ tail))
  unfolding mask_from
  written-IsReply (addr_v4 a b c e p) range t = record {
    octets =
        rw
          (
            xor-xor 8 a 0x20 range.0,
            xor-xor 8 b 0x20 range.1,
            xor-xor 8 c 0x20 range.2,
            xor-xor 8 e 0x20 range.3,
          )
          refl;
    port_read =
        rw (xor-xor 8 (p / 256 % 256) 0x20 (omega arith), xor-xor 8 (p % 256) 0x20 (omega arith))
          (port_bytes p range.4);
    template = t;
  }
  written-IsReply (addr_v6 host p flowinfo scope_id) range t = record {
    octets = rw (xor-xor 8 0 0x20 (omega arith)) refl;
    port_read =
        rw (xor-xor 8 (p / 256 % 256) 0x20 (omega arith), xor-xor 8 (p % 256) 0x20 (omega arith))
          (port_bytes p range);
    template = t;
  }

write_reply-IsReply :
    (tail : List ℕ) (addr : SocketAddr) (buffer : List ℕ)
    → IsInRange addr
    → IsTemplate tail buffer
    → IsReply tail addr (write_reply addr buffer)
write_reply-IsReply tail addr buffer range t =
    let (b0, b1, b2, b3, b4, b5, b6, b7, rest, all) = eight_of buffer t.0 in
    let behind : rest ≡ tail = ap (drop 8) (sym all) ∙ t.2 in
    let whole : buffer ≡ b0 ∷ b1 ∷ b2 ∷ b3 ∷ b4 ∷ b5 ∷ b6 ∷ b7 ∷ tail = cc in
    subst (λ b. IsReply tail addr (write_reply addr b)) (sym whole)
      (written-IsReply tail b0 b1 b2 b3 b4 b5 b6 b7 addr range (subst (IsTemplate tail) whole t))

module _ (d : Deps) where
  open d use {validate_address}

  -- The packets that ask for a reply, from an address that the limiter lets in.
  pub asks : PeerToPeer d → List ℕ → SocketAddr → Io → Bool
  asks s packet addr io =
      validate_address addr
      && (check_and_increment d.rater s.rate_limiter (ip addr) io.clock).0
      && received_id packet == stun_id

  -- What a packet does. The counters and the buffer as they are afterwards, and the datagrams sent.
  pub record Answered (s : PeerToPeer d) (packet : List ℕ) (addr : SocketAddr)
      (tail buffer : List ℕ) (io : Io) (o : Outcome d) : Type 0 where
    pub sent : o.sent ≡ (
        if asks s packet addr io && io.send_to (write_reply addr buffer) addr
        then record { payload = write_reply addr buffer; target = addr } ∷ []
        else [])
    pub says : IsReply tail addr (write_reply addr buffer)
    pub template : IsTemplate tail o.send_buffer
    pub responses : o.service.metrics.p2p_responses ≡ (
        if asks s packet addr io && io.send_to (write_reply addr buffer) addr
        then add64 s.metrics.p2p_responses 1
        else s.metrics.p2p_responses)
    pub requests : o.service.metrics.p2p_requests ≡ (
        if validate_address addr
          && (check_and_increment d.rater s.rate_limiter (ip addr) io.clock).0
        then add64 s.metrics.p2p_requests 1
        else s.metrics.p2p_requests)
    pub limited : o.service.metrics.rate_limit_hits ≡ (
        if validate_address addr
          && not (check_and_increment d.rater s.rate_limiter (ip addr) io.clock).0
        then add64 s.metrics.rate_limit_hits 1
        else s.metrics.rate_limit_hits)

  -- A packet is answered exactly if it begins with the STUN id and comes from an address that is valid
  -- and that the limiter lets in, where the socket takes the reply. The reply goes to where the packet
  -- came from, has forty bytes, and, read with its mask taken off, tells the port and the IPv4 octets
  -- of that address, with the STUN id behind them and the worker's own bytes at its end. The buffer
  -- stays fit for the next reply, and the counters of requests, responses and limiter hits each move by
  -- one exactly in the cases they are meant for. The numbers of the address are in range.
  pub on_receive-Answered :
      (s : PeerToPeer d) (packet : List ℕ) (addr : SocketAddr) (tail buffer : List ℕ) (io : Io)
      → IsInRange addr
      → IsTemplate tail buffer
      → Answered s packet addr tail buffer io (on_receive d s packet addr buffer io)
  unfolding on_receive answer asks
  on_receive-Answered s packet addr tail buffer io range t =
      let says = write_reply-IsReply tail addr buffer range t in
      record {
        sent = ground arith;
        says = says;
        template = ground (arith, says.template, t);
        responses = ground arith;
        requests = ground arith;
        limited = ground arith;
      }
