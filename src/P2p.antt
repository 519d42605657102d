-- ===== src/P2p.antt =====
-- src/peer_to_peer.rs: the service that tells a client its own public address. A worker keeps one
-- buffer for its replies and writes each reply into it.
pub mod Reply
pub mod Worker
pub mod Start
mod Tests
use cncnet_server.Base.{
  ℕ, zero, suc, ◌/◌, ◌%◌, Bool, true, false, not, List, [], ◌∷◌, ◌==◌, if◌then◌else◌, get_or, set,
}
use cncnet_server.Base.Words.{add64, xor, from_be_bytes_16}
use cncnet_server.Deps.{Deps}
use cncnet_server.Limiter.{RateLimiter, rate_limiter_new, check_and_increment, reset}
use cncnet_server.Metrics.{Metrics}
use cncnet_server.Net.{IpAddr, v4, v6, SocketAddr, ip, port, Datagram, Io}

abbrev pub max_requests_per_ip : ℕ
max_requests_per_ip = 20

abbrev pub stun_id : ℕ
stun_id = 26262

-- The first four bytes: the octets, or zeros for an IPv6 address.
abbrev pub write_octets : IpAddr → List ℕ → List ℕ
write_octets (v4 a b c e) buffer = set (set (set (set buffer 0 a) 1 b) 2 c) 3 e
write_octets (v6 host) buffer = set (set (set (set buffer 0 0) 1 0) 2 0) 3 0

-- The bytes 4 and 5: the port, big-endian.
abbrev pub write_port : ℕ → List ℕ → List ℕ
write_port p buffer = set (set buffer 4 (p / 256 % 256)) 5 (p % 256)

-- The loop `for i in .. { send_buffer[i] ^= 0x20 }`, with so many turns left.
unfoldable pub mask_from : ℕ → ℕ → List ℕ → List ℕ
mask_from i zero buffer = buffer
mask_from i (suc left) buffer =
    mask_from (suc i) left (set buffer i (xor 8 (get_or buffer i 0) 0x20))

abbrev pub write_reply : SocketAddr → List ℕ → List ℕ
write_reply addr buffer = mask_from 0 6 (write_port (port addr) (write_octets (ip addr) buffer))

-- The two bytes that a worker writes once: `(STUN_ID >> 8) & 0xFF` and `STUN_ID & 0xFF`.
abbrev pub write_id : List ℕ → List ℕ
write_id buffer = set (set buffer 6 (stun_id / 256 % 256)) 7 (stun_id % 256)

abbrev pub received_id : List ℕ → ℕ
unfolding from_be_bytes_16
received_id packet = from_be_bytes_16 (get_or packet 0 0) (get_or packet 1 0)

module _ (d : Deps) where
  open d use {validate_address}

  pub record PeerToPeer : Type 0 where
    pub service_port : ℕ
    pub metrics : Metrics
    pub rate_limiter : RateLimiter d.rater

  pub record Outcome : Type 0 where
    pub service : PeerToPeer
    pub send_buffer : List ℕ
    pub sent : List Datagram

  unfoldable pub service_new : ℕ → Metrics → PeerToPeer
  service_new p metrics = record {
    service_port = p;
    metrics = metrics;
    rate_limiter = rate_limiter_new d.rater 60 max_requests_per_ip;
  }

  -- A tick of the task that `start` spawns for the limiter.
  unfoldable pub reset_tick : PeerToPeer → PeerToPeer
  reset_tick s = record s { rate_limiter = reset d.rater s.rate_limiter }

  -- From the test of the id on.
  unfoldable pub answer : PeerToPeer → List ℕ → SocketAddr → List ℕ → Io → Outcome
  answer s packet remote_addr send_buffer io =
      let m = s.metrics in
      let reply = write_reply remote_addr send_buffer in
      if not (received_id packet == stun_id)
      then record { service = s; send_buffer = send_buffer; sent = [] }
      else if io.send_to reply remote_addr
      then record {
        service = record s { metrics = record m { p2p_responses = add64 m.p2p_responses 1 } };
        send_buffer = reply;
        sent = record { payload = reply; target = remote_addr } ∷ [];
      }
      else record { service = s; send_buffer = reply; sent = [] }

  unfoldable pub on_receive : PeerToPeer → List ℕ → SocketAddr → List ℕ → Io → Outcome
  on_receive s packet remote_addr send_buffer io =
      let m = s.metrics in
      let (allowed, limiter) =
        check_and_increment d.rater s.rate_limiter (ip remote_addr) io.clock in
      if not (validate_address remote_addr)
      then record { service = s; send_buffer = send_buffer; sent = [] }
      else if not allowed
      then record {
        service = record s {
          rate_limiter = limiter;
          metrics = record m { rate_limit_hits = add64 m.rate_limit_hits 1 };
        };
        send_buffer = send_buffer;
        sent = [];
      }
      else answer
          (record s {
            rate_limiter = limiter;
            metrics = record m { p2p_requests = add64 m.p2p_requests 1 };
          })
          packet remote_addr send_buffer io
