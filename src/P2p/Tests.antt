-- ===== src/P2p/Tests.antt =====
-- The peer-to-peer service at concrete packets: tests, and the theorems at inputs that meet their
-- hypotheses.
use cncnet_server.Base.{ℕ, zero, suc, ◌≡◌, refl, List, [], ◌∷◌, arith, drop}
use cncnet_server.Base.Words.{xor, from_be_bytes_16}
use cncnet_server.Limiter.{rate_limiter_new, check_and_increment}
use cncnet_server.Metrics.{metrics_new}
use cncnet_server.Net.{Io}
use cncnet_server.P2p.{PeerToPeer, service_new, mask_from, answer, on_receive}
use cncnet_server.P2p.Reply.{IsInRange, Answered, on_receive-Answered}
use cncnet_server.P2p.Worker.{
  Received, datagram, failure, worker_start, receive_round, receive_loop, Served,
  receive_loop-Served,
}
use cncnet_server.Samples.{plain, alice, bob, at_second}

-- What a test by computation has to see through.
program : Unit {0}
unfolding xor from_be_bytes_16 rate_limiter_new check_and_increment service_new mask_from answer
    on_receive worker_start receive_round receive_loop
program = tt

abbrev fresh : PeerToPeer plain
fresh = service_new plain 3478 metrics_new

abbrev zeros : ℕ → List ℕ
zeros zero = []
zeros (suc n) = 0 ∷ zeros n

-- A request: the STUN id, then zeros.
abbrev stun_request : List ℕ
stun_request = 0x66 ∷ 0x96 ∷ zeros 46

-- What a worker's buffer holds before its first reply.
abbrev template : List ℕ
template = 1 ∷ 2 ∷ 3 ∷ 4 ∷ 5 ∷ 6 ∷ 0x66 ∷ 0x96 ∷ zeros 32

-- Alice is 10.0.0.1, port 5000.
alice_reads_her_address :
    (on_receive plain fresh stun_request alice template (at_second 0)).sent
    ≡ record { payload = 42 ∷ 32 ∷ 32 ∷ 33 ∷ 51 ∷ 168 ∷ 0x66 ∷ 0x96 ∷ zeros 32; target = alice }
      ∷ []
unfolding program
alice_reads_her_address = refl

alice_range : IsInRange alice
alice_range = (omega arith, omega arith, omega arith, omega arith, omega arith)

bob_range : IsInRange bob
bob_range = (omega arith, omega arith, omega arith, omega arith, omega arith)

on_receive-Answered_example :
    Answered plain fresh stun_request alice
      (zeros 32)
      template
      (at_second 0)
      (on_receive plain fresh stun_request alice template (at_second 0))
on_receive-Answered_example =
    on_receive-Answered plain fresh stun_request alice (zeros 32) template (at_second 0) alice_range
      (refl, refl, refl)

abbrev events : List (Received × Io)
events =
    (datagram stun_request alice, at_second 0)
    ∷ (failure, at_second 1)
    ∷ (datagram (zeros 48) bob, at_second 2)
    ∷ (datagram stun_request bob, at_second 3)
    ∷ []

receive_loop-Served_example :
    Served plain
      (drop 8 (zeros 40))
      0
      (receive_loop plain (worker_start plain fresh (zeros 40)) events)
unfolding service_new
receive_loop-Served_example =
    receive_loop-Served plain fresh (zeros 40) events refl
      (alice_range, (tt, (bob_range, (bob_range, tt))))
