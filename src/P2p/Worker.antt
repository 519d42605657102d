-- ===== src/P2p/Worker.antt =====
-- `receive_loop` of src/peer_to_peer.rs, as a fold over what the socket gives. The random bytes that
-- fill the buffer are an argument.
use mathlib.Core.Path.{subst}
use cncnet_server.Base.{
  ℕ, ◌+◌, ◌%◌, ◌≡◌, refl, List, [], ◌∷◌, ◌++◌, ◌==◌, ◌&&◌, if◌then◌else◌, if_cases, arith, length,
  length-append, take, drop, All, All-append, Bool-cases, inl, inr, sym, ap, ◌∙◌,
}
use cncnet_server.Base.Words.{u64_mod}
use cncnet_server.Deps.{Deps}
use cncnet_server.Net.{SocketAddr, Datagram, Io}
use cncnet_server.P2p.{PeerToPeer, write_id, write_reply, on_receive}
use cncnet_server.P2p.Reply.{IsInRange, IsTemplate, IsReply, asks, on_receive-Answered, eight_of}

-- What `recv_from` returns: at most the 64 bytes of the buffer of a datagram.
pub data Received : Type 0 where
  datagram : List ℕ → SocketAddr → Received
  failure : Received

write_id-IsTemplate :
    (random : List ℕ) → length random ≡ 40 → IsTemplate (drop 8 random) (write_id random)
write_id-IsTemplate random size =
    let (b0, b1, b2, b3, b4, b5, b6, b7, rest, all) = eight_of random size in
    subst (λ r. IsTemplate (drop 8 r) (write_id r)) (sym all)
      (ap length (sym all) ∙ size, refl, refl)

module _ (d : Deps) where
  pub record Worker : Type 0 where
    pub service : PeerToPeer d
    pub send_buffer : List ℕ
    pub sent : List Datagram

  unfoldable pub worker_start : PeerToPeer d → List ℕ → Worker
  worker_start s random = record { service = s; send_buffer = write_id random; sent = [] }

  unfoldable pub receive_round : Worker → Received × Io → Worker
  receive_round w (datagram bytes addr, io) =
      let packet = take 64 bytes in
      let out = on_receive d w.service packet addr w.send_buffer io in
      if length packet == 48
      then record {
        service = out.service;
        send_buffer = out.send_buffer;
        sent = w.sent ++ out.sent;
      }
      else w
  receive_round w (failure, io) = w

  unfoldable pub receive_loop : Worker → List (Received × Io) → Worker
  receive_loop w [] = w
  receive_loop w (e ∷ es) = receive_loop (receive_round w e) es

  abbrev pub HasRange : Received × Io → Type 0
  HasRange (datagram bytes addr, io) = IsInRange addr
  HasRange (failure, io) = Unit

  -- A worker whose buffer ends in `tail`, and that started with `responses` on the shared counter.
  pub record Served (tail : List ℕ) (responses : ℕ) (w : Worker) : Type 0 where
    pub template : IsTemplate tail w.send_buffer
    pub replies : All (λ (dg : Datagram). IsReply tail dg.target dg.payload) w.sent
    pub counted : w.service.metrics.p2p_responses % u64_mod ≡ (responses + length w.sent) % u64_mod

  module _ (tail : List ℕ) (responses : ℕ) where
    round-Served :
        (w : Worker) (e : Received × Io)
        → HasRange e
        → Served tail responses w
        → Served tail responses (receive_round w e)
    unfolding receive_round
    round-Served w (failure, io) range v = v
    round-Served w (datagram bytes addr, io) range v =
        let packet = take 64 bytes in
        let out = on_receive d w.service packet addr w.send_buffer io in
        let a =
          on_receive-Answered d w.service packet addr tail w.send_buffer io range v.template in
        let reply : Datagram = record { payload = write_reply addr w.send_buffer; target = addr } in
        if_cases (Served tail responses) (length packet == 48) _ _
          (λ _.
            elim (Bool-cases (asks d w.service packet addr io && io.send_to reply.payload addr)) [
              | inl answered ↦
                  let one : out.sent ≡ reply ∷ [] = ground (arith, a.sent, answered) in
                  record {
                    template = a.template;
                    replies = All-append _ w.sent out.sent v.replies (rw one (a.says, tt));
                    counted = ground (
                      arith,
                      v.counted,
                      a.responses,
                      answered,
                      length-append w.sent out.sent,
                      one,
                    );
                  }
              | inr silent ↦
                  let none_sent : out.sent ≡ [] = ground (arith, a.sent, silent) in
                  record {
                    template = a.template;
                    replies = All-append _ w.sent out.sent v.replies (rw none_sent tt);
                    counted = ground (
                      arith,
                      v.counted,
                      a.responses,
                      silent,
                      length-append w.sent out.sent,
                      none_sent,
                    );
                  }
            ])
          (λ _. v)

    loop-Served :
        (w : Worker) (es : List (Received × Io))
        → All HasRange es
        → Served tail responses w
        → Served tail responses (receive_loop w es)
    unfolding receive_loop
    loop-Served w [] range v = v
    loop-Served w (e ∷ es) range v =
        loop-Served (receive_round w e) es range.1 (round-Served w e range.0 v)

  -- Whatever a worker receives from its start on, every datagram that it sends is a reply to the
  -- address that it goes to, with the worker's own bytes at its end, and the counter of responses has
  -- moved, modulo 2^64, by their number. The random bytes are forty, and the numbers of the addresses
  -- are in range.
  pub receive_loop-Served :
      (s : PeerToPeer d) (random : List ℕ) (es : List (Received × Io))
      → length random ≡ 40
      → All HasRange es
      → Served (drop 8 random) s.metrics.p2p_responses (receive_loop (worker_start s random) es)
  unfolding worker_start
  receive_loop-Served s random es size range =
      loop-Served (drop 8 random) s.metrics.p2p_responses (worker_start s random) es range
        (record { template = write_id-IsTemplate random size; replies = tt; counted = omega arith })
