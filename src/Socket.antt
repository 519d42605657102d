-- ===== src/Socket.antt =====
-- The UDP sockets of the services: what `create_bound_socket` of src/tunnel_v3.rs, src/tunnel_v2.rs and
-- src/peer_to_peer.rs asks of the operating system, built for a Unix target. The system's answers are
-- a parameter.
pub mod Shared
use cncnet_server.Base.{
  ℕ, zero, suc, ◌+◌, ◌≡◌, Bool, true, false, Option, none, some, List, [], ◌∷◌, ◌++◌, ◌==◌, ltb,
  if◌then◌else◌, All,
}
use cncnet_server.Errors.{ServerError, Result, err, ok, ◌>>=◌, answered}

pub record Socket : Type 0 where
  -- Its descriptor, which tells it from the other sockets that are open.
  pub fd : ℕ
  pub reuse_address : Bool
  pub reuse_port : Bool
  -- The sizes that were asked for, 0 before.
  pub recv_buffer_size : ℕ
  pub send_buffer_size : ℕ
  -- The port of 0.0.0.0 that it is bound to.
  pub bound : Option ℕ
  pub nonblocking : Bool

abbrev pub unbound : ℕ → Socket
unbound fd = record {
  fd = fd;
  reuse_address = false;
  reuse_port = false;
  recv_buffer_size = 0;
  send_buffer_size = 0;
  bound = none;
  nonblocking = false;
}

-- The calls besides `bind` whose errors the code passes on.
pub data Call : Type 0 where
  create set_reuse_address set_reuse_port set_nonblocking from_std : Call

-- What the system answers, given the sockets that are open: an error or none, and the descriptor of a
-- new socket.
pub record Os : Type 0 where
  pub descriptor : List Socket → ℕ
  pub answer : List Socket → Call → Option ServerError
  pub answer_bind : List Socket → Socket → ℕ → Option ServerError

module _ (os : Os) (opened : List Socket) where
  -- One socket, with the sizes of its buffers and its port. Whether the sizes are granted is ignored.
  unfoldable pub bound_socket : ℕ → ℕ → ℕ → Result Socket
  bound_socket recv send port = do
    socket ← answered (os.answer opened create) (unbound (os.descriptor opened))
    socket ← answered (os.answer opened set_reuse_address) (record socket { reuse_address = true })
    socket ← answered (os.answer opened set_reuse_port) (record socket { reuse_port = true })
    let sized = record socket { recv_buffer_size = recv; send_buffer_size = send }
    socket ← answered (os.answer_bind opened sized port) (record sized { bound = some port })
    socket ← answered (os.answer opened set_nonblocking) (record socket { nonblocking = true })
    answered (os.answer opened from_std) socket

-- The loop `for worker_id in 0..n` of the `start` functions: a socket for each worker, opened one after
-- the other, or the first error.
unfoldable pub open_sockets : (List Socket → Result Socket) → ℕ → List Socket → Result (List Socket)
open_sockets open_one zero opened = ok []
open_sockets open_one (suc left) opened = do
  socket ← open_one opened
  rest ← open_sockets open_one left (opened ++ socket ∷ [])
  ok (socket ∷ rest)

-- What the `start` functions spawn.
pub data Task : Type 0 where
  heartbeat_loop http_server limiter_reset : Task
  receive_loop : ℕ → Socket → Task

-- The workers, numbered from `worker_id`.
abbrev pub receive_loops : ℕ → List Socket → List Task
receive_loops worker_id [] = []
receive_loops worker_id (s ∷ ss) = receive_loop worker_id s ∷ receive_loops (suc worker_id) ss

-- `n.min(high).max(low)`
abbrev pub between : ℕ → ℕ → ℕ → ℕ
between low high n = let m = if ltb high n then high else n in if ltb m low then low else m

-- What the JoinSet of a `start` function holds when it begins to wait for its tasks: those that it has
-- spawned before, and a receive loop for each socket. Where a socket fails, the function returns the
-- error, and the JoinSet ends its tasks as it is dropped.
unfoldable pub start_workers :
    (List Socket → Result Socket) → ℕ → List Socket → List Task → Result (List Task)
start_workers open_one workers opened spawned = do
  sockets ← open_sockets open_one workers opened
  ok (spawned ++ receive_loops 0 sockets)
