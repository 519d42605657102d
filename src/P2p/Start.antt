-- ===== src/P2p/Start.antt =====
-- `start` of src/peer_to_peer.rs, until it waits for its tasks.
use cncnet_server.Base.{ℕ, ◌*◌, List, [], ◌∷◌}
use cncnet_server.Errors.{Result}
use cncnet_server.Socket.{Socket, Os, bound_socket, Task, limiter_reset, between, start_workers}

abbrev pub buffer_size : ℕ
buffer_size = 4 * 1024 * 1024

abbrev pub create_bound_socket : Os → ℕ → List Socket → Result Socket
create_bound_socket os port opened = bound_socket os opened buffer_size buffer_size port

-- Of the number of processors.
abbrev pub num_workers : ℕ → ℕ
num_workers cpus = between 1 2 cpus

unfoldable pub start : ℕ → Os → ℕ → List Socket → Result (List Task)
start cpus os port opened =
    start_workers (create_bound_socket os port) (num_workers cpus) opened (limiter_reset ∷ [])
