-- ===== src/V2/Start.antt =====
-- `start` of src/tunnel_v2.rs, until it waits for its tasks.
use cncnet_server.Base.{ℕ, ◌*◌, List, [], ◌∷◌}
use cncnet_server.Config.{ServerConfig}
use cncnet_server.Errors.{Result}
use cncnet_server.Socket.{
  Socket, Os, bound_socket, Task, heartbeat_loop, http_server, between, start_workers,
}

abbrev pub buffer_size : ℕ
buffer_size = 8 * 1024 * 1024

abbrev pub create_bound_socket : Os → ServerConfig → List Socket → Result Socket
create_bound_socket os config opened =
    bound_socket os opened buffer_size buffer_size config.tunnel_v2_port

-- Of the number of processors.
abbrev pub num_receivers : ℕ → ℕ
num_receivers cpus = between 1 4 cpus

unfoldable pub start : ℕ → Os → ServerConfig → List Socket → Result (List Task)
start cpus os config opened =
    start_workers (create_bound_socket os config) (num_receivers cpus) opened
      (http_server ∷ heartbeat_loop ∷ [])
