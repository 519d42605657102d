-- ===== src/V3/Start.antt =====
-- `start` of src/tunnel_v3.rs, until it waits for its tasks.
use cncnet_server.Base.{ℕ, ◌*◌, Bool, List, [], ◌∷◌, if◌then◌else◌}
use cncnet_server.Config.{ServerConfig}
use cncnet_server.Errors.{Result}
use cncnet_server.Socket.{Socket, Os, bound_socket, Task, heartbeat_loop, between, start_workers}

-- The size of both buffers, on an aarch64 target or another.
abbrev pub buffer_size : Bool → ℕ
buffer_size aarch64 = if aarch64 then 32 * 1024 * 1024 else 16 * 1024 * 1024

abbrev pub create_bound_socket : Bool → Os → ServerConfig → List Socket → Result Socket
create_bound_socket aarch64 os config opened =
    bound_socket os opened (buffer_size aarch64) (buffer_size aarch64) config.tunnel_port

-- Of the number of processors.
abbrev pub num_receivers : ℕ → ℕ
num_receivers cpus = between 2 4 cpus

unfoldable pub start : Bool → ℕ → Os → ServerConfig → List Socket → Result (List Task)
start aarch64 cpus os config opened =
    start_workers (create_bound_socket aarch64 os config) (num_receivers cpus) opened
      (heartbeat_loop ∷ [])
