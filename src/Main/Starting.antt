-- ===== src/Main/Starting.antt =====
-- How the services of src/main.rs start.
use cncnet_server.Base.{ℕ, ◌<◌, ◌≡◌, refl, ◌⊎◌, true, some, List, [], ◌∷◌, ◌++◌, All}
use cncnet_server.Config.{ServerConfig}
use cncnet_server.Errors as Errors
use cncnet_server.Main.{Service, p2p, tunnel_v3, tunnel_v2, Machine, start_service}
use cncnet_server.P2p.Start as P2pStart
use cncnet_server.Socket.{Socket, Task, heartbeat_loop, http_server, limiter_reset, receive_loops}
use cncnet_server.Socket.Shared.{fresh, refusal, LetsShare, start_workers-shared}
use cncnet_server.V2.Start as V2Start
use cncnet_server.V3.Start as V3Start

-- What each service is meant to have: tasks besides its workers, the number of workers, the sizes of
-- their buffers, and their port.
abbrev pub tasks_of : Service → List Task
tasks_of (p2p port) = limiter_reset ∷ []
tasks_of tunnel_v3 = heartbeat_loop ∷ []
tasks_of tunnel_v2 = http_server ∷ heartbeat_loop ∷ []

abbrev pub workers_of : Machine → Service → ℕ
workers_of m (p2p port) = P2pStart.num_workers m.cpus
workers_of m tunnel_v3 = V3Start.num_receivers m.cpus
workers_of m tunnel_v2 = V2Start.num_receivers m.cpus

abbrev pub size_of : Machine → Service → ℕ
size_of m (p2p port) = P2pStart.buffer_size
size_of m tunnel_v3 = V3Start.buffer_size m.aarch64
size_of m tunnel_v2 = V2Start.buffer_size

abbrev pub port_of : ServerConfig → Service → ℕ
port_of config (p2p port) = port
port_of config tunnel_v3 = config.tunnel_port
port_of config tunnel_v2 = config.tunnel_v2_port

-- Its sockets, one for each worker, while `opened` are open.
abbrev pub sockets_for : Machine → ServerConfig → ℕ → List Socket → Service → List Socket
sockets_for m config n opened service =
    fresh m.os (size_of m service) (size_of m service) (port_of config service) n opened

-- With all its workers, each on the socket with its number.
abbrev pub full : Machine → ServerConfig → List Socket → Service → List Task
full m config opened service =
    tasks_of service ++ receive_loops 0 (sockets_for m config (workers_of m service) opened service)

module _ (m : Machine) (config : ServerConfig) (opened : List Socket) where
  pub start_service-shared :
      (service : Service)
      → LetsShare m.os
      → All (λ o. o.reuse_port ≡ true) opened
      → start_service m config opened service ≡ Errors.ok (full m config opened service)
  unfolding P2pStart.start V3Start.start V2Start.start
  start_service-shared (p2p port) lets shared =
      start_workers-shared m.os P2pStart.buffer_size P2pStart.buffer_size port
        (P2pStart.create_bound_socket m.os port) (λ l. refl) (P2pStart.num_workers m.cpus) opened
        (limiter_reset ∷ []) lets shared
  start_service-shared tunnel_v3 lets shared =
      start_workers-shared m.os (V3Start.buffer_size m.aarch64) (V3Start.buffer_size m.aarch64)
        config.tunnel_port (V3Start.create_bound_socket m.aarch64 m.os config) (λ l. refl)
        (V3Start.num_receivers m.cpus) opened (heartbeat_loop ∷ []) lets shared
  start_service-shared tunnel_v2 lets shared =
      start_workers-shared m.os V2Start.buffer_size V2Start.buffer_size config.tunnel_v2_port
        (V2Start.create_bound_socket m.os config) (λ l. refl) (V2Start.num_receivers m.cpus) opened
        (http_server ∷ heartbeat_loop ∷ []) lets shared

  -- All of its workers, or the error of the first socket that is refused, while those before are open.
  abbrev pub AllOrNothing : Service → Errors.Result (List Task) → Type 0
  AllOrNothing service r =
      (r ≡ Errors.ok (full m config opened service))
      ⊎ ((k : ℕ) × (e : Errors.ServerError) × (k < workers_of m service)
          × (refusal m.os (opened ++ sockets_for m config k opened service) (size_of m service)
                (size_of m service) (port_of config service)
              ≡ some e)
          × (r ≡ Errors.err e))
