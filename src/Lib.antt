-- ===== src/Lib.antt =====
-- Verification of the CnCNet tunnel server, a relay of UDP packets between game clients
-- (src/main.rs and its modules).
--
-- The program's parts. `main` reads the arguments into a `ServerConfig`, and starts the V3 tunnel,
-- the V2 tunnel, two peer-to-peer services and a health server; all share one `Metrics`. A tunnel
-- keeps a map from client ids to clients, relays a packet from a registered sender to the endpoint
-- of the receiver's id, and limits what an address may do by the limiters of rate_limiter.rs. Each
-- worker counts in a batch of its own and flushes it to the shared metrics.
--
-- Files. Base: shared names, lists, machine words. Net: addresses, and `Io`, what the world answers
-- during one handler (clocks, sends). Text and Text/Decimal: what the code uses of Rust's `str`,
-- with printing and parsing of integers; Text/Split splits what was joined. Deps: the packages that
-- the repository does not hold (dashmap, udp_relay_core, rater, sha1) as interfaces with the laws
-- that their documentation gives; Deps/Models meets them by concrete functions. Endpoint: the
-- endpoints in a map of clients, for both tunnels. Samples and the Tests modules hold concrete
-- inputs.
--
-- Metrics: src/metrics.rs, with Metrics/Export `update_prometheus` over an interface of the
-- prometheus package, Metrics/Batch and Metrics/Flushing the batches against counting at once,
-- Metrics/Exact exports one after the other and Metrics/Race exports in atomic steps. Limiter:
-- src/rate_limiter.rs. Config: src/config.rs and `Args`; Config/Trim and Config/Checked are about
-- the arguments that are accepted. P2p: src/peer_to_peer.rs, with P2p/Worker its `receive_loop`,
-- and P2p/Reply how a client reads a reply. Shutdown: src/shutdown.rs, with Shutdown/Once. Health:
-- src/health.rs, with Health/Accepting its accept loop and Health/Serving what it answers. Errors:
-- src/errors.rs.
--
-- Announce: the URL of `send_master_announce` in both tunnels, over the encoding of texts as an
-- interface; Announce/Reading and Announce/Tunnels are proofs.
--
-- Main: the services and the shutdown of src/main.rs, as steps of its tasks; Main/Runtime its
-- runtime and log; Main/Life, Main/Finish, Main/Starting and Main/Unfailing are proofs. Socket: the
-- sockets of the services, with Socket/Shared; V3/Start, V2/Start and P2p/Start the `start`
-- functions.
--
-- Relay: what both tunnels promise, as an abstract relay of datagrams; V3/Refinement,
-- V3/Implements, V2/Refinement and V2/Implements relate the tunnels to it.
--
-- V3: src/tunnel_v3.rs. V3 itself has the state and the handlers of a packet between ids,
-- V3/Receive `execute_command` and `on_receive`, V3/Cleanup the sweep, V3/Worker `receive_loop`,
-- V3/Heartbeat `heartbeat_loop`, V3/System the tasks that `start` spawns, taking turns on one
-- tunnel, and V3/Race workers that register clients at the same time. The other children of V3 hold
-- proofs: Lookup, Registry, Sender, Delivery, Reaching, Ownership, Commands, Lockout, Expiry, Accounting,
-- Invariant, Preservation, Sound, Totals, Capacity and Overshoot.
--
-- V2: src/tunnel_v2.rs, with the handlers of a packet in V2 itself, V2/Response and V2/Http the
-- HTTP side, V2/Allocate `handle_request`, V2/Periodic the heartbeat, V2/Worker `receive_loop`,
-- V2/Listener the accept loop, and V2/Race requests at the same time. Draws, Supply, Slots,
-- Requests, Sender, Relay, Delivery, Reaching, Accounting, Maintenance and System hold proofs.
--
-- How the code is read. A function of the model has the name of the Rust function. A handler is one
-- step: it takes the state and returns the state, and no other task runs between its reads and its
-- writes. V2/Race, V3/Race, Metrics/Race and Shutdown are finer: there each atomic operation, or
-- each access to the map, is a step. A method on an object behind an `Arc` writes the changed
-- object back under its key. Atomics and counters wrap as their type does in a release build
-- (overflow checks are off). A byte is a number below 256 and a packet a list of bytes. Loops are
-- folds over the list of what the socket or the timer gives, and the drawing of ids recurses on the
-- attempts that are left, 1000 at the start as in the code, so no fuel is needed. Only the printing
-- of an integer has fuel, of twenty digits, which 64 bits fit in.
--
-- Not modelled: the runtime's scheduling inside a handler, TLS and HTTP connections, what is
-- logged, a panic inside a task, and the request that carries the announcement to the master
-- server.
pub mod Base
pub mod Net
pub mod Deps
pub mod Metrics
pub mod Limiter
pub mod Config
pub mod Endpoint
pub mod Text
pub mod Announce
pub mod V2
pub mod Samples
pub mod V3
pub mod P2p
pub mod Shutdown
pub mod Errors
pub mod Socket
pub mod Main
pub mod Health
pub mod Relay
