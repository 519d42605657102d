-- ===== src/V3/Race.antt =====
-- The workers of src/tunnel_v3.rs that register clients at the same time: the test of the sender in
-- `handle_data_forward`, one access to the map at a time.
use cncnet_server.Base.{
  ℕ, ◌<◌, Bool, not, ◌&&◌, none, some, List, ltb, if◌then◌else◌, length, get_or, set,
}
use cncnet_server.Deps.{Deps}
use cncnet_server.Net.{SocketAddr, same_addr, Io}
use cncnet_server.V3.{timeout_seconds}

-- Where a worker stands: between packets; after it has found no client under an id; after the test of
-- the limit, or after it has found a client that has timed out, before it inserts a new one.
pub data Handling : Type 0 where
  ready : Handling
  unknown : ℕ → Handling
  admitted reconnecting : ℕ → Handling

module _ (d : Deps) where
  open d use {
    Map, get, insert, remove, len, TunnelClient, new_with_endpoint, remote_ep, is_timed_out,
    get-insert, get-remove, len-insert, len-remove,
  }

  pub record Registering : Type 0 where
    pub mappings : Map TunnelClient
    pub workers : List Handling

  -- The next access of a worker. `acquired` is what the limiter answers, where it is asked.
  unfoldable pub worker_step :
      ℕ → Io → Registering → ℕ → ℕ → SocketAddr → Bool → Handling → Registering
  worker_step max_clients io r i sender_id remote_addr acquired ready =
      elim (get sender_id r.mappings) [
        | none ↦ record r { workers = set r.workers i (unknown sender_id) }
        | some client ↦ elim (remote_ep client) [
          | none ↦ r
          | some ep ↦
              if not (same_addr ep remote_addr) && is_timed_out client io.clock && acquired
              then record r { workers = set r.workers i (reconnecting sender_id) }
              else r
        ]
      ]
  worker_step max_clients io r i sender_id remote_addr acquired (unknown id) =
      if ltb (len r.mappings) max_clients && acquired
      then record r { workers = set r.workers i (admitted id) }
      else record r { workers = set r.workers i ready }
  worker_step max_clients io r i sender_id remote_addr acquired (admitted id) = record r {
    mappings = insert id (new_with_endpoint remote_addr timeout_seconds io.clock) r.mappings;
    workers = set r.workers i ready;
  }
  worker_step max_clients io r i sender_id remote_addr acquired (reconnecting id) = record r {
    mappings = insert id (new_with_endpoint remote_addr timeout_seconds io.clock) r.mappings;
    workers = set r.workers i ready;
  }

  -- A worker makes its next access, or a sweep takes an id away.
  pub data RegisterStep (max_clients : ℕ) (r : Registering) : Registering → Type 0 where
    works :
        (i sender_id : ℕ) (remote_addr : SocketAddr) (acquired : Bool) (io : Io)
        → i < length r.workers
        → RegisterStep max_clients r (
            worker_step max_clients io r i sender_id remote_addr acquired
              (get_or r.workers i ready))
    swept : (id : ℕ) → RegisterStep max_clients r (record r { mappings = remove id r.mappings })

  pub data RegisterReach (max_clients : ℕ) (r : Registering) : Registering → Type 0 where
    none_yet : RegisterReach max_clients r r
    and_then :
        {u v : Registering}
        → RegisterReach max_clients r u
        → RegisterStep max_clients u v
        → RegisterReach max_clients r v
