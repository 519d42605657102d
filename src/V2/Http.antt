-- ===== src/V2/Http.antt =====
-- The other HTTP requests of src/tunnel_v2.rs, and the acceptance of a connection. Parsing a request
-- and the semaphore belong to packages: a request comes with whether its method is GET, and a
-- connection with whether it gets a permit.
use cncnet_server.Base.{
  ℕ, ◌+◌, ◌-◌, ◌%◌, Bool, not, ◌&&◌, Option, List, [], ◌∷◌, ◌++◌, leb, if◌then◌else◌, length,
  get_or, slice_eq,
}
use cncnet_server.Base.Words.{add64, u32_mod}
use cncnet_server.Deps.{Deps}
use cncnet_server.Limiter.{check_and_increment}
use cncnet_server.Net.{SocketAddr, ip, Io}
use cncnet_server.Text.{codes, starts_with, split}
use cncnet_server.Text.Decimal.{to_string}
use cncnet_server.V2.{TunnelV2}
use cncnet_server.V2.Allocate.{handle_request}
use cncnet_server.V2.Response.{
  Response, status_ok, unauthorized, not_found, too_many_requests, plain,
}

pub record Request : Type 0 where
  pub is_get : Bool
  pub path : List ℕ
  pub query : Option (List ℕ)

abbrev pub newline : List ℕ
newline = 10 ∷ []

module _ (d : Deps) where
  open d use {len}

  -- One turn of the accept loop: a connection without a permit is dropped and counted.
  unfoldable pub accept_connection : TunnelV2 d → Bool → TunnelV2 d
  accept_connection t permit =
      let m = t.metrics in
      if permit then t else record t {
        dropped_connections = (t.dropped_connections + 1) % u32_mod;
        metrics = record m { dropped_connections = add64 m.dropped_connections 1 };
      }

  unfoldable pub handle_status : TunnelV2 d → Response
  handle_status t =
      let active = len t.mappings in
      record {
        status = status_ok;
        headers = (codes "Content-Type", codes "text/plain") ∷ [];
        body =
            to_string (t.config.max_clients - active)
            ++ (codes " slots free."
                ++ (newline
                    ++ (to_string active
                        ++ (codes " slots in use."
                            ++ (newline
                                ++ (to_string t.dropped_connections
                                    ++ (codes " connections dropped." ++ newline)))))));
      }

  unfoldable pub handle_maintenance : TunnelV2 d → List ℕ → TunnelV2 d × Response
  handle_maintenance t path =
      let password = t.config.maintenance_password in
      let parts = split b'/' path in
      if slice_eq password []
      then (t, plain unauthorized (codes "Maintenance password not configured"))
      else if leb 3 (length parts) && slice_eq (get_or parts 2 []) password
      then (
        record t { maintenance_mode = not t.maintenance_mode },
        plain status_ok (
            codes "Maintenance mode "
            ++ (if not t.maintenance_mode then codes "enabled" else codes "disabled")),
      )
      else (t, plain unauthorized (codes "Invalid maintenance password"))

  -- The routes, in the order in which they are tried.
  unfoldable pub route : TunnelV2 d → Request → (ℕ → ℕ) → Io → TunnelV2 d × Response
  route t req rng io =
      if not req.is_get
      then (t, plain not_found (codes "Not Found"))
      else if slice_eq req.path (codes "/status")
      then (t, handle_status t)
      else if slice_eq req.path (codes "/request")
      then handle_request d t req.query rng io
      else if starts_with (codes "/maintenance/") req.path
      then handle_maintenance t req.path
      else if slice_eq req.path (codes "/health")
      then (t, plain status_ok (codes "OK"))
      else (t, plain not_found (codes "Not Found"))

  unfoldable pub handle_http_request :
      TunnelV2 d → Request → SocketAddr → (ℕ → ℕ) → Io → TunnelV2 d × Response
  handle_http_request t req remote_addr rng io =
      let (allowed, limiter) =
        check_and_increment d.rater t.request_limiter (ip remote_addr) io.clock in
      let m = t.metrics in
      let counted = record m { v2_http_requests = add64 m.v2_http_requests 1 } in
      if not allowed
      then (
        record t {
          request_limiter = limiter;
          metrics = record counted { rate_limit_hits = add64 m.rate_limit_hits 1 };
        },
        record {
          status = too_many_requests;
          headers = (codes "Retry-After", codes "60") ∷ [];
          body = codes "Rate limit exceeded";
        },
      )
      else route (record t { request_limiter = limiter; metrics = counted }) req rng io
