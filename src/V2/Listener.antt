-- ===== src/V2/Listener.antt =====
-- The accept loop of `start_http_server` in src/tunnel_v2.rs.
use cncnet_server.Base.{
  ℕ, suc, ◌+◌, ◌%◌, ◌<◌, ◌≡◌, refl, Bool, true, false, Option, none, some, List, [], ◌∷◌,
  if◌then◌else◌, arith, length,
}
use cncnet_server.Base.Words.{u32_mod, u64_mod}
use cncnet_server.Deps.{Deps}
use cncnet_server.Errors.{ServerError, Result, err, ok}
use cncnet_server.V2.{TunnelV2}
use cncnet_server.V2.Http.{accept_connection}

-- Of the answers of `accept`, those before the first error.
abbrev pub before_error : List (Result Bool) → List Bool
before_error [] = []
before_error (err e ∷ answers) = []
before_error (ok permit ∷ answers) = permit ∷ before_error answers

-- The first error, if there is one.
abbrev pub first_failure : List (Result Bool) → Option ServerError
first_failure [] = none
first_failure (err e ∷ answers) = some e
first_failure (ok permit ∷ answers) = first_failure answers

abbrev pub without_permit : List Bool → ℕ
without_permit [] = 0
without_permit (true ∷ permits) = without_permit permits
without_permit (false ∷ permits) = suc (without_permit permits)

-- All answers that the server gets, of `bind` and then of `accept`.
abbrev pub until_failure : Option ServerError → List (Result Bool) → List (Result Bool)
until_failure none answers = answers
until_failure (some e) answers = err e ∷ []

module _ (d : Deps) where
  -- What `accept` answers is an error, or a connection with whether it gets a permit. Beside the tunnel
  -- stand the connections that are served and the error that the loop has returned.
  pub record HttpLoop : Type 0 where
    pub tunnel : TunnelV2 d
    pub served : ℕ
    pub failure : Option ServerError

  unfoldable pub accept_loop : HttpLoop → List (Result Bool) → HttpLoop
  accept_loop s [] = s
  accept_loop s (err e ∷ answers) = record s { failure = some e }
  accept_loop s (ok permit ∷ answers) =
      accept_loop
        (record s {
          tunnel = accept_connection d s.tunnel permit;
          served = s.served + (if permit then 1 else 0);
        })
        answers

  -- What `bind` answers comes first.
  unfoldable pub start_http_server : Option ServerError → HttpLoop → List (Result Bool) → HttpLoop
  start_http_server (some e) s answers = record s { failure = some e }
  start_http_server none s answers = accept_loop s answers

  -- What has become of the connections: those after the first error of `accept` are not in the sums.
  pub record Accounted (s t : HttpLoop) (answers : List (Result Bool)) : Type 0 where
    pub failed : t.failure ≡ first_failure answers
    pub taken :
        t.served + without_permit (before_error answers) ≡ s.served + length (before_error answers)
    pub dropped :
        t.tunnel.dropped_connections
        ≡ (s.tunnel.dropped_connections + without_permit (before_error answers)) % u32_mod
    pub metrics :
        t.tunnel.metrics.dropped_connections
        ≡ (s.tunnel.metrics.dropped_connections + without_permit (before_error answers)) % u64_mod
    pub clients : t.tunnel.mappings ≡ s.tunnel.mappings

  accept_loop-Accounted :
      (answers : List (Result Bool)) (s : HttpLoop)
      → s.failure ≡ none
      → s.tunnel.dropped_connections < u32_mod
      → s.tunnel.metrics.dropped_connections < u64_mod
      → Accounted s (accept_loop s answers) answers
  unfolding accept_loop accept_connection
  accept_loop-Accounted [] s none_yet small large = record {
    failed = none_yet;
    taken = omega arith;
    dropped = omega (arith, small);
    metrics = omega (arith, large);
    clients = refl;
  }
  accept_loop-Accounted (err e ∷ answers) s none_yet small large = record {
    failed = refl;
    taken = omega arith;
    dropped = omega (arith, small);
    metrics = omega (arith, large);
    clients = refl;
  }
  accept_loop-Accounted (ok true ∷ answers) s none_yet small large =
      let rest =
        accept_loop-Accounted answers (record s { served = s.served + 1 }) none_yet small large in
      record {
        failed = rest.failed;
        taken = omega (arith, rest.taken);
        dropped = rest.dropped;
        metrics = rest.metrics;
        clients = rest.clients;
      }
  accept_loop-Accounted (ok false ∷ answers) s none_yet small large =
      let s' : HttpLoop = record s {
        tunnel = accept_connection d s.tunnel false;
        served = s.served + 0;
      } in
      let rest = accept_loop-Accounted answers s' none_yet (omega arith) (omega arith) in
      record {
        failed = rest.failed;
        taken = omega (arith, rest.taken);
        dropped = omega (arith, rest.dropped);
        metrics = omega (arith, rest.metrics);
        clients = rest.clients;
      }

  -- Where `bind` fails, the server returns its error without taking a connection. Otherwise it returns
  -- the first error of `accept`, and only that ends it: then it takes no connection any more. Until then
  -- each connection is served or dropped, and both counters of dropped connections have grown by exactly
  -- the number of those without a permit, modulo the size of their words, as long as no heartbeat comes
  -- in between; no client changes.
  pub start_http_server-Accounted :
      (bind : Option ServerError) (answers : List (Result Bool)) (s : HttpLoop)
      → s.failure ≡ none
      → s.tunnel.dropped_connections < u32_mod
      → s.tunnel.metrics.dropped_connections < u64_mod
      → Accounted s (start_http_server bind s answers) (until_failure bind answers)
  unfolding start_http_server accept_loop
  start_http_server-Accounted (some e) answers s none_yet small large =
      accept_loop-Accounted (err e ∷ []) s none_yet small large
  start_http_server-Accounted none answers s none_yet small large =
      accept_loop-Accounted answers s none_yet small large
