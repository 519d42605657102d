-- ===== src/Main/Unfailing.antt =====
-- The start of src/main.rs where the operating system lets sockets share a port.
use cncnet_server.Base.{
  ℕ, suc, ◌≡◌, refl, sym, ap, ◌≢◌, true, Option, List, [], ◌∷◌, map, All, All-map, All-append,
}
use mathlib.Core.Path.{subst}
use cncnet_server.Config.{Args, ServerConfig, ConfigResult, ok, bail, from_args}
use cncnet_server.Errors as Errors
use cncnet_server.Main.{
  Service, p2p, tunnel_v3, tunnel_v2, Machine, ServiceTask, spawned, running, failed, ended, begun,
  sockets_of, opened_by, Server, up, server_new, started, async_main, begin_service, end_service,
  begin_shutdown, end_main, MainStep, begins, ends, health_event, signalled, shuts_down, joins,
  second, in_time, times_out, MainReach, main_here, main_next, service_at, services_of,
}
use cncnet_server.Main.Life.{All-set_one, up-injective}
use cncnet_server.Main.Starting.{
  full, workers_of, size_of, port_of, sockets_for, start_service-shared,
}
use cncnet_server.Shutdown.{Watch}
use cncnet_server.Socket.{Socket, receive_loops}
use cncnet_server.Socket.Shared.{LetsShare, All-fresh}

abbrev Shareable : List Socket → Type 0
Shareable = All (λ o. o.reuse_port ≡ true)

-- Not failed, and with sockets that can share their ports.
abbrev IsFine : Service × ServiceTask → Type 0
IsFine (s, spawned) = Unit
IsFine (s, running tasks) = Shareable (sockets_of tasks)
IsFine (s, failed e) = ⊥
IsFine (s, ended) = Unit

opened_by-Shareable : (l : List (Service × ServiceTask)) → All IsFine l → Shareable (opened_by l)
opened_by-Shareable [] h = tt
opened_by-Shareable ((s, spawned) ∷ l) h = opened_by-Shareable l h.1
opened_by-Shareable ((s, running tasks) ∷ l) h =
    All-append (λ o. o.reuse_port ≡ true) (sockets_of tasks) (opened_by l) h.0
      (opened_by-Shareable l h.1)
opened_by-Shareable ((s, failed e) ∷ l) h = absurd h.0
opened_by-Shareable ((s, ended) ∷ l) h = opened_by-Shareable l h.1

sockets_of-loops : (i : ℕ) (l : List Socket) → sockets_of (receive_loops i l) ≡ l
sockets_of-loops i [] = refl
sockets_of-loops i (x ∷ l) = ap (λ k. x ∷ k) (sockets_of-loops (suc i) l)

sockets_of-full :
    (m : Machine) (config : ServerConfig) (opened : List Socket) (service : Service)
    → sockets_of (full m config opened service)
      ≡ sockets_for m config (workers_of m service) opened service
sockets_of-full m config opened (p2p port) = sockets_of-loops 0 _
sockets_of-full m config opened tunnel_v3 = sockets_of-loops 0 _
sockets_of-full m config opened tunnel_v2 = sockets_of-loops 0 _

full-Shareable :
    (m : Machine) (config : ServerConfig) (opened : List Socket) (service : Service)
    → Shareable (sockets_of (full m config opened service))
full-Shareable m config opened service =
    subst Shareable (sym (sockets_of-full m config opened service)) (
      All-fresh m.os (size_of m service) (size_of m service) (port_of config service)
        (workers_of m service) opened)

IsFine-not_failed :
    (x : Service × ServiceTask) → IsFine x → (e : Errors.ServerError) → x.1 ≢ failed e
IsFine-not_failed (s, spawned) h e = λ q. cc
IsFine-not_failed (s, running tasks) h e = λ q. cc
IsFine-not_failed (s, failed x) h e = absurd h
IsFine-not_failed (s, ended) h e = λ q. cc

spawned-IsFine : (l : List Service) → All IsFine (map (λ s. (s, spawned)) l)
spawned-IsFine [] = tt
spawned-IsFine (x ∷ l) = (tt, spawned-IsFine l)

module _ (w : Watch) (m : Machine) (lets : LetsShare m.os) where
  begin_service-IsFine :
      (s : Server w) (i : ℕ) → All IsFine s.services → All IsFine (begin_service w m s i).services
  unfolding begin_service
  begin_service-IsFine s i fine =
      let service = (service_at w s i).0 in
      All-set_one IsFine s.services i _ fine (
        subst (λ r. IsFine (service, begun r))
          (sym (
            start_service-shared m s.config (opened_by s.services) service lets
              (opened_by-Shareable s.services fine)))
          (full-Shareable m s.config (opened_by s.services) service))

  MainStep-IsFine :
      {s t : Server w} → MainStep w m s t → All IsFine s.services → All IsFine t.services
  unfolding end_service begin_shutdown end_main
  MainStep-IsFine {s} (begins i on e) fine = begin_service-IsFine s i fine
  MainStep-IsFine {s} (ends i on returns alive) fine = All-set_one IsFine s.services i _ fine tt
  MainStep-IsFine (health_event e on returns) fine = fine
  MainStep-IsFine (signalled g p h) fine = fine
  MainStep-IsFine (shuts_down p) fine = fine
  MainStep-IsFine (joins p e) fine = fine
  MainStep-IsFine (second n p e) fine = fine
  MainStep-IsFine (in_time n p e) fine = fine
  MainStep-IsFine (times_out p) fine = fine

  MainReach-IsFine :
      {s t : Server w} → MainReach w m s t → All IsFine s.services → All IsFine t.services
  MainReach-IsFine main_here fine = fine
  MainReach-IsFine (main_next r step) fine = MainStep-IsFine step (MainReach-IsFine r fine)

  started-IsFine :
      (bound : Option Errors.ServerError) (r : ConfigResult) (s : Server w)
      → started w bound r ≡ up s
      → All IsFine s.services
  unfolding server_new
  started-IsFine bound (bail x) s e = absurd (cc)
  started-IsFine bound (ok config) s e =
      subst (λ (t : Server w). All IsFine t.services) (up-injective w e)
        (spawned-IsFine (services_of config))

  -- Where the system grants every call, and every `bind` to a port whose open sockets and the new one
  -- have all set `reuse_port`: no service ever fails to start, in whatever order they start and end.
  pub async_main-starts :
      (bound : Option Errors.ServerError) (args : Args) (s t : Server w)
      → async_main w bound args ≡ up s
      → MainReach w m s t
      → All (λ x. (e : Errors.ServerError) → x.1 ≢ failed e) t.services
  unfolding async_main
  async_main-starts bound args s t e r =
      All-map (λ x h. IsFine-not_failed x h) t.services
        (MainReach-IsFine r (started-IsFine bound (from_args args) s e))
