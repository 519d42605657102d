-- ===== src/Main/Life.antt =====
-- The life of the server of src/main.rs, from its start to its end.
use mathlib.Core.Path.{subst}
use cncnet_server.Base.{
  ℕ, zero, suc, ◌+◌, ◌≤◌, ◌≡◌, refl, sym, ap, ◌∙◌, ◌≢◌, ◌⊎◌, inl, inr, Bool, true, false, Option,
  none, some, List, [], ◌∷◌, map, get_or, set, arith, All,
}
use cncnet_server.Config.{Args, ServerConfig, ConfigResult, ok, bail, from_args}
use cncnet_server.Errors as Errors
use cncnet_server.Health.{
  HealthServer, HealthTask, HealthEvent, shut_down, stopped, start_health_server, health_step,
  next_task, listening, accepted, accept_failed, accept_disabled, panicked,
}
use cncnet_server.Main.{
  Service, Machine, ServiceTask, spawned, running, failed, ended, until_signal, in_shutdown,
  joining, returned, all_over, services_of, Server, Outcome, up, server_new, started, async_main,
  begun, begin_service, end_service, begin_shutdown, call_of, end_main, has_returned, MainStep,
  begins, ends, health_event, signalled, shuts_down, joins, second, in_time, times_out, MainReach,
  main_here, main_next, tunnel_v3,
}
use cncnet_server.Socket.{Task}
use cncnet_server.Shutdown.{
  Watch, ShutdownCoordinator, coordinator_new, call_shutdown, shutdown_step, recv_returns, Call,
  called, firing, finished,
}

abbrev pub not_ended : ServiceTask → Bool
not_ended spawned = true
not_ended (running tasks) = true
not_ended (failed e) = true
not_ended ended = false

-- Writing at a place of a list.
pub All-set_one :
    {A : Type 0} (P : A → Type 0) (l : List A) (i : ℕ) (y : A) → All P l → P y → All P (set l i y)
All-set_one P [] i y h p = tt
All-set_one P (x ∷ l) zero y h p = (p, h.1)
All-set_one P (x ∷ l) (suc i) y h p = (h.0, All-set_one P l i y h.1 p)

abbrev pub name_of : Service × ServiceTask → Service
name_of x = x.0

set-named :
    (l : List (Service × ServiceTask)) (i : ℕ) (task : ServiceTask)
    → map name_of (set l i ((get_or l i (tunnel_v3, ended)).0, task)) ≡ map name_of l
set-named [] i task = refl
set-named (x ∷ l) zero task = refl
set-named (x ∷ l) (suc i) task = ap (λ n. x.0 ∷ n) (set-named l i task)

true-false : {b : Bool} → b ≡ true → b ≡ false → ⊥
true-false e f = cc

call_other : (c : Call) → c ≡ finished → c ≢ finished → ⊥
call_other c e h = h e

joining-injective : {k n : ℕ} → joining k ≡ joining n → k ≡ n
joining-injective q = cc

returned-injective : {b c : Bool} → returned b ≡ returned c → b ≡ c
returned-injective q = cc

module _ (w : Watch) where
  open w use {borrow, borrow-channel, borrow-send_replace}

  -- The coordinator through its one call.
  abbrev called_once : ShutdownCoordinator w
  called_once = call_shutdown w (coordinator_new w)

  abbrev swapped_once : ShutdownCoordinator w
  swapped_once = shutdown_step w called_once 0 called

  abbrev pub sent_once : ShutdownCoordinator w
  sent_once = shutdown_step w swapped_once 0 firing

  quiet : recv_returns w (coordinator_new w) ≡ false
  unfolding recv_returns coordinator_new
  quiet = rw (borrow-channel false) refl

  pub told : recv_returns w sent_once ≡ true
  unfolding recv_returns shutdown_step call_shutdown coordinator_new
  told = rw (borrow-send_replace _ true) refl

  -- What holds at any time.
  pub record Lives (s : Server w) : Type 0 where
    pub named : map name_of s.services ≡ services_of s.config
    pub fresh : s.phase ≡ until_signal → s.coordinator ≡ coordinator_new w
    pub whole :
        s.phase ≡ until_signal
        → All (λ x. not_ended x.1 ≡ true) s.services × (s.health.task ≢ stopped)
    pub shutting :
        s.phase ≡ in_shutdown
        → (s.coordinator ≡ called_once)
          ⊎ ((s.coordinator ≡ swapped_once) ⊎ (s.coordinator ≡ sent_once))
    pub joined : (n : ℕ) → s.phase ≡ joining n → (n ≤ 30) × (s.coordinator ≡ sent_once)
    pub over :
        (b : Bool)
        → s.phase ≡ returned b
        → (s.coordinator ≡ sent_once)
          × (s.health.task ≡ stopped)
          × (b ≡ true → all_over s.services ≡ true)

  -- Where only tasks move.
  Lives-tasks :
      (s : Server w) (l : List (Service × ServiceTask)) (h : HealthServer)
      → Lives s
      → has_returned s.phase ≡ false
      → map name_of l ≡ map name_of s.services
      → (s.phase ≡ until_signal → All (λ x. not_ended x.1 ≡ true) l × (h.task ≢ stopped))
      → Lives (record s { services = l; health = h })
  Lives-tasks s l h v on same whole = record {
    named = same ∙ v.named;
    fresh = v.fresh;
    whole = whole;
    shutting = v.shutting;
    joined = v.joined;
    over = λ b e. absurd (cc);
  }

  Lives-joining :
      (s : Server w) (k : ℕ)
      → Lives s
      → k ≤ 30
      → s.coordinator ≡ sent_once
      → Lives (record s { phase = joining k })
  Lives-joining s k v h c = record {
    named = v.named;
    fresh = λ q. absurd (cc);
    whole = λ q. absurd (cc);
    shutting = λ q. absurd (cc);
    joined = λ n q. (subst (λ j. j ≤ 30) (joining-injective q) h, c);
    over = λ b q. absurd (cc);
  }

  Lives-returned :
      (s : Server w) (b : Bool)
      → Lives s
      → s.coordinator ≡ sent_once
      → (b ≡ true → all_over s.services ≡ true)
      → Lives (end_main w b s)
  unfolding end_main
  Lives-returned s b v c all = record {
    named = v.named;
    fresh = λ q. absurd (cc);
    whole = λ q. absurd (cc);
    shutting = λ q. absurd (cc);
    joined = λ n q. absurd (cc);
    over = λ b' q. (c, refl, λ e. all (returned-injective q ∙ e));
  }

  -- A step of the call of `shutdown`.
  abbrev InCall : ShutdownCoordinator w → Type 0
  InCall c = (c ≡ called_once) ⊎ ((c ≡ swapped_once) ⊎ (c ≡ sent_once))

  InCall-step : (c : ShutdownCoordinator w) → InCall c → InCall (shutdown_step w c 0 (call_of w c))
  unfolding coordinator_new call_shutdown shutdown_step
  InCall-step c (inl e) = inr (inl (rw e refl))
  InCall-step c (inr (inl e)) = inr (inr (rw e refl))
  InCall-step c (inr (inr e)) = inr (inr (rw e refl))

  InCall-finished : (c : ShutdownCoordinator w) → InCall c → call_of w c ≡ finished → c ≡ sent_once
  unfolding coordinator_new call_shutdown shutdown_step
  InCall-finished c (inl e) f = absurd (call_other called (sym (ap (call_of w) e) ∙ f) (λ q. cc))
  InCall-finished c (inr (inl e)) f =
      absurd (call_other firing (sym (ap (call_of w) e) ∙ f) (λ q. cc))
  InCall-finished c (inr (inr e)) f = e

  pub quiet_before :
      (s : Server w) → Lives s → s.phase ≡ until_signal → recv_returns w s.coordinator ≡ false
  quiet_before s v e = ap (recv_returns w) (v.fresh e) ∙ quiet

  begun-not_ended : (r : Errors.Result (List Task)) → not_ended (begun r) ≡ true
  begun-not_ended (Errors.err e) = refl
  begun-not_ended (Errors.ok tasks) = refl

  next_task_not_stopped :
      (task : HealthTask) (e : HealthEvent)
      → task ≢ stopped
      → e ≢ shut_down
      → next_task task e ≢ stopped
  unfolding next_task
  next_task_not_stopped listening accepted h k = λ q. cc
  next_task_not_stopped listening accept_failed h k = λ q. cc
  next_task_not_stopped task shut_down h k = absurd (k refl)
  next_task_not_stopped accept_disabled accepted h k = λ q. cc
  next_task_not_stopped accept_disabled accept_failed h k = λ q. cc
  next_task_not_stopped stopped e h k = absurd (h refl)
  next_task_not_stopped panicked accepted h k = λ q. cc
  next_task_not_stopped panicked accept_failed h k = λ q. cc

  MainStep-Lives : {m : Machine} {s t : Server w} → MainStep w m s t → Lives s → Lives t
  unfolding begin_service end_service begin_shutdown end_main health_step coordinator_new
      call_shutdown shutdown_step
  MainStep-Lives {m} {s} (begins i on e) v =
      Lives-tasks s _ s.health v on (set-named s.services i _)
        (λ p. (All-set_one _ s.services i _ (v.whole p).0 (begun-not_ended _), (v.whole p).1))
  MainStep-Lives {m} {s} (ends i on returns alive) v =
      Lives-tasks s _ s.health v on (set-named s.services i ended)
        (λ p. absurd (true-false (returns) (quiet_before s v p)))
  MainStep-Lives {m} {s} (health_event e on returns) v = Lives-tasks s s.services _ v on refl (λ p.
      (
        (v.whole p).0,
        next_task_not_stopped s.health.task e (v.whole p).1
            (λ q. true-false (returns q) (quiet_before s v p)),
      ))
  MainStep-Lives {m} {s} (signalled g p h) v = record {
    named = v.named;
    fresh = λ q. absurd (cc);
    whole = λ q. absurd (cc);
    shutting = λ q. inl (ap (call_shutdown w) (v.fresh p));
    joined = λ n q. absurd (cc);
    over = λ b q. absurd (cc);
  }
  MainStep-Lives {m} {s} (shuts_down p) v = record {
    named = v.named;
    fresh = λ q. absurd (cc);
    whole = λ q. absurd (cc);
    shutting = λ q. InCall-step s.coordinator (v.shutting p);
    joined = λ n q. absurd (cc);
    over = λ b q. absurd (cc);
  }
  MainStep-Lives {m} {s} (joins p e) v =
      Lives-joining s 0 v (omega arith) (InCall-finished s.coordinator (v.shutting p) e)
  MainStep-Lives {m} {s} (second n p e) v =
      Lives-joining s (n + 1) v (omega (arith, e)) (v.joined n p).1
  MainStep-Lives {m} {s} (in_time n p e) v = Lives-returned s true v (v.joined n p).1 (λ q. e)
  MainStep-Lives {m} {s} (times_out p) v =
      Lives-returned s false v (v.joined 30 p).1 (λ q. absurd (cc))

  MainReach-Lives : {m : Machine} {s t : Server w} → MainReach w m s t → Lives s → Lives t
  MainReach-Lives main_here v = v
  MainReach-Lives (main_next r step) v = MainStep-Lives step (MainReach-Lives r v)

  pub up-injective : {s t : Server w} → ◌≡◌ {A = Outcome w} (up s) (up t) → s ≡ t
  up-injective e = cc

  name_spawned : (l : List Service) → map name_of (map (λ s. (s, spawned)) l) ≡ l
  name_spawned [] = refl
  name_spawned (x ∷ l) = ap (λ n. x ∷ n) (name_spawned l)

  All-spawned :
      (l : List Service)
      → All (λ (x : Service × ServiceTask). not_ended x.1 ≡ true) (map (λ s. (s, spawned)) l)
  All-spawned [] = tt
  All-spawned (x ∷ l) = (refl, All-spawned l)

  health_not_stopped :
      (bound : Option Errors.ServerError) → (start_health_server bound).task ≢ stopped
  unfolding start_health_server
  health_not_stopped none = λ q. cc
  health_not_stopped (some e) = λ q. cc

  server_new-Lives :
      (bound : Option Errors.ServerError) (config : ServerConfig)
      → Lives (server_new w bound config)
  unfolding server_new
  server_new-Lives bound config = record {
    named = name_spawned (services_of config);
    fresh = λ p. refl;
    whole = λ p. (All-spawned (services_of config), health_not_stopped bound);
    shutting = λ q. absurd (cc);
    joined = λ n q. absurd (cc);
    over = λ b q. absurd (cc);
  }

  started-Lives :
      (bound : Option Errors.ServerError) (r : ConfigResult) (s : Server w)
      → started w bound r ≡ up s
      → Lives s
  started-Lives bound (bail x) s e = absurd (cc)
  started-Lives bound (ok config) s e = subst Lives (up-injective e) (server_new-Lives bound config)

  pub async_main-Lives :
      {m : Machine} (bound : Option Errors.ServerError) (args : Args) (s t : Server w)
      → async_main w bound args ≡ up s
      → MainReach w m s t
      → Lives t
  unfolding async_main
  async_main-Lives bound args s t e r = MainReach-Lives r (started-Lives bound (from_args args) s e)
