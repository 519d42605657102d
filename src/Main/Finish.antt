-- ===== src/Main/Finish.antt =====
-- How the server of src/main.rs comes to its end.
use cncnet_server.Base.{
  ℕ, ◌≤◌, ◌≡◌, refl, sym, ap, ◌∙◌, ◌≢◌, inl, inr, Bool, true, false, ◌&&◌, Option, List, [], ◌∷◌,
  ◌++◌, map, get_or, set, arith, Bool-cases, All, length,
}
use mathlib.Core.List.{append_assoc, append-nil}
use cncnet_server.Config.{Args}
use cncnet_server.Errors as Errors
use cncnet_server.Health.{stopped}
use cncnet_server.Main.{
  Service, Machine, ServiceTask, ended, is_over, until_signal, joining, returned, all_over,
  services_of, Server, up, async_main, service_at, end_service, MainStep, ends, in_time, MainReach,
  main_here, main_next, tunnel_v3, end_main,
}
use cncnet_server.Main.Life.{not_ended, name_of, quiet_before, told, async_main-Lives}
use cncnet_server.Shutdown.{Watch, recv_returns}

abbrev Item : Type 0
Item = Service × ServiceTask

get_or-append : (l r : List Item) (x d : Item) → get_or (l ++ x ∷ r) (length l) d ≡ x
get_or-append [] r x d = refl
get_or-append (y ∷ l) r x d = get_or-append l r x d

set-append : (l r : List Item) (x y : Item) → set (l ++ x ∷ r) (length l) y ≡ l ++ y ∷ r
set-append [] r x y = refl
set-append (z ∷ l) r x y = ap (λ k. z ∷ k) (set-append l r x y)

all_over-append : (l r : List Item) → all_over (l ++ r) ≡ (all_over l && all_over r)
all_over-append [] r = refl
all_over-append ((s, task) ∷ l) r = ground (arith, all_over-append l r)

module _ (w : Watch) where
  -- What an observer may rely on at any time.
  pub record Orderly (s : Server w) : Type 0 where
    pub named : map name_of s.services ≡ services_of s.config
    pub before :
        s.phase ≡ until_signal
        → (recv_returns w s.coordinator ≡ false)
          × All (λ x. not_ended x.1 ≡ true) s.services
          × (s.health.task ≢ stopped)
    pub waiting : (n : ℕ) → s.phase ≡ joining n → (n ≤ 30) × (recv_returns w s.coordinator ≡ true)
    pub after :
        (b : Bool)
        → s.phase ≡ returned b
        → (recv_returns w s.coordinator ≡ true)
          × (s.health.task ≡ stopped)
          × (b ≡ true → all_over s.services ≡ true)

  -- From arguments that are accepted on, whatever the order in which the tasks make their steps: the
  -- services are those of the configuration; before the signal no service is shut down, nor the health
  -- server; `async_main` waits for the services at most 30 seconds, and only after the shutdown was
  -- sent to them; when it has returned, the health server has stopped, and all services are over unless
  -- the time was up.
  pub async_main-Orderly :
      (m : Machine) (bound : Option Errors.ServerError) (args : Args) (s t : Server w)
      → async_main w bound args ≡ up s
      → MainReach w m s t
      → Orderly t
  async_main-Orderly m bound args s t e r =
      let v = async_main-Lives w bound args s t e r in
      record {
        named = v.named;
        before = λ p. (quiet_before w t v p, (v.whole p).0, (v.whole p).1);
        waiting = λ n p. ((v.joined n p).0, ap (recv_returns w) (v.joined n p).1 ∙ told w);
        after = λ b p.
            let (sent, health, all) = v.over b p in
            (ap (recv_returns w) sent ∙ told w, health, all);
      }

  MainReach-first :
      {m : Machine} {s u t : Server w} → MainStep w m s u → MainReach w m u t → MainReach w m s t
  MainReach-first step main_here = main_next main_here step
  MainReach-first step (main_next r last) = main_next (MainReach-first step r) last

  -- From `s`, all services can be over.
  record Halts (m : Machine) (n : ℕ) (s : Server w) : Type 0 where
    t : Server w
    run : MainReach w m s t
    over : all_over t.services ≡ true
    waits : t.phase ≡ joining n

  end_service-snoc :
      (s : Server w) (done rest : List Item) (service : Service) (task : ServiceTask)
      → s.services ≡ done ++ (service, task) ∷ rest
      → (end_service w s (length done)).services ≡ (done ++ (service, ended) ∷ []) ++ rest
  unfolding end_service
  end_service-snoc s done rest service task e =
      rw
        (
          e,
          get_or-append done rest (service, task) (tunnel_v3, ended),
          set-append done rest (service, task) (service, ended),
        )
        (sym (append_assoc done ((service, ended) ∷ []) rest))

  every_service_stops :
      (m : Machine) (n : ℕ) (rest done : List Item) (s : Server w)
      → s.services ≡ done ++ rest
      → all_over done ≡ true
      → s.phase ≡ joining n
      → recv_returns w s.coordinator ≡ true
      → Halts m n s
  unfolding end_service
  every_service_stops m n [] done s e over p returns = record {
    t = s;
    run = main_here;
    over = ap all_over (e ∙ append-nil done) ∙ over;
    waits = p;
  }
  every_service_stops m n ((service, task) ∷ rest) done s e over p returns =
      elim (Bool-cases (is_over task)) [
        | inl old ↦
            every_service_stops m n rest (done ++ (service, task) ∷ []) s
              (e ∙ sym (append_assoc done ((service, task) ∷ []) rest))
              (ground (arith, all_over-append done ((service, task) ∷ []), over, old)) p returns
        | inr alive ↦
            let found : service_at w s (length done) ≡ (service, task) =
              rw e (get_or-append done rest (service, task) (tunnel_v3, ended)) in
            let step : MainStep w m s (end_service w s (length done)) =
              ends (length done) (rw p refl) returns (rw found alive) in
            let later =
              every_service_stops m n rest (done ++ (service, ended) ∷ [])
                (end_service w s (length done)) (end_service-snoc s done rest service task e)
                (ground (arith, all_over-append done ((service, ended) ∷ []), over)) p returns in
            record {
              t = later.t;
              run = MainReach-first step later.run;
              over = later.over;
              waits = later.waits;
            }
      ]

  -- Once `async_main` waits for the services, it can always return in time: there are steps
  -- after which every service is over and it has returned before the time was up.
  pub async_main-stops :
      (m : Machine) (bound : Option Errors.ServerError) (args : Args) (s t : Server w) (n : ℕ)
      → async_main w bound args ≡ up s
      → MainReach w m s t
      → t.phase ≡ joining n
      → (u : Server w) × MainReach w m t u
        × (u.phase ≡ returned true)
        × (all_over u.services ≡ true)
  unfolding end_main
  async_main-stops m bound args s t n e r p =
      let v = async_main-Lives w bound args s t e r in
      let stops =
        every_service_stops m n t.services [] t refl refl p
          (ap (recv_returns w) (v.joined n p).1 ∙ told w) in
      (
        end_main w true stops.t,
        main_next stops.run (in_time n stops.waits stops.over),
        refl,
        stops.over,
      )
