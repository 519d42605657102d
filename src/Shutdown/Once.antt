-- ===== src/Shutdown/Once.antt =====
-- The first call of `shutdown` in src/shutdown.rs, and the calls after it.
use cncnet_server.Base.{
  ℕ, zero, suc, ◌+◌, ◌≤◌, ◌≡◌, refl, sym, ◌≢◌, true, false, List, [], ◌∷◌, ◌==◌, leb, if◌then◌else◌,
  get_or, set, arith,
}
use cncnet_server.Shutdown.{
  Watch, Call, called, firing, finished, ShutdownCoordinator, coordinator_new, clone_coordinator,
  drop_coordinator, call_shutdown, shutdown_step, recv_returns, Step, clone, dropped, call, step,
  Reach, here, next,
}

-- The calls between their swap and their send, and those that have passed their swap.
abbrev fires : Call → ℕ
fires called = 0
fires firing = 1
fires finished = 0

abbrev begun : Call → ℕ
begun called = 0
begun firing = 1
begun finished = 1

abbrev pub number : (Call → ℕ) → List Call → ℕ
number f [] = 0
number f (c ∷ cs) = f c + number f cs

abbrev pub in_flight : List Call → ℕ
in_flight = number fires

abbrev pub passed : List Call → ℕ
passed = number begun

-- Writing over a call that is not finished.
number-set :
    (f : Call → ℕ) (cs : List Call) (i : ℕ) (x y : Call)
    → get_or cs i finished ≡ x
    → x ≢ finished
    → f x + number f (set cs i y) ≡ f y + number f cs
number-set f [] i x y e h = absurd (h (sym e))
number-set f (c ∷ cs) zero x y e h = rw (← e) (omega arith)
number-set f (c ∷ cs) (suc i) x y e h = omega (arith, number-set f cs i x y e h)

module _ (w : Watch) where
  open w use {borrow, borrow-channel, borrow-send_replace}

  -- Once the flag is set, the value has been sent once or one call is about to send it.
  pub record Orderly (c : ShutdownCoordinator w) : Type 0 where
    pub one_fires : in_flight c.calls + c.sends ≡ (if c.is_shutting_down then 1 else 0)
    pub shown : borrow c.sender ≡ leb 1 c.sends
    pub flagged : 1 ≤ passed c.calls → c.is_shutting_down ≡ true

  at_call :
      (c : ShutdownCoordinator w) (i : ℕ) (x : Call)
      → get_or c.calls i finished ≡ x
      → Orderly c
      → Orderly (shutdown_step w c i x)
  unfolding shutdown_step
  at_call c i called e o =
      let y : Call = if c.is_shutting_down then finished else firing in
      let moved = number-set fires c.calls i called y e (λ q. cc) in
      record {
        one_fires = ground (arith, moved, o.one_fires);
        shown = o.shown;
        flagged = λ some_passed. refl;
      }
  at_call c i firing e o =
      let moved = number-set fires c.calls i firing finished e (λ q. cc) in
      let as_many = number-set begun c.calls i firing finished e (λ q. cc) in
      record {
        one_fires = omega (arith, moved, o.one_fires);
        shown = ground (arith, borrow-send_replace c.sender true);
        flagged = λ some_passed. o.flagged (omega (arith, as_many, some_passed));
      }
  at_call c i finished e o = o

  Step-Orderly : {c c' : ShutdownCoordinator w} → Step w c c' → Orderly c → Orderly c'
  unfolding clone_coordinator drop_coordinator call_shutdown
  Step-Orderly clone o = record { one_fires = o.one_fires; shown = o.shown; flagged = o.flagged }
  Step-Orderly dropped o = record { one_fires = o.one_fires; shown = o.shown; flagged = o.flagged }
  Step-Orderly call o = record {
    one_fires = omega (arith, o.one_fires);
    shown = o.shown;
    flagged = λ some_passed. o.flagged (omega (arith, some_passed));
  }
  Step-Orderly {c} (step i) o = at_call c i (get_or c.calls i finished) refl o

  Reach-Orderly : {c : ShutdownCoordinator w} → Reach w c → Orderly c
  unfolding coordinator_new
  Reach-Orderly here = record {
    one_fires = refl;
    shown = borrow-channel false;
    flagged = λ some_passed. absurd (omega (arith, some_passed));
  }
  Reach-Orderly (next r s) = Step-Orderly s (Reach-Orderly r)

  -- What holds of a coordinator at any time. A value is sent at most once; before the first call has
  -- passed its swap, no receiver returns while a clone is alive; and when a call has passed its swap and
  -- none is about to send, the value was sent exactly once and every receiver returns, whenever it
  -- subscribed.
  pub record FiresOnce (c : ShutdownCoordinator w) : Type 0 where
    pub at_most_once : c.sends ≤ 1
    pub quiet : c.is_shutting_down ≡ false → recv_returns w c ≡ (c.clones == 0)
    pub woken :
        1 ≤ passed c.calls → in_flight c.calls ≡ 0 → (c.sends ≡ 1) × (recv_returns w c ≡ true)
    pub gone : c.clones ≡ 0 → recv_returns w c ≡ true

  -- Whatever the order in which clones are made and dropped and the calls of `shutdown` make their
  -- steps, only the first call fires, and once it has, every receiver returns.
  pub Reach-FiresOnce : (c : ShutdownCoordinator w) → Reach w c → FiresOnce c
  unfolding recv_returns
  Reach-FiresOnce c r =
      let o = Reach-Orderly r in
      record {
        at_most_once = ground (arith, o.one_fires);
        quiet = λ off. ground (arith, o.one_fires, o.shown, off);
        woken = λ some_passed none_fires.
            let on = o.flagged some_passed in
            let once : c.sends ≡ 1 = ground (arith, o.one_fires, on, none_fires) in
            (once, ground (arith, o.shown, once));
        gone = λ no_clone. ground (arith, no_clone);
      }
