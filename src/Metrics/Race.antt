-- ===== src/Metrics/Race.antt =====
-- Requests for the metrics come at the same time: `update_prometheus` of src/metrics.rs for one counter,
-- one atomic operation at a time.
use mathlib.Core.Path.{subst}
use cncnet_server.Base.{
  ℕ, ◌+◌, ◌-◌, ◌≤◌, ◌<◌, ◌≡◌, refl, ap, ◌∙◌, List, [], ◌∷◌, ◌++◌, get_or, set, arith,
}
use cncnet_server.Base.Words.{u64_mod, add64}
use cncnet_server.Metrics.Export.{Prometheus, Channel, channel_new, swap, credit}
use cncnet_server.Metrics.Exact.{Shows}

-- How far an export has come: the value loaded, and then the value that the swap gave.
pub data Phase : Type 0 where
  idle : Phase
  loaded : ℕ → Phase
  swapped : ℕ → ℕ → Phase

-- The atomic grows, or the export with a number makes its next step.
pub data Action : Type 0 where
  grow : ℕ → Action
  act : ℕ → Action

module _ (p : Prometheus) where
  open p use {counter_get, counter_get-new, counter_get-inc_by, inc_by}

  pub record Race : Type 0 where
    pub live : ℕ
    pub channel : Channel p
    pub phases : List Phase

  -- The load, the swap, and the increment of one export.
  unfoldable pub next_step : Race → ℕ → Phase → Race
  next_step r i idle = record r { phases = set r.phases i (loaded r.live) }
  next_step r i (loaded v) =
      let (c, prev) = swap p r.channel v in
      record r { channel = c; phases = set r.phases i (swapped v prev) }
  next_step r i (swapped v prev) = record r {
    channel = credit p r.channel v prev;
    phases = set r.phases i idle;
  }

  unfoldable pub race_step : Race → Action → Race
  race_step r (grow n) = record r { live = add64 r.live n }
  race_step r (act i) = next_step r i (get_or r.phases i idle)

  unfoldable pub race_run : Race → List Action → Race
  race_run r [] = r
  race_run r (a ∷ l) = race_run (race_step r a) l

  -- An export that nothing crosses: how much the counter grows before it, between the load and the
  -- swap, and between the swap and the increment.
  pub record Alone : Type 0 where
    pub before : ℕ
    pub after_load : ℕ
    pub after_swap : ℕ

  abbrev pub actions : List Alone → List Action
  actions [] = []
  actions (x ∷ xs) =
      grow x.before ∷ act 0 ∷ grow x.after_load ∷ act 0 ∷ grow x.after_swap ∷ act 0 ∷ actions xs

  -- How much the counter grows in all.
  abbrev pub growth : List Alone → ℕ
  growth [] = 0
  growth (x ∷ xs) = x.before + x.after_load + x.after_swap + growth xs

  -- What a reader of a counter at `live` would have seen at the last load: `shown`, if there is none.
  abbrev pub seen : (live shown : ℕ) → List Alone → ℕ
  seen live shown [] = shown
  seen live shown (x ∷ xs) =
      seen (live + x.before + x.after_load + x.after_swap) (live + x.before) xs

  alone-exports :
      (x : Alone) (live shown excess : ℕ) (c : Channel p) (phases : List Phase)
      → shown ≤ live
      → live + (x.before + x.after_load + x.after_swap) + excess < u64_mod
      → c.last ≡ shown
      → counter_get c.prom ≡ shown + excess
      → (c' : Channel p) × (race_run
            (record { live = live; channel = c; phases = idle ∷ phases })
            (actions (x ∷ []))
          ≡ record {
            live = live + x.before + x.after_load + x.after_swap;
            channel = c';
            phases = idle ∷ phases;
          })
        × (c'.last ≡ live + x.before)
        × (counter_get c'.prom ≡ live + x.before + excess)
  unfolding race_run race_step next_step swap credit
  alone-exports x live shown excess c phases low small at_last at_prom =
      let first : add64 live x.before ≡ live + x.before = omega arith in
      let second : add64 (live + x.before) x.after_load ≡ live + x.before + x.after_load =
        omega arith in
      let third : add64 (live + x.before + x.after_load) x.after_swap
          ≡ live + x.before + x.after_load + x.after_swap =
        omega arith in
      let v = live + x.before in
      let prom = inc_by c.prom (v - c.last) in
      (
        record { last = v; prom = prom },
        rw (first, second, third) refl,
        refl,
        ground (arith, counter_get-inc_by c.prom (v - c.last), at_last, at_prom),
      )

  -- Exports that nothing crosses keep the excess that the Prometheus counter starts with.
  alone_run :
      (xs : List Alone) (live shown excess : ℕ) (c : Channel p) (phases : List Phase)
      → shown ≤ live
      → live + growth xs + excess < u64_mod
      → c.last ≡ shown
      → counter_get c.prom ≡ shown + excess
      → let r =
          race_run (record { live = live; channel = c; phases = idle ∷ phases }) (actions xs) in
        (r.live ≡ live + growth xs) × (counter_get r.channel.prom ≡ seen live shown xs + excess)
  unfolding race_run
  alone_run [] live shown excess c phases low small at_last at_prom = (omega arith, at_prom)
  alone_run (x ∷ xs) live shown excess c phases low small at_last at_prom =
      let (c', e, last', prom') =
        alone-exports x live shown excess c phases low (omega (arith, small)) at_last at_prom in
      let live' = live + x.before + x.after_load + x.after_swap in
      let (grown, shows) =
        alone_run xs live' (live + x.before) excess c' phases (omega arith) (omega (arith, small))
          last' prom' in
      let run = ap (λ r. race_run r (actions xs)) e in
      (
        ap (λ r. r.live) run ∙ omega (arith, grown),
        ap (λ r. counter_get r.channel.prom) run ∙ shows,
      )

  -- A counter at 0, with nothing exported yet, and exports that have not begun.
  abbrev pub race_start : List Phase → Race
  race_start phases = record { live = 0; channel = channel_new p; phases = phases }

  -- Any number of exports, none begun before the one before it is over, while the counter grows between
  -- all of their three steps, by less than 2^64 in all: afterwards the Prometheus counter shows exactly
  -- the value that the counter had when the last export loaded it, though each export only adds a
  -- difference, and the counter has grown by the sum of all growth.
  pub race_run-shows :
      (xs : List Alone)
      → growth xs < u64_mod
      → let r = race_run (race_start (idle ∷ [])) (actions xs) in
        (r.live ≡ growth xs) × (counter_get r.channel.prom ≡ seen 0 0 xs)
  race_run-shows xs small =
      let (grown, shows) =
        alone_run xs 0 0 0 (channel_new p) [] (omega arith) (omega (arith, small)) refl
          (omega (arith, counter_get-new)) in
      (omega (arith, grown), omega (arith, shows))

  -- Two exports at once: the second starts after the counter has grown by `n`, and swaps before the
  -- first does.
  abbrev pub crossing : ℕ → List Action
  crossing n = act 0 ∷ grow n ∷ act 1 ∷ act 1 ∷ act 0 ∷ act 1 ∷ act 0 ∷ []

  -- Two exports cross, the counter growing by `n` between their loads, where the Prometheus counter was
  -- right before; then come any exports that nothing crosses, with any growth. If there are none, the
  -- Prometheus counter shows the counter, `a + n`. If there are some, it is `n` above the value that the
  -- last of them loaded: every export from the third on shows `n` too much. Nothing wraps.
  pub race_run-counts_twice :
      (a n : ℕ) (c : Channel p) (xs : List Alone)
      → Shows p a c
      → a + n + growth xs + n < u64_mod
      → let r =
          race_run
            (record { live = a; channel = c; phases = idle ∷ idle ∷ [] })
            (crossing n ++ actions xs) in
        (r.live ≡ a + n + growth xs) × (counter_get r.channel.prom ≡ seen (a + n) a xs + n)
  unfolding race_run race_step next_step swap credit
  race_run-counts_twice a n c xs s small =
      let b = add64 a n in
      let grown : b ≡ a + n = omega arith in
      let first = inc_by c.prom (b - c.last) in
      let second = inc_by first (a - b) in
      let first_shows : counter_get first ≡ a + n =
        ground (arith, counter_get-inc_by c.prom (b - c.last), s.prom, s.last, grown) in
      let second_shows : counter_get second ≡ a + n =
        ground (arith, counter_get-inc_by first (a - b), first_shows, grown) in
      let c' : Channel p = record { last = a; prom = second } in
      let run =
        race_run (record { live = b; channel = c'; phases = idle ∷ idle ∷ [] }) (actions xs) in
      subst (λ v. (run.live ≡ v + growth xs) × (counter_get run.channel.prom ≡ seen v a xs + n))
        grown
        (alone_run xs b a n c' (idle ∷ []) (omega (arith, grown)) (omega (arith, small, grown)) refl
          second_shows)
