-- ===== src/Deps/Counting.antt =====
-- The size of a map that holds something.
use cncnet_server.Base.{ℕ, ◌<◌, ◌≡◌, refl, true, List, [], ◌∷◌, arith, is_some}
use cncnet_server.Deps.{Deps}

module _ (d : Deps) where
  open d use {Map, get, len, TunnelClient, len-iter, lookup-iter, iter}

  pub len_pos : (k : ℕ) (m : Map TunnelClient) → is_some (get k m) ≡ true → 0 < len m
  len_pos k m present = by_entries (iter m) refl
    where
      by_entries : (l : List (ℕ × TunnelClient)) → iter m ≡ l → 0 < len m
      by_entries [] e = absurd (ground (arith, lookup-iter k m, e))
      by_entries (x ∷ l) e = ground (arith, len-iter m, e)
