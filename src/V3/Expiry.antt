-- ===== src/V3/Expiry.antt =====
-- When a client of the V3 tunnel goes: `cleanup_expired_mappings` and `heartbeat_loop` of
-- src/tunnel_v3.rs.
use cncnet_server.Base.{
  ℕ, ◌+◌, ◌%◌, ◌<◌, ◌≡◌, ◌⊎◌, inl, inr, true, not, none, some, [], ◌∷◌, keep_if, arith,
}
use cncnet_server.Net.{Io}
use cncnet_server.Deps.{Deps}
use cncnet_server.V3.{TunnelV3}
use cncnet_server.V3.Cleanup.{is_expired, cleanup_expired_mappings}
use cncnet_server.V3.Heartbeat.{heartbeat_tick, heartbeat_loop}

module _ (d : Deps) where
  open d use {get, TunnelClient, get-retain, len}

  pub get-cleanup :
      (t : TunnelV3 d) (io : Io) (k : ℕ)
      → get k (cleanup_expired_mappings d t io).mappings
        ≡ keep_if (λ c. not (is_expired d io k c)) (get k t.mappings)
  unfolding cleanup_expired_mappings
  get-cleanup t io k = get-retain (λ i e. not (is_expired d io i e)) k t.mappings

  -- An id has no client, or the client `c`.
  abbrev AtMost : ℕ → TunnelClient → TunnelV3 d → Type 0
  AtMost k c t = (get k t.mappings ≡ none) ⊎ (get k t.mappings ≡ some c)

  cleanup-gone :
      (t : TunnelV3 d) (io : Io) (k : ℕ) (c : TunnelClient)
      → is_expired d io k c ≡ true
      → AtMost k c t
      → get k (cleanup_expired_mappings d t io).mappings ≡ none
  cleanup-gone t io k c late at = ground (arith, get-cleanup t io k)

  -- A tick takes an expired client away if it cleans up, and leaves it if it does not.
  tick-gone :
      (counter : ℕ) (t : TunnelV3 d) (io : Io) (k : ℕ) (c : TunnelClient)
      → is_expired d io k c ≡ true
      → AtMost k c t
      → ((counter + 1) % 256) % 3 ≡ 0
      → get k (heartbeat_tick d counter t io).tunnel.mappings ≡ none
  unfolding heartbeat_tick
  tick-gone counter t io k c late at due = ground (arith, cleanup-gone t io k c late at)

  tick-AtMost :
      (counter : ℕ) (t : TunnelV3 d) (io : Io) (k : ℕ) (c : TunnelClient)
      → AtMost k c t
      → AtMost k c (heartbeat_tick d counter t io).tunnel
  unfolding heartbeat_tick
  tick-AtMost counter t io k c at = ground (arith, get-cleanup t io k)

  tick-none :
      (counter : ℕ) (t : TunnelV3 d) (io : Io) (k : ℕ)
      → get k t.mappings ≡ none
      → get k (heartbeat_tick d counter t io).tunnel.mappings ≡ none
  unfolding heartbeat_tick
  tick-none counter t io k e = ground (arith, get-cleanup t io k)

  next-due :
      (counter : ℕ)
      → counter < 256
      → let b = (counter + 1) % 256 in
        let c = (b + 1) % 256 in (b % 3 ≡ 0) ⊎ ((c % 3 ≡ 0) ⊎ (((c + 1) % 256) % 3 ≡ 0))
  next-due counter range = omega arith

  -- Any three ticks in a row, also where the u8 counter wraps, take away a client that is timed out at
  -- each of them and is not heard of between them.
  pub heartbeat-cleans :
      (counter : ℕ) (t : TunnelV3 d) (a b c : Io) (k : ℕ) (client : TunnelClient)
      → counter < 256
      → get k t.mappings ≡ some client
      → is_expired d a k client ≡ true
      → is_expired d b k client ≡ true
      → is_expired d c k client ≡ true
      → get k (heartbeat_loop d counter t (a ∷ b ∷ c ∷ [])).mappings ≡ none
  unfolding heartbeat_loop heartbeat_tick
  heartbeat-cleans counter t a b c k client range found late_a late_b late_c =
      let one = heartbeat_tick d counter t a in
      let two = heartbeat_tick d one.cleanup_counter one.tunnel b in
      let still = tick-AtMost counter t a k client (inr found) in
      elim (next-due counter range) [
        | inl due ↦
            tick-none _ two.tunnel c k
              (tick-none _ one.tunnel b k (tick-gone counter t a k client late_a (inr found) due))
        | inr (inl due) ↦
            tick-none _ two.tunnel c k
              (tick-gone one.cleanup_counter one.tunnel b k client late_b still due)
        | inr (inr due) ↦
            tick-gone two.cleanup_counter two.tunnel c k client late_c
              (tick-AtMost one.cleanup_counter one.tunnel b k client still) due
      ]
