-- ===== src/V2/Sender.antt =====
-- `check_sender` of src/tunnel_v2.rs: who may speak under an id that has been allocated.
use cncnet_server.Base.{
  ℕ, ◌≡◌, refl, ap, ◌∙◌, inl, inr, Bool, true, false, ◌&&◌, ◌||◌, Option, none, some, List, ◌==◌,
  if◌then◌else◌, length, arith, Option-cases, Bool-cases, is_some,
}
use cncnet_server.Deps.{Deps}
use cncnet_server.Endpoint.{endpoint_in, endpoint_in-insert, endpoint_in-touch, remote_ep-touched}
use cncnet_server.Net.{SocketAddr, same_addr, same_addr_iff, Io}
use cncnet_server.V2.{TunnelV2, check_sender, connect_client, refresh_client, timeout_seconds}

module _ (d : Deps) where
  open d use {
    Map, get, insert, len, TunnelClient, new_with_endpoint, remote_ep, is_timed_out, get-insert,
    len-insert, remote_ep-new_with_endpoint, update_stats, set_last_receive_tick_at,
  }

  -- The same ids are allocated.
  pub record SameIds (before after : Map TunnelClient) : Type 0 where
    pub same : (j : ℕ) → is_some (get j after) ≡ is_some (get j before)
    pub as_many : len after ≡ len before

  pub insert-SameIds :
      (m : Map TunnelClient) (k : ℕ) (c : TunnelClient)
      → is_some (get k m) ≡ true
      → SameIds m (insert k c m)
  insert-SameIds m k c present = record {
    same = λ j. ground (arith, get-insert k j c m);
    as_many = ground (arith, len-insert k c m);
  }

  pub SameIds-trans : {a b c : Map TunnelClient} → SameIds a b → SameIds b c → SameIds a c
  SameIds-trans p q = record { same = λ j. q.same j ∙ p.same j; as_many = q.as_many ∙ p.as_many }

  module _ (t : TunnelV2 d) (sender_id : ℕ) (remote_addr : SocketAddr) (io : Io) where
    -- Anybody, if the id's client has no endpoint yet; its owner; and anybody, once the owner has
    -- timed out.
    unfoldable pub may_speak : Bool
    may_speak = elim (get sender_id t.mappings) [
      | none ↦ false
      | some c ↦ elim (remote_ep c) [
        | none ↦ true
        | some ep ↦ same_addr ep remote_addr || is_timed_out c io.clock
      ]
    ]

    -- The endpoints once a sender that may speak is registered to its address.
    abbrev pub registered : ℕ → Option SocketAddr
    registered j =
        if may_speak && sender_id == j then some remote_addr else endpoint_in d t.mappings j

    -- Whether the handler goes on, the endpoints afterwards, and the ids.
    pub record Settles (valid : Bool) (r : TunnelV2 d × Bool) : Type 0 where
      pub goes_on : r.1 ≡ valid
      pub endpoints :
          (j : ℕ)
          → endpoint_in d r.0.mappings j
            ≡ (if valid && sender_id == j then some remote_addr else endpoint_in d t.mappings j)
      pub ids : SameIds t.mappings r.0.mappings

    connect_client-Settles :
        is_some (get sender_id t.mappings) ≡ true
        → Settles true (connect_client d t sender_id remote_addr io, true)
    connect_client-Settles present = record {
      goes_on = refl;
      endpoints = λ j.
          endpoint_in-insert d t.mappings sender_id j _
          ∙ rw (remote_ep-new_with_endpoint remote_addr timeout_seconds io.clock);
      ids = insert-SameIds t.mappings sender_id _ present;
    }

    refresh_client-Settles :
        (c : TunnelClient) (packet : List ℕ)
        → get sender_id t.mappings ≡ some c
        → remote_ep c ≡ some remote_addr
        → Settles true (refresh_client d t sender_id c packet io, true)
    refresh_client-Settles c packet found own = record {
      goes_on = refl;
      endpoints = λ j.
          endpoint_in-touch d t.mappings sender_id j c _ found
            (remote_ep-touched d c (length packet) 0 io.now)
          ∙ ground arith;
      ids = insert-SameIds t.mappings sender_id _ (ap is_some found);
    }

    stays : Settles false (t, false)
    stays = record {
      goes_on = refl;
      endpoints = λ j. refl;
      ids = record { same = λ j. refl; as_many = refl };
    }

    by_case :
        (c : TunnelClient) (packet : List ℕ) (valid : Bool) (r : TunnelV2 d × Bool)
        → may_speak ≡ valid
        → check_sender d t sender_id c packet remote_addr io ≡ r
        → Settles valid r
        → Settles may_speak (check_sender d t sender_id c packet remote_addr io)
    by_case c packet valid r e f h = rw (e, f) h

    pub check_sender-Settles :
        (c : TunnelClient) (packet : List ℕ)
        → get sender_id t.mappings ≡ some c
        → Settles may_speak (check_sender d t sender_id c packet remote_addr io)
    unfolding check_sender may_speak
    check_sender-Settles c packet found = elim (Option-cases (remote_ep c)) [
      | inl none_yet ↦
          by_case c packet true (connect_client d t sender_id remote_addr io, true) (ground arith)
            (ground arith) (connect_client-Settles (ap is_some found))
      | inr (ep, e) ↦ elim (Bool-cases (same_addr ep remote_addr)) [
        | inl same ↦
            by_case c packet true (refresh_client d t sender_id c packet io, true) (ground arith)
              (ground arith)
              (refresh_client-Settles c packet found (ground (arith, same_addr_iff ep remote_addr)))
        | inr other ↦ elim (Bool-cases (is_timed_out c io.clock)) [
          | inl late ↦
              by_case c packet true (connect_client d t sender_id remote_addr io, true)
                (ground arith) (ground arith) (connect_client-Settles (ap is_some found))
          | inr alive ↦ by_case c packet false (t, false) (ground arith) (ground arith) stays
        ]
      ]
    ]
