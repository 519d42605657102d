-- ===== src/V3/Sender.antt =====
-- `check_sender` of src/tunnel_v3.rs: who may speak under an id.
use cncnet_server.Base.{
  ℕ, ◌≡◌, refl, ◌∙◌, inl, inr, Bool, true, false, ◌&&◌, ◌||◌, none, some, List, ◌==◌, if◌then◌else◌,
  ltb, length, arith, Option-cases, Bool-cases,
}
use cncnet_server.Net.{SocketAddr, same_addr, same_addr_iff, ip, Io}
use cncnet_server.Deps.{Deps}
use cncnet_server.Limiter.{try_acquire}
use cncnet_server.V3.{
  TunnelV3, refresh_sender, reconnect_sender, connect_sender, refuse_sender, known_sender,
  check_sender, timeout_seconds,
}
use cncnet_server.Endpoint.{endpoint_in, endpoint_in-insert, endpoint_in-touch, remote_ep-touched}

module _ (d : Deps) where
  open d use {
    get, len, TunnelClient, remote_ep, is_timed_out, new_with_endpoint, remote_ep-new_with_endpoint,
    update_stats, set_last_receive_tick_at,
  }

  module _ (t : TunnelV3 d) (sender_id : ℕ) (remote_addr : SocketAddr) (io : Io) where
    -- Whether the connection limiter lets the sender's address in.
    abbrev pub is_allowed : Bool
    is_allowed = (try_acquire d.rater t.connection_limiter (ip remote_addr) io.clock).0

    register_endpoint :
        (j : ℕ)
        → endpoint_in d
            (d.insert sender_id (new_with_endpoint remote_addr timeout_seconds io.clock) t.mappings)
            j
          ≡ (if sender_id == j then some remote_addr else endpoint_in d t.mappings j)
    register_endpoint j =
        endpoint_in-insert d t.mappings sender_id j _
        ∙ rw (remote_ep-new_with_endpoint remote_addr timeout_seconds io.clock)

    -- Who may speak under the id, in words: its owner; anybody let in by the limiter, once the owner
    -- has timed out; and, for an id with no owner, anybody let in while there is room.
    unfoldable pub may_speak : Bool
    may_speak = elim (get sender_id t.mappings) [
      | none ↦ ltb (len t.mappings) t.config.max_clients && is_allowed
      | some c ↦ elim (remote_ep c) [
        | none ↦ false
        | some ep ↦ same_addr ep remote_addr || (is_timed_out c io.clock && is_allowed)
      ]
    ]

    -- The sender's validity, and every id's endpoint afterwards.
    abbrev pub Settles : Bool → TunnelV3 d × Bool → Type 0
    Settles valid r =
        (r.1 ≡ valid)
        × ((j : ℕ)
            → endpoint_in d r.0.mappings j
              ≡ (if valid && sender_id == j then some remote_addr else endpoint_in d t.mappings j))

    reconnect_sender-Settles : Settles is_allowed (reconnect_sender d t sender_id remote_addr io)
    unfolding reconnect_sender
    reconnect_sender-Settles = elim (Bool-cases is_allowed) [
      | inl e ↦ rw e (refl, register_endpoint)
      | inr e ↦ rw e (refl, λ j. refl)
    ]

    connect_sender-Settles : Settles is_allowed (connect_sender d t sender_id remote_addr io)
    unfolding connect_sender
    connect_sender-Settles = elim (Bool-cases is_allowed) [
      | inl e ↦ rw e (refl, register_endpoint)
      | inr e ↦ rw e (refl, λ j. refl)
    ]

    refresh_sender-Settles :
        (c : TunnelClient) (packet : List ℕ)
        → get sender_id t.mappings ≡ some c
        → remote_ep c ≡ some remote_addr
        → Settles true (refresh_sender d t sender_id c packet io, true)
    unfolding refresh_sender
    refresh_sender-Settles c packet found own = (
      refl,
      λ j.
          endpoint_in-touch d t.mappings sender_id j c _ found
            (remote_ep-touched d c (length packet) 0 io.now)
          ∙ ground arith,
    )

    by_case :
        (packet : List ℕ) (valid : Bool) (r : TunnelV3 d × Bool)
        → may_speak ≡ valid
        → check_sender d t sender_id packet remote_addr io ≡ r
        → Settles valid r
        → Settles may_speak (check_sender d t sender_id packet remote_addr io)
    by_case packet valid r e f h = rw (e, f) h

    -- A sender is valid exactly if it may speak under its id; the id is then registered to its
    -- address, and no other endpoint changes.
    pub check_sender-Settles :
        (packet : List ℕ) → Settles may_speak (check_sender d t sender_id packet remote_addr io)
    unfolding check_sender known_sender may_speak
    check_sender-Settles packet = elim (Option-cases (get sender_id t.mappings)) [
      | inl e ↦ elim (Bool-cases (ltb (len t.mappings) t.config.max_clients)) [
        | inl room ↦
            by_case packet is_allowed (connect_sender d t sender_id remote_addr io) (ground arith)
              (ground arith) connect_sender-Settles
        | inr full ↦
            by_case packet false (refuse_sender d t) (ground arith) (ground arith) (refl, λ j. refl)
      ]
      | inr (c, e) ↦ elim (Option-cases (remote_ep c)) [
        | inl f ↦ by_case packet false (t, false) (ground arith) (ground arith) (refl, λ j. refl)
        | inr (ep, f) ↦ elim (Bool-cases (same_addr ep remote_addr)) [
          | inl same ↦
              by_case packet true (refresh_sender d t sender_id c packet io, true) (ground arith)
                (ground arith)
                (refresh_sender-Settles c packet e (ground (arith, same_addr_iff ep remote_addr)))
          | inr other ↦ elim (Bool-cases (is_timed_out c io.clock)) [
            | inl late ↦
                by_case packet is_allowed (reconnect_sender d t sender_id remote_addr io)
                  (ground arith) (ground arith) reconnect_sender-Settles
            | inr alive ↦
                by_case packet false (t, false) (ground arith) (ground arith) (refl, λ j. refl)
          ]
        ]
      ]
    ]
