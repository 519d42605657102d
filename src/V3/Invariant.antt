-- ===== src/V3/Invariant.antt =====
-- The registry of the tunnel under the operations of src/tunnel_v3.rs.
use cncnet_server.Base.{
  ℕ, ◌<◌, ◌≡◌, ap, ◌∙◌, Bool, true, false, none, some, List, is_some, ltb, ltb→lt, length, arith,
  Option-cases, Bool-cases, inl, inr,
}
use cncnet_server.Net.{SocketAddr, same_addr, ip, Io}
use cncnet_server.Deps.{Deps}
use cncnet_server.Config.{ServerConfig}
use cncnet_server.Limiter.{try_acquire}
use cncnet_server.Metrics.{Metrics, LocalMetricsBatch}
use cncnet_server.V3.{
  TunnelV3, tunnel_new, refresh_sender, reconnect_sender, connect_sender, known_sender,
  check_sender, relay_packet, timeout_seconds,
}
use cncnet_server.V3.Lookup.{forward_info_cases}
use cncnet_server.V3.Registry.{
  Registry, insert_new-Registry, insert_over-Registry, touch_client-Registry,
  touch_analyzer-Registry,
}

module _ (d : Deps) where
  open d use {
    Map, get, insert, len, TunnelClient, new_with_endpoint, remote_ep, is_timed_out,
    set_last_receive_tick_at, update_stats, QualityAnalyzer, analyzer_new, record_packet,
    get-create, len-create, remote_ep-new_with_endpoint, remote_ep-set_last_receive_tick_at,
    remote_ep-update_stats,
  }

  abbrev pub Inv : TunnelV3 d → Type 0
  Inv t = Registry d t.config.max_clients t.mappings t.quality_analyzers

  -- A tunnel that has just been made.
  pub tunnel_new-Inv :
      (config : ServerConfig) (metrics : Metrics) → Inv (tunnel_new d config metrics)
  unfolding tunnel_new
  tunnel_new-Inv config metrics = record {
    bounded = omega (arith, len-create {V = TunnelClient} config.max_clients);
    endpoint = λ k c found. ground (arith, get-create {V = TunnelClient} k config.max_clients);
    analyzed = λ k. ground (
      arith,
      get-create {V = TunnelClient} k config.max_clients,
      get-create {V = QualityAnalyzer} k config.max_clients,
    );
  }

  touched_ep :
      (c : TunnelClient) (rx tx now : ℕ)
      → is_some (remote_ep (update_stats (set_last_receive_tick_at c now) rx tx now))
        ≡ is_some (remote_ep c)
  touched_ep c rx tx now = rw (remote_ep-update_stats, remote_ep-set_last_receive_tick_at)

  new_ep :
      (a : SocketAddr) (clock : ℕ)
      → is_some (remote_ep (new_with_endpoint a timeout_seconds clock)) ≡ true
  new_ep a clock = rw remote_ep-new_with_endpoint

  module _ (t : TunnelV3 d) (sender_id : ℕ) (remote_addr : SocketAddr) (io : Io) where
    touched-Inv :
        (m : Map TunnelClient)
        → Registry d t.config.max_clients m t.quality_analyzers
        → (lost : Bool)
        → Registry d t.config.max_clients m (elim (get sender_id t.quality_analyzers) [
          | none ↦ t.quality_analyzers
          | some analyzer ↦ insert sender_id (record_packet analyzer lost) t.quality_analyzers
        ])
    touched-Inv m r lost = elim (Option-cases (get sender_id t.quality_analyzers)) [
      | inl e ↦ rw e r
      | inr (a, e) ↦
          rw e (touch_analyzer-Registry d sender_id (record_packet a lost) (ap is_some e) r)
    ]

    refresh_sender-Inv :
        (c : TunnelClient) (packet : List ℕ)
        → get sender_id t.mappings ≡ some c
        → Inv t
        → Inv (refresh_sender d t sender_id c packet io)
    refresh_sender-Inv c packet found v =
        unfold refresh_sender in
        touched-Inv _
          (touch_client-Registry d sender_id _
            (touched_ep c (length packet) 0 io.now ∙ v.endpoint sender_id c found)
            (ap is_some found) v)
          false

    reconnect_sender-Inv :
        is_some (get sender_id t.mappings) ≡ true
        → Inv t
        → Inv (reconnect_sender d t sender_id remote_addr io).0
    unfolding reconnect_sender
    reconnect_sender-Inv present v =
        elim (Bool-cases (try_acquire d.rater t.connection_limiter (ip remote_addr) io.clock).0) [
          | inl e ↦ rw e (
              insert_over-Registry d sender_id _ analyzer_new (new_ep remote_addr io.clock) present
                v)
          | inr e ↦ rw e v
        ]

    connect_sender-Inv :
        len t.mappings < t.config.max_clients
        → Inv t
        → Inv (connect_sender d t sender_id remote_addr io).0
    unfolding connect_sender
    connect_sender-Inv room v =
        elim (Bool-cases (try_acquire d.rater t.connection_limiter (ip remote_addr) io.clock).0) [
          | inl e ↦
              rw e (
                insert_new-Registry d sender_id _ analyzer_new (new_ep remote_addr io.clock) room v)
          | inr e ↦ rw e v
        ]

    known_sender-Inv :
        (c : TunnelClient) (packet : List ℕ)
        → get sender_id t.mappings ≡ some c
        → Inv t
        → Inv (known_sender d t sender_id c packet remote_addr io).0
    unfolding known_sender
    known_sender-Inv c packet found v = elim (Option-cases (remote_ep c)) [
      | inl e ↦ rw (e, known_sender) v
      | inr (ep, e) ↦
          rw (e, known_sender)
            (elim (Bool-cases (same_addr ep remote_addr)) [
              | inl same ↦ rw same (refresh_sender-Inv c packet found v)
              | inr other ↦ rw other (elim (Bool-cases (is_timed_out c io.clock)) [
                | inl late ↦ rw late (reconnect_sender-Inv (ap is_some found) v)
                | inr alive ↦ rw alive v
              ])
            ])
    ]

    pub check_sender-Inv :
        (packet : List ℕ) → Inv t → Inv (check_sender d t sender_id packet remote_addr io).0
    unfolding check_sender
    check_sender-Inv packet v = elim (Option-cases (get sender_id t.mappings)) [
      | inl e ↦
          rw (e, check_sender)
            (elim (Bool-cases (ltb (len t.mappings) t.config.max_clients)) [
              | inl room ↦ rw room (connect_sender-Inv (ltb→lt _ _ room) v)
              | inr full ↦ rw full v
            ])
      | inr (c, e) ↦ rw (e, check_sender) (known_sender-Inv c packet e v)
    ]

    pub relay_packet-Inv :
        (packet : List ℕ) (batch : LocalMetricsBatch)
        → Inv t
        → Inv (relay_packet d t sender_id packet remote_addr batch io).tunnel
    unfolding relay_packet
    relay_packet-Inv packet batch v = elim (forward_info_cases d t sender_id remote_addr) [
      | inl e ↦ rw (e, relay_packet) v
      | inr (ep, c, e, found, has, other) ↦
          rw (e, relay_packet)
            (elim (Bool-cases (io.send_to packet ep)) [
              | inl taken ↦ rw taken (
                  touch_client-Registry d sender_id _ (rw remote_ep-update_stats (ap is_some has))
                    (ap is_some found) v)
              | inr failed ↦ rw failed (touched-Inv t.mappings v true)
            ])
    ]
