-- ===== src/V3/Lookup.antt =====
-- What `forward_info` of src/tunnel_v3.rs finds.
use cncnet_server.Base.{ℕ, ◌≡◌, refl, ◌≢◌, ◌⊎◌, inl, inr, none, some, Option-cases, Bool-cases}
use cncnet_server.Net.{SocketAddr, same_addr, same_addr_ne}
use cncnet_server.Deps.{Deps}
use cncnet_server.V3.{TunnelV3, forward_info}

module _ (d : Deps) (t : TunnelV3 d) (receiver_id : ℕ) (remote_addr : SocketAddr) where
  open d use {get, TunnelClient, remote_ep}

  pub forward_info_cases :
      (forward_info d t receiver_id remote_addr ≡ none)
      ⊎ ((ep : SocketAddr) × (c : TunnelClient) × (forward_info d t receiver_id remote_addr
            ≡ some (ep, c))
          × (get receiver_id t.mappings ≡ some c)
          × (remote_ep c ≡ some ep)
          × (ep ≢ remote_addr))
  unfolding forward_info
  forward_info_cases = elim (Option-cases (get receiver_id t.mappings)) [
    | inl e ↦ inl (rw (e, forward_info) refl)
    | inr (c, e) ↦ elim (Option-cases (remote_ep c)) [
      | inl f ↦ inl (rw (e, f, forward_info) refl)
      | inr (ep, f) ↦ elim (Bool-cases (same_addr ep remote_addr)) [
        | inl same ↦ inl (rw (e, f, same, forward_info) refl)
        | inr other ↦
            inr
              (ep, c, rw (e, f, other, forward_info) refl, e, f, same_addr_ne ep remote_addr other)
      ]
    ]
  ]
