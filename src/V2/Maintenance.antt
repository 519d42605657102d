-- ===== src/V2/Maintenance.antt =====
-- Who can switch the maintenance mode of src/tunnel_v2.rs.
use cncnet_server.Base.{
  ℕ, ◌≡◌, refl, inl, inr, Bool, true, false, not, ◌&&◌, Option, none, some, List, [], ◌∷◌, ◌++◌,
  ◌==◌, if◌then◌else◌, if_cases, arith, Option-cases, Bool-cases, leb, length, get_or, slice_eq,
  slice_eq_iff,
}
use cncnet_server.Base.Words.{add64}
use cncnet_server.Deps.{Deps}
use cncnet_server.Limiter.{check_and_increment}
use cncnet_server.Net.{SocketAddr, ip, Io}
use cncnet_server.Text.{codes, strip_prefix, starts_with, split}
use cncnet_server.V2.{TunnelV2}
use cncnet_server.V2.Allocate.{handle_request, finish_request}
use cncnet_server.V2.Http.{Request, handle_maintenance, route, handle_http_request}
use cncnet_server.V2.Response.{Response}

-- A text up to the first separator.
abbrev pub take_until : ℕ → List ℕ → List ℕ
take_until sep [] = []
take_until sep (c ∷ s) = if c == sep then [] else c ∷ take_until sep s

split-take_until :
    (sep : ℕ) (s : List ℕ) → (rest : List (List ℕ)) × (split sep s ≡ take_until sep s ∷ rest)
split-take_until sep [] = ([], refl)
split-take_until sep (c ∷ s) =
    let (rest, e) = split-take_until sep s in
    elim (Bool-cases (c == sep)) [
      | inl here ↦ (split sep s, rw here refl)
      | inr later ↦ (rest, rw (later, e) refl)
    ]

strip_prefix_sound : (p s r : List ℕ) → strip_prefix p s ≡ some r → s ≡ p ++ r
strip_prefix_sound [] s r e = ground (arith, e)
strip_prefix_sound (c ∷ p) [] r e = cc
strip_prefix_sound (c ∷ p) (x ∷ s) r e = ground (arith, strip_prefix_sound p s r)

-- The password that a path offers: what stands between `/maintenance/` and the next slash.
abbrev pub offered : List ℕ → Option (List ℕ)
offered path = elim (strip_prefix (codes "/maintenance/") path) [
  | none ↦ none
  | some s ↦ some (take_until b'/' s)
]

abbrev pub offers : List ℕ → List ℕ → Bool
offers path password = elim (offered path) [ none ↦ false | some p ↦ slice_eq p password ]

-- The third piece of a path under `/maintenance/`.
third_piece :
    (path s password : List ℕ)
    → strip_prefix (codes "/maintenance/") path ≡ some s
    → (leb 3 (length (split b'/' path)) && slice_eq (get_or (split b'/' path) 2 []) password)
      ≡ slice_eq (take_until b'/' s) password
third_piece path s password e =
    let (rest, f) = split-take_until b'/' s in
    rw (strip_prefix_sound (codes "/maintenance/") path s e, f) (ground arith)

module _ (d : Deps) where
  -- The requests that switch the mode: let in by the limiter, a GET, and under `/maintenance/` with the
  -- configured password, which is not empty.
  unfoldable pub switches : TunnelV2 d → Request → SocketAddr → Io → Bool
  switches t req a io =
      (check_and_increment d.rater t.request_limiter (ip a) io.clock).0
      && req.is_get
      && not (slice_eq t.config.maintenance_password [])
      && offers req.path t.config.maintenance_password

  abbrev Mode : TunnelV2 d → Bool → TunnelV2 d × Response → Type 0
  Mode t b r = r.0.maintenance_mode ≡ (if b then not t.maintenance_mode else t.maintenance_mode)

  handle_request-mode :
      (t : TunnelV2 d) (query : Option (List ℕ)) (rng : ℕ → ℕ) (io : Io)
      → (handle_request d t query rng io).0.maintenance_mode ≡ t.maintenance_mode
  unfolding handle_request finish_request
  handle_request-mode t query rng io = ground arith

  handle_maintenance-Mode :
      (t : TunnelV2 d) (path s : List ℕ)
      → strip_prefix (codes "/maintenance/") path ≡ some s
      → Mode t
          (not (slice_eq t.config.maintenance_password [])
            && offers path t.config.maintenance_password)
          (handle_maintenance d t path)
  unfolding handle_maintenance
  handle_maintenance-Mode t path s e =
      let password = t.config.maintenance_password in
      ground (arith, e, third_piece path s password e)

  -- Another route's path offers no password.
  other_path :
      (path exact password : List ℕ)
      → slice_eq path exact ≡ true
      → strip_prefix (codes "/maintenance/") exact ≡ none
      → offers path password ≡ false
  other_path path exact password same e =
      rw ((slice_eq_iff path exact).0 same, e, offers, offered) refl

  no_offer :
      (path password : List ℕ)
      → starts_with (codes "/maintenance/") path ≡ false
      → offers path password ≡ false
  no_offer path password e = ground (arith, e)

  route-Mode :
      (t : TunnelV2 d) (req : Request) (rng : ℕ → ℕ) (io : Io)
      → Mode t
          (req.is_get
            && not (slice_eq t.config.maintenance_password [])
            && offers req.path t.config.maintenance_password)
          (route d t req rng io)
  unfolding route
  route-Mode t req rng io =
      let password = t.config.maintenance_password in
      let b = req.is_get && not (slice_eq password []) && offers req.path password in
      if_cases (Mode t b) (not req.is_get) _ _ (λ e. ground (arith, e))
        (λ get.
          if_cases (Mode t b) (slice_eq req.path (codes "/status")) _ _
            (λ e. ground (arith, other_path req.path (codes "/status") password e refl))
            (λ _.
              if_cases (Mode t b) (slice_eq req.path (codes "/request")) _ _
                (λ e. ground (
                  arith,
                  other_path req.path (codes "/request") password e refl,
                  handle_request-mode t req.query rng io,
                ))
                (λ _.
                  if_cases (Mode t b) (starts_with (codes "/maintenance/") req.path) _ _
                    (λ e. elim (Option-cases (strip_prefix (codes "/maintenance/") req.path)) [
                      | inl absent ↦ absurd (ground (arith, e, absent))
                      | inr (rest, f) ↦
                          ground (arith, get, handle_maintenance-Mode t req.path rest f)
                    ])
                    (λ e.
                      if_cases (Mode t b) (slice_eq req.path (codes "/health")) _ _
                        (λ _. ground (arith, no_offer req.path password e))
                        (λ _. ground (arith, no_offer req.path password e))))))

  -- An HTTP request toggles the maintenance mode exactly if `switches` says so, whatever the tunnel's
  -- state; any other request leaves the mode as it is.
  pub handle_http_request-mode :
      (t : TunnelV2 d) (req : Request) (a : SocketAddr) (rng : ℕ → ℕ) (io : Io)
      → (handle_http_request d t req a rng io).0.maintenance_mode
        ≡ (if switches t req a io then not t.maintenance_mode else t.maintenance_mode)
  unfolding handle_http_request switches
  handle_http_request-mode t req a rng io =
      let (allowed, limiter) = check_and_increment d.rater t.request_limiter (ip a) io.clock in
      let m = t.metrics in
      let counted : TunnelV2 d = record t {
        request_limiter = limiter;
        metrics = record m { v2_http_requests = add64 m.v2_http_requests 1 };
      } in
      elim (Bool-cases allowed) [
        | inl let_in ↦ rw (let_in, handle_http_request, switches) (route-Mode counted req rng io)
        | inr kept_out ↦ rw (kept_out, handle_http_request, switches) refl
      ]
