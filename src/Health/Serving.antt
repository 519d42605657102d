-- ===== src/Health/Serving.antt =====
-- What src/health.rs answers at `/metrics`.
use cncnet_server.Base.{
  ℕ, ◌≡◌, refl, sym, true, false, List, [], ◌∷◌, if◌then◌else◌, if_cases, slice_eq, slice_eq_iff,
  inl, inr, Bool-cases,
}
use mathlib.Core.Path.{subst}
use cncnet_server.Health.{HealthRequest, export_prometheus, handle_health_request, handle_each}
use cncnet_server.Metrics.{Metrics, metrics_new}
use cncnet_server.Metrics.Export.{Prometheus, Exporter, exporter_new, update_prometheus}
use cncnet_server.Metrics.Exact.{
  AllGrow, Grows, final, Exact, Gauges, export_each, export_each-Exact,
}
use cncnet_server.Text.{codes}
use cncnet_server.V2.Response.{Response, status_ok, plain}

abbrev metrics_path : List ℕ
metrics_path = codes "/metrics"

-- The exports that requests cause.
abbrev pub exports : List HealthRequest → List (Metrics × ℕ)
exports [] = []
exports (req ∷ reqs) =
    if slice_eq req.path metrics_path
    then (req.metrics, req.elapsed_secs) ∷ exports reqs
    else exports reqs

module _ (p : Prometheus) (encode : Exporter p → List ℕ) where
  -- Only `/metrics` changes what has been exported.
  handle_health_request-exporter :
      (path : List ℕ) (m : Metrics) (elapsed : ℕ) (e : Exporter p)
      → (handle_health_request p encode
          (record { path = path; metrics = m; elapsed_secs = elapsed })
          e).0
        ≡ (if slice_eq path metrics_path then update_prometheus p m elapsed e else e)
  unfolding handle_health_request export_prometheus
  handle_health_request-exporter path m elapsed e =
      let Goal : List ℕ → Exporter p × Response → Type 0 = λ path' r.
        r.0 ≡ (if slice_eq path' metrics_path then update_prometheus p m elapsed e else e) in
      let other : (known : List ℕ) (body : List ℕ)
          → slice_eq path known ≡ true
          → slice_eq known metrics_path ≡ false
          → Goal path (e, plain status_ok body) =
        λ known body h k.
          subst (λ path'. Goal path' (e, plain status_ok body))
            (sym ((slice_eq_iff path known).0 h)) (rw k refl) in
      if_cases (Goal path) (slice_eq path (codes "/health")) _ _
        (λ h. other (codes "/health") (codes "OK") h refl)
        (λ _.
          if_cases (Goal path) (slice_eq path (codes "/ready")) _ _
            (λ h. other (codes "/ready") (codes "READY") h refl)
            (λ _.
              if_cases (Goal path) (slice_eq path metrics_path) _ _ (λ h. rw h refl)
                (λ h. rw h refl)))

  handle_each-exports :
      (reqs : List HealthRequest) (e : Exporter p)
      → handle_each p encode reqs e ≡ export_each p (exports reqs) e
  unfolding handle_each export_each
  handle_each-exports [] e = refl
  handle_each-exports (req ∷ reqs) e =
      let moved = handle_health_request-exporter req.path req.metrics req.elapsed_secs e in
      elim (Bool-cases (slice_eq req.path metrics_path)) [
        | inl h ↦
            rw (moved, h)
              (handle_each-exports reqs (update_prometheus p req.metrics req.elapsed_secs e))
        | inr h ↦ rw (moved, h) (handle_each-exports reqs e)
      ]

  -- A request for the metrics.
  abbrev pub scrape : Metrics → ℕ → HealthRequest
  scrape m elapsed = record { path = metrics_path; metrics = m; elapsed_secs = elapsed }

  -- After any requests to any paths, each answered before the next is handled, during which the counters
  -- have not gone down between two scrapes and have stayed below 2^64: `/metrics` answers 200 with the
  -- package's text of an exporter in which every counter shows its atomic and every gauge its value cast
  -- to an i64. Of requests that are handled at the same time it says nothing.
  pub handle_each-scrape :
      (reqs : List HealthRequest) (m : Metrics) (elapsed : ℕ)
      → AllGrow metrics_new (exports reqs)
      → Grows (final metrics_new (exports reqs)) m
      → let (e, response) =
          handle_health_request p encode
            (scrape m elapsed)
            (handle_each p encode reqs (exporter_new p)) in
        (response ≡ plain status_ok (encode e)) × Exact p m e × Gauges p m elapsed e
  unfolding handle_health_request export_prometheus
  handle_each-scrape reqs m elapsed grows more =
      let (exact, gauges) = export_each-Exact p (exports reqs) m elapsed grows more in
      rw (handle_each-exports reqs (exporter_new p)) (refl, exact, gauges)
