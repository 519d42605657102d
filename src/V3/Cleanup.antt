-- ===== src/V3/Cleanup.antt =====
-- `cleanup_expired_mappings` of src/tunnel_v3.rs.
use cncnet_server.Base.{ℕ, Bool, not, List, [], ◌∷◌, filter}
use cncnet_server.Net.{Io}
use cncnet_server.Deps.{Deps}
use cncnet_server.Limiter.{reset}
use cncnet_server.V3.{TunnelV3}

module _ (d : Deps) where
  open d use {Map, remove, len, retain, iter, TunnelClient, is_timed_out, QualityAnalyzer}

  -- Whether the sweep finds a client timed out.
  abbrev pub is_expired : Io → ℕ → TunnelClient → Bool
  is_expired io key client = is_timed_out client (io.sweep_clock key)

  unfoldable pub remove_all : List (ℕ × TunnelClient) → Map QualityAnalyzer → Map QualityAnalyzer
  remove_all [] analyzers = analyzers
  remove_all ((key, _) ∷ l) analyzers = remove_all l (remove key analyzers)

  -- The closure of `retain` drops a client that has timed out, and removes its analyzer.
  unfoldable pub cleanup_expired_mappings : TunnelV3 d → Io → TunnelV3 d
  cleanup_expired_mappings t io =
      let expired = filter (λ e. is_expired io e.0 e.1) (iter t.mappings) in
      let kept = retain (λ key value. not (is_expired io key value)) t.mappings in
      let m = t.metrics in
      record t {
        mappings = kept;
        quality_analyzers = remove_all expired t.quality_analyzers;
        metrics = record m { v3_active_clients = len kept };
        ping_limiter = reset d.rater t.ping_limiter;
      }
