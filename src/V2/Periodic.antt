-- ===== src/V2/Periodic.antt =====
-- `heartbeat_loop`, `cleanup_expired_mappings` and `send_master_announce` of src/tunnel_v2.rs.
use cncnet_server.Base.{ℕ, not, Option, none, some, if◌then◌else◌}
use cncnet_server.Announce.{MasterAnnounce}
use cncnet_server.Deps.{Deps}
use cncnet_server.Limiter.{reset}
use cncnet_server.Net.{Io}
use cncnet_server.V2.{TunnelV2}

abbrev pub version : ℕ
version = 2

module _ (d : Deps) where
  open d use {len, retain, is_timed_out}

  unfoldable pub cleanup_expired_mappings : TunnelV2 d → Io → TunnelV2 d
  cleanup_expired_mappings t io =
      let kept = retain (λ key value. not (is_timed_out value (io.sweep_clock key))) t.mappings in
      let m = t.metrics in
      record t {
        mappings = kept;
        metrics = record m { v2_active_clients = len kept };
        ping_limiter = reset d.rater t.ping_limiter;
      }

  unfoldable pub send_master_announce : TunnelV2 d → MasterAnnounce
  send_master_announce t = record {
    url = t.config.master_server_url;
    announced_version = version;
    name = t.config.name;
    port = t.config.tunnel_v2_port;
    clients = len t.mappings;
    maxclients = t.config.max_clients;
    masterpw = t.config.master_password;
    maintenance = t.maintenance_mode;
  }

  -- One tick of the interval, with what it announces.
  unfoldable pub heartbeat_tick : TunnelV2 d → Io → TunnelV2 d × Option MasterAnnounce
  heartbeat_tick t io =
      let swept = cleanup_expired_mappings t io in
      let t' : TunnelV2 d = record swept {
        request_limiter = reset d.rater swept.request_limiter;
        dropped_connections = 0;
      } in
      (t', if not t.config.no_master_announce then some (send_master_announce t') else none)
