-- ===== src/V3/Heartbeat.antt =====
-- `heartbeat_loop` and `send_master_announce` of src/tunnel_v3.rs, one tick at a time.
use cncnet_server.Base.{
  ℕ, ◌+◌, ◌%◌, Bool, not, Option, none, some, List, [], ◌∷◌, ◌==◌, if◌then◌else◌,
}
use cncnet_server.Net.{Io}
use cncnet_server.Announce.{MasterAnnounce}
use cncnet_server.Deps.{Deps}
use cncnet_server.V3.{TunnelV3}
use cncnet_server.V3.Cleanup.{cleanup_expired_mappings}

abbrev pub version : ℕ
version = 3

module _ (d : Deps) where
  open d use {len}

  unfoldable pub send_master_announce : TunnelV3 d → MasterAnnounce
  send_master_announce t = record {
    url = t.config.master_server_url;
    announced_version = version;
    name = t.config.name;
    port = t.config.tunnel_port;
    clients = len t.mappings;
    maxclients = t.config.max_clients;
    masterpw = t.config.master_password;
    maintenance = t.maintenance_mode;
  }

  -- `cleanup_counter` is a u8. Beside the tunnel stand the announcement, if one is made, and
  -- whether the tick logs the metrics.
  pub record Beat : Type 0 where
    pub cleanup_counter : ℕ
    pub tunnel : TunnelV3 d
    pub announce : Option MasterAnnounce
    pub logged : Bool

  unfoldable pub heartbeat_tick : ℕ → TunnelV3 d → Io → Beat
  heartbeat_tick cleanup_counter t io =
      let counter = (cleanup_counter + 1) % 256 in
      let t' : TunnelV3 d = if (counter % 3) == 0 then cleanup_expired_mappings d t io else t in
      record {
        cleanup_counter = counter;
        tunnel = t';
        announce = if not t.config.no_master_announce then some (send_master_announce t') else none;
        logged = (counter % 5) == 0;
      }

  -- The loop over the ticks of its interval, with what it announces.
  unfoldable pub heartbeat_loop : ℕ → TunnelV3 d → List Io → TunnelV3 d
  heartbeat_loop cleanup_counter t [] = t
  heartbeat_loop cleanup_counter t (io ∷ ios) =
      let beat = heartbeat_tick cleanup_counter t io in
      heartbeat_loop beat.cleanup_counter beat.tunnel ios
