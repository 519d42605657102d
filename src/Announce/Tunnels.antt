-- ===== src/Announce/Tunnels.antt =====
-- What the heartbeats of the two tunnels announce.
use mathlib.Core.Path.{subst}
use cncnet_server.Base.{
  ℕ, ◌+◌, ◌%◌, ◌^◌, ◌<◌, ◌≡◌, refl, sym, ap, Bool, false, Option, some, ◌==◌, if_cases, arith,
}
use cncnet_server.Announce.{UrlEncoding, MasterAnnounce, query_of}
use cncnet_server.Announce.Reading.{Readable, announce_url-Readable}
use cncnet_server.Config.{ServerConfig}
use cncnet_server.Deps.{Deps}
use cncnet_server.Net.{Io}
use cncnet_server.V2 as V2
use cncnet_server.V2.Periodic as Periodic
use cncnet_server.V3 as V3
use cncnet_server.V3.Cleanup.{cleanup_expired_mappings}
use cncnet_server.V3.Heartbeat as Heartbeat

module _ (u : UrlEncoding) (d : Deps) where
  open d use {len}

  -- An announcement that can be read back and tells of a server with this configuration, so many
  -- clients and this mode.
  pub record Announced (config : ServerConfig) (version port clients : ℕ) (maintenance : Bool)
      (announce : Option MasterAnnounce) : Type 0 where
    pub a : MasterAnnounce
    pub made : announce ≡ some a
    pub readable : Readable u a (query_of u a)
    pub url : a.url ≡ config.master_server_url
    pub announced_version : a.announced_version ≡ version
    pub name : a.name ≡ config.name
    pub port_told : a.port ≡ port
    pub clients_told : a.clients ≡ clients
    pub maxclients : a.maxclients ≡ config.max_clients
    pub masterpw : a.masterpw ≡ config.master_password
    pub maintenance_told : a.maintenance ≡ maintenance

  v3_config :
      (counter : ℕ) (t : V3.TunnelV3 d) (io : Io)
      → (Heartbeat.heartbeat_tick d counter t io).tunnel.config ≡ t.config
  unfolding Heartbeat.heartbeat_tick cleanup_expired_mappings
  v3_config counter t io =
      if_cases (λ (t' : V3.TunnelV3 d). t'.config ≡ t.config) ((((counter + 1) % 256) % 3) == 0) _ _
        (λ _. refl) (λ _. refl)

  -- A heartbeat of the V3 tunnel that has to announce, does: the master server reads in the URL the
  -- version 3, the port, the name and the password whatever their characters, and the mode and the
  -- number of clients after the sweep of this beat.
  pub v3_tick-Announced :
      (counter : ℕ) (t : V3.TunnelV3 d) (io : Io)
      → let t' = (Heartbeat.heartbeat_tick d counter t io).tunnel in
        t.config.no_master_announce ≡ false
        → t.config.tunnel_port < 2 ^ 64
        → len t'.mappings < 2 ^ 64
        → t.config.max_clients < 2 ^ 64
        → Announced t.config 3 t.config.tunnel_port
            (len t'.mappings)
            t'.maintenance_mode
            (Heartbeat.heartbeat_tick d counter t io).announce
  unfolding Heartbeat.heartbeat_tick Heartbeat.send_master_announce
  v3_tick-Announced counter t io on p c m =
      let t' : V3.TunnelV3 d = (Heartbeat.heartbeat_tick d counter t io).tunnel in
      let kept : t'.config ≡ t.config = v3_config counter t io in
      let a : MasterAnnounce = Heartbeat.send_master_announce d t' in
      record {
        a = a;
        made = rw on refl;
        readable =
            announce_url-Readable u a (omega arith)
              (subst (λ (x : ServerConfig). x.tunnel_port < 2 ^ 64) (sym kept) p) c
              (subst (λ (x : ServerConfig). x.max_clients < 2 ^ 64) (sym kept) m);
        url = ap (λ x. x.master_server_url) kept;
        announced_version = refl;
        name = ap (λ x. x.name) kept;
        port_told = ap (λ x. x.tunnel_port) kept;
        clients_told = refl;
        maxclients = ap (λ x. x.max_clients) kept;
        masterpw = ap (λ x. x.master_password) kept;
        maintenance_told = refl;
      }

  -- The same of the V2 tunnel, with the version 2 and its port.
  pub v2_tick-Announced :
      (t : V2.TunnelV2 d) (io : Io)
      → let t' = (Periodic.heartbeat_tick d t io).0 in
        t.config.no_master_announce ≡ false
        → t.config.tunnel_v2_port < 2 ^ 64
        → len t'.mappings < 2 ^ 64
        → t.config.max_clients < 2 ^ 64
        → Announced t.config 2 t.config.tunnel_v2_port
            (len t'.mappings)
            t'.maintenance_mode
            (Periodic.heartbeat_tick d t io).1
  unfolding Periodic.heartbeat_tick Periodic.cleanup_expired_mappings Periodic.send_master_announce
  v2_tick-Announced t io on p c m =
      let a : MasterAnnounce = Periodic.send_master_announce d (Periodic.heartbeat_tick d t io).0 in
      record {
        a = a;
        made = rw on refl;
        readable = announce_url-Readable u a (omega arith) p c m;
        url = refl;
        announced_version = refl;
        name = refl;
        port_told = refl;
        clients_told = refl;
        maxclients = refl;
        masterpw = refl;
        maintenance_told = refl;
      }
