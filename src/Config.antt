-- ===== src/Config.antt =====
-- src/config.rs and the `Args` of src/main.rs. A text is the list of its code points; `usize` values
-- are numbers.
pub mod Trim
pub mod Checked
pub mod Tests
use mathlib.Core.List.{reverse}
use cncnet_server.Base.{
  ℕ, Bool, not, ◌&&◌, ◌||◌, List, [], ◌∷◌, ltb, leb, ◌==◌, if◌then◌else◌, filter,
}

pub record Args : Type 0 where
  pub port : ℕ
  pub portv2 : ℕ
  pub name : List ℕ
  pub maxclients : ℕ
  pub nomaster : Bool
  pub masterpw : List ℕ
  pub maintpw : List ℕ
  pub master : List ℕ
  pub iplimit : ℕ
  pub iplimitv2 : ℕ
  pub nop2p : Bool
  pub workers : ℕ
  pub metrics_port : ℕ
  pub log_level : List ℕ
  pub log_format : List ℕ

pub record ServerConfig : Type 0 where
  pub tunnel_port : ℕ
  pub tunnel_v2_port : ℕ
  pub name : List ℕ
  pub max_clients : ℕ
  pub no_master_announce : Bool
  pub master_password : List ℕ
  pub maintenance_password : List ℕ
  pub master_server_url : List ℕ
  pub ip_limit : ℕ
  pub ip_limit_v2 : ℕ
  pub no_p2p : Bool
  pub metrics_port : ℕ

-- The four refusals of `from_args`.
pub data ConfigError : Type 0 where
  requires_root : ℕ → ConfigError
  too_few_clients too_many_clients : ConfigError

pub data ConfigResult : Type 0 where
  ok : ServerConfig → ConfigResult
  bail : ConfigError → ConfigResult

-- `char::is_whitespace`: the code points with the property White_Space.
abbrev pub is_whitespace : ℕ → Bool
is_whitespace c =
    (leb 9 c && leb c 13)
    || c == 0x20
    || c == 0x85
    || c == 0xa0
    || c == 0x1680
    || (leb 0x2000 c && leb c 0x200a)
    || c == 0x2028
    || c == 0x2029
    || c == 0x202f
    || c == 0x205f
    || c == 0x3000

unfoldable pub trim_start : List ℕ → List ℕ
trim_start [] = []
trim_start (c ∷ s) = if is_whitespace c then trim_start s else c ∷ s

-- `str::trim`
unfoldable pub trim : List ℕ → List ℕ
unfolding trim_start
trim s = reverse (trim_start (reverse (trim_start s)))

-- `name.replace(';', "")`
abbrev pub without_semicolons : List ℕ → List ℕ
without_semicolons = filter (λ c. not (c == b';'))

-- `n.max(1).min(100)`
abbrev pub clamp_limit : ℕ → ℕ
clamp_limit n = let m = if ltb n 1 then 1 else n in if ltb 100 m then 100 else m

-- `port <= 1024 && port != 0`
abbrev pub is_privileged : ℕ → Bool
is_privileged port = leb port 1024 && not (port == 0)

unfoldable pub from_args : Args → ConfigResult
from_args args =
    if is_privileged args.port
    then bail (requires_root args.port)
    else if is_privileged args.portv2
    then bail (requires_root args.portv2)
    else if ltb args.maxclients 2
    then bail too_few_clients
    else if ltb 10000 args.maxclients
    then bail too_many_clients
    else ok (record {
      tunnel_port = args.port;
      tunnel_v2_port = args.portv2;
      name = trim (without_semicolons args.name);
      max_clients = args.maxclients;
      no_master_announce = args.nomaster;
      master_password = args.masterpw;
      maintenance_password = args.maintpw;
      master_server_url = args.master;
      ip_limit = clamp_limit args.iplimit;
      ip_limit_v2 = clamp_limit args.iplimitv2;
      no_p2p = args.nop2p;
      metrics_port = args.metrics_port;
    })
