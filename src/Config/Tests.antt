-- ===== src/Config/Tests.antt =====
-- `from_args` at concrete arguments.
use cncnet_server.Base.{◌≡◌, refl, false, []}
use cncnet_server.Config.{Args, trim_start, trim, from_args, bail, requires_root}
use cncnet_server.Config.Checked.{Checked, from_args-Checked}
use cncnet_server.Text.{codes}

abbrev pub some_args : Args
some_args = record {
  port = 50001;
  portv2 = 50000;
  name = codes "  a; b ";
  maxclients = 200;
  nomaster = false;
  masterpw = [];
  maintpw = codes "test123456";
  master = codes "http://cncnet.org/master-announce";
  iplimit = 0;
  iplimitv2 = 400;
  nop2p = false;
  workers = 0;
  metrics_port = 9090;
  log_level = codes "info";
  log_format = codes "pretty";
}

port_80_needs_root : from_args (record some_args { portv2 = 80 }) ≡ bail (requires_root 80)
unfolding from_args
port_80_needs_root = refl

name_is_trimmed : trim (codes "  a b ") ≡ codes "a b"
unfolding trim trim_start
name_is_trimmed = refl

from_args-Checked_example : Checked some_args (from_args some_args)
from_args-Checked_example = from_args-Checked some_args
