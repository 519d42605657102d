-- ===== src/Samples.antt =====
-- Concrete packages, addresses and packets for the tests.
use cncnet_server.Base.{ℕ, true, false, List, [], ◌∷◌}
use cncnet_server.Config.{ServerConfig}
use cncnet_server.Deps.{Deps}
use cncnet_server.Deps.Models.{assoc_map, plain_relay, plain_rater}
use cncnet_server.Net.{SocketAddr, addr_v4, Io}

abbrev pub plain : Deps
plain = record { dashmap = assoc_map; relay = plain_relay; rater = plain_rater }

abbrev pub alice : SocketAddr
alice = addr_v4 10 0 0 1 5000

abbrev pub bob : SocketAddr
bob = addr_v4 10 0 0 2 6000

abbrev pub small_config : ServerConfig
small_config = record {
  tunnel_port = 50001;
  tunnel_v2_port = 50000;
  name = b'x' ∷ [];
  max_clients = 2;
  no_master_announce = false;
  master_password = [];
  maintenance_password = 7 ∷ 7 ∷ [];
  master_server_url = [];
  ip_limit = 8;
  ip_limit_v2 = 4;
  no_p2p = false;
  metrics_port = 9090;
}

-- Every clock shows the same second, and every send succeeds.
abbrev pub at_second : ℕ → Io
at_second s = record {
  now = s;
  clock = s;
  sweep_clock = λ k. s;
  elapsed_secs = s;
  send_to = λ payload target. true;
}

-- A packet of nine bytes between two small ids.
abbrev pub packet_between : ℕ → ℕ → List ℕ
packet_between a b = a ∷ 0 ∷ 0 ∷ 0 ∷ b ∷ 0 ∷ 0 ∷ 0 ∷ 42 ∷ []
