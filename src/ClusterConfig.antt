-- ===== src/ClusterConfig.antt =====
-- ClusterConfigTemp.h: the fixed configuration of three nodes on one host.
pub mod Nodes
use Prim.Native.String.{String}
use plib.Base.{ℕ, zero, suc, ◌+◌, List, [], ◌∷◌, u16}
use plib.StateLocalData.{VolatileState}

abbrev pub cluster_size : ℕ
cluster_size = 3

abbrev pub base_port : ℕ
base_port = 9090

abbrev pub local_ip : String
local_ip = "127.0.0.1"

-- The body of the loop at i. The struct comes from malloc, so its other fields hold what was in
-- memory, `found`.
unfoldable pub load_node : VolatileState → ℕ → VolatileState
load_node found i = record found {
  nodeid = u16 (i + 1);
  serv_port = u16 (base_port + i + 1);
  serv_inet_addr = local_ip;
}

-- The loop from i, with the rounds left.
unfoldable pub load_nodes : (ℕ → VolatileState) → ℕ → ℕ → List VolatileState
unfolding load_node
load_nodes found zero i = []
load_nodes found (suc left) i = load_node (found i) i ∷ load_nodes found left (i + 1)

unfoldable pub load_cluster_config : (ℕ → VolatileState) → List VolatileState
unfolding load_nodes
load_cluster_config found = load_nodes found cluster_size 0
