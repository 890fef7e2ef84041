-- ===== src/ClusterConfig/Nodes.antt =====
-- The nodes that the configuration gives, by their index.
use plib.Base.{ℕ, zero, suc, ◌+◌, ◌<◌, ◌^◌, ◌≡◌, refl, some, get_elem?, arith}
use plib.StateLocalData.{VolatileState}
use plib.ClusterConfig.{load_node, load_nodes, load_cluster_config, cluster_size}

-- For a cluster of any size whose ports fit 16 bits, the k-th node has the id k + 1 and the port
-- 9090 + id, so ids and ports are distinct.
pub load_nodes_nth :
    (found : ℕ → VolatileState) (left i k : ℕ)
    → k < left
    → 9091 + i + left < 2 ^ 16
    → (n : VolatileState) × (get_elem? (load_nodes found left i) k ≡ some n)
      × (n.nodeid ≡ i + k + 1)
      × (n.serv_port ≡ 9090 + n.nodeid)
unfolding load_nodes
load_nodes_nth found zero i k h fits = elim h [ ]
load_nodes_nth found (suc left) i zero h fits =
    (load_node (found i) i, refl, omega arith, omega arith)
load_nodes_nth found (suc left) i (suc k) h fits =
    let (n, at, id, port) = load_nodes_nth found left (i + 1) k (omega arith) (omega arith) in
    (n, at, omega arith, port)

-- Each of the three nodes of the configuration has the id k + 1, where k is its index, and the
-- port 9090 + id.
pub load_cluster_config_nth :
    (found : ℕ → VolatileState) (k : ℕ)
    → k < cluster_size
    → (n : VolatileState) × (get_elem? (load_cluster_config found) k ≡ some n)
      × (n.nodeid ≡ k + 1)
      × (n.serv_port ≡ 9090 + n.nodeid)
unfolding load_cluster_config
load_cluster_config_nth found k h =
    let (n, at, id, port) = load_nodes_nth found cluster_size 0 k h (omega arith) in
    (n, at, omega arith, port)
