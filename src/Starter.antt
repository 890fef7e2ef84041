-- ===== src/Starter.antt =====
-- AppLoopStarter.cpp: main, and the set-up of a node with its clients.
pub mod SetUp
pub mod Registered
pub mod Peers
pub mod Teardown
use plib.Base.{
  ℕ, ◌+◌, ◌-◌, List, [], ◌∷◌, ◌++◌, Bool, ◌||◌, none, some, Run, ok, undefined, exits, spins,
  if◌then◌else◌, ◌==◌, length, get_elem?,
}
use plib.System.{Os, setrlimit, is_negative}
use plib.StateLocalData.{VolatileState, persist_state, segment_log}
use plib.ClusterConfig.{load_cluster_config}
use plib.ElectionLogic
use plib.TcpClient
use plib.EpollServer.State.{Server, M, pure, ◌>>=◌, ◌>>◌, record_call, exit_with, max_epoll_size}
use plib.EpollServer.Registry.{register_client}
use plib.EpollServer.Service.{init_service}
use plib.EpollServer.Setup.{construct}

-- new ProtocalClientTCP(cluster_config[k]), whose connfd is what memory has, `found`.
unfoldable pub create_client : Os → ℕ → ℕ → M ℕ
create_client os found k s = elim (TcpClient.make os found k s.log) [
  | ok made ↦ ok (
    length s.tcp_clients,
    record s { tcp_clients = s.tcp_clients ++ made.client ∷ []; log = made.log },
  )
  | undefined ↦ undefined
  | exits code ↦ exits code
  | spins ↦ spins
]

unfoldable pub register_peer : Os → ℕ → ℕ → M (Unit {0})
register_peer os found k = do p ← create_client os found k; register_client os p

-- The loop over the nodes from the k-th on. `*(clusterTcpClients + k) == nullptr` is a comparison
-- without effect.
unfoldable pub register_peers : Os → (ℕ → ℕ) → ℕ → List VolatileState → ℕ → M (Unit {0})
register_peers os found nodeid [] k = pure tt
register_peers os found nodeid (n ∷ ns) k = do
  if n.nodeid == nodeid then pure tt else register_peer os (found k) k
  register_peers os found nodeid ns (k + 1)

-- cluster_config + node_position lies outside the block for an id above the size of the cluster.
unfoldable pub initialize : Os → (ℕ → ℕ) → ℕ → List VolatileState → M (Unit {0})
initialize os found nodeid config raw =
    let position = nodeid - 1 in
    elim (get_elem? config position) [
      | none ↦ undefined
      | some node ↦
          (do
            construct os node.serv_port (ElectionLogic.make position (persist_state segment_log))
            register_peers os found nodeid config 0)
            raw
    ]

unfoldable pub set_resource_limit : Os → ℕ → M (Unit {0})
set_resource_limit os limit s =
    if os.setrlimit s.log limit
    then ok (tt, record s { log = setrlimit limit ∷ s.log })
    else exits 255

pub record AppLoopStarter : Type 0 where
  pub nodeid : ℕ
  pub node_position : ℕ
  pub cluster_config : List VolatileState

-- The constructor, for an id above 0. What it prints of the nodes is left out.
abbrev pub make : (ℕ → VolatileState) → ℕ → AppLoopStarter
make memory nodeid = record {
  nodeid = nodeid;
  node_position = nodeid - 1;
  cluster_config = load_cluster_config memory;
}

-- What main does with the node's id, up to the business loop.
unfoldable pub start : Os → (ℕ → ℕ) → (ℕ → VolatileState) → ℕ → M (Unit {0})
start os found memory nodeid = do
  set_resource_limit os max_epoll_size
  let starter = make memory nodeid
  if is_negative nodeid || (nodeid == 0)
      then exit_with 255
      else initialize os found starter.nodeid starter.cluster_config

-- main with the node's id, whose server thread is watched for some rounds. The main thread does
-- nothing more than call requestVote, which is empty, and sleep.
unfoldable pub main : Os → (ℕ → ℕ) → (ℕ → VolatileState) → ℕ → ℕ → ℕ → M Bool
main os found memory nodeid fuel rounds = do
  start os found memory nodeid
  init_service os fuel rounds
