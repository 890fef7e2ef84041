-- ===== src/Starter/Teardown.antt =====
-- The business loop of AppLoopStarter and its destructor, which main never gets to: run() does not
-- return.
use plib.Base.{
  ℕ, zero, suc, ◌+◌, ◌-◌, List, [], ◌∷◌, Bool, true, false, Run, ok, undefined, spins, ◌>>=◌, ◌>>◌,
  if◌then◌else◌, ◌==◌, ◌&&◌, Always, Always->>=, Always-any,
}
use plib.System.{Os}
use plib.StateLocalData.{VolatileState}
use plib.ElectionLogic.{ElectionLogic, request_vote}
use plib.EpollServer.State.{Server}
use plib.EpollServer.Registry.{close_epoll_server}
use plib.EpollServer.Service.{service_loop}
use plib.EpollServer.Teardown

-- while (true), for some rounds; what it does besides requestVote is to sleep.
unfoldable pub run : ℕ → ElectionLogic → Run ElectionLogic
run zero l = spins
run (suc rounds) l = run rounds (request_vote l)

-- free(array + k) of an array that malloc gave, which is there or has been freed: only the array's
-- own address can be freed, and that once.
unfoldable pub free_at : Bool → ℕ → Run Bool
free_at there k = if there && (k == 0) then ok false else undefined

-- free of servInetAddr, which loadClusterConfig has set to the address of a string literal.
abbrev pub free_literal : Run (Unit {0})
free_literal = undefined

-- The loop over the nodes from the j-th on. The Booleans say whether clusterTcpClients and
-- cluster_config are still there.
unfoldable pub free_nodes : ℕ → ℕ → Bool → Bool → List VolatileState → Run (Unit {0})
free_nodes node_position j clients config [] = ok tt
free_nodes node_position j clients config (n ∷ ns) = do
  clients' ← if j == node_position then ok clients else free_at clients j
  free_literal
  config' ← free_at config j
  free_nodes node_position (j + 1) clients' config' ns

-- The destructor. The server thread sees that it is to end and is joined.
unfoldable pub destroy_starter : Os → ℕ → ℕ → ℕ → List VolatileState → Server → Run Server
destroy_starter os fuel rounds nodeid config s = do
  joined ← service_loop os fuel rounds (close_epoll_server s)
  deleted ← Teardown.destroy fuel joined.1
  free_nodes (nodeid - 1) 0 true true config
  ok deleted.1

-- With a node in the configuration the destructor does not end normally.
pub free_nodes_undefined :
    (node_position j : ℕ) (clients config : Bool) (n : VolatileState) (ns : List VolatileState)
    → Always (λ u. ⊥) (free_nodes node_position j clients config (n ∷ ns))
unfolding free_nodes
free_nodes_undefined node_position j clients config n ns =
    Always->>= (λ b. Unit {0}) (λ u. ⊥)
      (if j == node_position then ok clients else free_at clients j) _ (Always-any _) (λ b h. tt)
