-- ===== src/Starter/Peers.antt =====
-- The clients of a node, and the program with its service.
use plib.Base.{ℕ, All, ◌+◌, ◌≡◌, List, [], ◌∷◌, if◌then◌else◌, ◌==◌}
use plib.StateLocalData.{VolatileState}
use plib.TcpClient
use plib.TcpClient.{do_connect}
use plib.EpollServer.State.{Server}
use plib.Starter.Registered.{Registered}
use plib.EpollServer.Lifetime.{closes}

-- The indices of the nodes that are not the node itself, from the k-th on.
unfoldable pub others : ℕ → List VolatileState → ℕ → List ℕ
others nodeid [] k = []
others nodeid (n ∷ ns) k =
    let rest = others nodeid ns (k + 1) in if n.nodeid == nodeid then rest else k ∷ rest

-- Each of the sockets of the server and of its clients has been closed as often as at the state b.
abbrev pub StaysOpen : Server → Server → Type 0
StaysOpen b t =
    (closes b.listenfd t.log ≡ closes b.listenfd b.log)
    × (closes b.udpfd t.log ≡ closes b.udpfd b.log)
    × All (λ c. closes c.connfd t.log ≡ closes c.connfd b.log) t.tcp_clients
