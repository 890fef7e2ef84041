-- ===== src/EpollServer/Safety/Order.antt =====
-- The order in which the service hands the responses that it queues to write.
use plib.Base.{ℕ, ◌≡◌, List, ◌++◌, map}
use plib.SharedQueue
use plib.SharedQueue.{SharedQueue}
use plib.Vote.{ReqeustVoteResp}
use plib.Vote.Wire.{resp_wire}
use plib.EpollServer.State.{Server}
use plib.EpollServer.Registry.Queues.{queued, writes}
use plib.EpollServer.Delivery.Order.{to}

-- What has been handed to write for a descriptor, taken or not, and then the messages of what is
-- queued for it.
abbrev pub promised : Server → ℕ → List (List ℕ)
promised s fd = to fd (writes s.log) ++ map resp_wire (queued s fd)

-- What the state b promised a descriptor, with the messages of further responses behind it, is
-- what it is promised now.
abbrev pub Ordered : Server → Server → Type 0
Ordered b s =
    (fd : ℕ) → (more : List ReqeustVoteResp) × (promised s fd ≡ promised b fd ++ map resp_wire more)
