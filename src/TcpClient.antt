-- ===== src/TcpClient.antt =====
-- ProtocalClientTCP: a client socket to one node of the cluster.
pub mod Connect
use plib.Base.{ℕ, List, [], ◌∷◌, Bool, Run, ok, undefined, exits, if◌then◌else◌}
use plib.System.{
  Os, Log, Ret, done, failed, minus_one, Kind, stream, socket, connect, shutdown, close,
  gethostbyname,
}
use plib.FdUtils.{Returned, set_fd_nonblock, rm_fd_nonblock}
use plib.StateLocalData.{VolatileState}

-- `node` is the index of the node's state, which the client points to; servaddr is made from it.
pub record ProtocalClientTcp : Type 0 where
  pub connfd : ℕ
  pub node : ℕ

pub record Made : Type 0 where
  pub client : ProtocalClientTcp
  pub log : Log

-- The constructor leaves connfd as memory has it, `found`.
unfoldable pub make : Os → ℕ → ℕ → Log → Run Made
make os found node log =
    if os.gethostbyname log
    then ok (record { client = record { connfd = found; node = node }; log = gethostbyname ∷ log })
    else exits 0

pub record Connected : Type 0 where
  pub result : ℕ
  pub client : ProtocalClientTcp
  pub log : Log

abbrev fd_of : Ret ℕ → ℕ
fd_of (done fd) = fd
fd_of (failed errno) = minus_one

unfoldable pub do_connect : Os → ProtocalClientTcp → Log → Connected
do_connect os client log =
    let connfd = fd_of (os.socket log stream) in
    let client' : ProtocalClientTcp = record client { connfd = connfd } in
    let blocking = rm_fd_nonblock os connfd (socket stream ∷ log) in
    let log' : Log = connect connfd ∷ blocking.log in
    if os.connect blocking.log connfd
    then record { result = 0; client = client'; log = (set_fd_nonblock os connfd log').log }
    else record { result = minus_one; client = client'; log = log' }

-- The end of a function with a result that has no return statement, which the standard leaves
-- undefined, whatever has been called before.
abbrev flows_off : Log → Run Log
flows_off log = undefined

unfoldable pub close_conn_socket : ProtocalClientTcp → Log → Run Log
close_conn_socket client log = flows_off (close client.connfd ∷ shutdown client.connfd ∷ log)

unfoldable pub destroy : ProtocalClientTcp → Log → Run Log
destroy client log = close_conn_socket client log

-- The message is not sent. The C++ function returns a reference to a temporary empty string, which
-- is the value here.
unfoldable pub handle : ProtocalClientTcp → List ℕ → List ℕ
handle client message = []
