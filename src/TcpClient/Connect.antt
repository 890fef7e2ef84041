-- ===== src/TcpClient/Connect.antt =====
-- The calls that a connection makes.
use plib.Base.{ℕ, ◌≡◌, arith}
use plib.System.{Os, Log, stream, done}
use plib.TcpClient.{ProtocalClientTcp, do_connect}

-- A client's connfd becomes the socket that the kernel gave.
pub do_connect_connfd :
    (os : Os) (c : ProtocalClientTcp) (log : Log) (fd : ℕ)
    → os.socket log stream ≡ done fd
    → (do_connect os c log).client ≡ record c { connfd = fd }
unfolding do_connect
do_connect_connfd os c log fd h = ground arith
