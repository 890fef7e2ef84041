-- ===== src/Draft/EchoServer/Update.antt =====
-- draft/20200214UPD/ProtocalServerUDP: the echo server as a class with its descriptor as a member,
-- whose constructor runs the service and whose destructor closes the descriptor. Its handlers are
-- word for word those of draft/ProtocalServerUDP.
use plib.Base.{ℕ, List, ◌∷◌, Run, ok, ◌>>=◌, if◌then◌else◌}
use plib.System.{Os, Log, EpollEvent, close, minus_one}
use plib.Draft.EchoServer.Loop.{open_listener, serve_loop}

pub record ProtocalServerUdp : Type 0 where
  pub listenfd : ℕ
  pub result : ℕ
  pub log : Log

-- `result` is what the method returns.
unfoldable pub init_service :
    Os → (Log → ℕ) → ℕ → ℕ → List EpollEvent → List ℕ → Log → Run ProtocalServerUdp
init_service os stray port rounds events buf log =
    let opened = open_listener os port log in
    let served : Run ProtocalServerUdp = (do
      s ← serve_loop os stray opened.listenfd rounds events (record { buf = buf; log = opened.log })
      ok (record { listenfd = opened.listenfd; result = 0; log = s.log })) in
    if opened.ready
    then served
    else ok (record { listenfd = opened.listenfd; result = minus_one; log = opened.log })

-- The argument listenq is not used; a result below 0 is only printed.
unfoldable pub construct :
    Os → (Log → ℕ) → ℕ → ℕ → ℕ → List EpollEvent → List ℕ → Log → Run ProtocalServerUdp
construct os stray serv_port listenq rounds events buf log =
    init_service os stray serv_port rounds events buf log

unfoldable pub destroy : ProtocalServerUdp → Log
destroy server = close server.listenfd ∷ server.log
