-- ===== src/EpollServer/Safety/Sockets.antt =====
-- The sockets of the service and the descriptors that it closes.
use plib.Base.{
  ℕ, ◌≡◌, refl, ap, sym, ◌∙◌, List, ◌∷◌, length, replicate, length-replicate, Option-cases, inl,
  inr,
}
use plib.System.{Os, Call, close, write, sendto, mutex_init, EpollEvent, Since}
use plib.SharedQueue
use plib.StdMap.{find}
use plib.Vote.{ReqeustVoteResp}
use plib.Vote.Wire.{resp_wire}
use plib.Vote.Decoded.{resp_wire-IsVoteResp}
use plib.EpollServer.State.{Server, buf_size}
use plib.EpollServer.Registry.{put_resp_in_queue, close_epoll_server}
use plib.EpollServer.Read.Requests.{response}
use plib.EpollServer.Service.{init_service, handle_event}
use plib.EpollServer.Safety.Rules.{IsHarmless, silent-IsHarmless, Holds, Holds-lift_bind}
use plib.EpollServer.Safety.Service.{Kept, init_service_keeps, handle_event_keeps}

-- Since the state b the server has the same sockets and clients, and a buffer of its size, and
-- all calls have been harmless to them.
abbrev pub Inv : Server → Server → Type 0
Inv b s = record {
  same_listenfd : s.listenfd ≡ b.listenfd;
  same_udpfd : s.udpfd ≡ b.udpfd;
  same_clients : s.tcp_clients ≡ b.tcp_clients;
  same_clientmap : s.clientmap ≡ b.clientmap;
  buffer_size : length s.recvbuffer ≡ buf_size;
  calls : Since (IsHarmless b) b.log s.log;
}

IsHarmless-same :
    (b s : Server) (c : Call)
    → s.listenfd ≡ b.listenfd
    → s.udpfd ≡ b.udpfd
    → s.clientmap ≡ b.clientmap
    → IsHarmless s c
    → IsHarmless b c
IsHarmless-same b s (close fd) l u m (nl, nu, nc) =
    ((λ e. nl (e ∙ sym l)), (λ e. nu (e ∙ sym u)), ap (find fd) (sym m) ∙ nc)
IsHarmless-same b s (write fd bytes) l u m h = h
IsHarmless-same b s (sendto fd bytes) l u m (at, same) = (at ∙ u, same)
IsHarmless-same b s _ l u m h = tt

Inv-call :
    (b s : Server) (c : Call) → IsHarmless s c → Inv b s → Inv b (record s { log = c ∷ s.log })
Inv-call b s c h v = record {
  same_listenfd = v.same_listenfd;
  same_udpfd = v.same_udpfd;
  same_clients = v.same_clients;
  same_clientmap = v.same_clientmap;
  buffer_size = v.buffer_size;
  calls =
      Since.next v.calls (IsHarmless-same b s c v.same_listenfd v.same_udpfd v.same_clientmap h);
}

Inv-buffer :
    (b s : Server) (bytes : List ℕ)
    → length bytes ≡ buf_size
    → Inv b s
    → Inv b (record s { recvbuffer = bytes })
Inv-buffer b s bytes e v = record {
  same_listenfd = v.same_listenfd;
  same_udpfd = v.same_udpfd;
  same_clients = v.same_clients;
  same_clientmap = v.same_clientmap;
  buffer_size = e;
  calls = v.calls;
}

Inv-answer :
    (os : Os) (b : Server) (fd : ℕ) (resp : ReqeustVoteResp) (s : Server)
    → Inv b s
    → Holds (Inv b) (put_resp_in_queue os fd resp s)
unfolding put_resp_in_queue
Inv-answer os b fd resp s v = elim (Option-cases (find fd s.resp_message_map)) [
  | inl e ↦
      rw (e, put_resp_in_queue)
        (Holds-lift_bind (Inv b) (SharedQueue.make_with (os.mutex_init s.log) resp) _ s
          (λ q made. Inv-call b s mutex_init tt v))
  | inr (q, e) ↦ rw (e, put_resp_in_queue) v
]

zeros_length : length (replicate {A = ℕ} buf_size 0) ≡ buf_size
zeros_length = length-replicate {A = ℕ} buf_size 0

Inv-Kept : (os : Os) (b : Server) → Kept os (Inv b)
unfolding close_epoll_server
Inv-Kept os b = record {
  closed = record {
    call = λ s c h v. Inv-call b s c (silent-IsHarmless s c h) v;
    buffer = λ s bytes e v. Inv-buffer b s bytes (e ∙ v.buffer_size) v;
  };
  answer = λ fd req s. Inv-answer os b fd (response os req s) s;
  elect = λ s l v. v;
  sent = λ s fd q resp e first v.
      Inv-call b s (write fd (resp_wire resp)) (resp_wire-IsVoteResp resp) v;
  clear = λ s v. Inv-buffer b s (replicate {A = ℕ} buf_size 0) zeros_length v;
  close = λ s v. v;
}

-- Serving an event keeps the server's sockets, its clients and the size of its buffer, and makes
-- no call that closes the listening socket, the udp socket or a registered client's socket,
-- whatever the kernel and the peers do; each write is of the whole message of a response, and
-- each datagram sent is the udp socket's "got".
pub handle_event-Inv :
    (os : Os) (b : Server) (fuel : ℕ) (event : EpollEvent) (s : Server)
    → Inv b s
    → Holds (Inv b) (handle_event os fuel event s)
handle_event-Inv os b = handle_event_keeps os (Inv b) (Inv-Kept os b)

-- From a state whose buffer has its size, a run of the service, watched for any number of rounds,
-- keeps the server's sockets, its clients and the size of its buffer, whatever the kernel and the
-- peers do: when it has not exited, become undefined or run out of fuel, no call since its start
-- has closed the listening socket, the udp socket or a registered client's socket, each write has been of the
-- whole message of a response whose fields fit their widths, and each datagram sent has been the
-- udp socket's "got".
pub init_service-Inv :
    (os : Os) (fuel rounds : ℕ) (s : Server)
    → length s.recvbuffer ≡ buf_size
    → Holds (Inv s) (init_service os fuel rounds s)
init_service-Inv os fuel rounds s size =
    init_service_keeps os (Inv s) (Inv-Kept os s) fuel rounds s (record {
      same_listenfd = refl;
      same_udpfd = refl;
      same_clients = refl;
      same_clientmap = refl;
      buffer_size = size;
      calls = Since.here;
    })
