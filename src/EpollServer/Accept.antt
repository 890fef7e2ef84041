-- ===== src/EpollServer/Accept.antt =====
-- The parts of the event loop that serve the two listening sockets.
use plib.Base.{ℕ, zero, suc, List, [], ◌∷◌, true, spins, if◌then◌else◌, ok}
use plib.System.{Os, done, failed, Mask, Ctl, accept, recvfrom, sendto, is_positive}
use plib.FdUtils.{set_fd_nonblock}
use plib.Memory.Block.{store}
use plib.EpollServer.State.{
  Server, M, pure, ◌>>=◌, ◌>>◌, lift, get, put, ctl, exit_with, no_events, buf_size,
}

-- EPOLLIN | EPOLLET.
abbrev pub accept_events : Mask
accept_events = record no_events { epollin = true; epollet = true }

-- The body of the accept loop, for a descriptor that accept gave. EXIT_FAILURE is 1.
unfoldable pub add_accepted : Os → ℕ → M (Unit {0})
add_accepted os acceptedfd = do
  s ← get
  put (record s { log = (set_fd_nonblock os acceptedfd s.log).log })
  added ← ctl os Ctl.add acceptedfd (record { events = accept_events; fd = acceptedfd })
  if added then pure tt else exit_with 1

-- while ((acceptedfd = accept(...)) > 0), on fuel. What a failed accept prints is left out.
unfoldable pub accept_all : Os → ℕ → M (Unit {0})
accept_all os zero s = spins
accept_all os (suc fuel) s =
    let t : Server = record s { log = accept s.listenfd ∷ s.log } in
    elim (os.accept s.log) [
      | failed errno ↦ ok (tt, t)
      | done acceptedfd ↦
          (let more : M (Unit {0}) = (do add_accepted os acceptedfd; accept_all os fuel) in
            (if is_positive acceptedfd then more else pure tt) t)
    ]

abbrev pub got : List ℕ
got = b'g' ∷ b'o' ∷ b't' ∷ []

-- A datagram is written to the start of recvbuffer and answered with "got".
unfoldable pub udp_receive : Os → M (Unit {0})
udp_receive os s = elim (os.recvfrom s.log s.udpfd buf_size) [
  | failed errno ↦ ok (tt, record s { log = recvfrom s.udpfd buf_size ∷ s.log })
  | done bytes ↦
      (do
        buffer ← lift (store s.recvbuffer 0 bytes)
        put (record s {
          recvbuffer = buffer;
          log = sendto s.udpfd got ∷ recvfrom s.udpfd buf_size ∷ s.log;
        }))
        s
]
