-- ===== src/EpollServer/Write.antt =====
-- The EPOLLOUT part of the event loop: sending the queued responses.
pub mod Sends
use plib.Base.{
  ℕ, zero, suc, ◌+◌, ◌-◌, List, [], ◌∷◌, Bool, true, false, not, Option, none, some, Run, ok, exits,
  spins, if◌then◌else◌, ◌==◌, ltb, length, drop,
}
use plib.System.{Os, Ret, done, failed, EpollEvent, Ctl, Call, write}
use plib.Packet.{DataPacket, MessagePacket, compress_data_packet, request_vote_response}
use plib.Vote.{ReqeustVoteResp, compress_vote_resp}
use plib.SharedQueue
use plib.SharedQueue.{SharedQueue}
use plib.StdMap.{find, assign}
use plib.EpollServer.State.{Server, M, pure, ◌>>=◌, ◌>>◌, lift, get, put, record_call, ctl}
use plib.EpollServer.Registry.{rm_bad_fd}
use plib.EpollServer.Read.{eagain}

-- while (writesize > 0), on fuel. A write of fewer bytes than are left ends the loop.
unfoldable pub write_loop : Os → ℕ → ℕ → List ℕ → ℕ → M (Unit {0})
write_loop os zero fd body writesize s = spins
write_loop os (suc fuel) fd body writesize s =
    let left = drop (length body - writesize) body in
    let t : Server = record s { log = write fd left ∷ s.log } in
    let tries : Run (Unit {0} × Server) = elim (os.write s.log fd left) [
      | failed errno ↦ (if errno == eagain then ok (tt, t) else rm_bad_fd os fd t)
      | done nwrite ↦
          (let again : Run (Unit {0} × Server) =
              write_loop os fuel fd body (writesize - nwrite) t in
            if ltb nwrite writesize then ok (tt, t) else again)
    ] in
    if writesize == 0 then ok (tt, s) else tries

-- One response is taken from the queue, serialized and written.
unfoldable pub send_resp : Os → ℕ → ℕ → ReqeustVoteResp → M (Unit {0})
send_resp os fuel fd resp = do
  s ← get
  packet ← lift (
      compress_vote_resp (os.junk s.log) resp
        (record { msgtype = request_vote_response; length = 0; body = [] }))
  sent ← lift (compress_data_packet (os.junk s.log) packet)
  write_loop os fuel fd sent.message.body sent.message.length

-- while (!resp_queue->empty()), on `rounds` of fuel. The queue is the one that the map's entry for
-- the descriptor points to; what the entry holds is looked up in each round.
unfoldable pub send_all : Os → ℕ → ℕ → ℕ → M (Unit {0})
send_all os fuel zero fd s = spins
send_all os fuel (suc rounds) fd s = elim (find fd s.resp_message_map) [
  | none ↦ ok (tt, s)
  | some q ↦ elim (SharedQueue.front q) [
    | none ↦ ok (tt, s)
    | some resp ↦
        (do
          put (record s {
            resp_message_map = assign fd (SharedQueue.pop_front q) s.resp_message_map;
          })
          send_resp os fuel fd resp
          send_all os fuel rounds fd)
          s
  ]
]

-- The EPOLLOUT part: send what is queued, and then ask for EPOLLIN alone.
unfoldable pub epoll_write : Os → ℕ → EpollEvent → M (Unit {0})
epoll_write os fuel event s = elim (find event.fd s.resp_message_map) [
  | none ↦ ok (tt, s)
  | some q ↦
      (do
        send_all os fuel fuel event.fd
        changed ← ctl os Ctl.mod_ event.fd (record {
          events = record event.events { epollout = false; epollin = true };
          fd = event.fd;
        })
        if changed then pure tt else rm_bad_fd os event.fd)
        s
]
