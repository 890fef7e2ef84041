-- ===== src/EpollServer/Write/Sends.antt =====
-- What a response becomes on its socket.
use plib.Base.{
  ℕ, zero, suc, ◌<◌, ◌≡◌, refl, List, [], ◌∷◌, some, ok, length, ◌==◌, if◌then◌else◌, arith, ◌∙◌,
  ltb, true, ◌⊎◌, inl, inr,
}
use plib.System.{Os, Log, done, write, failed}
use plib.SharedQueue
use plib.SharedQueue.{SharedQueue}
use plib.StdMap.{find, assign}
use plib.StdMap.Laws.{find-assign}
use plib.Packet.{request_vote_response}
use plib.Packet.Wire.{compress-wire}
use plib.Vote.{ReqeustVoteResp, resp_image}
use plib.Vote.Wire.{compress_vote_resp_lem, resp_wire}
use plib.EpollServer.State.{Server, ◌>>◌, >>=-run}
use plib.EpollServer.Registry.Queues.{queued}
use plib.EpollServer.Read.{eagain}
use plib.EpollServer.Write.{write_loop, send_resp, send_all}

-- Sending a response writes the 36 bytes of its message.
pub send_resp_lem :
    (os : Os) (fuel fd : ℕ) (resp : ReqeustVoteResp) (s : Server)
    → send_resp os fuel fd resp s ≡ write_loop os fuel fd (resp_wire resp) 36 s
unfolding send_resp
send_resp_lem os fuel fd resp s = rw (
  compress_vote_resp_lem (os.junk s.log) resp
      (record { msgtype = request_vote_response; length = 0; body = [] }),
  compress-wire (os.junk s.log)
      (record { msgtype = request_vote_response; length = 27; body = resp_image resp })
      (omega arith),
)

-- The kernel takes all the bytes of each write.
abbrev pub WritesAll : Os → Type 0
WritesAll os = (log : Log) (fd : ℕ) (bytes : List ℕ) → os.write log fd bytes ≡ done (length bytes)

send_resp_all :
    (os : Os) (fuel fd : ℕ) (resp : ReqeustVoteResp) (s : Server)
    → WritesAll os
    → send_resp os (suc (suc fuel)) fd resp s
      ≡ ok (tt, record s { log = write fd (resp_wire resp) ∷ s.log })
unfolding write_loop
send_resp_all os fuel fd resp s all =
    rw (send_resp_lem os (suc (suc fuel)) fd resp s) (rw (all s.log fd (resp_wire resp)) refl)

-- The log after messages have been written, the last on top.
abbrev pub written : ℕ → List ReqeustVoteResp → Log → Log
written fd [] log = log
written fd (r ∷ rs) log = written fd rs (write fd (resp_wire r) ∷ log)

popped : Server → ℕ → List ReqeustVoteResp → Server
popped s fd rs = record s {
  resp_message_map = assign fd (record { queue = rs }) s.resp_message_map;
}

queued-popped :
    (s : Server) (fd : ℕ) (q : SharedQueue ReqeustVoteResp) (rs : List ReqeustVoteResp) (j : ℕ)
    → find fd s.resp_message_map ≡ some q
    → queued (popped s fd rs) j ≡ (if fd == j then rs else queued s j)
unfolding popped
queued-popped s fd q rs j found =
    rw (find-assign fd j (record { queue = rs }) q s.resp_message_map found) (ground arith)

send_all_step :
    (os : Os) (fuel rounds fd : ℕ) (s : Server) (r : ReqeustVoteResp) (rs : List ReqeustVoteResp)
    → find fd s.resp_message_map ≡ some (record { queue = r ∷ rs })
    → send_all os fuel (suc rounds) fd s
      ≡ (do send_resp os fuel fd r; send_all os fuel rounds fd) (popped s fd rs)
unfolding send_all SharedQueue.front SharedQueue.pop_front popped
send_all_step os fuel rounds fd s r rs found = rw (found, send_all)

-- If the kernel takes each write whole, the queue of a descriptor is sent in its order, one
-- message after the other, and is empty at the end; the other queues stay. As many rounds as
-- there are responses and one more are enough, and two of the loop that writes a message.
pub send_all_fifo :
    (os : Os) (fuel rounds fd : ℕ) (s : Server) (rs : List ReqeustVoteResp)
    → WritesAll os
    → find fd s.resp_message_map ≡ some (record { queue = rs })
    → length rs < rounds
    → (t : Server) × (send_all os (suc (suc fuel)) rounds fd s ≡ ok (tt, t))
      × (t.log ≡ written fd rs s.log)
      × ((j : ℕ) → queued t j ≡ (if fd == j then [] else queued s j))
unfolding send_all SharedQueue.front SharedQueue.pop_front popped
send_all_fifo os fuel zero fd s rs all found enough = elim enough [ ]
send_all_fifo os fuel (suc rounds) fd s [] all found enough =
    (s, rw (found, send_all), refl, λ j. ground (arith, found))
send_all_fifo os fuel (suc rounds) fd s (r ∷ rs) all found enough =
    let s1 = popped s fd rs in
    let s2 : Server = record s1 { log = write fd (resp_wire r) ∷ s.log } in
    let kept : find fd s2.resp_message_map ≡ some (record { queue = rs }) =
      rw (find-assign fd fd (record { queue = rs }) _ s.resp_message_map found) (ground arith) in
    let (t, run, log, rest) = send_all_fifo os fuel rounds fd s2 rs all kept (omega arith) in
    (
      t,
      send_all_step os (suc (suc fuel)) rounds fd s r rs found
          ∙ (>>=-run (send_resp os (suc (suc fuel)) fd r)
                (λ _. send_all os (suc (suc fuel)) rounds fd) s1 s2 tt
                (send_resp_all os fuel fd r s1 all)
              ∙ run),
      log,
      λ j. ground (arith, rest j, queued-popped s fd _ rs j found),
    )

-- A write that takes fewer bytes of a message than its 36, or that would block, is the last for its
-- response: the rest of the message is not written.
pub send_resp_dropped :
    (os : Os) (fuel fd : ℕ) (resp : ReqeustVoteResp) (s : Server)
    → ((n : ℕ) × (n < 36) × (os.write s.log fd (resp_wire resp) ≡ done n))
      ⊎ (os.write s.log fd (resp_wire resp) ≡ failed eagain)
    → send_resp os (suc fuel) fd resp s
      ≡ ok (tt, record s { log = write fd (resp_wire resp) ∷ s.log })
unfolding write_loop
send_resp_dropped os fuel fd resp s (inl (n, few, e)) =
    let short : ltb n 36 ≡ true = ground arith in
    rw (send_resp_lem os (suc fuel) fd resp s) (rw e (rw short refl))
send_resp_dropped os fuel fd resp s (inr e) = rw (send_resp_lem os (suc fuel) fd resp s) (rw e refl)
