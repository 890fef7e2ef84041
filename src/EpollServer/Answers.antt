-- ===== src/EpollServer/Answers.antt =====
-- From a vote request to the bytes of its response, in one event.
use plib.Base.{
  ℕ, suc, ◌+◌, ◌≤◌, ◌<◌, ◌≡◌, refl, List, [], ◌∷◌, ◌++◌, Bool, true, false, some, Run, ok, length,
  length-append, ◌==◌, if◌then◌else◌, ==_iff, Bool-cases, Option-cases, inl, inr, arith, ap, sym,
  ◌∙◌,
}
use plib.System.{Os, Log, Call, Ctl, EpollEvent, epoll_ctl}
use plib.StdMap.{find}
use plib.Vote.{ReqeustVoteReq, ReqeustVoteResp}
use plib.Vote.Wire.{IsVoteReq, req_wire}
use plib.EpollServer.State.{Server, M, pure, >>=-run, buf_size}
use plib.EpollServer.Registry.Queues.{queued, items, writes}
use plib.EpollServer.Read.{epoll_read, eagain}
use plib.EpollServer.Read.Chunks.{Feeds, joined, reads_log}
use plib.EpollServer.Read.Requests.{Serves, asked, response, epoll_read_request}
use plib.EpollServer.Write.{send_all, epoll_write}
use plib.EpollServer.Write.Sends.{WritesAll, written, send_all_fifo}
use plib.EpollServer.Service.{serve_client}

-- EPOLLIN alone is asked for again.
abbrev pub rearmed : EpollEvent → Call
rearmed event =
    epoll_ctl Ctl.mod_ event.fd
      (record { events = record event.events { epollout = false; epollin = true }; fd = event.fd })

pub if_run :
    {A : Type 0} (c : Bool) (m n : M A) (s : Server) (r : Run (A × Server))
    → c ≡ true
    → m s ≡ r
    → (if c then m else n) s ≡ r
if_run true m n s r e h = h
if_run false m n s r e h = cc

-- Emptied after it was changed, a queue is empty.
emptied :
    (fd j : ℕ) (rs old now : List ReqeustVoteResp) (t : List ReqeustVoteResp)
    → now ≡ (if fd == j then rs else old)
    → t ≡ (if fd == j then [] else now)
    → t ≡ (if fd == j then [] else old)
emptied fd j rs old now t h k = elim (Bool-cases (fd == j)) [
  | inl e ↦ k ∙ rw e refl
  | inr e ↦ k ∙ rw e (h ∙ rw e refl)
]

module _ (os : Os) where
  pub epoll_write_sends :
      (fuel : ℕ) (event : EpollEvent) (s : Server) (rs : List ReqeustVoteResp)
      → WritesAll os
      → Serves os
      → find event.fd s.resp_message_map ≡ some (record { queue = rs })
      → length rs < suc (suc fuel)
      → (t : Server) × (epoll_write os (suc (suc fuel)) event s ≡ ok (tt, t))
        × (t.log ≡ rearmed event ∷ written event.fd rs s.log)
        × ((j : ℕ) → queued t j ≡ (if event.fd == j then [] else queued s j))
  unfolding epoll_write
  epoll_write_sends fuel event s rs all (taken, made) found enough =
      let f = suc (suc fuel) in
      let (t, run, log, rest) = send_all_fifo os fuel f event.fd s rs all found enough in
      (
        record t { log = rearmed event ∷ t.log },
        rw (found, epoll_write)
            (>>=-run (send_all os f f event.fd) _ s t tt run
              ∙ rw (taken t.log Ctl.mod_ event.fd _) refl),
        ap (λ log. rearmed event ∷ log) log,
        rest,
      )

  -- A queue that is not empty is there.
  pub queue_there :
      (fd : ℕ) (s : Server) (rs : List ReqeustVoteResp) (r : ReqeustVoteResp)
      → queued s fd ≡ rs ++ r ∷ []
      → find fd s.resp_message_map ≡ some (record { queue = rs ++ r ∷ [] })
  queue_there fd s rs r e = elim (Option-cases (find fd s.resp_message_map)) [
    | inl none_there ↦
        absurd (omega (arith, ap length (sym (ap items none_there) ∙ e), length-append rs (r ∷ [])))
    | inr (q, there) ↦ there ∙ ap (λ xs. some (record { queue = xs })) (sym (ap items there) ∙ e)
  ]

  -- One event with input and output serves a vote request from its first byte to the response's
  -- last: when the request, with fields of their widths, arrives in any number of parts before a
  -- read that would block, the kernel takes the changes of the interest list and each write
  -- whole, and mutexes can be made, the service writes what was queued for the descriptor and
  -- then the response, and nothing else, asks for input alone, and leaves that queue empty and the
  -- others as they were. As many rounds as there are parts, or responses with the new one, and one more are
  -- enough, and two at the least.
  pub serve_client_answers :
      (fuel : ℕ) (event : EpollEvent) (r : ReqeustVoteReq) (more : List ℕ) (cs : List (List ℕ))
      (s : Server)
      → event.events.epollin ≡ true
      → event.events.epollout ≡ true
      → Serves os
      → WritesAll os
      → IsVoteReq r
      → length s.recvbuffer ≡ buf_size
      → Feeds os event.fd cs eagain s.log
      → joined cs ≡ req_wire r ++ more
      → length (joined cs) ≤ buf_size
      → length cs < suc (suc fuel)
      → length (queued s event.fd) + 1 < suc (suc fuel)
      → (t : Server) × (serve_client os (suc (suc fuel)) event s ≡ ok (tt, t))
        × ((before : Log) × (t.log
              ≡ rearmed event
                ∷ written event.fd
                    (queued s event.fd
                      ++ response os r
                          (record s { log = asked event ∷ reads_log event.fd cs s.log })
                        ∷ [])
                    before)
            × (writes before ≡ writes s.log))
        × ((j : ℕ) → queued t j ≡ (if event.fd == j then [] else queued s j))
  unfolding serve_client
  serve_client_answers fuel event r more cs s input output serves all valid size feeds parts fits
        enough room =
      let f = suc (suc fuel) in
      let resp = response os r (record s { log = asked event ∷ reads_log event.fd cs s.log }) in
      let rs = queued s event.fd ++ resp ∷ [] in
      let (s1, read_run, after, same) =
        epoll_read_request os f event r more cs s serves valid size feeds parts fits enough in
      let own : (event.fd == event.fd) ≡ true = (==_iff event.fd event.fd).1 refl in
      let at_fd : queued s1 event.fd ≡ rs =
        after event.fd ∙ ap (λ b. if b then rs else queued s event.fd) own in
      let there = queue_there event.fd s1 (queued s event.fd) resp at_fd in
      let (t, write_run, log, rest) =
        epoll_write_sends fuel event s1 rs all serves there
          (omega (arith, length-append (queued s event.fd) (resp ∷ []))) in
      (
        t,
        >>=-run (if event.events.epollin then epoll_read os f event else pure true) _ s s1 true
              (if_run event.events.epollin (epoll_read os f event) (pure true) s _ input read_run)
            ∙ if_run event.events.epollout (epoll_write os f event) (pure tt) s1 _ output write_run,
        (s1.log, log, same),
        λ j. emptied event.fd j rs (queued s j) (queued s1 j) (queued t j) (after j) (rest j),
      )
