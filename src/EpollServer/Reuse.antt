-- ===== src/EpollServer/Reuse.antt =====
-- A descriptor that is closed with responses queued, and given to the next connection.
use plib.Base.{
  ℕ, suc, ◌+◌, ◌≤◌, ◌<◌, ◌≡◌, refl, List, [], ◌∷◌, ◌++◌, map, true, false, none, ok, length,
  length-append, length-replicate, replicate, ◌==◌, ==_iff, if◌then◌else◌, arith, ap, ◌∙◌,
}
use plib.System.{
  Os, Mask, EpollEvent, Ctl, done, failed, is_positive, accept, close, epoll_ctl, epoll_wait,
}
use plib.StdMap.{find}
use plib.FdUtils.{set_fd_nonblock}
use plib.FdUtils.Laws.{set_fd_nonblock_log}
use plib.Vote.{ReqeustVoteReq}
use plib.Vote.Wire.{IsVoteReq, req_wire, resp_wire}
use plib.EpollServer.State.{Server, M, pure, ◌>>◌, >>=-run, no_events, buf_size}
use plib.EpollServer.Registry.{rm_bad_fd, rm_client_fd, drop_fd}
use plib.EpollServer.Registry.Queues.{queued, writes}
use plib.EpollServer.Accept.{accept_events, accept_all, add_accepted}
use plib.EpollServer.Read.{epoll_read, eagain}
use plib.EpollServer.Read.Chunks.{Feeds, joined, reads_log}
use plib.EpollServer.Read.Requests.{Serves, asked, response, epoll_read_request}
use plib.EpollServer.Write.{epoll_write}
use plib.EpollServer.Write.Sends.{WritesAll}
use plib.EpollServer.Delivery.Order.{to, to-written}
use plib.EpollServer.Answers.{if_run, queue_there, epoll_write_sends}
use plib.EpollServer.Service.{serve_client, is_bad, handle_event, handle_events, serve_round}

-- A round: epoll_wait is called and the buffer cleared.
abbrev waited : Server → Server
waited s = record s { log = epoll_wait ∷ s.log; recvbuffer = replicate buf_size 0 }

-- The descriptor is taken out of the interest list and closed.
abbrev pub dropped : ℕ → Server → Server
dropped fd s = record s {
  log = close fd ∷ epoll_ctl Ctl.del fd (record { events = no_events; fd = fd }) ∷ s.log;
}

-- One connection has been accepted and is watched.
abbrev pub admitted : Os → ℕ → Server → Server
admitted os fd s = record s {
  log =
      epoll_ctl Ctl.add fd (record { events = accept_events; fd = fd })
      ∷ (set_fd_nonblock os fd (accept s.listenfd ∷ s.log)).log;
}

-- The accept loop has ended.
abbrev pub arrived : Os → ℕ → Server → Server
arrived os fd s = record (admitted os fd s) { log = accept s.listenfd ∷ (admitted os fd s).log }

module _ (os : Os) (fuel : ℕ) where
  one_event :
      (event : EpollEvent) (s t : Server)
      → os.epoll_wait s.log ≡ done (event ∷ [])
      → handle_event os fuel event (waited s) ≡ ok (tt, t)
      → serve_round os fuel s ≡ ok (tt, t)
  unfolding serve_round handle_events
  one_event event s t e run =
      rw (e, serve_round)
        (>>=-run (handle_event os fuel event) (λ _. handle_events os fuel []) (waited s) t tt run)

  hangup_drops :
      (mask : Mask) (fd : ℕ) (s : Server)
      → is_bad mask ≡ true
      → (fd == s.listenfd) ≡ false
      → (fd == s.udpfd) ≡ false
      → find fd s.clientmap ≡ none
      → handle_event os fuel (record { events = mask; fd = fd }) s ≡ ok (tt, dropped fd s)
  unfolding handle_event rm_bad_fd rm_client_fd drop_fd
  hangup_drops mask fd s bad listening udp client =
      rw bad (rw (listening, udp) (rw (client, rm_client_fd) refl))

  added :
      (fd : ℕ) (s : Server)
      → Serves os
      → add_accepted os fd (record s { log = accept s.listenfd ∷ s.log })
        ≡ ok (tt, admitted os fd s)
  unfolding add_accepted
  added fd s (taken, made) =
      let logged = (set_fd_nonblock os fd (accept s.listenfd ∷ s.log)).log in
      rw (taken logged Ctl.add fd (record { events = accept_events; fd = fd })) refl

  arrival_admits :
      (fd errno : ℕ) (s : Server)
      → Serves os
      → os.accept s.log ≡ done fd
      → is_positive fd ≡ true
      → os.accept (admitted os fd s).log ≡ failed errno
      → accept_all os (suc (suc fuel)) s ≡ ok (tt, arrived os fd s)
  unfolding accept_all
  arrival_admits fd errno s serves e pos last =
      let t : Server = record s { log = accept s.listenfd ∷ s.log } in
      rw (e, accept_all)
        (rw pos (
          >>=-run (add_accepted os fd) (λ _. accept_all os (suc fuel)) t (admitted os fd s) tt
            (added fd s serves)
          ∙ rw (last, accept_all) refl))

  arrival_handled :
      (fd : ℕ) (s t : Server)
      → accept_all os fuel s ≡ ok (tt, t)
      → handle_event os fuel (record { events = accept_events; fd = s.listenfd }) s ≡ ok (tt, t)
  unfolding handle_event is_bad
  arrival_handled fd s t run = rw ((==_iff s.listenfd s.listenfd).1 refl) run

  input_handled :
      (mask : Mask) (fd : ℕ) (s t : Server)
      → is_bad mask ≡ false
      → mask.epollin ≡ true
      → mask.epollout ≡ false
      → (fd == s.listenfd) ≡ false
      → (fd == s.udpfd) ≡ false
      → epoll_read os fuel (record { events = mask; fd = fd }) s ≡ ok (true, t)
      → handle_event os fuel (record { events = mask; fd = fd }) s ≡ ok (tt, t)
  unfolding handle_event serve_client
  input_handled mask fd s t good input output listening udp run =
      let event : EpollEvent = record { events = mask; fd = fd } in
      rw (good, listening, udp)
        (>>=-run (if mask.epollin then epoll_read os fuel event else pure true) _ s t true
            (if_run mask.epollin (epoll_read os fuel event) (pure true) s _ input run)
          ∙ ap (λ b. (if b then epoll_write os fuel event else pure tt) t) output)

-- The server of a descriptor that neither is its own nor a client's, on rounds of epoll_wait with
-- one event each.
module _ (os : Os) (fuel fd errno : ℕ) (hangup input : Mask) (s : Server) where
  abbrev after_hangup : Server
  after_hangup = dropped fd (waited s)

  abbrev after_arrival : Server
  after_arrival = arrived os fd (waited after_hangup)

  -- When the kernel takes every change of the interest list and each write whole, and mutexes can
  -- be made; a descriptor that is neither the server's nor a client's hangs up, its number is given
  -- to the next connection, after which no other waits to be accepted, and this one sends a vote
  -- request, with fields of their widths, in any number of parts before a read that would block and
  -- no more than the buffer holds; and epoll_wait reports these three one at a time: then three
  -- rounds close the old connection, accept the new one and queue the response to it behind what
  -- waited for the old one; and sending the queue of the descriptor, as when its socket takes output,
  -- writes what was meant for the old connection and then the response. As many rounds of fuel as
  -- there are parts, or responses with the new one, and one more are enough, and two at the least.
  pub reused_descriptor :
      (r : ReqeustVoteReq) (more : List ℕ) (cs : List (List ℕ)) (output : Mask)
      → Serves os
      → WritesAll os
      → (fd == s.listenfd) ≡ false
      → (fd == s.udpfd) ≡ false
      → find fd s.clientmap ≡ none
      → is_positive fd ≡ true
      → is_bad hangup ≡ true
      → os.epoll_wait s.log ≡ done (record { events = hangup; fd = fd } ∷ [])
      → os.epoll_wait after_hangup.log
        ≡ done (record { events = accept_events; fd = s.listenfd } ∷ [])
      → os.accept (waited after_hangup).log ≡ done fd
      → os.accept (admitted os fd (waited after_hangup)).log ≡ failed errno
      → is_bad input ≡ false
      → input.epollin ≡ true
      → input.epollout ≡ false
      → os.epoll_wait after_arrival.log ≡ done (record { events = input; fd = fd } ∷ [])
      → IsVoteReq r
      → Feeds os fd cs eagain (waited after_arrival).log
      → joined cs ≡ req_wire r ++ more
      → length (joined cs) ≤ buf_size
      → length cs < suc (suc fuel)
      → length (queued s fd) + 1 < suc (suc fuel)
      → let rounds : M (Unit {0}) = (do
        serve_round os (suc (suc fuel))
        serve_round os (suc (suc fuel))
        serve_round os (suc (suc fuel))) in
        let asking : EpollEvent = record { events = input; fd = fd } in
        let resp =
          response os r
            (record s { log = asked asking ∷ reads_log fd cs (waited after_arrival).log }) in
        (t : Server) × (rounds s ≡ ok (tt, t))
        × (queued t fd ≡ queued s fd ++ resp ∷ [])
        × (writes t.log ≡ writes s.log)
        × ((u : Server) × (epoll_write os (suc (suc fuel)) (record { events = output; fd = fd }) t
              ≡ ok (tt, u))
            × (to fd (writes u.log)
                ≡ to fd (writes s.log) ++ map resp_wire (queued s fd ++ resp ∷ [])))
  reused_descriptor r more cs output serves all listening udp client pos bad wait1 wait2 given
        none_left good in_ no_out wait3 valid feeds parts fits enough room =
      let f = suc (suc fuel) in
      let asking : EpollEvent = record { events = input; fd = fd } in
      let s3 = waited after_arrival in
      let resp = response os r (record s { log = asked asking ∷ reads_log fd cs s3.log }) in
      let (t, read, after, same) =
        epoll_read_request os f asking r more cs s3 serves valid
          (length-replicate {A = ℕ} buf_size 0) feeds parts fits enough in
      let round1 =
        one_event os f (record { events = hangup; fd = fd }) s after_hangup wait1
          (hangup_drops os f hangup fd (waited s) bad listening udp client) in
      let round2 =
        one_event os f (record { events = accept_events; fd = s.listenfd }) after_hangup
          after_arrival wait2
          (arrival_handled os f fd (waited after_hangup) after_arrival
            (arrival_admits os fuel fd errno (waited after_hangup) serves given pos none_left)) in
      let round3 =
        one_event os f asking after_arrival t wait3
          (input_handled os f input fd s3 t good in_ no_out listening udp read) in
      let own : (fd == fd) ≡ true = (==_iff fd fd).1 refl in
      let at_fd : queued t fd ≡ queued s fd ++ resp ∷ [] =
        after fd ∙ ap (λ b. if b then queued s fd ++ resp ∷ [] else queued s fd) own in
      let there = queue_there os fd t (queued s fd) resp at_fd in
      let written_rs = queued s fd ++ resp ∷ [] in
      let (u, wrote, log, _) =
        epoll_write_sends os fuel (record { events = output; fd = fd }) t written_rs all serves
          there (omega (arith, length-append (queued s fd) (resp ∷ []))) in
      let quiet : writes t.log ≡ writes s.log =
        same
        ∙ ap writes (set_fd_nonblock_log os fd (accept s.listenfd ∷ (waited after_hangup).log)) in
      (
        t,
        >>=-run (serve_round os f) (λ _. (do serve_round os f; serve_round os f)) s after_hangup tt
              round1
            ∙ >>=-run (serve_round os f) (λ _. serve_round os f) after_hangup after_arrival tt
                round2
            ∙ round3,
        at_fd,
        quiet,
        (
          u,
          wrote,
          ap (λ l. to fd (writes l)) log
              ∙ to-written fd written_rs t.log
              ∙ ap (λ ws. to fd ws ++ map resp_wire written_rs) quiet,
        ),
      )
