-- ===== src/EpollServer/Safety/Service.antt =====
-- What a whole event, a round and the loop keep.
use plib.Base.{
  ℕ, zero, suc, ◌≡◌, List, [], ◌∷◌, true, ◌&&◌, some, Run, ◌==◌, if◌then◌else◌, replicate,
  Bool-cases, inl, inr,
}
use plib.System.{Os, Ret-cases, EpollEvent, epoll_wait, write}
use plib.SharedQueue
use plib.SharedQueue.{SharedQueue}
use plib.StdMap.{find, assign}
use plib.Vote.{ReqeustVoteReq, ReqeustVoteResp}
use plib.Vote.Wire.{resp_wire}
use plib.ElectionLogic.{ElectionLogic}
use plib.EpollServer.State.{Server, pure, buf_size}
use plib.EpollServer.Registry.{rm_bad_fd, put_resp_in_queue, close_epoll_server}
use plib.EpollServer.Accept.{accept_all, udp_receive}
use plib.EpollServer.Read.{epoll_read}
use plib.EpollServer.Read.Requests.{response}
use plib.EpollServer.Write.{epoll_write}
use plib.EpollServer.Service.{
  is_bad, serve_client, handle_event, handle_events, serve_round, see_close, service_loop,
  init_service,
}
use plib.EpollServer.Safety.Rules.{Closed, Holds, Holds-bind, Holds-if, Holds-if_run}
use plib.EpollServer.Safety.Registry.{rm_bad_fd_keeps}
use plib.EpollServer.Safety.Accept.{accept_all_keeps, udp_receive_keeps}
use plib.EpollServer.Safety.Read.{epoll_read_keeps}
use plib.EpollServer.Safety.Write.{epoll_write_keeps}

-- The property is kept by each kind of change that the service makes to the state.
pub record Kept (os : Os) (P : Server → Type 0) : Type 0 where
  pub closed : Closed P
  pub answer :
      (fd : ℕ) (req : ReqeustVoteReq) (s : Server)
      → P s
      → Holds P (put_resp_in_queue os fd (response os req s) s)
  pub elect : (s : Server) (l : ElectionLogic) → P s → P (record s { election_logic = l })
  pub sent :
      (s : Server) (fd : ℕ) (q : SharedQueue ReqeustVoteResp) (resp : ReqeustVoteResp)
      → find fd s.resp_message_map ≡ some q
      → SharedQueue.front q ≡ some resp
      → P s
      → P (record s {
        resp_message_map = assign fd (SharedQueue.pop_front q) s.resp_message_map;
        log = write fd (resp_wire resp) ∷ s.log;
      })
  pub clear : (s : Server) → P s → P (record s { recvbuffer = replicate buf_size 0 })
  pub close : (s : Server) → P s → P (close_epoll_server s)

-- The same for one event, before which P holds and after which Q does.
pub record Moved (os : Os) (P Q : Server → Type 0) : Type 0 where
  pub before : Closed P
  pub after : Closed Q
  pub weaker : (s : Server) → P s → Q s
  pub answer :
      (fd : ℕ) (req : ReqeustVoteReq) (s : Server)
      → P s
      → Holds Q (put_resp_in_queue os fd (response os req s) s)
  pub elect : (s : Server) (l : ElectionLogic) → P s → Q (record s { election_logic = l })
  pub sent :
      (s : Server) (fd : ℕ) (q : SharedQueue ReqeustVoteResp) (resp : ReqeustVoteResp)
      → find fd s.resp_message_map ≡ some q
      → SharedQueue.front q ≡ some resp
      → Q s
      → Q (record s {
        resp_message_map = assign fd (SharedQueue.pop_front q) s.resp_message_map;
        log = write fd (resp_wire resp) ∷ s.log;
      })

module _ (os : Os) (P Q : Server → Type 0) (moved : Moved os P Q) where
  serve_client_moves :
      (fuel : ℕ) (event : EpollEvent) (s : Server) → P s → Holds Q (serve_client os fuel event s)
  unfolding serve_client
  serve_client_moves fuel event s v =
      Holds-bind Q Q (if event.events.epollin then epoll_read os fuel event else pure true) _ s
        (Holds-if_run Q event.events.epollin (epoll_read os fuel event) (pure true) s
          (epoll_read_keeps os P Q moved.before moved.weaker moved.answer moved.elect fuel event s
            v)
          (moved.weaker s v))
        λ proceed t w.
          Holds-if_run Q (proceed && event.events.epollout) (epoll_write os fuel event) (pure tt) t
            (epoll_write_keeps os Q moved.after moved.sent fuel event t w) w

  pub handle_event_moves :
      (fuel : ℕ) (event : EpollEvent) (s : Server) → P s → Holds Q (handle_event os fuel event s)
  unfolding handle_event
  handle_event_moves fuel event s v =
      let m = event.events.epollin in
      let fd = event.fd in
      let serve = serve_client os fuel event s in
      let udp : Run (Unit {0} × Server) =
        if (fd == s.udpfd) && m then udp_receive os s else serve in
      let w = moved.weaker s v in
      Holds-if Q (is_bad event.events) (rm_bad_fd os fd s)
        (if (fd == s.listenfd) && m then accept_all os fuel s else udp)
        (rm_bad_fd_keeps os Q moved.after fd s w)
        (Holds-if Q ((fd == s.listenfd) && m) (accept_all os fuel s) udp
          (accept_all_keeps os Q moved.after fuel s w)
          (Holds-if Q ((fd == s.udpfd) && m) (udp_receive os s) serve
            (udp_receive_keeps os Q moved.after s w) (serve_client_moves fuel event s v)))

module _ (os : Os) (P : Server → Type 0) (kept : Kept os P) where
  pub handle_event_keeps :
      (fuel : ℕ) (event : EpollEvent) (s : Server) → P s → Holds P (handle_event os fuel event s)
  handle_event_keeps = handle_event_moves os P P (record {
    before = kept.closed;
    after = kept.closed;
    weaker = λ s v. v;
    answer = kept.answer;
    elect = kept.elect;
    sent = kept.sent;
  })

  pub handle_events_keeps :
      (fuel : ℕ) (events : List EpollEvent) (s : Server)
      → P s
      → Holds P (handle_events os fuel events s)
  unfolding handle_events
  handle_events_keeps fuel [] s v = v
  handle_events_keeps fuel (e ∷ es) s v =
      Holds-bind P P (handle_event os fuel e) _ s (handle_event_keeps fuel e s v)
        (λ u t w. handle_events_keeps fuel es t w)

  serve_round_keeps : (fuel : ℕ) (s : Server) → P s → Holds P (serve_round os fuel s)
  unfolding serve_round
  serve_round_keeps fuel s v =
      let t : Server = record s { log = epoll_wait ∷ s.log; recvbuffer = replicate buf_size 0 } in
      let w : P t = kept.closed.call _ epoll_wait tt (kept.clear s v) in
      elim (Ret-cases (os.epoll_wait s.log)) [
        | inl (errno, e) ↦ rw (e, serve_round) w
        | inr (events, e) ↦ rw (e, serve_round) (handle_events_keeps fuel events t w)
      ]

  see_close_keeps : (s : Server) → P s → P (see_close os s)
  unfolding see_close
  see_close_keeps s v = elim (Bool-cases (os.close_requested s.log)) [
    | inl e ↦ rw e (kept.close s v)
    | inr e ↦ rw e v
  ]

  pub service_loop_keeps :
      (fuel rounds : ℕ) (s : Server) → P s → Holds P (service_loop os fuel rounds s)
  unfolding service_loop
  service_loop_keeps fuel zero s v = v
  service_loop_keeps fuel (suc rounds) s v =
      let t = see_close os s in
      let w : P t = see_close_keeps s v in
      Holds-if_run P t.keep_running _ (pure true) t
        (Holds-bind P P (serve_round os fuel) _ t (serve_round_keeps fuel t w)
          (λ u t' w'. service_loop_keeps fuel rounds t' w'))
        w

  pub init_service_keeps :
      (fuel rounds : ℕ) (s : Server) → P s → Holds P (init_service os fuel rounds s)
  unfolding init_service
  init_service_keeps fuel rounds s v = service_loop_keeps fuel rounds _ (kept.clear s v)
