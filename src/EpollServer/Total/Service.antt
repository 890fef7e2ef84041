-- ===== src/EpollServer/Total/Service.antt =====
-- The fuel of the service of an event.
use plib.Base.{
  Ends, Ends-if, ℕ, zero, suc, ◌+◌, ◌≤◌, ◌<◌, ◌≡◌, [], ◌∷◌, true, ◌&&◌, Run, length, length-append,
  ◌==◌, if◌then◌else◌, arith, Bool-cases, inl, inr, subst, sym, ==_iff,
}
use plib.System.{Os, Ret-cases, EpollEvent}
use plib.Memory.Block.{store, store-Ends}
use plib.Vote.{ReqeustVoteResp}
use plib.EpollServer.State.{Server, pure, buf_size}
use plib.EpollServer.Registry.{put_resp_in_queue}
use plib.EpollServer.Registry.Queues.{queued, put_resp_in_queue_cases}
use plib.EpollServer.Accept.{udp_receive}
use plib.EpollServer.Read.{epoll_read}
use plib.EpollServer.Read.Requests.{response}
use plib.EpollServer.Write.{epoll_write}
use plib.EpollServer.Service.{is_bad, serve_client, handle_event}
use plib.EpollServer.Safety.Rules.{Holds, Holds-if_run}
use plib.EpollServer.Safety.Read.{epoll_read_keeps}
use plib.EpollServer.Total.Rules.{Ends-bind, Ends-lift_bind, Ends-if_run}
use plib.EpollServer.Total.Read.{epoll_read-Ends, rm_bad_fd-Ends}
use plib.EpollServer.Total.Write.{epoll_write-Ends}
use plib.EpollServer.Total.Accept.{Pending, accept_all-Ends}

AtMost : ℕ → ℕ → Server → Type 0
AtMost fd n s = length (queued s fd) ≤ n

module _ (os : Os) where
  answer_grows :
      (fd n at : ℕ) (resp : ReqeustVoteResp) (s : Server)
      → AtMost fd n s
      → Holds (AtMost fd (suc n)) (put_resp_in_queue os at resp s)
  unfolding AtMost
  answer_grows fd n at resp s h = elim (put_resp_in_queue_cases os at resp s) [
    | inl e ↦ rw e tt
    | inr (t, e, after, _) ↦ rw e (
        subst (λ q. length q ≤ suc n) (sym (after fd))
          (elim (Bool-cases (at == fd)) [
            | inl same ↦
                rw (same, length-append (queued s at) (resp ∷ []))
                  (subst (λ x. length (queued s x) + 1 ≤ suc n) (sym ((==_iff at fd).0 same))
                    (omega arith))
            | inr other ↦ rw other (omega arith)
          ]))
  ]

  -- Reading a message queues at most one response.
  read_grows :
      (fuel : ℕ) (event : EpollEvent) (n : ℕ) (s : Server)
      → AtMost event.fd n s
      → Holds (AtMost event.fd (suc n)) (epoll_read os fuel event s)
  unfolding AtMost
  read_grows fuel event n s h =
      epoll_read_keeps os (AtMost event.fd n) (AtMost event.fd (suc n))
        (record { call = λ t c harmless h. h; buffer = λ t bytes size h. h })
        (λ t h. omega (arith, h)) (λ at req t. answer_grows event.fd n at (response os req t) t)
        (λ t l h. omega (arith, h)) fuel event s h

  udp_receive-Ends : (s : Server) → Ends (udp_receive os s)
  unfolding udp_receive
  udp_receive-Ends s = elim (Ret-cases (os.recvfrom s.log s.udpfd buf_size)) [
    | inl (errno, e) ↦ rw (e, udp_receive, Ends) tt
    | inr (bytes, e) ↦
        rw (e, udp_receive)
          (Ends-lift_bind (store s.recvbuffer 0 bytes) _ s (store-Ends s.recvbuffer 0 bytes)
            (λ buffer stored. tt))
  ]

  serve_client-Ends :
      (fuel : ℕ) (event : EpollEvent) (s : Server)
      → length s.recvbuffer ≡ buf_size
      → buf_size < fuel
      → length (queued s event.fd) + 1 < fuel
      → Ends (serve_client os fuel event s)
  unfolding serve_client AtMost
  serve_client-Ends zero event s size room enough = elim room [ ]
  serve_client-Ends (suc zero) event s size room enough = absurd (omega arith)
  serve_client-Ends (suc (suc fuel)) event s size room enough =
      let f = suc (suc fuel) in
      Ends-bind (AtMost event.fd (suc (length (queued s event.fd))))
        (if event.events.epollin then epoll_read os f event else pure true) _ s
        (Ends-if_run event.events.epollin (epoll_read os f event) (pure true) s
          (epoll_read-Ends os f event s size room) tt)
        (Holds-if_run _ event.events.epollin (epoll_read os f event) (pure true) s
          (read_grows f event (length (queued s event.fd)) s (omega arith)) (omega arith))
        λ proceed t w.
          Ends-if_run (proceed && event.events.epollout) (epoll_write os f event) (pure tt) t
            (epoll_write-Ends os fuel event t (omega (arith, w))) tt

  -- When the buffer has its size and no more than `bound` connections ever arrive, fuel above that
  -- bound, above the size of the buffer and for a round for each queued response and two more is
  -- enough: serving an event does not run out of it, whatever the event is and the kernel answers.
  pub handle_event-Ends :
      (bound fuel : ℕ) (event : EpollEvent) (s : Server)
      → Pending os bound
      → length s.recvbuffer ≡ buf_size
      → bound < fuel
      → buf_size < fuel
      → length (queued s event.fd) + 1 < fuel
      → Ends (handle_event os fuel event s)
  unfolding handle_event
  handle_event-Ends bound fuel event s pending size arrivals room enough =
      let other : Run (Unit {0} × Server) =
        if (event.fd == s.udpfd) && event.events.epollin
        then udp_receive os s
        else serve_client os fuel event s in
      Ends-if (is_bad event.events) _ _ (rm_bad_fd-Ends os event.fd s) (
        Ends-if ((event.fd == s.listenfd) && event.events.epollin) _ other
          (accept_all-Ends os bound fuel s pending arrivals)
          (Ends-if ((event.fd == s.udpfd) && event.events.epollin) _ _ (udp_receive-Ends s)
            (serve_client-Ends fuel event s size room enough)))
