-- ===== src/EpollServer/Total/Loop.antt =====
-- The fuel of whole rounds of the service, and its end when another thread asks for it.
use plib.Base.{
  Ends, ℕ, suc, ◌+◌, ◌≤◌, ◌<◌, ◌≡◌, refl, List, [], ◌∷◌, some, length, length-append, ◌==◌, arith,
  Bool-cases, inl, inr, subst, sym, length-replicate,
}
use plib.System.{Os, Log, Ret-cases, EpollEvent, Since, done}
use plib.SharedQueue
use plib.SharedQueue.{SharedQueue}
use plib.StdMap.{find, assign}
use plib.StdMap.Laws.{find-assign}
use plib.Vote.{ReqeustVoteResp}
use plib.EpollServer.State.{Server, buf_size}
use plib.EpollServer.Registry.{put_resp_in_queue}
use plib.EpollServer.Registry.Queues.{queued, items, put_resp_in_queue_cases}
use plib.EpollServer.Read.Requests.{response}
use plib.EpollServer.Service.{handle_event, handle_events, serve_round}
use plib.EpollServer.Safety.Rules.{Holds, Holds-bind, Holds-map, Holds-both}
use plib.EpollServer.Safety.Service.{handle_event_moves}
use plib.EpollServer.Safety.Sockets.{Inv, handle_event-Inv}
use plib.EpollServer.Total.Rules.{Ends-bind}
use plib.EpollServer.Total.Accept.{Pending}
use plib.EpollServer.Total.Service.{handle_event-Ends}

-- No descriptor has more than n responses queued.
abbrev pub Short : ℕ → Server → Type 0
Short n s = (fd : ℕ) → length (queued s fd) ≤ n

Ready : ℕ → Server → Type 0
Ready n s = (length s.recvbuffer ≡ buf_size) × Short n s

module _ (os : Os) where
  answer-Short :
      (n at : ℕ) (resp : ReqeustVoteResp) (s : Server)
      → Short n s
      → Holds (Short (suc n)) (put_resp_in_queue os at resp s)
  answer-Short n at resp s h = elim (put_resp_in_queue_cases os at resp s) [
    | inl e ↦ rw e tt
    | inr (t, e, after, _) ↦ rw e λ fd.
        subst (λ q. length q ≤ suc n) (sym (after fd))
          (elim (Bool-cases (at == fd)) [
            | inl same ↦ rw (same, length-append (queued s at) (resp ∷ [])) (omega (arith, h at))
            | inr other ↦ rw other (omega (arith, h fd))
          ])
  ]

  pop_front_shortens :
      (n : ℕ) (q : SharedQueue ReqeustVoteResp)
      → length q.queue ≤ n
      → length (SharedQueue.pop_front q).queue ≤ n
  unfolding SharedQueue.pop_front
  pop_front_shortens n q h = go q.queue h
    where
      go :
          (rs : List ReqeustVoteResp)
          → length rs ≤ n
          → length (SharedQueue.pop_front (record { queue = rs })).queue ≤ n
      go [] k = k
      go (r ∷ rs) k = omega (arith, k)

  sent-Short :
      (n : ℕ) (s : Server) (fd : ℕ) (q : SharedQueue ReqeustVoteResp)
      → find fd s.resp_message_map ≡ some q
      → Short n s
      → Short n
          (record s { resp_message_map = assign fd (SharedQueue.pop_front q) s.resp_message_map })
  sent-Short n s fd q e h at =
      rw (find-assign fd at (SharedQueue.pop_front q) q s.resp_message_map e)
        (elim (Bool-cases (fd == at)) [
          | inl same ↦ rw same (pop_front_shortens n q (subst (λ o. length (items o) ≤ n) e (h fd)))
          | inr other ↦ rw other (h at)
        ])

  handle_event-Short :
      (n fuel : ℕ) (event : EpollEvent) (s : Server)
      → Short n s
      → Holds (Short (suc n)) (handle_event os fuel event s)
  handle_event-Short n fuel event s =
      handle_event_moves os (Short n) (Short (suc n))
        (record {
          before = record { call = λ t c harmless h. h; buffer = λ t bytes size h. h };
          after = record { call = λ t c harmless h. h; buffer = λ t bytes size h. h };
          weaker = λ t h fd. omega (arith, h fd);
          answer = λ at req t. answer-Short n at (response os req t) t;
          elect = λ t l h fd. omega (arith, h fd);
          sent = λ t fd q resp e first. sent-Short (suc n) t fd q e;
        })
        fuel event s

  handle_event-Ready :
      (n fuel : ℕ) (event : EpollEvent) (s : Server)
      → Ready n s
      → Holds (Ready (suc n)) (handle_event os fuel event s)
  unfolding Ready
  handle_event-Ready n fuel event s (size, short) =
      Holds-both (λ t. length t.recvbuffer ≡ buf_size) (Short (suc n)) _
        (Holds-map (Inv s) (λ t. length t.recvbuffer ≡ buf_size) _ (λ t v. v.buffer_size)
          (handle_event-Inv os s fuel event s (record {
            same_listenfd = refl;
            same_udpfd = refl;
            same_clients = refl;
            same_clientmap = refl;
            buffer_size = size;
            calls = Since.here;
          })))
        (handle_event-Short n fuel event s short)

-- epoll_wait gives at most `width` events at a time.
abbrev pub Bounded : Os → ℕ → Type 0
Bounded os width =
    (log : Log) (events : List EpollEvent) → os.epoll_wait log ≡ done events → length events ≤ width

-- The fuel is above the connections that ever arrive and above the size of the buffer.
module _ (os : Os) (bound fuel : ℕ) (pending : Pending os bound) (arrivals : bound < fuel)
    (room : buf_size < fuel) where
  handle_events-Ends :
      (n : ℕ) (events : List EpollEvent) (s : Server)
      → Ready n s
      → n + length events < fuel
      → Ends (handle_events os fuel events s)
  unfolding handle_events Ready
  handle_events-Ends n [] s ready enough = tt
  handle_events-Ends n (e ∷ es) s ready enough =
      Ends-bind (Ready (suc n)) (handle_event os fuel e) _ s
        (handle_event-Ends os bound fuel e s pending ready.0 arrivals room
          (omega (arith, ready.1 e.fd, enough)))
        (handle_event-Ready os n fuel e s ready)
        (λ u t w. handle_events-Ends (suc n) es t w (omega (arith, enough)))

  handle_events-Ready :
      (n : ℕ) (events : List EpollEvent) (s : Server)
      → Ready n s
      → Holds (Ready (n + length events)) (handle_events os fuel events s)
  unfolding handle_events Ready
  handle_events-Ready n [] s ready = (ready.0, λ fd. omega (arith, ready.1 fd))
  handle_events-Ready n (e ∷ es) s ready =
      Holds-bind (Ready (suc n)) (Ready (n + length (e ∷ es))) (handle_event os fuel e) _ s
        (handle_event-Ready os n fuel e s ready)
        (λ u t w.
          Holds-map (Ready (suc n + length es)) (Ready (n + length (e ∷ es))) _
            (λ v h. (h.0, λ fd. omega (arith, h.1 fd))) (handle_events-Ready (suc n) es t w))

  module _ (width : ℕ) (bounded : Bounded os width) where
    pub serve_round-Ends :
        (n : ℕ) (s : Server) → Short n s → n + width < fuel → Ends (serve_round os fuel s)
    unfolding serve_round Ready
    serve_round-Ends n s short enough = elim (Ret-cases (os.epoll_wait s.log)) [
      | inl (errno, e) ↦ rw (e, serve_round, Ends) tt
      | inr (events, e) ↦
          rw (e, serve_round)
            (handle_events-Ends n events _ (length-replicate {A = ℕ} buf_size 0, short)
              (omega (arith, bounded s.log events e, enough)))
    ]

    pub serve_round-Short :
        (n : ℕ) (s : Server) → Short n s → Holds (Short (n + width)) (serve_round os fuel s)
    unfolding serve_round Ready
    serve_round-Short n s short = elim (Ret-cases (os.epoll_wait s.log)) [
      | inl (errno, e) ↦ rw (e, serve_round, Holds) (λ fd. omega (arith, short fd))
      | inr (events, e) ↦
          let fits = bounded s.log events e in
          rw (e, serve_round)
            (Holds-map (Ready (n + length events)) (Short (n + width)) _
              (λ t h fd. omega (arith, h.1 fd, fits))
              (handle_events-Ready n events _ (length-replicate {A = ℕ} buf_size 0, short)))
    ]
