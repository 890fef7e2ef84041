-- ===== src/EpollServer/Setup/Listening.antt =====
-- What the constructor has done when it is through.
use plib.Base.{ℕ, ◌≡◌, refl, [], ◌∷◌, Bool, true, false, inl, inr, ap, subst}
use plib.System.{
  Os, Log, Ret-cases, Ctl, Kind, bind, listen, epoll_create, epoll_ctl, stream, dgram,
}
use plib.ElectionLogic.{ElectionLogic}
use plib.EpollServer.State.{Server}
use plib.EpollServer.Setup.{
  require, open_socket, set_nonblock, bind_port, listening, open_sockets, watch_sockets, construct,
}
use plib.EpollServer.Safety.Rules.{Holds, Holds-bind}

-- The service is to run, and knows no clients yet.
abbrev pub IsFresh : Server → Type 0
IsFresh s = (s.keep_running ≡ true) × (s.clientmap ≡ []) × (s.resp_message_map ≡ [])

-- The calls from the binding of the listening socket l on, and of the udp socket u.
abbrev pub bound_log : ℕ → ℕ → Log → Log
bound_log port l log = bind l port ∷ log

abbrev pub listen_log : ℕ → ℕ → Log → Log
listen_log port l log = listen l 128 ∷ bind l port ∷ log

abbrev pub opened_log : ℕ → ℕ → ℕ → Log → Log
opened_log port l u log = epoll_create 1000 ∷ bind u port ∷ listen l 128 ∷ bind l port ∷ log

abbrev pub watched_log : ℕ → ℕ → ℕ → Log → Log
watched_log port l u log =
    epoll_ctl Ctl.add u (listening u) ∷ epoll_ctl Ctl.add l (listening l) ∷ opened_log port l u log

module _ (os : Os) (port : ℕ) where
  Bound : ℕ → Server → Type 0
  Bound l s = (log : Log) × (s.log ≡ bound_log port l log) × (os.bind log l ≡ true)

  Listens : ℕ → Server → Type 0
  Listens l s =
      (log : Log) × (s.log ≡ listen_log port l log)
      × (os.bind log l ≡ true)
      × (os.listen (bound_log port l log) l ≡ true)

  BothBound : ℕ → ℕ → Server → Type 0
  BothBound l u s =
      (log : Log) × (s.log ≡ bind u port ∷ listen_log port l log)
      × ((os.bind log l ≡ true)
          × (os.listen (bound_log port l log) l ≡ true)
          × (os.bind (listen_log port l log) u ≡ true))

  -- Both sockets are bound and the listening socket listens.
  pub Opened : Server → Type 0
  Opened s =
      let l = s.listenfd in
      let u = s.udpfd in
      (log : Log) × (s.log ≡ opened_log port l u log)
      × (s.epfd ≡ os.epoll_create (bind u port ∷ listen_log port l log))
      × ((os.bind log l ≡ true)
          × (os.listen (bound_log port l log) l ≡ true)
          × (os.bind (listen_log port l log) u ≡ true))

  FirstWatched : Server → Type 0
  FirstWatched s =
      let l = s.listenfd in
      let u = s.udpfd in
      (log : Log) × (s.log ≡ epoll_ctl Ctl.add l (listening l) ∷ opened_log port l u log)
      × (s.epfd ≡ os.epoll_create (bind u port ∷ listen_log port l log))
      × ((os.bind log l ≡ true)
          × (os.listen (bound_log port l log) l ≡ true)
          × (os.bind (listen_log port l log) u ≡ true))
      × (os.epoll_ctl (opened_log port l u log) Ctl.add l (listening l) ≡ true)

  -- And both are watched.
  pub Watched : Server → Type 0
  Watched s =
      let l = s.listenfd in
      let u = s.udpfd in
      (log : Log) × (s.log ≡ watched_log port l u log)
      × (s.epfd ≡ os.epoll_create (bind u port ∷ listen_log port l log))
      × ((os.bind log l ≡ true)
          × (os.listen (bound_log port l log) l ≡ true)
          × (os.bind (listen_log port l log) u ≡ true))
      × (os.epoll_ctl (opened_log port l u log) Ctl.add l (listening l) ≡ true)
      × (os.epoll_ctl (epoll_ctl Ctl.add l (listening l) ∷ opened_log port l u log) Ctl.add u
            (listening u)
          ≡ true)

  Holds-require :
      (Q : Server → Type 0) (c : Bool) (code : ℕ) (s : Server)
      → (c ≡ true → Q s)
      → Holds Q (require c code s)
  Holds-require Q true code s h = h refl
  Holds-require Q false code s h = tt

  open_socket-IsFresh :
      (kind : Kind) (s : Server) → IsFresh s → Holds IsFresh (open_socket os kind s)
  unfolding open_socket
  open_socket-IsFresh kind s h = elim (Ret-cases (os.socket s.log kind)) [
    | inl (errno, e) ↦ rw (e, open_socket) tt
    | inr (fd, e) ↦ rw (e, open_socket) h
  ]

  set_nonblock-IsFresh : (l u : ℕ) (s : Server) → IsFresh s → Holds IsFresh (set_nonblock os l u s)
  unfolding set_nonblock
  set_nonblock-IsFresh l u s h = h

  open_sockets-Opened :
      (s : Server) → IsFresh s → Holds (λ t. IsFresh t × Opened t) (open_sockets os port s)
  unfolding open_sockets bind_port Bound Listens BothBound Opened
  open_sockets-Opened s h =
      let Q = λ (t : Server). IsFresh t × Opened t in
      Holds-bind IsFresh Q (open_socket os stream) _ s (open_socket-IsFresh stream s h) λ l s1 h1.
        Holds-bind IsFresh Q (open_socket os dgram) _ s1 (open_socket-IsFresh dgram s1 h1)
          λ u s2 h2.
            Holds-bind IsFresh Q (set_nonblock os l u) _ _ (set_nonblock-IsFresh l u _ h2)
              λ u3 s3 h3.
                Holds-bind (λ t. IsFresh t × Bound l t) Q (bind_port os l port) _ s3
                  (Holds-require (λ t. IsFresh t × Bound l t) (os.bind s3.log l) 255 _
                    (λ b. (h3, (s3.log, refl, b))))
                  λ u4 s4 h4.
                    Holds-bind (λ t. IsFresh t × Listens l t) Q (require (os.listen s4.log l) 255) _
                      _
                      (Holds-require (λ t. IsFresh t × Listens l t) (os.listen s4.log l) 255 _
                        (λ b.
                          let (fresh, (log, e, bound)) = h4 in
                          (
                            fresh,
                            (
                              log,
                              ap (◌∷◌ (listen l 128)) e,
                              bound,
                              subst (λ x. os.listen x l ≡ true) e b,
                            ),
                          )))
                      λ u5 s5 h5.
                        Holds-bind (λ t. IsFresh t × BothBound l u t) Q (bind_port os u port) _ s5
                          (Holds-require (λ t. IsFresh t × BothBound l u t) (os.bind s5.log u) 255 _
                            (λ b.
                              let (fresh, (log, e, bound, listens)) = h5 in
                              (
                                fresh,
                                (
                                  log,
                                  ap (◌∷◌ (bind u port)) e,
                                  (bound, listens, subst (λ x. os.bind x u ≡ true) e b),
                                ),
                              )))
                          λ u6 s6 h6.
                            let (fresh, (log, e, facts)) = h6 in
                            (
                              fresh,
                              (log, ap (◌∷◌ (epoll_create 1000)) e, ap os.epoll_create e, facts),
                            )

  watch_sockets-Watched :
      (s : Server) → IsFresh s → Opened s → Holds (λ t. IsFresh t × Watched t) (watch_sockets os s)
  unfolding watch_sockets Opened FirstWatched Watched
  watch_sockets-Watched s fresh (log, e, made, facts) =
      let l = s.listenfd in
      let u = s.udpfd in
      let Q = λ (t : Server). IsFresh t × Watched t in
      let P = λ (t : Server). IsFresh t × FirstWatched t × (t.udpfd ≡ u) in
      Holds-bind P Q (require (os.epoll_ctl s.log Ctl.add l (listening l)) 255) _ _
        (Holds-require P (os.epoll_ctl s.log Ctl.add l (listening l)) 255 _ (λ b. (
          fresh,
          (
            log,
            ap (◌∷◌ (epoll_ctl Ctl.add l (listening l))) e,
            made,
            facts,
            subst (λ x. os.epoll_ctl x Ctl.add l (listening l) ≡ true) e b,
          ),
          refl,
        )))
        λ u1 t (fresh', (log', e', made', facts', first), same).
          let second = t.udpfd in
          subst
            (λ v. Holds Q (
              require (os.epoll_ctl t.log Ctl.add v (listening v)) 255
                (record t { log = epoll_ctl Ctl.add v (listening v) ∷ t.log })))
            same
            (Holds-require Q (os.epoll_ctl t.log Ctl.add second (listening second)) 255 _ (λ b. (
              fresh',
              (
                log',
                ap (◌∷◌ (epoll_ctl Ctl.add second (listening second))) e',
                made',
                facts',
                first,
                subst (λ x. os.epoll_ctl x Ctl.add second (listening second) ≡ true) e' b,
              ),
            )))

  -- When the constructor does not exit, the service is to run and knows no clients, and the last
  -- calls have bound the listening socket to the port, made it listen, bound the udp socket to the
  -- port, called epoll_create and added both sockets to the watched ones. The binds, the listen and
  -- the additions have succeeded; epfd is what epoll_create returned, which is not checked.
  pub construct-Watched :
      (election_logic : ElectionLogic) (raw : Server)
      → Holds (λ t. IsFresh t × Watched t) (construct os port election_logic raw)
  unfolding construct
  construct-Watched election_logic raw =
      Holds-bind (λ t. IsFresh t × Opened t) (λ t. IsFresh t × Watched t) (open_sockets os port) _ _
        (open_sockets-Opened _ (refl, refl, refl))
        (λ u t (fresh, opened). watch_sockets-Watched t fresh opened)
