-- ===== src/EpollServer/Registry/Clients.antt =====
-- The registration of the clients under their descriptors.
use plib.Base.{
  ℕ, zero, suc, ◌≡◌, refl, List, [], ◌∷◌, true, false, Option, none, some, ok, undefined, ◌⊎◌, set,
  get_elem?, ◌==◌, if◌then◌else◌, arith, Bool-cases, Option-cases, inl, inr, ◌∙◌, ap,
}
use plib.System.{Os, Log, Ctl, stream, done, is_negative, epoll_ctl, mutex_init}
use plib.SharedQueue
use plib.SharedQueue.{SharedQueue}
use plib.StdMap.{find, insert}
use plib.StdMap.Laws.{find-insert, insert_found}
use plib.TcpClient.{ProtocalClientTcp, do_connect, close_conn_socket}
use plib.TcpClient.Connect.{do_connect_connfd}
use plib.EpollServer.State.{Server, ◌>>=◌, >>=-run}
use plib.Vote.{ReqeustVoteResp}
use plib.EpollServer.Registry.Queues.{queued, items}
use plib.EpollServer.Registry.{
  connect_client, register_client, add_client_epoll_event, client_events,
}

pub get_elem?-set :
    (xs : List ProtocalClientTcp) (i : ℕ) (c d : ProtocalClientTcp)
    → get_elem? xs i ≡ some c
    → get_elem? (set xs i d) i ≡ some d
get_elem?-set [] i c d h = cc
get_elem?-set (x ∷ xs) zero c d h = refl
get_elem?-set (x ∷ xs) (suc i) c d h = get_elem?-set xs i c d h

-- A client that cannot be connected is closed, by a function that does not return properly.
pub unconnected :
    (os : Os) (p : ℕ) (c : ProtocalClientTcp) (s : Server)
    → get_elem? s.tcp_clients p ≡ some c
    → is_negative (do_connect os c s.log).result ≡ true
    → register_client os p s ≡ undefined
unfolding register_client connect_client close_conn_socket
unconnected os p c s there down = rw (there, ◌>>=◌) (rw (down, ◌>>=◌) refl)

-- The state after a connection.
abbrev pub connected : Os → ℕ → ProtocalClientTcp → Server → Server
connected os p c s = record s {
  tcp_clients = set s.tcp_clients p (do_connect os c s.log).client;
  log = (do_connect os c s.log).log;
}

pub connected_run :
    (os : Os) (p : ℕ) (c : ProtocalClientTcp) (s : Server)
    → get_elem? s.tcp_clients p ≡ some c
    → is_negative (do_connect os c s.log).result ≡ false
    → connect_client os p s ≡ ok (true, connected os p c s)
unfolding connect_client
connected_run os p c s there up = rw (there, ◌>>=◌) (rw (up, ◌>>=◌) (rw up refl))

module _ (os : Os) (p fd : ℕ) (c : ProtocalClientTcp) (s : Server)
    (there : get_elem? s.tcp_clients p ≡ some c) (opened : os.socket s.log stream ≡ done fd)
    (up : is_negative (do_connect os c s.log).result ≡ false) where
  -- The state after the connection.
  tried : Server
  tried = record s {
    tcp_clients = set s.tcp_clients p (record c { connfd = fd });
    log = (do_connect os c s.log).log;
  }

  connect_client_lem : connect_client os p s ≡ ok (true, tried)
  unfolding tried
  connect_client_lem =
      connected_run os p c s there up ∙ rw (do_connect_connfd os c s.log fd opened) refl

  -- The state with the client registered, and then with its socket watched if it is connected.
  entered : Server
  unfolding tried
  entered = record tried {
    clientmap = insert fd p s.clientmap;
    resp_message_map = insert fd (record { queue = [] }) s.resp_message_map;
    log = mutex_init ∷ tried.log;
  }

  watched : Server
  unfolding entered
  watched = record entered {
    log = epoll_ctl Ctl.add fd (record { events = client_events; fd = fd }) ∷ entered.log;
  }

  register_client_run : os.mutex_init tried.log ≡ true → register_client os p s ≡ ok (tt, watched)
  unfolding register_client watched entered tried add_client_epoll_event SharedQueue.make
  register_client_run made =
      let found : get_elem? tried.tcp_clients p ≡ some (record c { connfd = fd }) =
        get_elem?-set s.tcp_clients p c (record c { connfd = fd }) there in
      >>=-run (connect_client os p) _ s tried true connect_client_lem
      ∙ rw (found, ◌>>=◌) (rw (made, ◌>>=◌) refl)

  watched_fields :
      (watched.clientmap ≡ insert fd p s.clientmap)
      × (watched.resp_message_map ≡ insert fd (record { queue = [] }) s.resp_message_map)
  unfolding watched entered tried
  watched_fields = (refl, refl)

-- The client that stays registered where p is to be.
abbrev pub first_of : Option ℕ → ℕ → ℕ
first_of none p = p
first_of (some q) p = q

find-insert_first :
    (fd j p : ℕ) (m : List (ℕ × ℕ))
    → find j (insert fd p m) ≡ (if fd == j then some (first_of (find fd m) p) else find j m)
find-insert_first fd j p m = elim (Option-cases (find fd m)) [
  | inl e ↦ rw (find-insert fd j p m e, e) refl
  | inr (q, e) ↦ rw (insert_found fd p q m e, e) (ground (arith, e))
]

queued-insert :
    (fd j : ℕ) (m : List (ℕ × SharedQueue ReqeustVoteResp))
    → items (find j (insert fd (record { queue = [] }) m)) ≡ items (find j m)
queued-insert fd j m = elim (Option-cases (find fd m)) [
  | inl e ↦ rw (find-insert fd j (record { queue = [] }) m e) (ground (arith, e))
  | inr (q, e) ↦ rw (insert_found fd (record { queue = [] }) q m e) refl
]

-- For a client whose socket the kernel opens, and where mutexes can be made: if it cannot be
-- connected, the behaviour is undefined, since closeConnSocket lacks its return statement; if it is
-- connected, it is registered under the descriptor unless another client already is, which stays;
-- the other descriptors keep their clients; and what is queued for any descriptor stays, for the
-- new socket's too.
pub register_client_first :
    (os : Os) (p fd : ℕ) (c : ProtocalClientTcp) (s : Server)
    → get_elem? s.tcp_clients p ≡ some c
    → os.socket s.log stream ≡ done fd
    → ((log : Log) → os.mutex_init log ≡ true)
    → ((is_negative (do_connect os c s.log).result ≡ true) × (register_client os p s ≡ undefined))
      ⊎ ((is_negative (do_connect os c s.log).result ≡ false)
          × ((t : Server) × (register_client os p s ≡ ok (tt, t))
              × ((j : ℕ)
                  → find j t.clientmap ≡ (
                      if fd == j
                      then some (first_of (find fd s.clientmap) p)
                      else find j s.clientmap))
              × ((j : ℕ) → queued t j ≡ queued s j)))
register_client_first os p fd c s there opened made =
    elim (Bool-cases (is_negative (do_connect os c s.log).result)) [
      | inl down ↦ inl (down, unconnected os p c s there down)
      | inr up ↦
          let (clients, queues) = watched_fields os p fd c s there opened up in
          inr (
            up,
            (
              watched os p fd c s there opened up,
              register_client_run os p fd c s there opened up (made _),
              λ j. ap (find j) clients ∙ find-insert_first fd j p s.clientmap,
              λ j. ap (λ m. items (find j m)) queues ∙ queued-insert fd j s.resp_message_map,
            ),
          )
    ]
