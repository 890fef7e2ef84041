-- ===== src/Starter/SetUp.antt =====
-- What the set-up of a node keeps of its clients and of the buffer.
use plib.Base.{
  ℕ, zero, suc, ◌≡◌, refl, List, [], ◌∷◌, map, Bool, true, false, some, get_elem?, set,
  Option-cases, Bool-cases, inl, inr, arith, ap, subst, ◌∙◌, sym,
}
use mathlib.Core.Option.{some-injective}
use plib.System.{Os, Log, Ret-cases, Kind, stream, dgram, is_negative}
use plib.ElectionLogic.{ElectionLogic}
use plib.SharedQueue
use plib.TcpClient.{ProtocalClientTcp, do_connect, close_conn_socket}
use plib.EpollServer.Registry.Clients.{connected_run}
use plib.EpollServer.State.{Server, deref, pure, ◌>>=◌}
use plib.EpollServer.Registry.{connect_client, register_client, add_client_epoll_event}
use plib.EpollServer.Setup.{
  construct, open_sockets, open_socket, bind_port, watch_sockets, set_nonblock, require,
}
use plib.EpollServer.Safety.Rules.{Holds, Holds-bind, Holds-if_run, Holds-lift_bind}

-- The nodes of the clients, and the buffer.
unfoldable pub IsSetUp : List ℕ → List ℕ → Server → Type 0
IsSetUp nodes buffer s = (map (λ c. c.node) s.tcp_clients ≡ nodes) × (s.recvbuffer ≡ buffer)

module _ (os : Os) (nodes buffer : List ℕ) where
  open_socket_keeps :
      (kind : Kind) (s : Server)
      → IsSetUp nodes buffer s
      → Holds (IsSetUp nodes buffer) (open_socket os kind s)
  unfolding open_socket IsSetUp
  open_socket_keeps kind s h = elim (Ret-cases (os.socket s.log kind)) [
    | inl (errno, e) ↦ rw (e, open_socket) tt
    | inr (fd, e) ↦ rw (e, open_socket) h
  ]

  require_keeps :
      (c : Bool) (code : ℕ) (s : Server)
      → IsSetUp nodes buffer s
      → Holds (IsSetUp nodes buffer) (require c code s)
  require_keeps true code s h = h
  require_keeps false code s h = tt

  set_nonblock_keeps :
      (listenfd udpfd : ℕ) (s : Server)
      → IsSetUp nodes buffer s
      → Holds (IsSetUp nodes buffer) (set_nonblock os listenfd udpfd s)
  unfolding set_nonblock IsSetUp
  set_nonblock_keeps listenfd udpfd s h = h

  bind_port_keeps :
      (fd port : ℕ) (s : Server)
      → IsSetUp nodes buffer s
      → Holds (IsSetUp nodes buffer) (bind_port os fd port s)
  unfolding bind_port IsSetUp
  bind_port_keeps fd port s h = require_keeps (os.bind s.log fd) 255 _ h

  open_sockets_keeps :
      (port : ℕ) (s : Server)
      → IsSetUp nodes buffer s
      → Holds (IsSetUp nodes buffer) (open_sockets os port s)
  unfolding open_sockets IsSetUp
  open_sockets_keeps port s h =
      let P = IsSetUp nodes buffer in
      Holds-bind P P (open_socket os stream) _ s (open_socket_keeps stream s h) λ listenfd s1 h1.
        Holds-bind P P (open_socket os dgram) _ s1 (open_socket_keeps dgram s1 h1) λ udpfd s2 h2.
          Holds-bind P P (set_nonblock os listenfd udpfd) _ _
            (set_nonblock_keeps listenfd udpfd _ h2)
            λ u3 s3 h3.
              Holds-bind P P (bind_port os listenfd port) _ s3 (bind_port_keeps listenfd port s3 h3)
                λ u4 s4 h4.
                  Holds-bind P P (require (os.listen s4.log listenfd) 255) _ _
                    (require_keeps (os.listen s4.log listenfd) 255 _ h4)
                    λ u5 s5 h5.
                      Holds-bind P P (bind_port os udpfd port) _ s5
                        (bind_port_keeps udpfd port s5 h5) (λ u6 s6 h6. h6)

  watch_sockets_keeps :
      (s : Server) → IsSetUp nodes buffer s → Holds (IsSetUp nodes buffer) (watch_sockets os s)
  unfolding watch_sockets IsSetUp
  watch_sockets_keeps s h =
      let P = IsSetUp nodes buffer in
      Holds-bind P P (require (os.epoll_ctl s.log _ s.listenfd _) 255) _ _
        (require_keeps (os.epoll_ctl s.log _ s.listenfd _) 255 _ h)
        (λ u t w. require_keeps _ 255 _ w)

  pub construct_keeps :
      (port : ℕ) (l : ElectionLogic) (s : Server)
      → IsSetUp nodes buffer s
      → Holds (IsSetUp nodes buffer) (construct os port l s)
  unfolding construct IsSetUp
  construct_keeps port l s h =
      Holds-bind (IsSetUp nodes buffer) (IsSetUp nodes buffer) (open_sockets os port) _ _
        (open_sockets_keeps port _ h) (λ u t w. watch_sockets_keeps t w)

-- A client's descriptor may change, and not its node.
map-set :
    (xs : List ProtocalClientTcp) (p : ℕ) (c d : ProtocalClientTcp)
    → get_elem? xs p ≡ some c
    → d.node ≡ c.node
    → map (λ c. c.node) (set xs p d) ≡ map (λ c. c.node) xs
map-set [] p c d at same = refl
map-set (x ∷ xs) zero c d at same =
    ap (λ n. n ∷ map (λ c. c.node) xs) (same ∙ ap (λ c. c.node) (sym (some-injective x c at)))
map-set (x ∷ xs) (suc p) c d at same = ap (◌∷◌ x.node) (map-set xs p c d at same)

do_connect-node :
    (os : Os) (c : ProtocalClientTcp) (log : Log) → (do_connect os c log).client.node ≡ c.node
unfolding do_connect
do_connect-node os c log = ground arith

module _ (os : Os) (nodes buffer : List ℕ) where
  deref_keeps :
      (p : ℕ) (s : Server) → IsSetUp nodes buffer s → Holds (IsSetUp nodes buffer) (deref p s)
  deref_keeps p s h = elim (Option-cases (get_elem? s.tcp_clients p)) [
    | inl e ↦ rw (e, deref) tt
    | inr (c, e) ↦ rw (e, deref) h
  ]

  connect_client_keeps :
      (p : ℕ) (s : Server)
      → IsSetUp nodes buffer s
      → Holds (IsSetUp nodes buffer) (connect_client os p s)
  unfolding connect_client close_conn_socket IsSetUp
  connect_client_keeps p s h = elim (Option-cases (get_elem? s.tcp_clients p)) [
    | inl e ↦ rw (e, ◌>>=◌) tt
    | inr (c, e) ↦ elim (Bool-cases (is_negative (do_connect os c s.log).result)) [
      | inl down ↦ rw (e, ◌>>=◌) (rw (down, ◌>>=◌) tt)
      | inr up ↦
          subst (Holds (IsSetUp nodes buffer)) (sym (connected_run os p c s e up))
            (map-set s.tcp_clients p c _ e (do_connect-node os c s.log) ∙ h.0, h.1)
    ]
  ]

  pub register_client_keeps :
      (p : ℕ) (s : Server)
      → IsSetUp nodes buffer s
      → Holds (IsSetUp nodes buffer) (register_client os p s)
  unfolding register_client add_client_epoll_event IsSetUp
  register_client_keeps p s h =
      let P = IsSetUp nodes buffer in
      Holds-bind P P (connect_client os p) _ s (connect_client_keeps p s h) λ connected t w.
        Holds-bind P P (deref p) _ t (deref_keeps p t w) λ client u v.
          Holds-lift_bind P (SharedQueue.make (os.mutex_init u.log)) _ u
            λ q made. Holds-if_run P connected (add_client_epoll_event os client) (pure tt) _ v v
