-- ===== src/Starter/Registered.antt =====
-- Every client that the set-up makes is registered under its descriptor.
use plib.Base.{
  ℕ, zero, suc, ◌+◌, ◌-◌, ◌≡◌, refl, List, [], ◌∷◌, ◌++◌, map, none, some, ok, exits, length, set,
  get_elem?, true, false, ◌==◌, ◌||◌, if◌then◌else◌, ==_iff, Bool-cases, Option-cases, inl, inr,
  arith, ap, sym, ◌∙◌, subst,
}
use mathlib.Core.Option.{some-injective}
use plib.System.{Os, is_negative, gethostbyname}
use plib.StateLocalData.{VolatileState}
use plib.ClusterConfig.{load_cluster_config}
use plib.SharedQueue
use plib.StdMap.{find, insert}
use plib.StdMap.Laws.{find-insert, insert_found}
use plib.TcpClient
use plib.TcpClient.{ProtocalClientTcp, do_connect}
use plib.EpollServer.State.{Server, ◌>>=◌, >>=-run, pure, exit_with, max_epoll_size}
use plib.EpollServer.Registry.{connect_client, register_client, add_client_epoll_event}
use plib.EpollServer.Registry.Clients.{get_elem?-set, unconnected, connected, connected_run}
use plib.EpollServer.Setup.{construct}
use plib.EpollServer.Safety.Rules.{Holds, Holds-bind, Holds-if, Holds-if_run, Holds-lift_bind}
use plib.Starter.{
  create_client, register_peer, register_peers, initialize, set_resource_limit, start,
}
use plib.Starter.SetUp.{IsSetUp, construct_keeps}

abbrev pub IsKey : ℕ → List (ℕ × ℕ) → Type 0
IsKey fd m = (p : ℕ) × (find fd m ≡ some p)

-- The descriptor of every client is a key of clientmap.
unfoldable pub Registered : Server → Type 0
Registered s =
    (i : ℕ) (c : ProtocalClientTcp)
    → get_elem? s.tcp_clients i ≡ some c
    → IsKey c.connfd s.clientmap

insert-IsKey : (fd p j : ℕ) (m : List (ℕ × ℕ)) → IsKey j m → IsKey j (insert fd p m)
insert-IsKey fd p j m (q, at) = elim (Option-cases (find fd m)) [
  | inl e ↦ elim (Bool-cases (fd == j)) [
    | inl same ↦ (p, rw (find-insert fd j p m e, same) refl)
    | inr other ↦ (q, rw (find-insert fd j p m e, other) at)
  ]
  | inr (r, e) ↦ (q, rw (insert_found fd p r m e) at)
]

inserted-IsKey : (fd p : ℕ) (m : List (ℕ × ℕ)) → IsKey fd (insert fd p m)
inserted-IsKey fd p m = elim (Option-cases (find fd m)) [
  | inl e ↦ (p, rw (find-insert fd fd p m e, (==_iff fd fd).1 refl) refl)
  | inr (r, e) ↦ (r, rw (insert_found fd p r m e) e)
]

get_elem?-set_other :
    (xs : List ProtocalClientTcp) (i j : ℕ) (d : ProtocalClientTcp)
    → (j == i) ≡ false
    → get_elem? (set xs i d) j ≡ get_elem? xs j
get_elem?-set_other [] i j d h = refl
get_elem?-set_other (x ∷ xs) zero zero d h = cc
get_elem?-set_other (x ∷ xs) zero (suc j) d h = refl
get_elem?-set_other (x ∷ xs) (suc i) zero d h = refl
get_elem?-set_other (x ∷ xs) (suc i) (suc j) d h = get_elem?-set_other xs i j d (ground (arith, h))

get_elem?-last :
    (xs : List ProtocalClientTcp) (c : ProtocalClientTcp)
    → get_elem? (xs ++ c ∷ []) (length xs) ≡ some c
get_elem?-last [] c = refl
get_elem?-last (x ∷ xs) c = get_elem?-last xs c

get_elem?-before :
    (xs : List ProtocalClientTcp) (c : ProtocalClientTcp) (i : ℕ)
    → (i == length xs) ≡ false
    → get_elem? (xs ++ c ∷ []) i ≡ get_elem? xs i
get_elem?-before [] c zero h = cc
get_elem?-before [] c (suc i) h = refl
get_elem?-before (x ∷ xs) c zero h = refl
get_elem?-before (x ∷ xs) c (suc i) h = get_elem?-before xs c i (ground (arith, h))

-- All clients but the one at p are registered.
abbrev AllBut : ℕ → Server → Type 0
AllBut p s =
    (i : ℕ) (c : ProtocalClientTcp)
    → (i == p) ≡ false
    → get_elem? s.tcp_clients i ≡ some c
    → IsKey c.connfd s.clientmap

module _ (os : Os) where
  register_client-Registered :
      (p : ℕ) (c : ProtocalClientTcp) (s : Server)
      → get_elem? s.tcp_clients p ≡ some c
      → AllBut p s
      → Holds Registered (register_client os p s)
  unfolding register_client add_client_epoll_event Registered connect_client
  register_client-Registered p c s there others =
      elim (Bool-cases (is_negative (do_connect os c s.log).result)) [
        | inl down ↦ rw (unconnected os p c s there down) tt
        | inr up ↦
            let client = (do_connect os c s.log).client in
            let t = connected os p c s in
            let found : get_elem? t.tcp_clients p ≡ some client =
              get_elem?-set s.tcp_clients p c client there in
            let entered : (i : ℕ) (d : ProtocalClientTcp)
                → get_elem? t.tcp_clients i ≡ some d
                → IsKey d.connfd (insert client.connfd p s.clientmap) =
              λ i d at. elim (Bool-cases (i == p)) [
                | inl same ↦
                    let here : get_elem? t.tcp_clients i ≡ some client =
                      ap (get_elem? t.tcp_clients) ((==_iff i p).0 same) ∙ found in
                    let new : client ≡ d = some-injective client d (sym here ∙ at) in
                    subst (λ x. IsKey x.connfd (insert client.connfd p s.clientmap)) new
                      (inserted-IsKey client.connfd p s.clientmap)
                | inr other ↦ insert-IsKey client.connfd p d.connfd s.clientmap (
                    others i d other
                      (sym (get_elem?-set_other s.tcp_clients p i client other) ∙ at))
              ] in
            rw (connected_run os p c s there up) (
              rw (found, ◌>>=◌)
                (Holds-lift_bind Registered (SharedQueue.make (os.mutex_init t.log)) _ t
                  (λ q made. entered)))
      ]

  created : ℕ → ℕ → Server → Server
  created found k s = record s {
    tcp_clients = s.tcp_clients ++ record { connfd = found; node = k } ∷ [];
    log = gethostbyname ∷ s.log;
  }

  create_client_run :
      (found k : ℕ) (s : Server)
      → os.gethostbyname s.log ≡ true
      → create_client os found k s ≡ ok (length s.tcp_clients, created found k s)
  unfolding create_client TcpClient.make created
  create_client_run found k s e = rw (e, create_client) refl

  register_peer-Registered :
      (found k : ℕ) (s : Server) → Registered s → Holds Registered (register_peer os found k s)
  unfolding register_peer create_client TcpClient.make created Registered
  register_peer-Registered found k s h = elim (Bool-cases (os.gethostbyname s.log)) [
    | inl e ↦
        let c : ProtocalClientTcp = record { connfd = found; node = k } in
        subst (Holds Registered)
          (sym (
            >>=-run (create_client os found k) (register_client os) s _ _
              (create_client_run found k s e)))
          (register_client-Registered (length s.tcp_clients) c (created found k s)
            (get_elem?-last s.tcp_clients c)
            (λ i d other at. h i d (sym (get_elem?-before s.tcp_clients c i other) ∙ at)))
    | inr e ↦ rw (e, create_client, Holds) tt
  ]

  register_peers-Registered :
      (found : ℕ → ℕ) (nodeid : ℕ) (config : List VolatileState) (k : ℕ) (s : Server)
      → Registered s
      → Holds Registered (register_peers os found nodeid config k s)
  unfolding register_peers
  register_peers-Registered found nodeid [] k s h = h
  register_peers-Registered found nodeid (n ∷ ns) k s h =
      Holds-bind Registered Registered
        (if n.nodeid == nodeid then pure tt else register_peer os (found k) k) _ s
        (Holds-if_run Registered (n.nodeid == nodeid) (pure tt) (register_peer os (found k) k) s h
          (register_peer-Registered (found k) k s h))
        (λ u t w. register_peers-Registered found nodeid ns (k + 1) t w)

no_clients : (cs : List ProtocalClientTcp) → map (λ c. c.node) cs ≡ [] → cs ≡ []
no_clients [] e = refl
no_clients (c ∷ cs) e = cc

IsSetUp-Registered : (buffer : List ℕ) (s : Server) → IsSetUp [] buffer s → Registered s
unfolding IsSetUp Registered
IsSetUp-Registered buffer s h i c at =
    let none_at : none ≡ some c =
      ap (λ cs. get_elem? cs i) (sym (no_clients s.tcp_clients h.0)) ∙ at in
    absurd cc

module _ (os : Os) (buffer : List ℕ) where
  initialize-Registered :
      (found : ℕ → ℕ) (nodeid : ℕ) (config : List VolatileState) (s : Server)
      → IsSetUp [] buffer s
      → Holds Registered (initialize os found nodeid config s)
  unfolding initialize
  initialize-Registered found nodeid config s h =
      elim (Option-cases (get_elem? config (nodeid - 1))) [
        | inl e ↦ rw (e, initialize) tt
        | inr (n, e) ↦
            rw (e, initialize)
              (Holds-bind (IsSetUp [] buffer) Registered (construct os n.serv_port _)
                (λ u. register_peers os found nodeid config 0) s
                (construct_keeps os [] buffer n.serv_port _ s h)
                (λ u t w.
                  register_peers-Registered os found nodeid config 0 t
                    (IsSetUp-Registered buffer t w)))
      ]

  pub start-Registered :
      (found : ℕ → ℕ) (memory : ℕ → VolatileState) (nodeid : ℕ) (s : Server)
      → IsSetUp [] buffer s
      → Holds Registered (start os found memory nodeid s)
  unfolding start set_resource_limit IsSetUp
  start-Registered found memory nodeid s h =
      Holds-bind (IsSetUp [] buffer) Registered (set_resource_limit os max_epoll_size) _ s
        (Holds-if (IsSetUp [] buffer) (os.setrlimit s.log max_epoll_size) _ (exits 255) h tt)
        λ u t w.
          Holds-if_run Registered (is_negative nodeid || (nodeid == 0)) (exit_with 255)
            (initialize os found nodeid (load_cluster_config memory)) t tt
            (initialize-Registered found nodeid (load_cluster_config memory) t w)
