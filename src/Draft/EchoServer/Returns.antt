-- ===== src/Draft/EchoServer/Returns.antt =====
-- How the two versions of the echo server's initService end.
use plib.Base.{
  ℕ, zero, suc, ◌≡◌, refl, List, ◌∷◌, true, inl, inr, Run, ok, undefined, exits, spins, ◌>>=◌,
  Always, Always->>=, Always-any, Always-if, if_both, if◌then◌else◌, Bool-cases, length, drop, ◌++◌,
}
use plib.System.{
  Os, Log, Call, Ret-cases, EpollEvent, Since, Since-trans, close, bind, listen, fcntl_getfd,
  fcntl_setfl, stream, minus_one, setrlimit,
}
use plib.FdUtils.{Returned}
use plib.Draft.EchoServer.{Session, setnonblocking}
use plib.Draft.EchoServer.Loop.{
  open_listener, serve_events, serve_loop, init_service, listen_on, watch_listener, listenq,
  max_epoll_size,
}
use plib.Draft.EchoServer.Update
use plib.Draft.EchoServer.Update.{ProtocalServerUdp}

-- The run does not end normally.
abbrev Never : {A : Type 0} → Run A → Type 0
Never {A} r = Always (λ (a : A). ⊥) r

Never->>= :
    {A B : Type 0} (m : Run A) (f : A → Run B) (P : B → Type 0) → Never m → Always P (m >>= f)
Never->>= m f P h = Always->>= _ P m f h (λ a n. absurd n)

Never-same :
    {A B C : Type 0} (m : Run A) (f : A → Run C) (g : A → Run B) (h : B → Run C)
    → Never m
    → (m >>= f) ≡ ((m >>= g) >>= h)
Never-same (ok a) f g h n = absurd n
Never-same undefined f g h n = refl
Never-same (exits c) f g h n = refl
Never-same spins f g h n = refl

serve_loop-Never :
    (os : Os) (stray : Log → ℕ) (listenfd rounds : ℕ) (events : List EpollEvent) (s : Session)
    → Never (serve_loop os stray listenfd rounds events s)
unfolding serve_loop
serve_loop-Never os stray listenfd zero events s = tt
serve_loop-Never os stray listenfd (suc rounds) events s = elim (Ret-cases (os.epoll_wait s.log)) [
  | inl (errno, e) ↦ rw (e, serve_loop) (serve_loop-Never os stray listenfd rounds events _)
  | inr (found, e) ↦
      rw (e, serve_loop)
        (Always->>= (λ t. Unit {0}) (λ t. ⊥)
          (serve_events os stray listenfd (found ++ drop (length found) events) (length found) _) _
          (Always-any _) (λ t u. serve_loop-Never os stray listenfd rounds _ t))
]

abbrev pub IsNoClose : Call → Type 0
IsNoClose (close fd) = ⊥
IsNoClose _ = Unit {0}

setnonblocking-Since :
    (os : Os) (fd : ℕ) (old log : Log)
    → Since IsNoClose old log
    → Since IsNoClose old (setnonblocking os fd log).log
unfolding setnonblocking
setnonblocking-Since os fd old log h =
    let done : Since IsNoClose old (fcntl_setfl fd _ ∷ fcntl_getfd fd ∷ log) =
      Since.next (Since.next h tt) tt in
    if_both (λ (r : Returned). Since IsNoClose old r.log) _ _ _ done done

listen_on-Since :
    (os : Os) (port fd : ℕ) (old log : Log)
    → Since IsNoClose old log
    → Since IsNoClose old (listen_on os port fd log).log
unfolding listen_on watch_listener
listen_on-Since os port fd old log h =
    let bound : Since IsNoClose old (bind fd port ∷ log) = Since.next h tt in
    let listening : Since IsNoClose old (listen fd listenq ∷ bind fd port ∷ log) =
      Since.next bound tt in
    let watched : Since IsNoClose old
        (watch_listener os fd (listen fd listenq ∷ bind fd port ∷ log)).log =
      Since.next (Since.next listening tt) tt in
    elim (Bool-cases (os.bind log fd)) [
      | inr failed ↦ rw (failed, listen_on) bound
      | inl b ↦ elim (Bool-cases (os.listen (bind fd port ∷ log) fd)) [
        | inr failed ↦ rw (b, failed, listen_on) listening
        | inl l ↦ rw (b, l, listen_on) watched
      ]
    ]

open_listener-Since :
    (os : Os) (port : ℕ) (log : Log) → Since IsNoClose log (open_listener os port log).log
unfolding open_listener
open_listener-Since os port log = elim (Ret-cases (os.socket log stream)) [
  | inl (errno, e) ↦ rw (e, open_listener) (Since.next Since.here tt)
  | inr (fd, e) ↦
      rw (e, open_listener)
        (listen_on-Since os port fd log _
          (setnonblocking-Since os fd log _ (Since.next (Since.next Since.here tt) tt)))
]

-- Whatever the system answers, and however long it is watched, initService returns nothing but -1,
-- and then it has closed no descriptor, not even the listening socket that it opened.
pub init_service_fails :
    (os : Os) (stray : Log → ℕ) (port rounds : ℕ) (events : List EpollEvent) (buf : List ℕ)
    (log : Log)
    → Always
        (λ r. (r.result ≡ minus_one) × Since IsNoClose log r.log)
        (init_service os stray port rounds events buf log)
unfolding init_service
init_service_fails os stray port rounds events buf log =
    let P : Returned → Type 0 = λ r. (r.result ≡ minus_one) × Since IsNoClose log r.log in
    let limited = setrlimit max_epoll_size ∷ log in
    let opened = open_listener os port limited in
    let since : Since IsNoClose log limited = Since.next Since.here tt in
    let refused : Run Returned = ok (record { result = minus_one; log = opened.log }) in
    let served : Run Returned = (do
      s ← serve_loop os stray opened.listenfd rounds events (record { buf = buf; log = opened.log })
      ok (record { result = 0; log = close opened.listenfd ∷ s.log })) in
    Always-if P (os.setrlimit log max_epoll_size) (if opened.ready then served else refused)
      (ok (record { result = minus_one; log = limited }))
      (Always-if P opened.ready served refused
        (Never->>= _ _ P (serve_loop-Never os stray opened.listenfd rounds events _))
        (refl, Since-trans since (open_listener-Since os port limited)))
      (refl, since)

-- Where setrlimit succeeds, the first version of initService runs like the second version, which
-- leaves the limit alone, and returns the same: that the first one closes the listening socket at
-- its end makes no difference, because neither gets there.
init_service_same :
    (os : Os) (stray : Log → ℕ) (port rounds : ℕ) (events : List EpollEvent) (buf : List ℕ)
    (log : Log)
    → os.setrlimit log 10000 ≡ true
    → init_service os stray port rounds events buf log ≡ (
        Update.init_service os stray port rounds events buf (setrlimit 10000 ∷ log) >>= λ server.
        ok (record { result = server.result; log = server.log }))
unfolding init_service Update.init_service
init_service_same os stray port rounds events buf log e =
    let opened = open_listener os port (setrlimit 10000 ∷ log) in
    elim (Bool-cases opened.ready) [
      | inl ready ↦
          rw (e, init_service, ready)
            (Never-same
              (serve_loop os stray opened.listenfd rounds events
                (record { buf = buf; log = opened.log }))
              _ _ _ (serve_loop-Never os stray opened.listenfd rounds events _))
      | inr failed ↦ rw (e, init_service, failed) refl
    ]
