-- ===== src/SelectServer/Readque.antt =====
-- readque and the closed descriptors, through the loop of ProtocalServerSelect.
use plib.Base.{
  ℕ, zero, suc, ◌+◌, ◌≡◌, refl, List, [], ◌∷◌, ◌++◌, Bool, true, false, Run, ok, undefined, ◌>>=◌,
  if◌then◌else◌, length, replicate, Always, Always->>=, Always-if, Always-map, Always-any,
  append_assoc, append-nil, Bool-cases, inl, inr, ap, sym, ◌∙◌,
}
use plib.System.{
  Os, Log, Call, Ret, done, failed, Ret-cases, Since, Since-trans, close, read, select, is_positive,
}
use plib.Memory.Block.{store, load}
use plib.SelectServer.{
  setnonblocking, SelectServer, Served, kept, erased, buf_size, greeting, serve_fd, serve_readque,
  accept_one, udp_receive, serve_ready, round, service_loop, fd_isset, fd_set_all, bad_errno,
  max_fd_from, max, errno_after,
}

-- The call closes nothing.
abbrev pub KeepsOpen : Call → Type 0
KeepsOpen (close fd) = ⊥
KeepsOpen _ = Unit {0}

-- Since the state s, readque has only been added to, and nothing has been closed.
pub Grown : SelectServer → SelectServer → Type 0
Grown s t = ((more : List ℕ) × (t.readque ≡ s.readque ++ more)) × Since KeepsOpen s.log t.log

Grown-refl : (s : SelectServer) → Grown s s
unfolding Grown
Grown-refl s = (([], sym (append-nil s.readque)), Since.here)

Grown-trans : (s t u : SelectServer) → Grown s t → Grown t u → Grown s u
unfolding Grown
Grown-trans s t u ((xs, e), h) ((ys, e'), k) =
    ((xs ++ ys, e' ∙ ap (λ zs. zs ++ ys) e ∙ append_assoc s.readque xs ys), Since-trans h k)

-- The same of what the loop's body leaves.
StillGrown : SelectServer → Served → Type 0
StillGrown s (kept t) = Grown s t
StillGrown s (erased t) = Unit {0}

-- What runs after the loop's body, if it is reached.
after_served :
    (s : SelectServer) (served : Served) (f : SelectServer → Run SelectServer)
    → ((t : SelectServer) → Always (Grown t) (f t))
    → StillGrown s served
    → Always (Grown s) (elim served [ kept t ↦ f t | erased t ↦ undefined ])
unfolding StillGrown
after_served s (kept t) f grows h =
    Always-map (Grown t) (Grown s) (f t) (λ u k. Grown-trans s t u h k) (grows t)
after_served s (erased t) f grows h = tt

module _ (os : Os) where
  serve_fd-StillGrown : (i fd : ℕ) (s : SelectServer) → Always (StillGrown s) (serve_fd os i fd s)
  unfolding serve_fd Grown StillGrown
  serve_fd-StillGrown i fd s = elim (Ret-cases (os.read s.log fd buf_size)) [
    | inl (errno, e) ↦ rw (e, serve_fd) tt
    | inr (bytes, e) ↦
        let asked : Log = read fd buf_size ∷ s.log in
        rw (e, serve_fd)
          (Always->>= _ (StillGrown s) (store s.recvbuffer 0 bytes) _ (Always-any _) λ buffer u.
            Always->>= _ (StillGrown s) (load buffer 0 (length bytes)) _ (Always-any _) λ content v.
              elim (Ret-cases (os.write asked fd (greeting ++ content))) [
                | inl (errno, e') ↦ rw e' tt
                | inr (n, e') ↦
                    rw e'
                      (([], sym (append-nil s.readque)), Since.next (Since.next Since.here tt) tt)
              ])
  ]

  serve_readque-Grown :
      (ready : List ℕ) (i : ℕ) (fds : List ℕ) (s : SelectServer)
      → Always (Grown s) (serve_readque os ready i fds s)
  unfolding serve_readque StillGrown
  serve_readque-Grown ready i [] s = Grown-refl s
  serve_readque-Grown ready i (fd ∷ fds) s =
      Always->>= _ (Grown s) (fd_isset ready fd) _ (Always-any _) λ is_ready u.
        Always->>= (StillGrown s) (Grown s) (if is_ready then serve_fd os i fd s else ok (kept s)) _
          (Always-if (StillGrown s) is_ready (serve_fd os i fd s) (ok (kept s))
            (serve_fd-StillGrown i fd s) (Grown-refl s))
          (λ served h.
            after_served s served (serve_readque os ready (suc i) fds)
              (λ t. serve_readque-Grown ready (suc i) fds t) h)

  accept_one-Grown : (s : SelectServer) → Grown s (accept_one os s)
  unfolding accept_one setnonblocking Grown
  accept_one-Grown s = elim (Ret-cases (os.accept s.log)) [
    | inl (errno, e) ↦
        rw (e, accept_one) (([], sym (append-nil s.readque)), Since.next Since.here tt)
    | inr (fd, e) ↦
        rw (e, accept_one)
          (elim (Bool-cases (is_positive fd)) [
            | inl up ↦
                rw up ((fd ∷ [], refl), Since.next (Since.next (Since.next Since.here tt) tt) tt)
            | inr down ↦ rw down (([], sym (append-nil s.readque)), Since.next Since.here tt)
          ])
  ]

  udp_receive-Grown : (s : SelectServer) → Always (Grown s) (udp_receive os s)
  unfolding udp_receive Grown
  udp_receive-Grown s = elim (Ret-cases (os.recvfrom s.log s.udpfd buf_size)) [
    | inl (errno, e) ↦
        rw (e, udp_receive) (([], sym (append-nil s.readque)), Since.next Since.here tt)
    | inr (bytes, e) ↦
        rw (e, udp_receive)
          (Always->>= _ (Grown s) (store s.recvbuffer 0 bytes) _ (Always-any _) λ buffer u.
            (([], sym (append-nil s.readque)), Since.next (Since.next Since.here tt) tt))
  ]

  step_Grown :
      (s t : SelectServer) (c : Bool) (r : Run SelectServer)
      → Grown s t
      → Always (Grown t) r
      → Always (Grown s) (if c then r else ok t)
  step_Grown s t c r h k =
      Always-if (Grown s) c r (ok t)
        (Always-map (Grown t) (Grown s) r (λ u g. Grown-trans s t u h g) k) h

  serve_ready-Grown :
      (ready : List ℕ) (s : SelectServer) → Always (Grown s) (serve_ready os ready s)
  unfolding serve_ready
  serve_ready-Grown ready s =
      Always->>= _ (Grown s) (fd_isset ready s.listenfd) _ (Always-any _) λ incoming u.
        let t : SelectServer = if incoming then accept_one os s else s in
        let first : Grown s t = elim (Bool-cases incoming) [
          | inl e ↦ rw e (accept_one-Grown s)
          | inr e ↦ rw e (Grown-refl s)
        ] in
        Always->>= _ (Grown s) (fd_isset ready t.udpfd) _ (Always-any _) λ datagram v.
          Always->>= (Grown s) (Grown s) (if datagram then udp_receive os t else ok t) _
            (step_Grown s t datagram (udp_receive os t) first (udp_receive-Grown t))
            λ w h.
              Always-map (Grown w) (Grown s) (serve_readque os ready 0 w.readque w)
                (λ x g. Grown-trans s w x h g) (serve_readque-Grown ready 0 w.readque w)

  selected-Grown :
      (s t : SelectServer) (found : Ret (List ℕ))
      → Grown s t
      → Always
          (λ r. Grown s r.1)
          (elim found as (λ x. Run (Bool × SelectServer)) [
            | failed e ↦ ok (true, t)
            | done [] ↦ ok (true, t)
            | done (fd ∷ fds) ↦ (do u ← serve_ready os (fd ∷ fds) t; ok (true, u))
          ])
  selected-Grown s t (failed e) h = h
  selected-Grown s t (done []) h = h
  selected-Grown s t (done (fd ∷ fds)) h =
      Always->>= (Grown t) (λ r. Grown s r.1) (serve_ready os (fd ∷ fds) t) _
        (serve_ready-Grown (fd ∷ fds) t) (λ u k. Grown-trans s t u h k)

  round-Grown : (s : SelectServer) → Always (λ r. Grown s r.1) (round os s)
  unfolding round Grown
  round-Grown s =
      Always->>= _ (λ r. Grown s r.1) (fd_set_all (s.listenfd ∷ s.udpfd ∷ s.readque)) _
        (Always-any _)
        λ watched u.
          let maxfdp1 = max_fd_from (max s.listenfd s.udpfd + 1) s.readque in
          let found : Ret (List ℕ) = os.select s.log watched maxfdp1 in
          let t : SelectServer = record s {
            recvbuffer = replicate buf_size 0;
            errno = errno_after s.errno found;
            log = select watched maxfdp1 ∷ s.log;
          } in
          let h : Grown s t = (([], sym (append-nil s.readque)), Since.next Since.here tt) in
          Always-if (λ r. Grown s r.1) (bad_errno t.errno) (ok (false, t)) _ h
            (selected-Grown s t found h)

-- As long as a run of the select server has not become undefined, for any number of rounds and
-- whatever the kernel and the peers do, readque is only added to at its end and no descriptor is
-- closed.
pub service_loop-Grown :
    (os : Os) (rounds : ℕ) (s : SelectServer) → Always (λ r. Grown s r.1) (service_loop os rounds s)
unfolding service_loop
service_loop-Grown os zero s = Grown-refl s
service_loop-Grown os (suc rounds) s =
    Always->>= (λ r. Grown s r.1) (λ r. Grown s r.1) (round os s) _ (round-Grown os s)
      λ r h.
        Always-if (λ q. Grown s q.1) r.0 (service_loop os rounds r.1) (ok (false, r.1))
          (Always-map (λ q. Grown r.1 q.1) (λ q. Grown s q.1) (service_loop os rounds r.1)
            (λ q k. Grown-trans s r.1 q.1 h k) (service_loop-Grown os rounds r.1))
          h
