-- ===== src/SelectServer/Echo.antt =====
-- The loop of ProtocalServerSelect over readque, up to the first read or write that fails.
use plib.Base.{
  undefined, ◌⊎◌, subst, sym, ℕ, suc, ◌+◌, ◌≤◌, ◌≡◌, refl, List, [], ◌∷◌, ◌++◌, All, Bool, true,
  false, ok, ◌==◌, length, if◌then◌else◌, replicate, take, drop, length-append, length-replicate,
  Bool-cases, inl, inr, arith, ap, ◌∙◌, ◌>>=◌,
}
use plib.System.{Os, Log, Ret, failed, done, read, write, select}
use plib.Memory.Block.{store, load, store_next, load_start, length-store}
use plib.SelectServer.{
  SelectServer, kept, erased, rm_bad_fd, buf_size, greeting, serve_fd, serve_readque, fd_isset,
  serve_ready, round, bad_errno, max, max_fd_from,
}
use plib.SelectServer.Round.{HasBit, fd_set_all_lem}

abbrev is_in : ℕ → List ℕ → Bool
is_in fd [] = false
is_in fd (x ∷ xs) = let rest = is_in fd xs in if x == fd then true else rest

abbrev received : Ret (List ℕ) → List ℕ
received (failed e) = []
received (done bytes) = bytes

-- What one descriptor adds to the calls, and what the descriptors of a list add to them: those that
-- are ready are read once, and sent the greeting and what was read.
abbrev pub echo : Os → ℕ → Log → Log
echo os fd log = write fd (greeting ++ received (os.read log fd buf_size)) ∷ read fd buf_size ∷ log

abbrev pub echoes : Os → List ℕ → List ℕ → Log → Log
echoes os ready [] log = log
echoes os ready (fd ∷ fds) log =
    let after = echoes os ready fds (echo os fd log) in
    let passed = echoes os ready fds log in if is_in fd ready then after else passed

fd_isset_lem : (ready : List ℕ) (fd : ℕ) → HasBit fd → fd_isset ready fd ≡ ok (is_in fd ready)
unfolding fd_isset
fd_isset_lem [] fd h = ground arith
fd_isset_lem (x ∷ xs) fd h = ground (arith, fd_isset_lem xs fd h)

take_all : (xs ys : List ℕ) → take (length xs) (xs ++ ys) ≡ xs
take_all [] ys = refl
take_all (x ∷ xs) ys = ap (λ zs. x ∷ zs) (take_all xs ys)

-- The read of a descriptor and the write of its answer succeed, or one of them fails.
abbrev Received : Os → ℕ → Log → Type 0
Received os fd log =
    (bytes : List ℕ) × (os.read log fd buf_size ≡ done bytes) × (length bytes ≤ buf_size)

abbrev answer : Os → ℕ → Log → List ℕ
answer os fd log = greeting ++ received (os.read log fd buf_size)

abbrev pub Replies : Os → ℕ → Log → Type 0
Replies os fd log =
    Received os fd log
    × ((n : ℕ) × (os.write (read fd buf_size ∷ log) fd (answer os fd log) ≡ done n))

abbrev pub Fails : Os → ℕ → Log → Type 0
Fails os fd log =
    ((e : ℕ) × (os.read log fd buf_size ≡ failed e))
    ⊎ (Received os fd log
        × ((e : ℕ) × (os.write (read fd buf_size ∷ log) fd (answer os fd log) ≡ failed e)))

-- The ready ones of some descriptors are answered, one after the other.
abbrev pub Answered : Os → List ℕ → List ℕ → Log → Type 0
Answered os ready [] log = Unit {0}
Answered os ready (fd ∷ fds) log =
    let replied = Replies os fd log × Answered os ready fds (echo os fd log) in
    let passed = Answered os ready fds log in if is_in fd ready then replied else passed

-- What select is called with, and the state after it.
abbrev pub watched : SelectServer → List ℕ
watched s = s.listenfd ∷ s.udpfd ∷ s.readque

abbrev pub highest : SelectServer → ℕ
highest s = max_fd_from (max s.listenfd s.udpfd + 1) s.readque

abbrev pub selecting : SelectServer → SelectServer
selecting s = record s {
  recvbuffer = replicate buf_size 0;
  log = select (watched s) (highest s) ∷ s.log;
}

module _ (os : Os) where
  -- The state is the old one but for the calls and the buffer, which keeps its size.
  Echoed : Log → SelectServer → SelectServer → Type 0
  Echoed log s t = (t.log ≡ log) × (t.readque ≡ s.readque) × (length t.recvbuffer ≡ buf_size)

  -- What is read goes to the start of the buffer and is taken from there.
  taken :
      (fd : ℕ) (s : SelectServer) (bytes : List ℕ)
      → length bytes ≤ buf_size
      → length s.recvbuffer ≡ buf_size
      → let buffer = bytes ++ drop (length bytes) s.recvbuffer in
        (store s.recvbuffer 0 bytes ≡ ok buffer) × (load buffer 0 (length bytes) ≡ ok bytes)
  taken fd s bytes fits size =
      let rest = drop (length bytes) s.recvbuffer in
      (
        store_next [] s.recvbuffer bytes 0 refl (omega (arith, size)),
        load_start (bytes ++ rest) (length bytes) (omega (arith, length-append bytes rest))
            ∙ ap ok (take_all bytes rest),
      )

  serve_fd-Echoed :
      (i fd : ℕ) (s : SelectServer)
      → length s.recvbuffer ≡ buf_size
      → Replies os fd s.log
      → (t : SelectServer) × (serve_fd os i fd s ≡ ok (kept t)) × Echoed (echo os fd s.log) s t
  unfolding serve_fd Echoed
  serve_fd-Echoed i fd s size ((bytes, e, fits), (n, written)) =
      let buffer = bytes ++ drop (length bytes) s.recvbuffer in
      let (stored, loaded) = taken fd s bytes fits size in
      let asked : Log = read fd buf_size ∷ s.log in
      let sent : os.write asked fd (greeting ++ bytes) ≡ done n =
        ap (λ r. os.write asked fd (greeting ++ received r)) (sym e) ∙ written in
      (
        record s { recvbuffer = buffer; log = write fd (greeting ++ bytes) ∷ asked },
        rw (e, serve_fd) (rw (stored, loaded, sent) refl),
        (rw e refl, refl, length-store s.recvbuffer 0 bytes stored ∙ size),
      )

  serve_fd_erased :
      (i fd : ℕ) (s : SelectServer)
      → length s.recvbuffer ≡ buf_size
      → Fails os fd s.log
      → (t : SelectServer) × (serve_fd os i fd s ≡ ok (erased t))
  unfolding serve_fd
  serve_fd_erased i fd s size (inl (errno, e)) = (
    rm_bad_fd i fd (record s { errno = errno; log = read fd buf_size ∷ s.log }),
    rw (e, serve_fd) refl,
  )
  serve_fd_erased i fd s size (inr ((bytes, e, fits), (errno, failure))) =
      let buffer = bytes ++ drop (length bytes) s.recvbuffer in
      let (stored, loaded) = taken fd s bytes fits size in
      let asked : Log = read fd buf_size ∷ s.log in
      let sent : os.write asked fd (greeting ++ bytes) ≡ failed errno =
        ap (λ r. os.write asked fd (greeting ++ received r)) (sym e) ∙ failure in
      let t : SelectServer = record s {
        recvbuffer = buffer;
        errno = errno;
        log = write fd (greeting ++ bytes) ∷ asked;
      } in
      (rm_bad_fd i fd t, rw (e, serve_fd) (rw (stored, loaded, sent) refl))

  -- The loop over the descriptors comes to its end, from a buffer of its size.
  serve_readque_total :
      (ready : List ℕ) (i : ℕ) (fds : List ℕ) (s : SelectServer)
      → All HasBit fds
      → length s.recvbuffer ≡ buf_size
      → Answered os ready fds s.log
      → (t : SelectServer) × (serve_readque os ready i fds s ≡ ok t)
        × Echoed (echoes os ready fds s.log) s t
  unfolding serve_readque Echoed
  serve_readque_total ready i [] s bits size h = (s, refl, (refl, refl, size))
  serve_readque_total ready i (fd ∷ fds) s (bit, bits) size h =
      let e = fd_isset_lem ready fd bit in
      elim (Bool-cases (is_in fd ready)) [
        | inl set ↦
            let (replies, later) = rw set at h in
            let (u, served, (log, que, still)) = serve_fd-Echoed i fd s size replies in
            let later' = subst (Answered os ready fds) (sym log) later in
            let (v, go, (all, kept_que, end)) =
              serve_readque_total ready (suc i) fds u bits still later' in
            (
              v,
              rw (e ∙ ap ok set) (rw served go),
              (rw set (all ∙ ap (echoes os ready fds) log), kept_que ∙ que, end),
            )
        | inr clear ↦
            let later = rw clear at h in
            let (t, go, (all, que, end)) =
              serve_readque_total ready (suc i) fds s bits size later in
            (t, rw (e ∙ ap ok clear) go, (rw clear all, que, end))
      ]

  -- The first ready descriptor whose read or write fails ends it in the use of an erased iterator.
  serve_readque_undefined :
      (ready : List ℕ) (i : ℕ) (before : List ℕ) (fd : ℕ) (after : List ℕ) (s : SelectServer)
      → All HasBit (before ++ fd ∷ after)
      → length s.recvbuffer ≡ buf_size
      → Answered os ready before s.log
      → is_in fd ready ≡ true
      → Fails os fd (echoes os ready before s.log)
      → serve_readque os ready i (before ++ fd ∷ after) s ≡ undefined
  unfolding serve_readque Echoed
  serve_readque_undefined ready i [] fd after s (bit, bits) size h set fails =
      let (t, served) = serve_fd_erased i fd s size fails in
      rw (fd_isset_lem ready fd bit ∙ ap ok set) (rw served refl)
  serve_readque_undefined ready i (x ∷ before) fd after s (bit, bits) size h set fails =
      let e = fd_isset_lem ready x bit in
      elim (Bool-cases (is_in x ready)) [
        | inl there ↦
            let (replies, later) = rw there at h in
            let (u, served, (log, que, still)) = serve_fd-Echoed i x s size replies in
            let later' = subst (Answered os ready before) (sym log) later in
            let fails' =
              subst (λ l. Fails os fd (echoes os ready before l)) (sym log) (rw there at fails) in
            rw (e ∙ ap ok there) (
              rw served (
                serve_readque_undefined ready (suc i) before fd after u bits still later' set
                  fails'))
        | inr clear ↦ rw (e ∙ ap ok clear) (
            serve_readque_undefined ready (suc i) before fd after s bits size (rw clear at h) set
              (rw clear at fails))
      ]

  -- A round in which select gives some clients and neither of the server's sockets is the loop over
  -- readque.
  round_serves :
      (fd : ℕ) (fds : List ℕ) (s : SelectServer)
      → All HasBit (watched s)
      → os.select s.log (watched s) (highest s) ≡ done (fd ∷ fds)
      → bad_errno s.errno ≡ false
      → is_in s.listenfd (fd ∷ fds) ≡ false
      → is_in s.udpfd (fd ∷ fds) ≡ false
      → round os s ≡ (serve_readque os (fd ∷ fds) 0 s.readque (selecting s) >>= λ u. ok (true, u))
  unfolding round serve_ready
  round_serves fd fds s (own, (udp, clients)) selected good no_client no_datagram =
      let quiet = fd_isset_lem (fd ∷ fds) s.listenfd own ∙ ap ok no_client in
      let silent = fd_isset_lem (fd ∷ fds) s.udpfd udp ∙ ap ok no_datagram in
      rw (fd_set_all_lem (watched s) (own, (udp, clients)), selected, good)
        (rw selected (rw (quiet, ◌>>=◌) (rw (silent, ◌>>=◌) refl)))

  -- A round in which select says that some descriptors are ready, but neither of the server's own:
  -- if each descriptor has a bit in an fd_set, errno has no bit of the three errors, and no read or
  -- write of the round fails, the round goes on to the next; each client that is ready has been
  -- read once, in the order of readque, and sent the greeting and what it sent, the others are left
  -- alone, and readque stays.
  pub round_echoed :
      (fd : ℕ) (fds : List ℕ) (s : SelectServer)
      → All HasBit (watched s)
      → os.select s.log (watched s) (highest s) ≡ done (fd ∷ fds)
      → bad_errno s.errno ≡ false
      → is_in s.listenfd (fd ∷ fds) ≡ false
      → is_in s.udpfd (fd ∷ fds) ≡ false
      → Answered os (fd ∷ fds) s.readque (selecting s).log
      → (t : SelectServer) × (round os s ≡ ok (true, t))
        × (t.readque ≡ s.readque)
        × (t.log ≡ echoes os (fd ∷ fds) s.readque (selecting s).log)
  unfolding Echoed
  round_echoed fd fds s bits selected good no_client no_datagram answered =
      let (t, run, (log, que, size)) =
        serve_readque_total (fd ∷ fds) 0 s.readque (selecting s) bits.1.1
          (length-replicate {A = ℕ} buf_size 0) answered in
      (t, round_serves fd fds s bits selected good no_client no_datagram ∙ rw run refl, que, log)

  -- In such a round, the first ready client whose read or write fails, after those before it in
  -- readque that are ready have been answered, makes the service undefined: the loop goes on with
  -- the iterator of the element that it has erased.
  pub round_undefined :
      (fd : ℕ) (fds : List ℕ) (s : SelectServer) (before : List ℕ) (bad : ℕ) (after : List ℕ)
      → All HasBit (watched s)
      → os.select s.log (watched s) (highest s) ≡ done (fd ∷ fds)
      → bad_errno s.errno ≡ false
      → is_in s.listenfd (fd ∷ fds) ≡ false
      → is_in s.udpfd (fd ∷ fds) ≡ false
      → s.readque ≡ before ++ bad ∷ after
      → Answered os (fd ∷ fds) before (selecting s).log
      → is_in bad (fd ∷ fds) ≡ true
      → Fails os bad (echoes os (fd ∷ fds) before (selecting s).log)
      → round os s ≡ undefined
  round_undefined fd fds s before bad after bits selected good no_client no_datagram made answered
        set fails =
      let lost : serve_readque os (fd ∷ fds) 0 s.readque (selecting s) ≡ undefined =
        ap (λ q. serve_readque os (fd ∷ fds) 0 q (selecting s)) made
        ∙ serve_readque_undefined (fd ∷ fds) 0 before bad after (selecting s)
            (subst (All HasBit) made bits.1.1) (length-replicate {A = ℕ} buf_size 0) answered set
            fails in
      round_serves fd fds s bits selected good no_client no_datagram ∙ rw lost refl
