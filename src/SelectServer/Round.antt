-- ===== src/SelectServer/Round.antt =====
-- Rounds of ProtocalServerSelect that go on, and rounds that end the service.
use Prim.Native.Nat.{bit_and}
use plib.Base.{
  ℕ, suc, ◌+◌, ◌<◌, ◌≡◌, ◌≢◌, refl, List, [], ◌∷◌, All, true, false, ok, replicate, arith, ◌==◌,
  ==_iff, leb, Bool-cases, if◌then◌else◌, ◌∙◌, ◌⊎◌, inl, inr,
}
use plib.System.{Os, done, failed, select, accept}
use plib.SelectServer.{
  SelectServer, buf_size, fd_setsize, round, service_loop, serve_ready, serve_readque, accept_one,
  fd_isset, fd_set_all, bad_errno, max_fd_from, max,
}

-- The descriptor has a bit in an fd_set.
abbrev pub HasBit : ℕ → Type 0
HasBit fd = fd < fd_setsize

pub fd_set_all_lem : (fds : List ℕ) → All HasBit fds → fd_set_all fds ≡ ok fds
unfolding fd_set_all
fd_set_all_lem [] h = refl
fd_set_all_lem (fd ∷ fds) (h, hs) = rw (fd_set_all_lem fds hs) (ground arith)

-- The errno has a bit of EINVAL, ENOMEM or EBADF.
abbrev pub SharesBit : ℕ → Type 0
SharesBit e = (bit_and e 22 ≢ 0) ⊎ ((bit_and e 12 ≢ 0) ⊎ (bit_and e 9 ≢ 0))

nonzero : (x : ℕ) → x ≢ 0 → (x == 0) ≡ false
nonzero x h = ground arith

shared_is_bad : (e : ℕ) → SharesBit e → bad_errno e ≡ true
unfolding bad_errno
shared_is_bad e (inl h) = rw (nonzero (bit_and e 22) h) refl
shared_is_bad e (inr (inl h)) = elim (Bool-cases (bit_and e 22 == 0)) [
  | inl a ↦ rw (a, nonzero (bit_and e 12) h) refl
  | inr a ↦ rw a refl
]
shared_is_bad e (inr (inr h)) = elim (Bool-cases (bit_and e 22 == 0)) [
  | inl a ↦ elim (Bool-cases (bit_and e 12 == 0)) [
    | inl b ↦ rw (a, b, nonzero (bit_and e 9) h) refl
    | inr b ↦ rw (a, b) refl
  ]
  | inr a ↦ rw a refl
]

-- The arguments of select.
abbrev pub watched : SelectServer → List ℕ
watched s = s.listenfd ∷ s.udpfd ∷ s.readque

abbrev pub highest : SelectServer → ℕ
highest s = max_fd_from (max s.listenfd s.udpfd + 1) s.readque

leftover_ends :
    (os : Os) (s : SelectServer) (ready : List ℕ)
    → All HasBit (watched s)
    → os.select s.log (watched s) (highest s) ≡ done ready
    → bad_errno s.errno ≡ true
    → round os s
      ≡ ok (
        false,
        record s {
          recvbuffer = replicate buf_size 0;
          log = select (watched s) (highest s) ∷ s.log;
        },
      )
unfolding round
leftover_ends os s ready bits selected bad =
    rw (fd_set_all_lem (watched s) bits, selected, bad) refl

-- The descriptors of readque are left alone where only another one is ready.
others_left :
    (os : Os) (fd i : ℕ) (fds : List ℕ) (s : SelectServer)
    → All HasBit fds
    → All (λ x. (fd == x) ≡ false) fds
    → serve_readque os (fd ∷ []) i fds s ≡ ok s
unfolding serve_readque fd_isset
others_left os fd i [] s bits apart = refl
others_left os fd i (x ∷ fds) s (bit, bits) (other, apart) =
    let inside : leb fd_setsize x ≡ false = ground arith in
    rw (inside, other) (others_left os fd (suc i) fds s bits apart)

-- The server after a round in which only the listening socket is ready, and accept fails.
abbrev pub rejected : ℕ → SelectServer → SelectServer
rejected e s = record s {
  recvbuffer = replicate buf_size 0;
  errno = e;
  log = accept s.listenfd ∷ select (watched s) (highest s) ∷ s.log;
}

accept_one_fails :
    (os : Os) (t : SelectServer) (e : ℕ)
    → os.accept t.log ≡ failed e
    → accept_one os t ≡ record t { errno = e; log = accept t.listenfd ∷ t.log }
unfolding accept_one
accept_one_fails os t e rejecting = rw (rejecting, accept_one) refl

fd_isset_one : (fd x : ℕ) → HasBit x → fd_isset (fd ∷ []) x ≡ ok (if fd == x then true else false)
unfolding fd_isset
fd_isset_one fd x bit =
    let inside : leb fd_setsize x ≡ false = ground arith in rw inside (ground arith)

-- What is ready is the listening socket alone, and accept fails.
serve_ready_fails :
    (os : Os) (t : SelectServer) (e : ℕ)
    → All HasBit (watched t)
    → All (λ x. (t.listenfd == x) ≡ false) (t.udpfd ∷ t.readque)
    → os.accept t.log ≡ failed e
    → serve_ready os (t.listenfd ∷ []) t
      ≡ ok (record t { errno = e; log = accept t.listenfd ∷ t.log })
unfolding serve_ready
serve_ready_fails os t e bits apart rejecting =
    let u : SelectServer = record t { errno = e; log = accept t.listenfd ∷ t.log } in
    let own : fd_isset (t.listenfd ∷ []) t.listenfd ≡ ok true =
      fd_isset_one t.listenfd t.listenfd bits.0 ∙ rw ((==_iff t.listenfd t.listenfd).1 refl) refl in
    let other : fd_isset (t.listenfd ∷ []) t.udpfd ≡ ok false =
      fd_isset_one t.listenfd t.udpfd bits.1.0 ∙ rw apart.0 refl in
    rw own (
      rw (accept_one_fails os t e rejecting)
        (rw other (others_left os t.listenfd 0 t.readque u bits.1.1 apart.1)))

accept_fails :
    (os : Os) (s : SelectServer) (e : ℕ)
    → All HasBit (watched s)
    → All (λ x. (s.listenfd == x) ≡ false) (s.udpfd ∷ s.readque)
    → bad_errno s.errno ≡ false
    → os.select s.log (watched s) (highest s) ≡ done (s.listenfd ∷ [])
    → os.accept (select (watched s) (highest s) ∷ s.log) ≡ failed e
    → round os s ≡ ok (true, rejected e s)
unfolding round
accept_fails os s e bits apart good selected rejecting =
    let t : SelectServer = record s {
      recvbuffer = replicate buf_size 0;
      log = select (watched s) (highest s) ∷ s.log;
    } in
    rw (fd_set_all_lem (watched s) bits, selected, good)
      (rw selected (rw (serve_ready_fails os t e bits apart rejecting) refl))

-- Where each descriptor has a bit in an fd_set, the listening socket is none of the others, and
-- errno has no bit of the three errors: if select says that the listening socket alone is ready, and
-- accept fails with an errno that shares a bit with EINVAL, ENOMEM or EBADF (as EAGAIN, 11, does),
-- the round goes on, but the next one ends the service, although its select succeeds: the service
-- takes the errno of accept for one of select.
pub accept_failure_ends :
    (os : Os) (rounds e : ℕ) (ready : List ℕ) (s : SelectServer)
    → All HasBit (watched s)
    → All (λ x. (s.listenfd == x) ≡ false) (s.udpfd ∷ s.readque)
    → bad_errno s.errno ≡ false
    → os.select s.log (watched s) (highest s) ≡ done (s.listenfd ∷ [])
    → os.accept (select (watched s) (highest s) ∷ s.log) ≡ failed e
    → SharesBit e
    → os.select (rejected e s).log (watched s) (highest s) ≡ done ready
    → (round os s ≡ ok (true, rejected e s))
      × (service_loop os (suc (suc rounds)) s
          ≡ ok (
            false,
            record (rejected e s) { log = select (watched s) (highest s) ∷ (rejected e s).log },
          ))
unfolding service_loop
accept_failure_ends os rounds e ready s bits apart good selected rejecting shared again =
    let first = accept_fails os s e bits apart good selected rejecting in
    let second = leftover_ends os (rejected e s) ready bits again (shared_is_bad e shared) in
    (first, rw first (rw second refl))
