-- ===== src/EpollServer/Lifetime.antt =====
-- The sockets from initService to the destructor.
use plib.Base.{
  ℕ, suc, ◌+◌, ◌≡◌, ◌≢◌, refl, List, [], ◌∷◌, some, Run, ok, undefined, exits, spins, ◌>>=◌, length,
  ◌==◌, if◌then◌else◌, ==_iff, Bool-cases, inl, inr, Always, Always->>=, Always-any, arith, sym, ap,
  ◌∙◌,
}
use plib.System.{Os, Log, Call, close, Since}
use plib.StdMap.{find}
use plib.Vote.{ReqeustVoteResp}
use plib.EpollServer.State.{Server, buf_size}
use plib.EpollServer.Service.{init_service}
use plib.EpollServer.Safety.Rules.{IsHarmless, Holds}
use plib.EpollServer.Safety.Sockets.{Inv, init_service-Inv}
use plib.EpollServer.Teardown.{destroy, free_queues}

-- How often a descriptor has been closed.
abbrev pub closes : ℕ → Log → ℕ
closes fd [] = 0
closes fd (close j ∷ log) = let rest = closes fd log in if j == fd then suc rest else rest
closes fd (_ ∷ log) = closes fd log

-- The service, watched for some rounds, and then the destructor.
abbrev pub lifetime : Os → ℕ → ℕ → Server → Run (List ReqeustVoteResp × Server)
lifetime os fuel rounds s = init_service os fuel rounds s >>= λ r. destroy fuel r.1

not_closed : (fd j : ℕ) (log : Log) → j ≢ fd → closes fd (close j ∷ log) ≡ closes fd log
not_closed fd j log other = elim (Bool-cases (j == fd)) [
  | inl e ↦ absurd (other ((==_iff j fd).0 e))
  | inr e ↦ rw e refl
]

-- The sockets that harmless calls leave open.
pub data Guarded (b : Server) (fd : ℕ) : Type 0 where
  listening : fd ≡ b.listenfd → Guarded b fd
  receiving : fd ≡ b.udpfd → Guarded b fd
  client : (p : ℕ) → find fd b.clientmap ≡ some p → Guarded b fd

spared : (b : Server) (fd j : ℕ) → Guarded b fd → IsHarmless b (close j) → j ≢ fd
spared b fd j (listening e) (h, _, _) = λ same. h (same ∙ e)
spared b fd j (receiving e) (_, h, _) = λ same. h (same ∙ e)
spared b fd j (client p e) (_, _, h) = λ same. cc (sym (ap (λ i. find i b.clientmap) same ∙ e) ∙ h)

harmless_closes :
    (b : Server) (fd : ℕ) (c : Call) (log : Log)
    → Guarded b fd
    → IsHarmless b c
    → closes fd (c ∷ log) ≡ closes fd log
harmless_closes b fd (close j) log g h = not_closed fd j log (spared b fd j g h)
harmless_closes b fd _ log g h = refl

pub Since-closes :
    (b : Server) (fd : ℕ) {old log : Log}
    → Guarded b fd
    → Since (IsHarmless b) old log
    → closes fd log ≡ closes fd old
Since-closes b fd g Since.here = refl
Since-closes b fd g (Since.next {c} {log} before h) =
    harmless_closes b fd c log g h ∙ Since-closes b fd g before

Holds→Always :
    {A : Type 0} (P : Server → Type 0) (r : Run (A × Server)) → Holds P r → Always (λ p. P p.1) r
Holds→Always P (ok (a, t)) h = h
Holds→Always P undefined h = tt
Holds→Always P (exits code) h = tt
Holds→Always P spins h = tt

-- The calls since the state b have closed its two sockets once, and no other client's socket.
abbrev pub ClosedOnce : Server → Server → Type 0
ClosedOnce b s = record {
  listening_once : closes b.listenfd s.log ≡ closes b.listenfd b.log + 1;
  udp_once : closes b.udpfd s.log ≡ closes b.udpfd b.log + 1;
  clients_open :
      (fd p : ℕ)
      → find fd b.clientmap ≡ some p
      → fd ≢ b.listenfd
      → fd ≢ b.udpfd
      → closes fd s.log ≡ closes fd b.log;
}

destroyed :
    (b s : Server)
    → b.listenfd ≢ b.udpfd
    → Inv b s
    → ClosedOnce b
        (record s { log = close s.listenfd ∷ close s.udpfd ∷ s.log; resp_message_map = [] })
destroyed b s apart v =
    let kept = λ (fd : ℕ) (g : Guarded b fd). Since-closes b fd g v.calls in
    rw (v.same_listenfd, v.same_udpfd)
      (record {
        listening_once = ground (arith, kept b.listenfd (listening refl));
        udp_once = ground (arith, kept b.udpfd (receiving refl));
        clients_open = λ fd p there l u.
            not_closed fd b.listenfd (close b.udpfd ∷ s.log) (λ e. l (sym e))
            ∙ not_closed fd b.udpfd s.log (λ e. u (sym e))
            ∙ kept fd (client p there);
      })

-- From a state whose buffer has its size and whose two sockets are apart, whatever the kernel and
-- the peers do: when the service, watched for any number of rounds, and then the destructor have
-- ended without an exit or undefined behaviour, the listening socket and the udp socket have each
-- been closed once more than before, and no other socket of a registered client has been closed.
pub lifetime_closes :
    (os : Os) (fuel rounds : ℕ) (s : Server)
    → length s.recvbuffer ≡ buf_size
    → s.listenfd ≢ s.udpfd
    → Always (λ r. ClosedOnce s r.1) (lifetime os fuel rounds s)
unfolding destroy
lifetime_closes os fuel rounds s size apart =
    Always->>= (λ r. Inv s r.1) (λ r. ClosedOnce s r.1) (init_service os fuel rounds s) _
      (Holds→Always (Inv s) (init_service os fuel rounds s)
        (init_service-Inv os fuel rounds s size))
      λ r v.
        Always->>= (λ freed. Unit {0}) (λ p. ClosedOnce s p.1)
          (free_queues fuel r.1.resp_message_map) _ (Always-any _)
          (λ freed u. destroyed s r.1 apart v)
