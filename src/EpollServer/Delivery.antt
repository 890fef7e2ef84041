-- ===== src/EpollServer/Delivery.antt =====
-- Sequences of putRespInQueue and of the loop that sends a queue, against outboxes that are
-- functions from descriptors to what waits.
pub mod Order
use plib.Base.{
  ℕ, zero, suc, ◌+◌, ◌≤◌, ◌<◌, ◌≡◌, refl, List, [], ◌∷◌, ◌++◌, map, true, some, ok, length,
  length-append, ◌==◌, if◌then◌else◌, arith, Bool-cases, Option-cases, inl, inr, subst, sym, ap,
  ap₂, ◌∙◌,
}
use plib.System.{Os, Log, Call, write, mutex_init}
use plib.SharedQueue
use plib.StdMap.{find}
use plib.Vote.{ReqeustVoteResp}
use plib.Vote.Wire.{resp_wire}
use plib.EpollServer.State.{Server, M, pure, ◌>>◌, >>=-run}
use plib.EpollServer.Registry.{put_resp_in_queue}
use plib.EpollServer.Registry.Queues.{queued, items, writes, put_resp_in_queue_lem}
use plib.EpollServer.Write.{send_all}
use plib.EpollServer.Write.Sends.{WritesAll, written, send_all_fifo}
use plib.EpollServer.Safety.Rules.{Holds, Holds-lift_bind}

pub data Op : Type 0 where
  enqueue : ℕ → ReqeustVoteResp → Op
  flush : ℕ → Op

unfoldable pub step : Os → ℕ → Op → M (Unit {0})
step os fuel (enqueue fd resp) = put_resp_in_queue os fd resp
step os fuel (flush fd) = send_all os fuel fuel fd

unfoldable pub run : Os → ℕ → List Op → M (Unit {0})
run os fuel [] = pure tt
run os fuel (op ∷ ops) = do step os fuel op; run os fuel ops

-- What waits for each descriptor, first the oldest, and what has been sent, first the newest.
pub record Outbox : Type 0 where
  pub waiting : ℕ → List ReqeustVoteResp
  pub sent : List (ℕ × ReqeustVoteResp)

abbrev pub sent_on :
    ℕ → List ReqeustVoteResp → List (ℕ × ReqeustVoteResp) → List (ℕ × ReqeustVoteResp)
sent_on fd [] sent = sent
sent_on fd (r ∷ rs) sent = sent_on fd rs ((fd, r) ∷ sent)

unfoldable pub apply : Op → Outbox → Outbox
apply (enqueue fd resp) b = record b {
  waiting = λ j. if fd == j then b.waiting fd ++ resp ∷ [] else b.waiting j;
}
apply (flush fd) b = record {
  waiting = λ j. if fd == j then [] else b.waiting j;
  sent = sent_on fd (b.waiting fd) b.sent;
}

unfoldable pub apply_all : List Op → Outbox → Outbox
apply_all [] b = b
apply_all (op ∷ ops) b = apply_all ops (apply op b)

abbrev pub message : ℕ × ReqeustVoteResp → ℕ × List ℕ
message (fd, r) = (fd, resp_wire r)

pub record Refines (before : List (ℕ × List ℕ)) (b : Outbox) (s : Server) : Type 0 where
  pub queues : (j : ℕ) → queued s j ≡ b.waiting j
  pub calls : writes s.log ≡ map message b.sent ++ before

writes-written :
    (fd : ℕ) (rs : List ReqeustVoteResp) (sent : List (ℕ × ReqeustVoteResp))
    (before : List (ℕ × List ℕ)) (log : Log)
    → writes log ≡ map message sent ++ before
    → writes (written fd rs log) ≡ map message (sent_on fd rs sent) ++ before
writes-written fd [] sent before log h = h
writes-written fd (r ∷ rs) sent before log h =
    writes-written fd rs ((fd, r) ∷ sent) before (write fd (resp_wire r) ∷ log)
      (ap (◌∷◌ (fd, resp_wire r)) h)

module _ (os : Os) (all : WritesAll os) (made : (log : Log) → os.mutex_init log ≡ true) where
  enqueue-Refines :
      (before : List (ℕ × List ℕ)) (fuel fd : ℕ) (resp : ReqeustVoteResp) (b : Outbox) (s : Server)
      → Refines before b s
      → (t : Server) × (step os fuel (enqueue fd resp) s ≡ ok (tt, t))
        × Refines before (apply (enqueue fd resp) b) t
  unfolding step apply
  enqueue-Refines before fuel fd resp b s h =
      let (t, e, after, same) = put_resp_in_queue_lem os fd resp s (made s.log) in
      (
        t,
        e,
        record {
          queues = λ j.
              after j
              ∙ ap₂ (λ x y. if fd == j then x ++ resp ∷ [] else y) (h.queues fd) (h.queues j);
          calls = same ∙ h.calls;
        },
      )

  flush-Refines :
      (before : List (ℕ × List ℕ)) (fuel fd : ℕ) (b : Outbox) (s : Server)
      → Refines before b s
      → length (b.waiting fd) < suc (suc fuel)
      → (t : Server) × (step os (suc (suc fuel)) (flush fd) s ≡ ok (tt, t))
        × Refines before (apply (flush fd) b) t
  unfolding step apply send_all
  flush-Refines before fuel fd b s h enough = elim (Option-cases (find fd s.resp_message_map)) [
    | inl e ↦
        let empty : b.waiting fd ≡ [] = sym (h.queues fd) ∙ ap items e in
        (
          s,
          rw (e, send_all) refl,
          record {
            queues = λ j. ground (arith, h.queues j, e);
            calls =
                subst (λ ws. writes s.log ≡ map message (sent_on fd ws b.sent) ++ before)
                  (sym empty) h.calls;
          },
        )
    | inr (q, e) ↦
        let same : q.queue ≡ b.waiting fd = sym (ap items e) ∙ h.queues fd in
        let (t, ran, log, rest) =
          send_all_fifo os fuel (suc (suc fuel)) fd s q.queue all e
            (omega (arith, ap length same, enough)) in
        (
          t,
          ran,
          record {
            queues = λ j. rest j ∙ ap (λ y. if fd == j then [] else y) (h.queues j);
            calls =
                ap writes log
                ∙ writes-written fd q.queue b.sent before s.log h.calls
                ∙ ap (λ ws. map message (sent_on fd ws b.sent) ++ before) same;
          },
        )
  ]

  step-Refines :
      (before : List (ℕ × List ℕ)) (fuel n : ℕ) (op : Op) (b : Outbox) (s : Server)
      → Refines before b s
      → ((j : ℕ) → length (b.waiting j) ≤ n)
      → n < suc (suc fuel)
      → (t : Server) × (step os (suc (suc fuel)) op s ≡ ok (tt, t)) × Refines before (apply op b) t
  step-Refines before fuel n (enqueue fd resp) b s h short enough =
      enqueue-Refines before (suc (suc fuel)) fd resp b s h
  step-Refines before fuel n (flush fd) b s h short enough =
      flush-Refines before fuel fd b s h (omega (arith, short fd, enough))

  apply_short :
      (n : ℕ) (op : Op) (b : Outbox)
      → ((j : ℕ) → length (b.waiting j) ≤ n)
      → (j : ℕ) → length ((apply op b).waiting j) ≤ suc n
  unfolding apply
  apply_short n (enqueue fd resp) b short j = elim (Bool-cases (fd == j)) [
    | inl e ↦ rw e (omega (arith, length-append (b.waiting fd) (resp ∷ []), short fd))
    | inr e ↦ rw e (omega (arith, short j))
  ]
  apply_short n (flush fd) b short j = elim (Bool-cases (fd == j)) [
    | inl e ↦ rw e (omega arith)
    | inr e ↦ rw e (omega (arith, short j))
  ]

  -- When the kernel takes each write whole and mutexes can be made, any sequence of putRespInQueue
  -- and of sending a queue, from a server whose queues are those of an outbox, ends and does to
  -- the server's queues and writes what the sequence does to the outbox: a response is put last
  -- in its descriptor's queue, and sending takes all of a queue, first the oldest. Fuel above the
  -- longest queue and the number of the operations is enough, and two at the least.
  pub run-Refines :
      (before : List (ℕ × List ℕ)) (fuel n : ℕ) (ops : List Op) (b : Outbox) (s : Server)
      → Refines before b s
      → ((j : ℕ) → length (b.waiting j) ≤ n)
      → n + length ops < suc (suc fuel)
      → (t : Server) × (run os (suc (suc fuel)) ops s ≡ ok (tt, t))
        × Refines before (apply_all ops b) t
  unfolding run apply_all
  run-Refines before fuel n [] b s h short enough = (s, refl, h)
  run-Refines before fuel n (op ∷ ops) b s h short enough =
      let (t, e, w) = step-Refines before fuel n op b s h short (omega (arith, enough)) in
      let (u, f, v) =
        run-Refines before fuel (suc n) ops (apply op b) t w (apply_short n op b short)
          (omega (arith, enough)) in
      (u, >>=-run (step os (suc (suc fuel)) op) (λ _. run os (suc (suc fuel)) ops) s t tt e ∙ f, v)
