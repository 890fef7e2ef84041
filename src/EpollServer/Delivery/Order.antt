-- ===== src/EpollServer/Delivery/Order.antt =====
-- Each descriptor is written the responses that are queued for it, in their order.
use mathlib.Core.List.{map-append}
use plib.Base.{
  ℕ, suc, ◌<◌, ◌≡◌, refl, List, [], ◌∷◌, ◌++◌, map, true, ok, length, ◌==◌, if◌then◌else◌, arith,
  Bool-cases, inl, inr, ==_iff, subst, sym, ap, ap₂, ◌∙◌, append_assoc, append-nil,
}
use plib.System.{Os, Log, write}
use plib.Vote.{ReqeustVoteResp}
use plib.Vote.Wire.{resp_wire}
use plib.EpollServer.State.{Server}
use plib.EpollServer.Registry.Queues.{queued, writes}
use plib.EpollServer.Write.Sends.{WritesAll, written}
use plib.EpollServer.Delivery.{
  Op, enqueue, flush, run, Outbox, sent_on, apply, apply_all, message, Refines, run-Refines,
}

-- What goes to a descriptor, first the oldest, of a list that starts with the newest.
abbrev pub to {ℓ} : {A : Type ℓ} → ℕ → List (ℕ × A) → List A
to fd [] = []
to fd ((j, x) ∷ sent) = let rest = to fd sent in if j == fd then rest ++ x ∷ [] else rest

-- The responses that a sequence queues for a descriptor.
abbrev pub enqueued : ℕ → List Op → List ReqeustVoteResp
enqueued fd [] = []
enqueued fd (enqueue j r ∷ ops) = let rest = enqueued fd ops in if j == fd then r ∷ rest else rest
enqueued fd (flush j ∷ ops) = enqueued fd ops

to-sent_on :
    (fd j : ℕ) (rs : List ReqeustVoteResp) (sent : List (ℕ × ReqeustVoteResp))
    → to fd (sent_on j rs sent) ≡ to fd sent ++ (if j == fd then rs else [])
to-sent_on fd j [] sent = elim (Bool-cases (j == fd)) [
  | inl e ↦ rw e (sym (append-nil (to fd sent)))
  | inr e ↦ rw e (sym (append-nil (to fd sent)))
]
to-sent_on fd j (r ∷ rs) sent = to-sent_on fd j rs ((j, r) ∷ sent) ∙ (elim (Bool-cases (j == fd)) [
  | inl e ↦ rw e (append_assoc (to fd sent) (r ∷ []) rs)
  | inr e ↦ rw e refl
])

to-message :
    (fd : ℕ) (sent : List (ℕ × ReqeustVoteResp))
    → to fd (map message sent) ≡ map resp_wire (to fd sent)
to-message fd [] = refl
to-message fd ((j, r) ∷ sent) = elim (Bool-cases (j == fd)) [
  | inl e ↦ rw e (
      ap (λ w. w ++ resp_wire r ∷ []) (to-message fd sent)
      ∙ sym (map-append resp_wire (to fd sent) (r ∷ [])))
  | inr e ↦ rw e (to-message fd sent)
]

-- What has been sent to a descriptor and what waits for it, in their order.
all_for : ℕ → Outbox → List ReqeustVoteResp
all_for fd b = to fd b.sent ++ b.waiting fd

regroup :
    (t w e : List ReqeustVoteResp) (r : ReqeustVoteResp)
    → (t ++ (w ++ r ∷ [])) ++ e ≡ (t ++ w) ++ (r ∷ e)
regroup t w e r =
    ap (λ x. x ++ e) (sym (append_assoc t w (r ∷ []))) ∙ append_assoc (t ++ w) (r ∷ []) e

-- Sending a queue changes nothing of what has been sent and waits together.
flush-all_for : (fd j : ℕ) (b : Outbox) → all_for fd (apply (flush j) b) ≡ all_for fd b
unfolding apply all_for
flush-all_for fd j b =
    let sent = to fd b.sent in
    ap (λ x. x ++ (if j == fd then [] else b.waiting fd)) (to-sent_on fd j (b.waiting j) b.sent)
    ∙ (elim (Bool-cases (j == fd)) [
      | inl e ↦
          rw e
            (append-nil (sent ++ b.waiting j) ∙ ap (λ i. sent ++ b.waiting i) ((==_iff j fd).0 e))
      | inr e ↦ rw e (ap (λ x. x ++ b.waiting fd) (append-nil sent))
    ])

apply_all-all_for :
    (fd : ℕ) (ops : List Op) (b : Outbox)
    → all_for fd (apply_all ops b) ≡ all_for fd b ++ enqueued fd ops
unfolding apply_all apply all_for
apply_all-all_for fd [] b = sym (append-nil (to fd b.sent ++ b.waiting fd))
apply_all-all_for fd (enqueue j r ∷ ops) b =
    apply_all-all_for fd ops (apply (enqueue j r) b) ∙ (elim (Bool-cases (j == fd)) [
      | inl e ↦
          let sent = to fd b.sent in
          let rest = enqueued fd ops in
          rw e (
            subst
              (λ i.
                (sent ++ (b.waiting i ++ r ∷ [])) ++ rest ≡ (sent ++ b.waiting fd) ++ (r ∷ rest))
              (sym ((==_iff j fd).0 e)) (regroup sent (b.waiting fd) rest r))
      | inr e ↦ rw e refl
    ])
apply_all-all_for fd (flush j ∷ ops) b =
    apply_all-all_for fd ops (apply (flush j) b)
    ∙ ap (λ w. w ++ enqueued fd ops) (flush-all_for fd j b)

-- When the kernel takes each write whole and mutexes can be made, any sequence of putRespInQueue and
-- of sending a queue, from a server with nothing queued and no write in its log, ends with each
-- descriptor's writes and then its queue being the responses that were queued for it, each once and
-- in their order. Fuel above the number of the operations is enough, and two at the least.
pub run_delivers :
    (os : Os) (fuel : ℕ) (ops : List Op) (s : Server)
    → WritesAll os
    → ((log : Log) → os.mutex_init log ≡ true)
    → ((fd : ℕ) → queued s fd ≡ [])
    → writes s.log ≡ []
    → length ops < suc (suc fuel)
    → (t : Server) × (run os (suc (suc fuel)) ops s ≡ ok (tt, t))
      × ((fd : ℕ)
          → to fd (writes t.log) ++ map resp_wire (queued t fd) ≡ map resp_wire (enqueued fd ops))
unfolding all_for
run_delivers os fuel ops s all made empty quiet enough =
    let b : Outbox = record { waiting = λ j. []; sent = [] } in
    let start : Refines [] b s = record { queues = empty; calls = quiet } in
    let (t, e, h) =
      run-Refines os all made [] fuel 0 ops b s start (λ j. omega arith) (omega (arith, enough)) in
    let after = apply_all ops b in
    (
      t,
      e,
      λ fd.
          ap₂ (λ x y. to fd x ++ map resp_wire y) (h.calls ∙ append-nil (map message after.sent))
            (h.queues fd)
          ∙ ap (λ x. x ++ map resp_wire (after.waiting fd)) (to-message fd after.sent)
          ∙ sym (map-append resp_wire (to fd after.sent) (after.waiting fd))
          ∙ ap (map resp_wire) (apply_all-all_for fd ops b),
    )

pub to-written :
    (fd : ℕ) (rs : List ReqeustVoteResp) (log : Log)
    → to fd (writes (written fd rs log)) ≡ to fd (writes log) ++ map resp_wire rs
to-written fd [] log = sym (append-nil (to fd (writes log)))
to-written fd (r ∷ rs) log =
    let own : (fd == fd) ≡ true = (==_iff fd fd).1 refl in
    let sent = to fd (writes log) in
    to-written fd rs (write fd (resp_wire r) ∷ log)
    ∙ ap (λ b. (if b then sent ++ resp_wire r ∷ [] else sent) ++ map resp_wire rs) own
    ∙ append_assoc sent (resp_wire r ∷ []) (map resp_wire rs)
