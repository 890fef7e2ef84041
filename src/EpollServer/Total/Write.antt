-- ===== src/EpollServer/Total/Write.antt =====
-- The fuel of the EPOLLOUT part.
use plib.Base.{
  Ends, Ends-if, ℕ, zero, suc, ◌-◌, ◌<◌, ◌≡◌, refl, List, [], ◌∷◌, some, ok, length, drop, ◌==◌,
  ltb, arith, Bool-cases, Option-cases, inl, inr, subst,
}
use plib.System.{Os, Ret-cases, EpollEvent, write}
use plib.SharedQueue
use plib.SharedQueue.{SharedQueue}
use plib.StdMap.{find, assign}
use plib.StdMap.Laws.{find-assign}
use plib.Vote.{ReqeustVoteResp}
use plib.Vote.Wire.{resp_wire}
use plib.EpollServer.State.{Server, pure}
use plib.EpollServer.Registry.{rm_bad_fd}
use plib.EpollServer.Registry.Queues.{queued, items}
use plib.EpollServer.Read.{eagain}
use plib.EpollServer.Write.Sends.{send_resp_lem}
use plib.EpollServer.Write.{write_loop, send_resp, send_all, epoll_write}
use plib.EpollServer.Safety.Write.{send_resp_keeps}
use plib.EpollServer.Total.Rules.{Ends-bind, Ends-if_run, any_Holds}
use plib.EpollServer.Total.Read.{rm_bad_fd-Ends}

module _ (os : Os) where
  written-Ends :
      (fuel fd : ℕ) (body : List ℕ) (size : ℕ) (s : Server)
      → size ≡ 0
      → Ends (write_loop os (suc fuel) fd body size s)
  unfolding write_loop
  written-Ends fuel fd body size s e = rw e tt

  pub write_loop-Ends :
      (fuel fd : ℕ) (body : List ℕ) (size : ℕ) (s : Server)
      → Ends (write_loop os (suc (suc fuel)) fd body size s)
  unfolding write_loop
  write_loop-Ends fuel fd body size s =
      let left = drop (length body - size) body in
      let t : Server = record s { log = write fd left ∷ s.log } in
      Ends-if (size == 0) (ok (tt, s)) _ tt (elim (Ret-cases (os.write s.log fd left)) [
        | inl (errno, e) ↦
            rw (e, Ends) (Ends-if (errno == eagain) (ok (tt, t)) _ tt (rm_bad_fd-Ends os fd t))
        | inr (n, e) ↦
            rw (e, Ends)
              (elim (Bool-cases (ltb n size)) [
                | inl p ↦ rw p tt
                | inr p ↦ rw p (written-Ends fuel fd body (size - n) t (ground arith))
              ])
      ])

  send_resp-Ends :
      (fuel fd : ℕ) (resp : ReqeustVoteResp) (s : Server)
      → Ends (send_resp os (suc (suc fuel)) fd resp s)
  send_resp-Ends fuel fd resp s =
      rw (send_resp_lem os (suc (suc fuel)) fd resp s)
        (write_loop-Ends fuel fd (resp_wire resp) 36 s)

  send_all-Ends :
      (fuel rounds fd : ℕ) (s : Server) (rs : List ReqeustVoteResp)
      → find fd s.resp_message_map ≡ some (record { queue = rs })
      → length rs < rounds
      → Ends (send_all os (suc (suc fuel)) rounds fd s)
  unfolding send_all SharedQueue.front SharedQueue.pop_front
  send_all-Ends fuel zero fd s rs found enough = absurd (omega arith)
  send_all-Ends fuel (suc rounds) fd s [] found enough = rw (found, send_all, Ends) tt
  send_all-Ends fuel (suc rounds) fd s (r ∷ rs) found enough =
      let m = assign fd (record { queue = rs }) s.resp_message_map in
      let s1 : Server = record s { resp_message_map = m } in
      let kept : find fd m ≡ some (record { queue = rs }) =
        rw (find-assign fd fd (record { queue = rs }) _ s.resp_message_map found) (ground arith) in
      rw (found, send_all)
        (Ends-bind (λ t. t.resp_message_map ≡ m) (send_resp os (suc (suc fuel)) fd r) _ s1
          (send_resp-Ends fuel fd r s1)
          (send_resp_keeps os (λ t. t.resp_message_map ≡ m)
            (record { call = λ t c harmless h. h; buffer = λ t bytes size h. h }) (suc (suc fuel))
            fd r s1 refl)
          λ u t h. send_all-Ends fuel rounds fd t rs (rw h kept) (omega arith))

  -- The EPOLLOUT part ends with fuel for a round for each response and one more.
  pub epoll_write-Ends :
      (fuel : ℕ) (event : EpollEvent) (s : Server)
      → length (queued s event.fd) < suc (suc fuel)
      → Ends (epoll_write os (suc (suc fuel)) event s)
  unfolding epoll_write
  epoll_write-Ends fuel event s enough = elim (Option-cases (find event.fd s.resp_message_map)) [
    | inl e ↦ rw (e, epoll_write, Ends) tt
    | inr (q, e) ↦
        rw (e, epoll_write)
          (Ends-bind (λ t. Unit {0}) (send_all os (suc (suc fuel)) (suc (suc fuel)) event.fd) _ s
            (send_all-Ends fuel (suc (suc fuel)) event.fd s q.queue e
              (subst (λ m. length (items m) < suc (suc fuel)) e enough))
            (any_Holds (send_all os (suc (suc fuel)) (suc (suc fuel)) event.fd) s)
            λ u t w.
              Ends-if_run _ (pure tt) (rm_bad_fd os event.fd) _ tt (rm_bad_fd-Ends os event.fd _))
  ]
