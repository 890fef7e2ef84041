-- ===== src/EpollServer/Safety/Write.antt =====
-- What the EPOLLOUT part of the event loop keeps.
use plib.Base.{
  ℕ, zero, suc, ◌-◌, ◌≡◌, List, ◌∷◌, Bool, some, ok, Bool-cases, Option-cases, inl, inr, ◌==◌,
  arith, ltb, if◌then◌else◌,
}
use plib.System.{Os, Ret-cases, EpollEvent, write}
use plib.StdMap.{find, assign}
use plib.SharedQueue
use plib.SharedQueue.{SharedQueue}
use plib.Vote.{ReqeustVoteResp}
use plib.Vote.Wire.{resp_wire}
use plib.EpollServer.State.{Server, pure}
use plib.EpollServer.Registry.{rm_bad_fd}
use plib.EpollServer.Read.{eagain}
use plib.EpollServer.Write.{write_loop, send_resp, send_all, epoll_write}
use plib.EpollServer.Write.Sends.{send_resp_lem}
use plib.EpollServer.Safety.Rules.{Closed, Holds, Holds-bind, Holds-if, Holds-if_run}
use plib.EpollServer.Safety.Registry.{rm_bad_fd_keeps}

module _ (os : Os) (P : Server → Type 0) (closed : Closed P) where
  nothing_left_keeps :
      (fuel fd size : ℕ) (body : List ℕ) (s : Server)
      → size ≡ 0
      → P s
      → Holds P (write_loop os fuel fd body size s)
  unfolding write_loop
  nothing_left_keeps zero fd size body s e v = tt
  nothing_left_keeps (suc fuel) fd size body s e v = rw e v

  -- A write is of the whole message: one that takes fewer bytes is the last.
  write_loop_keeps :
      (fuel fd : ℕ) (r : ReqeustVoteResp) (s : Server)
      → P (record s { log = write fd (resp_wire r) ∷ s.log })
      → Holds P (write_loop os fuel fd (resp_wire r) 36 s)
  unfolding write_loop
  write_loop_keeps zero fd r s v = tt
  write_loop_keeps (suc fuel) fd r s w =
      let t : Server = record s { log = write fd (resp_wire r) ∷ s.log } in
      elim (Ret-cases (os.write s.log fd (resp_wire r))) [
        | inl (errno, e) ↦
            rw e
              (Holds-if P (errno == eagain) (ok (tt, t)) _ w (rm_bad_fd_keeps os P closed fd t w))
        | inr (n, e) ↦ rw e (elim (Bool-cases (ltb n 36)) [
          | inl short ↦ rw short w
          | inr whole ↦
              rw whole (nothing_left_keeps fuel fd (36 - n) (resp_wire r) t (ground arith) w)
        ])
      ]

  pub send_resp_keeps :
      (fuel fd : ℕ) (resp : ReqeustVoteResp) (s : Server)
      → P (record s { log = write fd (resp_wire resp) ∷ s.log })
      → Holds P (send_resp os fuel fd resp s)
  send_resp_keeps fuel fd resp s v =
      rw (send_resp_lem os fuel fd resp s) (write_loop_keeps fuel fd resp s v)

module _ (os : Os) (P : Server → Type 0) (closed : Closed P)
    (sent : (s : Server) (fd : ℕ) (q : SharedQueue ReqeustVoteResp) (resp : ReqeustVoteResp)
      → find fd s.resp_message_map ≡ some q
      → SharedQueue.front q ≡ some resp
      → P s
      → P (record s {
        resp_message_map = assign fd (SharedQueue.pop_front q) s.resp_message_map;
        log = write fd (resp_wire resp) ∷ s.log;
      })) where
  send_all_keeps : (fuel rounds fd : ℕ) (s : Server) → P s → Holds P (send_all os fuel rounds fd s)
  unfolding send_all
  send_all_keeps fuel zero fd s v = tt
  send_all_keeps fuel (suc rounds) fd s v = elim (Option-cases (find fd s.resp_message_map)) [
    | inl e ↦ rw (e, send_all) v
    | inr (q, e) ↦
        rw (e, send_all)
          (elim (Option-cases (SharedQueue.front q)) [
            | inl e' ↦ rw e' v
            | inr (resp, e') ↦
                let t : Server = record s {
                  resp_message_map = assign fd (SharedQueue.pop_front q) s.resp_message_map;
                } in
                rw e' (
                  Holds-bind P P (send_resp os fuel fd resp) _ t
                    (send_resp_keeps os P closed fuel fd resp t (sent s fd q resp e e' v))
                    (λ u t' w. send_all_keeps fuel rounds fd t' w))
          ])
  ]

  watched_keeps :
      (changed : Bool) (fd : ℕ) (s : Server)
      → P s
      → Holds P ((if changed then pure tt else rm_bad_fd os fd) s)
  watched_keeps changed fd s v =
      Holds-if_run P changed (pure tt) (rm_bad_fd os fd) s v (rm_bad_fd_keeps os P closed fd s v)

  pub epoll_write_keeps :
      (fuel : ℕ) (event : EpollEvent) (s : Server) → P s → Holds P (epoll_write os fuel event s)
  unfolding epoll_write
  epoll_write_keeps fuel event s v = elim (Option-cases (find event.fd s.resp_message_map)) [
    | inl e ↦ rw (e, epoll_write) v
    | inr (q, e) ↦
        rw (e, epoll_write)
          (Holds-bind P P (send_all os fuel fuel event.fd) _ s
            (send_all_keeps fuel fuel event.fd s v)
            λ u t w. watched_keeps _ event.fd _ (closed.call t _ tt w))
  ]
