-- ===== src/EpollServer/Safety/Accept.antt =====
-- What the accept loop and the receipt of a datagram keep.
use plib.Base.{refl, ℕ, zero, suc, ◌∷◌, inl, inr}
use plib.System.{Os, Ret-cases, is_positive, accept, recvfrom, sendto, fcntl_getfd, fcntl_setfl}
use plib.FdUtils.{set_fd_nonblock}
use plib.FdUtils.Laws.{set_fd_nonblock_log}
use plib.Memory.Block.{store, length-store}
use plib.EpollServer.State.{Server, pure, exit_with, buf_size}
use plib.EpollServer.Accept.{got, add_accepted, accept_all, udp_receive}
use plib.EpollServer.Safety.Rules.{Closed, Holds, Holds-bind, Holds-if_run, Holds-lift_bind}

module _ (os : Os) (P : Server → Type 0) (closed : Closed P) where
  set_nonblock_keeps :
      (fd : ℕ) (s : Server) → P s → P (record s { log = (set_fd_nonblock os fd s.log).log })
  set_nonblock_keeps fd s v =
      let t : Server = record s { log = fcntl_getfd fd ∷ s.log } in
      rw (set_fd_nonblock_log os fd s.log)
        (closed.call t (fcntl_setfl fd _) tt (closed.call s (fcntl_getfd fd) tt v))

  add_accepted_keeps : (fd : ℕ) (s : Server) → P s → Holds P (add_accepted os fd s)
  unfolding add_accepted
  add_accepted_keeps fd s v =
      let t : Server = record s { log = (set_fd_nonblock os fd s.log).log } in
      Holds-if_run P _ (pure tt) (exit_with 1) _ (closed.call t _ tt (set_nonblock_keeps fd s v)) tt

  pub accept_all_keeps : (fuel : ℕ) (s : Server) → P s → Holds P (accept_all os fuel s)
  unfolding accept_all
  accept_all_keeps zero s v = tt
  accept_all_keeps (suc fuel) s v = elim (Ret-cases (os.accept s.log)) [
    | inl (errno, e) ↦ rw (e, accept_all) (closed.call s _ tt v)
    | inr (fd, e) ↦
        let t : Server = record s { log = accept s.listenfd ∷ s.log } in
        let w : P t = closed.call s _ tt v in
        rw (e, accept_all)
          (Holds-if_run P (is_positive fd) _ (pure tt) t
            (Holds-bind P P (add_accepted os fd) _ t (add_accepted_keeps fd t w)
              (λ u t' w'. accept_all_keeps fuel t' w'))
            w)
  ]

  pub udp_receive_keeps : (s : Server) → P s → Holds P (udp_receive os s)
  unfolding udp_receive
  udp_receive_keeps s v =
      let t : Server = record s { log = recvfrom s.udpfd buf_size ∷ s.log } in
      let w : P t = closed.call s _ tt v in
      elim (Ret-cases (os.recvfrom s.log s.udpfd buf_size)) [
        | inl (errno, e) ↦ rw (e, udp_receive) w
        | inr (bytes, e) ↦
            let u : Server = record t { log = sendto s.udpfd got ∷ t.log } in
            rw (e, udp_receive)
              (Holds-lift_bind P (store s.recvbuffer 0 bytes) _ s λ buffer stored.
                closed.buffer u buffer (length-store s.recvbuffer 0 bytes stored)
                  (closed.call t _ (refl, refl) w))
      ]
