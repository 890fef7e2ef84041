-- ===== src/EpollServer/Safety/Registry.antt =====
-- What the methods that change registrations keep.
use plib.Base.{
  ℕ, ◌≢◌, ◌∷◌, Bool, true, false, get_elem?, arith, Bool-cases, Option-cases, inl, inr,
  if◌then◌else◌, ◌==◌,
}
use plib.System.{Os, EpollEvent, Ctl, close, epoll_ctl}
use plib.StdMap.{find}
use plib.TcpClient.{ProtocalClientTcp}
use plib.EpollServer.State.{Server, ◌>>◌, pure, ctl, deref, no_events}
use plib.EpollServer.Registry.{
  mod_client_epoll_event, drop_fd, rm_client_fd, rm_bad_fd, reg_epoll_response,
}
use plib.EpollServer.Safety.Rules.{IsHarmless, Closed, Holds, Holds-bind}

module _ (os : Os) (P : Server → Type 0) (closed : Closed P) where
  pub mod_client_keeps :
      (c : ProtocalClientTcp) (s : Server) → P s → Holds P (mod_client_epoll_event os c s)
  unfolding mod_client_epoll_event
  mod_client_keeps c s v = closed.call s _ tt v

  deref_keeps : (p : ℕ) (s : Server) → P s → Holds P (deref p s)
  deref_keeps p s v = elim (Option-cases (get_elem? s.tcp_clients p)) [
    | inl e ↦ rw (e, deref) tt
    | inr (c, e) ↦ rw (e, deref) v
  ]

  drop_fd_keeps : (fd : ℕ) (s : Server) → P s → IsHarmless s (close fd) → Holds P (drop_fd os fd s)
  unfolding drop_fd
  drop_fd_keeps fd s v h =
      let event : EpollEvent = record { events = no_events; fd = fd } in
      let t : Server = record s { log = epoll_ctl Ctl.del fd event ∷ s.log } in
      closed.call t (close fd) h (closed.call s (epoll_ctl Ctl.del fd event) tt v)

  rm_client_fd_keeps :
      (fd : ℕ) (s : Server) → P s → fd ≢ s.listenfd → fd ≢ s.udpfd → Holds P (rm_client_fd os fd s)
  unfolding rm_client_fd
  rm_client_fd_keeps fd s v nl nu = elim (Option-cases (find fd s.clientmap)) [
    | inl e ↦ rw (e, rm_client_fd) (drop_fd_keeps fd s v (nl, nu, e))
    | inr (p, e) ↦
        rw (e, rm_client_fd)
          (Holds-bind P P (deref p) (mod_client_epoll_event os) s (deref_keeps p s v)
            (λ client t w. mod_client_keeps client t w))
  ]

  pub rm_bad_fd_keeps : (fd : ℕ) (s : Server) → P s → Holds P (rm_bad_fd os fd s)
  unfolding rm_bad_fd
  rm_bad_fd_keeps fd s v = elim (Bool-cases (fd == s.listenfd)) [
    | inl e ↦ rw e (closed.call s _ tt v)
    | inr e ↦ rw e (elim (Bool-cases (fd == s.udpfd)) [
      | inl e' ↦ rw e' (closed.call s _ tt v)
      | inr e' ↦ rw e' (rm_client_fd_keeps fd s v (λ q. ground arith) (λ q. ground arith))
    ])
  ]

  registered_keeps :
      (changed : Bool) (fd : ℕ) (s : Server)
      → P s
      → Holds P ((if changed then pure true else (do rm_bad_fd os fd; pure false)) s)
  registered_keeps true fd s v = v
  registered_keeps false fd s v =
      Holds-bind P P (rm_bad_fd os fd) _ s (rm_bad_fd_keeps fd s v) (λ u t w. w)

  pub reg_epoll_response_keeps :
      (event : EpollEvent) (fd : ℕ) (s : Server) → P s → Holds P (reg_epoll_response os event fd s)
  unfolding reg_epoll_response
  reg_epoll_response_keeps event fd s v =
      Holds-bind P P (ctl os Ctl.mod_ fd _) _ s (closed.call s _ tt v)
        (λ changed t w. registered_keeps changed fd t w)
