-- ===== src/EpollServer/Total/Accept.antt =====
-- The fuel of the accept loop.
use plib.Base.{Ends, ℕ, zero, suc, ◌+◌, ◌≤◌, ◌<◌, ◌≡◌, refl, [], ◌∷◌, arith, inl, inr}
use plib.System.{Os, Log, Ret-cases, failed, is_positive, accept, epoll_ctl, EpollEvent, Ctl}
use plib.FdUtils.{set_fd_nonblock}
use plib.FdUtils.Laws.{set_fd_nonblock_log}
use plib.EpollServer.State.{Server, pure, exit_with}
use plib.EpollServer.Accept.{accept_events, add_accepted, accept_all}
use plib.EpollServer.Safety.Rules.{Holds, Holds-if_run}
use plib.EpollServer.Total.Rules.{Ends-bind, Ends-if_run}

-- The number of calls of accept.
pub accepts : Log → ℕ
accepts [] = 0
accepts (accept fd ∷ log) = suc (accepts log)
accepts (c ∷ log) = accepts log

-- No more than `bound` connections ever arrive.
abbrev pub Pending : Os → ℕ → Type 0
Pending os bound = (log : Log) → bound ≤ accepts log → (errno : ℕ) × (os.accept log ≡ failed errno)

module _ (os : Os) where
  add_accepted-Ends : (fd : ℕ) (s : Server) → Ends (add_accepted os fd s)
  unfolding add_accepted
  add_accepted-Ends fd s = Ends-if_run _ (pure tt) (exit_with 1) _ tt tt

  add_accepted-accepts :
      (fd : ℕ) (s : Server) → Holds (λ t. accepts t.log ≡ accepts s.log) (add_accepted os fd s)
  unfolding add_accepted accepts
  add_accepted-accepts fd s =
      let logged = (set_fd_nonblock os fd s.log).log in
      let event : EpollEvent = record { events = accept_events; fd = fd } in
      Holds-if_run (λ t. accepts t.log ≡ accepts s.log) (os.epoll_ctl logged Ctl.add fd event)
        (pure tt) (exit_with 1) (record s { log = epoll_ctl Ctl.add fd event ∷ logged })
        (rw (set_fd_nonblock_log os fd s.log) refl) tt

  accepting-Ends :
      (bound fuel : ℕ) (s : Server)
      → Pending os bound
      → bound ≤ fuel + accepts s.log
      → Ends (accept_all os (suc fuel) s)
  unfolding accept_all accepts
  accepting-Ends bound zero s pending enough =
      let (errno, e) = pending s.log (omega arith) in rw (e, accept_all, Ends) tt
  accepting-Ends bound (suc fuel) s pending enough = elim (Ret-cases (os.accept s.log)) [
    | inl (errno, e) ↦ rw (e, accept_all, Ends) tt
    | inr (fd, e) ↦
        let t : Server = record s { log = accept s.listenfd ∷ s.log } in
        rw (e, accept_all)
          (Ends-if_run (is_positive fd) _ (pure tt) t
            (Ends-bind (λ u. accepts u.log ≡ accepts t.log) (add_accepted os fd) _ t
              (add_accepted-Ends fd t) (add_accepted-accepts fd t)
              (λ v u w. accepting-Ends bound fuel u pending (omega (arith, w))))
            tt)
  ]

  pub accept_all-Ends :
      (bound fuel : ℕ) (s : Server) → Pending os bound → bound < fuel → Ends (accept_all os fuel s)
  accept_all-Ends bound zero s pending enough = elim enough [ ]
  accept_all-Ends bound (suc fuel) s pending enough =
      accepting-Ends bound fuel s pending (omega arith)
