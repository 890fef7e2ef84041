-- ===== src/Tests/Stops.antt =====
-- The service on a kernel that reports one event, stopped by another thread after a round.
use plib.Base.{ℕ, refl, ap, List, [], ◌∷◌, length, leb, le→leb, arith}
use plib.System.{Os, EpollEvent, Ret, done, failed}
use plib.EpollServer.Service.{init_service}
use plib.EpollServer.Total.Loop.{Short, Bounded}
use plib.EpollServer.Total.Stops.{waits, Requested, Stops, init_service-Stops}
use plib.StdMap.{find}
use plib.Tests.World.{scripted, sample_server, sample_event}

abbrev stopping : Os
stopping = record (scripted []) {
  epoll_wait = λ log. done (sample_event ∷ []);
  close_requested = λ log. leb 1 (waits log);
}

stopping-Requested : Requested stopping 1
stopping-Requested log h = le→leb 1 (waits log) h

abbrev counted : Ret (List EpollEvent) → ℕ
counted (failed errno) = 0
counted (done events) = length events

stopping-Bounded : Bounded stopping 1
stopping-Bounded log events e = omega (arith, ap counted e)

sample_server-Short : Short 2 sample_server
unfolding find
sample_server-Short fd = ground arith

init_service-Stops_example : Stops (init_service stopping 5000 2 sample_server)
init_service-Stops_example =
    init_service-Stops stopping 0 1 1 5000 (λ log h. (11, refl)) stopping-Bounded stopping-Requested
      (omega arith) (omega arith) 2 2 sample_server sample_server-Short (omega arith) (omega arith)
      (omega arith)
