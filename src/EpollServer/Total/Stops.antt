-- ===== src/EpollServer/Total/Stops.antt =====
-- The end of the service loop when another thread calls closeEpollServer.
use native.Mathlib.Nat.{suc-mul}
use plib.Base.{
  Ends, ℕ, zero, suc, ◌+◌, ◌*◌, ◌≤◌, ◌<◌, ◌≡◌, refl, [], ◌∷◌, Bool, true, false, Run, ok, undefined,
  exits, spins, if◌then◌else◌, arith, Bool-cases, Option-cases, leb-cases, inl, inr,
}
use plib.System.{Os, Log, Call, Ret-cases, epoll_wait}
use plib.SharedQueue
use plib.StdMap.{find}
use plib.Vote.{ReqeustVoteResp}
use plib.EpollServer.State.{Server, M, ◌>>=◌, pure, buf_size}
use plib.EpollServer.Registry.{put_resp_in_queue, close_epoll_server}
use plib.EpollServer.Read.Requests.{response}
use plib.EpollServer.Service.{serve_round, see_close, service_loop, init_service}
use plib.EpollServer.Safety.Rules.{Holds, Holds-both, Holds-lift_bind}
use plib.EpollServer.Safety.Service.{Kept, handle_events_keeps}
use plib.EpollServer.Total.Accept.{Pending}
use plib.EpollServer.Total.Loop.{Short, Bounded, serve_round-Ends, serve_round-Short}

-- How often epoll_wait has been called.
abbrev pub waits : Log → ℕ
waits [] = 0
waits (epoll_wait ∷ log) = suc (waits log)
waits (_ ∷ log) = waits log

-- By the time that epoll_wait has been called `last` times, another thread has called
-- closeEpollServer.
abbrev pub Requested : Os → ℕ → Type 0
Requested os last = (log : Log) → last ≤ waits log → os.close_requested log ≡ true

Waited : ℕ → Server → Type 0
Waited k s = k ≤ waits s.log

waits-call : (c : Call) (log : Log) → waits log ≤ waits (c ∷ log)
waits-call epoll_wait log = omega arith
waits-call _ log = omega arith

module _ (os : Os) where
  Waited-answer :
      (k fd : ℕ) (resp : ReqeustVoteResp) (s : Server)
      → Waited k s
      → Holds (Waited k) (put_resp_in_queue os fd resp s)
  unfolding put_resp_in_queue Waited
  Waited-answer k fd resp s v = elim (Option-cases (find fd s.resp_message_map)) [
    | inl e ↦
        rw (e, put_resp_in_queue)
          (Holds-lift_bind (Waited k) (SharedQueue.make_with (os.mutex_init s.log) resp) _ s
            (λ q made. v))
    | inr (q, e) ↦ rw (e, put_resp_in_queue) v
  ]

  Waited-Kept : (k : ℕ) → Kept os (Waited k)
  unfolding Waited close_epoll_server
  Waited-Kept k = record {
    closed = record {
      call = λ s c harmless v. omega (arith, v, waits-call c s.log);
      buffer = λ s bytes e v. v;
    };
    answer = λ fd req s. Waited-answer k fd (response os req s) s;
    elect = λ s l v. v;
    sent = λ s fd q resp e first v. v;
    clear = λ s v. v;
    close = λ s v. v;
  }

  -- A round waits once more.
  serve_round-Waited :
      (fuel : ℕ) (s : Server) → Holds (Waited (suc (waits s.log))) (serve_round os fuel s)
  unfolding serve_round Waited
  serve_round-Waited fuel s = elim (Ret-cases (os.epoll_wait s.log)) [
    | inl (errno, e) ↦ rw (e, serve_round, Holds) (omega arith)
    | inr (events, e) ↦
        rw (e, serve_round)
          (handle_events_keeps os (Waited (suc (waits s.log))) (Waited-Kept (suc (waits s.log)))
            fuel events _ (omega arith))
  ]

-- The loop has ended because keep_running is false, or the process has.
abbrev pub Stops : Run (Bool × Server) → Type 0
Stops (ok (over, s)) = (over ≡ true) × (s.keep_running ≡ false)
Stops undefined = Unit {0}
Stops (exits code) = Unit {0}
Stops spins = ⊥

Stops-bind :
    {A : Type 0} (P : Server → Type 0) (m : M A) (f : A → M Bool) (s : Server)
    → Ends (m s)
    → Holds P (m s)
    → ((a : A) (t : Server) → P t → Stops (f a t))
    → Stops ((m >>= f) s)
Stops-bind {A} P m f s = go (m s)
  where
    go :
        (r : Run (A × Server))
        → Ends r
        → Holds P r
        → ((a : A) (t : Server) → P t → Stops (f a t))
        → Stops (elim r as (λ x. Run (Bool × Server)) [
          | ok (a, t) ↦ f a t
          | undefined ↦ undefined
          | exits code ↦ exits code
          | spins ↦ spins
        ])
    go (ok (a, t)) e h k = k a t h
    go undefined e h k = tt
    go (exits c) e h k = tt
    go spins e h k = absurd e

Stops-if :
    (c : Bool) (m k : M Bool) (s : Server)
    → (c ≡ true → Stops (m s))
    → (c ≡ false → Stops (k s))
    → Stops ((if c then m else k) s)
Stops-if true m k s h w = h refl
Stops-if false m k s h w = w refl

module _ (os : Os) (bound width last fuel : ℕ) (pending : Pending os bound)
    (bounded : Bounded os width) (requested : Requested os last) (arrivals : bound < fuel)
    (room : buf_size < fuel) where
  not_yet : (log : Log) → os.close_requested log ≡ false → waits log < last
  not_yet log e = elim (leb-cases last (waits log)) [
    | inl late ↦ absurd (ground (arith, requested log late, e))
    | inr early ↦ early
  ]

  service_loop-Stops :
      (n rounds : ℕ) (s : Server)
      → Short n s
      → n + rounds * width < fuel
      → 0 < rounds
      → last < waits s.log + rounds
      → Stops (service_loop os fuel rounds s)
  unfolding service_loop see_close close_epoll_server Waited
  service_loop-Stops n zero s short enough some late = absurd (omega arith)
  service_loop-Stops n (suc rounds) s short enough some late =
      elim (Bool-cases (os.close_requested s.log)) [
        | inl e ↦ rw e (refl, refl)
        | inr e ↦ rw e (
            Stops-if s.keep_running _ (pure true) s
              (λ running.
                let early : waits s.log < last = not_yet s.log e in
                Stops-bind (λ t. Short (n + width) t × Waited (suc (waits s.log)) t)
                  (serve_round os fuel) _ s
                  (serve_round-Ends os bound fuel pending arrivals room width bounded n s short
                    (omega (arith, suc-mul rounds width, enough)))
                  (Holds-both (Short (n + width)) (Waited (suc (waits s.log))) _
                    (serve_round-Short os bound fuel pending arrivals room width bounded n s short)
                    (serve_round-Waited os fuel s))
                  λ u t (shorter, w).
                    service_loop-Stops (n + width) rounds t shorter
                      (omega (arith, suc-mul rounds width, enough)) (omega (arith, late, early))
                      (omega (arith, w, late)))
              (λ over. (refl, over)))
      ]

  -- When at most `bound` connections ever arrive, epoll_wait gives at most `width` events at a time,
  -- no descriptor has more than n responses queued at the start, and the fuel is above `bound`,
  -- above the size of the buffer and above n and `width` for each round: if another thread has
  -- called closeEpollServer by the time that epoll_wait has been called `last` times, and the
  -- calls before the start and the rounds, of which there is at least one, are more than that, then
  -- the service does not run out
  -- of fuel or rounds. It ends because keep_running is false, unless the process exits or its
  -- behaviour becomes undefined before.
  pub init_service-Stops :
      (n rounds : ℕ) (s : Server)
      → Short n s
      → n + rounds * width < fuel
      → 0 < rounds
      → last < waits s.log + rounds
      → Stops (init_service os fuel rounds s)
  unfolding init_service
  init_service-Stops n rounds s short = service_loop-Stops n rounds _ short
