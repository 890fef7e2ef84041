-- ===== src/Draft/EchoServer/Turns.antt =====
-- Clients that take turns: each is ready to be written to before the next one sends something.
use plib.Base.{
  ℕ, ◌<◌, ◌≡◌, ◌≢◌, refl, List, [], ◌∷◌, All, false, Run, ok, ◌>>=◌, >>=-ok, length, arith, ◌∙◌, ap,
  ◌==◌,
}
use plib.System.{Os, Log, done, read, write}
use plib.Draft.EchoServer.{Session, input, output, modify_event, do_read, do_write, after_write}
use plib.Draft.EchoServer.Loop.{dispatch}
use plib.Draft.EchoServer.Echo.{IsText, holding, read_text, write_text}

-- A client and the text that it sends.
pub record Turn : Type 0 where
  pub client : ℕ
  pub text : List ℕ

-- A turn, as the loop over the events serves it: an event with input, and then one with output.
unfoldable pub serve_turn : Os → ℕ → Turn → Session → Run Session
serve_turn os listenfd turn s = do
  t ← dispatch os listenfd (record { events = input; fd = turn.client }) s
  dispatch os listenfd (record { events = output; fd = turn.client }) t

unfoldable pub serve_turns : Os → ℕ → List Turn → Session → Run Session
serve_turns os listenfd [] s = ok s
serve_turns os listenfd (turn ∷ turns) s = do
  t ← serve_turn os listenfd turn s
  serve_turns os listenfd turns t

-- The calls of turns whose texts are sent back.
abbrev pub turn_log : Turn → Log → Log
turn_log turn log =
    let fd = turn.client in
    modify_event fd input (write fd turn.text ∷ modify_event fd output (read fd 1024 ∷ log))

abbrev pub turns_log : List Turn → Log → Log
turns_log [] log = log
turns_log (turn ∷ turns) log = turns_log turns (turn_log turn log)

-- A client other than the listening socket sends a text that fits.
pub record IsTurn (listenfd : ℕ) (turn : Turn) : Type 0 where
  pub other : turn.client ≢ listenfd
  pub is_text : IsText turn.text
  pub some : 0 < length turn.text
  pub short : length turn.text < 1024

-- From the given history on, each turn's read gives its text and its write is done.
abbrev pub Hears : Os → List Turn → Log → Type 0
Hears os [] log = Unit {0}
Hears os (turn ∷ turns) log =
    let fd = turn.client in
    (os.read log fd 1024 ≡ done turn.text)
    × ((n : ℕ) × (os.write (modify_event fd output (read fd 1024 ∷ log)) fd turn.text ≡ done n))
    × Hears os turns (turn_log turn log)

module _ (os : Os) (listenfd : ℕ) (rest : List ℕ) where
  dispatch-input :
      (fd : ℕ) (s : Session)
      → fd ≢ listenfd
      → dispatch os listenfd (record { events = input; fd = fd }) s ≡ do_read os fd s
  unfolding dispatch
  dispatch-input fd s other =
      let no : (fd == listenfd) ≡ false = ground (arith, other) in rw (no, dispatch) refl

  dispatch-output :
      (fd : ℕ) (s : Session)
      → fd ≢ listenfd
      → dispatch os listenfd (record { events = output; fd = fd }) s ≡ do_write os fd s
  unfolding dispatch
  dispatch-output fd s other =
      let no : (fd == listenfd) ≡ false = ground (arith, other) in rw (no, dispatch) refl

  turn_echoed :
      (turn : Turn) (log : Log)
      → IsTurn listenfd turn
      → os.read log turn.client 1024 ≡ done turn.text
      → ((n : ℕ) × (os.write
              (modify_event turn.client output (read turn.client 1024 ∷ log))
              turn.client
              turn.text
            ≡ done n))
      → serve_turn os listenfd turn (record { buf = holding 1024 [] rest; log = log })
        ≡ ok (record { buf = holding 1024 [] rest; log = turn_log turn log })
  unfolding serve_turn after_write
  turn_echoed turn log v heard (n, went) =
      let fd = turn.client in
      let asked = modify_event fd output (read fd 1024 ∷ log) in
      >>=-ok _ _ _ (
        dispatch-input fd (record { buf = holding 1024 [] rest; log = log }) v.other
        ∙ read_text os fd turn.text rest log v.is_text v.some v.short heard)
      ∙ dispatch-output fd (record { buf = holding 1024 turn.text rest; log = asked }) v.other
      ∙ write_text os fd turn.text rest asked v.is_text v.short
      ∙ ap
          (λ r. ok (record {
            buf = holding 1024 [] rest;
            log = after_write r fd (write fd turn.text ∷ asked);
          }))
          went

  -- When clients take turns, each other than the listening socket, with a text of 1 to 1,023 bytes
  -- that is read whole, and the writes are done, each is sent back its own text and no other, and
  -- is watched for input again; and the buffer is cleared as it was.
  pub turns_echoed :
      (turns : List Turn) (log : Log)
      → All (IsTurn listenfd) turns
      → Hears os turns log
      → serve_turns os listenfd turns (record { buf = holding 1024 [] rest; log = log })
        ≡ ok (record { buf = holding 1024 [] rest; log = turns_log turns log })
  unfolding serve_turns
  turns_echoed [] log v h = refl
  turns_echoed (turn ∷ turns) log (v, vs) (heard, went, h) =
      >>=-ok _ _ _ (turn_echoed turn log v heard went) ∙ turns_echoed turns (turn_log turn log) vs h
