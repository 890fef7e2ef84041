-- ===== src/Draft/Conversation.antt =====
-- The echo client and the echo server together.
use plib.Base.{
  ℕ, ◌<◌, ◌≡◌, ◌≢◌, List, [], ◌∷◌, ◌++◌, All, Run, ok, length, ap, sym, ◌∙◌, subst, append_assoc,
  append-nil, true, ◌==◌, arith,
}
use plib.System.{Os, Log, done, read, write}
use plib.EpollServer.Registry.Queues.{writes}
use plib.EpollServer.Delivery.Order.{to}
use plib.Draft.EchoServer.{Session, modify_event}
use plib.Draft.EchoServer.Echo.{IsText, holding}
use plib.Draft.EchoServer.Turns.{Turn, IsTurn, Hears, serve_turns, turns_log, turns_echoed}
use plib.Draft.EchoClient.{talk}
use plib.Draft.EchoClient.Answers.{Echoes, talk_echoed}

-- From the given history on, the client's reads after its lines give the answers, one for each.
abbrev pub Receives : Os → ℕ → List (List ℕ) → List (List ℕ) → Log → Type 0
Receives os fd [] answers log = Unit {0}
Receives os fd (line ∷ lines) [] log = ⊥
Receives os fd (line ∷ lines) (answer ∷ answers) log =
    (os.read (write fd line ∷ log) fd 1024 ≡ done answer)
    × Receives os fd lines answers (read fd 1024 ∷ write fd line ∷ log)

-- The lines of one client, as turns.
abbrev pub turns_of : ℕ → List (List ℕ) → List Turn
turns_of fd [] = []
turns_of fd (line ∷ lines) = record { client = fd; text = line } ∷ turns_of fd lines

-- A line that fits.
abbrev pub IsLine : List ℕ → Type 0
IsLine line = IsText line × (0 < length line) × (length line < 1024)

turns_of-IsTurn :
    (fd listenfd : ℕ) (lines : List (List ℕ))
    → fd ≢ listenfd
    → All IsLine lines
    → All (IsTurn listenfd) (turns_of fd lines)
turns_of-IsTurn fd listenfd [] other v = tt
turns_of-IsTurn fd listenfd (line ∷ lines) other ((text, some, short), v) = (
  record { other = other; is_text = text; some = some; short = short },
  turns_of-IsTurn fd listenfd lines other v,
)

same_fd : (fd : ℕ) → (fd == fd) ≡ true
same_fd fd = ground arith

-- The server's writes to the client are the client's lines.
writes-turns_log :
    (fd : ℕ) (lines : List (List ℕ)) (log : Log)
    → to fd (writes (turns_log (turns_of fd lines) log)) ≡ to fd (writes log) ++ lines
unfolding modify_event
writes-turns_log fd [] log = sym (append-nil (to fd (writes log)))
writes-turns_log fd (line ∷ lines) log =
    writes-turns_log fd lines _
    ∙ rw (same_fd fd) (append_assoc (to fd (writes log)) (line ∷ []) lines)

Receives-Echoes :
    (os : Os) (fd : ℕ) (lines : List (List ℕ)) (log : Log)
    → All IsLine lines
    → Receives os fd lines lines log
    → Echoes os fd lines log
Receives-Echoes os fd [] log v h = tt
Receives-Echoes os fd (line ∷ lines) log ((text, some, short), v) (e, h) =
    (some, e, Receives-Echoes os fd lines _ v h)

abbrev log_of : Run Session → Log
log_of (ok s) = s.log
log_of _ = []

-- A client that sends lines of 1 to 1,023 bytes, without zero bytes, and reads what the server writes
-- to it, one answer after each line, prints its lines: where the server's buffer starts with 1,024
-- zero bytes, as do_write leaves it (initService does not clear it before its first use), where no
-- write is in the server's log yet, and where for each line in turn, which is read whole, the server
-- calls do_read and then do_write for the client's descriptor and nothing in between, and these runs
-- end.
pub conversation_echoed :
    (client server : Os) (cfd sfd listenfd : ℕ) (lines : List (List ℕ)) (rest : List ℕ)
    (clog slog : Log) (t : Session)
    → sfd ≢ listenfd
    → All IsLine lines
    → writes slog ≡ []
    → Hears server (turns_of sfd lines) slog
    → serve_turns server listenfd
        (turns_of sfd lines)
        (record { buf = holding 1024 [] rest; log = slog })
      ≡ ok t
    → Receives client cfd lines (to sfd (writes t.log)) clog
    → (talk client cfd lines clog).printed ≡ lines
conversation_echoed client server cfd sfd listenfd lines rest clog slog t other v quiet heard served
      received =
    let turns = turns_of sfd lines in
    let end : ok t ≡ ok (record { buf = holding 1024 [] rest; log = turns_log turns slog }) =
      sym served
      ∙ turns_echoed server listenfd rest turns slog (turns_of-IsTurn sfd listenfd lines other v)
          heard in
    let answers : to sfd (writes t.log) ≡ lines =
      ap (λ r. to sfd (writes (log_of r))) end
      ∙ writes-turns_log sfd lines slog
      ∙ ap (λ w. to sfd w ++ lines) quiet in
    talk_echoed client cfd lines clog (
      Receives-Echoes client cfd lines clog v
        (subst (λ xs. Receives client cfd lines xs clog) answers received))
