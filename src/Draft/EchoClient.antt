-- ===== src/Draft/EchoClient.antt =====
-- draft/ProtocalClientUDP: the client of the echo server, which sends the lines that it is given.
pub mod Answers
use plib.Base.{ℕ, List, [], ◌∷◌, ◌++◌, Bool, Run, ok, exits, if◌then◌else◌, length, ltb}
use plib.System.{Os, Log, Ret, done, failed, stream, socket, connect, close, read, write, minus_one}

abbrev pub max_line : ℕ
max_line = 1024

-- `printed` is what has gone to the standard output, in its order.
pub record Talk : Type 0 where
  pub printed : List (List ℕ)
  pub log : Log

-- The loop over the lines that fgets gives, each without its zero byte and shorter than max_line.
-- It ends with the lines or with the connection; a failed read prints nothing.
unfoldable pub talk : Os → ℕ → List (List ℕ) → Log → Talk
talk os sockfd [] log = record { printed = []; log = log }
talk os sockfd (line ∷ lines) log =
    let sent : Log = write sockfd line ∷ log in
    let asked : Log = read sockfd max_line ∷ sent in
    let rest = talk os sockfd lines asked in
    elim (os.read sent sockfd max_line) [
      | failed errno ↦ rest
      | done [] ↦ record { printed = []; log = asked }
      | done (b ∷ bs) ↦ record { printed = (b ∷ bs) ∷ rest.printed; log = rest.log }
    ]

-- How main ends: with a return of -1, or with exit(0) after its talk.
pub data Ended : Type 0 where
  returned : Log → Ended
  left_ : Talk → Ended

abbrev fd_of : Ret ℕ → ℕ
fd_of (done fd) = fd
fd_of (failed errno) = minus_one

-- main with `argc` arguments. The address and the port of the server only matter to connect.
unfoldable pub client_main : Os → ℕ → List (List ℕ) → Log → Ended
client_main os argc lines log =
    let connfd = fd_of (os.socket log stream) in
    let opened : Log = socket stream ∷ log in
    let tried : Log = connect connfd ∷ opened in
    let talked = talk os connfd lines tried in
    if ltb 3 argc
    then returned log
    else if os.connect opened connfd
    then left_ (record talked { log = close connfd ∷ talked.log })
    else returned tried
