-- ===== src/UdpClient.antt =====
-- ProtocalClientUDP: a message to a server, with the wait for its response.
pub mod Retry
use plib.Base.{
  ℕ, zero, suc, ◌-◌, List, ◌∷◌, Bool, true, false, Option, none, some, Run, ok, exits,
  if◌then◌else◌, ltb,
}
use plib.System.{
  Os, Log, Ret, done, failed, Kind, dgram, socket, gethostbyname, sendto, recvfrom, close,
}

abbrev pub max_retry : ℕ
max_retry = 3

abbrev pub max_line : ℕ
max_line = 4096

pub record ProtocalClientUdp : Type 0 where
  pub connfd : ℕ

-- The constructor: exit(0) without a socket or a host.
unfoldable pub make : Os → Log → Run (ProtocalClientUdp × Log)
make os log = elim (os.socket log dgram) [
  | failed e ↦ exits 0
  | done fd ↦
      (let opened : Log = socket dgram ∷ log in
        if os.gethostbyname opened
        then ok (record { connfd = fd }, gethostbyname ∷ opened)
        else exits 0)
]

-- ssize > 0.
abbrev pub is_sent : Ret ℕ → Bool
is_sent (failed e) = false
is_sent (done n) = ltb 0 n

-- The do loop, with the tries that are left after the first one.
unfoldable pub send_retry : Os → ℕ → List ℕ → ℕ → Log → Log
send_retry os fd message zero log = sendto fd message ∷ log
send_retry os fd message (suc left) log =
    let sent : Log = sendto fd message ∷ log in
    let again = send_retry os fd message left sent in
    if is_sent (os.sendto log fd message) then sent else again

-- What is received, or `none` for the text "no response"; and the log. The C++ function returns
-- a reference to a temporary string, which is the value here.
unfoldable pub handle : Os → ProtocalClientUdp → List ℕ → Log → Option (List ℕ) × Log
handle os client message log =
    let sent = send_retry os client.connfd message (max_retry - 1) log in
    let asked : Log = recvfrom client.connfd max_line ∷ sent in
    elim (os.recvfrom sent client.connfd max_line) [
      | failed e ↦ (none, asked)
      | done bytes ↦ (some bytes, asked)
    ]

-- The destructor.
unfoldable pub destroy : ProtocalClientUdp → Log → Log
destroy client log = close client.connfd ∷ log
