-- ===== src/Draft/Datagram.antt =====
-- draft/udp_client.cpp and draft/udp_server.cpp: a block that is sent in a datagram of 256 bytes, and
-- the server that loads it.
pub mod Exchange
use plib.Base.{
  ℕ, zero, suc, ◌-◌, List, [], ◌∷◌, ◌++◌, Bool, Run, ok, exits, spins, ◌>>=◌, if◌then◌else◌, length,
  replicate,
}
use plib.System.{Os, Log, done, failed, Kind, dgram, socket, bind, sendto, recvfrom, close}
use plib.Memory.Block.{malloc, load, store}
use plib.Draft.EchoServer.{c_string}
use plib.Draft.Load.{load_bin_data}

abbrev pub buf_size : ℕ
buf_size = 256

abbrev pub serv_port : ℕ
serv_port = 8000

-- The client's send_buf: cleared, and then filled from the block.
unfoldable pub make_datagram : List ℕ → ℕ → Run (List ℕ)
make_datagram binptr required_size = do
  content ← load binptr 0 required_size
  store (replicate buf_size 0) 0 content

-- What follows the client's sendto; recv_buf is not initialised. A zero byte is put behind what is
-- received, which is then printed as a string.
unfoldable pub receive_answer : Os → (ℕ → ℕ) → ℕ → Log → Run Log
receive_answer os junk sock_fd log = elim (os.recvfrom log sock_fd buf_size) [
  | failed errno ↦ exits 1
  | done bytes ↦ (do
    recv_buf ← store (malloc junk buf_size) 0 bytes
    ended ← store recv_buf (length bytes) (0 ∷ [])
    printed ← c_string ended
    ok (close sock_fd ∷ recvfrom sock_fd buf_size ∷ log))
]

unfoldable pub send_datagram : Os → (ℕ → ℕ) → ℕ → List ℕ → Log → Run Log
send_datagram os junk sock_fd send_buf log = elim (os.sendto log sock_fd send_buf) [
  | failed errno ↦ exits 1
  | done send_num ↦ receive_answer os junk sock_fd (sendto sock_fd send_buf ∷ log)
]

-- The calls made; the function returns 0.
unfoldable pub send_by_udp : Os → (ℕ → ℕ) → List ℕ → ℕ → Log → Run Log
send_by_udp os junk binptr required_size log = elim (os.socket log dgram) [
  | failed errno ↦ exits 1
  | done sock_fd ↦ (do
    send_buf ← make_datagram binptr required_size
    send_datagram os junk sock_fd send_buf (socket dgram ∷ log))
]

-- The server's send_buf.
abbrev pub completed : List ℕ
completed =
    b'C'
    ∷ b'o'
    ∷ b'm'
    ∷ b'p'
    ∷ b'l'
    ∷ b'e'
    ∷ b't'
    ∷ b'e'
    ∷ b'd'
    ∷ b'.'
    ∷ b'.'
    ∷ b'.'
    ∷ replicate (256 - 12) 0

pub record Received : Type 0 where
  pub recv_buf : List ℕ
  pub log : Log

-- The answer has as many bytes as were received.
unfoldable pub answer_datagram : Os → ℕ → ℕ → List ℕ → Log → Run Received
answer_datagram os sock_fd recv_num recv_buf log = do
  answer ← load completed 0 recv_num
  elim (os.sendto log sock_fd answer) [
    | failed errno ↦ exits 1
    | done send_num ↦ ok (record { recv_buf = recv_buf; log = sendto sock_fd answer ∷ log })
  ]

-- The body of the server's loop. `heap` gives the address of the memory that load_bin_data asks
-- for, which is free again afterwards. What is received is printed as a string.
unfoldable pub serve_datagram : Os → (Log → ℕ) → ℕ → Received → Run Received
serve_datagram os heap sock_fd s = elim (os.recvfrom s.log sock_fd buf_size) [
  | failed errno ↦ exits 1
  | done bytes ↦ (do
    filled ← store s.recv_buf 0 bytes
    printed ← c_string filled
    loaded ← load_bin_data (heap s.log) filled
    answer_datagram os sock_fd (length bytes) filled (recvfrom sock_fd buf_size ∷ s.log))
]

-- while (true), for some rounds.
unfoldable pub serve_datagrams : Os → (Log → ℕ) → ℕ → ℕ → Received → Run Received
serve_datagrams os heap sock_fd zero s = spins
serve_datagrams os heap sock_fd (suc rounds) s = do
  t ← serve_datagram os heap sock_fd s
  serve_datagrams os heap sock_fd rounds t

unfoldable pub serve_udp : Os → (Log → ℕ) → ℕ → Log → Run Log
serve_udp os heap rounds log = elim (os.socket log dgram) [
  | failed errno ↦ exits 1
  | done sock_fd ↦
      (let opened : Log = socket dgram ∷ log in
        let bound : Log = bind sock_fd serv_port ∷ opened in
        let served : Run Log = (do
          s ←
              serve_datagrams os heap sock_fd rounds
                (record { recv_buf = replicate buf_size 0; log = bound })
          ok (close sock_fd ∷ s.log)) in
        if os.bind opened sock_fd then served else exits 1)
]
