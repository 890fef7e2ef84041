-- ===== src/Draft/Datagram/Exchange.antt =====
-- A client and a server that exchange a datagram and its answer.
use plib.Base.{
  ℕ, ◌≡◌, refl, List, [], ◌∷◌, ok, undefined, >>=-ok, Always, Always->>=, Always-any, length,
  replicate, arith, inl, inr, subst, ap, ◌∙◌,
}
use plib.System.{Os, Log, Ret-cases, done, sendto, socket, dgram}
use plib.Memory.Block.{load, store, store_outside, load_size, store_size, store_full}
use plib.Draft.EchoServer.{c_string}
use plib.Draft.Load.{load_bin_data}
use plib.Draft.Datagram.{
  Received, completed, receive_answer, send_datagram, make_datagram, send_by_udp, answer_datagram,
  serve_datagram,
}

-- The server's last call sent an answer of n bytes.
abbrev pub Answered : ℕ → ℕ → Received → Type 0
Answered fd n s =
    (answer : List ℕ) × (rest : Log) × (s.log ≡ sendto fd answer ∷ rest) × (length answer ≡ n)

answer_size :
    (os : Os) (fd n : ℕ) (recv_buf : List ℕ) (log : Log)
    → Always (Answered fd n) (answer_datagram os fd n recv_buf log)
unfolding answer_datagram
answer_size os fd n recv_buf log =
    Always->>= (λ answer. length answer ≡ n) (Answered fd n) (load completed 0 n) _
      (load_size completed 0 n)
      λ answer size. elim (Ret-cases (os.sendto log fd answer)) [
        | inl (errno, e) ↦ rw e tt
        | inr (sent, e) ↦ rw e (answer, log, refl, size)
      ]

-- A datagram that is received is answered, if the run goes on, with as many bytes as it has.
serve_answers :
    (os : Os) (heap : Log → ℕ) (fd : ℕ) (bytes : List ℕ) (s : Received)
    → os.recvfrom s.log fd 256 ≡ done bytes
    → Always (Answered fd (length bytes)) (serve_datagram os heap fd s)
unfolding serve_datagram
serve_answers os heap fd bytes s e =
    let P = Answered fd (length bytes) in
    rw (e, serve_datagram)
      (Always->>= _ P (store s.recv_buf 0 bytes) _ (Always-any _) λ filled stored.
        Always->>= _ P (c_string filled) _ (Always-any _) λ text printed.
          Always->>= _ P (load_bin_data (heap s.log) filled) _ (Always-any _)
            λ loaded h. answer_size os fd (length bytes) filled _)

make_datagram_size :
    (binptr : List ℕ) (n : ℕ) → Always (λ datagram. length datagram ≡ 256) (make_datagram binptr n)
unfolding make_datagram
make_datagram_size binptr n =
    Always->>= _ (λ datagram. length datagram ≡ 256) (load binptr 0 n) _ (Always-any _)
      (λ content h. store_size (replicate {A = ℕ} 256 0) 0 content)

-- An answer that fills recv_buf leaves no place for the zero byte.
receive_answer_full :
    (os : Os) (junk : ℕ → ℕ) (fd : ℕ) (bytes : List ℕ) (log : Log)
    → os.recvfrom log fd 256 ≡ done bytes
    → length bytes ≡ 256
    → receive_answer os junk fd log ≡ undefined
unfolding receive_answer
receive_answer_full os junk fd bytes log e full =
    rw (e, receive_answer)
      (>>=-ok _ _ bytes (store_full junk bytes 256 (omega (arith, full)))
        ∙ rw (store_outside bytes (length bytes) (0 ∷ []) (omega arith)) refl)

-- Whenever the server gets through serving the datagram that the client made, and the client's
-- calls succeed and give it the answer that the server sent, the client's behaviour is undefined:
-- the answer is as long as the datagram, 256 bytes, so the zero byte goes behind recv_buf.
pub exchange_undefined :
    (client server : Os) (junk : ℕ → ℕ) (heap : Log → ℕ) (binptr : List ℕ)
    (n client_fd server_fd sent : ℕ) (log rest : Log) (s t : Received) (datagram answer : List ℕ)
    → client.socket log dgram ≡ done client_fd
    → make_datagram binptr n ≡ ok datagram
    → client.sendto (socket dgram ∷ log) client_fd datagram ≡ done sent
    → server.recvfrom s.log server_fd 256 ≡ done datagram
    → serve_datagram server heap server_fd s ≡ ok t
    → t.log ≡ sendto server_fd answer ∷ rest
    → client.recvfrom (sendto client_fd datagram ∷ socket dgram ∷ log) client_fd 256 ≡ done answer
    → send_by_udp client junk binptr n log ≡ undefined
unfolding send_by_udp send_datagram
exchange_undefined client server junk heap binptr n client_fd server_fd sent log rest s t datagram
      answer opened made went arrived served last back =
    let size : length datagram ≡ 256 =
      subst (Always (λ d. length d ≡ 256)) made (make_datagram_size binptr n) in
    let (reply, before, logged, replied) =
      subst (Always (Answered server_fd (length datagram))) served
        (serve_answers server heap server_fd datagram s arrived) in
    let same : answer ≡ reply = cc in
    let full : length answer ≡ 256 = ap length same ∙ replied ∙ size in
    rw (opened, send_by_udp)
      (>>=-ok _ _ datagram made
        ∙ rw (went, send_datagram) (receive_answer_full client junk client_fd answer _ back full))
