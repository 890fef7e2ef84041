-- ===== src/UdpClient/Retry.antt =====
-- How often a message is sent.
use plib.Base.{
  ℕ, zero, suc, ◌≤◌, ◌<◌, ◌≡◌, refl, List, ◌∷◌, true, false, ◌⊎◌, inl, inr, Bool-cases, arith, ap,
  subst, ◌∙◌,
}
use plib.System.{Os, Log, Ret-cases, sendto, recvfrom}
use plib.UdpClient.{ProtocalClientUdp, is_sent, send_retry, handle, max_line}

-- The log with a message sent some times more.
pub sent_times : ℕ → ℕ → List ℕ → Log → Log
sent_times fd zero message log = log
sent_times fd (suc k) message log = sendto fd message ∷ sent_times fd k message log

sent_times-sendto :
    (fd k : ℕ) (message : List ℕ) (log : Log)
    → sent_times fd k message (sendto fd message ∷ log) ≡ sent_times fd (suc k) message log
unfolding sent_times
sent_times-sendto fd zero message log = refl
sent_times-sendto fd (suc k) message log =
    ap (◌∷◌ (sendto fd message)) (sent_times-sendto fd k message log)

-- k tries have failed and one more is made, which is the last or succeeds.
pub record Tried (os : Os) (fd : ℕ) (message : List ℕ) (left : ℕ) (before after : Log)
    : Type 0 where
  pub k : ℕ
  pub bounded : k ≤ left
  pub calls : after ≡ sent_times fd (suc k) message before
  pub all_failed :
      (i : ℕ) → i < k → is_sent (os.sendto (sent_times fd i message before) fd message) ≡ false
  pub ended : (k ≡ left) ⊎ (is_sent (os.sendto (sent_times fd k message before) fd message) ≡ true)

later :
    (os : Os) (fd : ℕ) (message : List ℕ) (left : ℕ) (log after : Log)
    → is_sent (os.sendto log fd message) ≡ false
    → Tried os fd message left (sendto fd message ∷ log) after
    → Tried os fd message (suc left) log after
unfolding sent_times
later os fd message left log after down t = record {
  k = suc t.k;
  bounded = omega (arith, t.bounded);
  calls = t.calls ∙ sent_times-sendto fd (suc t.k) message log;
  all_failed = fails;
  ended = elim t.ended [
    | inl last ↦ inl (ap suc last)
    | inr up ↦ inr (
        subst (λ l. is_sent (os.sendto l fd message) ≡ true) (sent_times-sendto fd t.k message log)
          up)
  ];
}
  where
    fails :
        (i : ℕ) → i < suc t.k → is_sent (os.sendto (sent_times fd i message log) fd message) ≡ false
    fails zero h = down
    fails (suc i) h =
        subst (λ l. is_sent (os.sendto l fd message) ≡ false) (sent_times-sendto fd i message log)
          (t.all_failed i (omega arith))

send_retry-Tried :
    (os : Os) (fd : ℕ) (message : List ℕ) (left : ℕ) (log : Log)
    → Tried os fd message left log (send_retry os fd message left log)
unfolding send_retry sent_times
send_retry-Tried os fd message zero log = record {
  k = 0;
  bounded = omega arith;
  calls = refl;
  all_failed = λ i h. elim h [ ];
  ended = inl refl;
}
send_retry-Tried os fd message (suc left) log =
    elim (Bool-cases (is_sent (os.sendto log fd message))) [
      | inl up ↦ record {
        k = 0;
        bounded = omega arith;
        calls = rw up refl;
        all_failed = λ i h. elim h [ ];
        ended = inr up;
      }
      | inr down ↦
          let t = send_retry-Tried os fd message left (sendto fd message ∷ log) in
          rw down (later os fd message left log _ down t)
    ]

-- handle sends the message once more after each failed try, three times in all at the most, ends
-- with the first try that succeeds, and then waits for one response.
pub handle-Tried :
    (os : Os) (client : ProtocalClientUdp) (message : List ℕ) (log : Log)
    → (sent : Log) × Tried os client.connfd message 2 log sent
      × ((handle os client message log).1 ≡ recvfrom client.connfd max_line ∷ sent)
unfolding handle
handle-Tried os client message log =
    let fd = client.connfd in
    let sent = send_retry os fd message 2 log in
    (
      sent,
      send_retry-Tried os fd message 2 log,
      elim (Ret-cases (os.recvfrom sent fd max_line)) [
        | inl (errno, e) ↦ rw (e, handle) refl
        | inr (bytes, e) ↦ rw (e, handle) refl
      ],
    )
