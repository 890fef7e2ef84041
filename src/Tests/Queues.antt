-- ===== src/Tests/Queues.antt =====
-- Queues, and the responses on their way out.
use plib.Base.{
  ℕ, ◌≡◌, refl, [], ◌∷◌, ok, undefined, ◌⊎◌, true, false, some, ◌==◌, if◌then◌else◌, arith, inl,
}
use plib.Vote.Wire.{resp_wire}
use plib.System.{Os, done, write, is_negative}
use plib.TcpClient.{do_connect}
use plib.StdMap.{find}
use plib.EpollServer.State.{Server}
use plib.EpollServer.Registry.{register_client}
use plib.EpollServer.Registry.Clients.{register_client_first, first_of}
use plib.EpollServer.Registry.Queues.{queued}
use plib.EpollServer.Write.{send_all, send_resp}
use plib.EpollServer.Write.Sends.{send_all_fifo, send_resp_dropped, written}
use plib.Tests.World.{sample_response, refused_response, sample_server, scripted}

send_all_fifo_example :
    (t : Server) × (send_all (scripted []) 2 3 7 sample_server ≡ ok (tt, t))
    × (t.log ≡ written 7 (sample_response ∷ refused_response ∷ []) [])
    × ((j : ℕ) → queued t j ≡ (if 7 == j then [] else queued sample_server j))
unfolding find
send_all_fifo_example =
    send_all_fifo (scripted []) 0 3 7 sample_server (sample_response ∷ refused_response ∷ [])
      (λ log fd bytes. refl) refl (omega arith)

register_client_first_example :
    ((is_negative (do_connect (scripted []) (record { connfd = 9; node = 1 }) []).result ≡ true)
      × (register_client (scripted []) 0 sample_server ≡ undefined))
    ⊎ ((is_negative (do_connect (scripted []) (record { connfd = 9; node = 1 }) []).result ≡ false)
        × ((t : Server) × (register_client (scripted []) 0 sample_server ≡ ok (tt, t))
            × ((j : ℕ)
                → find j t.clientmap ≡ (
                    if 3 == j
                    then some (first_of (find 3 sample_server.clientmap) 0)
                    else find j sample_server.clientmap))
            × ((j : ℕ) → queued t j ≡ queued sample_server j)))
register_client_first_example =
    register_client_first (scripted []) 0 3 (record { connfd = 9; node = 1 }) sample_server refl
      refl (λ log. refl)

-- A kernel that takes 10 bytes of each write.
abbrev slow : Os
slow = record (scripted []) { write = λ log fd bytes. done 10 }

send_resp_dropped_example :
    send_resp slow 1 7 sample_response sample_server
    ≡ ok (tt, record sample_server { log = write 7 (resp_wire sample_response) ∷ [] })
send_resp_dropped_example =
    send_resp_dropped slow 0 7 sample_response sample_server (inl (10, omega arith, refl))
