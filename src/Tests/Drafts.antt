-- ===== src/Tests/Drafts.antt =====
-- The prototypes on concrete inputs.
use plib.Base.{
  ℕ, ◌≡◌, refl, List, [], ◌∷◌, ◌++◌, false, ok, undefined, ◌>>=◌, Always, replicate, arith,
}
use plib.System.{Os, done, Since, read, write, sendto, recvfrom, minus_one}
use plib.Draft.Compress.{Order, compress_data}
use plib.Draft.Wire.{IsOrder, order_wire, relocate}
use plib.Draft.Load.{load_bin_data, read_ledgers}
use plib.Draft.Sent.{message_of, load-compress}
use plib.Draft.HexText.{print_hex, parse_hex, parse_hex-print_hex}
use plib.Draft.EchoServer.{c_string, do_read, do_write, modify_event, after_write, output}
use plib.Draft.EchoServer.Echo.{IsText, holding, two_clients}
use plib.Draft.EchoServer.Turns.{Turn, serve_turn, serve_turns, turns_log, turns_echoed}
use plib.Draft.EchoClient.{talk}
use plib.Draft.Conversation.{turns_of, conversation_echoed}
use plib.Draft.EchoServer.Loop.{init_service, dispatch}
use plib.Draft.EchoServer.Returns.{IsNoClose, init_service_fails}
use plib.Draft.Datagram.{make_datagram, send_by_udp, serve_datagram, answer_datagram, completed}
use plib.Draft.Datagram.Exchange.{exchange_undefined}
use plib.Tests.World.{scripted}

abbrev zeros : ℕ → List ℕ
zeros n = replicate n 0

abbrev sample_order : Order
sample_order = record {
  fas = record {
    order_id = 7;
    date_stamp = zeros 20;
    pad = zeros 4;
    accountptr = 16;
    ledgerptr = 32;
  };
  account = record { account_id = 5; pad = zeros 4; balance = 1_000_000; ownerptr = 64 };
  owner = record { name = zeros 20; identity = zeros 20 };
  ledger = record { transaction_id = 99; amount = 250 };
}

sample_order-IsOrder : IsOrder sample_order
sample_order-IsOrder = record {
  fas = record { date_size = refl; pad_size = refl };
  account = record { pad_size = refl };
  owner = record { name_size = refl; identity_size = refl };
}

load-compress_example :
    (compress_data (λ i. 170) 4096 sample_order >>= λ (sent, moved).
    load_bin_data 8192 (message_of 128 4096 sent.block []))
    ≡ ok (record {
      info = record { size = 128; address = 8192; block = order_wire (relocate 4096 sample_order) };
      by_offset = sample_order.ledger;
      by_pointer = sample_order.ledger;
    })
load-compress_example =
    load-compress (λ i. 170) 8192 128 4096 sample_order [] (λ e. absurd (omega arith)) (omega arith)
      sample_order-IsOrder (record { id_fits = omega arith; amount_fits = omega arith })

-- A message whose block has the place of the ledger as its ledger pointer.
abbrev sample_message : List ℕ
sample_message = message_of 0 4096 (order_wire (relocate 4096 sample_order)) []

parse_hex-print_hex_example : parse_hex (print_hex (205 ∷ 26 ∷ 0 ∷ [])) ≡ 205 ∷ 26 ∷ 0 ∷ []
parse_hex-print_hex_example =
    parse_hex-print_hex (205 ∷ 26 ∷ 0 ∷ []) (omega arith, (omega arith, (omega arith, tt)))

abbrev hello : List ℕ
hello = b'h' ∷ b'e' ∷ b'l' ∷ b'l' ∷ b'o' ∷ []

abbrev bye : List ℕ
bye = b'b' ∷ b'y' ∷ b'e' ∷ []

hello-IsText : IsText hello
hello-IsText = ground arith

bye-IsText : IsText bye
bye-IsText = ground arith

-- The client that said hello is told "byelo".
two_clients_example :
    (do
      s ← do_read (scripted (hello ∷ bye ∷ [])) 7 (record { buf = holding 1024 [] []; log = [] })
      t ← do_read (scripted (hello ∷ bye ∷ [])) 8 s
      u ← do_write (scripted (hello ∷ bye ∷ [])) 7 t
      do_write (scripted (hello ∷ bye ∷ [])) 8 u)
    ≡ (let asked = modify_event 7 output (read 7 1024 ∷ []) in
        let both = modify_event 8 output (read 8 1024 ∷ asked) in
        let mixed = bye ++ b'l' ∷ b'o' ∷ [] in
        let answered = after_write (done 5) 7 (write 7 mixed ∷ both) in
        ok (record {
          buf = holding 1024 [] [];
          log = after_write (done 0) 8 (write 8 [] ∷ answered);
        }))
unfolding modify_event
two_clients_example =
    two_clients (scripted (hello ∷ bye ∷ [])) 7 8 hello bye [] [] hello-IsText bye-IsText
      (omega arith) (omega arith) (omega arith) (omega arith) refl refl

-- A port that is taken.
abbrev taken : Os
taken = record (scripted []) { bind = λ log fd. false }

init_service_fails_example :
    Always
      (λ r. (r.result ≡ minus_one) × Since IsNoClose [] r.log)
      (init_service taken (λ log. 0) 6888 2 [] [] [])
init_service_fails_example = init_service_fails taken (λ log. 0) 6888 2 [] [] []

abbrev sample_datagram : List ℕ
sample_datagram = sample_message ++ zeros 112

abbrev client : Os
client = record (scripted []) { recvfrom = λ log fd n. done completed }

abbrev server : Os
server = record (scripted []) { recvfrom = λ log fd n. done sample_datagram }

exchange_undefined_example : send_by_udp client (λ i. 0) sample_message 144 [] ≡ undefined
unfolding order_wire relocate make_datagram serve_datagram answer_datagram load_bin_data
    read_ledgers c_string
exchange_undefined_example =
    exchange_undefined client server (λ i. 0) (λ log. 8192) sample_message 144 3 4 1 []
      (recvfrom 4 256 ∷ []) (record { recv_buf = zeros 256; log = [] })
      (record { recv_buf = sample_datagram; log = sendto 4 completed ∷ recvfrom 4 256 ∷ [] })
      sample_datagram completed refl refl refl refl refl refl refl

abbrev talkers : Os
talkers = scripted (hello ∷ bye ∷ [])

abbrev sample_turns : List Turn
sample_turns = record { client = 7; text = hello } ∷ record { client = 8; text = bye } ∷ []

turns_echoed_example :
    serve_turns talkers 3 sample_turns (record { buf = holding 1024 [] []; log = [] })
    ≡ ok (record { buf = holding 1024 [] []; log = turns_log sample_turns [] })
unfolding modify_event
turns_echoed_example =
    turns_echoed talkers 3 [] sample_turns []
      (
        record {
          other = λ e. absurd (omega arith);
          is_text = hello-IsText;
          some = omega arith;
          short = omega arith;
        },
        (
          record {
            other = λ e. absurd (omega arith);
            is_text = bye-IsText;
            some = omega arith;
            short = omega arith;
          },
          tt,
        ),
      )
      (refl, (5, refl), (refl, (3, refl), tt))

conversation_echoed_example : (talk talkers 3 (hello ∷ bye ∷ []) []).printed ≡ hello ∷ bye ∷ []
unfolding modify_event serve_turns serve_turn dispatch do_read do_write c_string after_write holding
conversation_echoed_example =
    conversation_echoed talkers talkers 3 7 4 (hello ∷ bye ∷ []) [] [] []
      (record { buf = holding 1024 [] []; log = turns_log (turns_of 7 (hello ∷ bye ∷ [])) [] })
      (λ e. absurd (omega arith))
      ((hello-IsText, omega arith, omega arith), ((bye-IsText, omega arith, omega arith), tt)) refl
      (refl, (5, refl), (refl, (3, refl), tt)) refl (refl, (refl, tt))
