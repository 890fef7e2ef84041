-- ===== src/EpollServer/Read/Chunks.antt =====
-- The read loop on a message that arrives in parts.
use plib.Base.{
  ℕ, zero, suc, ◌+◌, ◌-◌, ◌≤◌, ◌<◌, ◌≡◌, refl, List, [], ◌∷◌, ◌++◌, ok, undefined, length, drop,
  inl, inr, leb-cases, length-append, length-drop, drop-drop, append_assoc, arith, ap, ap₂, ◌∙◌,
}
use plib.System.{Os, Log, done, failed, read}
use plib.Memory.Block.{store_next, store_outside}
use plib.EpollServer.State.{Server, buf_size}
use plib.EpollServer.Read.{read_loop}

-- From the given history on, reads of the descriptor give the chunks one after the other, and then
-- an error.
abbrev pub Feeds : Os → ℕ → List (List ℕ) → ℕ → Log → Type 0
Feeds os fd [] errno log = os.read log fd (buf_size - 1) ≡ failed errno
Feeds os fd (c ∷ cs) errno log =
    (0 < length c)
    × (os.read log fd (buf_size - 1) ≡ done c)
    × Feeds os fd cs errno (read fd (buf_size - 1) ∷ log)

abbrev pub joined : List (List ℕ) → List ℕ
joined [] = []
joined (c ∷ cs) = c ++ joined cs

abbrev pub reads_log : ℕ → List (List ℕ) → Log → Log
reads_log fd [] log = read fd (buf_size - 1) ∷ log
reads_log fd (c ∷ cs) log = reads_log fd cs (read fd (buf_size - 1) ∷ log)

joins :
    (pre c more rest : List ℕ)
    → (pre ++ c) ++ (more ++ drop (length more) (drop (length c) rest))
      ≡ pre ++ ((c ++ more) ++ drop (length (c ++ more)) rest)
joins pre c more rest = rw (
  drop-drop (length c) (length more) (length (c ++ more)) rest (length-append c more),
  append_assoc pre c (more ++ drop (length (c ++ more)) rest),
  append_assoc c more (drop (length (c ++ more)) rest),
)

read_chunk :
    (os : Os) (fuel fd n : ℕ) (pre rest c : List ℕ) (s : Server)
    → n ≡ length pre
    → 0 < length c
    → os.read s.log fd (buf_size - 1) ≡ done c
    → length c ≤ length rest
    → read_loop os (suc fuel) fd n (record s { recvbuffer = pre ++ rest })
      ≡ read_loop os fuel fd (n + length c) (record s {
        recvbuffer = (pre ++ c) ++ drop (length c) rest;
        log = read fd (buf_size - 1) ∷ s.log;
      })
unfolding read_loop
read_chunk os fuel fd n pre rest [] s at some e fits = elim some [ ]
read_chunk os fuel fd n pre rest (b ∷ bs) s at some e fits =
    rw (e, read_loop)
      (rw
        (
          store_next pre rest (b ∷ bs) n at fits,
          append_assoc pre (b ∷ bs) (drop (length (b ∷ bs)) rest),
        )
        refl)

chunk_outside :
    (os : Os) (fuel fd n : ℕ) (pre rest c : List ℕ) (s : Server)
    → n ≡ length pre
    → 0 < length c
    → os.read s.log fd (buf_size - 1) ≡ done c
    → length rest < length c
    → read_loop os (suc fuel) fd n (record s { recvbuffer = pre ++ rest }) ≡ undefined
unfolding read_loop
chunk_outside os fuel fd n pre rest [] s at some e late = elim some [ ]
chunk_outside os fuel fd n pre rest (b ∷ bs) s at some e late =
    rw (e, read_loop)
      (rw (store_outside (pre ++ rest) n (b ∷ bs) (omega (arith, length-append pre rest))) refl)

-- Chunks that fit into the buffer after what is in it are put together there, and their size is
-- counted.
read_loop_joins :
    (os : Os) (fuel fd n errno : ℕ) (pre rest : List ℕ) (cs : List (List ℕ)) (s : Server)
    → n ≡ length pre
    → Feeds os fd cs errno s.log
    → length cs < fuel
    → length (joined cs) ≤ length rest
    → read_loop os fuel fd n (record s { recvbuffer = pre ++ rest })
      ≡ ok (
        record { failure = failed errno; msgsize = n + length (joined cs) },
        record s {
          recvbuffer = pre ++ (joined cs ++ drop (length (joined cs)) rest);
          log = reads_log fd cs s.log;
        },
      )
unfolding read_loop
read_loop_joins os zero fd n errno pre rest cs s at feeds enough fits = elim enough [ ]
read_loop_joins os (suc fuel) fd n errno pre rest [] s at feeds enough fits =
    let t : Server = record s { recvbuffer = pre ++ rest; log = read fd (buf_size - 1) ∷ s.log } in
    rw (feeds, read_loop)
      (ap (λ k. ok (record { failure = failed errno; msgsize = k }, t)) (omega arith))
read_loop_joins os (suc fuel) fd n errno pre rest (c ∷ cs) s at (some, e, feeds) enough fits =
    let size = length-append c (joined cs) in
    let t : Server = record s { log = read fd (buf_size - 1) ∷ s.log } in
    read_chunk os fuel fd n pre rest c s at some e (omega (arith, size))
    ∙ read_loop_joins os fuel fd (n + length c) errno (pre ++ c) (drop (length c) rest) cs t
        (omega (arith, length-append pre c)) feeds (omega arith)
        (omega (arith, size, length-drop (length c) rest))
    ∙ ap₂
        (λ k buffer. ok (
          record { failure = failed errno; msgsize = k },
          record s { recvbuffer = buffer; log = reads_log fd (c ∷ cs) s.log },
        ))
        (omega (arith, size)) (joins pre c (joined cs) rest)

-- A message that arrives in parts until a read fails, and that fits into the buffer, is put
-- together at its start, and its size is counted. As many rounds as there are parts and one more
-- are enough.
pub read_loop_message :
    (os : Os) (fuel fd errno : ℕ) (cs : List (List ℕ)) (s : Server)
    → Feeds os fd cs errno s.log
    → length cs < fuel
    → length (joined cs) ≤ length s.recvbuffer
    → read_loop os fuel fd 0 s
      ≡ ok (
        record { failure = failed errno; msgsize = length (joined cs) },
        record s {
          recvbuffer = joined cs ++ drop (length (joined cs)) s.recvbuffer;
          log = reads_log fd cs s.log;
        },
      )
read_loop_message os fuel fd errno cs s feeds enough fits =
    read_loop_joins os fuel fd 0 errno [] s.recvbuffer cs s refl feeds enough fits
    ∙ ap
        (λ k. ok (
          record { failure = failed errno; msgsize = k },
          record s {
            recvbuffer = joined cs ++ drop (length (joined cs)) s.recvbuffer;
            log = reads_log fd cs s.log;
          },
        ))
        (omega arith)

-- What does not fit is written past the end of the buffer.
read_loop_overflows :
    (os : Os) (fuel fd n errno : ℕ) (pre rest : List ℕ) (cs : List (List ℕ)) (s : Server)
    → n ≡ length pre
    → Feeds os fd cs errno s.log
    → length cs < fuel
    → length rest < length (joined cs)
    → read_loop os fuel fd n (record s { recvbuffer = pre ++ rest }) ≡ undefined
unfolding read_loop
read_loop_overflows os zero fd n errno pre rest cs s at feeds enough over = elim enough [ ]
read_loop_overflows os (suc fuel) fd n errno pre rest [] s at feeds enough over = elim over [ ]
read_loop_overflows os (suc fuel) fd n errno pre rest (c ∷ cs) s at (some, e, feeds) enough over =
    let size = length-append c (joined cs) in
    let t : Server = record s { log = read fd (buf_size - 1) ∷ s.log } in
    elim (leb-cases (length c) (length rest)) [
      | inl fits ↦
          read_chunk os fuel fd n pre rest c s at some e fits
          ∙ read_loop_overflows os fuel fd (n + length c) errno (pre ++ c) (drop (length c) rest) cs
              t (omega (arith, length-append pre c)) feeds (omega arith)
              (omega (arith, size, length-drop (length c) rest))
      | inr late ↦ chunk_outside os fuel fd n pre rest c s at some e late
    ]

-- A message longer than the buffer, in whatever parts it arrives until a read fails, is written
-- past the buffer's end. As many rounds as there are parts and one more are enough.
pub read_loop_overflow :
    (os : Os) (fuel fd errno : ℕ) (cs : List (List ℕ)) (s : Server)
    → Feeds os fd cs errno s.log
    → length cs < fuel
    → length s.recvbuffer < length (joined cs)
    → read_loop os fuel fd 0 s ≡ undefined
read_loop_overflow os fuel fd errno cs s feeds enough over =
    read_loop_overflows os fuel fd 0 errno [] s.recvbuffer cs s refl feeds enough over
