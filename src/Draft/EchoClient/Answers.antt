-- ===== src/Draft/EchoClient/Answers.antt =====
-- What the echo client prints.
use plib.Base.{ℕ, ◌<◌, ◌≡◌, refl, List, [], ◌∷◌, length, ap, arith}
use plib.System.{Os, Log, done, read, write}
use plib.Draft.EchoClient.{talk}

-- From the given history on, a server sends back each line that is written to it.
abbrev pub Echoes : Os → ℕ → List (List ℕ) → Log → Type 0
Echoes os fd [] log = Unit {0}
Echoes os fd (line ∷ lines) log =
    (0 < length line)
    × (os.read (write fd line ∷ log) fd 1024 ≡ done line)
    × Echoes os fd lines (read fd 1024 ∷ write fd line ∷ log)

-- A client of a server that sends back each line prints the lines that it was given.
pub talk_echoed :
    (os : Os) (fd : ℕ) (lines : List (List ℕ)) (log : Log)
    → Echoes os fd lines log
    → (talk os fd lines log).printed ≡ lines
unfolding talk
talk_echoed os fd [] log h = refl
talk_echoed os fd ([] ∷ lines) log (some, e, h) = absurd (omega arith)
talk_echoed os fd ((b ∷ bs) ∷ lines) log (some, e, h) =
    rw (e, talk) (ap (◌∷◌ (b ∷ bs)) (talk_echoed os fd lines _ h))
