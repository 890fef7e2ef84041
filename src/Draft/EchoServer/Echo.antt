-- ===== src/Draft/EchoServer/Echo.antt =====
-- What a client of the echo server gets back.
use plib.Base.{
  ℕ, zero, suc, ◌+◌, ◌≤◌, ◌<◌, ◌≡◌, ◌≢◌, refl, List, [], ◌∷◌, ◌++◌, All, All-append, ◌-◌, ok, ◌>>=◌,
  >>=-ok, length, drop, replicate, arith, append_assoc, append-nil, length-append, length-replicate,
  drop_all, length-drop, ap, sym, ◌∙◌, ◌==◌, false,
}
use plib.System.{Os, Log, done, read, write}
use plib.Memory.Block.{store, store_next}
use plib.Draft.EchoServer.{output, c_string, modify_event, after_write, do_read, do_write}

-- A text has no zero byte.
abbrev pub IsText : List ℕ → Type 0
IsText = All (λ b. b ≢ 0)

-- The buffer with a text at its start, zero bytes up to n bytes, and what lies behind those.
unfoldable pub holding : ℕ → List ℕ → List ℕ → List ℕ
holding n text rest = text ++ (replicate (n - length text) 0 ++ rest)

-- The text that is in the buffer after one has been read over another.
abbrev pub overlaid : List ℕ → List ℕ → List ℕ
overlaid old new = new ++ drop (length new) old

drop-IsText : (n : ℕ) (text : List ℕ) → IsText text → IsText (drop n text)
drop-IsText zero text h = h
drop-IsText (suc n) [] h = h
drop-IsText (suc n) (b ∷ bs) h = drop-IsText n bs h.1

overlaid-IsText : (old new : List ℕ) → IsText old → IsText new → IsText (overlaid old new)
overlaid-IsText old new h k = All-append _ new (drop (length new) old) k (drop-IsText _ old h)

length-overlaid :
    (n : ℕ) (old new : List ℕ) → length old < n → length new < n → length (overlaid old new) < n
length-overlaid n old new h k =
    omega (arith, length-append new (drop (length new) old), length-drop (length new) old)

-- A string in memory is the text before the zero byte.
c_string_text : (text rest : List ℕ) → IsText text → c_string (text ++ (0 ∷ rest)) ≡ ok text
unfolding c_string
c_string_text [] rest h = refl
c_string_text (b ∷ bs) rest (h, hs) =
    let other : (b == 0) ≡ false = ground (arith, h) in rw (other, c_string_text bs rest hs) refl

c_string-holding :
    (n : ℕ) (text rest : List ℕ)
    → IsText text
    → length text < n
    → c_string (holding n text rest) ≡ ok text
unfolding holding
c_string-holding n text rest h short = go (n - length text) (omega arith)
  where
    go : (m : ℕ) → 0 < m → c_string (text ++ (replicate m 0 ++ rest)) ≡ ok text
    go zero some = absurd (omega arith)
    go (suc m) some = c_string_text text (replicate m 0 ++ rest) h

drop-zeros_alone :
    (k m j : ℕ) (rest : List ℕ) → j + k ≡ m → drop k (replicate m 0 ++ rest) ≡ replicate j 0 ++ rest
drop-zeros_alone zero m j rest e = ap (λ i. replicate i 0 ++ rest) (omega (arith, e))
drop-zeros_alone (suc k) zero j rest e = absurd (omega (arith, e))
drop-zeros_alone (suc k) (suc m) j rest e = drop-zeros_alone k m j rest (omega (arith, e))

drop-zeros :
    (k : ℕ) (text : List ℕ) (m j : ℕ) (rest : List ℕ)
    → length (drop k text) + j + k ≡ length text + m
    → drop k (text ++ (replicate m 0 ++ rest)) ≡ drop k text ++ (replicate j 0 ++ rest)
drop-zeros zero text m j rest e = ap (λ i. text ++ (replicate i 0 ++ rest)) (omega (arith, e))
drop-zeros (suc k) [] m j rest e = drop-zeros_alone (suc k) m j rest (omega (arith, e))
drop-zeros (suc k) (b ∷ bs) m j rest e = drop-zeros k bs m j rest (omega (arith, e))

length-holding : (n : ℕ) (text rest : List ℕ) → length text < n → n ≤ length (holding n text rest)
unfolding holding
length-holding n text rest h =
    let zeros : List ℕ = replicate (n - length text) 0 in
    omega (
      arith,
      length-append text (zeros ++ rest),
      length-append zeros rest,
      length-replicate {A = ℕ} (n - length text) 0,
    )

store-overlaid :
    (n : ℕ) (old new rest : List ℕ)
    → length old < n
    → length new < n
    → store (holding n old rest) 0 new ≡ ok (holding n (overlaid old new) rest)
unfolding holding
store-overlaid n old new rest h k =
    store_next [] (holding n old rest) new 0 refl (omega (arith, length-holding n old rest h))
    ∙ placed
  where
    placed :
        ok (new ++ drop (length new) (holding n old rest)) ≡ ok (holding n (overlaid old new) rest)
    placed =
        let tail = drop (length new) old in
        let left = n - length (new ++ tail) in
        ap (λ w. ok (new ++ w))
          (drop-zeros (length new) old (n - length old) left rest
            (omega (arith, length-append new tail, length-drop (length new) old)))
        ∙ ap ok (sym (append_assoc new tail (replicate left 0 ++ rest)))

store-wiped :
    (n : ℕ) (text rest : List ℕ)
    → length text < n
    → store (holding n text rest) 0 (replicate n 0) ≡ ok (holding n [] rest)
unfolding holding
store-wiped n text rest h =
    store_next [] (holding n text rest) (replicate n 0) 0 refl
      (omega (arith, length-holding n text rest h, length-replicate {A = ℕ} n 0))
    ∙ wiped
  where
    wiped :
        ok (replicate n 0 ++ drop (length (replicate {A = ℕ} n 0)) (holding n text rest))
        ≡ ok (holding n [] rest)
    wiped =
        ap (λ w. ok (replicate n 0 ++ w))
          (ap (λ k. drop k (text ++ (replicate (n - length text) 0 ++ rest)))
              (length-replicate {A = ℕ} n 0)
            ∙ drop-zeros n text (n - length text) 0 rest (omega (arith, length-drop n text))
            ∙ ap (λ w. w ++ (replicate {A = ℕ} 0 0 ++ rest)) (drop_all n text (omega arith)))
        ∙ ap (λ m. ok (replicate m 0 ++ rest)) (let e : n ≡ n - 0 = omega arith in e)

-- The session after a text has been read over another.
read_over :
    (os : Os) (fd : ℕ) (old new rest : List ℕ) (log : Log)
    → IsText old
    → IsText new
    → length old < 1024
    → 0 < length new
    → length new < 1024
    → os.read log fd 1024 ≡ done new
    → do_read os fd (record { buf = holding 1024 old rest; log = log })
      ≡ ok (record {
        buf = holding 1024 (overlaid old new) rest;
        log = modify_event fd output (read fd 1024 ∷ log);
      })
unfolding do_read
read_over os fd old [] rest log t u h some k e = elim some [ ]
read_over os fd old (b ∷ bs) rest log t u h some k e =
    let both = overlaid old (b ∷ bs) in
    rw (e, do_read)
      (>>=-ok _ _ _ (store-overlaid 1024 old (b ∷ bs) rest h k)
        ∙ >>=-ok _ _ _ (
            c_string-holding 1024 both rest (overlaid-IsText old (b ∷ bs) t u)
              (length-overlaid 1024 old (b ∷ bs) h k)))

pub read_text :
    (os : Os) (fd : ℕ) (text rest : List ℕ) (log : Log)
    → IsText text
    → 0 < length text
    → length text < 1024
    → os.read log fd 1024 ≡ done text
    → do_read os fd (record { buf = holding 1024 [] rest; log = log })
      ≡ ok (record {
        buf = holding 1024 text rest;
        log = modify_event fd output (read fd 1024 ∷ log);
      })
read_text os fd text rest log t some short e =
    read_over os fd [] text rest log tt t (omega arith) some short e
    ∙ ap
        (λ w.
          ok (record {
            buf = holding 1024 w rest;
            log = modify_event fd output (read fd 1024 ∷ log);
          }))
        (ap (◌++◌ text) (drop_all (length text) [] (omega arith)) ∙ append-nil text)

pub write_text :
    (os : Os) (fd : ℕ) (text rest : List ℕ) (log : Log)
    → IsText text
    → length text < 1024
    → do_write os fd (record { buf = holding 1024 text rest; log = log })
      ≡ ok (record {
        buf = holding 1024 [] rest;
        log = after_write (os.write log fd text) fd (write fd text ∷ log);
      })
unfolding do_write
write_text os fd text rest log t h =
    >>=-ok _ _ _ (c_string-holding 1024 text rest t h) ∙ >>=-ok _ _ _ (store-wiped 1024 text rest h)

-- A text of fewer than 1,024 bytes that a client sends while the first 1,024 bytes of the buffer
-- are cleared is written back to the client unchanged, when the client is ready for it; then the
-- buffer is as before, and the client is watched for input again or, if the write failed, closed.
pub do_read-do_write :
    (os : Os) (fd : ℕ) (text rest : List ℕ) (log : Log)
    → IsText text
    → 0 < length text
    → length text < 1024
    → os.read log fd 1024 ≡ done text
    → (do_read os fd (record { buf = holding 1024 [] rest; log = log }) >>= do_write os fd) ≡ (
        let asked = modify_event fd output (read fd 1024 ∷ log) in
        ok (record {
          buf = holding 1024 [] rest;
          log = after_write (os.write asked fd text) fd (write fd text ∷ asked);
        }))
do_read-do_write os fd text rest log t some short e =
    >>=-ok _ _ _ (read_text os fd text rest log t some short e)
    ∙ write_text os fd text rest (modify_event fd output (read fd 1024 ∷ log)) t short

-- From a buffer that starts with 1,024 zero bytes, as do_write leaves it (initService does not clear
-- it before its first use): when texts of fewer than 1,024 bytes are read from two clients one after
-- the other, before either is ready to be written to, the first one is sent the second one's text, followed by what of its
-- own is longer, and the second one is then sent the empty text.
pub two_clients :
    (os : Os) (first second : ℕ) (a b rest : List ℕ) (log : Log)
    → IsText a
    → IsText b
    → 0 < length a
    → 0 < length b
    → length a < 1024
    → length b < 1024
    → os.read log first 1024 ≡ done a
    → (let asked = modify_event first output (read first 1024 ∷ log) in
        os.read asked second 1024 ≡ done b)
    → (do
      s ← do_read os first (record { buf = holding 1024 [] rest; log = log })
      t ← do_read os second s
      u ← do_write os first t
      do_write os second u)
      ≡ (let asked = modify_event first output (read first 1024 ∷ log) in
          let both = modify_event second output (read second 1024 ∷ asked) in
          let mixed = b ++ drop (length b) a in
          let answered = after_write (os.write both first mixed) first (write first mixed ∷ both) in
          ok (record {
            buf = holding 1024 [] rest;
            log = after_write (os.write answered second []) second (write second [] ∷ answered);
          }))
two_clients os first second a b rest log ta tb some_a some_b short_a short_b ea eb =
    let asked = modify_event first output (read first 1024 ∷ log) in
    let both = modify_event second output (read second 1024 ∷ asked) in
    let mixed = overlaid a b in
    let answered = after_write (os.write both first mixed) first (write first mixed ∷ both) in
    >>=-ok _ _ _ (read_text os first a rest log ta some_a short_a ea)
    ∙ >>=-ok _ _ _ (read_over os second a b rest asked ta tb short_a some_b short_b eb)
    ∙ >>=-ok _ _ _ (
        write_text os first mixed rest both (overlaid-IsText a b ta tb)
          (length-overlaid 1024 a b short_a short_b))
    ∙ write_text os second [] rest answered tt (omega arith)
