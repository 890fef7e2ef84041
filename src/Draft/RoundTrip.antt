-- ===== src/Draft/RoundTrip.antt =====
-- load_bin_data on blocks that compress_data makes, and on any others.
use plib.Base.{
  ℕ, ◌<◌, ◌≤◌, ◌≡◌, List, ok, undefined, ◌>>=◌, >>=-ok, refl, length, arith, take, drop,
  length-take, length-drop, sym, ◌∙◌, subst, replicate, sub64,
}
use plib.Memory.Little.{of_le}
use plib.Memory.Block.{load, load_inside, load_outside, store, store_whole}
use plib.Draft.Structs.{ledger_of, fas_of}
use plib.Draft.Load.{read_ledgers, load_bin_data}

ledgers_run :
    (address offset : ℕ) (copied l1 f : List ℕ)
    → load copied 112 16 ≡ ok l1
    → load copied 0 48 ≡ ok f
    → read_ledgers address offset copied ≡ (
        load copied (sub64 (fas_of f).ledgerptr offset) 16 >>= λ l2. ok (record {
          info = record { size = 128; address = address; block = copied };
          by_offset = ledger_of l1;
          by_pointer = ledger_of l2;
        }))
unfolding read_ledgers
ledgers_run address offset copied l1 f r1 r2 = rw r1 (rw r2 refl)

-- The bytes after the two fields at the start of a message.
unfoldable pub copy_of : List ℕ → List ℕ
copy_of message = take 128 (drop 16 message)

length-copy_of : (message : List ℕ) → 144 ≤ length message → length (copy_of message) ≡ 128
unfolding copy_of
length-copy_of message full =
    omega (arith, length-take 128 (drop 16 message), length-drop 16 message, full)

-- A message with all 144 bytes is copied without the first 16.
load_run :
    (address : ℕ) (message : List ℕ)
    → 144 ≤ length message
    → load_bin_data address message
      ≡ read_ledgers address (of_le (take 8 (drop 8 message))) (copy_of message)
unfolding load_bin_data copy_of
load_run address message full =
    >>=-ok (load message 0 8) _ _ (load_inside message 0 8 (omega (arith, full)))
    ∙ >>=-ok (load message 8 8) _ _ (load_inside message 8 8 (omega (arith, full)))
    ∙ >>=-ok (load message 16 128) _ _ (load_inside message 16 128 (omega (arith, full)))
    ∙ >>=-ok (store (replicate {A = ℕ} 128 0) 0 (copy_of message))
        (read_ledgers address (of_le (take 8 (drop 8 message)))) (copy_of message)
        (store_whole (replicate {A = ℕ} 128 0) (copy_of message)
          (sym (length-copy_of message full)))

-- How far the ledger pointer in a message is from the offset that stands before it, as 64 bits.
unfoldable pub pointer_diff : List ℕ → ℕ
unfolding copy_of
pointer_diff message =
    sub64 (fas_of (take 48 (copy_of message))).ledgerptr (of_le (take 8 (drop 8 message)))

copy_run :
    (address : ℕ) (message : List ℕ)
    → 144 ≤ length message
    → load_bin_data address message ≡ (
        load (copy_of message) (pointer_diff message) 16 >>= λ l2. ok (record {
          info = record { size = 128; address = address; block = copy_of message };
          by_offset = ledger_of (take 16 (drop 112 (copy_of message)));
          by_pointer = ledger_of l2;
        }))
unfolding pointer_diff
copy_run address message full =
    let copied = copy_of message in
    let size : length copied ≡ 128 = length-copy_of message full in
    load_run address message full
    ∙ ledgers_run address (of_le (take 8 (drop 8 message))) copied (take 16 (drop 112 copied))
        (take 48 copied) (load_inside copied 112 16 (omega (arith, size)))
        (load_inside copied 0 48 (omega (arith, size)))

pub agree_run :
    (address : ℕ) (message : List ℕ)
    → 144 ≤ length message
    → pointer_diff message ≡ 112
    → load_bin_data address message
      ≡ ok (record {
        info = record { size = 128; address = address; block = copy_of message };
        by_offset = ledger_of (take 16 (drop 112 (copy_of message)));
        by_pointer = ledger_of (take 16 (drop 112 (copy_of message)));
      })
agree_run address message full e =
    let copied = copy_of message in
    copy_run address message full
    ∙ >>=-ok (load copied (pointer_diff message) 16) _ (take 16 (drop 112 copied)) (
        subst (λ d. load copied d 16 ≡ ok (take 16 (drop 112 copied))) (sym e)
          (load_inside copied 112 16 (omega (arith, length-copy_of message full))))

-- For a message that has all 144 bytes but whose ledger pointer is more than 112 bytes after its
-- offset, or before it, the behaviour is undefined: the copy of the ledger reads outside the block.
pub load_bin_data_outside :
    (address : ℕ) (message : List ℕ)
    → 144 ≤ length message
    → 112 < pointer_diff message
    → load_bin_data address message ≡ undefined
load_bin_data_outside address message full far =
    copy_run address message full
    ∙ rw
        (load_outside (copy_of message) (pointer_diff message) 16
          (omega (arith, far, length-copy_of message full)))
        refl
