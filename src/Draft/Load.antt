-- ===== src/Draft/Load.antt =====
-- load_by_binary.cpp: a received block, from which the ledger is read in two ways.
use plib.Base.{ℕ, ◌+◌, List, Run, ok, ◌>>=◌, replicate, sub64}
use plib.Memory.Little.{of_le}
use plib.Memory.Block.{load, store}
use plib.Draft.Structs.{
  Ledger, FasInfo, FeedBack, sizeof_fas_info, sizeof_account, sizeof_owner, sizeof_ledger,
  required_size, ledger_of, fas_of,
}

-- What the function returns, and the two ledgers that it prints.
pub record Loaded : Type 0 where
  pub info : FeedBack
  pub by_offset : Ledger
  pub by_pointer : Ledger

-- The ledger at its place in the copy, and the ledger that the copied fas_info points to. A
-- pointer difference is a 64-bit pattern: one that is negative leads before the copy, outside it.
unfoldable pub read_ledgers : ℕ → ℕ → List ℕ → Run Loaded
read_ledgers data_address offset copied = do
  ledger1 ← load copied (sizeof_fas_info + sizeof_account + sizeof_owner) sizeof_ledger
  fas_bytes ← load copied 0 sizeof_fas_info
  let fas1 : FasInfo = fas_of fas_bytes
  let offset_diff = sub64 fas1.ledgerptr offset
  ledger2 ← load copied offset_diff sizeof_ledger
  ok (record {
    info = record { size = required_size; address = data_address; block = copied };
    by_offset = ledger_of ledger1;
    by_pointer = ledger_of ledger2;
  })

-- `message` is the memory from binptr to the end of its object, and `data_address` the address
-- that malloc gives for the copy, which memset clears. data_size is not used.
unfoldable pub load_bin_data : ℕ → List ℕ → Run Loaded
load_bin_data data_address message = do
  data_size ← load message 0 8
  offset ← load message 8 8
  content ← load message (8 + 8) required_size
  copied ← store (replicate required_size 0) 0 content
  read_ledgers data_address (of_le offset) copied
