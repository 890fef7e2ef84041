-- ===== src/Draft/Compress.antt =====
-- compress_recursive.cpp: the four structs moved into one block, with their pointers changed.
use plib.Base.{ℕ, ◌+◌, List, Run, ok, exits, ◌>>=◌, if◌then◌else◌, ◌==◌}
use plib.Memory.Block.{malloc, store}
use plib.Draft.Structs.{
  Ledger, Owner, Account, FasInfo, FeedBack, sizeof_fas_info, sizeof_account, sizeof_owner,
  required_size, ledger_image, owner_image, account_image, fas_image,
}

-- A fas_info and what its pointers lead to.
pub record Order : Type 0 where
  pub fas : FasInfo
  pub account : Account
  pub owner : Owner
  pub ledger : Ledger

-- The moves into the block at `area`, from the last struct to the first. The caller's structs are
-- changed too: their pointers lead into the block.
unfoldable pub move_structs : List ℕ → ℕ → Order → Run (FeedBack × Order)
move_structs applied_area area o = do
  let account_at = sizeof_fas_info
  let owner_at = account_at + sizeof_account
  let ledger_at = owner_at + sizeof_owner
  ledgered ← store applied_area ledger_at (ledger_image o.ledger)
  let relinked : FasInfo = record o.fas { ledgerptr = area + ledger_at }
  owned ← store ledgered owner_at (owner_image o.owner)
  let account : Account = record o.account { ownerptr = area + owner_at }
  accounted ← store owned account_at (account_image account)
  let fas : FasInfo = record relinked { accountptr = area + account_at }
  block ← store accounted 0 (fas_image fas)
  ok (
    record { size = required_size; address = area; block = block },
    record o { fas = fas; account = account },
  )

-- malloc gives the address `area`, which is 0 for the null pointer, and memory with any content.
unfoldable pub compress_data : (ℕ → ℕ) → ℕ → Order → Run (FeedBack × Order)
compress_data junk area o =
    if area == 0 then exits 1 else move_structs (malloc junk required_size) area o
