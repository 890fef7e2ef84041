-- ===== src/Draft/Structs.antt =====
-- structure_fixed_size.h on the 64-bit target. Each struct has its image in memory, the padding
-- that the compiler puts between its members included. A pointer is its address.
use plib.Base.{ℕ, ◌+◌, ◌<◌, ◌≡◌, ◌^◌, List, ◌++◌, length, take, drop}
use plib.Memory.Little.{le_bytes, of_le}

pub record Ledger : Type 0 where
  pub transaction_id : ℕ
  pub amount : ℕ

pub record Owner : Type 0 where
  pub name : List ℕ
  pub identity : List ℕ

-- `pad` is the four bytes between account_id and balance.
pub record Account : Type 0 where
  pub account_id : ℕ
  pub pad : List ℕ
  pub balance : ℕ
  pub ownerptr : ℕ

-- `pad` is the four bytes between date_stamp and accountptr.
pub record FasInfo : Type 0 where
  pub order_id : ℕ
  pub date_stamp : List ℕ
  pub pad : List ℕ
  pub accountptr : ℕ
  pub ledgerptr : ℕ

-- The block is what `address` points to.
pub record FeedBack : Type 0 where
  pub size : ℕ
  pub address : ℕ
  pub block : List ℕ

abbrev pub sizeof_fas_info : ℕ
sizeof_fas_info = 48

abbrev pub sizeof_account : ℕ
sizeof_account = 24

abbrev pub sizeof_owner : ℕ
sizeof_owner = 40

abbrev pub sizeof_ledger : ℕ
sizeof_ledger = 16

abbrev pub required_size : ℕ
required_size = sizeof_fas_info + sizeof_account + sizeof_owner + sizeof_ledger

abbrev pub ledger_image : Ledger → List ℕ
ledger_image l = le_bytes 8 l.transaction_id ++ le_bytes 8 l.amount

abbrev pub owner_image : Owner → List ℕ
owner_image o = o.name ++ o.identity

abbrev pub account_image : Account → List ℕ
account_image a =
    le_bytes 4 a.account_id ++ (a.pad ++ (le_bytes 8 a.balance ++ le_bytes 8 a.ownerptr))

abbrev pub fas_image : FasInfo → List ℕ
fas_image f =
    le_bytes 8 f.order_id
    ++ (f.date_stamp ++ (f.pad ++ (le_bytes 8 f.accountptr ++ le_bytes 8 f.ledgerptr)))

-- The members that a struct's image holds.
abbrev pub ledger_of : List ℕ → Ledger
ledger_of image = record {
  transaction_id = of_le (take 8 image);
  amount = of_le (take 8 (drop 8 image));
}

abbrev pub fas_of : List ℕ → FasInfo
fas_of image = record {
  order_id = of_le (take 8 image);
  date_stamp = take 20 (drop 8 image);
  pad = take 4 (drop 28 image);
  accountptr = of_le (take 8 (drop 32 image));
  ledgerptr = of_le (take 8 (drop 40 image));
}

-- The members have the sizes of their types.
pub record IsLedger (l : Ledger) : Type 0 where
  pub id_fits : l.transaction_id < 2 ^ 64
  pub amount_fits : l.amount < 2 ^ 64

pub record IsOwner (o : Owner) : Type 0 where
  pub name_size : length o.name ≡ 20
  pub identity_size : length o.identity ≡ 20

pub record IsAccount (a : Account) : Type 0 where
  pub pad_size : length a.pad ≡ 4

pub record IsFasInfo (f : FasInfo) : Type 0 where
  pub date_size : length f.date_stamp ≡ 20
  pub pad_size : length f.pad ≡ 4
