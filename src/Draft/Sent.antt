-- ===== src/Draft/Sent.antt =====
-- A block that compress_data makes, sent after its size and address, and loaded.
use plib.Base.{
  ℕ, ◌+◌, ◌^◌, ◌<◌, ◌≤◌, ◌≡◌, ◌≢◌, ◌++◌, List, ok, ◌>>=◌, >>=-ok, refl, length, arith, take, drop,
  length-append, sym, ◌∙◌, ap, ap₂, append_assoc, subst, sub64, take-append, drop-append,
}
use plib.Memory.Little.{le_bytes, of_le, of_le-le_bytes}
use plib.Draft.Structs.{
  Ledger, FasInfo, IsLedger, IsFasInfo, ledger_of, fas_of, ledger_image, fas_image, account_image,
  owner_image,
}
use plib.Draft.Compress.{Order, compress_data}
use plib.Draft.Wire.{
  IsOrder, relocate, order_wire, compress_data_lem, length-fas_image, length-account_image,
  length-owner_image,
}
use plib.Draft.Load.{load_bin_data}
use plib.Draft.RoundTrip.{copy_of, pointer_diff, agree_run}

-- A message: a size, the address that the block had, the block, and whatever follows.
abbrev pub message_of : ℕ → ℕ → List ℕ → List ℕ → List ℕ
message_of size area block rest = le_bytes 8 size ++ (le_bytes 8 area ++ (block ++ rest))

ledger_of-ledger_image : (l : Ledger) → IsLedger l → ledger_of (ledger_image l) ≡ l
ledger_of-ledger_image l v =
    ap₂ (λ t a. record { transaction_id = t; amount = a })
      (of_le-le_bytes 8 l.transaction_id (omega (arith, v.id_fits)))
      (of_le-le_bytes 8 l.amount (omega (arith, v.amount_fits)))

ledgerptr_there :
    (f : FasInfo)
    → IsFasInfo f
    → f.ledgerptr < 2 ^ 64
    → (fas_of (fas_image f)).ledgerptr ≡ f.ledgerptr
ledgerptr_there f v fits =
    let last = le_bytes 8 f.ledgerptr in
    let pre = le_bytes 8 f.order_id ++ (f.date_stamp ++ (f.pad ++ le_bytes 8 f.accountptr)) in
    let parts : fas_image f ≡ pre ++ last = ap (◌++◌ (le_bytes 8 f.order_id)) (
      ap (◌++◌ f.date_stamp) (sym (append_assoc f.pad (le_bytes 8 f.accountptr) last))
      ∙ sym (append_assoc f.date_stamp (f.pad ++ le_bytes 8 f.accountptr) last)) in
    let at : 40 ≡ length pre = omega (
      arith,
      v.date_size,
      v.pad_size,
      length-append f.date_stamp (f.pad ++ le_bytes 8 f.accountptr),
      length-append f.pad (le_bytes 8 f.accountptr),
    ) in
    subst (λ image. of_le (take 8 (drop 40 image)) ≡ f.ledgerptr) (sym parts)
      (subst (λ image. of_le (take 8 image) ≡ f.ledgerptr) (sym (drop-append 40 pre last at))
        (of_le-le_bytes 8 f.ledgerptr (omega (arith, fits))))

module _ (o : Order) (v : IsOrder o) where
  parts_sizes : record {
    fas : length (fas_image o.fas) ≡ 48;
    account : length (account_image o.account) ≡ 24;
    owner : length (owner_image o.owner) ≡ 40;
    all : length (order_wire o) ≡ 128;
  }
  unfolding order_wire
  parts_sizes =
      let tail = owner_image o.owner ++ ledger_image o.ledger in
      let fas = length-fas_image o.fas v.fas in
      let account = length-account_image o.account v.account in
      let owner = length-owner_image o.owner v.owner in
      record {
        fas = fas;
        account = account;
        owner = owner;
        all = omega (
          arith,
          fas,
          account,
          owner,
          length-append (fas_image o.fas) (account_image o.account ++ tail),
          length-append (account_image o.account) tail,
          length-append (owner_image o.owner) (ledger_image o.ledger),
        );
      }

  copy_of-message_of :
      (size area : ℕ) (rest : List ℕ)
      → copy_of (message_of size area (order_wire o) rest) ≡ order_wire o
  unfolding copy_of
  copy_of-message_of size area rest = take-append 128 (order_wire o) rest (sym parts_sizes.all)

  fas_there : take 48 (order_wire o) ≡ fas_image o.fas
  unfolding order_wire
  fas_there = take-append 48 (fas_image o.fas) _ (sym parts_sizes.fas)

  ledger_there : IsLedger o.ledger → ledger_of (take 16 (drop 112 (order_wire o))) ≡ o.ledger
  unfolding order_wire
  ledger_there fits =
      let last = ledger_image o.ledger in
      let pre = fas_image o.fas ++ (account_image o.account ++ owner_image o.owner) in
      let parts : order_wire o ≡ pre ++ last =
        ap (◌++◌ (fas_image o.fas))
          (sym (append_assoc (account_image o.account) (owner_image o.owner) last))
        ∙ sym (
            append_assoc (fas_image o.fas) (account_image o.account ++ owner_image o.owner) last) in
      let at : 112 ≡ length pre = omega (
        arith,
        parts_sizes.fas,
        parts_sizes.account,
        parts_sizes.owner,
        length-append (fas_image o.fas) (account_image o.account ++ owner_image o.owner),
        length-append (account_image o.account) (owner_image o.owner),
      ) in
      subst (λ w. ledger_of (take 16 (drop 112 w)) ≡ o.ledger) (sym parts)
        (subst (λ w. ledger_of (take 16 w) ≡ o.ledger) (sym (drop-append 112 pre last at))
          (ledger_of-ledger_image o.ledger fits))

  diff_there :
      (size area : ℕ) (rest : List ℕ)
      → o.fas.ledgerptr ≡ area + 112
      → area + 128 ≤ 2 ^ 64
      → pointer_diff (message_of size area (order_wire o) rest) ≡ 112
  unfolding pointer_diff
  diff_there size area rest linked fits =
      let pointer : (fas_of
            (take 48 (copy_of (message_of size area (order_wire o) rest)))).ledgerptr
          ≡ area + 112 =
        subst (λ w. (fas_of (take 48 w)).ledgerptr ≡ area + 112)
          (sym (copy_of-message_of size area rest))
          (subst (λ w. (fas_of w).ledgerptr ≡ area + 112) (sym fas_there)
            (ledgerptr_there o.fas v.fas (omega (arith, linked, fits)) ∙ linked)) in
      ap₂ sub64 pointer (of_le-le_bytes 8 area (omega (arith, fits))) ∙ omega (arith, fits)

  load_sent :
      (address size area : ℕ) (rest : List ℕ)
      → IsLedger o.ledger
      → o.fas.ledgerptr ≡ area + 112
      → area + 128 ≤ 2 ^ 64
      → load_bin_data address (message_of size area (order_wire o) rest)
        ≡ ok (record {
          info = record { size = 128; address = address; block = order_wire o };
          by_offset = o.ledger;
          by_pointer = o.ledger;
        })
  load_sent address size area rest ledger linked fits =
      let message = message_of size area (order_wire o) rest in
      let long : 144 ≤ length message =
        omega (arith, length-append (order_wire o) rest, parts_sizes.all) in
      let same = copy_of-message_of size area rest in
      let found : ledger_of (take 16 (drop 112 (copy_of message))) ≡ o.ledger =
        subst (λ w. ledger_of (take 16 (drop 112 w)) ≡ o.ledger) (sym same) (ledger_there ledger) in
      agree_run address message long (diff_there size area rest linked fits)
      ∙ ap₂
          (λ block ledger. ok (record {
            info = record { size = 128; address = address; block = block };
            by_offset = ledger;
            by_pointer = ledger;
          }))
          same found

-- When malloc gives memory at an address other than 0 and below 2 ^ 64, and the structs' arrays and
-- the ledger's members have their sizes, loading the block that compress_data makes, sent after
-- any size and its address and with anything behind it, gives the same block at the new address
-- and, read by its place as well as through the pointer, the ledger that was compressed.
pub load-compress :
    (junk : ℕ → ℕ) (address size area : ℕ) (o : Order) (rest : List ℕ)
    → area ≢ 0
    → area + 128 ≤ 2 ^ 64
    → IsOrder o
    → IsLedger o.ledger
    → (compress_data junk area o >>= λ (sent, moved).
        load_bin_data address (message_of size area sent.block rest))
      ≡ ok (record {
        info = record { size = 128; address = address; block = order_wire (relocate area o) };
        by_offset = o.ledger;
        by_pointer = o.ledger;
      })
unfolding relocate
load-compress junk address size area o rest there fits v ledger =
    >>=-ok (compress_data junk area o) _ _ (compress_data_lem junk area o there v)
    ∙ load_sent (relocate area o)
        (record {
          fas = record { date_size = v.fas.date_size; pad_size = v.fas.pad_size };
          account = record { pad_size = v.account.pad_size };
          owner = v.owner;
        })
        address size area rest ledger refl fits
