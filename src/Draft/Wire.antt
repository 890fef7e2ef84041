-- ===== src/Draft/Wire.antt =====
-- The block that compress_data makes.
use plib.Base.{
  ℕ, ◌+◌, ◌≡◌, ◌≢◌, ◌++◌, List, ok, ◌==◌, if◌then◌else◌, exits, Run, false, refl, length, arith,
  take, length-take, length-append, subst, [], sym, ◌∙◌, ap, append-nil,
}
use plib.Memory.Little.{le_bytes}
use plib.Memory.Block.{malloc, store, store_before, length-fresh}
use plib.Draft.Structs.{
  Owner, Account, FasInfo, FeedBack, IsOwner, IsAccount, IsFasInfo, required_size, ledger_image,
  owner_image, account_image, fas_image,
}
use plib.Draft.Compress.{Order, compress_data, move_structs}

-- The structs as they are in a block that lies at an address.
unfoldable pub relocate : ℕ → Order → Order
relocate area o = record o {
  fas = record o.fas { accountptr = area + 48; ledgerptr = area + 112 };
  account = record o.account { ownerptr = area + 72 };
}

-- The four structs one after the other.
unfoldable pub order_wire : Order → List ℕ
order_wire o =
    fas_image o.fas ++ (account_image o.account ++ (owner_image o.owner ++ ledger_image o.ledger))

-- The arrays of the structs have their sizes.
pub record IsOrder (o : Order) : Type 0 where
  pub fas : IsFasInfo o.fas
  pub account : IsAccount o.account
  pub owner : IsOwner o.owner

pub length-fas_image : (f : FasInfo) → IsFasInfo f → length (fas_image f) ≡ 48
length-fas_image f v = omega (
  arith,
  v.date_size,
  v.pad_size,
  length-append f.date_stamp (f.pad ++ (le_bytes 8 f.accountptr ++ le_bytes 8 f.ledgerptr)),
  length-append f.pad (le_bytes 8 f.accountptr ++ le_bytes 8 f.ledgerptr),
)

pub length-account_image : (a : Account) → IsAccount a → length (account_image a) ≡ 24
length-account_image a v =
    omega (arith, v.pad_size, length-append a.pad (le_bytes 8 a.balance ++ le_bytes 8 a.ownerptr))

pub length-owner_image : (o : Owner) → IsOwner o → length (owner_image o) ≡ 40
length-owner_image o v =
    omega (arith, v.name_size, v.identity_size, length-append o.name o.identity)

moves :
    (area : ℕ) (o : Order) (b0 b1 b2 b3 b4 : List ℕ)
    → store b0 112 (ledger_image o.ledger) ≡ ok b1
    → store b1 72 (owner_image o.owner) ≡ ok b2
    → store b2 48 (account_image (relocate area o).account) ≡ ok b3
    → store b3 0 (fas_image (relocate area o).fas) ≡ ok b4
    → move_structs b0 area o
      ≡ ok (record { size = 128; address = area; block = b4 }, relocate area o)
unfolding move_structs relocate
moves area o b0 b1 b2 b3 b4 s1 s2 s3 s4 = rw s1 (rw s2 (rw s3 (rw s4 refl)))

-- When malloc gives memory at an address other than 0, and the arrays of the structs have their
-- sizes, the block consists of the fas_info, the account, the owner and the ledger one after the
-- other, whatever malloc left in it; its pointers, and the caller's, lead to the structs' places
-- in the block, and nothing else of the caller's structs changes.
pub compress_data_lem :
    (junk : ℕ → ℕ) (area : ℕ) (o : Order)
    → area ≢ 0
    → IsOrder o
    → compress_data junk area o
      ≡ ok (
        record { size = required_size; address = area; block = order_wire (relocate area o) },
        relocate area o,
      )
unfolding order_wire relocate compress_data
compress_data_lem junk area o there v =
    let moved = relocate area o in
    let b0 = malloc junk 128 in
    let size0 = length-fresh junk 128 0 in
    let b1 = take 112 b0 in
    let size1 : length b1 ≡ 112 = omega (arith, length-take 112 b0, size0) in
    let b2 = take 72 b1 in
    let size2 : length b2 ≡ 72 = omega (arith, length-take 72 b1, size1) in
    let b3 = take 48 b2 in
    let size3 : length b3 ≡ 48 = omega (arith, length-take 48 b2, size2) in
    let w1 = ledger_image o.ledger in
    let w2 = owner_image o.owner ++ w1 in
    let w3 = account_image moved.account ++ w2 in
    let wire : Run (FeedBack × Order) =
      ok (record { size = 128; address = area; block = fas_image moved.fas ++ w3 }, moved) in
    subst (λ c. (if c then exits 1 else move_structs b0 area o) ≡ wire)
      (sym (let e : (area == 0) ≡ false = ground (arith, there) in e))
      (moves area o b0 (b1 ++ w1) (b2 ++ w2) (b3 ++ w3) (fas_image moved.fas ++ w3)
        (subst (λ b. store b 112 w1 ≡ ok (b1 ++ w1)) (append-nil b0)
          (store_before b0 [] w1 112 (omega (arith, size0))
            ∙ ap (λ w. ok (b1 ++ w)) (append-nil w1)))
        (store_before b1 w1 (owner_image o.owner) 72
          (omega (arith, size1, length-owner_image o.owner v.owner)))
        (store_before b2 w2 (account_image moved.account) 48 (
          omega (
            arith,
            size2,
            length-account_image moved.account (record { pad_size = v.account.pad_size }),
          )))
        (store_before b3 w3 (fas_image moved.fas) 0 (
          omega (
            arith,
            size3,
            length-fas_image moved.fas
                (record { date_size = v.fas.date_size; pad_size = v.fas.pad_size }),
          ))))
