-- ===== src/Wallet/Ceiling.antt =====
-- wallet.go, `Allocate` and `Deallocate`: the operator's moves of the ceiling, to the msat.
use brollyzapper.Base.{◌≡◌, refl, ap, ◌∙◌, false, ◌∷◌, String, arith}
use brollyzapper.Base.Int.{ℤ, pos, ◌+ℤ◌, ◌-ℤ◌, neg_ℤ, ◌≤ℤ◌, ◌<ℤ◌, leb_ℤ, int_laws}
use brollyzapper.Base.Int64.{neg64_of_Fits}
use brollyzapper.Store.Rows.{Time, Reason, Kind, allocate, deallocate, allocation, deallocation, Db}
use brollyzapper.Store.Tx
use brollyzapper.Store.Tx.{Tx, in_tx, in_tx-ok, in_tx-err, >>=-of_ok, insufficient_balance}
use brollyzapper.Store.Ledger.Append.{
  max_msat, next_txn_id, push_entry, append_balance_entry, new_txn, insert_txn, magnitude,
  adjustment_row, adjust_body, adjust_balance,
}
use brollyzapper.Store.Ledger.Sums.{total, total-bounds}
use brollyzapper.Store.Ledger.Invariant.{Inv}
use brollyzapper.Store.Ledger.Effects.{append_within, append_short, total-push, insert_row_free}
use brollyzapper.Wallet.Codec.{ok, err, of_store}
use brollyzapper.Wallet.Spender.{lift, allocate_msat, deallocate_msat}

abbrev with_adjustment : Kind → ℤ → String → Time → Db → Db
with_adjustment kind amount note at db = record db {
  txns = new_txn (next_txn_id db.txns) (adjustment_row kind (magnitude amount) note at) ∷ db.txns;
}

adjust_chain :
    (kind : Kind) (reason : Reason) (amount : ℤ) (note : String) (at : Time) (db : Db)
    → adjust_body kind reason amount note at db
      ≡ append_balance_entry
          (next_txn_id db.txns)
          amount
          reason
          at
          (with_adjustment kind amount note at db)
unfolding adjust_body insert_txn
adjust_chain kind reason amount note at db =
    >>=-of_ok (insert_txn (adjustment_row kind (magnitude amount) note at)) _ db
      (with_adjustment kind amount note at db) (next_txn_id db.txns)
      (insert_row_free
        (new_txn (next_txn_id db.txns) (adjustment_row kind (magnitude amount) note at)) db refl
        refl)

adjust_within :
    (kind : Kind) (reason : Reason) (amount : ℤ) (note : String) (at : Time) (db : Db)
    → Inv db
    → pos 0 ≤ℤ total db.entries +ℤ amount
    → total db.entries +ℤ amount ≤ℤ pos max_msat
    → (db' : Db) × (adjust_balance kind reason amount note at db ≡ (Tx.ok tt, db'))
      × (total db'.entries ≡ total db.entries +ℤ amount)
unfolding adjust_balance
adjust_within kind reason amount note at db inv lo hi =
    let base = total-bounds db.entries inv.bounded in
    let db₁ = with_adjustment kind amount note at db in
    (
      push_entry (next_txn_id db.txns) amount reason at db₁,
      in_tx-ok (adjust_body kind reason amount note at) db _ tt (
          adjust_chain kind reason amount note at db
          ∙ append_within (next_txn_id db.txns) amount reason at db₁ inv.bounded (omega int_laws) lo
              hi),
      total-push (next_txn_id db.txns) amount reason at db₁,
    )

adjust_short :
    (kind : Kind) (reason : Reason) (amount : ℤ) (note : String) (at : Time) (db : Db)
    → Inv db
    → neg_ℤ (pos max_msat) ≤ℤ amount
    → total db.entries +ℤ amount <ℤ pos 0
    → adjust_balance kind reason amount note at db ≡ (Tx.err insufficient_balance, db)
unfolding adjust_balance
adjust_short kind reason amount note at db inv lo short =
    let base = total-bounds db.entries inv.bounded in
    in_tx-err (adjust_body kind reason amount note at) db insufficient_balance (
      adjust_chain kind reason amount note at db
      ∙ append_short (next_txn_id db.txns) amount reason at (with_adjustment kind amount note at db)
          inv.bounded (omega int_laws) short)

positive : (a : ℤ) → pos 1 ≤ℤ a → leb_ℤ a (pos 0) ≡ false
positive a h = ground arith

less : (a b : ℤ) → a +ℤ neg_ℤ b ≡ a -ℤ b
less a b = omega int_laws

-- In a ledger that keeps its invariant, a positive allocation that keeps the ceiling within the
-- supply raises it by exactly its amount.
pub allocate_msat_raises :
    (amount : ℤ) (note : String) (now : Time) (db : Db)
    → Inv db
    → pos 1 ≤ℤ amount
    → total db.entries +ℤ amount ≤ℤ pos max_msat
    → (db' : Db) × (allocate_msat amount note now db ≡ (ok tt, db'))
      × (total db'.entries ≡ total db.entries +ℤ amount)
unfolding allocate_msat
allocate_msat_raises amount note now db inv lo hi =
    let base = total-bounds db.entries inv.bounded in
    let (db', e, sum) =
      adjust_within allocation allocate amount note now db inv (omega int_laws) hi in
    (db', rw (positive amount lo) (ap lift e), sum)

-- In a ledger that keeps its invariant, a positive deallocation that the ceiling covers lowers it
-- by exactly its amount.
pub deallocate_msat_lowers :
    (amount : ℤ) (note : String) (now : Time) (db : Db)
    → Inv db
    → pos 1 ≤ℤ amount
    → amount ≤ℤ total db.entries
    → (db' : Db) × (deallocate_msat amount note now db ≡ (ok tt, db'))
      × (total db'.entries ≡ total db.entries -ℤ amount)
unfolding deallocate_msat
deallocate_msat_lowers amount note now db inv lo covered =
    let base = total-bounds db.entries inv.bounded in
    let exact = neg64_of_Fits amount (omega int_laws) in
    let (db', e, sum) =
      adjust_within deallocation deallocate (neg_ℤ amount) note now db inv (omega int_laws)
        (omega int_laws) in
    (db', rw (positive amount lo, exact) (ap lift e), sum ∙ less (total db.entries) amount)

-- In a ledger that keeps its invariant, a deallocation within the supply that the ceiling does not
-- cover is refused, with nothing written.
pub deallocate_msat_uncovered :
    (amount : ℤ) (note : String) (now : Time) (db : Db)
    → Inv db
    → total db.entries <ℤ amount
    → amount ≤ℤ pos max_msat
    → deallocate_msat amount note now db ≡ (err (of_store insufficient_balance), db)
unfolding deallocate_msat
deallocate_msat_uncovered amount note now db inv short hi =
    let base = total-bounds db.entries inv.bounded in
    let exact = neg64_of_Fits amount (omega int_laws) in
    rw (positive amount (omega int_laws), exact)
      (ap lift (
        adjust_short deallocation deallocate (neg_ℤ amount) note now db inv (omega int_laws)
          (omega int_laws)))
