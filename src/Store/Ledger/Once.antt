-- ===== src/Store/Ledger/Once.antt =====
-- `closeReservation`: a payment is closed once.
use brollyzapper.Store.Ledger.Fees.{settle_spend_within}
use brollyzapper.Base.{ℕ, ◌≡◌, refl, Bool, String, some, find_first}
use brollyzapper.Base.Int.{ℤ, pos, ◌+ℤ◌, ◌-ℤ◌, ◌≤ℤ◌}
use brollyzapper.Store.Rows.{Time, Txn, Db}
use brollyzapper.Store.Tx.{ok, err, reservation_not_pending}
use brollyzapper.Store.Ledger.Append.{max_msat}
use brollyzapper.Store.Ledger.Close.{
  mark_failed, mark_settled, settle_spend, settle_row, reverse_spend, fail_row,
  assert_payment_outcome, assert_row, is_out_with_id,
}
use brollyzapper.Store.Ledger.Sums.{total}
use brollyzapper.Store.Ledger.Invariant.{Inv}
use brollyzapper.Store.Ledger.Closing.{Pending}
use brollyzapper.Store.Ledger.Effects.{close_reservation_once, reverse_spend_refunds}

-- None of the three ways to close a payment does anything to the one with this id.
abbrev pub IsClosed : ℕ → Db → Type 0
IsClosed i db =
    ((actual : ℤ) (preimage note : String) (at : Time)
      → settle_spend i actual preimage note at db ≡ (err reservation_not_pending, db))
    × ((at : Time) → reverse_spend i at db ≡ (err reservation_not_pending, db))
    × ((went_through : Bool) (at : Time)
        → assert_payment_outcome i went_through at db ≡ (err reservation_not_pending, db))

pub failed-IsClosed :
    (i : ℕ) (t : Txn) (db : Db)
    → find_first (is_out_with_id i) db.txns ≡ some (mark_failed t)
    → IsClosed i db
unfolding settle_spend reverse_spend assert_payment_outcome
failed-IsClosed i t db found = (
  λ actual preimage note at.
      close_reservation_once i (settle_row i actual preimage note at) db (mark_failed t) found refl,
  λ at. close_reservation_once i (fail_row i at) db (mark_failed t) found refl,
  λ w at. close_reservation_once i (assert_row i w at) db (mark_failed t) found refl,
)

settled-IsClosed :
    (i : ℕ) (fee : ℤ) (at₀ : Time) (p : String) (t : Txn) (db : Db)
    → find_first (is_out_with_id i) db.txns ≡ some (mark_settled fee at₀ p t)
    → IsClosed i db
unfolding settle_spend reverse_spend assert_payment_outcome
settled-IsClosed i fee at₀ p t db found = (
  λ actual preimage note at.
      close_reservation_once i (settle_row i actual preimage note at) db (mark_settled fee at₀ p t)
        found refl,
  λ at. close_reservation_once i (fail_row i at) db (mark_settled fee at₀ p t) found refl,
  λ w at. close_reservation_once i (assert_row i w at) db (mark_settled fee at₀ p t) found refl,
)

-- In a ledger that keeps its invariant, a pending payment that is reversed, with room under the
-- ceiling for what comes back, cannot be settled, reversed or asserted again: each answers that the
-- reservation is not pending and changes nothing.
pub reverse_spend_closes :
    (i : ℕ) (at : Time) (db : Db) (t : Txn)
    → Inv db
    → Pending i db t
    → total db.entries +ℤ (t.amount_msat +ℤ t.fee_reserved_msat) ≤ℤ pos max_msat
    → (db' : Db) × (reverse_spend i at db ≡ (ok tt, db')) × IsClosed i db'
reverse_spend_closes i at db t inv p room =
    let (db', e, _, found) = reverse_spend_refunds i at db t inv p room in
    (db', e, failed-IsClosed i t db' found)

-- In a ledger that keeps its invariant, a pending payment that is settled at a fee from 0 to its
-- reserve, with room for the rest, cannot be settled, reversed or asserted again: each answers that
-- the reservation is not pending and changes nothing.
pub settle_spend_closes :
    (i : ℕ) (actual : ℤ) (preimage note : String) (at : Time) (db : Db) (t : Txn)
    → Inv db
    → Pending i db t
    → pos 0 ≤ℤ actual
    → actual ≤ℤ t.fee_reserved_msat
    → total db.entries +ℤ (t.fee_reserved_msat -ℤ actual) ≤ℤ pos max_msat
    → (db' : Db) × (settle_spend i actual preimage note at db ≡ (ok (pos 0), db')) × IsClosed i db'
settle_spend_closes i actual preimage note at db t inv p lo hi room =
    let (db', e, _, found) = settle_spend_within i actual preimage note at db t inv p lo hi room in
    (db', e, settled-IsClosed i actual at preimage t db' found)
