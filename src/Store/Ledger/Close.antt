-- ===== src/Store/Ledger/Close.antt =====
-- balance.go: `closeReservation` and its three users, `SettleSpend`, `ReverseSpend` and
-- `AssertPaymentOutcome`.
use brollyzapper.Base.{
  ℕ, Bool, ◌&&◌, Option, none, some, String, if◌then◌else◌, find_first, update_where,
}
use brollyzapper.Base.Int.{ℤ, pos, ltb_ℤ, eqb_ℤ}
use brollyzapper.Base.Int64.{add64, sub64, neg64}
use brollyzapper.Store.Rows.{
  Time, unix, settled, failed, reverse, refund_reserve, adjust, adjustment, is_payment_out,
  is_pending, has_id, Txn, Db, null_string,
}
use brollyzapper.Store.Tx.{
  Result, ok, err, Tx, ◌>>=◌, ◌>>◌, pure, in_tx, not_found, reservation_not_pending,
  not_unresolvable,
}
use brollyzapper.Store.Ledger.Append.{append_balance_entry, insert_txn, adjustment_row}

-- `reservation`: the row that the closers need.
pub record Reservation : Type 0 where
  pub amount_msat : ℤ
  pub reserved_fee_msat : ℤ

abbrev pub is_out_with_id : ℕ → Txn → Bool
is_out_with_id i t = has_id i t && is_payment_out t.kind

-- `UPDATE txns SET … WHERE id = ?`
unfoldable pub update_txn : ℕ → (Txn → Txn) → Tx (Unit {0})
update_txn i f db = ok (tt, record db { txns = update_where (has_id i) f db.txns })

-- `SELECT state, amount_msat, fee_reserved_msat FROM txns WHERE id = ? AND kind = ?`
unfoldable pub read_reservation : ℕ → Tx Reservation
read_reservation i db = elim (find_first (is_out_with_id i) db.txns) [
  | none ↦ err not_found
  | some t ↦
      if is_pending t.state
      then ok (record { amount_msat = t.amount_msat; reserved_fee_msat = t.fee_reserved_msat }, db)
      else err reservation_not_pending
]

unfoldable pub close_reservation : {A : Type 0} → ℕ → (Reservation → Tx A) → Tx A
unfolding read_reservation
close_reservation i close = do r ← read_reservation i; close r

abbrev pub mark_failed : Txn → Txn
mark_failed t = record t { state = failed }

-- `preimage = COALESCE(?, preimage)`
abbrev pub or_keep : Option String → Option String → Option String
or_keep none old = old
or_keep (some p) old = some p

abbrev pub mark_settled : ℤ → Time → String → Txn → Txn
mark_settled fee at preimage t = record t {
  state = settled;
  fee_msat = fee;
  settled_at = some (unix at);
  preimage = or_keep (null_string preimage) t.preimage;
}

-- The fee that is booked, and the excess over the reserve.
unfoldable pub booked_fee : ℤ → ℤ → ℤ
booked_fee actual reserved = if ltb_ℤ reserved actual then reserved else actual

unfoldable pub fee_excess : ℤ → ℤ → ℤ
fee_excess actual reserved = if ltb_ℤ reserved actual then sub64 actual reserved else pos 0

unfoldable pub refund_unused : ℕ → ℤ → Time → Tx (Unit {0})
unfolding append_balance_entry
refund_unused i refund at =
    if eqb_ℤ refund (pos 0) then pure tt else append_balance_entry i refund refund_reserve at

-- The operator's note is free text here; the source prints the row and both fees into it.
unfoldable pub adjust_excess : ℤ → String → Time → Tx (Unit {0})
unfolding insert_txn append_balance_entry
adjust_excess excess note at = if eqb_ℤ excess (pos 0) then pure tt else (do
  j ← insert_txn (adjustment_row adjustment excess note at)
  append_balance_entry j (neg64 excess) adjust at)

unfoldable pub settle_row : ℕ → ℤ → String → String → Time → Reservation → Tx ℤ
unfolding update_txn booked_fee fee_excess refund_unused adjust_excess
settle_row i actual preimage note at r = do
  update_txn i (mark_settled (booked_fee actual r.reserved_fee_msat) at preimage)
  refund_unused i (sub64 r.reserved_fee_msat (booked_fee actual r.reserved_fee_msat)) at
  adjust_excess (fee_excess actual r.reserved_fee_msat) note at
  pure (fee_excess actual r.reserved_fee_msat)

-- `note` is what `fmt.Sprintf` makes of the row and the fees.
unfoldable pub settle_spend : ℕ → ℤ → String → String → Time → Db → Result ℤ × Db
unfolding close_reservation settle_row
settle_spend i actual preimage note at =
    in_tx (close_reservation i (settle_row i actual preimage note at))

unfoldable pub fail_row : ℕ → Time → Reservation → Tx (Unit {0})
unfolding update_txn append_balance_entry
fail_row i at r = do
  update_txn i mark_failed
  append_balance_entry i (add64 r.amount_msat r.reserved_fee_msat) reverse at

unfoldable pub reverse_spend : ℕ → Time → Db → Result (Unit {0}) × Db
unfolding close_reservation fail_row
reverse_spend i at = in_tx (close_reservation i (fail_row i at))

-- `SELECT unresolvable_reason FROM txns WHERE id = ?`: whether the resolver has named the row.
unfoldable pub require_named : ℕ → Tx (Unit {0})
require_named i db = elim (find_first (has_id i) db.txns) [
  | none ↦ err not_found
  | some t ↦ elim t.unresolvable_reason [ none ↦ err not_unresolvable | some _ ↦ ok (tt, db) ]
]

unfoldable pub assert_row : ℕ → Bool → Time → Reservation → Tx (Unit {0})
unfolding require_named fail_row update_txn
assert_row i went_through at r = do
  require_named i
  if went_through then update_txn i (mark_settled r.reserved_fee_msat at "") else fail_row i at r

unfoldable pub assert_payment_outcome : ℕ → Bool → Time → Db → Result (Unit {0}) × Db
unfolding close_reservation assert_row
assert_payment_outcome i went_through at =
    in_tx (close_reservation i (assert_row i went_through at))
