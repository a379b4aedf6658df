-- ===== src/Store/Ledger/Reserve.antt =====
-- balance.go: `ReserveSpend`, the debit that is made before anything is sent.
use brollyzapper.Base.{ℕ, none, String}
use brollyzapper.Base.Int.{ℤ}
use brollyzapper.Base.Int64.{add64, neg64}
use brollyzapper.Store.Rows.{Time, payment_out, pending, reserve, Db}
use brollyzapper.Store.Tx.{
  Error, Result, ok, err, Tx, ◌>>=◌, ◌>>◌, pure, in_tx, unique_payment_hash, payment_in_flight,
}
use brollyzapper.Store.Ledger.Append.{in_range, append_balance_entry, TxnRow, insert_txn}

pub record SpendReservation : Type 0 where
  pub amount_msat : ℤ
  pub max_fee_msat : ℤ
  pub payment_hash : String
  pub ref : String
  pub description : String
  pub metadata : String
  pub description_hash : String
  pub nwc_connection_id : ℕ

abbrev pub reservation_row : SpendReservation → Time → TxnRow
reservation_row req at = record {
  kind = payment_out;
  state = pending;
  amount_msat = req.amount_msat;
  fee_reserved_msat = req.max_fee_msat;
  payment_hash = req.payment_hash;
  note = req.ref;
  description = req.description;
  out_metadata = req.metadata;
  out_description_hash = req.description_hash;
  nwc_connection_id = req.nwc_connection_id;
  created_at = at;
  settled_at = none;
}

-- The driver's "UNIQUE constraint failed: txns.payment_hash" becomes ErrPaymentInFlight.
abbrev pub in_flight_error : Error → Error
in_flight_error unique_payment_hash = payment_in_flight
in_flight_error e = e

unfoldable pub insert_reservation : SpendReservation → Time → Tx ℕ
unfolding insert_txn
insert_reservation req at db = elim (insert_txn (reservation_row req at) db) [
  | ok r ↦ ok r
  | err e ↦ err (in_flight_error e)
]

unfoldable pub reserve_body : SpendReservation → Time → Tx ℕ
unfolding in_range insert_reservation append_balance_entry
reserve_body req at = do
  in_range req.amount_msat
  in_range req.max_fee_msat
  in_range (add64 req.amount_msat req.max_fee_msat)
  i ← insert_reservation req at
  append_balance_entry i (neg64 (add64 req.amount_msat req.max_fee_msat)) reserve at
  pure i

unfoldable pub reserve_spend : SpendReservation → Time → Db → Result ℕ × Db
unfolding reserve_body
reserve_spend req at = in_tx (reserve_body req at)
