-- ===== src/Store/Ledger/Reserving.antt =====
-- What `ReserveSpend` answers, branch by branch.
use brollyzapper.Base.{ℕ, ◌≡◌, refl, ◌∙◌, true, false, some, List, ◌∷◌, arith, any, find_first}
use brollyzapper.Base.Int.{ℤ, pos, ◌+ℤ◌, ◌-ℤ◌, neg_ℤ, ◌≤ℤ◌, ◌<ℤ◌, int_laws}
use brollyzapper.Store.Rows.{Time, reserve, is_payment_out, Txn, Db}
use brollyzapper.Store.Tx.{
  ok, err, Tx, pure, ◌>>◌, >>=-of_ok, >>=-of_err, in_tx-ok, in_tx-err, insufficient_balance,
  payment_in_flight, amount_out_of_range, unique_payment_hash,
}
use brollyzapper.Store.Ledger.Append.{
  max_msat, next_txn_id, push_entry, in_range, append_balance_entry, new_txn, insert_row,
  insert_txn, clashes, refers, connection_ref,
}
use brollyzapper.Store.Ledger.Close.{is_out_with_id}
use brollyzapper.Store.Ledger.Reserve.{
  SpendReservation, insert_reservation, reserve_body, reserve_spend,
}
use brollyzapper.Store.Ledger.Sums.{total, InRange, total-bounds}
use brollyzapper.Store.Ledger.Invariant.{Inv}
use brollyzapper.Store.Ledger.Safety.{reserved_txn, sum-add64, neg-neg64}
use brollyzapper.Store.Ledger.Effects.{append_within, append_short, total-push}

-- A reservation that the guards and the constraints let through.
pub record Acceptable (req : SpendReservation) (at : Time) (db : Db) : Type 0 where
  pub positive : pos 1 ≤ℤ req.amount_msat
  pub fee_nonneg : pos 0 ≤ℤ req.max_fee_msat
  pub sum_fits : req.amount_msat +ℤ req.max_fee_msat ≤ℤ pos max_msat
  pub known : refers (connection_ref req.nwc_connection_id) db.connections ≡ true
  pub free : any (clashes (reserved_txn req at db)) db.txns ≡ false

in_range_passes : (a : ℤ) (db : Db) → InRange a → in_range a db ≡ ok (tt, db)
unfolding in_range
in_range_passes a db r = ground arith

insert_row_accepts :
    (t : Txn) (db : Db)
    → refers t.nwc_connection_id db.connections ≡ true
    → any (clashes t) db.txns ≡ false
    → insert_row t db ≡ ok (t.id, record db { txns = t ∷ db.txns })
unfolding insert_row
insert_row_accepts t db c h = ground arith

insert_row_clash :
    (t : Txn) (db : Db)
    → refers t.nwc_connection_id db.connections ≡ true
    → any (clashes t) db.txns ≡ true
    → insert_row t db ≡ err unique_payment_hash
unfolding insert_row
insert_row_clash t db c h = ground arith

find_own :
    (i : ℕ) (t : Txn) (ts : List Txn)
    → t.id ≡ i
    → is_payment_out t.kind ≡ true
    → find_first (is_out_with_id i) (t ∷ ts) ≡ some t
find_own i t ts e k = ground arith

less : (a b : ℤ) → a +ℤ neg_ℤ b ≡ a -ℤ b
less a b = omega int_laws

insert_reservation_accepts :
    (req : SpendReservation) (at : Time) (db : Db)
    → Acceptable req at db
    → insert_reservation req at db
      ≡ ok (next_txn_id db.txns, record db { txns = reserved_txn req at db ∷ db.txns })
unfolding insert_reservation insert_txn
insert_reservation_accepts req at db a =
    ground (arith, insert_row_accepts (reserved_txn req at db) db a.known a.free)

-- Past the guards, a reservation is its row and one debit of the amount and the whole fee reserve.
reserve_chain :
    (req : SpendReservation) (at : Time) (db : Db)
    → Acceptable req at db
    → reserve_body req at db
      ≡ (append_balance_entry
              (next_txn_id db.txns)
              (neg_ℤ (req.amount_msat +ℤ req.max_fee_msat))
              reserve
              at
            >> pure (next_txn_id db.txns))
          (record db { txns = reserved_txn req at db ∷ db.txns })
unfolding reserve_body
reserve_chain req at db a =
    let sum = sum-add64 req.amount_msat req.max_fee_msat (omega int_laws) (omega int_laws) in
    >>=-of_ok (in_range req.amount_msat) _ db db tt
      (in_range_passes req.amount_msat db (omega int_laws))
    ∙ >>=-of_ok (in_range req.max_fee_msat) _ db db tt
        (in_range_passes req.max_fee_msat db (omega int_laws))
    ∙ rw sum (
        >>=-of_ok (in_range (req.amount_msat +ℤ req.max_fee_msat)) _ db db tt
          (in_range_passes (req.amount_msat +ℤ req.max_fee_msat) db (omega int_laws))
        ∙ rw (neg-neg64 (req.amount_msat +ℤ req.max_fee_msat) (omega int_laws)) (
            >>=-of_ok (insert_reservation req at) _ db _ (next_txn_id db.txns)
              (insert_reservation_accepts req at db a)))

-- In a ledger that keeps its invariant, an acceptable reservation that the balance covers is made:
-- the balance falls by the amount and the whole fee reserve, and the payment is recorded as
-- pending.
pub reserve_spend_covered :
    (req : SpendReservation) (at : Time) (db : Db)
    → Inv db
    → Acceptable req at db
    → req.amount_msat +ℤ req.max_fee_msat ≤ℤ total db.entries
    → (db' : Db) × (reserve_spend req at db ≡ (ok (next_txn_id db.txns), db'))
      × (total db'.entries ≡ total db.entries -ℤ (req.amount_msat +ℤ req.max_fee_msat))
      × (find_first (is_out_with_id (next_txn_id db.txns)) db'.txns ≡ some (reserved_txn req at db))
unfolding reserve_spend push_entry new_txn
reserve_spend_covered req at db inv a covered =
    let base = total-bounds db.entries inv.bounded in
    let i = next_txn_id db.txns in
    let debit = neg_ℤ (req.amount_msat +ℤ req.max_fee_msat) in
    let db₁ : Db = record db { txns = reserved_txn req at db ∷ db.txns } in
    (
      push_entry i debit reserve at db₁,
      in_tx-ok (reserve_body req at) db (push_entry i debit reserve at db₁) i (
          reserve_chain req at db a
          ∙ >>=-of_ok (append_balance_entry i debit reserve at) (λ _. pure i) db₁
              (push_entry i debit reserve at db₁) tt
              (append_within i debit reserve at db₁ inv.bounded (omega int_laws) (omega int_laws)
                (omega int_laws))),
      total-push i debit reserve at db₁
          ∙ less (total db.entries) (req.amount_msat +ℤ req.max_fee_msat),
      find_own i (reserved_txn req at db) db.txns refl refl,
    )

-- In a ledger that keeps its invariant, an acceptable reservation that the balance does not cover
-- is refused, and nothing is recorded.
pub reserve_spend_short :
    (req : SpendReservation) (at : Time) (db : Db)
    → Inv db
    → Acceptable req at db
    → total db.entries <ℤ req.amount_msat +ℤ req.max_fee_msat
    → reserve_spend req at db ≡ (err insufficient_balance, db)
unfolding reserve_spend
reserve_spend_short req at db inv a short =
    let base = total-bounds db.entries inv.bounded in
    let i = next_txn_id db.txns in
    let debit = neg_ℤ (req.amount_msat +ℤ req.max_fee_msat) in
    let db₁ : Db = record db { txns = reserved_txn req at db ∷ db.txns } in
    in_tx-err (reserve_body req at) db insufficient_balance (
      reserve_chain req at db a
      ∙ >>=-of_err (append_balance_entry i debit reserve at) (λ _. pure i) db₁ insufficient_balance
          (append_short i debit reserve at db₁ inv.bounded (omega int_laws) (omega int_laws)))

in_range_refuses :
    {B : Type 0} (a : ℤ) (k : Tx B) (db : Db)
    → pos max_msat <ℤ a
    → (in_range a >> k) db ≡ err amount_out_of_range
unfolding in_range
in_range_refuses a k db h = ground arith

-- An amount past the supply is refused before any sum is formed, so no debit can wrap around and
-- become a credit.
pub reserve_spend_oversized :
    (req : SpendReservation) (at : Time) (db : Db)
    → pos max_msat <ℤ req.amount_msat
    → reserve_spend req at db ≡ (err amount_out_of_range, db)
unfolding reserve_spend reserve_body
reserve_spend_oversized req at db h =
    in_tx-err (reserve_body req at) db amount_out_of_range (in_range_refuses req.amount_msat _ db h)

insert_reservation_clash :
    (req : SpendReservation) (at : Time) (db : Db)
    → refers (connection_ref req.nwc_connection_id) db.connections ≡ true
    → any (clashes (reserved_txn req at db)) db.txns ≡ true
    → insert_reservation req at db ≡ err payment_in_flight
unfolding insert_reservation insert_txn
insert_reservation_clash req at db c h =
    ground (arith, insert_row_clash (reserved_txn req at db) db c h)

-- While a row stands that clashes with its own, a payment of the same hash that is pending, a
-- reservation of a positive amount and a fee reserve that is not negative, within the supply
-- together and for a known connection, is refused as in flight, and nothing changes.
pub reserve_spend_in_flight :
    (req : SpendReservation) (at : Time) (db : Db)
    → pos 1 ≤ℤ req.amount_msat
    → pos 0 ≤ℤ req.max_fee_msat
    → req.amount_msat +ℤ req.max_fee_msat ≤ℤ pos max_msat
    → refers (connection_ref req.nwc_connection_id) db.connections ≡ true
    → any (clashes (reserved_txn req at db)) db.txns ≡ true
    → reserve_spend req at db ≡ (err payment_in_flight, db)
unfolding reserve_spend reserve_body
reserve_spend_in_flight req at db lo fee hi c clash =
    let sum = sum-add64 req.amount_msat req.max_fee_msat (omega int_laws) (omega int_laws) in
    in_tx-err (reserve_body req at) db payment_in_flight (
      >>=-of_ok (in_range req.amount_msat) _ db db tt
        (in_range_passes req.amount_msat db (omega int_laws))
      ∙ >>=-of_ok (in_range req.max_fee_msat) _ db db tt
          (in_range_passes req.max_fee_msat db (omega int_laws))
      ∙ rw sum (
          >>=-of_ok (in_range (req.amount_msat +ℤ req.max_fee_msat)) _ db db tt
            (in_range_passes (req.amount_msat +ℤ req.max_fee_msat) db (omega int_laws))
          ∙ >>=-of_err (insert_reservation req at) _ db payment_in_flight
              (insert_reservation_clash req at db c clash)))
