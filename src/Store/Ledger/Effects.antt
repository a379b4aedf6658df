-- ===== src/Store/Ledger/Effects.antt =====
-- What the operations on a reservation do to the balance, to the msat.
use brollyzapper.Base.{
  ℕ, ◌≡◌, refl, ap, ◌∙◌, false, none, some, List, [], ◌∷◌, arith, any, find_first, update_where,
}
use brollyzapper.Base.Int.{ℤ, pos, ◌+ℤ◌, ◌≤ℤ◌, ◌<ℤ◌, int_laws}
use brollyzapper.Base.Int64.{add64_of_Fits}
use brollyzapper.Store.Rows.{Time, Reason, reverse, is_pending, has_id, Txn, Db}
use brollyzapper.Store.Tx.{
  ok, err, Tx, in_tx, in_tx-ok, insufficient_balance, reservation_not_pending,
}
use brollyzapper.Store.Ledger.Append.{
  max_msat, push_entry, append_balance_entry, insert_row, clashes,
}
use brollyzapper.Store.Ledger.Close.{
  Reservation, is_out_with_id, mark_failed, read_reservation, close_reservation, fail_row,
  reverse_spend, update_txn,
}
use brollyzapper.Store.Ledger.Sums.{
  total, InRange, IsBounded, total-bounds, append_balance_entry_lem,
}
use brollyzapper.Store.Ledger.Invariant.{Inv}
use brollyzapper.Store.Ledger.Closing.{Pending, reservation_of, pending-Books, found_books}

read_reservation_of :
    (i : ℕ) (db : Db) (t : Txn) → Pending i db t → read_reservation i db ≡ ok (reservation_of t, db)
unfolding read_reservation
read_reservation_of i db t p = ground (arith, p.found, p.is_waiting)

pub append_within :
    (i : ℕ) (a : ℤ) (reason : Reason) (at : Time) (db : Db)
    → IsBounded db.entries
    → InRange a
    → pos 0 ≤ℤ total db.entries +ℤ a
    → total db.entries +ℤ a ≤ℤ pos max_msat
    → append_balance_entry i a reason at db ≡ ok (tt, push_entry i a reason at db)
append_within i a reason at db b r lo hi =
    rw (append_balance_entry_lem i a reason at db b) (ground arith)

pub total-push :
    (i : ℕ) (a : ℤ) (reason : Reason) (at : Time) (db : Db)
    → total (push_entry i a reason at db).entries ≡ total db.entries +ℤ a
unfolding push_entry
total-push i a reason at db = refl

pub find-update :
    (i : ℕ) (f : Txn → Txn) (ts : List Txn) (t : Txn)
    → ((u : Txn) → (f u).id ≡ u.id)
    → ((u : Txn) → (f u).kind ≡ u.kind)
    → find_first (is_out_with_id i) ts ≡ some t
    → find_first (is_out_with_id i) (update_where (has_id i) f ts) ≡ some (f t)
find-update i f [] t ids kinds h = absurd (cc)
find-update i f (u ∷ ts) t ids kinds h =
    ground (arith, ids u, kinds u, find-update i f ts t ids kinds)

pub close_reservation_of :
    {A : Type 0} (i : ℕ) (close : Reservation → Tx A) (db : Db) (t : Txn)
    → Pending i db t
    → close_reservation i close db ≡ close (reservation_of t) db
unfolding close_reservation
close_reservation_of i close db t p = ground (arith, read_reservation_of i db t p)

-- In a ledger that keeps its invariant, a pending payment can be reversed whenever the ceiling has
-- room for what comes back: the whole reservation returns to the balance, and the payment is then
-- failed.
pub reverse_spend_refunds :
    (i : ℕ) (at : Time) (db : Db) (t : Txn)
    → Inv db
    → Pending i db t
    → total db.entries +ℤ (t.amount_msat +ℤ t.fee_reserved_msat) ≤ℤ pos max_msat
    → (db' : Db) × (reverse_spend i at db ≡ (ok tt, db'))
      × (total db'.entries ≡ total db.entries +ℤ (t.amount_msat +ℤ t.fee_reserved_msat))
      × (find_first (is_out_with_id i) db'.txns ≡ some (mark_failed t))
unfolding reverse_spend fail_row update_txn push_entry
reverse_spend_refunds i at db t inv p room =
    let b = pending-Books i db t _ p (found_books i db t p inv) in
    let lo = total-bounds db.entries inv.bounded in
    let closed : Db = record db { txns = update_where (has_id i) mark_failed db.txns } in
    let back = t.amount_msat +ℤ t.fee_reserved_msat in
    let db' = push_entry i back reverse at closed in
    (
      db',
      in_tx-ok (close_reservation i (fail_row i at)) db db' tt (
          close_reservation_of i (fail_row i at) db t p
          ∙ ap (λ a. append_balance_entry i a reverse at closed)
              (add64_of_Fits t.amount_msat t.fee_reserved_msat (omega int_laws))
          ∙ append_within i back reverse at closed inv.bounded (omega int_laws) (omega int_laws)
              room),
      refl,
      find-update i mark_failed db.txns t (λ u. refl) (λ u. refl) p.found,
    )

-- A row that is no longer pending is not closed again, by any of the three ways: nothing changes.
pub close_reservation_once :
    {A : Type 0} (i : ℕ) (close : Reservation → Tx A) (db : Db) (t : Txn)
    → find_first (is_out_with_id i) db.txns ≡ some t
    → is_pending t.state ≡ false
    → in_tx (close_reservation i close) db ≡ (err reservation_not_pending, db)
unfolding close_reservation read_reservation
close_reservation_once i close db t found closed = ground arith

no_hash_no_clash : (t : Txn) (ts : List Txn) → t.payment_hash ≡ none → any (clashes t) ts ≡ false
no_hash_no_clash t [] h = refl
no_hash_no_clash t (u ∷ ts) h = ground (arith, no_hash_no_clash t ts h)

pub insert_row_free :
    (t : Txn) (db : Db)
    → t.nwc_connection_id ≡ none
    → t.payment_hash ≡ none
    → insert_row t db ≡ ok (t.id, record db { txns = t ∷ db.txns })
unfolding insert_row
insert_row_free t db c h = ground (arith, no_hash_no_clash t db.txns h)

pub append_short :
    (i : ℕ) (a : ℤ) (reason : Reason) (at : Time) (db : Db)
    → IsBounded db.entries
    → InRange a
    → total db.entries +ℤ a <ℤ pos 0
    → append_balance_entry i a reason at db ≡ err insufficient_balance
append_short i a reason at db b r lo =
    rw (append_balance_entry_lem i a reason at db b) (ground arith)
