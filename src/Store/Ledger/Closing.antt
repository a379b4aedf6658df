-- ===== src/Store/Ledger/Closing.antt =====
-- Closing a reservation, by settling, reversing or the operator's word, keeps the invariant.
use brollyzapper.Store.Ledger.Updates.{update-Inv, update_entry-Inv}
use brollyzapper.Base.{
  ℕ, ◌≡◌, refl, sym, ap, subst, ◌∙◌, inl, inr, Bool, true, false, some, String, arith, find_first,
  update_where, Option-cases, find_first-passes, All-find_first,
}
use brollyzapper.Base.Int.{ℤ, pos, ◌+ℤ◌, neg_ℤ, ◌≤ℤ◌, int_laws}
use brollyzapper.Base.Int64.{add64, add64_of_Fits}
use brollyzapper.Store.Rows.{
  Time, payment_out, pending, settled, failed, reverse, TxnState, has_id, Txn, Db,
}
use brollyzapper.Store.Tx.{ok, Tx, >>=-eq-ok, in_tx_keeps}
use brollyzapper.Store.Ledger.Close.{
  Reservation, is_out_with_id, update_txn, read_reservation, close_reservation, mark_failed,
  mark_settled, fail_row, reverse_spend, require_named, assert_row, assert_payment_outcome,
}
use brollyzapper.Store.Ledger.Sums.{net}
use brollyzapper.Store.Ledger.Invariant.{Books, HasBooks, Inv}
use brollyzapper.Store.Ledger.Safety.{append-ok}

abbrev pub reservation_of : Txn → Reservation
reservation_of t = record { amount_msat = t.amount_msat; reserved_fee_msat = t.fee_reserved_msat }

-- A reservation that was read stands on a pending payment_out row.
read_reservation-ok :
    (i : ℕ) (db db' : Db) {r : Reservation}
    → read_reservation i db ≡ ok (r, db')
    → (t : Txn) × (find_first (is_out_with_id i) db.txns ≡ some t)
      × (t.kind ≡ payment_out)
      × (t.state ≡ pending)
      × (r ≡ reservation_of t)
      × (db' ≡ db)
unfolding read_reservation
read_reservation-ok i db db' h = elim (Option-cases (find_first (is_out_with_id i) db.txns)) [
  | inl missing ↦ absurd (cc (rw (missing, read_reservation) at h))
  | inr (t, found) ↦
      let test = find_first-passes (is_out_with_id i) db.txns t found in
      (t, found, ground arith, ground arith, ground arith, ground arith)
]

-- The row of a pending payment, and its reservation.
pub record Pending (i : ℕ) (db : Db) (t : Txn) : Type 0 where
  pub found : find_first (is_out_with_id i) db.txns ≡ some t
  pub is_out : t.kind ≡ payment_out
  pub is_waiting : t.state ≡ pending

pub close_reservation-ok :
    {A : Type 0} (i : ℕ) (close : Reservation → Tx A) (db : Db) {r : A × Db}
    → close_reservation i close db ≡ ok r
    → (t : Txn) × Pending i db t × (close (reservation_of t) db ≡ ok r)
unfolding close_reservation
close_reservation-ok {A} i close db {r} h = go (>>=-eq-ok (read_reservation i) close db h)
  where
    go :
        (q : Reservation) × (db₁ : Db) × (read_reservation i db ≡ ok (q, db₁))
          × (close q db₁ ≡ ok r)
        → (t : Txn) × Pending i db t × (close (reservation_of t) db ≡ ok r)
    go (q, db₁, e, k) =
        let (t, found, is_out, is_waiting, same, still) = read_reservation-ok i db db₁ e in
        (
          t,
          record { found = found; is_out = is_out; is_waiting = is_waiting },
          subst (λ (d : Db). close (reservation_of t) d ≡ ok r) still
              (subst (λ (v : Reservation). close v db₁ ≡ ok r) same k),
        )

-- What a pending payment's entries come to.
pub pending-Books :
    (i : ℕ) (db : Db) (t : Txn) (n : ℤ)
    → Pending i db t
    → HasBooks t n
    → Books payment_out pending t.amount_msat t.fee_msat t.fee_reserved_msat n
pending-Books i db t n p h =
    subst (λ s. Books payment_out s t.amount_msat t.fee_msat t.fee_reserved_msat n) p.is_waiting
      (subst (λ k. Books k t.state t.amount_msat t.fee_msat t.fee_reserved_msat n) p.is_out h)

-- A closed payment's books.
pub closed-Books :
    (i : ℕ) (db : Db) (t : Txn) (s : TxnState) (fee n : ℤ)
    → Pending i db t
    → Books payment_out s t.amount_msat fee t.fee_reserved_msat n
    → Books t.kind s t.amount_msat fee t.fee_reserved_msat n
closed-Books i db t s fee n p h =
    subst (λ k. Books k s t.amount_msat fee t.fee_reserved_msat n) (sym p.is_out) h

reversal_net : (a r n : ℤ) → n ≡ neg_ℤ (a +ℤ r) → n +ℤ (a +ℤ r) ≡ pos 0
reversal_net a r n h = rw h (omega int_laws)

reversed_books :
    (i : ℕ) (db : Db) (t : Txn) (n : ℤ)
    → Pending i db t
    → HasBooks t n
    → HasBooks (mark_failed t) (n +ℤ add64 t.amount_msat t.fee_reserved_msat)
reversed_books i db t n p h =
    let b = pending-Books i db t n p h in
    closed-Books i db t failed t.fee_msat _ p (
      rw (add64_of_Fits t.amount_msat t.fee_reserved_msat (omega int_laws))
        (reversal_net t.amount_msat t.fee_reserved_msat n b.0))

fail_row-Inv :
    (i : ℕ) (at : Time) (t : Txn) (db db' : Db) {u : Unit {0}}
    → Pending i db t
    → Inv db
    → fail_row i at (reservation_of t) db ≡ ok (u, db')
    → Inv db'
unfolding fail_row update_txn
fail_row-Inv i at t db db' p inv h =
    let r = append-ok i (add64 t.amount_msat t.fee_reserved_msat) reverse at _ db' inv.bounded h in
    subst Inv (sym r.0) (
      update_entry-Inv i mark_failed t (add64 t.amount_msat t.fee_reserved_msat) reverse at db
        (λ v. refl) p.found (λ h. reversed_books i db t (net i db.entries) p h) r.1 inv)

-- Reversing a payment keeps the invariant.
pub reverse_spend-Inv : (i : ℕ) (at : Time) (db : Db) → Inv db → Inv (reverse_spend i at db).1
unfolding reverse_spend
reverse_spend-Inv i at db inv =
    in_tx_keeps Inv (close_reservation i (fail_row i at)) db inv λ u db' e.
      let (t, p, k) = close_reservation-ok i (fail_row i at) db e in
      fail_row-Inv i at t db db' p inv k

abbrev pub with_settled : ℕ → ℤ → String → Time → Db → Db
with_settled i fee preimage at db = record db {
  txns = update_where (has_id i) (mark_settled fee at preimage) db.txns;
}

-- The books of the row that a lookup found.
pub found_books :
    (i : ℕ) (db : Db) (t : Txn) → Pending i db t → Inv db → HasBooks t (net t.id db.entries)
found_books i db t p inv =
    All-find_first (is_out_with_id i) (λ (v : Txn). HasBooks v (net v.id db.entries)) db.txns t
      p.found inv.books

pub reserve_nonneg :
    (i : ℕ) (db : Db) (t : Txn) → Pending i db t → Inv db → pos 0 ≤ℤ t.fee_reserved_msat
reserve_nonneg i db t p inv = (pending-Books i db t _ p (found_books i db t p inv)).2

require_named-ok :
    (i : ℕ) (db db' : Db) {u : Unit {0}} → require_named i db ≡ ok (u, db') → db' ≡ db
unfolding require_named
require_named-ok i db db' h = ground arith

update_txn-ok :
    (i : ℕ) (f : Txn → Txn) (db db' : Db) {u : Unit {0}}
    → update_txn i f db ≡ ok (u, db')
    → record db { txns = update_where (has_id i) f db.txns } ≡ db'
unfolding update_txn
update_txn-ok i f db db' h = ground arith

assert_row-Inv :
    (i : ℕ) (went_through : Bool) (at : Time) (t : Txn) (db db' : Db) {u : Unit {0}}
    → Pending i db t
    → Inv db
    → assert_row i went_through at (reservation_of t) db ≡ ok (u, db')
    → Inv db'
unfolding assert_row update_txn
assert_row-Inv i true at t db db' {u} p inv h =
    let (v, db₁, named, k) = >>=-eq-ok (require_named i) _ db h in
    subst Inv
      (ap (with_settled i t.fee_reserved_msat "" at) (sym (require_named-ok i db db₁ named))
        ∙ update_txn-ok i (mark_settled t.fee_reserved_msat at "") db₁ db' k)
      (update-Inv i (mark_settled t.fee_reserved_msat at "") t db (λ v. refl) p.found
        (λ own.
          let b = pending-Books i db t (net i db.entries) p own in
          closed-Books i db t settled t.fee_reserved_msat (net i db.entries) p
            (b.0, b.2, omega arith))
        inv)
assert_row-Inv i false at t db db' {u} p inv h =
    let (v, db₁, named, k) = >>=-eq-ok (require_named i) _ db h in
    fail_row-Inv i at t db db' p inv (
      subst (λ (d : Db). fail_row i at (reservation_of t) d ≡ ok (u, db'))
        (require_named-ok i db db₁ named) k)

-- The operator's word about a named payment keeps the invariant.
pub assert_payment_outcome-Inv :
    (i : ℕ) (went_through : Bool) (at : Time) (db : Db)
    → Inv db
    → Inv (assert_payment_outcome i went_through at db).1
unfolding assert_payment_outcome
assert_payment_outcome-Inv i went_through at db inv =
    in_tx_keeps Inv (close_reservation i (assert_row i went_through at)) db inv λ u db' e.
      let (t, p, k) = close_reservation-ok i (assert_row i went_through at) db e in
      assert_row-Inv i went_through at t db db' p inv k
