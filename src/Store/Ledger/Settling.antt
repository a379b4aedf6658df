-- ===== src/Store/Ledger/Settling.antt =====
-- `SettleSpend` keeps the invariant, at a fee within the reserve or above it.
use brollyzapper.Store.Ledger.Updates.{update-Inv, update_entry-Inv}
use brollyzapper.Store.Ledger.ByHand.{insert_append-Inv}
use brollyzapper.Base.{
  ℕ, ◌≡◌, refl, sym, subst, ◌⊎◌, inl, inr, String, arith, if◌then◌else◌, Bool-cases,
}
use brollyzapper.Base.Int.{ℤ, pos, ◌+ℤ◌, ◌-ℤ◌, neg_ℤ, ◌≤ℤ◌, ltb_ℤ, eqb_ℤ, int_laws}
use brollyzapper.Base.Int64.{Fits, sub64, neg64, sub64_of_Fits, neg64_of_Fits}
use brollyzapper.Store.Rows.{Time, adjustment, settled, refund_reserve, adjust, Txn, Db}
use brollyzapper.Store.Tx.{ok, pure, >>=-eq-ok, in_tx_keeps}
use brollyzapper.Store.Ledger.Append.{append_balance_entry, adjustment_row}
use brollyzapper.Store.Ledger.Close.{
  update_txn, close_reservation, mark_settled, booked_fee, fee_excess, refund_unused, adjust_excess,
  settle_row, settle_spend,
}
use brollyzapper.Store.Ledger.Sums.{net}
use brollyzapper.Store.Ledger.Invariant.{Books, HasBooks, Inv}
use brollyzapper.Store.Ledger.Safety.{append-ok}
use brollyzapper.Store.Ledger.Closing.{
  reservation_of, Pending, pending-Books, closed-Books, close_reservation-ok, with_settled,
  reserve_nonneg,
}

refund_net : (a r f x n : ℤ) → n ≡ neg_ℤ (a +ℤ r) → x ≡ r -ℤ f → n +ℤ x ≡ neg_ℤ (a +ℤ f)
refund_net a r f x n h k = rw (h, k) (omega int_laws)

settled-Books :
    (i : ℕ) (db : Db) (t : Txn) (fee a n : ℤ)
    → Pending i db t
    → pos 0 ≤ℤ fee
    → fee ≤ℤ t.fee_reserved_msat
    → a ≡ t.fee_reserved_msat -ℤ fee
    → HasBooks t n
    → Books t.kind settled t.amount_msat fee t.fee_reserved_msat (n +ℤ a)
settled-Books i db t fee a n p lo hi e h =
    let b = pending-Books i db t n p h in
    closed-Books i db t settled fee _ p
      (refund_net t.amount_msat t.fee_reserved_msat fee a n b.0 e, lo, hi)

refund_unused-ok :
    (i : ℕ) (a : ℤ) (at : Time) (db db' : Db) {u : Unit {0}}
    → refund_unused i a at db ≡ ok (u, db')
    → ((a ≡ pos 0) × (db' ≡ db)) ⊎ (append_balance_entry i a refund_reserve at db ≡ ok (u, db'))
unfolding refund_unused
refund_unused-ok i a at db db' h = ground arith

refund-sub64 :
    (i : ℕ) (db : Db) (t : Txn) (fee n : ℤ)
    → Pending i db t
    → HasBooks t n
    → pos 0 ≤ℤ fee
    → fee ≤ℤ t.fee_reserved_msat
    → sub64 t.fee_reserved_msat fee ≡ t.fee_reserved_msat -ℤ fee
refund-sub64 i db t fee n p h lo hi =
    let b = pending-Books i db t n p h in sub64_of_Fits t.fee_reserved_msat fee (omega int_laws)

+ℤ_of_zero : (a x : ℤ) → x ≡ pos 0 → a +ℤ x ≡ a
+ℤ_of_zero a x e = rw e (omega int_laws)

-- The update of a settled row and the refund of what the fee left over.
settle_refund-Inv :
    (i : ℕ) (fee : ℤ) (preimage : String) (at : Time) (t : Txn) (db db' : Db) {u : Unit {0}}
    → Pending i db t
    → Inv db
    → pos 0 ≤ℤ fee
    → fee ≤ℤ t.fee_reserved_msat
    → refund_unused i (sub64 t.fee_reserved_msat fee) at (with_settled i fee preimage at db)
      ≡ ok (u, db')
    → Inv db'
settle_refund-Inv i fee preimage at t db db' p inv lo hi h =
    let books = λ (n : ℤ) (own : HasBooks t n).
      settled-Books i db t fee (sub64 t.fee_reserved_msat fee) n p lo hi
        (refund-sub64 i db t fee n p own lo hi) own in
    elim (refund_unused-ok i (sub64 t.fee_reserved_msat fee) at (with_settled i fee preimage at db)
      db' h) [
        | inl (zero, still) ↦ subst Inv (sym still) (
            update-Inv i (mark_settled fee at preimage) t db (λ v. refl) p.found
              (λ own.
                subst (Books t.kind settled t.amount_msat fee t.fee_reserved_msat)
                  (+ℤ_of_zero (net i db.entries) (sub64 t.fee_reserved_msat fee) zero)
                  (books (net i db.entries) own))
              inv)
        | inr appended ↦
            let r =
              append-ok i (sub64 t.fee_reserved_msat fee) refund_reserve at
                (with_settled i fee preimage at db) db' inv.bounded appended in
            subst Inv (sym r.0) (
              update_entry-Inv i (mark_settled fee at preimage) t (sub64 t.fee_reserved_msat fee)
                refund_reserve at db (λ v. refl) p.found (books (net i db.entries)) r.1 inv)
      ]

-- An excess that the route cost becomes an adjustment of its own.
adjust_excess-Inv :
    (excess : ℤ) (note : String) (at : Time) (db db' : Db) {u : Unit {0}}
    → pos 0 ≤ℤ excess
    → Fits excess
    → Inv db
    → adjust_excess excess note at db ≡ ok (u, db')
    → Inv db'
unfolding adjust_excess
adjust_excess-Inv excess note at db db' lo fits inv h = elim (Bool-cases (eqb_ℤ excess (pos 0))) [
  | inl nothing ↦ subst Inv (ground arith) inv
  | inr something ↦
      insert_append-Inv (adjustment_row adjustment excess note at) (neg64 excess) adjust at db db'
        (inr (neg64_of_Fits excess (omega int_laws))) inv (rw (something) at h)
]

booked_fee-le : (actual reserved : ℤ) → booked_fee actual reserved ≤ℤ reserved
unfolding booked_fee
booked_fee-le actual reserved = ground arith

booked_fee_nonneg :
    (actual reserved : ℤ)
    → pos 0 ≤ℤ actual
    → pos 0 ≤ℤ reserved
    → pos 0 ≤ℤ booked_fee actual reserved
unfolding booked_fee
booked_fee_nonneg actual reserved h k = ground arith

fee_excess-eq :
    (actual reserved : ℤ)
    → Fits actual
    → pos 0 ≤ℤ reserved
    → fee_excess actual reserved ≡ (if ltb_ℤ reserved actual then actual -ℤ reserved else pos 0)
unfolding fee_excess
fee_excess-eq actual reserved h k = elim (Bool-cases (ltb_ℤ reserved actual)) [
  | inl over ↦ rw over (sub64_of_Fits actual reserved (grind int_laws))
  | inr within ↦ rw within refl
]

fee_excess-Fits :
    (actual reserved : ℤ)
    → Fits actual
    → pos 0 ≤ℤ reserved
    → (pos 0 ≤ℤ fee_excess actual reserved) × Fits (fee_excess actual reserved)
fee_excess-Fits actual reserved h k =
    rw (fee_excess-eq actual reserved h k) (elim (Bool-cases (ltb_ℤ reserved actual)) [
      | inl over ↦ rw over (grind int_laws)
      | inr within ↦ rw within (omega arith)
    ])

pure-ok : {A : Type 0} (a x : A) (db db' : Db) → pure a db ≡ ok (x, db') → db ≡ db'
pure-ok a x db db' h = ground arith

settle_row-Inv :
    (i : ℕ) (actual : ℤ) (preimage note : String) (at : Time) (t : Txn) (db db' : Db) (x : ℤ)
    → Pending i db t
    → pos 0 ≤ℤ actual
    → Fits actual
    → pos 0 ≤ℤ t.fee_reserved_msat
    → Inv db
    → settle_row i actual preimage note at (reservation_of t) db ≡ ok (x, db')
    → Inv db'
unfolding settle_row update_txn
settle_row-Inv i actual preimage note at t db db' x p lo fits reserve inv h =
    let fee = booked_fee actual t.fee_reserved_msat in
    let excess = fee_excess actual t.fee_reserved_msat in
    let (u₁, db₁, refunded, k₁) =
      >>=-eq-ok (refund_unused i (sub64 t.fee_reserved_msat fee) at) _
        (with_settled i fee preimage at db) h in
    let (u₂, db₂, adjusted, k₂) = >>=-eq-ok (adjust_excess excess note at) _ db₁ k₁ in
    let inv₁ =
      settle_refund-Inv i fee preimage at t db db₁ p inv
        (booked_fee_nonneg actual t.fee_reserved_msat lo reserve)
        (booked_fee-le actual t.fee_reserved_msat) refunded in
    let e = fee_excess-Fits actual t.fee_reserved_msat fits reserve in
    let inv₂ = adjust_excess-Inv excess note at db₁ db₂ e.0 e.1 inv₁ adjusted in
    subst Inv (pure-ok excess x db₂ db' k₂) inv₂

-- Settling a payment at a fee that is not negative keeps the invariant, an overspent fee included.
pub settle_spend-Inv :
    (i : ℕ) (actual : ℤ) (preimage note : String) (at : Time) (db : Db)
    → pos 0 ≤ℤ actual
    → Fits actual
    → Inv db
    → Inv (settle_spend i actual preimage note at db).1
unfolding settle_spend
settle_spend-Inv i actual preimage note at db lo fits inv =
    in_tx_keeps Inv (close_reservation i (settle_row i actual preimage note at)) db inv λ x db' e.
      let (t, p, k) = close_reservation-ok i (settle_row i actual preimage note at) db e in
      settle_row-Inv i actual preimage note at t db db' x p lo fits (reserve_nonneg i db t p inv)
        inv k
