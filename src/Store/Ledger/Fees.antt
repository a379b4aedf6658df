-- ===== src/Store/Ledger/Fees.antt =====
-- What `SettleSpend` does to the balance, by how the fee compares with its reserve.
use brollyzapper.Base.{
  ℕ, ◌≡◌, refl, ◌∙◌, true, false, some, List, ◌∷◌, String, arith, find_first, Bool-cases, inl, inr,
}
use brollyzapper.Base.Int.{ℤ, pos, ◌+ℤ◌, ◌-ℤ◌, neg_ℤ, ◌≤ℤ◌, ◌<ℤ◌, eqb_ℤ, int_laws}
use brollyzapper.Base.Int64.{sub64, sub64_of_Fits, neg64_of_Fits}
use brollyzapper.Store.Rows.{Time, refund_reserve, adjust, adjustment, is_payment_out, Txn, Db}
use brollyzapper.Store.Tx.{ok, err, >>=-of_ok, in_tx-ok, in_tx-err, insufficient_balance}
use brollyzapper.Store.Ledger.Append.{
  max_msat, push_entry, append_balance_entry, next_txn_id, new_txn, insert_txn, adjustment_row,
}
use brollyzapper.Store.Ledger.Close.{
  is_out_with_id, mark_settled, close_reservation, settle_row, settle_spend, booked_fee, fee_excess,
  refund_unused, adjust_excess, update_txn,
}
use brollyzapper.Store.Ledger.Sums.{total, InRange, IsBounded, total-bounds}
use brollyzapper.Store.Ledger.Invariant.{Inv}
use brollyzapper.Store.Ledger.Closing.{Pending, with_settled, pending-Books, found_books}
use brollyzapper.Store.Ledger.Effects.{
  append_within, append_short, total-push, find-update, close_reservation_of, insert_row_free,
}

within_fee :
    (actual reserved : ℤ)
    → actual ≤ℤ reserved
    → (booked_fee actual reserved ≡ actual) × (fee_excess actual reserved ≡ pos 0)
unfolding booked_fee fee_excess
within_fee actual reserved h = ground arith

over_fee :
    (actual reserved : ℤ)
    → reserved <ℤ actual
    → (booked_fee actual reserved ≡ reserved) × (fee_excess actual reserved ≡ sub64 actual reserved)
unfolding booked_fee fee_excess
over_fee actual reserved h = ground arith

eqb_zero : (a : ℤ) → eqb_ℤ a (pos 0) ≡ true → a ≡ pos 0
eqb_zero a h = ground arith

eqb_pos : (a : ℤ) → pos 1 ≤ℤ a → eqb_ℤ a (pos 0) ≡ false
eqb_pos a h = ground arith

nothing_over :
    (note : String) (at : Time) (db : Db) → adjust_excess (pos 0) note at db ≡ ok (tt, db)
unfolding adjust_excess
nothing_over note at db = refl

sub_self : (a : ℤ) → a -ℤ a ≡ pos 0
sub_self a = omega int_laws

refund_within :
    (i : ℕ) (a : ℤ) (at : Time) (db : Db)
    → IsBounded db.entries
    → InRange a
    → pos 0 ≤ℤ total db.entries +ℤ a
    → total db.entries +ℤ a ≤ℤ pos max_msat
    → (db' : Db) × (refund_unused i a at db ≡ ok (tt, db'))
      × (total db'.entries ≡ total db.entries +ℤ a)
      × (db'.txns ≡ db.txns)
unfolding refund_unused
refund_within i a at db b r lo hi = elim (Bool-cases (eqb_ℤ a (pos 0))) [
  | inl nothing ↦
      let zero = eqb_zero a nothing in (db, ground arith, rw zero (omega int_laws), refl)
  | inr something ↦ (
    push_entry i a refund_reserve at db,
    ground (arith, append_within i a refund_reserve at db b r lo hi),
    refl,
    refl,
  )
]

no_refund :
    (i : ℕ) (reserved : ℤ) (at : Time) (db : Db)
    → pos 0 ≤ℤ reserved
    → reserved ≤ℤ pos max_msat
    → refund_unused i (sub64 reserved reserved) at db ≡ ok (tt, db)
unfolding refund_unused
no_refund i reserved at db lo hi =
    rw (sub64_of_Fits reserved reserved (omega int_laws)) (rw (sub_self reserved) refl)

settle_chain :
    (i : ℕ) (actual fee excess : ℤ) (preimage note : String) (at : Time) (t : Txn) (db db₁ db₂ : Db)
    → Pending i db t
    → booked_fee actual t.fee_reserved_msat ≡ fee
    → fee_excess actual t.fee_reserved_msat ≡ excess
    → refund_unused i (sub64 t.fee_reserved_msat fee) at (with_settled i fee preimage at db)
      ≡ ok (tt, db₁)
    → adjust_excess excess note at db₁ ≡ ok (tt, db₂)
    → settle_spend i actual preimage note at db ≡ (ok excess, db₂)
unfolding settle_spend settle_row update_txn
settle_chain i actual fee excess preimage note at t db db₁ db₂ p ef ee er ea =
    in_tx-ok (close_reservation i (settle_row i actual preimage note at)) db db₂ excess (
      close_reservation_of i (settle_row i actual preimage note at) db t p
      ∙ rw (ef, ee) (ground (arith, er, ea)))

-- In a ledger that keeps its invariant, a pending payment whose route cost from 0 to its reserve,
-- with room under the ceiling for the rest, is settled at what it cost: the rest of the fee reserve
-- returns to the balance, and nothing is adjusted.
pub settle_spend_within :
    (i : ℕ) (actual : ℤ) (preimage note : String) (at : Time) (db : Db) (t : Txn)
    → Inv db
    → Pending i db t
    → pos 0 ≤ℤ actual
    → actual ≤ℤ t.fee_reserved_msat
    → total db.entries +ℤ (t.fee_reserved_msat -ℤ actual) ≤ℤ pos max_msat
    → (db' : Db) × (settle_spend i actual preimage note at db ≡ (ok (pos 0), db'))
      × (total db'.entries ≡ total db.entries +ℤ (t.fee_reserved_msat -ℤ actual))
      × (find_first (is_out_with_id i) db'.txns ≡ some (mark_settled actual at preimage t))
settle_spend_within i actual preimage note at db t inv p lo hi room =
    let b = pending-Books i db t _ p (found_books i db t p inv) in
    let base = total-bounds db.entries inv.bounded in
    let refund = t.fee_reserved_msat -ℤ actual in
    let exact = sub64_of_Fits t.fee_reserved_msat actual (omega int_laws) in
    let (db', refunded, sum, rows) =
      refund_within i refund at (with_settled i actual preimage at db) inv.bounded (omega int_laws)
        (omega int_laws) room in
    let (ef, ee) = within_fee actual t.fee_reserved_msat hi in
    (
      db',
      settle_chain i actual actual (pos 0) preimage note at t db db' db' p ef ee (rw exact refunded)
          (nothing_over note at db'),
      sum,
      rw rows (
          find-update i (mark_settled actual at preimage) db.txns t (λ u. refl) (λ u. refl)
            p.found),
    )

abbrev adjusted_txn : ℤ → String → Time → Db → Txn
adjusted_txn excess note at db =
    new_txn (next_txn_id db.txns) (adjustment_row adjustment excess note at)

insert_adjustment :
    (excess : ℤ) (note : String) (at : Time) (db : Db)
    → insert_txn (adjustment_row adjustment excess note at) db
      ≡ ok (next_txn_id db.txns, record db { txns = adjusted_txn excess note at db ∷ db.txns })
unfolding insert_txn
insert_adjustment excess note at db = insert_row_free (adjusted_txn excess note at db) db refl refl

adjust_chain :
    (excess : ℤ) (note : String) (at : Time) (db : Db)
    → pos 1 ≤ℤ excess
    → excess ≤ℤ pos max_msat
    → adjust_excess excess note at db
      ≡ append_balance_entry
          (next_txn_id db.txns)
          (neg_ℤ excess)
          adjust
          at
          (record db { txns = adjusted_txn excess note at db ∷ db.txns })
unfolding adjust_excess
adjust_chain excess note at db lo hi = rw (eqb_pos excess lo) (
    rw (neg64_of_Fits excess (omega int_laws)) (
      >>=-of_ok (insert_txn (adjustment_row adjustment excess note at)) _ db _ _
        (insert_adjustment excess note at db)))

plus_neg : (a b : ℤ) → a +ℤ neg_ℤ b ≡ a -ℤ b
plus_neg a b = omega int_laws

skip_other :
    (i : ℕ) (u : Txn) (ts : List Txn)
    → is_payment_out u.kind ≡ false
    → find_first (is_out_with_id i) (u ∷ ts) ≡ find_first (is_out_with_id i) ts
skip_other i u ts h = ground arith

-- In a ledger that keeps its invariant, a pending payment whose route cost more than the reserve is
-- settled at the reserved fee, and the excess is taken off the balance by an adjustment, if the
-- balance covers it.
pub settle_spend_over :
    (i : ℕ) (actual : ℤ) (preimage note : String) (at : Time) (db : Db) (t : Txn)
    → Inv db
    → Pending i db t
    → t.fee_reserved_msat <ℤ actual
    → actual -ℤ t.fee_reserved_msat ≤ℤ total db.entries
    → (db' : Db) × (settle_spend i actual preimage note at db
        ≡ (ok (actual -ℤ t.fee_reserved_msat), db'))
      × (total db'.entries ≡ total db.entries -ℤ (actual -ℤ t.fee_reserved_msat))
      × (find_first (is_out_with_id i) db'.txns
          ≡ some (mark_settled t.fee_reserved_msat at preimage t))
unfolding push_entry new_txn
settle_spend_over i actual preimage note at db t inv p over covered =
    let b = pending-Books i db t _ p (found_books i db t p inv) in
    let base = total-bounds db.entries inv.bounded in
    let excess = actual -ℤ t.fee_reserved_msat in
    let exact = sub64_of_Fits actual t.fee_reserved_msat (omega int_laws) in
    let (ef, ee) = over_fee actual t.fee_reserved_msat over in
    let db₁ = with_settled i t.fee_reserved_msat preimage at db in
    let row = adjusted_txn excess note at db₁ in
    let db₂ : Db = record db₁ { txns = row ∷ db₁.txns } in
    (
      push_entry (next_txn_id db₁.txns) (neg_ℤ excess) adjust at db₂,
      settle_chain i actual t.fee_reserved_msat excess preimage note at t db db₁ _ p ef (ee ∙ exact)
          (no_refund i t.fee_reserved_msat at db₁ b.2 b.4)
          (adjust_chain excess note at db₁ (omega int_laws) (omega int_laws)
            ∙ append_within (next_txn_id db₁.txns) (neg_ℤ excess) adjust at db₂ inv.bounded
                (omega int_laws) (omega int_laws) (omega int_laws)),
      total-push (next_txn_id db₁.txns) (neg_ℤ excess) adjust at db₂
          ∙ plus_neg (total db.entries) excess,
      skip_other i row db₁.txns refl
          ∙ find-update i (mark_settled t.fee_reserved_msat at preimage) db.txns t (λ u. refl)
              (λ u. refl) p.found,
    )

settle_chain-err :
    (i : ℕ) (actual fee excess : ℤ) (preimage note : String) (at : Time) (t : Txn) (db db₁ : Db)
    → Pending i db t
    → booked_fee actual t.fee_reserved_msat ≡ fee
    → fee_excess actual t.fee_reserved_msat ≡ excess
    → refund_unused i (sub64 t.fee_reserved_msat fee) at (with_settled i fee preimage at db)
      ≡ ok (tt, db₁)
    → adjust_excess excess note at db₁ ≡ err insufficient_balance
    → settle_spend i actual preimage note at db ≡ (err insufficient_balance, db)
unfolding settle_spend settle_row update_txn
settle_chain-err i actual fee excess preimage note at t db db₁ p ef ee er ea =
    in_tx-err (close_reservation i (settle_row i actual preimage note at)) db insufficient_balance (
      close_reservation_of i (settle_row i actual preimage note at) db t p
      ∙ rw (ef, ee) (ground (arith, er, ea)))

-- In a ledger that keeps its invariant, the settlement of a pending payment whose excess, within
-- the supply, is more than the balance is refused and rolled back: nothing changes, and the payment
-- stays pending.
pub settle_spend_uncovered :
    (i : ℕ) (actual : ℤ) (preimage note : String) (at : Time) (db : Db) (t : Txn)
    → Inv db
    → Pending i db t
    → total db.entries <ℤ actual -ℤ t.fee_reserved_msat
    → actual -ℤ t.fee_reserved_msat ≤ℤ pos max_msat
    → settle_spend i actual preimage note at db ≡ (err insufficient_balance, db)
settle_spend_uncovered i actual preimage note at db t inv p short small =
    let b = pending-Books i db t _ p (found_books i db t p inv) in
    let base = total-bounds db.entries inv.bounded in
    let excess = actual -ℤ t.fee_reserved_msat in
    let exact = sub64_of_Fits actual t.fee_reserved_msat (omega int_laws) in
    let (ef, ee) = over_fee actual t.fee_reserved_msat (omega int_laws) in
    let db₁ = with_settled i t.fee_reserved_msat preimage at db in
    settle_chain-err i actual t.fee_reserved_msat excess preimage note at t db db₁ p ef (ee ∙ exact)
      (no_refund i t.fee_reserved_msat at db₁ b.2 b.4)
      (adjust_chain excess note at db₁ (omega int_laws) small
        ∙ append_short (next_txn_id db₁.txns) (neg_ℤ excess) adjust at _ inv.bounded
            (omega int_laws) (omega int_laws))
