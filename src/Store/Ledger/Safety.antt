-- ===== src/Store/Ledger/Safety.antt =====
-- Every operation of the ledger keeps the invariant, whatever it answers.
use brollyzapper.Base.{ℕ, ◌≡◌, refl, sym, ap, subst, ◌∙◌, true, false, ◌∷◌, arith, any}
use brollyzapper.Base.Int.{ℤ, pos, ◌+ℤ◌, neg_ℤ, ◌≤ℤ◌, int_laws}
use brollyzapper.Base.Int64.{add64, neg64, add64_of_Fits, neg64_of_Fits}
use brollyzapper.Store.Rows.{Time, Reason, reserve, Txn, Db}
use brollyzapper.Store.Tx.{ok, Tx, pure, ◌>>=◌, ◌>>◌, >>=-eq-ok, in_tx_keeps}
use brollyzapper.Store.Ledger.Append.{
  next_txn_id, push_entry, in_range, append_balance_entry, TxnRow, new_txn, insert_row, insert_txn,
  clashes, refers,
}
use brollyzapper.Store.Ledger.Reserve.{
  SpendReservation, reservation_row, insert_reservation, reserve_body, reserve_spend,
}
use brollyzapper.Store.Ledger.Sums.{InRange, IsBounded, append_balance_entry_lem, append_outcome}
use brollyzapper.Store.Ledger.Invariant.{Inv}
use brollyzapper.Store.Ledger.Steps.{Room, insert-Inv}

pub in_range-ok :
    (a : ℤ) (db db' : Db) {u : Unit {0}} → in_range a db ≡ ok (u, db') → (db' ≡ db) × InRange a
unfolding in_range
in_range-ok a db db' h = ground arith

pub in_range_then-ok :
    {B : Type 0} (a : ℤ) (k : Tx B) (db : Db) {r : B × Db}
    → (in_range a >> k) db ≡ ok r
    → InRange a × (k db ≡ ok r)
unfolding in_range
in_range_then-ok a k db h = ground arith

-- What a successful append has checked and written.
pub append-ok :
    (i : ℕ) (a : ℤ) (reason : Reason) (at : Time) (db db' : Db) {u : Unit {0}}
    → IsBounded db.entries
    → append_balance_entry i a reason at db ≡ ok (u, db')
    → (db' ≡ push_entry i a reason at db) × Room a db.entries
append-ok i a reason at db db' b h =
    let e : append_outcome i a reason at db ≡ ok (_, db') =
      sym (append_balance_entry_lem i a reason at db b) ∙ h in
    ground arith

insert_row-ok :
    (t : Txn) (db db' : Db) {i : ℕ}
    → insert_row t db ≡ ok (i, db')
    → (i ≡ t.id)
      × (db' ≡ record db { txns = t ∷ db.txns })
      × (any (clashes t) db.txns ≡ false)
      × (refers t.nwc_connection_id db.connections ≡ true)
unfolding insert_row
insert_row-ok t db db' h = ground arith

pub insert_txn-ok :
    (row : TxnRow) (db db' : Db) {i : ℕ}
    → insert_txn row db ≡ ok (i, db')
    → (i ≡ next_txn_id db.txns)
      × (db' ≡ record db { txns = new_txn (next_txn_id db.txns) row ∷ db.txns })
      × (any (clashes (new_txn (next_txn_id db.txns) row)) db.txns ≡ false)
unfolding insert_txn
insert_txn-ok row db db' h =
    let r = insert_row-ok (new_txn (next_txn_id db.txns) row) db db' h in (r.0, r.1, r.2)

insert_reservation-ok :
    (req : SpendReservation) (at : Time) (db db' : Db) {i : ℕ}
    → insert_reservation req at db ≡ ok (i, db')
    → insert_txn (reservation_row req at) db ≡ ok (i, db')
unfolding insert_reservation
insert_reservation-ok req at db db' h = ground arith

-- The reservation's row as it is inserted.
abbrev pub reserved_txn : SpendReservation → Time → Db → Txn
reserved_txn req at db = new_txn (next_txn_id db.txns) (reservation_row req at)

-- What a successful reservation has checked and written.
pub record Reserved (req : SpendReservation) (at : Time) (db : Db) (i : ℕ) (db' : Db) : Type 0 where
  pub fresh : i ≡ next_txn_id db.txns
  pub amount_fits : InRange req.amount_msat
  pub fee_fits : InRange req.max_fee_msat
  pub sum_fits : InRange (req.amount_msat +ℤ req.max_fee_msat)
  pub single : any (clashes (reserved_txn req at db)) db.txns ≡ false
  pub room : Room (neg_ℤ (req.amount_msat +ℤ req.max_fee_msat)) db.entries
  pub written :
      db'
      ≡ push_entry
          (next_txn_id db.txns)
          (neg_ℤ (req.amount_msat +ℤ req.max_fee_msat))
          reserve
          at
          (record db { txns = reserved_txn req at db ∷ db.txns })

pub sum-add64 : (a b : ℤ) → InRange a → InRange b → add64 a b ≡ a +ℤ b
sum-add64 a b h k = add64_of_Fits a b (omega (int_laws))

pub neg-neg64 : (a : ℤ) → InRange a → neg64 a ≡ neg_ℤ a
neg-neg64 a h = neg64_of_Fits a (omega (int_laws))

append_pure-ok :
    {B : Type 0} (i : ℕ) (a : ℤ) (reason : Reason) (at : Time) (x y : B) (db db' : Db)
    → IsBounded db.entries
    → (append_balance_entry i a reason at >> pure x) db ≡ ok (y, db')
    → (y ≡ x) × (db' ≡ push_entry i a reason at db) × Room a db.entries
append_pure-ok i a reason at x y db db' b h =
    ground (arith, append_balance_entry_lem i a reason at db b)

reserve_tail-ok :
    (req : SpendReservation) (at : Time) (a : ℤ) (db db' : Db) (i : ℕ)
    → IsBounded db.entries
    → (insert_reservation req at >>= λ j. append_balance_entry j a reserve at >> pure j) db
      ≡ ok (i, db')
    → (i ≡ next_txn_id db.txns)
      × (any (clashes (reserved_txn req at db)) db.txns ≡ false)
      × Room a db.entries
      × (db'
          ≡ push_entry
              (next_txn_id db.txns)
              a
              reserve
              at
              (record db { txns = reserved_txn req at db ∷ db.txns }))
reserve_tail-ok req at a db db' i b h = go (>>=-eq-ok (insert_reservation req at) _ db h)
  where
    go :
        (j : ℕ) × (db₁ : Db) × (insert_reservation req at db ≡ ok (j, db₁))
          × ((append_balance_entry j a reserve at >> pure j) db₁ ≡ ok (i, db'))
        → (i ≡ next_txn_id db.txns)
          × (any (clashes (reserved_txn req at db)) db.txns ≡ false)
          × Room a db.entries
          × (db'
              ≡ push_entry
                  (next_txn_id db.txns)
                  a
                  reserve
                  at
                  (record db { txns = reserved_txn req at db ∷ db.txns }))
    go (j, db₁, inserted, k) =
        let w =
          insert_txn-ok (reservation_row req at) db db₁
            (insert_reservation-ok req at db db₁ inserted) in
        let v = append_pure-ok j a reserve at j i db₁ db' (rw (w.1) b) k in
        (
          v.0 ∙ w.0,
          w.2,
          subst (λ (d : Db). Room a d.entries) w.1 v.2,
          v.1
              ∙ ap (push_entry j a reserve at) w.1
              ∙ ap
                  (λ n.
                    push_entry n a reserve at
                      (record db { txns = reserved_txn req at db ∷ db.txns }))
                  w.0,
        )

pub reserve_body-ok :
    (req : SpendReservation) (at : Time) (db db' : Db) (i : ℕ)
    → IsBounded db.entries
    → reserve_body req at db ≡ ok (i, db')
    → Reserved req at db i db'
unfolding reserve_body
reserve_body-ok req at db db' i b h =
    let (f₁, k₁) = in_range_then-ok req.amount_msat _ db h in
    let (f₂, k₂) = in_range_then-ok req.max_fee_msat _ db k₁ in
    let (f₃, k₃) = in_range_then-ok (add64 req.amount_msat req.max_fee_msat) _ db k₂ in
    let sum = sum-add64 req.amount_msat req.max_fee_msat f₁ f₂ in
    let debit = neg-neg64 (add64 req.amount_msat req.max_fee_msat) f₃ ∙ ap neg_ℤ sum in
    let w = reserve_tail-ok req at (neg_ℤ (req.amount_msat +ℤ req.max_fee_msat)) db db' i b (
      subst
        (λ (a : ℤ).
          (insert_reservation req at >>= λ j. append_balance_entry j a reserve at >> pure j) db
          ≡ ok (i, db'))
        debit k₃) in
    record {
      fresh = w.0;
      amount_fits = f₁;
      fee_fits = f₂;
      sum_fits = subst InRange sum f₃;
      single = w.1;
      room = w.2;
      written = w.3;
    }

-- A reservation of a positive amount and a fee reserve that is not negative keeps the invariant.
pub reserve_spend-Inv :
    (req : SpendReservation) (at : Time) (db : Db)
    → pos 1 ≤ℤ req.amount_msat
    → pos 0 ≤ℤ req.max_fee_msat
    → Inv db
    → Inv (reserve_spend req at db).1
unfolding reserve_spend
reserve_spend-Inv req at db positive nonneg inv =
    in_tx_keeps Inv (reserve_body req at) db inv λ i db' e.
      let r = reserve_body-ok req at db db' i inv.bounded e in
      subst Inv (sym r.written) (
        insert-Inv (reserved_txn req at db) (neg_ℤ (req.amount_msat +ℤ req.max_fee_msat)) reserve at
          db refl (refl, positive, nonneg, r.amount_fits.1, r.fee_fits.1, r.sum_fits.1) r.room inv)
