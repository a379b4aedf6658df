-- ===== src/Store/Ledger/ByHand.antt =====
-- `AdjustBalance`, and any row that is inserted with its one entry, keeps the invariant.
use brollyzapper.Base.{ℕ, ◌≡◌, refl, sym, ap, subst, ◌∙◌, ◌⊎◌, inl, inr, ◌∷◌, String, Bool-cases}
use brollyzapper.Base.Int.{ℤ, pos, neg_ℤ, ltb_ℤ, int_laws}
use brollyzapper.Store.Rows.{
  Time, Reason, Kind, allocation, deallocation, adjustment, payment_out, invoice_in, settled, Db,
}
use brollyzapper.Store.Tx.{ok, ◌>>=◌, >>=-eq-ok, in_tx_keeps}
use brollyzapper.Store.Ledger.Append.{
  next_txn_id, push_entry, append_balance_entry, TxnRow, new_txn, insert_txn, magnitude,
  adjustment_row, adjust_body, adjust_balance,
}
use brollyzapper.Store.Ledger.Sums.{InRange, IsBounded}
use brollyzapper.Store.Ledger.Invariant.{Books, Inv}
use brollyzapper.Store.Ledger.Steps.{Room, insert-Inv}
use brollyzapper.Store.Ledger.Safety.{append-ok, insert_txn-ok, neg-neg64}

-- A kind that the operator moves the ceiling by.
abbrev pub IsByHand : Kind → Type 0
IsByHand allocation = Unit
IsByHand deallocation = Unit
IsByHand adjustment = Unit
IsByHand _ = ⊥

-- A settled row of a kind by hand, whose one entry is its amount or the negative of it.
by_hand-Books :
    (kind : Kind) (s : ℤ) (n f : ℤ)
    → IsByHand kind
    → (s ≡ n) ⊎ (s ≡ neg_ℤ n)
    → Books kind settled n f (pos 0) s
by_hand-Books allocation s n f k h = h
by_hand-Books deallocation s n f k h = h
by_hand-Books payment_out s n f k h = absurd k
by_hand-Books invoice_in s n f k h = absurd k
by_hand-Books adjustment s n f k h = h

-- What inserting a row and appending its entry has checked and written.
pub insert_append-ok :
    (row : TxnRow) (a : ℤ) (reason : Reason) (at : Time) (db db' : Db) {u : Unit {0}}
    → IsBounded db.entries
    → (insert_txn row >>= λ i. append_balance_entry i a reason at) db ≡ ok (u, db')
    → Room a db.entries
      × (db'
          ≡ push_entry
              (next_txn_id db.txns)
              a
              reason
              at
              (record db { txns = new_txn (next_txn_id db.txns) row ∷ db.txns }))
insert_append-ok row a reason at db db' {u} b h = go (>>=-eq-ok (insert_txn row) _ db h)
  where
    go :
        (j : ℕ) × (db₁ : Db) × (insert_txn row db ≡ ok (j, db₁))
          × (append_balance_entry j a reason at db₁ ≡ ok (u, db'))
        → Room a db.entries
          × (db'
              ≡ push_entry
                  (next_txn_id db.txns)
                  a
                  reason
                  at
                  (record db { txns = new_txn (next_txn_id db.txns) row ∷ db.txns }))
    go (j, db₁, inserted, k) =
        let w = insert_txn-ok row db db₁ inserted in
        let v = append-ok j a reason at db₁ db' (rw (w.1) b) k in
        (
          subst (λ (d : Db). Room a d.entries) w.1 v.1,
          v.0
              ∙ ap (push_entry j a reason at) w.1
              ∙ ap
                  (λ n.
                    push_entry n a reason at
                      (record db { txns = new_txn (next_txn_id db.txns) row ∷ db.txns }))
                  w.0,
        )

-- Inserting a row with its entry keeps the invariant, if the entry accounts for the row.
pub insert_append-Inv :
    (row : TxnRow) (a : ℤ) (reason : Reason) (at : Time) (db db' : Db) {u : Unit {0}}
    → Books row.kind row.state row.amount_msat (pos 0) row.fee_reserved_msat a
    → Inv db
    → (insert_txn row >>= λ i. append_balance_entry i a reason at) db ≡ ok (u, db')
    → Inv db'
unfolding new_txn
insert_append-Inv row a reason at db db' own inv h =
    let r = insert_append-ok row a reason at db db' inv.bounded h in
    subst Inv (sym r.1)
      (insert-Inv (new_txn (next_txn_id db.txns) row) a reason at db refl own r.0 inv)

magnitude-sign : (a : ℤ) → InRange a → (a ≡ magnitude a) ⊎ (a ≡ neg_ℤ (magnitude a))
unfolding magnitude
magnitude-sign a r = elim (Bool-cases (ltb_ℤ a (pos 0))) [
  | inl below ↦ inr (rw below (rw (neg-neg64 a r) (omega int_laws)))
  | inr above ↦ inl (rw above refl)
]

-- An allocation, deallocation or adjustment by hand keeps the invariant.
pub adjust_balance-Inv :
    (kind : Kind) (reason : Reason) (amount : ℤ) (note : String) (at : Time) (db : Db)
    → IsByHand kind
    → Inv db
    → Inv (adjust_balance kind reason amount note at db).1
unfolding adjust_balance adjust_body
adjust_balance-Inv kind reason amount note at db by_hand inv =
    in_tx_keeps Inv (adjust_body kind reason amount note at) db inv λ u db' e.
      let r =
        insert_append-ok (adjustment_row kind (magnitude amount) note at) amount reason at db db'
          inv.bounded e in
      insert_append-Inv (adjustment_row kind (magnitude amount) note at) amount reason at db db'
        (by_hand-Books kind amount (magnitude amount) (pos 0) by_hand
          (magnitude-sign amount r.0.in_range))
        inv e
