-- ===== src/Store/Invoices/Redelivery.antt =====
-- A settlement that is delivered again; the sweep of the invoices that are past due.
use brollyzapper.Base.{
  ℕ, ◌≡◌, refl, ap, subst, ◌∙◌, inl, inr, Bool, true, false, some, List, [], ◌∷◌, String, eq_refl,
  arith, any, find_first, select, length, update_where, Bool-cases,
}
use brollyzapper.Base.Int.{ℤ}
use brollyzapper.Store.Rows.{Time, credit, Txn, Invoice, Db}
use brollyzapper.Store.Tx.{ok, in_tx-inv, in_tx-ok, >>=-eq-ok, ◌>>=◌, pure}
use brollyzapper.Store.Ledger.Append.{next_txn_id, clashes, append_balance_entry}
use brollyzapper.Store.Invoices.{
  has_hash, credit_txn, record_credit, credit_body, credit_settled_invoice, mark_invoice_settled,
  set_settled, set_expired, is_live, is_past_due, count_open_invoices, expire_invoices,
}
use brollyzapper.Store.Invoices.Credits.{
  credit_body_known, credit_body-cases, credit_found-cases, credit_found_again,
}

appended_rows :
    (i : ℕ) (a : ℤ) (at : Time) (db db' : Db) {u : Unit {0}}
    → append_balance_entry i a credit at db ≡ ok (u, db')
    → (db'.txns ≡ db.txns) × (db'.invoices ≡ db.invoices)
unfolding append_balance_entry
appended_rows i a at db db' h = ground arith

marked_rows :
    (hash : String) (db db' : Db) {b : Bool}
    → (mark_invoice_settled hash >>= λ _. pure true) db ≡ ok (b, db')
    → (db'.txns ≡ db.txns) × (db'.invoices ≡ update_where (has_hash hash) set_settled db.invoices)
unfolding mark_invoice_settled
marked_rows hash db db' h = ground arith

recorded_rows :
    (t : Txn) (hash : String) (paid : ℤ) (at : Time) (wanted : Bool) (db db' : Db) {b : Bool}
    → record_credit t hash paid at wanted db ≡ ok (b, db')
    → (db'.txns ≡ t ∷ db.txns)
      × (db'.invoices ≡ update_where (has_hash hash) set_settled db.invoices)
unfolding record_credit
recorded_rows t hash paid at true db db' h =
    let (u, db₁, appended, k) =
      >>=-eq-ok (append_balance_entry t.id paid credit at) _ (record db { txns = t ∷ db.txns }) h in
    let r = appended_rows t.id paid at (record db { txns = t ∷ db.txns }) db₁ appended in
    let m = marked_rows hash db₁ db' k in
    (m.0 ∙ r.0, m.1 ∙ ap (update_where (has_hash hash) set_settled) r.1)
recorded_rows t hash paid at false db db' h =
    marked_rows hash (record db { txns = t ∷ db.txns }) db' h

find_settled :
    (hash : String) (invoices : List Invoice) (inv : Invoice)
    → find_first (has_hash hash) invoices ≡ some inv
    → (inv' : Invoice) × (find_first
          (has_hash hash)
          (update_where (has_hash hash) set_settled invoices)
        ≡ some inv')
find_settled hash [] inv h = absurd (cc)
find_settled hash (v ∷ vs) inv h = elim (Bool-cases (has_hash hash v)) [
  | inl here ↦ (set_settled v, ground arith)
  | inr further ↦
      let (inv', found) = find_settled hash vs inv (rw further at h) in (inv', ground arith)
]

credit-clashes :
    (i j : ℕ) (hash p q : String) (paid paid' : ℤ) (at at' : Time) (inv inv' : Invoice)
    → clashes (credit_txn i hash p paid at inv) (credit_txn j hash q paid' at' inv') ≡ true
unfolding credit_txn
credit-clashes i j hash p q paid paid' at at' inv inv' = rw (eq_refl hash) refl

clashes_alike :
    (i j : ℕ) (hash p q : String) (paid paid' : ℤ) (at at' : Time) (inv inv' : Invoice)
    → clashes (credit_txn i hash p paid at inv) ≡ clashes (credit_txn j hash q paid' at' inv')
unfolding credit_txn
clashes_alike i j hash p q paid paid' at at' inv inv' = refl

-- A settlement whose row is there already answers false and changes nothing.
credit_known :
    (hash preimage : String) (paid : ℤ) (at : Time) (wanted : Bool) (db : Db) (inv : Invoice)
    → find_first (has_hash hash) db.invoices ≡ some inv
    → any (clashes (credit_txn (next_txn_id db.txns) hash preimage paid at inv)) db.txns ≡ true
    → credit_settled_invoice hash preimage paid at wanted db ≡ (ok false, db)
unfolding credit_settled_invoice
credit_known hash preimage paid at wanted db inv found clash =
    in_tx-ok (credit_body hash preimage paid at wanted) db db false (
      credit_body_known hash preimage paid at wanted db inv found
      ∙ credit_found_again (credit_txn (next_txn_id db.txns) hash preimage paid at inv) hash paid at
          wanted db clash)

any_head : (p : Txn → Bool) (t : Txn) (ts : List Txn) → p t ≡ true → any p (t ∷ ts) ≡ true
any_head p t ts h = rw h refl

-- A settlement that was answered, whether it was credited or not, changes nothing when it is
-- delivered again: the second call answers false.
pub credit_redelivered :
    (hash p q : String) (paid paid' : ℤ) (at at' : Time) (wanted wanted' : Bool) (db db' : Db)
    (b : Bool)
    → credit_settled_invoice hash p paid at wanted db ≡ (ok b, db')
    → credit_settled_invoice hash q paid' at' wanted' db' ≡ (ok false, db')
unfolding credit_settled_invoice
credit_redelivered hash p q paid paid' at at' wanted wanted' db db' b h =
    let (inv, found, k) =
      credit_body-cases hash p paid at wanted db db' b
        (in_tx-inv (credit_body hash p paid at wanted) db db' b h) in
    let t = credit_txn (next_txn_id db.txns) hash p paid at inv in
    elim (credit_found-cases t hash paid at wanted db db' k) [
      | inl (clash, same) ↦
          subst (λ (d : Db). credit_settled_invoice hash q paid' at' wanted' d ≡ (ok false, d)) same
            (credit_known hash q paid' at' wanted' db inv found (
              subst (λ (f : Txn → Bool). any f db.txns ≡ true)
                (clashes_alike (next_txn_id db.txns) (next_txn_id db.txns) hash p q paid paid' at
                  at' inv inv)
                clash))
      | inr recorded ↦
          let rows = recorded_rows t hash paid at wanted db db' recorded in
          let (inv', found') = find_settled hash db.invoices inv found in
          credit_known hash q paid' at' wanted' db' inv'
            (ap (find_first (has_hash hash)) rows.1 ∙ found')
            (ap (any (clashes (credit_txn (next_txn_id db'.txns) hash q paid' at' inv'))) rows.0
              ∙ any_head (clashes (credit_txn (next_txn_id db'.txns) hash q paid' at' inv')) t
                  db.txns
                  (credit-clashes (next_txn_id db'.txns) (next_txn_id db.txns) hash q p paid' paid
                    at' at inv' inv))
    ]

no_past_due_left :
    (now : Time) (invoices : List Invoice)
    → any (is_past_due now) (update_where (is_past_due now) set_expired invoices) ≡ false
no_past_due_left now [] = refl
no_past_due_left now (v ∷ vs) = ground (arith, no_past_due_left now vs)

live_kept :
    (now : Time) (invoices : List Invoice)
    → length (select (is_live now) (update_where (is_past_due now) set_expired invoices))
      ≡ length (select (is_live now) invoices)
live_kept now [] = refl
live_kept now (v ∷ vs) = ground (arith, live_kept now vs)

-- After a sweep no open invoice is past due, and the count of the open ones, which the cap of the
-- public callback reads, is what it was.
pub expire_invoices_sweeps :
    (now : Time) (db : Db)
    → (any (is_past_due now) (expire_invoices now db).1.invoices ≡ false)
      × (count_open_invoices now (expire_invoices now db).1 ≡ count_open_invoices now db)
unfolding expire_invoices count_open_invoices
expire_invoices_sweeps now db = (no_past_due_left now db.invoices, live_kept now db.invoices)
