-- ===== src/Store/Invoices/Credits.antt =====
-- A settlement is credited once, whatever is delivered again, and keeps the ledger's invariant;
-- the sweep takes the invoices that are past due and no others.
use brollyzapper.Base.{
  ℕ, ◌≡◌, refl, sym, subst, ◌∙◌, ◌⊎◌, inl, inr, Bool, true, false, none, some, List, ◌∷◌, String,
  arith, any, find_first, Bool-cases, Option-cases,
}
use brollyzapper.Base.Int.{ℤ}
use brollyzapper.Store.Rows.{Time, credit, Txn, Invoice, Db}
use brollyzapper.Store.Tx.{ok, err, unknown_invoice, in_tx_keeps, >>=-eq-ok, ◌>>=◌, pure}
use brollyzapper.Store.Ledger.Append.{next_txn_id, clashes, append_balance_entry}
use brollyzapper.Store.Ledger.Invariant.{Inv}
use brollyzapper.Store.Ledger.Steps.{insert-Inv, insert_silent-Inv}
use brollyzapper.Store.Ledger.Safety.{append-ok}
use brollyzapper.Store.Invoices.{
  has_hash, credit_txn, record_credit, credit_found, credit_body, credit_settled_invoice,
  mark_invoice_settled,
}

pub credit_found_again :
    (t : Txn) (hash : String) (paid : ℤ) (at : Time) (wanted : Bool) (db : Db)
    → any (clashes t) db.txns ≡ true
    → credit_found t hash paid at wanted db ≡ ok (false, db)
unfolding credit_found
credit_found_again t hash paid at wanted db h = rw h refl

credit_found_new :
    (t : Txn) (hash : String) (paid : ℤ) (at : Time) (wanted : Bool) (db : Db)
    → any (clashes t) db.txns ≡ false
    → credit_found t hash paid at wanted db ≡ record_credit t hash paid at wanted db
unfolding credit_found
credit_found_new t hash paid at wanted db h = rw h refl

credit_body_unknown :
    (hash preimage : String) (paid : ℤ) (at : Time) (wanted : Bool) (db : Db)
    → find_first (has_hash hash) db.invoices ≡ none
    → credit_body hash preimage paid at wanted db ≡ err unknown_invoice
unfolding credit_body
credit_body_unknown hash preimage paid at wanted db h = rw (h, credit_body) refl

pub credit_body_known :
    (hash preimage : String) (paid : ℤ) (at : Time) (wanted : Bool) (db : Db) (inv : Invoice)
    → find_first (has_hash hash) db.invoices ≡ some inv
    → credit_body hash preimage paid at wanted db
      ≡ credit_found
          (credit_txn (next_txn_id db.txns) hash preimage paid at inv)
          hash
          paid
          at
          wanted
          db
unfolding credit_body
credit_body_known hash preimage paid at wanted db inv h = rw (h, credit_body) refl

-- The invariant speaks of `txns` and `balance_entries` alone.
Inv-invoices :
    (db : Db) (invoices : List Invoice) → Inv db → Inv (record db { invoices = invoices })
Inv-invoices db invoices inv = record {
  bounded = inv.bounded;
  ordered = inv.ordered;
  refs = inv.refs;
  books = inv.books;
}

marked-ok :
    (hash : String) (db db' : Db) {b : Bool}
    → (mark_invoice_settled hash >>= λ _. pure true) db ≡ ok (b, db')
    → (invoices : List Invoice) × (record db { invoices = invoices } ≡ db')
unfolding mark_invoice_settled
marked-ok hash db db' h = (db'.invoices, ground arith)

record_credit-Inv :
    (i : ℕ) (hash preimage : String) (paid : ℤ) (at : Time) (wanted : Bool) (inv : Invoice)
    (db db' : Db) {b : Bool}
    → i ≡ next_txn_id db.txns
    → Inv db
    → record_credit (credit_txn i hash preimage paid at inv) hash paid at wanted db ≡ ok (b, db')
    → Inv db'
unfolding record_credit credit_txn
record_credit-Inv i hash preimage paid at true inv db db' fresh ledger h =
    let t = credit_txn i hash preimage paid at inv in
    let (u, db₁, appended, k) =
      >>=-eq-ok (append_balance_entry i paid credit at) _ (record db { txns = t ∷ db.txns }) h in
    let r =
      append-ok i paid credit at (record db { txns = t ∷ db.txns }) db₁ ledger.bounded appended in
    let (invoices, same) = marked-ok hash db₁ db' k in
    subst Inv same (
      Inv-invoices db₁ invoices
        (subst Inv (sym r.0) (insert-Inv t paid credit at db fresh (inr refl) r.1 ledger)))
record_credit-Inv i hash preimage paid at false inv db db' fresh ledger h =
    let t = credit_txn i hash preimage paid at inv in
    let (invoices, same) = marked-ok hash (record db { txns = t ∷ db.txns }) db' h in
    subst Inv same (
      Inv-invoices (record db { txns = t ∷ db.txns }) invoices
        (insert_silent-Inv t db fresh (inl refl) ledger))

pub credit_found-cases :
    (t : Txn) (hash : String) (paid : ℤ) (at : Time) (wanted : Bool) (db db' : Db) {b : Bool}
    → credit_found t hash paid at wanted db ≡ ok (b, db')
    → ((any (clashes t) db.txns ≡ true) × (db ≡ db'))
      ⊎ (record_credit t hash paid at wanted db ≡ ok (b, db'))
credit_found-cases t hash paid at wanted db db' h = elim (Bool-cases (any (clashes t) db.txns)) [
  | inl again ↦ inl (again, ground (arith, credit_found_again t hash paid at wanted db again))
  | inr new ↦ inr (sym (credit_found_new t hash paid at wanted db new) ∙ h)
]

pub credit_body-cases :
    (hash preimage : String) (paid : ℤ) (at : Time) (wanted : Bool) (db db' : Db) (b : Bool)
    → credit_body hash preimage paid at wanted db ≡ ok (b, db')
    → (inv : Invoice) × (find_first (has_hash hash) db.invoices ≡ some inv)
      × (credit_found
            (credit_txn (next_txn_id db.txns) hash preimage paid at inv)
            hash
            paid
            at
            wanted
            db
          ≡ ok (b, db'))
credit_body-cases hash preimage paid at wanted db db' b h =
    elim (Option-cases (find_first (has_hash hash) db.invoices)) [
      | inl missing ↦
          absurd (cc (sym (credit_body_unknown hash preimage paid at wanted db missing) ∙ h))
      | inr (inv, found) ↦
          (inv, found, sym (credit_body_known hash preimage paid at wanted db inv found) ∙ h)
    ]

-- Crediting a settlement, wanted or not, delivered first or again, keeps the invariant.
pub credit_settled_invoice-Inv :
    (hash preimage : String) (paid : ℤ) (at : Time) (wanted : Bool) (db : Db)
    → Inv db
    → Inv (credit_settled_invoice hash preimage paid at wanted db).1
unfolding credit_settled_invoice
credit_settled_invoice-Inv hash preimage paid at wanted db ledger =
    in_tx_keeps Inv (credit_body hash preimage paid at wanted) db ledger λ b db' e.
      let (inv, found, k) = credit_body-cases hash preimage paid at wanted db db' b e in
      let t = credit_txn (next_txn_id db.txns) hash preimage paid at inv in
      elim (credit_found-cases t hash paid at wanted db db' k) [
        | inl (_, same) ↦ subst Inv same ledger
        | inr recorded ↦
            record_credit-Inv (next_txn_id db.txns) hash preimage paid at wanted inv db db' refl
              ledger recorded
      ]
