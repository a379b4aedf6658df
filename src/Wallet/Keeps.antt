-- ===== src/Wallet/Keeps.antt =====
-- Each operation of the wallet keeps the invariant of the ledger.
use brollyzapper.Store.Ledger.ByHand.{adjust_balance-Inv}
use brollyzapper.Store.Ledger.Settling.{settle_spend-Inv}
use brollyzapper.Base.{
  ℕ, ◌≡◌, refl, Bool, true, false, none, some, ◌∷◌, String, arith, if◌then◌else◌, Bool-cases, inl,
  inr, Option, any, str_eq,
}
use brollyzapper.Base.Int.{ℤ, pos, ◌≤ℤ◌, ltb_ℤ, leb_ℤ, eqb_ℤ}
use brollyzapper.Base.Int64.{Fits, neg64}
use brollyzapper.Store.Rows.{
  Time, allocate, deallocate, adjust, allocation, deallocation, adjustment, Db,
}
use brollyzapper.Store.Tx
use brollyzapper.Store.Ledger.Append.{adjust_balance}
use brollyzapper.Store.Ledger.Reserve.{SpendReservation, reserve_spend}
use brollyzapper.Store.Ledger.Close.{settle_spend}
use brollyzapper.Store.Ledger.Marking.{other_tables-Inv}
use brollyzapper.Store.Ledger.Invariant.{Inv}
use brollyzapper.Store.Ledger.Safety.{reserve_spend-Inv}
use brollyzapper.Store.Invoices.{
  NewInvoice, invoice_row, create_invoice, credit_settled_invoice, has_hash,
}
use brollyzapper.Store.Invoices.Credits.{credit_settled_invoice-Inv}
use brollyzapper.Wallet.Codec.{Codec, Refusal, Answer, ok, err}
use brollyzapper.Wallet.Spender.{
  lift, refuses, reserve_unless, reserve, settle, allocate_msat, deallocate_msat, adjust_msat,
  credit_with,
}

lift_keeps : {A : Type 0} (r : Tx.Result A × Db) → (lift r).1 ≡ r.1
lift_keeps (Tx.ok a, db) = refl
lift_keeps (Tx.err e, db) = refl

pub lifted-Inv : {A : Type 0} (r : Tx.Result A × Db) → Inv r.1 → Inv (lift r).1
lifted-Inv r h = rw (lift_keeps r) h

guards_hold :
    (c : Codec) (s : Time) (req : SpendReservation) (now : Time) (db : Db)
    → refuses c s req now db ≡ none
    → (pos 1 ≤ℤ req.amount_msat) × (pos 0 ≤ℤ req.max_fee_msat)
unfolding refuses
guards_hold c s req now db h = (ground arith, ground arith)

reserve_unless-Inv :
    (c : Codec) (s : Time) (req : SpendReservation) (now : Time) (db : Db) (g : Option Refusal)
    → refuses c s req now db ≡ g
    → Inv db
    → Inv (reserve_unless g req now db).1
unfolding reserve_unless
reserve_unless-Inv c s req now db (some e) h inv = inv
reserve_unless-Inv c s req now db none h inv =
    let (lo, fee) = guards_hold c s req now db h in
    lifted-Inv (reserve_spend req now db) (reserve_spend-Inv req now db lo fee inv)

pub reserve-Inv :
    (c : Codec) (s : Time) (req : SpendReservation) (now : Time) (db : Db)
    → Inv db
    → Inv (reserve c s req now db).1
unfolding reserve
reserve-Inv c s req now db inv = reserve_unless-Inv c s req now db _ refl inv

guarded-Inv :
    {A : Type 0} (b : Bool) (e : Refusal) (r : Answer A × Db) (db : Db)
    → Inv db
    → (b ≡ false → Inv r.1)
    → Inv (if b then (err e, db) else r).1
guarded-Inv true e r db inv h = inv
guarded-Inv false e r db inv h = h refl

not_below_zero : (a : ℤ) → ltb_ℤ a (pos 0) ≡ false → pos 0 ≤ℤ a
not_below_zero a h = ground arith

pub settle-Inv :
    (i : ℕ) (fee : ℤ) (preimage note : String) (now : Time) (db : Db)
    → Fits fee
    → Inv db
    → Inv (settle i fee preimage note now db).1
unfolding settle
settle-Inv i fee preimage note now db fits inv = guarded-Inv (ltb_ℤ fee (pos 0)) _ _ db inv λ h.
    lifted-Inv (settle_spend i fee preimage note now db)
      (settle_spend-Inv i fee preimage note now db (not_below_zero fee h) fits inv)

pub allocate_msat-Inv :
    (a : ℤ) (note : String) (now : Time) (db : Db) → Inv db → Inv (allocate_msat a note now db).1
unfolding allocate_msat
allocate_msat-Inv a note now db inv = guarded-Inv (leb_ℤ a (pos 0)) _ _ db inv λ _.
    lifted-Inv (adjust_balance allocation allocate a note now db)
      (adjust_balance-Inv allocation allocate a note now db tt inv)

pub deallocate_msat-Inv :
    (a : ℤ) (note : String) (now : Time) (db : Db) → Inv db → Inv (deallocate_msat a note now db).1
unfolding deallocate_msat
deallocate_msat-Inv a note now db inv = guarded-Inv (leb_ℤ a (pos 0)) _ _ db inv λ _.
    lifted-Inv (adjust_balance deallocation deallocate (neg64 a) note now db)
      (adjust_balance-Inv deallocation deallocate (neg64 a) note now db tt inv)

pub adjust_msat-Inv :
    (a : ℤ) (note : String) (now : Time) (db : Db) → Inv db → Inv (adjust_msat a note now db).1
unfolding adjust_msat
adjust_msat-Inv a note now db inv = guarded-Inv (eqb_ℤ a (pos 0)) _ _ db inv λ _.
    guarded-Inv (str_eq note "") _ _ db inv λ _.
      lifted-Inv (adjust_balance adjustment adjust a note now db)
        (adjust_balance-Inv adjustment adjust a note now db tt inv)

pub credit_with-Inv :
    (wanted : Answer Bool) (hash preimage : String) (paid : ℤ) (at : Time) (db : Db)
    → Inv db
    → Inv (credit_with wanted hash preimage paid at db).1
unfolding credit_with
credit_with-Inv (err e) hash preimage paid at db inv = inv
credit_with-Inv (ok wanted) hash preimage paid at db inv =
    lifted-Inv (credit_settled_invoice hash preimage paid at wanted db)
      (credit_settled_invoice-Inv hash preimage paid at wanted db inv)

pub create_invoice-Inv : (v : NewInvoice) (db : Db) → Inv db → Inv (create_invoice v db).1
unfolding create_invoice
create_invoice-Inv v db inv = elim (Bool-cases (any (has_hash v.payment_hash) db.invoices)) [
  | inl known ↦ rw (known, create_invoice) inv
  | inr new ↦
      rw (new, create_invoice) (other_tables-Inv db (invoice_row v ∷ db.invoices) db.settings inv)
]
