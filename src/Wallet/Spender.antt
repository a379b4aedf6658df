-- ===== src/Wallet/Spender.antt =====
-- internal/wallet/wallet.go: the Spender, which guards every operation on the ledger.
use brollyzapper.Base.{ℕ, Bool, true, Option, none, some, String, str_eq, if◌then◌else◌}
use brollyzapper.Base.Int.{ℤ, pos, ltb_ℤ, leb_ℤ, eqb_ℤ}
use brollyzapper.Base.Int64.{neg64}
use brollyzapper.Store.Rows.{
  Time, allocate, deallocate, adjust, allocation, deallocation, adjustment, Db,
}
use brollyzapper.Store.Tx
use brollyzapper.Store.Ledger.Append.{adjust_balance}
use brollyzapper.Store.Ledger.Reserve.{SpendReservation, reserve_spend}
use brollyzapper.Store.Ledger.Close.{settle_spend, reverse_spend, assert_payment_outcome}
use brollyzapper.Store.Ledger.Marks.{has_unresolved_payments_before}
use brollyzapper.Store.Settings.{setting, set_setting}
use brollyzapper.Store.Invoices.{credit_settled_invoice}
use brollyzapper.Wallet.Codec.{
  Codec, Refusal, Answer, ok, err, not_positive, negative_fee, no_payment_hash, spending_frozen,
  payments_unresolved, unreadable_setting, zero_adjustment, no_note, of_store,
}
use brollyzapper.Wallet.Freeze.{shortfall, unresolved_cutoff}

-- An answer of the store, and its tables, as the wallet passes them on.
abbrev pub lift : {A : Type 0} → Tx.Result A × Db → Answer A × Db
lift (Tx.ok a, db) = (ok a, db)
lift (Tx.err e, db) = (err (of_store e), db)

-- The checks before `ReserveSpend`, in their order; `none` lets the reservation through.
unfoldable pub refuses : Codec → Time → SpendReservation → Time → Db → Option Refusal
refuses c started_at req now db =
    if leb_ℤ req.amount_msat (pos 0)
    then some not_positive
    else if ltb_ℤ req.max_fee_msat (pos 0)
    then some negative_fee
    else if str_eq req.payment_hash ""
    then some no_payment_hash
    else elim (shortfall c db) [
      | err e ↦ some e
      | ok (some d) ↦ some spending_frozen
      | ok none ↦
          if has_unresolved_payments_before (unresolved_cutoff started_at now) db
          then some payments_unresolved
          else none
    ]

unfoldable pub reserve_unless : Option Refusal → SpendReservation → Time → Db → Answer ℕ × Db
reserve_unless (some e) req now db = (err e, db)
reserve_unless none req now db = lift (reserve_spend req now db)

-- `Reserve`
unfoldable pub reserve : Codec → Time → SpendReservation → Time → Db → Answer ℕ × Db
unfolding refuses reserve_unless
reserve c started_at req now db = reserve_unless (refuses c started_at req now db) req now db

-- `Settle`. The audit row for an excess is written by the caller of the store and is not modelled;
-- its failure is only logged. `note` is the text that the store makes of the row and the fees.
unfoldable pub settle : ℕ → ℤ → String → String → Time → Db → Answer ℤ × Db
settle i actual_fee preimage note now db =
    if ltb_ℤ actual_fee (pos 0)
    then (err negative_fee, db)
    else lift (settle_spend i actual_fee preimage note now db)

-- `Reverse`
unfoldable pub reverse : ℕ → Time → Db → Answer (Unit {0}) × Db
reverse i now db = lift (reverse_spend i now db)

-- `AssertOutcome`
unfoldable pub assert_outcome : ℕ → Bool → Time → Db → Answer (Unit {0}) × Db
assert_outcome i went_through now db = lift (assert_payment_outcome i went_through now db)

-- `Allocate`
unfoldable pub allocate_msat : ℤ → String → Time → Db → Answer (Unit {0}) × Db
allocate_msat amount note now db =
    if leb_ℤ amount (pos 0)
    then (err not_positive, db)
    else lift (adjust_balance allocation allocate amount note now db)

-- `Deallocate`
unfoldable pub deallocate_msat : ℤ → String → Time → Db → Answer (Unit {0}) × Db
deallocate_msat amount note now db =
    if leb_ℤ amount (pos 0)
    then (err not_positive, db)
    else lift (adjust_balance deallocation deallocate (neg64 amount) note now db)

-- `Adjust`
unfoldable pub adjust_msat : ℤ → String → Time → Db → Answer (Unit {0}) × Db
adjust_msat delta note now db =
    if eqb_ℤ delta (pos 0)
    then (err zero_adjustment, db)
    else if str_eq note ""
    then (err no_note, db)
    else lift (adjust_balance adjustment adjust delta note now db)

-- `CreditReceived`: on unless the setting says otherwise.
unfoldable pub credit_received_of : Codec → Option String → Answer Bool
credit_received_of c none = ok true
credit_received_of c (some raw) = elim (c.parse_bool raw) [
  | none ↦ err unreadable_setting
  | some credit ↦ ok credit
]

unfoldable pub credit_received : Codec → Db → Answer Bool
unfolding credit_received_of
credit_received c db = credit_received_of c (setting "credit_received" db)

-- `SetCreditReceived`
unfoldable pub set_credit_received : Codec → Bool → Db → Db
set_credit_received c credit db = set_setting "credit_received" (c.format_bool credit) db

abbrev pub time_or : Time → Option Time → Time
time_or now none = now
time_or now (some t) = t

unfoldable pub credit_with : Answer Bool → String → String → ℤ → Time → Db → Answer Bool × Db
credit_with (err e) hash preimage paid at db = (err e, db)
credit_with (ok wanted) hash preimage paid at db =
    lift (credit_settled_invoice hash preimage paid at wanted db)

-- `CreditInvoice`: the node's settle time, or the clock where the node gave none (a zero Time).
unfoldable pub credit_invoice :
    Codec → String → String → ℤ → Option Time → Time → Db → Answer Bool × Db
unfolding credit_received credit_with
credit_invoice c hash preimage paid settled_at now db =
    credit_with (credit_received c db) hash preimage paid (time_or now settled_at) db
