-- ===== src/Wallet/History.antt =====
-- Everything that the program does to the tables of the ledger, as a list of steps: the wallet's
-- operations, the resolver's marks, the invoices and the settings, in any order and at any times.
use brollyzapper.Base.{ℕ, ◌≡◌, refl, Bool, List, [], ◌∷◌, String, All, Option}
use brollyzapper.Base.Int.{ℤ, pos, ◌≤ℤ◌}
use brollyzapper.Base.Int64.{Fits}
use brollyzapper.Store.Rows.{Time, Db}
use brollyzapper.Store.Tx
use brollyzapper.Store.Settings.{set_setting}
use brollyzapper.Store.Ledger.Append.{max_msat, balance_msat}
use brollyzapper.Store.Ledger.Reserve.{SpendReservation}
use brollyzapper.Store.Ledger.Close.{reverse_spend, assert_payment_outcome}
use brollyzapper.Store.Ledger.Marks.{
  mark_spend_dispatched, clear_spend_dispatched, note_resolve_attempt, clear_resolve_attempts,
  mark_payment_unresolvable,
}
use brollyzapper.Store.Ledger.Marking.{
  mark_spend_dispatched-Inv, clear_spend_dispatched-Inv, note_resolve_attempt-Inv,
  clear_resolve_attempts-Inv, mark_payment_unresolvable-Inv, other_tables-Inv, set_setting-Inv,
}
use brollyzapper.Store.Ledger.Sums.{total, total-bounds, sum_entries-eq-total}
use brollyzapper.Store.Ledger.Invariant.{Inv}
use brollyzapper.Store.Ledger.Closing.{reverse_spend-Inv, assert_payment_outcome-Inv}
use brollyzapper.Store.Invoices.{NewInvoice, create_invoice, expire_invoices}
use brollyzapper.Wallet.Codec.{Codec, Deficit}
use brollyzapper.Wallet.Freeze.{record_shortfall, clear_shortfall}
use brollyzapper.Wallet.Spender.{
  reserve, settle, reverse, assert_outcome, allocate_msat, deallocate_msat, adjust_msat,
  set_credit_received, credit_received, credit_invoice, time_or,
}
use brollyzapper.Wallet.Keeps.{
  lifted-Inv, reserve-Inv, settle-Inv, allocate_msat-Inv, deallocate_msat-Inv, adjust_msat-Inv,
  credit_with-Inv, create_invoice-Inv,
}

-- A step: a call with its arguments.
pub data Op : Type 0 where
  reserve_op : SpendReservation → Op
  settle_op : ℕ → ℤ → String → String → Op
  reverse_op : ℕ → Op
  assert_op : ℕ → Bool → Op
  allocate_op deallocate_op adjust_op : ℤ → String → Op
  credit_op : String → String → ℤ → Option Time → Op
  create_invoice_op : NewInvoice → Op
  expire_op : Op
  dispatch_op undispatch_op attempt_op attempts_cleared_op : ℕ → Op
  name_op : ℕ → String → Op
  shortfall_op : Deficit → Op
  shortfall_cleared_op : Op
  set_credit_op : Bool → Op
  set_op : String → String → Op

-- The tables after a step, whatever it answers. `started_at` is when the process started.
abbrev pub perform : Codec → Time → Op → Time → Db → Db
perform c s (reserve_op req) now db = (reserve c s req now db).1
perform c s (settle_op i fee preimage note) now db = (settle i fee preimage note now db).1
perform c s (reverse_op i) now db = (reverse i now db).1
perform c s (assert_op i w) now db = (assert_outcome i w now db).1
perform c s (allocate_op a note) now db = (allocate_msat a note now db).1
perform c s (deallocate_op a note) now db = (deallocate_msat a note now db).1
perform c s (adjust_op a note) now db = (adjust_msat a note now db).1
perform c s (credit_op h p a at) now db = (credit_invoice c h p a at now db).1
perform c s (create_invoice_op inv) now db = (create_invoice inv db).1
perform c s expire_op now db = (expire_invoices now db).1
perform c s (dispatch_op i) now db = (mark_spend_dispatched i now db).1
perform c s (undispatch_op i) now db = clear_spend_dispatched i db
perform c s (attempt_op i) now db = (note_resolve_attempt i db).1
perform c s (attempts_cleared_op i) now db = clear_resolve_attempts i db
perform c s (name_op i why) now db = mark_payment_unresolvable i why db
perform c s (shortfall_op d) now db = record_shortfall c d db
perform c s shortfall_cleared_op now db = clear_shortfall db
perform c s (set_credit_op b) now db = set_credit_received c b db
perform c s (set_op k v) now db = set_setting k v db

-- The steps in order, each with the time at which it runs.
abbrev pub run : Codec → Time → List (Op × Time) → Db → Db
run c s [] db = db
run c s ((o, now) ∷ os) db = run c s os (perform c s o now db)

-- The fee that the node reports is an int64.
abbrev pub IsTyped : Op → Type 0
IsTyped (settle_op i fee preimage note) = Fits fee
IsTyped _ = Unit

-- The tables of a new wallet with these connections.
abbrev pub new_db : List ℕ → Db
new_db cs = record { txns = []; entries = []; invoices = []; connections = cs; settings = [] }

new_db-Inv : (cs : List ℕ) → Inv (new_db cs)
new_db-Inv cs = record { bounded = tt; ordered = tt; refs = tt; books = tt }

-- One step keeps the ledger's invariant.
pub perform-Inv :
    (c : Codec) (s : Time) (o : Op) (now : Time) (db : Db)
    → IsTyped o
    → Inv db
    → Inv (perform c s o now db)
unfolding reverse assert_outcome credit_invoice expire_invoices record_shortfall clear_shortfall
    set_credit_received
perform-Inv c s (reserve_op req) now db h inv = reserve-Inv c s req now db inv
perform-Inv c s (settle_op i fee p n) now db h inv = settle-Inv i fee p n now db h inv
perform-Inv c s (reverse_op i) now db h inv =
    lifted-Inv (reverse_spend i now db) (reverse_spend-Inv i now db inv)
perform-Inv c s (assert_op i w) now db h inv =
    lifted-Inv (assert_payment_outcome i w now db) (assert_payment_outcome-Inv i w now db inv)
perform-Inv c s (allocate_op a note) now db h inv = allocate_msat-Inv a note now db inv
perform-Inv c s (deallocate_op a note) now db h inv = deallocate_msat-Inv a note now db inv
perform-Inv c s (adjust_op a note) now db h inv = adjust_msat-Inv a note now db inv
perform-Inv c s (credit_op hash p a at) now db h inv =
    credit_with-Inv (credit_received c db) hash p a (time_or now at) db inv
perform-Inv c s (create_invoice_op v) now db h inv = create_invoice-Inv v db inv
perform-Inv c s expire_op now db h inv = other_tables-Inv db _ db.settings inv
perform-Inv c s (dispatch_op i) now db h inv = mark_spend_dispatched-Inv i now db inv
perform-Inv c s (undispatch_op i) now db h inv = clear_spend_dispatched-Inv i db inv
perform-Inv c s (attempt_op i) now db h inv = note_resolve_attempt-Inv i db inv
perform-Inv c s (attempts_cleared_op i) now db h inv = clear_resolve_attempts-Inv i db inv
perform-Inv c s (name_op i why) now db h inv = mark_payment_unresolvable-Inv i why db inv
perform-Inv c s (shortfall_op d) now db h inv = set_setting-Inv _ _ db inv
perform-Inv c s shortfall_cleared_op now db h inv = set_setting-Inv _ _ db inv
perform-Inv c s (set_credit_op b) now db h inv = set_setting-Inv _ _ db inv
perform-Inv c s (set_op k v) now db h inv = set_setting-Inv k v db inv

run-keeps :
    (c : Codec) (s : Time) (os : List (Op × Time)) (db : Db)
    → All (λ (o : Op × Time). IsTyped o.0) os
    → Inv db
    → Inv (run c s os db)
run-keeps c s [] db h inv = inv
run-keeps c s ((o, now) ∷ os) db h inv =
    run-keeps c s os (perform c s o now db) h.1 (perform-Inv c s o now db h.0 inv)

-- Whatever the wallet, the resolver, the invoices and the settings do to a new database, in any
-- order and at any times, with int64 fees, its ledger's invariant holds after it: every row's
-- entries come to what its kind and state say.
pub run-Inv :
    (c : Codec) (s : Time) (os : List (Op × Time)) (cs : List ℕ)
    → All (λ (o : Op × Time). IsTyped o.0) os
    → Inv (run c s os (new_db cs))
run-Inv c s os cs h = run-keeps c s os (new_db cs) h (new_db-Inv cs)

-- After any list of steps from a new database, in any order and at any times, with int64 fees, the
-- balance can be read, and it lies between 0 and the 21 million coins there are: no history
-- overdraws it, and no sum overflows.
pub run_solvent :
    (c : Codec) (s : Time) (os : List (Op × Time)) (cs : List ℕ)
    → All (λ (o : Op × Time). IsTyped o.0) os
    → (b : ℤ) × (balance_msat (run c s os (new_db cs)) ≡ Tx.ok (b, run c s os (new_db cs)))
      × (pos 0 ≤ℤ b)
      × (b ≤ℤ pos max_msat)
unfolding balance_msat
run_solvent c s os cs h =
    let db = run c s os (new_db cs) in
    let inv = run-Inv c s os cs h in
    let bounds = total-bounds db.entries inv.bounded in
    (
      total db.entries,
      rw (sum_entries-eq-total db.entries inv.bounded, balance_msat) refl,
      bounds.0,
      bounds.1,
    )
