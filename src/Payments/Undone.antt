-- ===== src/Payments/Undone.antt =====
-- The steps of a payment that the node did not take on, and the row that they leave.
use brollyzapper.Base.{
  ℕ, ◌==◌, ◌≡◌, refl, sym, ap, ◌∙◌, Bool, true, false, Option, none, some, List, ◌∷◌, arith,
  if◌then◌else◌, find_first, update_where,
}
use brollyzapper.Base.Int.{◌+ℤ◌, neg_ℤ}
use brollyzapper.Store.Rows.{Time, pending, payment_out, Txn, Db}
use brollyzapper.Store.Tx as Tx
use brollyzapper.Store.Tx.{in_tx-inv}
use brollyzapper.Store.Ledger.Append.{push_entry, new_txn}
use brollyzapper.Store.Ledger.Sums.{total}
use brollyzapper.Store.Ledger.Reserve.{SpendReservation, reserve_spend, reserve_body}
use brollyzapper.Store.Ledger.Close.{is_out_with_id}
use brollyzapper.Store.Ledger.Marks.{
  is_pending_out_with_id, is_unmarked, set_dispatched, update_rows, mark_spend_dispatched,
  clear_spend_dispatched,
}
use brollyzapper.Store.Ledger.Invariant.{Inv}
use brollyzapper.Store.Ledger.Safety.{Reserved, reserved_txn, reserve_body-ok}
use brollyzapper.Store.Ledger.Effects.{total-push}
use brollyzapper.Store.Ledger.Marking.{mark_outcome}
use brollyzapper.Wallet.Codec.{Codec, Refusal, Answer, ok, err}
use brollyzapper.Wallet.Spender.{lift, refuses, reserve_unless, reserve}
use brollyzapper.Lnd.Payments.{LndError, Outcome, answered, errored, Router}
use brollyzapper.Payments.Closing.{Env}
use brollyzapper.Payments.Pay.{
  Payment, not_taken_on, after_error, after_send, send_marked, send_reserved,
}
use brollyzapper.Payments.Unsure.{find-update_where}

-- What the payment has been through.
pub record Steps (q : Answer ℕ × Db) (now : Time) (db' : Db) : Type 0 where
  pub id : ℕ
  pub after_reserve : Db
  pub accepted : q ≡ (ok id, after_reserve)
  pub cleared : db' ≡ clear_spend_dispatched id (mark_spend_dispatched id now after_reserve).1

error_steps :
    (b : Bool) (e e' : LndError) (i : ℕ) (db db' : Db)
    → after_error b e i db ≡ (not_taken_on e', db')
    → db' ≡ clear_spend_dispatched i db
error_steps true e e' i db db' h = ground arith
error_steps false e e' i db db' h = absurd (ground arith)

send_steps :
    (env : Env) (now : Time) (node : Router) (p : Payment) (i : ℕ) (o : Outcome) (e : LndError)
    (db db' : Db)
    → after_send env now node p i o db ≡ (not_taken_on e, db')
    → db' ≡ clear_spend_dispatched i db
unfolding after_send
send_steps env now node p i (errored e') e db db' h = error_steps _ e' e i db db' h
send_steps env now node p i (answered r) e db db' h = absurd (ground arith)

mark_steps :
    (env : Env) (now : Time) (node : Router) (p : Payment) (i : ℕ) (q : Tx.Result (Unit {0}) × Db)
    (e : LndError) (db' : Db)
    → send_marked env now node p i q ≡ (not_taken_on e, db')
    → db' ≡ clear_spend_dispatched i q.1
unfolding after_send
mark_steps env now node p i (Tx.err e', db) e db' h = absurd (ground arith)
mark_steps env now node p i (Tx.ok u, db) e db' h = send_steps env now node p i _ e db db' h

pub pay-Steps :
    (env : Env) (now : Time) (node : Router) (p : Payment) (q : Answer ℕ × Db) (e : LndError)
    (db' : Db)
    → send_reserved env now node p q ≡ (not_taken_on e, db')
    → Steps q now db'
unfolding after_send
pay-Steps env now node p (err e', db) e db' h = absurd (ground arith)
pay-Steps env now node p (ok i, db) e db' h = record {
  id = i;
  after_reserve = db;
  accepted = refl;
  cleared = mark_steps env now node p i (mark_spend_dispatched i now db) e db' h;
}

lift_accepted :
    (q : Tx.Result ℕ × Db) (i : ℕ) (db' : Db) → lift q ≡ (ok i, db') → q ≡ (Tx.ok i, db')
lift_accepted (Tx.ok j, db) i db' h = ground arith
lift_accepted (Tx.err e, db) i db' h = absurd (ground arith)

reserve_accepted :
    (o : Option Refusal) (req : SpendReservation) (now : Time) (db db' : Db) (i : ℕ)
    → reserve_unless o req now db ≡ (ok i, db')
    → reserve_spend req now db ≡ (Tx.ok i, db')
unfolding reserve_unless
reserve_accepted (some e) req now db db' i h = absurd (ground arith)
reserve_accepted none req now db db' i h = lift_accepted (reserve_spend req now db) i db' h

pub reserved :
    (c : Codec) (started : Time) (req : SpendReservation) (now : Time) (db db' : Db) (i : ℕ)
    → Inv db
    → reserve c started req now db ≡ (ok i, db')
    → Reserved req now db i db'
unfolding reserve reserve_spend
reserved c started req now db db' i inv h = reserve_body-ok req now db db' i inv.bounded (
    in_tx-inv (reserve_body req now) db db' i
      (reserve_accepted (refuses c started req now db) req now db db' i h))

-- The row of the reservation, as it was written, marked and cleared again.
pub record Restored (i : ℕ) (req : SpendReservation) (db db' : Db) : Type 0 where
  pub row : Txn
  pub found : find_first (is_out_with_id i) db'.txns ≡ some row
  pub is_out : row.kind ≡ payment_out
  pub is_waiting : row.state ≡ pending
  pub undispatched : row.dispatched_at ≡ none
  pub amount : row.amount_msat ≡ req.amount_msat
  pub fee : row.fee_reserved_msat ≡ req.max_fee_msat
  pub own : row.id ≡ i
  pub debited : total db'.entries ≡ total db.entries +ℤ neg_ℤ (req.amount_msat +ℤ req.max_fee_msat)

same_number : (i : ℕ) → (i == i) ≡ true
same_number i = ground arith

marked : ℕ → Time → Txn → Txn
marked i now t = if is_unmarked i t then set_dispatched now t else t

cleared_mark : ℕ → Txn → Txn
cleared_mark i t = if is_pending_out_with_id i t then record t { dispatched_at = none } else t

mark_entries :
    (i : ℕ) (now : Time) (db : Db)
    → (clear_spend_dispatched i (mark_spend_dispatched i now db).1).entries ≡ db.entries
unfolding clear_spend_dispatched update_rows
mark_entries i now db = ap (λ (d : Db). d.entries) (mark_outcome i now db)

found_marked :
    (i : ℕ) (now : Time) (db : Db) (t : Txn)
    → find_first (is_out_with_id i) db.txns ≡ some t
    → find_first
        (is_out_with_id i)
        (clear_spend_dispatched i (mark_spend_dispatched i now db).1).txns
      ≡ some (cleared_mark i (marked i now t))
unfolding clear_spend_dispatched update_rows marked cleared_mark
found_marked i now db t h = rw (mark_outcome i now db) (
    find-update_where (is_out_with_id i) (is_pending_out_with_id i)
      (λ u. record u { dispatched_at = none })
      (update_where (is_unmarked i) (set_dispatched now) db.txns) (marked i now t) (λ u. refl)
      (find-update_where (is_out_with_id i) (is_unmarked i) (set_dispatched now) db.txns t
        (λ u. refl) h))

find_head :
    (i : ℕ) (t : Txn) (ts : List Txn)
    → t.id ≡ i
    → t.kind ≡ payment_out
    → find_first (is_out_with_id i) (t ∷ ts) ≡ some t
find_head i t ts own out = ground arith

written_txns :
    (req : SpendReservation) (now : Time) (db db₁ : Db) (i : ℕ)
    → Reserved req now db i db₁
    → db₁.txns ≡ reserved_txn req now db ∷ db.txns
unfolding push_entry
written_txns req now db db₁ i r = ap (λ (d : Db). d.txns) r.written

pub restored :
    (req : SpendReservation) (now : Time) (db db₁ : Db) (i : ℕ)
    → Reserved req now db i db₁
    → Restored i req db (clear_spend_dispatched i (mark_spend_dispatched i now db₁).1)
unfolding marked cleared_mark new_txn
restored req now db db₁ i r =
    let t = reserved_txn req now db in
    let own : t.id ≡ i = sym r.fresh in
    let head : find_first (is_out_with_id i) db₁.txns ≡ some t =
      rw (written_txns req now db db₁ i r) (find_head i t db.txns own refl) in
    record {
      row = cleared_mark i (marked i now t);
      found = found_marked i now db₁ t head;
      is_out = ground (arith, own);
      is_waiting = ground (arith, own);
      undispatched = ground (arith, own);
      amount = ground (arith, own);
      fee = ground (arith, own);
      own = ground (arith, own);
      debited = ap total (mark_entries i now db₁) ∙ rw r.written (total-push _ _ _ _ _);
    }
