-- ===== src/Payments/Recovery.antt =====
-- A payment that the node did not take on, and the pass that gives its reserve back.
use brollyzapper.Base.{ℕ, ◌≡◌, refl, sym, subst, ◌∙◌, false, none, some, List, find_first}
use brollyzapper.Base.Int.{ℤ, pos, ◌+ℤ◌, neg_ℤ, ◌≤ℤ◌, int_laws}
use brollyzapper.Store.Rows.{Time, Txn, Db}
use brollyzapper.Store.Tx as Tx
use brollyzapper.Store.Tx.{in_tx-inv}
use brollyzapper.Store.Ledger.Append.{max_msat}
use brollyzapper.Store.Ledger.Sums.{total, total-bounds}
use brollyzapper.Store.Ledger.Reserve.{SpendReservation}
use brollyzapper.Store.Ledger.Close.{is_out_with_id, mark_failed, reverse_spend}
use brollyzapper.Store.Ledger.Invariant.{Inv}
use brollyzapper.Store.Ledger.Closing.{Pending}
use brollyzapper.Store.Ledger.Effects.{reverse_spend_refunds}
use brollyzapper.Wallet.Codec.{ok}
use brollyzapper.Wallet.Spender.{reserve, reverse}
use brollyzapper.Nwc.Budget.{Connection}
use brollyzapper.Lnd.Payments.{LndError, payment_not_found, errored, Router, send_payment}
use brollyzapper.Payments.Closing.{Env}
use brollyzapper.Payments.Pay.{Payment, Paid, not_taken_on, pay_invoice}
use brollyzapper.Payments.Resolve.{PendingPayment, scan, World, resolve_outcome}
use brollyzapper.Payments.Keeps.{pay_invoice-Inv, HasFee}
use brollyzapper.Payments.Undone.{pay-Steps, reserved, Restored, restored}

row-Pending :
    (i : ℕ) (req : SpendReservation) (db db' : Db) (s : Restored i req db db') → Pending i db' s.row
row-Pending i req db db' s = record {
  found = s.found;
  is_out = s.is_out;
  is_waiting = s.is_waiting;
}

back : (b a f : ℤ) → (b +ℤ neg_ℤ (a +ℤ f)) +ℤ (a +ℤ f) ≡ b
back b a f = omega int_laws

-- The balance once the reserve is given back.
returned :
    (i : ℕ) (req : SpendReservation) (db db' : Db) (s : Restored i req db db')
    → total db'.entries +ℤ (s.row.amount_msat +ℤ s.row.fee_reserved_msat) ≡ total db.entries
returned i req db db' s =
    rw s.amount (rw s.fee (rw s.debited (back (total db.entries) req.amount_msat req.max_fee_msat)))

undispatched_scan : (t : Txn) → t.dispatched_at ≡ none → (scan t).dispatched ≡ false
undispatched_scan t h = rw h refl

reverse_accepted :
    (i : ℕ) (now : Time) (db db' : Db)
    → reverse_spend i now db ≡ (Tx.ok tt, db')
    → reverse i now db ≡ (ok tt, db')
unfolding reverse
reverse_accepted i now db db' h = rw h refl

arm_accepted :
    (env : Env) (later : Time) (row : PendingPayment) (w : World) (db' : Db)
    → row.dispatched ≡ false
    → reverse row.id later w.db ≡ (ok tt, db')
    → resolve_outcome env later row (errored payment_not_found) w ≡ (none, record w { db = db' })
unfolding resolve_outcome
arm_accepted env later row w db' e h = rw e (rw h refl)

-- In books that hold: a payment that the node did not take on leaves its row pending, undispatched and
-- debited. When the resolver then reads that row, and the node has no record of the payment, the pass
-- counts it as resolved: the row has failed, and the balance is what it was before the payment.
pub pay_invoice_returns :
    (env : Env) (now later : Time) (node : Router) (p : Payment) (e : LndError) (db db' : Db)
    (budgets : List Connection)
    → HasFee (send_payment node p.bolt11 p.reservation.max_fee_msat)
    → Inv db
    → pay_invoice env now node p db ≡ (not_taken_on e, db')
    → (i : ℕ) × (t : Txn) × (db'' : Db) × Pending i db' t
      × (resolve_outcome env later
            (scan t)
            (errored payment_not_found)
            (record { db = db'; budgets = budgets })
          ≡ (none, record { db = db''; budgets = budgets }))
      × (find_first (is_out_with_id i) db''.txns ≡ some (mark_failed t))
      × (total db''.entries ≡ total db.entries)
unfolding pay_invoice
pay_invoice_returns env now later node p e db db' budgets fees inv h =
    let q = reserve env.codec env.started_at p.reservation now db in
    let steps = pay-Steps env now node p q e db' h in
    let r =
      reserved env.codec env.started_at p.reservation now db steps.after_reserve steps.id inv
        steps.accepted in
    let s =
      subst (Restored steps.id p.reservation db) (sym steps.cleared)
        (restored p.reservation now db steps.after_reserve steps.id r) in
    let kept = subst (λ (x : Paid × Db). Inv x.1) h (pay_invoice-Inv env now node p db fees inv) in
    let waiting = row-Pending steps.id p.reservation db db' s in
    let back_to = returned steps.id p.reservation db db' s in
    let room =
      subst (λ (b : ℤ). b ≤ℤ pos max_msat) (sym back_to) (total-bounds db.entries inv.bounded).1 in
    let (db'', done, sum, failed) =
      reverse_spend_refunds steps.id later db' s.row kept waiting room in
    (
      steps.id,
      s.row,
      db'',
      waiting,
      arm_accepted env later (scan s.row) (record { db = db'; budgets = budgets }) db''
          (undispatched_scan s.row s.undispatched)
          (subst (λ (j : ℕ). reverse j later db' ≡ (ok tt, db'')) (sym s.own)
            (reverse_accepted steps.id later db' db'' done)),
      failed,
      sum ∙ back_to,
    )
