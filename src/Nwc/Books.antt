-- ===== src/Nwc/Books.antt =====
-- The books through a request to pay.
use brollyzapper.Base.{ℕ, true, false, List, String, if-both}
use brollyzapper.Base.Int.{ℤ, ltb_ℤ, eqb_ℤ, pos}
use brollyzapper.Store.Rows.{Time, Db}
use brollyzapper.Store.Tx as Tx
use brollyzapper.Store.Ledger.Append.{balance_msat}
use brollyzapper.Store.Ledger.Invariant.{Inv}
use brollyzapper.Nwc.Budget.{
  Connection, BudgetOutcome, budget_taken, budget_refused, budget_connection_gone,
  budget_correction,
}
use brollyzapper.Nwc.Ladder.{
  Gate, stop, pass, Response, Limits, Params, Spend, Cleared, total_of, PayResult,
  nothing_dispatched, unresolved, refused_by_route, went_through, finish, payment_of, send_cleared,
  with_balance, with_budget, pay_cleared, after_gates, gates, nwc_pay_invoice,
}
use brollyzapper.Lnd.Payments.{Router, send_payment}
use brollyzapper.Payments.Closing.{Env}
use brollyzapper.Payments.Keeps.{HasFee, pay_invoice-Inv}
use brollyzapper.Payments.Resolve.{World}

finish-Inv :
    (i : ℕ) (c : Cleared) (res : PayResult) (w : World) → Inv w.db → Inv (finish i c res w).1.db
unfolding finish
finish-Inv i c (nothing_dispatched code) w inv = inv
finish-Inv i c unresolved w inv = inv
finish-Inv i c refused_by_route w inv = inv
finish-Inv i c (went_through p fee false) w inv =
    if-both (λ (x : World). Inv x.db)
      (eqb_ℤ (budget_correction true c.amount c.max_fee_msat fee) (pos 0)) (λ _. inv) (λ _. inv)
finish-Inv i c (went_through p fee true) w inv = inv

-- The node's fees are int64s, whatever the invoice and the limit.
abbrev pub HasSendFees : Router → Type 0
HasSendFees node = (bolt11 : String) (fee_limit : ℤ) → HasFee (send_payment node bolt11 fee_limit)

send_cleared-Inv :
    (env : Env) (now : Time) (node : Router) (s : Spend) (limits : Limits) (params : Params)
    (c : Cleared) (w : World)
    → HasSendFees node
    → Inv w.db
    → Inv (send_cleared env now node s limits params c w).1.db
unfolding send_cleared
send_cleared-Inv env now node s limits params c w f inv = finish-Inv limits.id c _ _ (
    pay_invoice-Inv env now node (payment_of s limits params c) w.db
      (f params.invoice c.max_fee_msat) inv)

balance-Inv :
    (env : Env) (now : Time) (node : Router) (s : Spend) (limits : Limits) (params : Params)
    (c : Cleared) (q : Tx.Result (ℤ × Db)) (w : World)
    → HasSendFees node
    → Inv w.db
    → Inv (with_balance env now node s limits params c q w).1.db
balance-Inv env now node s limits params c (Tx.err e) w f inv = inv
balance-Inv env now node s limits params c (Tx.ok (balance, db)) w f inv =
    if-both (λ (x : Response × World). Inv x.1.db) (ltb_ℤ balance (total_of c)) (λ _. inv)
      (λ _. send_cleared-Inv env now node s limits params c w f inv)

budget-Inv :
    (env : Env) (now : Time) (node : Router) (s : Spend) (limits : Limits) (params : Params)
    (c : Cleared) (q : BudgetOutcome × List Connection) (w : World)
    → HasSendFees node
    → Inv w.db
    → Inv (with_budget env now node s limits params c q w).1.db
budget-Inv env now node s limits params c (budget_refused, cs) w f inv = inv
budget-Inv env now node s limits params c (budget_connection_gone, cs) w f inv = inv
budget-Inv env now node s limits params c (budget_taken, cs) w f inv =
    balance-Inv env now node s limits params c (balance_msat w.db) (record w { budgets = cs }) f inv

gated-Inv :
    (env : Env) (now : Time) (node : Router) (s : Spend) (limits : Limits) (params : Params)
    (g : Gate Cleared) (w : World)
    → HasSendFees node
    → Inv w.db
    → Inv (after_gates env now node s limits params g w).1.db
unfolding pay_cleared
gated-Inv env now node s limits params (stop code) w f inv = inv
gated-Inv env now node s limits params (pass c) w f inv =
    budget-Inv env now node s limits params c _ w f inv

-- Whatever a paired app asks for, and whatever the node does with it at fees of an int64, a request to
-- pay leaves books that hold.
pub nwc_pay_invoice-Inv :
    (env : Env) (now : Time) (node : Router) (s : Spend) (limits : Limits) (params : Params)
    (w : World)
    → HasSendFees node
    → Inv w.db
    → Inv (nwc_pay_invoice env now node s limits params w).1.db
unfolding nwc_pay_invoice
nwc_pay_invoice-Inv env now node s limits params w f inv =
    gated-Inv env now node s limits params (gates env s limits params now w.db) w f inv
