-- ===== src/Nwc/Ladder/Payout.antt =====
-- nwc/pay.go, `payInvoice` from the budget on, with `Pay` of the adapter in cmd/brollyzapper/nwc.go.
use brollyzapper.Base.{ℕ, Bool, true, false, List, String, if◌then◌else◌}
use brollyzapper.Base.Int.{ℤ, pos, ltb_ℤ, eqb_ℤ}
use brollyzapper.Store.Rows.{Time, Db}
use brollyzapper.Store.Tx as Tx
use brollyzapper.Store.Tx.{Error, insufficient_balance, payment_in_flight}
use brollyzapper.Store.Ledger.Append.{balance_msat}
use brollyzapper.Wallet.Codec.{Refusal, of_store}
use brollyzapper.Nwc.Budget.{
  Connection, BudgetOutcome, budget_refused, budget_taken, budget_connection_gone,
  reserve_nwc_budget, adjust_nwc_budget, budget_correction,
}
use brollyzapper.Lnd.Payments.{PaymentResult, is_succeeded, is_failed, Router}
use brollyzapper.Payments.Closing.{Env, non_terminal, booking_failed}
use brollyzapper.Payments.Pay.{
  Payment, Paid, not_dispatched, unmarked, not_taken_on, outcome_unknown, paid, pay_invoice,
}
use brollyzapper.Payments.Resolve.{World}
use brollyzapper.Nwc.Ladder.Rungs.{
  Cleared, Code, Gate, Limits, Params, Response, Spend, gates, next_renewal, total_of,
  error_response, preimage_response, stop, pass, other, internal, restricted, quota_exceeded,
  unauthorized, insufficient, payment_failed,
}

-- `PayResult`, or one of the two kinds of error.
pub data PayResult : Type 0 where
  nothing_dispatched : Code → PayResult
  unresolved : PayResult
  refused_by_route : PayResult
  went_through : String → ℤ → Bool → PayResult

abbrev pub code_of : Refusal → Code
code_of (of_store insufficient_balance) = insufficient
code_of (of_store payment_in_flight) = other
code_of _ = restricted

abbrev pub result_of : PaymentResult → PayResult
result_of r =
    if is_failed r
    then refused_by_route
    else if is_succeeded r
    then went_through r.preimage r.fee_msat false
    else unresolved

-- A booking that failed is told apart from a payment that failed.
abbrev pub unbooked_result : PaymentResult → PayResult
unbooked_result r = if is_succeeded r then went_through r.preimage r.fee_msat true else unresolved

-- The adapter's `Pay`, from what `payInvoice` of payments.go returned.
unfoldable pub nwc_pay : Paid → PayResult
nwc_pay (not_dispatched e) = nothing_dispatched (code_of e)
nwc_pay (not_taken_on e) = nothing_dispatched payment_failed
nwc_pay (unmarked e) = unresolved
nwc_pay (outcome_unknown e) = unresolved
nwc_pay (paid r (booking_failed e)) = unbooked_result r
nwc_pay (paid r non_terminal) = unresolved
nwc_pay (paid r _) = result_of r

abbrev pub release : ℕ → Cleared → World → World
release i c w = record w {
  budgets = adjust_nwc_budget i (budget_correction false c.amount c.max_fee_msat (pos 0)) w.budgets;
}

abbrev pub true_up : ℕ → Cleared → ℤ → World → World
true_up i c fee w =
    if eqb_ℤ (budget_correction true c.amount c.max_fee_msat fee) (pos 0) then w else record w {
      budgets = adjust_nwc_budget i (budget_correction true c.amount c.max_fee_msat fee) w.budgets;
    }

unfoldable pub finish : ℕ → Cleared → PayResult → World → Response × World
finish i c (nothing_dispatched code) w = (error_response code, release i c w)
finish i c unresolved w = (error_response other, w)
finish i c refused_by_route w = (error_response payment_failed, release i c w)
finish i c (went_through preimage fee false) w = (preimage_response preimage fee, true_up i c fee w)
finish i c (went_through preimage fee true) w = (preimage_response preimage fee, w)

abbrev pub payment_of : Spend → Limits → Params → Cleared → Payment
payment_of s limits params c = record {
  bolt11 = params.invoice;
  reservation = record {
    amount_msat = c.amount;
    max_fee_msat = c.max_fee_msat;
    payment_hash = c.invoice.payment_hash;
    ref = s.payment_ref c.invoice;
    description = s.bounded_description c.invoice;
    metadata = s.outgoing_metadata c.invoice c.amount;
    description_hash = c.invoice.description_hash;
    nwc_connection_id = limits.id;
  };
}

unfoldable pub send_cleared :
    Env → Time → Router → Spend → Limits → Params → Cleared → World → Response × World
unfolding finish nwc_pay
send_cleared env now node s limits params c w =
    finish limits.id c (nwc_pay (pay_invoice env now node (payment_of s limits params c) w.db).0)
      (record w { db = (pay_invoice env now node (payment_of s limits params c) w.db).1 })

-- The local copy of the ledger's check, once the budget is taken.
abbrev pub with_balance :
    Env
    → Time
    → Router
    → Spend
    → Limits
    → Params
    → Cleared
    → Tx.Result (ℤ × Db)
    → World
    → Response × World
with_balance env now node s limits params c (Tx.err e) w =
    (error_response internal, release limits.id c w)
with_balance env now node s limits params c (Tx.ok (balance, db)) w =
    if ltb_ℤ balance (total_of c)
    then (error_response insufficient, release limits.id c w)
    else send_cleared env now node s limits params c w

abbrev pub with_budget :
    Env
    → Time
    → Router
    → Spend
    → Limits
    → Params
    → Cleared
    → BudgetOutcome × List Connection
    → World
    → Response × World
with_budget env now node s limits params c (budget_refused, cs) w =
    (error_response quota_exceeded, record w { budgets = cs })
with_budget env now node s limits params c (budget_connection_gone, cs) w =
    (error_response unauthorized, record w { budgets = cs })
with_budget env now node s limits params c (budget_taken, cs) w =
    with_balance env now node s limits params c (balance_msat w.db) (record w { budgets = cs })

unfoldable pub pay_cleared :
    Env → Time → Router → Spend → Limits → Params → Cleared → World → Response × World
unfolding send_cleared
pay_cleared env now node s limits params c w =
    with_budget env now node s limits params c
      (reserve_nwc_budget limits.id (total_of c) now (next_renewal s limits now) w.budgets) w

abbrev pub after_gates :
    Env → Time → Router → Spend → Limits → Params → Gate Cleared → World → Response × World
after_gates env now node s limits params (stop code) w = (error_response code, w)
after_gates env now node s limits params (pass c) w = pay_cleared env now node s limits params c w

unfoldable pub nwc_pay_invoice :
    Env → Time → Router → Spend → Limits → Params → World → Response × World
unfolding gates pay_cleared
nwc_pay_invoice env now node s limits params w =
    after_gates env now node s limits params (gates env s limits params now w.db) w
