-- ===== src/Nwc/RouteFee.antt =====
-- A fee that the node reports is a fee of the answer.
use brollyzapper.Base.{ℕ, Bool, true, false, if-both}
use brollyzapper.Base.Int.{ℤ, pos, ◌≤ℤ◌}
use brollyzapper.Store.Rows.{Time, Db}
use brollyzapper.Store.Tx as Tx
use brollyzapper.Store.Ledger.Append.{max_msat}
use brollyzapper.Nwc.Ladder.{PayResult, went_through, result_of, nwc_pay}
use brollyzapper.Wallet.Codec.{Answer, ok, err}
use brollyzapper.Store.Ledger.Marks.{mark_spend_dispatched}
use brollyzapper.Lnd.Payments.{
  PaymentResult, is_succeeded, is_failed, Outcome, answered, errored, Router, send_payment,
}
use brollyzapper.Payments.Closing.{Env, closed, already_closed, non_terminal, booking_failed}
use brollyzapper.Payments.Pay.{
  Payment, Paid, not_dispatched, unmarked, not_taken_on, outcome_unknown, paid, is_nothing_sent,
  after_error, after_send, send_marked, send_reserved,
}

-- A fee that a route can have taken.
abbrev pub IsRouteFee : ℤ → Type 0
IsRouteFee fee = (pos 0 ≤ℤ fee) × (fee ≤ℤ pos max_msat)

abbrev pub HasFeeAs : PayResult → Type 0
HasFeeAs (went_through p fee b) = IsRouteFee fee
HasFeeAs _ = Unit

-- The node's route fee, where it reports one.
abbrev pub HasRouteFee : Outcome → Type 0
HasRouteFee (answered r) = IsRouteFee r.fee_msat
HasRouteFee (errored e) = Unit

abbrev PaidFee : Paid → Type 0
PaidFee (paid r c) = IsRouteFee r.fee_msat
PaidFee _ = Unit

sent-PaidFee :
    (env : Env) (now : Time) (node : Router) (p : Payment) (i : ℕ) (o : Outcome) (db : Db)
    → HasRouteFee o
    → PaidFee (after_send env now node p i o db).0
unfolding after_send
sent-PaidFee env now node p i (answered r) db f = f
sent-PaidFee env now node p i (errored e) db f =
    cleared (is_nothing_sent env p.reservation.payment_hash node e)
  where
    cleared : (b : Bool) → PaidFee (after_error b e i db).0
    cleared true = tt
    cleared false = tt

marked-PaidFee :
    (env : Env) (now : Time) (node : Router) (p : Payment) (i : ℕ) (q : Tx.Result (Unit {0}) × Db)
    → HasRouteFee (send_payment node p.bolt11 p.reservation.max_fee_msat)
    → PaidFee (send_marked env now node p i q).0
unfolding after_send
marked-PaidFee env now node p i (Tx.err e, db) f = tt
marked-PaidFee env now node p i (Tx.ok u, db) f = sent-PaidFee env now node p i _ db f

pub reserved-PaidFee :
    (env : Env) (now : Time) (node : Router) (p : Payment) (q : Answer ℕ × Db)
    → HasRouteFee (send_payment node p.bolt11 p.reservation.max_fee_msat)
    → PaidFee (send_reserved env now node p q).0
unfolding after_send
reserved-PaidFee env now node p (err e, db) f = tt
reserved-PaidFee env now node p (ok i, db) f =
    marked-PaidFee env now node p i (mark_spend_dispatched i now db) f

result-HasFeeAs : (r : PaymentResult) → IsRouteFee r.fee_msat → HasFeeAs (result_of r)
result-HasFeeAs r f =
    if-both HasFeeAs (is_failed r) (λ _. tt)
      (λ _. if-both HasFeeAs (is_succeeded r) (λ _. f) (λ _. tt))

pub nwc_pay-HasFeeAs : (p : Paid) → PaidFee p → HasFeeAs (nwc_pay p)
unfolding nwc_pay
nwc_pay-HasFeeAs (not_dispatched e) f = tt
nwc_pay-HasFeeAs (not_taken_on e) f = tt
nwc_pay-HasFeeAs (unmarked e) f = tt
nwc_pay-HasFeeAs (outcome_unknown e) f = tt
nwc_pay-HasFeeAs (paid r (booking_failed e)) f =
    if-both HasFeeAs (is_succeeded r) (λ _. f) (λ _. tt)
nwc_pay-HasFeeAs (paid r non_terminal) f = tt
nwc_pay-HasFeeAs (paid r closed) f = result-HasFeeAs r f
nwc_pay-HasFeeAs (paid r already_closed) f = result-HasFeeAs r f
