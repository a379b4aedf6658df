-- ===== src/Nwc/Settled.antt =====
-- What a request has passed, and what the node has said, when it is answered with a preimage.
use brollyzapper.Base.{ℕ, ◌≡◌, refl, Bool, true, false, String, List, arith, if-both}
use brollyzapper.Base.Int.{ℤ, ltb_ℤ}
use brollyzapper.Store.Rows.{Time, Db}
use brollyzapper.Store.Tx as Tx
use brollyzapper.Store.Ledger.Append.{balance_msat}
use brollyzapper.Store.Ledger.Marks.{mark_spend_dispatched}
use brollyzapper.Wallet.Codec as Wallet
use brollyzapper.Wallet.Codec.{Answer, Deficit}
use brollyzapper.Nwc.Budget.{
  Connection, BudgetOutcome, budget_taken, budget_refused, budget_connection_gone,
}
use brollyzapper.Nwc.Ladder.{
  Gate, stop, pass, Response, preimage_response, Limits, Params, Spend, Cleared, total_of,
  PayResult, nothing_dispatched, unresolved, refused_by_route, went_through, result_of,
  unbooked_result, nwc_pay, finish, payment_of, send_cleared, with_balance, with_budget,
  pay_cleared, after_gates, gates, nwc_pay_invoice,
}
use brollyzapper.Lnd.Payments.{
  PaymentResult, is_succeeded, Outcome, answered, errored, Router, send_payment,
}
use brollyzapper.Payments.Closing.{
  Env, Closing, closed, already_closed, non_terminal, booking_failed,
}
use brollyzapper.Payments.Pay.{
  Payment, Paid, not_dispatched, unmarked, not_taken_on, outcome_unknown, paid, is_nothing_sent,
  after_error, after_send, send_marked, send_reserved, pay_invoice,
}
use brollyzapper.Payments.Resolve.{World}
use brollyzapper.Nwc.Gates.{HasPassed, gates-HasPassed}

-- The node has said that the payment went through, with this preimage, at this fee.
pub record IsSent (node : Router) (bolt11 : String) (fee_limit : ℤ) (preimage : String) (fee : ℤ)
    : Type 0 where
  pub result : PaymentResult
  pub answer : send_payment node bolt11 fee_limit ≡ answered result
  pub success : is_succeeded result ≡ true
  pub same_preimage : result.preimage ≡ preimage
  pub same_fee : result.fee_msat ≡ fee

sent_result :
    (env : Env) (now : Time) (node : Router) (p : Payment) (i : ℕ) (o : Outcome) (db : Db)
    (r : PaymentResult) (c : Closing)
    → (after_send env now node p i o db).0 ≡ paid r c
    → o ≡ answered r
unfolding after_send
sent_result env now node p i (answered r') db r c h = ground arith
sent_result env now node p i (errored e) db r c h =
    absurd (cleared (is_nothing_sent env p.reservation.payment_hash node e) h)
  where
    cleared : (b : Bool) → (after_error b e i db).0 ≡ paid r c → ⊥
    cleared true k = ground arith
    cleared false k = ground arith

marked_result :
    (env : Env) (now : Time) (node : Router) (p : Payment) (i : ℕ) (q : Tx.Result (Unit {0}) × Db)
    (r : PaymentResult) (c : Closing)
    → (send_marked env now node p i q).0 ≡ paid r c
    → send_payment node p.bolt11 p.reservation.max_fee_msat ≡ answered r
unfolding after_send
marked_result env now node p i (Tx.err e, db) r c h = absurd (ground arith)
marked_result env now node p i (Tx.ok u, db) r c h = sent_result env now node p i _ db r c h

reserved_result :
    (env : Env) (now : Time) (node : Router) (p : Payment) (q : Answer ℕ × Db) (r : PaymentResult)
    (c : Closing)
    → (send_reserved env now node p q).0 ≡ paid r c
    → send_payment node p.bolt11 p.reservation.max_fee_msat ≡ answered r
unfolding after_send
reserved_result env now node p (Wallet.err e, db) r c h = absurd (ground arith)
reserved_result env now node p (Wallet.ok i, db) r c h =
    marked_result env now node p i (mark_spend_dispatched i now db) r c h

went :
    (r : PaymentResult) (p : String) (fee : ℤ) (b : Bool)
    → result_of r ≡ went_through p fee b
    → (is_succeeded r ≡ true) × (r.preimage ≡ p) × (r.fee_msat ≡ fee)
went r p fee b h = (ground arith, ground arith, ground arith)

went_unbooked :
    (r : PaymentResult) (p : String) (fee : ℤ) (b : Bool)
    → unbooked_result r ≡ went_through p fee b
    → (is_succeeded r ≡ true) × (r.preimage ≡ p) × (r.fee_msat ≡ fee)
went_unbooked r p fee b h = (ground arith, ground arith, ground arith)

pay_result :
    (x : Paid) (p : String) (fee : ℤ) (b : Bool)
    → nwc_pay x ≡ went_through p fee b
    → (r : PaymentResult) × (c : Closing) × (x ≡ paid r c)
      × (is_succeeded r ≡ true)
      × (r.preimage ≡ p)
      × (r.fee_msat ≡ fee)
unfolding nwc_pay
pay_result (not_dispatched e) p fee b h = absurd (ground arith)
pay_result (not_taken_on e) p fee b h = absurd (ground arith)
pay_result (unmarked e) p fee b h = absurd (ground arith)
pay_result (outcome_unknown e) p fee b h = absurd (ground arith)
pay_result (paid r (booking_failed e)) p fee b h =
    let (s, e', f) = went_unbooked r p fee b h in (r, booking_failed e, refl, s, e', f)
pay_result (paid r non_terminal) p fee b h = absurd (ground arith)
pay_result (paid r closed) p fee b h =
    let (s, e, f) = went r p fee b h in (r, closed, refl, s, e, f)
pay_result (paid r already_closed) p fee b h =
    let (s, e, f) = went r p fee b h in (r, already_closed, refl, s, e, f)

finish_result :
    (i : ℕ) (c : Cleared) (res : PayResult) (w : World) (p : String) (fee : ℤ)
    → (finish i c res w).0 ≡ preimage_response p fee
    → (b : Bool) × (res ≡ went_through p fee b)
unfolding finish
finish_result i c (nothing_dispatched code) w p fee h = absurd (ground arith)
finish_result i c unresolved w p fee h = absurd (ground arith)
finish_result i c refused_by_route w p fee h = absurd (ground arith)
finish_result i c (went_through q f true) w p fee h = (true, ground arith)
finish_result i c (went_through q f false) w p fee h = (false, ground arith)

-- An answer with a preimage goes with a payment that the node has sent.
abbrev IsHonest : Router → Params → Cleared → Response × World → Type 0
IsHonest node params c x =
    (p : String) (fee : ℤ)
    → x.0 ≡ preimage_response p fee
    → IsSent node params.invoice c.max_fee_msat p fee

send_cleared-IsHonest :
    (env : Env) (now : Time) (node : Router) (s : Spend) (limits : Limits) (params : Params)
    (c : Cleared) (w : World)
    → IsHonest node params c (send_cleared env now node s limits params c w)
unfolding send_cleared pay_invoice
send_cleared-IsHonest env now node s limits params c w p fee h =
    let (b, e) = finish_result limits.id c _ _ p fee h in
    let (r, closing, e', success, same_p, same_f) = pay_result _ p fee b e in
    record {
      result = r;
      answer = reserved_result env now node (payment_of s limits params c) _ r closing e';
      success = success;
      same_preimage = same_p;
      same_fee = same_f;
    }

balance-IsHonest :
    (env : Env) (now : Time) (node : Router) (s : Spend) (limits : Limits) (params : Params)
    (c : Cleared) (q : Tx.Result (ℤ × Db)) (w : World)
    → IsHonest node params c (with_balance env now node s limits params c q w)
balance-IsHonest env now node s limits params c (Tx.err e) w = λ p fee h. absurd (ground arith)
balance-IsHonest env now node s limits params c (Tx.ok (balance, db)) w =
    if-both (IsHonest node params c) (ltb_ℤ balance (total_of c))
      (λ _ p fee h. absurd (ground arith))
      (λ _. send_cleared-IsHonest env now node s limits params c w)

budget-IsHonest :
    (env : Env) (now : Time) (node : Router) (s : Spend) (limits : Limits) (params : Params)
    (c : Cleared) (q : BudgetOutcome × List Connection) (w : World)
    → IsHonest node params c (with_budget env now node s limits params c q w)
budget-IsHonest env now node s limits params c (budget_refused, cs) w =
    λ p fee h. absurd (ground arith)
budget-IsHonest env now node s limits params c (budget_connection_gone, cs) w =
    λ p fee h. absurd (ground arith)
budget-IsHonest env now node s limits params c (budget_taken, cs) w =
    balance-IsHonest env now node s limits params c (balance_msat w.db) (record w { budgets = cs })

gated :
    (env : Env) (now : Time) (node : Router) (s : Spend) (limits : Limits) (params : Params)
    (w : World) (p : String) (fee : ℤ) (g : Gate Cleared)
    → gates env s limits params now w.db ≡ g
    → (after_gates env now node s limits params g w).0 ≡ preimage_response p fee
    → (c : Cleared) × HasPassed env s limits params now w.db c
      × IsSent node params.invoice c.max_fee_msat p fee
unfolding pay_cleared
gated env now node s limits params w p fee (stop code) e h = absurd (ground arith)
gated env now node s limits params w p fee (pass c) e h = (
  c,
  gates-HasPassed env s limits params now w.db c e,
  budget-IsHonest env now node s limits params c _ w p fee h,
)

-- A request that is answered with a preimage has passed every gate at the tables and the clock it came
-- at: sending is on, with a credential, and nothing holds it; the node has read the invoice, which is in
-- time and somebody else's; what is paid is what the invoice or the request names, within the
-- connection's limit for one payment. And the node has said of this invoice, at the one fee limit, that
-- the payment went through with that preimage and that fee.
pub nwc_pay_invoice_settled :
    (env : Env) (now : Time) (node : Router) (s : Spend) (limits : Limits) (params : Params)
    (w : World) (p : String) (fee : ℤ)
    → (nwc_pay_invoice env now node s limits params w).0 ≡ preimage_response p fee
    → (c : Cleared) × HasPassed env s limits params now w.db c
      × IsSent node params.invoice c.max_fee_msat p fee
unfolding nwc_pay_invoice
nwc_pay_invoice_settled env now node s limits params w p fee h =
    gated env now node s limits params w p fee (gates env s limits params now w.db) refl h
