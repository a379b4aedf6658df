-- ===== src/Tests/Payments.antt =====
-- The results on payments and the resolver.
use brollyzapper.Base.{
  ℕ, ◌≡◌, refl, true, false, none, some, is_some, List, [], ◌∷◌, arith, find_first,
}
use brollyzapper.Base.Int.{pos, ◌+ℤ◌, neg_ℤ}
use brollyzapper.Store.Rows.{Time, Txn, Db}
use brollyzapper.Store.Ledger.Sums.{total}
use brollyzapper.Store.Ledger.Close.{is_out_with_id, mark_failed}
use brollyzapper.Base.Int64.{add64, wrap64, neg64}
use brollyzapper.Store.Settings.{setting}
use brollyzapper.Store.Ledger.Reserve.{reserve_spend}
use brollyzapper.Store.Ledger.Marks.{
  is_pending_out_with_id, has_unresolved_payments_before, mark_spend_dispatched,
}
use brollyzapper.Wallet.Freeze.{shortfall}
use brollyzapper.Wallet.Spender.{reserve}
use brollyzapper.Store.Ledger.Invariant.{Inv}
use brollyzapper.Store.Ledger.Closing.{Pending}
use brollyzapper.Store.Ledger.Once.{IsClosed, failed-IsClosed}
use brollyzapper.Lnd.Payments.{
  PaymentResult, failed, coded, unavailable, context_ended, code_not_found, not_sent,
  payment_not_found, rpc, errored, opened, Router, send_payment, track_payment,
}
use brollyzapper.Payments.Closing.{Env, already_closed}
use brollyzapper.Payments.Pay.{Payment, not_taken_on, pay_invoice}
use brollyzapper.Payments.Resolve.{
  World, scan, unclosed, resolve_outcome, resolve_one, resolve_row, resolve_pending_payments,
}
use brollyzapper.Payments.Keeps.{resolve_pending_payments-Inv}
use brollyzapper.Payments.Unsure.{IsLeft, resolve_one_unsure}
use brollyzapper.Payments.Named.{passes, passes_name}
use brollyzapper.Payments.Stale.{IsResolved, resolve_one_stale, resolve_one_stale_unmarked}
use brollyzapper.Payments.Recovery.{pay_invoice_returns}
use brollyzapper.Tests.Fixtures.{
  noon, codec, funded, funded-Inv, under_way, under_way-Inv, paying, request,
}

abbrev pub env : Env
env = record {
  codec = codec;
  decode_hex = λ s. some s;
  excess_note = λ i fee. "the fee was more than its reserve";
  started_at = noon;
}

abbrev payment : Payment
payment = record { bolt11 = "lnbc2"; reservation = request }

-- A node that cannot be reached, one that has no record of anything, and one that has failed a payment.
abbrev pub away : Router
away = record {
  connection = some (coded unavailable);
  send_stream = λ b f. opened (record { updates = []; ends = none });
  track_stream = λ h. opened (record { updates = []; ends = none });
  outlasts = λ h. false;
}

abbrev blank : Router
blank = record away {
  connection = none;
  track_stream = λ h. opened (record { updates = []; ends = some (coded code_not_found) });
  outlasts = λ h. false;
}

abbrev failure : PaymentResult
failure = record { status = failed; fee_msat = pos 0; preimage = "" }

abbrev decided : Router
decided = record away {
  connection = none;
  track_stream = λ h. opened (record { updates = failure ∷ []; ends = none });
  outlasts = λ h. false;
}

abbrev world : World
world = record { db = under_way; budgets = [] }

resolve_pending_payments-Inv_example : Inv (resolve_pending_payments env noon away noon world).1.db
unfolding track_payment
resolve_pending_payments-Inv_example =
    resolve_pending_payments-Inv env noon away noon world (λ hash. tt) under_way-Inv

resolve_one_unsure_example : IsLeft world (resolve_one env noon away (scan paying) world)
unfolding track_payment
resolve_one_unsure_example =
    resolve_one_unsure env noon away (scan paying) world "p1" (rpc (coded unavailable)) refl refl
      refl tt

abbrev five : List (Time × Router)
five = (noon, away) ∷ (noon, away) ∷ (noon, away) ∷ (noon, away) ∷ (noon, away) ∷ []

-- A node that answers nothing, so that the deadline of each pass ends the query: no pass is counted.
abbrev silent : Router
silent = record away {
  connection = none;
  track_stream = λ h. opened (record { updates = []; ends = some context_ended });
  outlasts = λ h. true;
}

silent_uncounted : passes env (scan paying) ((noon, silent) ∷ (noon, silent) ∷ []) world ≡ world
unfolding resolve_row
silent_uncounted = refl

passes_name_example :
    (t' : Txn) × (find_first
        (is_pending_out_with_id 2)
        (passes env (scan paying) five world).db.txns
      ≡ some t')
    × (is_some t'.unresolvable_reason ≡ true)
unfolding track_payment
passes_name_example =
    passes_name env (scan paying) "p1" five world paying refl refl
      (refl, tt, (refl, tt, (refl, tt, (refl, tt, (refl, tt, tt))))) (omega arith) refl

-- The payment under way has failed meanwhile.
abbrev ended : World
ended = record world { db = record under_way { txns = mark_failed paying ∷ [] } }

ended-IsClosed : IsClosed 2 ended.db
ended-IsClosed = failed-IsClosed 2 paying ended.db refl

resolve_one_stale_example : IsResolved ended (resolve_one env noon decided (scan paying) ended)
unfolding track_payment
resolve_one_stale_example =
    resolve_one_stale env noon decided (scan paying) ended "p1" failure refl refl refl (omega arith)
      ended-IsClosed

resolve_one_stale_unmarked_example :
    resolve_one env noon blank (scan paying) ended ≡ (some (unclosed already_closed), ended)
unfolding track_payment
resolve_one_stale_unmarked_example =
    resolve_one_stale_unmarked env noon blank (scan paying) ended "p1" refl refl refl refl
      ended-IsClosed

not_taken :
    pay_invoice env noon away payment funded
    ≡ (not_taken_on (not_sent (coded unavailable)), (pay_invoice env noon away payment funded).1)
unfolding pay_invoice send_payment reserve shortfall setting has_unresolved_payments_before
    reserve_spend add64 wrap64 ◌+ℤ◌ neg64 neg_ℤ mark_spend_dispatched
not_taken = refl

pay_invoice_returns_example :
    (i : ℕ) × (t : Txn) × (db'' : Db) × Pending i (pay_invoice env noon away payment funded).1 t
    × (resolve_outcome env noon
          (scan t)
          (errored payment_not_found)
          (record { db = (pay_invoice env noon away payment funded).1; budgets = [] })
        ≡ (none, record { db = db''; budgets = [] }))
    × (find_first (is_out_with_id i) db''.txns ≡ some (mark_failed t))
    × (total db''.entries ≡ total funded.entries)
unfolding send_payment
pay_invoice_returns_example =
    pay_invoice_returns env noon noon away payment (not_sent (coded unavailable)) funded
      (pay_invoice env noon away payment funded).1 [] tt funded-Inv not_taken
