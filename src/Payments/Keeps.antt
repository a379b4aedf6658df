-- ===== src/Payments/Keeps.antt =====
-- The books through a payment and through a pass of the resolver.
use brollyzapper.Base.{
  ◌||◌, ℕ, ◌≡◌, refl, Bool, true, false, Option, none, some, List, [], ◌∷◌, String, str_eq, arith,
  if-both,
}
use brollyzapper.Base.Int.{ℤ, pos, ◌≤ℤ◌, ltb_ℤ}
use brollyzapper.Base.Int64.{Fits}
use brollyzapper.Store.Rows.{Time, Db}
use brollyzapper.Store.Tx as Tx
use brollyzapper.Store.Ledger.Close.{settle_spend, reverse_spend}
use brollyzapper.Store.Ledger.Reserve.{SpendReservation, reserve_spend}
use brollyzapper.Store.Ledger.Marks.{mark_spend_dispatched, clear_resolve_attempts}
use brollyzapper.Store.Ledger.Invariant.{Inv}
use brollyzapper.Store.Ledger.Safety.{reserve_spend-Inv}
use brollyzapper.Store.Ledger.Closing.{reverse_spend-Inv}
use brollyzapper.Store.Ledger.Settling.{settle_spend-Inv}
use brollyzapper.Store.Ledger.Marking.{
  mark_spend_dispatched-Inv, clear_spend_dispatched-Inv, note_resolve_attempt-Inv,
  clear_resolve_attempts-Inv, mark_payment_unresolvable-Inv,
}
use brollyzapper.Wallet.Codec.{Codec, Refusal, Answer, ok, err}
use brollyzapper.Wallet.Spender.{lift, refuses, reserve_unless, reserve, settle, reverse}
use brollyzapper.Lnd.Payments.{
  PaymentResult, is_succeeded, is_failed, not_sent, payment_not_found, stream_ended, rpc, Outcome,
  answered, errored, Router, send_payment, track_payment,
}
use brollyzapper.Payments.Closing.{
  Env, Closing, closed, already_closed, non_terminal, booking_failed, close_reservation,
}
use brollyzapper.Payments.Pay.{
  Payment, is_nothing_sent, after_error, after_send, send_marked, send_reserved, pay_invoice,
}
use brollyzapper.Payments.Resolve.{
  PendingPayment, World, Unresolved, name, name_after, count_attempt, correct_connection_budget,
  not_found_arm, booked_arm, resolve_outcome, resolve_hash, resolve_one, resolve_row, row_outlasts,
  resolve_all, resolve_pending_payments, pending_payments_before, unasked_reason, unbooked_reason,
  no_record_reason, no_hash_reason, bad_hash_reason,
}

lift-db : {A : Type 0} (q : Tx.Result A × Db) → (lift q).1 ≡ q.1
lift-db (Tx.ok a, db) = refl
lift-db (Tx.err e, db) = refl

settle-Inv :
    (i : ℕ) (fee : ℤ) (preimage note : String) (now : Time) (db : Db)
    → Fits fee
    → Inv db
    → Inv (settle i fee preimage note now db).1
unfolding settle
settle-Inv i fee preimage note now db f inv =
    if-both (λ (x : Answer ℤ × Db). Inv x.1) (ltb_ℤ fee (pos 0)) (λ _. inv)
      (λ lo.
        rw (lift-db (settle_spend i fee preimage note now db))
          (settle_spend-Inv i fee preimage note now db (ground arith) f inv))

reverse-Inv : (i : ℕ) (now : Time) (db : Db) → Inv db → Inv (reverse i now db).1
unfolding reverse
reverse-Inv i now db inv = rw (lift-db (reverse_spend i now db)) (reverse_spend-Inv i now db inv)

close_reservation-Inv :
    (env : Env) (now : Time) (i : ℕ) (r : PaymentResult) (db : Db)
    → Fits r.fee_msat
    → Inv db
    → Inv (close_reservation env now i r db).1
unfolding close_reservation
close_reservation-Inv env now i r db f inv =
    let P = λ (x : Closing × Db). Inv x.1 in
    if-both P (is_succeeded r)
      (λ _. settle-Inv i r.fee_msat r.preimage (env.excess_note i r.fee_msat) now db f inv)
      (λ _. if-both P (is_failed r) (λ _. reverse-Inv i now db inv) (λ _. inv))

refuses_nothing :
    (c : Codec) (started : Time) (req : SpendReservation) (now : Time) (db : Db)
    → refuses c started req now db ≡ none
    → (pos 1 ≤ℤ req.amount_msat) × (pos 0 ≤ℤ req.max_fee_msat)
unfolding refuses
refuses_nothing c started req now db h = (ground arith, ground arith)

reserve-Inv :
    (c : Codec) (started : Time) (req : SpendReservation) (now : Time) (db : Db)
    → Inv db
    → Inv (reserve c started req now db).1
unfolding reserve reserve_unless
reserve-Inv c started req now db inv = passed (refuses c started req now db) refl
  where
    passed :
        (o : Option Refusal)
        → refuses c started req now db ≡ o
        → Inv (reserve_unless o req now db).1
    passed (some e) h = inv
    passed none h =
        let (positive, nonneg) = refuses_nothing c started req now db h in
        rw (lift-db (reserve_spend req now db)) (reserve_spend-Inv req now db positive nonneg inv)

-- A fee that the node reports is an int64.
abbrev pub HasFee : Outcome → Type 0
HasFee (answered r) = Fits r.fee_msat
HasFee (errored e) = Unit

after_send-Inv :
    (env : Env) (now : Time) (node : Router) (p : Payment) (i : ℕ) (o : Outcome) (db : Db)
    → HasFee o
    → Inv db
    → Inv (after_send env now node p i o db).1
unfolding after_send
after_send-Inv env now node p i (answered r) db f inv = close_reservation-Inv env now i r db f inv
after_send-Inv env now node p i (errored e) db f inv =
    cleared (is_nothing_sent env p.reservation.payment_hash node e)
  where
    cleared : (b : Bool) → Inv (after_error b e i db).1
    cleared true = clear_spend_dispatched-Inv i db inv
    cleared false = inv

marked-Inv :
    (env : Env) (now : Time) (node : Router) (p : Payment) (i : ℕ) (q : Tx.Result (Unit {0}) × Db)
    → HasFee (send_payment node p.bolt11 p.reservation.max_fee_msat)
    → Inv q.1
    → Inv (send_marked env now node p i q).1
unfolding after_send
marked-Inv env now node p i (Tx.err e, db) f inv = inv
marked-Inv env now node p i (Tx.ok u, db) f inv = after_send-Inv env now node p i _ db f inv

reserved-Inv :
    (env : Env) (now : Time) (node : Router) (p : Payment) (q : Answer ℕ × Db)
    → HasFee (send_payment node p.bolt11 p.reservation.max_fee_msat)
    → Inv q.1
    → Inv (send_reserved env now node p q).1
unfolding after_send
reserved-Inv env now node p (err e, db) f inv = inv
reserved-Inv env now node p (ok i, db) f inv =
    marked-Inv env now node p i (mark_spend_dispatched i now db) f
      (mark_spend_dispatched-Inv i now db inv)

-- Whatever the node does with a payment, and whatever fee of an int64 it reports, the books hold
-- afterwards: the balance is from 0 to the supply, and every row has its entries.
pub pay_invoice-Inv :
    (env : Env) (now : Time) (node : Router) (p : Payment) (db : Db)
    → HasFee (send_payment node p.bolt11 p.reservation.max_fee_msat)
    → Inv db
    → Inv (pay_invoice env now node p db).1
unfolding pay_invoice
pay_invoice-Inv env now node p db f inv =
    reserved-Inv env now node p _ f (reserve-Inv env.codec env.started_at p.reservation now db inv)

counted-Inv : (i n : ℕ) (why : String) (w : World) → Inv w.db → Inv (name_after n i why w).db
unfolding name
counted-Inv i n why w inv = ground (arith, mark_payment_unresolvable-Inv i why w.db inv)

count_attempt-Inv : (i : ℕ) (why : String) (w : World) → Inv w.db → Inv (count_attempt i why w).db
unfolding count_attempt
count_attempt-Inv i why w inv = counted-Inv i _ why _ (note_resolve_attempt-Inv i w.db inv)

correct-db :
    (row : PendingPayment) (r : PaymentResult) (w : World)
    → (correct_connection_budget row r w).db ≡ w.db
unfolding correct_connection_budget
correct-db row r w = ground arith

booked-Inv :
    (row : PendingPayment) (r : PaymentResult) (c : Closing) (w : World)
    → Inv w.db
    → Inv (booked_arm row r c w).1.db
booked-Inv row r closed w inv =
    rw (correct-db row r (record w { db = clear_resolve_attempts row.id w.db }))
      (clear_resolve_attempts-Inv row.id w.db inv)
booked-Inv row r already_closed w inv = clear_resolve_attempts-Inv row.id w.db inv
booked-Inv row r non_terminal w inv = count_attempt-Inv row.id unbooked_reason w inv
booked-Inv row r (booking_failed e) w inv = count_attempt-Inv row.id unbooked_reason w inv

not_found-Inv :
    (now : Time) (row : PendingPayment) (w : World) → Inv w.db → Inv (not_found_arm now row w).1.db
unfolding name
not_found-Inv now row w inv =
    if-both (λ (x : Option Unresolved × World). Inv x.1.db) row.dispatched
      (λ _. mark_payment_unresolvable-Inv row.id no_record_reason w.db inv)
      (λ _. reverse-Inv row.id now w.db inv)

outcome-Inv :
    (env : Env) (now : Time) (row : PendingPayment) (o : Outcome) (w : World)
    → HasFee o
    → Inv w.db
    → Inv (resolve_outcome env now row o w).1.db
unfolding resolve_outcome
outcome-Inv env now row (answered r) w f inv =
    booked-Inv row r _ _ (close_reservation-Inv env now row.id r w.db f inv)
outcome-Inv env now row (errored payment_not_found) w f inv = not_found-Inv now row w inv
outcome-Inv env now row (errored (not_sent e)) w f inv =
    count_attempt-Inv row.id unasked_reason w inv
outcome-Inv env now row (errored stream_ended) w f inv =
    count_attempt-Inv row.id unasked_reason w inv
outcome-Inv env now row (errored (rpc e)) w f inv = count_attempt-Inv row.id unasked_reason w inv

-- The node reports fees of an int64.
abbrev pub HasFees : Router → Type 0
HasFees node = (hash : String) → HasFee (track_payment node hash)

hash-Inv :
    (env : Env) (now : Time) (node : Router) (row : PendingPayment) (o : Option String) (w : World)
    → HasFees node
    → Inv w.db
    → Inv (resolve_hash env now node row o w).1.db
unfolding name
hash-Inv env now node row none w f inv =
    mark_payment_unresolvable-Inv row.id bad_hash_reason w.db inv
hash-Inv env now node row (some hash) w f inv =
    outcome-Inv env now row (track_payment node hash) w (f hash) inv

one-Inv :
    (env : Env) (now : Time) (node : Router) (row : PendingPayment) (w : World)
    → HasFees node
    → Inv w.db
    → Inv (resolve_one env now node row w).1.db
unfolding resolve_one name
one-Inv env now node row w f inv =
    if-both (λ (x : Option Unresolved × World). Inv x.1.db) (str_eq row.payment_hash "")
      (λ _. mark_payment_unresolvable-Inv row.id no_hash_reason w.db inv)
      (λ _. hash-Inv env now node row (env.decode_hex row.payment_hash) w f inv)

row-Inv :
    (env : Env) (now : Time) (node : Router) (ended : Bool) (row : PendingPayment) (w : World)
    → HasFees node
    → Inv w.db
    → Inv (resolve_row env now node ended row w).1.db
unfolding resolve_row
row-Inv env now node true row w f inv = inv
row-Inv env now node false row w f inv = one-Inv env now node row w f inv

all-Inv :
    (env : Env) (now : Time) (node : Router) (late : Bool) (rows : List PendingPayment) (w : World)
    → HasFees node
    → Inv w.db
    → Inv (resolve_all env now node late rows w).1.db
all-Inv env now node late [] w f inv = inv
all-Inv env now node late (row ∷ rows) w f inv =
    let ended = late || row_outlasts env node row in
    all-Inv env now node ended rows (resolve_row env now node ended row w).1 f
      (row-Inv env now node ended row w f inv)

-- Whatever the node says of the payments that a run left open, with fees of an int64, a pass of the
-- resolver keeps the books.
pub resolve_pending_payments-Inv :
    (env : Env) (now : Time) (node : Router) (before : Time) (w : World)
    → HasFees node
    → Inv w.db
    → Inv (resolve_pending_payments env now node before w).1.db
unfolding resolve_pending_payments
resolve_pending_payments-Inv env now node before w f inv =
    all-Inv env now node false (pending_payments_before before w.db) w f inv
