-- ===== src/Payments/Stale.antt =====
-- A row that was read before somebody else closed the payment.
use brollyzapper.Base.{
  ℕ, ◌≡◌, refl, subst, true, false, inl, inr, Option, none, some, String, str_eq, arith, Bool-cases,
}
use brollyzapper.Base.Int.{ℤ, pos, ◌≤ℤ◌, ltb_ℤ}
use brollyzapper.Store.Rows.{Time, Db}
use brollyzapper.Store.Tx.{reservation_not_pending}
use brollyzapper.Store.Ledger.Marks.{clear_resolve_attempts}
use brollyzapper.Store.Ledger.Once.{IsClosed}
use brollyzapper.Wallet.Codec.{err, of_store}
use brollyzapper.Wallet.Spender.{settle, reverse}
use brollyzapper.Lnd.Payments.{
  PaymentResult, is_succeeded, is_failed, terminal, payment_not_found, answered, errored, Router,
  track_payment, IsTerminal, payments-IsTerminal,
}
use brollyzapper.Payments.Closing.{Env, already_closed, close_reservation}
use brollyzapper.Payments.Resolve.{
  PendingPayment, World, Unresolved, unclosed, resolve_outcome, resolve_one,
}
use brollyzapper.Payments.Unsure.{Untouched, update_rows-Untouched}

settle_closed :
    (i : ℕ) (fee : ℤ) (preimage note : String) (now : Time) (db : Db)
    → pos 0 ≤ℤ fee
    → IsClosed i db
    → settle i fee preimage note now db ≡ (err (of_store reservation_not_pending), db)
unfolding settle
settle_closed i fee preimage note now db lo gone =
    let not_negative : ltb_ℤ fee (pos 0) ≡ false = ground arith in
    rw not_negative (rw (gone.0 fee preimage note now) refl)

reverse_closed :
    (i : ℕ) (now : Time) (db : Db)
    → IsClosed i db
    → reverse i now db ≡ (err (of_store reservation_not_pending), db)
unfolding reverse
reverse_closed i now db gone = rw (gone.1 now) refl

close_closed :
    (env : Env) (now : Time) (i : ℕ) (r : PaymentResult) (db : Db)
    → terminal r ≡ true
    → pos 0 ≤ℤ r.fee_msat
    → IsClosed i db
    → close_reservation env now i r db ≡ (already_closed, db)
unfolding close_reservation
close_closed env now i r db ended lo gone = elim (Bool-cases (is_succeeded r)) [
  | inl s ↦ rw s (
      rw (settle_closed i r.fee_msat r.preimage (env.excess_note i r.fee_msat) now db lo gone) refl)
  | inr n ↦
      let f : is_failed r ≡ true = ground arith in
      rw n (rw f (rw (reverse_closed i now db gone) refl))
]

-- Resolved, and nothing has moved.
abbrev pub IsResolved : World → Option Unresolved × World → Type 0
IsResolved w (none, w') = Untouched w w'
IsResolved w (some u, w') = ⊥

clear-Untouched :
    (i : ℕ) (w : World) → Untouched w (record w { db = clear_resolve_attempts i w.db })
unfolding clear_resolve_attempts
clear-Untouched i w = update_rows-Untouched _ _ (λ t. refl) (λ t. refl) w

answered_closed :
    (env : Env) (now : Time) (row : PendingPayment) (r : PaymentResult) (w : World)
    → terminal r ≡ true
    → pos 0 ≤ℤ r.fee_msat
    → IsClosed row.id w.db
    → IsResolved w (resolve_outcome env now row (answered r) w)
unfolding resolve_outcome
answered_closed env now row r w ended lo gone =
    rw (close_closed env now row.id r w.db ended lo gone) (clear-Untouched row.id w)

-- When the node's answer about a payment, at a fee that is not negative, meets a payment that was closed
-- after its row was read, the resolver counts it as resolved and moves nothing: no entry, no state of
-- a row, and no connection's budget, which was corrected when the payment was closed.
pub resolve_one_stale :
    (env : Env) (now : Time) (node : Router) (row : PendingPayment) (w : World) (hash : String)
    (r : PaymentResult)
    → str_eq row.payment_hash "" ≡ false
    → env.decode_hex row.payment_hash ≡ some hash
    → track_payment node hash ≡ answered r
    → pos 0 ≤ℤ r.fee_msat
    → IsClosed row.id w.db
    → IsResolved w (resolve_one env now node row w)
unfolding resolve_one
resolve_one_stale env now node row w hash r given decoded answer lo gone =
    let ended : terminal r ≡ true =
      subst IsTerminal answer (payments-IsTerminal node "" hash (pos 0)).1 in
    rw given (rw decoded (rw answer (answered_closed env now row r w ended lo gone)))

-- When the node has no record of a payment that was not dispatched, and the payment was closed after its
-- row was read, the pass changes nothing and still reports the payment as unresolved, with the marker of
-- a close that somebody else made.
pub resolve_one_stale_unmarked :
    (env : Env) (now : Time) (node : Router) (row : PendingPayment) (w : World) (hash : String)
    → str_eq row.payment_hash "" ≡ false
    → env.decode_hex row.payment_hash ≡ some hash
    → track_payment node hash ≡ errored payment_not_found
    → row.dispatched ≡ false
    → IsClosed row.id w.db
    → resolve_one env now node row w ≡ (some (unclosed already_closed), w)
unfolding resolve_one resolve_outcome
resolve_one_stale_unmarked env now node row w hash given decoded answer unmarked gone =
    rw given (rw decoded (rw answer (rw unmarked (rw (reverse_closed row.id now w.db gone) refl))))
