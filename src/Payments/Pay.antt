-- ===== src/Payments/Pay.antt =====
-- payments.go, `payInvoice`: reserve, mark, send, and close or leave open.
use brollyzapper.Base.{
  ℕ, Bool, true, false, not, ◌&&◌, ◌⊎◌, inr, Option, none, some, String, str_eq, if◌then◌else◌,
}
use brollyzapper.Store.Rows.{Time, Db}
use brollyzapper.Store.Tx as Tx
use brollyzapper.Store.Ledger.Reserve.{SpendReservation}
use brollyzapper.Store.Ledger.Marks.{mark_spend_dispatched, clear_spend_dispatched}
use brollyzapper.Wallet.Codec.{Refusal, Answer, ok, err}
use brollyzapper.Wallet.Spender.{reserve}
use brollyzapper.Lnd.Payments.{
  PaymentResult, LndError, payment_not_found, Outcome, answered, errored, Router, send_payment,
  has_payment, is_transport_or_caller_failure, is_not_sent,
}
use brollyzapper.Payments.Closing.{Env, Closing, close_reservation}

-- The reservation, with the invoice to send.
pub record Payment : Type 0 where
  pub bolt11 : String
  pub reservation : SpendReservation

-- `ErrNotDispatched`; a mark that could not be written; the two errors of a send; or the result, with
-- how its booking went.
pub data Paid : Type 0 where
  not_dispatched : Refusal → Paid
  unmarked : Tx.Error → Paid
  not_taken_on outcome_unknown : LndError → Paid
  paid : PaymentResult → Closing → Paid

-- The refusal of a lookup, and nothing else.
abbrev pub no_record : Bool ⊎ LndError → Bool
no_record (inr payment_not_found) = true
no_record _ = false

abbrev pub never_recorded : Router → Option String → Bool
never_recorded node none = false
never_recorded node (some hash) =
    if str_eq hash "" then false else no_record (has_payment node hash)

unfoldable pub never_initiated : Env → String → Router → Bool
never_initiated env payment_hash node = never_recorded node (env.decode_hex payment_hash)

-- Whether an error of the send says that the node has nothing to act on.
abbrev pub is_nothing_sent : Env → String → Router → LndError → Bool
is_nothing_sent env payment_hash node e =
    if is_not_sent e
    then true
    else not (is_transport_or_caller_failure e) && never_initiated env payment_hash node

abbrev pub after_error : Bool → LndError → ℕ → Db → Paid × Db
after_error true e i db = (not_taken_on e, clear_spend_dispatched i db)
after_error false e i db = (outcome_unknown e, db)

unfoldable pub after_send : Env → Time → Router → Payment → ℕ → Outcome → Db → Paid × Db
unfolding close_reservation
after_send env now node p i (errored e) db =
    after_error (is_nothing_sent env p.reservation.payment_hash node e) e i db
after_send env now node p i (answered r) db =
    (paid r (close_reservation env now i r db).0, (close_reservation env now i r db).1)

abbrev pub send_marked : Env → Time → Router → Payment → ℕ → Tx.Result (Unit {0}) × Db → Paid × Db
send_marked env now node p i (Tx.err e, db) = (unmarked e, db)
send_marked env now node p i (Tx.ok _, db) =
    after_send env now node p i (send_payment node p.bolt11 p.reservation.max_fee_msat) db

abbrev pub send_reserved : Env → Time → Router → Payment → Answer ℕ × Db → Paid × Db
send_reserved env now node p (err e, db) = (not_dispatched e, db)
send_reserved env now node p (ok i, db) =
    send_marked env now node p i (mark_spend_dispatched i now db)

unfoldable pub pay_invoice : Env → Time → Router → Payment → Db → Paid × Db
unfolding after_send
pay_invoice env now node p db =
    send_reserved env now node p (reserve env.codec env.started_at p.reservation now db)
