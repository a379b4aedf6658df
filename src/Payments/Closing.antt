-- ===== src/Payments/Closing.antt =====
-- payments.go: `closeReservation` and the helpers that read its errors.
use brollyzapper.Base.{ℕ, Option, String, if◌then◌else◌}
use brollyzapper.Base.Int.{ℤ}
use brollyzapper.Store.Rows.{Time, Db}
use brollyzapper.Store.Tx.{reservation_not_pending}
use brollyzapper.Wallet.Codec.{Codec, Refusal, Answer, ok, err, of_store}
use brollyzapper.Wallet.Spender.{settle, reverse}
use brollyzapper.Lnd.Payments.{PaymentResult, is_succeeded, is_failed}

-- What the payments take from outside: the settings' texts, `hex.DecodeString` (the bytes are kept as a
-- text), the note that the store prints for an excess fee, and the process's start.
pub record Env : Type 0 where
  pub codec : Codec
  pub decode_hex : String → Option String
  pub excess_note : ℕ → ℤ → String
  pub started_at : Time

-- How a close went. `already_closed` is `errAlreadyClosed`.
pub data Closing : Type 0 where
  closed already_closed non_terminal : Closing
  booking_failed : Refusal → Closing

abbrev pub closing_error : Refusal → Closing
closing_error (of_store reservation_not_pending) = already_closed
closing_error e = booking_failed e

-- `closed(booking(notPendingIsFine(…)))`
abbrev pub closing_of : {A : Type 0} → Answer A → Closing
closing_of (ok a) = closed
closing_of (err e) = closing_error e

unfoldable pub close_reservation : Env → Time → ℕ → PaymentResult → Db → Closing × Db
close_reservation env now i r db =
    if is_succeeded r
    then (
      closing_of (settle i r.fee_msat r.preimage (env.excess_note i r.fee_msat) now db).0,
      (settle i r.fee_msat r.preimage (env.excess_note i r.fee_msat) now db).1,
    )
    else if is_failed r
    then (closing_of (reverse i now db).0, (reverse i now db).1)
    else (non_terminal, db)
