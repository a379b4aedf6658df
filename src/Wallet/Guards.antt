-- ===== src/Wallet/Guards.antt =====
-- wallet.go, `Reserve`: what holds spending back, and what a reservation that was made says.
use brollyzapper.Base.{ℕ, ◌≡◌, refl, true, false, none, some, Option, str_eq, arith}
use brollyzapper.Base.Int.{pos, ◌≤ℤ◌}
use brollyzapper.Store.Rows.{Time, Db}
use brollyzapper.Store.Ledger.Reserve.{SpendReservation}
use brollyzapper.Store.Ledger.Marks.{has_unresolved_payments_before}
use brollyzapper.Wallet.Codec.{
  Codec, Deficit, Refusal, ok, err, spending_frozen, payments_unresolved,
}
use brollyzapper.Wallet.Freeze.{shortfall, unresolved_cutoff}
use brollyzapper.Wallet.Spender.{refuses, reserve_unless, reserve}

-- A request whose amount and fee are in order and that names its payment.
pub record WellFormed (req : SpendReservation) : Type 0 where
  pub positive : pos 1 ≤ℤ req.amount_msat
  pub fee_nonneg : pos 0 ≤ℤ req.max_fee_msat
  pub named : str_eq req.payment_hash "" ≡ false

refused :
    (c : Codec) (s : Time) (req : SpendReservation) (now : Time) (db : Db) (e : Refusal)
    → refuses c s req now db ≡ some e
    → reserve c s req now db ≡ (err e, db)
unfolding reserve reserve_unless
refused c s req now db e h = rw h refl

-- While a shortfall is recorded, a request that is otherwise in order is refused as frozen, and
-- nothing is written.
pub reserve_frozen :
    (c : Codec) (s : Time) (req : SpendReservation) (now : Time) (db : Db) (d : Deficit)
    → WellFormed req
    → shortfall c db ≡ ok (some d)
    → reserve c s req now db ≡ (err spending_frozen, db)
unfolding refuses
reserve_frozen c s req now db d w frozen =
    refused c s req now db spending_frozen (ground (arith, w.positive, w.fee_nonneg, w.named))

-- While a payment from before the cutoff is unresolved, and no shortfall is recorded, a request that
-- is otherwise in order is refused as waiting on it, and nothing is written.
pub reserve_unresolved :
    (c : Codec) (s : Time) (req : SpendReservation) (now : Time) (db : Db)
    → WellFormed req
    → shortfall c db ≡ ok none
    → has_unresolved_payments_before (unresolved_cutoff s now) db ≡ true
    → reserve c s req now db ≡ (err payments_unresolved, db)
unfolding refuses
reserve_unresolved c s req now db w clear waiting =
    refused c s req now db payments_unresolved (ground (arith, w.positive, w.fee_nonneg, w.named))

-- What the guards have seen when they let a request through.
pub record Allowed (c : Codec) (s : Time) (req : SpendReservation) (now : Time) (db : Db)
    : Type 0 where
  pub well_formed : WellFormed req
  pub not_frozen : shortfall c db ≡ ok none
  pub resolved : has_unresolved_payments_before (unresolved_cutoff s now) db ≡ false

guards_passed :
    (c : Codec) (s : Time) (req : SpendReservation) (now : Time) (db : Db)
    → refuses c s req now db ≡ none
    → Allowed c s req now db
unfolding refuses
guards_passed c s req now db h = record {
  well_formed = record { positive = ground arith; fee_nonneg = ground arith; named = ground arith };
  not_frozen = ground arith;
  resolved = ground arith;
}

passed :
    (c : Codec) (s : Time) (req : SpendReservation) (now : Time) (db db' : Db) (i : ℕ)
    (g : Option Refusal)
    → refuses c s req now db ≡ g
    → reserve_unless g req now db ≡ (ok i, db')
    → Allowed c s req now db
unfolding reserve_unless
passed c s req now db db' i none e h = guards_passed c s req now db e
passed c s req now db db' i (some r) e h = absurd (cc)

-- A reservation is made only for a positive amount, a fee reserve that is not negative and a named
-- payment, with no shortfall recorded and no payment unresolved from before the cutoff.
pub reserve-Allowed :
    (c : Codec) (s : Time) (req : SpendReservation) (now : Time) (db db' : Db) (i : ℕ)
    → reserve c s req now db ≡ (ok i, db')
    → Allowed c s req now db
unfolding reserve
reserve-Allowed c s req now db db' i h = passed c s req now db db' i _ refl h
