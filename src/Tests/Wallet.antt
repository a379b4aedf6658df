-- ===== src/Tests/Wallet.antt =====
-- The results on the wallet, at the tables of Fixtures.
use brollyzapper.Base.{◌*◌, ◌/◌, ◌≤◌, ◌≡◌, refl, List, [], ◌∷◌, arith}
use brollyzapper.Base.Int.{ℤ, pos, ◌+ℤ◌, ◌≤ℤ◌, max_ℤ, ◌/ℤ◌, ◌*ℤ◌, neg_ℤ}
use brollyzapper.Base.Int64.{add64, neg64, mul64, wrap64}
use brollyzapper.Store.Ledger.Reserve.{reserve_spend}
use brollyzapper.Store.Rows.{Time, Db}
use brollyzapper.Store.Tx
use brollyzapper.Store.Tx.{insufficient_balance}
use brollyzapper.Store.Settings.{setting, set_setting}
use brollyzapper.Store.Ledger.Append.{max_msat, balance_msat}
use brollyzapper.Store.Ledger.Marks.{has_unresolved_payments_before}
use brollyzapper.Store.Ledger.Invariant.{Inv}
use brollyzapper.Wallet.Codec.{ok}
use brollyzapper.Wallet.Fee.{max_fee, max_fee_wraps}
use brollyzapper.Wallet.Freeze.{shortfall}
use brollyzapper.Wallet.Spender.{reserve}
use brollyzapper.Wallet.History.{
  Op, reserve_op, settle_op, allocate_op, attempt_op, run, new_db, run_solvent, run-Inv,
}
use brollyzapper.Wallet.Guards.{WellFormed}
use brollyzapper.Tests.Fixtures.{noon, codec, funded, request}

-- Nine seconds after the rows were written, when the process starts again.
abbrev later : Time
later = 1009000000000

-- A ceiling of a million msat, and a payment that is reserved and then settled over its reserve.
abbrev history : List (Op × Time)
history =
    (allocate_op (pos 1000000) "", noon)
    ∷ (reserve_op request, noon)
    ∷ (attempt_op 2, noon)
    ∷ (settle_op 2 (pos 6000) "pre" "", noon)
    ∷ []

run_solvent_example :
    (b : ℤ) × (balance_msat (run codec 0 history (new_db []))
      ≡ Tx.ok (b, run codec 0 history (new_db [])))
    × (pos 0 ≤ℤ b)
    × (b ≤ℤ pos max_msat)
run_solvent_example =
    run_solvent codec 0 history [] (tt, (tt, (tt, ((omega arith, omega arith), tt))))

run-Inv_example : Inv (run codec 0 history (new_db []))
run-Inv_example = run-Inv codec 0 history [] (tt, (tt, (tt, ((omega arith, omega arith), tt))))

request-WellFormed : WellFormed request
request-WellFormed = record { positive = omega arith; fee_nonneg = omega arith; named = refl }

-- The text of the tests' shortfall is in place.
abbrev frozen : Db
frozen = set_setting "deficit_state" "{}" funded

abbrev reserved : Db
reserved = (reserve codec noon request noon funded).1

reserved_run : reserve codec noon request noon funded ≡ (ok 2, reserved)
unfolding reserve shortfall setting has_unresolved_payments_before reserve_spend add64 wrap64 ◌+ℤ◌
    neg64 neg_ℤ
reserved_run = refl

max_fee_wraps_example :
    (max_fee codec (pos 1000000000000000) funded ≡ ok (pos 10000))
    × (9223372036854 ≤ 1000000000000000 * 10000 / 1000000)
unfolding setting
max_fee_wraps_example =
    max_fee_wraps codec funded 1000000000000000 refl refl (omega arith) (omega arith)

fee_run :
    max_fee codec (pos 5000000) (set_setting "max_fee_floor_msat" "500" funded) ≡ ok (pos 50000)
unfolding max_fee setting set_setting max_ℤ ◌/ℤ◌ mul64 wrap64 ◌*ℤ◌
fee_run = refl
