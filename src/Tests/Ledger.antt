-- ===== src/Tests/Ledger.antt =====
-- The results on the ledger, at the tables of Fixtures.
use brollyzapper.Base.{◌≡◌, refl, true, false, some, arith, find_first, ◌+◌}
use brollyzapper.Base.Int.{pos, ◌+ℤ◌, ◌-ℤ◌}
use brollyzapper.Store.Rows.{Db}
use brollyzapper.Store.Tx.{ok, err, insufficient_balance}
use brollyzapper.Store.Settings.{setting, set_setting, setting-set_setting}
use brollyzapper.Store.Ledger.Append.{next_txn_id, new_txn}
use brollyzapper.Store.Ledger.Reserve.{SpendReservation, reserve_spend}
use brollyzapper.Store.Ledger.Close.{is_out_with_id, mark_settled, settle_spend, reverse_spend}
use brollyzapper.Store.Ledger.Sums.{total}
use brollyzapper.Store.Ledger.Safety.{reserved_txn}
use brollyzapper.Store.Ledger.Fees.{settle_spend_within, settle_spend_over, settle_spend_uncovered}
use brollyzapper.Store.Ledger.Reserving.{Acceptable, reserve_spend_covered}
use brollyzapper.Store.Ledger.Once.{IsClosed, reverse_spend_closes, settle_spend_closes}
use brollyzapper.Store.Invoices.{credit_txn, credit_settled_invoice, expire_invoices}
use brollyzapper.Store.Invoices.Redelivery.{credit_redelivered}
use brollyzapper.Tests.Fixtures.{
  noon, funded, under_way, funded-Inv, under_way-Inv, paying, paying-Pending, request,
}

-- The payment that is under way already.
abbrev again : SpendReservation
again = record request { payment_hash = "p1" }

abbrev large : SpendReservation
large = record request { amount_msat = pos 2000000 }

abbrev oversized : SpendReservation
oversized = record request { amount_msat = pos 2100000000000000001 }

request-Acceptable : Acceptable request noon funded
unfolding ◌+ℤ◌ new_txn next_txn_id
request-Acceptable = record {
  positive = omega arith;
  fee_nonneg = omega arith;
  sum_fits = omega arith;
  known = refl;
  free = refl;
}

large-Acceptable : Acceptable large noon funded
unfolding ◌+ℤ◌ new_txn next_txn_id
large-Acceptable = record {
  positive = omega arith;
  fee_nonneg = omega arith;
  sum_fits = omega arith;
  known = refl;
  free = refl;
}

reserve_spend_covered_example :
    (db' : Db) × (reserve_spend request noon funded ≡ (ok 2, db'))
    × (total db'.entries ≡ pos 795000)
    × (find_first (is_out_with_id 2) db'.txns ≡ some (reserved_txn request noon funded))
unfolding ◌+ℤ◌ ◌-ℤ◌ next_txn_id
reserve_spend_covered_example =
    reserve_spend_covered request noon funded funded-Inv request-Acceptable (omega arith)

reverse_spend_closes_example :
    (db' : Db) × (reverse_spend 2 noon under_way ≡ (ok tt, db')) × IsClosed 2 db'
unfolding ◌+ℤ◌
reverse_spend_closes_example =
    reverse_spend_closes 2 noon under_way paying under_way-Inv paying-Pending (omega arith)

settle_spend_within_example :
    (db' : Db) × (settle_spend 2 (pos 4000) "pre" "" noon under_way ≡ (ok (pos 0), db'))
    × (total db'.entries ≡ pos 696000)
    × (find_first (is_out_with_id 2) db'.txns ≡ some (mark_settled (pos 4000) noon "pre" paying))
unfolding ◌+ℤ◌ ◌-ℤ◌
settle_spend_within_example =
    settle_spend_within 2 (pos 4000) "pre" "" noon under_way paying under_way-Inv paying-Pending
      (omega arith) (omega arith) (omega arith)

settle_spend_closes_example :
    (db' : Db) × (settle_spend 2 (pos 4000) "pre" "" noon under_way ≡ (ok (pos 0), db'))
    × IsClosed 2 db'
unfolding ◌+ℤ◌ ◌-ℤ◌
settle_spend_closes_example =
    settle_spend_closes 2 (pos 4000) "pre" "" noon under_way paying under_way-Inv paying-Pending
      (omega arith) (omega arith) (omega arith)

settle_spend_over_example :
    (db' : Db) × (settle_spend 2 (pos 12000) "pre" "" noon under_way ≡ (ok (pos 2000), db'))
    × (total db'.entries ≡ pos 688000)
    × (find_first (is_out_with_id 2) db'.txns ≡ some (mark_settled (pos 10000) noon "pre" paying))
unfolding ◌+ℤ◌ ◌-ℤ◌
settle_spend_over_example =
    settle_spend_over 2 (pos 12000) "pre" "" noon under_way paying under_way-Inv paying-Pending
      (omega arith) (omega arith)

settle_spend_uncovered_example :
    settle_spend 2 (pos 900000) "pre" "" noon under_way ≡ (err insufficient_balance, under_way)
unfolding ◌+ℤ◌ ◌-ℤ◌
settle_spend_uncovered_example =
    settle_spend_uncovered 2 (pos 900000) "pre" "" noon under_way paying under_way-Inv
      paying-Pending (omega arith) (omega arith)

abbrev credited : Db
credited = (credit_settled_invoice "h1" "pre" (pos 2000) noon true funded).1

credit_runs : credit_settled_invoice "h1" "pre" (pos 2000) noon true funded ≡ (ok true, credited)
unfolding credit_settled_invoice credit_txn ◌+ℤ◌
credit_runs = refl

credit_redelivered_example :
    credit_settled_invoice "h1" "" (pos 2000) noon false credited ≡ (ok false, credited)
credit_redelivered_example =
    credit_redelivered "h1" "pre" "" (pos 2000) (pos 2000) noon noon true false funded credited true
      credit_runs

setting-set_setting_example : setting "k" (set_setting "k" "v" funded) ≡ some "v"
setting-set_setting_example = setting-set_setting "k" "v" funded

-- The open invoice is live at noon, and past due an hour later.
sweep_count : (expire_invoices (noon + 3600000000000000) funded).0 ≡ 1
unfolding expire_invoices
sweep_count = refl
