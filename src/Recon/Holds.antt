-- ===== src/Recon/Holds.antt =====
-- What holds of the recorded shortfall after a check.
use brollyzapper.Base.{◌≡◌, refl, ap, ◌∙◌, Bool, true, false, Option, none, some, str_eq, arith}
use brollyzapper.Base.Int.{ℤ, pos, ◌-ℤ◌, ◌≤ℤ◌, ◌<ℤ◌, ltb_ℤ, int_laws}
use brollyzapper.Base.Int64.{sub64, sub64_of_Fits}
use brollyzapper.Store.Rows.{Time, Db}
use brollyzapper.Store.Tx as Tx
use brollyzapper.Store.Settings.{setting-set_setting}
use brollyzapper.Store.Ledger.Append.{max_msat, balance_msat}
use brollyzapper.Store.Ledger.Sums.{total, total-bounds, sum_entries-eq-total}
use brollyzapper.Store.Ledger.Invariant.{Inv}
use brollyzapper.Store.Ledger.Reserve.{SpendReservation}
use brollyzapper.Wallet.Codec.{Codec, Deficit, ok, err, spending_frozen}
use brollyzapper.Wallet.Freeze.{shortfall, clear_shortfall, shortfall-record_clear}
use brollyzapper.Wallet.Guards.{WellFormed, reserve_frozen}
use brollyzapper.Wallet.Spender.{reserve}
use brollyzapper.Recon.Check.{Options, tolerance_of, Reconciler, deficit_at, act, check}

-- What the wallet relies on of encoding/json: the shortfall that it records reads back.
pub record ReadsBack (c : Codec) (d : Deficit) : Type 0 where
  pub decodes : c.decode_deficit (c.encode_deficit d) ≡ some d
  pub has_text : str_eq (c.encode_deficit d) "" ≡ false

cleared : (c : Codec) (db : Db) → shortfall c (clear_shortfall db) ≡ ok none
unfolding shortfall clear_shortfall
cleared c db = rw (setting-set_setting "deficit_state" "" db) refl

act_short :
    (c : Codec) (d : Deficit) (o : Option Deficit) (db : Db)
    → ReadsBack c d
    → shortfall c db ≡ ok o
    → (d' : Deficit) × (shortfall c (act c d (ok o) true db).1 ≡ ok (some d'))
unfolding act
act_short c d none db r e = (d, (shortfall-record_clear c d db r.decodes r.has_text).0)
act_short c d (some d') db r e = (d', e)

act_fine :
    (c : Codec) (d : Deficit) (o : Option Deficit) (db : Db)
    → shortfall c db ≡ ok o
    → shortfall c (act c d (ok o) false db).1 ≡ ok none
unfolding act
act_fine c d none db e = e
act_fine c d (some d') db e = cleared c db

balance_total : (db : Db) → Inv db → balance_msat db ≡ Tx.ok (total db.entries, db)
unfolding balance_msat
balance_total db inv = rw (sum_entries-eq-total db.entries inv.bounded, balance_msat) refl

-- The tables after a check that reads everything.
checked :
    (c : Codec) (o : Options) (now : Time) (node_msat : ℤ) (r : Reconciler)
    (recorded : Option Deficit)
    → Inv r.db
    → shortfall c r.db ≡ ok recorded
    → (check c o now (some node_msat) r).1.db
      ≡ (act c
          (deficit_at o now r.previous (total r.db.entries) node_msat)
          (ok recorded)
          (ltb_ℤ (tolerance_of o) (sub64 (total r.db.entries) node_msat))
          r.db).1
unfolding check
checked c o now node_msat r recorded inv e = rw (balance_total r.db inv) (rw e refl)

exact_shortfall :
    (wallet_msat node_msat : ℤ)
    → pos 0 ≤ℤ wallet_msat
    → wallet_msat ≤ℤ pos max_msat
    → pos 0 ≤ℤ node_msat
    → node_msat ≤ℤ pos max_msat
    → sub64 wallet_msat node_msat ≡ wallet_msat -ℤ node_msat
exact_shortfall w n lo hi lo' hi' = sub64_of_Fits w n (omega int_laws)

-- In books that hold, with a recorded shortfall that can be read or none, and a node that can send an
-- amount from 0 to the supply: when the ceiling is above that amount by more than the tolerance, and the
-- shortfall of this check reads back, then after the check every reservation that is otherwise in order
-- is refused as frozen and writes nothing.
pub check_freezes :
    (c : Codec) (o : Options) (now : Time) (node_msat : ℤ) (r : Reconciler)
    (recorded : Option Deficit) (started : Time) (req : SpendReservation) (later : Time)
    → ReadsBack c (deficit_at o now r.previous (total r.db.entries) node_msat)
    → Inv r.db
    → shortfall c r.db ≡ ok recorded
    → pos 0 ≤ℤ node_msat
    → node_msat ≤ℤ pos max_msat
    → tolerance_of o <ℤ total r.db.entries -ℤ node_msat
    → WellFormed req
    → reserve c started req later (check c o now (some node_msat) r).1.db
      ≡ (err spending_frozen, (check c o now (some node_msat) r).1.db)
check_freezes c o now node_msat r recorded started req later back inv e lo hi over ordered =
    let (w_lo, w_hi) = total-bounds r.db.entries inv.bounded in
    let exact = exact_shortfall (total r.db.entries) node_msat w_lo w_hi lo hi in
    let short : ltb_ℤ (tolerance_of o) (sub64 (total r.db.entries) node_msat) ≡ true =
      rw exact (ground arith) in
    let d = deficit_at o now r.previous (total r.db.entries) node_msat in
    let after =
      checked c o now node_msat r recorded inv e
      ∙ ap (λ (b : Bool). (act c d (ok recorded) b r.db).1) short in
    let (d', frozen) = act_short c d recorded r.db back e in
    reserve_frozen c started req later (check c o now (some node_msat) r).1.db d' ordered
      (ap (shortfall c) after ∙ frozen)

-- In books that hold, with a recorded shortfall that can be read or none, and a node that can send an
-- amount from 0 to the supply: when the ceiling is within the tolerance of that amount, the check leaves
-- no shortfall recorded, whatever was recorded before.
pub check_recovers :
    (c : Codec) (o : Options) (now : Time) (node_msat : ℤ) (r : Reconciler)
    (recorded : Option Deficit)
    → Inv r.db
    → shortfall c r.db ≡ ok recorded
    → pos 0 ≤ℤ node_msat
    → node_msat ≤ℤ pos max_msat
    → total r.db.entries -ℤ node_msat ≤ℤ tolerance_of o
    → shortfall c (check c o now (some node_msat) r).1.db ≡ ok none
check_recovers c o now node_msat r recorded inv e lo hi under =
    let (w_lo, w_hi) = total-bounds r.db.entries inv.bounded in
    let exact = exact_shortfall (total r.db.entries) node_msat w_lo w_hi lo hi in
    let fine : ltb_ℤ (tolerance_of o) (sub64 (total r.db.entries) node_msat) ≡ false =
      rw exact (ground arith) in
    let d = deficit_at o now r.previous (total r.db.entries) node_msat in
    let after =
      checked c o now node_msat r recorded inv e
      ∙ ap (λ (b : Bool). (act c d (ok recorded) b r.db).1) fine in
    ap (shortfall c) after ∙ act_fine c d recorded r.db e
