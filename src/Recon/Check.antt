-- ===== src/Recon/Check.antt =====
-- recon/recon.go: one check of the ceiling against the node's balance, and the pass of the loop that runs
-- the resolver before it. The audit rows are left out; their failure only changes the answer.
use brollyzapper.Base.{Bool, true, false, ◌&&◌, Option, none, some, String, if◌then◌else◌}
use brollyzapper.Base.Int.{ℤ, pos, ltb_ℤ}
use brollyzapper.Base.Int64.{sub64}
use brollyzapper.Store.Rows.{Time, Db}
use brollyzapper.Store.Tx as Tx
use brollyzapper.Store.Ledger.Append.{balance_msat}
use brollyzapper.Wallet.Codec.{Codec, Deficit, Answer, ok, err}
use brollyzapper.Wallet.Freeze.{unresolved_cutoff, shortfall, record_shortfall, clear_shortfall}
use brollyzapper.Lnd.Payments.{Router}
use brollyzapper.Payments.Closing.{Env}
use brollyzapper.Payments.Resolve.{World, resolve_pending_payments}

-- 10,000 sat.
abbrev pub default_tolerance_msat : ℤ
default_tolerance_msat = pos 10000000

pub record Observation : Type 0 where
  pub wallet_msat : ℤ
  pub node_msat : ℤ

pub data Cause : Type 0 where
  generic : Cause
  node_fell ceiling_rose : ℤ → Cause

-- The tolerance, with what `fmt.Sprintf` makes of a cause.
pub record Options : Type 0 where
  pub tolerance_msat : ℤ
  pub print_cause : Cause → String

abbrev pub tolerance_of : Options → ℤ
tolerance_of o = if ltb_ℤ (pos 0) o.tolerance_msat then o.tolerance_msat else default_tolerance_msat

abbrev pub cause_since : Observation → ℤ → ℤ → Cause
cause_since before wallet_msat node_msat =
    let fell = sub64 before.node_msat node_msat in
    let rose = sub64 wallet_msat before.wallet_msat in
    if ltb_ℤ rose fell && ltb_ℤ (pos 0) fell
    then node_fell fell
    else if ltb_ℤ (pos 0) rose
    then ceiling_rose rose
    else generic

unfoldable pub cause : Option Observation → ℤ → ℤ → Cause
cause none wallet_msat node_msat = generic
cause (some before) wallet_msat node_msat = cause_since before wallet_msat node_msat

pub record Reconciler : Type 0 where
  pub db : Db
  pub previous : Option Observation

pub data Checked : Type 0 where
  unread_node unread_wallet unread_shortfall : Checked
  froze recovered unmoved : Checked

abbrev pub deficit_at : Options → Time → Option Observation → ℤ → ℤ → Deficit
deficit_at o now previous wallet_msat node_msat = record {
  at = now;
  shortfall_msat = sub64 wallet_msat node_msat;
  wallet_msat = wallet_msat;
  node_msat = node_msat;
  cause = o.print_cause (cause previous wallet_msat node_msat);
}

-- By what is recorded and what was found.
unfoldable pub act : Codec → Deficit → Answer (Option Deficit) → Bool → Db → Checked × Db
act c d (err e) short db = (unread_shortfall, db)
act c d (ok none) true db = (froze, record_shortfall c d db)
act c d (ok (some _)) false db = (recovered, clear_shortfall db)
act c d (ok none) false db = (unmoved, db)
act c d (ok (some _)) true db = (unmoved, db)

abbrev pub compare : Codec → Options → Time → ℤ → ℤ → Reconciler → Checked × Reconciler
compare c o now wallet_msat node_msat r =
    let d = deficit_at o now r.previous wallet_msat node_msat in
    let acted =
      act c d (shortfall c r.db) (ltb_ℤ (tolerance_of o) (sub64 wallet_msat node_msat)) r.db in
    (
      acted.0,
      record {
        db = acted.1;
        previous = some (record { wallet_msat = wallet_msat; node_msat = node_msat });
      },
    )

abbrev pub with_wallet :
    Codec → Options → Time → ℤ → Tx.Result (ℤ × Db) → Reconciler → Checked × Reconciler
with_wallet c o now node_msat (Tx.err e) r = (unread_wallet, r)
with_wallet c o now node_msat (Tx.ok (wallet_msat, _)) r = compare c o now wallet_msat node_msat r

-- `node_balance` is what the node answers, `none` where it does not.
unfoldable pub check : Codec → Options → Time → Option ℤ → Reconciler → Checked × Reconciler
unfolding act cause
check c o now none r = (unread_node, r)
check c o now (some node_msat) r = with_wallet c o now node_msat (balance_msat r.db) r

-- One turn of `Run`: the unresolved payments first, up to the wallet's cutoff.
abbrev pub run_check :
    Env
    → Options
    → Time
    → Router
    → Option ℤ
    → World
    → Option Observation
    → Checked × World × Option Observation
run_check env o now node node_balance w previous =
    let resolved =
      (resolve_pending_payments env now node (unresolved_cutoff env.started_at now) w).1 in
    let checked =
      check env.codec o now node_balance (record { db = resolved.db; previous = previous }) in
    (checked.0, record resolved { db = checked.1.db }, checked.1.previous)
