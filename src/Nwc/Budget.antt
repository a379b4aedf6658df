-- ===== src/Nwc/Budget.antt =====
-- store/nwc.go, `ReserveNWCBudget` and `AdjustNWCBudget`, and the corrections of nwc/pay.go: the
-- budget of a connection. The columns that only describe the pairing are left out. The sums are exact:
-- SQLite's are while they lie within int64.
use brollyzapper.Base.{
  ℕ, ◌==◌, Bool, true, not, ◌&&◌, Option, none, some, is_some, List, if◌then◌else◌, leb, find_first,
  select, length, update_where,
}
use brollyzapper.Base.Int.{ℤ, pos, ◌+ℤ◌, leb_ℤ, eqb_ℤ, max_ℤ}
use brollyzapper.Base.Int64.{add64, sub64, neg64}
use brollyzapper.Store.Rows.{Time, unix}

-- `budget_msat` is NULL for no budget, and `budget_renews_at` where no window was ever set.
pub record Connection : Type 0 where
  pub id : ℕ
  pub budget_msat : Option ℤ
  pub budget_used_msat : ℤ
  pub budget_renews_at : Option ℕ
  pub revoked : Bool

pub data BudgetOutcome : Type 0 where
  budget_refused budget_taken budget_connection_gone : BudgetOutcome

abbrev pub has_connection : ℕ → Connection → Bool
has_connection i c = c.id == i

-- A window that was never set, or that has passed.
abbrev pub is_over : Option ℕ → Time → Bool
is_over none now = true
is_over (some at) now = leb at (unix now)

-- Whether a budget of this renewal rolls now. `none` is the renewal of a budget that never does.
abbrev pub rolls : Option Time → Time → Connection → Bool
rolls next now c = is_some next && is_over c.budget_renews_at now

unfoldable pub rolled : Option Time → Time → Connection → ℤ
rolled next now c = if rolls next now c then pos 0 else c.budget_used_msat

abbrev pub unix_of : Option Time → Option ℕ
unix_of none = none
unix_of (some t) = some (unix t)

-- The `SET` of the statement.
unfoldable pub take_budget : Option Time → Time → ℤ → Connection → Connection
unfolding rolled
take_budget next now amount c = record c {
  budget_used_msat = rolled next now c +ℤ amount;
  budget_renews_at = if rolls next now c then unix_of next else c.budget_renews_at;
}

abbrev pub within : Option ℤ → ℤ → Bool
within none used = true
within (some budget) used = leb_ℤ used budget

-- Its `WHERE`, beside the id.
unfoldable pub fits : Option Time → Time → ℤ → Connection → Bool
unfolding rolled
fits next now amount c = not c.revoked && within c.budget_msat (rolled next now c +ℤ amount)

abbrev pub takes : ℕ → Option Time → Time → ℤ → Connection → Bool
takes i next now amount c = has_connection i c && fits next now amount c

-- Which refusal it was, read after the statement that changed nothing.
unfoldable pub refusal : ℕ → List Connection → BudgetOutcome
refusal i cs = elim (find_first (has_connection i) cs) [
  | none ↦ budget_connection_gone
  | some c ↦ if c.revoked then budget_connection_gone else budget_refused
]

unfoldable pub reserve_nwc_budget :
    ℕ → ℤ → Time → Option Time → List Connection → BudgetOutcome × List Connection
unfolding take_budget fits refusal
reserve_nwc_budget i amount now next cs =
    let cs' = update_where (takes i next now amount) (take_budget next now amount) cs in
    if length (select (takes i next now amount) cs) == 1
    then (budget_taken, cs')
    else (refusal i cs', cs')

abbrev pub adjust_used : ℤ → Connection → Connection
adjust_used delta c = record c { budget_used_msat = max_ℤ (pos 0) (c.budget_used_msat +ℤ delta) }

unfoldable pub adjust_nwc_budget : ℕ → ℤ → List Connection → List Connection
adjust_nwc_budget i delta cs =
    if eqb_ℤ delta (pos 0) then cs else update_where (has_connection i) (adjust_used delta) cs

-- `BudgetCorrection`: what a payment that has ended adds to the counter.
unfoldable pub budget_correction : Bool → ℤ → ℤ → ℤ → ℤ
budget_correction settled amount fee_reserved actual_fee =
    if settled then sub64 actual_fee fee_reserved else neg64 (add64 amount fee_reserved)
