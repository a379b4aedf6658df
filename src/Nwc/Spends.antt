-- ===== src/Nwc/Spends.antt =====
-- What a connection's reservations come to in one window of its budget.
use brollyzapper.Base.{ℕ, ◌≡◌, Bool, true, false, Option, some, List, [], ◌∷◌}
use brollyzapper.Base.Int.{ℤ, pos, ◌+ℤ◌, ◌≤ℤ◌}
use brollyzapper.Store.Rows.{Time}
use brollyzapper.Nwc.Budget.{
  Connection, BudgetOutcome, budget_taken, budget_connection_gone, reserve_nwc_budget,
}
use brollyzapper.Nwc.Windows.{Row}

-- What a reservation took.
abbrev pub granted : ℤ → BudgetOutcome → ℤ
granted amount budget_taken = amount
granted amount _ = pos 0

-- Reservations one after another, each with its time: what they took together, and the rows after them.
unfoldable pub take_all : ℕ → Option Time → List (ℤ × Time) → List Connection → ℤ × List Connection
unfolding reserve_nwc_budget
take_all i next [] cs = (pos 0, cs)
take_all i next ((amount, now) ∷ asks) cs =
    let first = reserve_nwc_budget i amount now next cs in
    let rest = take_all i next asks first.1 in (granted amount first.0 +ℤ rest.0, rest.1)

-- The row of a live connection with budget b, whose window lasts until `at`.
record Lasting (i : ℕ) (b : ℤ) (at : ℕ) (cs : List Connection) (c : Connection) : Type 0 where
  row : Row i cs c
  live : c.revoked ≡ false
  budget : c.budget_msat ≡ some b
  until : c.budget_renews_at ≡ some at
  inside : c.budget_used_msat ≤ℤ b

-- What the reservations of one window leave.
record InWindow (i : ℕ) (b : ℤ) (at : ℕ) (used : ℤ) (q : ℤ × List Connection) : Type 0 where
  row : Connection
  still : Lasting i b at q.1 row
  sum : row.budget_used_msat ≡ used +ℤ q.0

-- What a window's reservations do, by whether the connection is revoked.
pub record Spent (i : ℕ) (b : ℤ) (at : ℕ) (q : ℤ × List Connection) : Type 0 where
  pub row : Connection
  pub only : Row i q.1 row
  pub counter : row.budget_used_msat ≡ q.0
  pub bounded : q.0 ≤ℤ b
  pub renews : row.budget_renews_at ≡ some at

abbrev pub IsSpent :
    Bool → ℕ → ℤ → ℕ → List Connection → BudgetOutcome → ℤ × List Connection → Type 0
IsSpent true i b at cs first q = (first ≡ budget_connection_gone) × (q ≡ (pos 0, cs))
IsSpent false i b at cs first q = (first ≡ budget_taken) × Spent i b at q
