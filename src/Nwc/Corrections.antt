-- ===== src/Nwc/Corrections.antt =====
-- `AdjustNWCBudget` with `BudgetCorrection`: what a payment that has ended leaves on the counter.
use brollyzapper.Base.{
  ℕ, ◌≡◌, ◌∙◌, true, false, Option, some, List, [], ◌∷◌, arith, find_first, update_where,
  Bool-cases, inl, inr,
}
use brollyzapper.Base.Int.{ℤ, pos, ◌+ℤ◌, ◌-ℤ◌, neg_ℤ, ◌≤ℤ◌, eqb_ℤ, max_ℤ, int_laws}
use brollyzapper.Base.Int64.{add64, add64_of_Fits, sub64_of_Fits, neg64_of_Fits}
use brollyzapper.Store.Rows.{Time}
use brollyzapper.Store.Ledger.Append.{max_msat}
use brollyzapper.Nwc.Budget.{
  Connection, budget_taken, has_connection, rolled, take_budget, fits, reserve_nwc_budget,
  adjust_used, adjust_nwc_budget, budget_correction,
}
use brollyzapper.Nwc.Windows.{Row, reserve_nwc_budget_takes}

update_found :
    (i : ℕ) (delta : ℤ) (cs : List Connection) (c : Connection)
    → find_first (has_connection i) cs ≡ some c
    → find_first (has_connection i) (update_where (has_connection i) (adjust_used delta) cs)
      ≡ some (adjust_used delta c)
update_found i delta [] c h = absurd (cc)
update_found i delta (d ∷ cs) c h = ground (arith, update_found i delta cs c)

clamp_above : (a : ℤ) → pos 0 ≤ℤ a → max_ℤ (pos 0) a ≡ a
unfolding max_ℤ
clamp_above a h = ground arith

pub plus_zero : (a d : ℤ) → eqb_ℤ d (pos 0) ≡ true → a ≡ a +ℤ d
plus_zero a d h = let zero : d ≡ pos 0 = ground arith in rw zero (omega int_laws)

-- A correction that leaves the counter at or above 0 is added as it is.
pub adjusted :
    (i : ℕ) (delta : ℤ) (cs : List Connection) (c : Connection)
    → find_first (has_connection i) cs ≡ some c
    → pos 0 ≤ℤ c.budget_used_msat +ℤ delta
    → (c' : Connection) × (find_first (has_connection i) (adjust_nwc_budget i delta cs) ≡ some c')
      × (c'.budget_used_msat ≡ c.budget_used_msat +ℤ delta)
unfolding adjust_nwc_budget
adjusted i delta cs c h lo = elim (Bool-cases (eqb_ℤ delta (pos 0))) [
  | inl nothing ↦ (c, rw (nothing, adjust_nwc_budget) h, plus_zero c.budget_used_msat delta nothing)
  | inr something ↦ (
    adjust_used delta c,
    rw (something, adjust_nwc_budget) (update_found i delta cs c h),
    clamp_above (c.budget_used_msat +ℤ delta) lo,
  )
]

clamped : (a : ℤ) → pos 0 ≤ℤ max_ℤ (pos 0) a
unfolding max_ℤ
clamped a = ground arith

-- A correction never leaves a counter below 0 that was not, whatever it returns: a refund that
-- outlives its window is no authority to spend.
pub adjust_nwc_budget_nonneg :
    (i : ℕ) (delta : ℤ) (cs : List Connection) (c : Connection)
    → find_first (has_connection i) cs ≡ some c
    → pos 0 ≤ℤ c.budget_used_msat
    → (c' : Connection) × (find_first (has_connection i) (adjust_nwc_budget i delta cs) ≡ some c')
      × (pos 0 ≤ℤ c'.budget_used_msat)
unfolding adjust_nwc_budget
adjust_nwc_budget_nonneg i delta cs c h lo = elim (Bool-cases (eqb_ℤ delta (pos 0))) [
  | inl nothing ↦ (c, rw (nothing, adjust_nwc_budget) h, lo)
  | inr something ↦ (
    adjust_used delta c,
    rw (something, adjust_nwc_budget) (update_found i delta cs c h),
    clamped (c.budget_used_msat +ℤ delta),
  )
]

-- A payment's amount and fee reserve, within the supply together.
pub record Priced (amount fee : ℤ) : Type 0 where
  pub amount_nonneg : pos 0 ≤ℤ amount
  pub fee_nonneg : pos 0 ≤ℤ fee
  pub sum_fits : amount +ℤ fee ≤ℤ pos max_msat

pub total_exact : (amount fee : ℤ) → Priced amount fee → add64 amount fee ≡ amount +ℤ fee
total_exact amount fee p =
    add64_of_Fits amount fee (omega (int_laws, p.amount_nonneg, p.fee_nonneg, p.sum_fits))

pub failed_exact :
    (amount fee : ℤ)
    → Priced amount fee
    → budget_correction false amount fee (pos 0) ≡ neg_ℤ (amount +ℤ fee)
unfolding budget_correction
failed_exact amount fee p =
    rw (total_exact amount fee p)
      (neg64_of_Fits (amount +ℤ fee) (omega (int_laws, p.amount_nonneg, p.fee_nonneg, p.sum_fits)))

pub settled_exact :
    (amount fee actual : ℤ)
    → Priced amount fee
    → pos 0 ≤ℤ actual
    → actual ≤ℤ pos max_msat
    → budget_correction true amount fee actual ≡ actual -ℤ fee
unfolding budget_correction
settled_exact amount fee actual p a_lo a_hi =
    sub64_of_Fits actual fee (omega (int_laws, p.amount_nonneg, p.fee_nonneg, p.sum_fits))

pub back_out : (u a f : ℤ) → (u +ℤ (a +ℤ f)) +ℤ neg_ℤ (a +ℤ f) ≡ u
back_out u a f = omega int_laws

pub trued_up : (u a f x : ℤ) → (u +ℤ (a +ℤ f)) +ℤ (x -ℤ f) ≡ u +ℤ (a +ℤ x)
trued_up u a f x = omega int_laws

-- For a live connection with room, whose rolled counter is not negative, and an amount and a fee
-- reserve within the supply together: the reservation of both, and the correction of a payment that
-- failed, leave the counter where the roll put it. A failed payment consumes no budget.
pub budget_correction_failed :
    (i : ℕ) (amount fee : ℤ) (now : Time) (next : Option Time) (cs : List Connection)
    (c : Connection)
    → Row i cs c
    → Priced amount fee
    → pos 0 ≤ℤ rolled next now c
    → fits next now (add64 amount fee) c ≡ true
    → (cs' : List Connection) × (c' : Connection) × (reserve_nwc_budget i
          (add64 amount fee)
          now
          next
          cs
        ≡ (budget_taken, cs'))
      × (find_first
            (has_connection i)
            (adjust_nwc_budget i (budget_correction false amount fee (pos 0)) cs')
          ≡ some c')
      × (c'.budget_used_msat ≡ rolled next now c)
budget_correction_failed i amount fee now next cs c r p lo ok =
    let (cs', e, row, used, _) = reserve_nwc_budget_takes i (add64 amount fee) now next cs c r ok in
    let sum : (take_budget next now (add64 amount fee) c).budget_used_msat
          +ℤ budget_correction false amount fee (pos 0)
        ≡ rolled next now c =
      rw (used, total_exact amount fee p, failed_exact amount fee p)
        (back_out (rolled next now c) amount fee) in
    let (c', found, exact) =
      adjusted i (budget_correction false amount fee (pos 0)) cs'
        (take_budget next now (add64 amount fee) c) row.found (rw sum lo) in
    (cs', c', e, found, exact ∙ sum)

-- For a live connection with room, whose rolled counter is not negative, an amount and a fee
-- reserve within the supply together, and a fee within it that the route took: the reservation, and
-- the correction of the payment that settled, leave the rolled counter, the amount and that fee,
-- whether it was less than the reserve or more.
pub budget_correction_settled :
    (i : ℕ) (amount fee actual : ℤ) (now : Time) (next : Option Time) (cs : List Connection)
    (c : Connection)
    → Row i cs c
    → Priced amount fee
    → pos 0 ≤ℤ actual
    → actual ≤ℤ pos max_msat
    → pos 0 ≤ℤ rolled next now c
    → fits next now (add64 amount fee) c ≡ true
    → (cs' : List Connection) × (c' : Connection) × (reserve_nwc_budget i
          (add64 amount fee)
          now
          next
          cs
        ≡ (budget_taken, cs'))
      × (find_first
            (has_connection i)
            (adjust_nwc_budget i (budget_correction true amount fee actual) cs')
          ≡ some c')
      × (c'.budget_used_msat ≡ rolled next now c +ℤ (amount +ℤ actual))
budget_correction_settled i amount fee actual now next cs c r p a_lo a_hi lo ok =
    let (cs', e, row, used, _) = reserve_nwc_budget_takes i (add64 amount fee) now next cs c r ok in
    let sum : (take_budget next now (add64 amount fee) c).budget_used_msat
          +ℤ budget_correction true amount fee actual
        ≡ rolled next now c +ℤ (amount +ℤ actual) =
      rw (used, total_exact amount fee p, settled_exact amount fee actual p a_lo a_hi)
        (trued_up (rolled next now c) amount fee actual) in
    let amount_lo = p.amount_nonneg in
    let (c', found, exact) =
      adjusted i (budget_correction true amount fee actual) cs'
        (take_budget next now (add64 amount fee) c) row.found (rw sum (omega int_laws)) in
    (cs', c', e, found, exact ∙ sum)
