-- ===== src/Nwc/Windows.antt =====
-- A budget is taken once for a payment, never past its limit, and what a payment did not cost comes
-- back.
use brollyzapper.Base.{
  ℕ, ◌≡◌, refl, ◌∙◌, Bool, true, false, ◌&&◌, Option, some, List, [], ◌∷◌, arith, if◌then◌else◌,
  find_first, select, length, update_where, Bool-cases, inl, inr,
}
use brollyzapper.Base.Int.{ℤ, ◌+ℤ◌, leb_ℤ}
use brollyzapper.Store.Rows.{Time}
use brollyzapper.Nwc.Budget.{
  Connection, budget_refused, budget_taken, budget_connection_gone, has_connection, rolled,
  take_budget, within, fits, takes, refusal, reserve_nwc_budget,
}

-- The one row with this id (it is the primary key).
pub record Row (i : ℕ) (cs : List Connection) (c : Connection) : Type 0 where
  pub single : length (select (has_connection i) cs) ≡ 1
  pub found : find_first (has_connection i) cs ≡ some c

module _ (i : ℕ) (p : Connection → Bool) (f : Connection → Connection)
    (keep : (c : Connection) → (f c).id ≡ c.id) where
  absent :
      (cs : List Connection)
      → length (select (has_connection i) cs) ≡ 0
      → (length (select (λ c. has_connection i c && p c) cs) ≡ 0)
        × (update_where (λ c. has_connection i c && p c) f cs ≡ cs)
  absent [] h = (refl, refl)
  absent (c ∷ cs) h = (ground (arith, absent cs), ground (arith, absent cs))

  hit :
      (cs : List Connection) (c : Connection)
      → length (select (has_connection i) cs) ≡ 1
      → find_first (has_connection i) cs ≡ some c
      → p c ≡ true
      → (length (select (λ d. has_connection i d && p d) cs) ≡ 1)
        × (length (select (has_connection i) (update_where (λ d. has_connection i d && p d) f cs))
            ≡ 1)
        × (find_first (has_connection i) (update_where (λ d. has_connection i d && p d) f cs)
            ≡ some (f c))
  hit [] c s h t = absurd (cc)
  hit (d ∷ cs) c s h t = elim (Bool-cases (has_connection i d)) [
    | inl here ↦ (
      ground (arith, absent cs, keep d),
      ground (arith, absent cs, keep d),
      ground (arith, absent cs, keep d),
    )
    | inr further ↦ (ground (arith, hit cs c), ground (arith, hit cs c), ground (arith, hit cs c))
  ]

  miss :
      (cs : List Connection) (c : Connection)
      → length (select (has_connection i) cs) ≡ 1
      → find_first (has_connection i) cs ≡ some c
      → p c ≡ false
      → (length (select (λ d. has_connection i d && p d) cs) ≡ 0)
        × (update_where (λ d. has_connection i d && p d) f cs ≡ cs)
  miss [] c s h t = absurd (cc)
  miss (d ∷ cs) c s h t = elim (Bool-cases (has_connection i d)) [
    | inl here ↦ (ground (arith, absent cs), ground (arith, absent cs))
    | inr further ↦ (ground (arith, miss cs c), ground (arith, miss cs c))
  ]

take_keeps :
    (next : Option Time) (now : Time) (a : ℤ) (c : Connection)
    → (take_budget next now a c).id ≡ c.id
unfolding take_budget
take_keeps next now a c = refl

pub taken :
    (i : ℕ) (amount : ℤ) (now : Time) (next : Option Time) (cs : List Connection) (c : Connection)
    → Row i cs c
    → fits next now amount c ≡ true
    → (cs' : List Connection) × (reserve_nwc_budget i amount now next cs ≡ (budget_taken, cs'))
      × Row i cs' (take_budget next now amount c)
unfolding reserve_nwc_budget
taken i amount now next cs c r ok =
    let w =
      hit i (fits next now amount) (take_budget next now amount) (take_keeps next now amount) cs c
        r.single r.found ok in
    (
      update_where (takes i next now amount) (take_budget next now amount) cs,
      rw (w.0) refl,
      record { single = w.1; found = w.2 },
    )

-- A connection's counter does not pass its budget, if it has one.
abbrev pub IsWithin : Connection → Type 0
IsWithin c = within c.budget_msat c.budget_used_msat ≡ true

taken-IsWithin :
    (next : Option Time) (now : Time) (amount : ℤ) (c : Connection)
    → fits next now amount c ≡ true
    → IsWithin (take_budget next now amount c)
unfolding fits take_budget
taken-IsWithin next now amount c h = ground arith

-- A live connection whose counter, rolled to 0 if its window has passed, has room for the amount:
-- the amount is taken, the counter is the rolled one and the amount, and it is within the budget.
pub reserve_nwc_budget_takes :
    (i : ℕ) (amount : ℤ) (now : Time) (next : Option Time) (cs : List Connection) (c : Connection)
    → Row i cs c
    → fits next now amount c ≡ true
    → (cs' : List Connection) × (reserve_nwc_budget i amount now next cs ≡ (budget_taken, cs'))
      × Row i cs' (take_budget next now amount c)
      × ((take_budget next now amount c).budget_used_msat ≡ rolled next now c +ℤ amount)
      × IsWithin (take_budget next now amount c)
unfolding take_budget
reserve_nwc_budget_takes i amount now next cs c r ok =
    let (cs', e, row) = taken i amount now next cs c r ok in
    (cs', e, row, refl, taken-IsWithin next now amount c ok)

pub refused-Row :
    (i : ℕ) (amount : ℤ) (now : Time) (next : Option Time) (cs : List Connection) (c : Connection)
    → Row i cs c
    → fits next now amount c ≡ false
    → reserve_nwc_budget i amount now next cs
      ≡ ((if c.revoked then budget_connection_gone else budget_refused), cs)
unfolding reserve_nwc_budget refusal
refused-Row i amount now next cs c r unfit =
    let w =
      miss i (fits next now amount) (take_budget next now amount) (take_keeps next now amount) cs c
        r.single r.found unfit in
    rw (w.0, w.1) (rw (r.found, refusal) refl)

revoked_unfit :
    (next : Option Time) (now : Time) (amount : ℤ) (c : Connection)
    → c.revoked ≡ true
    → fits next now amount c ≡ false
unfolding fits
revoked_unfit next now amount c h = rw h refl

-- A revoked connection takes nothing: the answer is that it is gone, and no row changes.
pub reserve_nwc_budget_revoked :
    (i : ℕ) (amount : ℤ) (now : Time) (next : Option Time) (cs : List Connection) (c : Connection)
    → Row i cs c
    → c.revoked ≡ true
    → reserve_nwc_budget i amount now next cs ≡ (budget_connection_gone, cs)
reserve_nwc_budget_revoked i amount now next cs c r h =
    refused-Row i amount now next cs c r (revoked_unfit next now amount c h) ∙ rw h refl

over_unfit :
    (next : Option Time) (now : Time) (amount b : ℤ) (c : Connection)
    → c.budget_msat ≡ some b
    → leb_ℤ (rolled next now c +ℤ amount) b ≡ false
    → fits next now amount c ≡ false
unfolding fits
over_unfit next now amount b c e h = ground arith

-- A live connection whose rolled counter and the amount pass its budget is refused, and no row
-- changes: the window is not moved either.
pub reserve_nwc_budget_over :
    (i : ℕ) (amount b : ℤ) (now : Time) (next : Option Time) (cs : List Connection) (c : Connection)
    → Row i cs c
    → c.revoked ≡ false
    → c.budget_msat ≡ some b
    → leb_ℤ (rolled next now c +ℤ amount) b ≡ false
    → reserve_nwc_budget i amount now next cs ≡ (budget_refused, cs)
reserve_nwc_budget_over i amount b now next cs c r live e h =
    refused-Row i amount now next cs c r (over_unfit next now amount b c e h) ∙ rw live refl
