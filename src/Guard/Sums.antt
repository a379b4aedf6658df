-- ===== src/Guard/Sums.antt =====
-- Sums over the attempts of a window, and how pruning and refunds change them.
use brollyzapper.Base.{
  ◌≤◌, ◌≡◌, refl, ◌∙◌, Bool, true, false, List, [], ◌∷◌, ◌++◌, String, arith, if◌then◌else◌, All,
}
use brollyzapper.Base.Int.{ℤ, pos, ◌+ℤ◌, ◌≤ℤ◌, eqb_ℤ, int_laws}
use brollyzapper.Base.Int64.{add64_of_Fits}
use brollyzapper.Store.Rows.{Time}
use brollyzapper.Store.Ledger.Append.{max_msat}
use brollyzapper.Guard.Window.{SpendAttempt, is_inside, kept, sum_from, return_failed}

-- The exact sum.
abbrev pub total : List SpendAttempt → ℤ
total [] = pos 0
total (a ∷ xs) = a.msat +ℤ total xs

abbrev pub IsCounted : List SpendAttempt → Type 0
IsCounted xs = All (λ (a : SpendAttempt). pos 1 ≤ℤ a.msat) xs

pub total_nonneg : (xs : List SpendAttempt) → IsCounted xs → pos 0 ≤ℤ total xs
total_nonneg [] h = omega arith
total_nonneg (a ∷ xs) h = omega (int_laws, h.0, total_nonneg xs h.1)

pub total-append :
    (xs : List SpendAttempt) (a : SpendAttempt) → total (xs ++ (a ∷ [])) ≡ total xs +ℤ a.msat
total-append [] a = omega int_laws
total-append (x ∷ xs) a = rw (total-append xs a) (omega int_laws)

keep_sum : (b : Bool) (a t k : ℤ) → pos 1 ≤ℤ a → k ≤ℤ t → (if b then a +ℤ k else k) ≤ℤ a +ℤ t
keep_sum true a t k h le = omega int_laws
keep_sum false a t k h le = omega int_laws

total-if :
    (b : Bool) (a : SpendAttempt) (xs : List SpendAttempt)
    → total (if b then a ∷ xs else xs) ≡ (if b then a.msat +ℤ total xs else total xs)
total-if true a xs = refl
total-if false a xs = refl

pub total-kept-le :
    (now : Time) (xs : List SpendAttempt) → IsCounted xs → total (kept now xs) ≤ℤ total xs
total-kept-le now [] h = omega arith
total-kept-le now (a ∷ xs) h = rw (total-if (is_inside now a) a (kept now xs)) (
    keep_sum (is_inside now a) a.msat (total xs) (total (kept now xs)) h.0
      (total-kept-le now xs h.1))

pub kept-IsCounted : (now : Time) (xs : List SpendAttempt) → IsCounted xs → IsCounted (kept now xs)
kept-IsCounted now [] h = tt
kept-IsCounted now (a ∷ xs) h = ground (arith, kept-IsCounted now xs h.1)

-- What a later clock keeps, it keeps of what an earlier one kept.
pub kept-kept :
    (c now : Time) (xs : List SpendAttempt) → c ≤ now → kept now (kept c xs) ≡ kept now xs
kept-kept c now [] h = refl
kept-kept c now (a ∷ xs) h = ground (arith, kept-kept c now xs h)

pub kept-append :
    (now : Time) (xs ys : List SpendAttempt) → kept now (xs ++ ys) ≡ kept now xs ++ kept now ys
kept-append now [] ys = refl
kept-append now (a ∷ xs) ys = ground (arith, kept-append now xs ys)

-- While the sum lies within the supply, the running sum on int64 is the exact one.
pub sum_from-eq-total :
    (u : ℤ) (xs : List SpendAttempt)
    → pos 0 ≤ℤ u
    → IsCounted xs
    → u +ℤ total xs ≤ℤ pos max_msat
    → sum_from u xs ≡ u +ℤ total xs
unfolding sum_from
sum_from-eq-total u [] lo h hi = omega int_laws
sum_from-eq-total u (a ∷ xs) lo h hi =
    let rest = total_nonneg xs h.1 in
    let step = add64_of_Fits u a.msat (omega (int_laws, h.0)) in
    rw step (
      sum_from-eq-total (u +ℤ a.msat) xs (omega (int_laws, h.0)) h.1 (omega int_laws)
      ∙ omega int_laws)

-- One record refunded is the last one.
pub return_failed-done :
    (key : String) (r : ℤ) (xs : List SpendAttempt)
    → eqb_ℤ r (pos 0) ≡ false
    → return_failed key r xs ≡ xs
unfolding return_failed
return_failed-done key r [] h = refl
return_failed-done key r (a ∷ xs) h = ground (arith, return_failed-done key r xs h)
