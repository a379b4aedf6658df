-- ===== src/Zap/Backoff.antt =====
-- The wait between two attempts, in closed form.
use brollyzapper.Base.{
  ℕ, zero, suc, ◌-◌, ◌*◌, ◌^◌, ◌≤◌, ◌≡◌, refl, ◌∙◌, ap, true, leb, arith, Bool-cases, inl, inr,
}
use brollyzapper.Store.Rows.{Time}
use brollyzapper.Zap.Publish.{first_backoff, max_backoff, min, doubled, backoff}

power : (n : ℕ) → 2 ^ suc n ≡ 2 * 2 ^ n
power n = grind arith

power_pos : (n : ℕ) → 1 ≤ 2 ^ n
power_pos zero = omega arith
power_pos (suc n) = omega (arith, power n, power_pos n)

grows : (wait : Time) (n : ℕ) → wait ≤ wait * 2 ^ n
grows wait n = let p = power_pos n in grind arith

regroup : (wait : Time) (n : ℕ) → wait * 2 * 2 ^ n ≡ wait * 2 ^ suc n
regroup wait n = rw (power n) (grind arith)

both_full : (a b : Time) → leb max_backoff a ≡ true → a ≤ b → min a max_backoff ≡ min b max_backoff
both_full a b h k = ground arith

doubled-min :
    (n : ℕ) (wait : Time) → min (doubled n wait) max_backoff ≡ min (wait * 2 ^ n) max_backoff
unfolding doubled
doubled-min zero wait = let e : wait * 1 ≡ wait = omega arith in rw e refl
doubled-min (suc n) wait = elim (Bool-cases (leb max_backoff wait)) [
  | inl enough ↦
      rw (enough, doubled) (both_full wait (wait * 2 ^ suc n) enough (grows wait (suc n)))
  | inr short ↦
      rw (short, doubled)
        (doubled-min n (wait * 2) ∙ ap (λ (w : Time). min w max_backoff) (regroup wait n))
]

-- The wait after an attempt is half a minute, doubled for each attempt before it, and half an hour at most.
pub backoff_closed :
    (attempts : ℕ) → backoff attempts ≡ min (first_backoff * 2 ^ (attempts - 1)) max_backoff
unfolding backoff
backoff_closed attempts = doubled-min (attempts - 1) first_backoff
