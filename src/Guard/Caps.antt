-- ===== src/Guard/Caps.antt =====
-- The cap over any run of attempts and failures.
use brollyzapper.Base.{
  ℕ, ◌≡◌, refl, sym, ap, subst, ◌∙◌, Bool, true, false, ◌&&◌, Option, none, some, List, [], ◌∷◌,
  String, str_eq, arith, if◌then◌else◌, Bool-cases, inl, inr,
}
use brollyzapper.Base.Int.{ℤ, pos, ◌+ℤ◌, ◌≤ℤ◌, eqb_ℤ, int_laws}
use brollyzapper.Store.Rows.{Time}
use brollyzapper.Store.Ledger.Append.{max_msat}
use brollyzapper.Guard.Window.{
  SpendAttempt, Caps, is_inside, kept, SpendRefusal, intercept, return_failed, observe_failed,
}
use brollyzapper.Guard.Sums.{total, IsCounted, kept-kept, return_failed-done}
use brollyzapper.Guard.Log.{
  decide, log_if, remove_inside, log_failed, Event, attempt, failed, answers, log_answers,
  final_log, IsTimed, end_of,
}
use brollyzapper.Guard.Refines.{Sync, Sync-later, intercept-Sync}

nonzero : (a : ℤ) → pos 1 ≤ℤ a → eqb_ℤ a (pos 0) ≡ false
nonzero a h = ground arith

kept-remove :
    (key : String) (now : Time) (xs : List SpendAttempt)
    → IsCounted xs
    → kept now (remove_inside key now xs) ≡ return_failed key (pos 0) (kept now xs)
unfolding return_failed
kept-remove key now [] h = refl
kept-remove key now (a ∷ xs) h = elim (Bool-cases (is_inside now a)) [
  | inl here ↦ elim (Bool-cases (str_eq a.key key)) [
    | inl hit ↦ ground (arith, return_failed-done key a.msat (kept now xs) (nonzero a.msat h.0))
    | inr other ↦ ground (arith, kept-remove key now xs h.1)
  ]
  | inr old ↦ ground (arith, kept-remove key now xs h.1)
]

remove-IsCounted :
    (key : String) (now : Time) (xs : List SpendAttempt)
    → IsCounted xs
    → IsCounted (remove_inside key now xs)
remove-IsCounted key now [] h = tt
remove-IsCounted key now (a ∷ xs) h = ground (arith, remove-IsCounted key now xs h.1)

total-if :
    (b : Bool) (a : SpendAttempt) (xs : List SpendAttempt)
    → total (if b then a ∷ xs else xs) ≡ (if b then a.msat +ℤ total xs else total xs)
total-if true a xs = refl
total-if false a xs = refl

less_one : (b : Bool) (a t k : ℤ) → k ≤ℤ t → (if b then a +ℤ k else k) ≤ℤ (if b then a +ℤ t else t)
less_one true a t k h = omega int_laws
less_one false a t k h = h

drop_one : (b : Bool) (a t : ℤ) → pos 1 ≤ℤ a → t ≤ℤ (if b then a +ℤ t else t)
drop_one true a t h = omega int_laws
drop_one false a t h = omega arith

total-remove-le :
    (key : String) (now : Time) (xs : List SpendAttempt)
    → IsCounted xs
    → total (kept now (remove_inside key now xs)) ≤ℤ total (kept now xs)
total-remove-le key now [] h = omega arith
total-remove-le key now (a ∷ xs) h =
    rw (total-if (is_inside now a) a (kept now xs))
      (elim (Bool-cases (is_inside now a && str_eq a.key key)) [
        | inl hit ↦ rw hit (drop_one (is_inside now a) a.msat (total (kept now xs)) h.0)
        | inr other ↦ rw other (
            rw (total-if (is_inside now a) a (kept now (remove_inside key now xs))) (
              less_one (is_inside now a) a.msat (total (kept now xs))
                (total (kept now (remove_inside key now xs))) (total-remove-le key now xs h.1)))
      ])

-- A failure that is observed: the two still agree.
failed-Sync :
    (key : String) (now : Time) (st log : Caps)
    → Sync now st log
    → Sync now (observe_failed key now st) (log_failed key now log)
unfolding observe_failed
failed-Sync key now st log s = record {
  same =
      ap (λ (ys : List SpendAttempt). kept now (return_failed key (pos 0) ys)) s.same
      ∙ ap (kept now) (sym (kept-remove key now log.spend_attempts s.counted))
      ∙ kept-kept now now (remove_inside key now log.spend_attempts) (omega arith);
  same_spend = s.same_spend;
  same_payment = s.same_payment;
  counted = remove-IsCounted key now log.spend_attempts s.counted;
  within = omega (arith, total-remove-le key now log.spend_attempts s.counted, s.within);
  spend_fits = s.spend_fits;
  payment_fits = s.payment_fits;
}

-- From a state that agrees with a log, every answer of the guard to a run of attempts and failures, on
-- a clock that does not run backwards and with positive prices, is the log's answer: nothing that the
-- pruning forgets would have changed a decision, and no sum wraps around.
pub answers-log_answers :
    (bound : ℕ) (c : Time) (es : List (Time × Event)) (st log : Caps)
    → IsTimed c es
    → Sync c st log
    → answers bound es st ≡ log_answers bound es log
answers-log_answers bound c [] st log h s = refl
answers-log_answers bound c ((now, attempt a) ∷ es) st log h s =
    let (same, next) = intercept-Sync bound a now st log h.1 h.2 (Sync-later c now st log h.0 s) in
    rw same (
      ap (λ (rs : List (Option SpendRefusal)). decide bound a.msat now log ∷ rs)
        (answers-log_answers bound a.at es (intercept bound a now st).1
          (log_if (decide bound a.msat now log) a log) h.3 next))
answers-log_answers bound c ((now, failed key) ∷ es) st log h s =
    answers-log_answers bound now es (observe_failed key now st) (log_failed key now log) h.1
      (failed-Sync key now st log (Sync-later c now st log h.0 s))

log-within :
    (bound : ℕ) (c : Time) (es : List (Time × Event)) (st log : Caps)
    → IsTimed c es
    → Sync c st log
    → (st' : Caps) × Sync (end_of c es) st' (final_log bound es log)
log-within bound c [] st log h s = (st, s)
log-within bound c ((now, attempt a) ∷ es) st log h s =
    let (same, next) = intercept-Sync bound a now st log h.1 h.2 (Sync-later c now st log h.0 s) in
    log-within bound a.at es (intercept bound a now st).1
      (log_if (decide bound a.msat now log) a log) h.3 next
log-within bound c ((now, failed key) ∷ es) st log h s =
    log-within bound now es (observe_failed key now st) (log_failed key now log) h.1
      (failed-Sync key now st log (Sync-later c now st log h.0 s))

-- A guard that starts with no attempts, and caps within the supply.
abbrev pub fresh : ℤ → ℤ → Caps
fresh spend payment = record {
  spend_attempts = [];
  max_spend_msat = spend;
  max_payment_msat = payment;
}

pub fresh-Sync :
    (c : Time) (spend payment : ℤ)
    → pos 0 ≤ℤ spend
    → spend ≤ℤ pos max_msat
    → payment ≤ℤ pos max_msat
    → Sync c (fresh spend payment) (fresh spend payment)
fresh-Sync c spend payment lo hi hi' = record {
  same = refl;
  same_spend = refl;
  same_payment = refl;
  counted = tt;
  within = lo;
  spend_fits = hi;
  payment_fits = hi';
}

unchanged_cap :
    (bound : ℕ) (es : List (Time × Event)) (log : Caps)
    → (final_log bound es log).max_spend_msat ≡ log.max_spend_msat
unchanged_cap bound [] log = refl
unchanged_cap bound ((now, attempt a) ∷ es) log =
    unchanged_cap bound es (log_if (decide bound a.msat now log) a log)
    ∙ kept_cap (decide bound a.msat now log)
  where
    kept_cap : (r : Option SpendRefusal) → (log_if r a log).max_spend_msat ≡ log.max_spend_msat
    kept_cap none = refl
    kept_cap (some e) = refl
unchanged_cap bound ((now, failed key) ∷ es) log = unchanged_cap bound es (log_failed key now log)

-- From a guard with no attempts, and caps from 0 to the supply: after any run of attempts and failures
-- on a clock that does not run backwards, with positive prices, the guard has answered as the log does,
-- and what the log lets through in the last day, less what has failed, is within the cap.
pub spend_cap_holds :
    (bound : ℕ) (c : Time) (spend payment : ℤ) (es : List (Time × Event))
    → pos 0 ≤ℤ spend
    → spend ≤ℤ pos max_msat
    → payment ≤ℤ pos max_msat
    → IsTimed c es
    → (answers bound es (fresh spend payment) ≡ log_answers bound es (fresh spend payment))
      × (total (kept (end_of c es) (final_log bound es (fresh spend payment)).spend_attempts)
          ≤ℤ spend)
spend_cap_holds bound c spend payment es lo hi hi' timed =
    let start = fresh-Sync c spend payment lo hi hi' in
    let (_, s) = log-within bound c es (fresh spend payment) (fresh spend payment) timed start in
    (
      answers-log_answers bound c es (fresh spend payment) (fresh spend payment) timed start,
      subst
          (λ (x : ℤ).
            total (kept (end_of c es) (final_log bound es (fresh spend payment)).spend_attempts)
            ≤ℤ x)
          (unchanged_cap bound es (fresh spend payment)) s.within,
    )
