-- ===== src/Guard/Refines.antt =====
-- The guard's pruned window answers as the whole log would, and the log keeps to the cap.
use brollyzapper.Base.{
  ℕ, ◌≤◌, ◌≡◌, refl, sym, ap, subst, ◌∙◌, true, false, Option, none, some, List, [], ◌∷◌, ◌++◌,
  arith, Bool-cases, inl, inr,
}
use brollyzapper.Base.Int.{ℤ, pos, ◌+ℤ◌, ◌≤ℤ◌, ltb_ℤ, int_laws}
use brollyzapper.Base.Int64.{add64_of_Fits}
use brollyzapper.Store.Rows.{Time}
use brollyzapper.Store.Ledger.Append.{max_msat}
use brollyzapper.Guard.Window.{
  SpendAttempt, Caps, kept, sum_from, spend_window_used, SpendRefusal, over_payment_cap, refusal,
  record_attempt, intercept,
}
use brollyzapper.Guard.Sums.{
  total, IsCounted, total_nonneg, total-append, total-kept-le, kept-IsCounted, kept-kept,
  kept-append, sum_from-eq-total,
}
use brollyzapper.Guard.Log.{decide, log_if}

-- The guard's state and the log agree on what the window at the clock `c` counts.
pub record Sync (c : Time) (st log : Caps) : Type 0 where
  pub same : kept c st.spend_attempts ≡ kept c log.spend_attempts
  pub same_spend : st.max_spend_msat ≡ log.max_spend_msat
  pub same_payment : st.max_payment_msat ≡ log.max_payment_msat
  pub counted : IsCounted log.spend_attempts
  pub within : total (kept c log.spend_attempts) ≤ℤ log.max_spend_msat
  pub spend_fits : log.max_spend_msat ≤ℤ pos max_msat
  pub payment_fits : log.max_payment_msat ≤ℤ pos max_msat

kept_later :
    (c now : Time) (xs ys : List SpendAttempt)
    → c ≤ now
    → kept c xs ≡ kept c ys
    → kept now xs ≡ kept now ys
kept_later c now xs ys h e = sym (kept-kept c now xs h) ∙ ap (kept now) e ∙ kept-kept c now ys h

within_later :
    (c now : Time) (xs : List SpendAttempt)
    → c ≤ now
    → IsCounted xs
    → total (kept now xs) ≤ℤ total (kept c xs)
within_later c now xs h counted =
    subst (λ (ys : List SpendAttempt). total ys ≤ℤ total (kept c xs)) (kept-kept c now xs h)
      (total-kept-le now (kept c xs) (kept-IsCounted c xs counted))

pub Sync-later : (c now : Time) (st log : Caps) → c ≤ now → Sync c st log → Sync now st log
Sync-later c now st log h s = record {
  same = kept_later c now st.spend_attempts log.spend_attempts h s.same;
  same_spend = s.same_spend;
  same_payment = s.same_payment;
  counted = s.counted;
  within = omega (arith, within_later c now log.spend_attempts h s.counted, s.within);
  spend_fits = s.spend_fits;
  payment_fits = s.payment_fits;
}

used_exact :
    (now : Time) (st log : Caps)
    → Sync now st log
    → sum_from (pos 0) (kept now st.spend_attempts) ≡ total (kept now log.spend_attempts)
used_exact now st log s =
    ap (sum_from (pos 0)) s.same
    ∙ sum_from-eq-total (pos 0) (kept now log.spend_attempts) (omega arith)
        (kept-IsCounted now log.spend_attempts s.counted) (omega (int_laws, s.within, s.spend_fits))
    ∙ omega int_laws

refusal_over :
    (bound : ℕ) (cost used : ℤ) (xs : List SpendAttempt) (st : Caps)
    → ltb_ℤ st.max_payment_msat cost ≡ true
    → refusal bound cost (used, xs) st ≡ some over_payment_cap
unfolding refusal
refusal_over bound cost used xs st h = rw h refl

refusal_exact :
    (bound : ℕ) (cost : ℤ) (now : Time) (st log : Caps)
    → pos 1 ≤ℤ cost
    → Sync now st log
    → ltb_ℤ log.max_payment_msat cost ≡ false
    → refusal bound cost (total (kept now log.spend_attempts), kept now log.spend_attempts) log
      ≡ decide bound cost now log
unfolding refusal decide
refusal_exact bound cost now st log lo s h =
    let hi : cost ≤ℤ log.max_payment_msat = ground arith in
    let base =
      total_nonneg (kept now log.spend_attempts)
        (kept-IsCounted now log.spend_attempts s.counted) in
    rw
      (add64_of_Fits (total (kept now log.spend_attempts)) cost
        (omega (int_laws, hi, base, s.within, s.spend_fits, s.payment_fits)))
      refl

refusal_alike :
    (bound : ℕ) (cost used : ℤ) (xs : List SpendAttempt) (st log : Caps)
    → st.max_spend_msat ≡ log.max_spend_msat
    → st.max_payment_msat ≡ log.max_payment_msat
    → refusal bound cost (used, xs) st ≡ refusal bound cost (used, xs) log
unfolding refusal
refusal_alike bound cost used xs st log e f = rw (e, f) refl

decide_over :
    (bound : ℕ) (cost : ℤ) (now : Time) (log : Caps)
    → ltb_ℤ log.max_payment_msat cost ≡ true
    → decide bound cost now log ≡ some over_payment_cap
unfolding decide
decide_over bound cost now log h = rw h refl

-- The decision of the guard is the decision of the log.
pub decision :
    (bound : ℕ) (cost : ℤ) (now : Time) (st log : Caps)
    → pos 1 ≤ℤ cost
    → Sync now st log
    → refusal bound cost (spend_window_used st.spend_attempts now) st ≡ decide bound cost now log
unfolding spend_window_used
decision bound cost now st log lo s =
    refusal_alike bound cost _ _ st log s.same_spend s.same_payment
    ∙ rw (used_exact now st log s, s.same)
        (elim (Bool-cases (ltb_ℤ log.max_payment_msat cost)) [
          | inl over ↦
              refusal_over bound cost _ _ log over ∙ sym (decide_over bound cost now log over)
          | inr under ↦ refusal_exact bound cost now st log lo s under
        ])

kept_one : (now : Time) (a : SpendAttempt) → now ≤ a.at → kept now (a ∷ []) ≡ a ∷ []
kept_one now a h = ground arith

append-IsCounted :
    (xs : List SpendAttempt) (a : SpendAttempt)
    → IsCounted xs
    → pos 1 ≤ℤ a.msat
    → IsCounted (xs ++ (a ∷ []))
append-IsCounted [] a h lo = (lo, tt)
append-IsCounted (x ∷ xs) a h lo = (h.0, append-IsCounted xs a h.1 lo)

admitted :
    (bound : ℕ) (cost : ℤ) (now : Time) (log : Caps)
    → decide bound cost now log ≡ none
    → total (kept now log.spend_attempts) +ℤ cost ≤ℤ log.max_spend_msat
unfolding decide
admitted bound cost now log h = ground arith

appended :
    (now : Time) (a : SpendAttempt) (xs ys : List SpendAttempt)
    → now ≤ a.at
    → kept now xs ≡ kept now ys
    → kept a.at (kept now xs ++ (a ∷ [])) ≡ kept a.at (ys ++ (a ∷ []))
appended now a xs ys h e =
    kept-append a.at (kept now xs) (a ∷ [])
    ∙ ap (λ (zs : List SpendAttempt). zs ++ kept a.at (a ∷ []))
        (kept-kept now a.at xs h ∙ kept_later now a.at xs ys h e)
    ∙ sym (kept-append a.at ys (a ∷ []))

admit-Sync :
    (bound : ℕ) (a : SpendAttempt) (now : Time) (st log : Caps)
    → now ≤ a.at
    → pos 1 ≤ℤ a.msat
    → Sync now st log
    → decide bound a.msat now log ≡ none
    → Sync a.at
        (record st { spend_attempts = kept now st.spend_attempts ++ (a ∷ []) })
        (log_if none a log)
admit-Sync bound a now st log h lo s ok = record {
  same = appended now a st.spend_attempts log.spend_attempts h s.same;
  same_spend = s.same_spend;
  same_payment = s.same_payment;
  counted = append-IsCounted log.spend_attempts a s.counted lo;
  within =
      let older = within_later now a.at log.spend_attempts h s.counted in
      let sum : total (kept a.at (log.spend_attempts ++ (a ∷ [])))
          ≡ total (kept a.at log.spend_attempts) +ℤ a.msat =
        ap total (kept-append a.at log.spend_attempts (a ∷ []))
        ∙ rw (kept_one a.at a (omega arith)) (total-append (kept a.at log.spend_attempts) a) in
      subst (λ (x : ℤ). x ≤ℤ log.max_spend_msat) (sym sum)
        (omega (int_laws, older, admitted bound a.msat now log ok));
  spend_fits = s.spend_fits;
  payment_fits = s.payment_fits;
}

record_none :
    (bound : ℕ) (a : SpendAttempt) (now : Time) (st : Caps) (r : Option SpendRefusal)
    → refusal bound a.msat (spend_window_used st.spend_attempts now) st ≡ r
    → intercept bound a now st ≡ record_attempt r a now st
unfolding intercept
record_none bound a now st r e = ap (λ (q : Option SpendRefusal). record_attempt q a now st) e

-- One attempt: the same answer, and the two still agree at its clock.
pub intercept-Sync :
    (bound : ℕ) (a : SpendAttempt) (now : Time) (st log : Caps)
    → now ≤ a.at
    → pos 1 ≤ℤ a.msat
    → Sync now st log
    → ((intercept bound a now st).0 ≡ decide bound a.msat now log)
      × Sync a.at (intercept bound a now st).1 (log_if (decide bound a.msat now log) a log)
unfolding record_attempt
intercept-Sync bound a now st log h lo s = go (decide bound a.msat now log) refl
  where
    go :
        (r : Option SpendRefusal)
        → decide bound a.msat now log ≡ r
        → ((intercept bound a now st).0 ≡ r)
          × Sync a.at (intercept bound a now st).1 (log_if r a log)
    go none e =
        rw (record_none bound a now st none (decision bound a.msat now st log lo s ∙ e))
          (refl, admit-Sync bound a now st log h lo s e)
    go (some q) e =
        rw (record_none bound a now st (some q) (decision bound a.msat now st log lo s ∙ e))
          (refl, Sync-later now a.at st log h s)
