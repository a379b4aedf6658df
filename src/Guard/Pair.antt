-- ===== src/Guard/Pair.antt =====
-- What every call keeps: the pair of caps, and the operator's file.
use brollyzapper.Base.{◌≡◌, true, false, not, List, [], ◌∷◌, String, arith, if-both}
use brollyzapper.Base.Int.{◌≤ℤ◌}
use brollyzapper.Store.Rows.{Time}
use brollyzapper.Guard.Operator.{
  Change, OperatorState, TextFunctions, Answer, Io, Write, saved, unsaved, unread, Outcome, redeem,
  commit_change, commit_redeemed, apply_change, check_cap_pair, apply, valid, already_has, loosens,
  authorised, tightening,
}
use brollyzapper.Guard.Loosening.{SameControls, redeem-SameControls}
use brollyzapper.Guard.Ceremony.{Call, apply_call, request_call, sweep_call, handle, handle_all}
use brollyzapper.Guard.Grants.{request-IsFair, sweep_expired-SameControls}

-- A payment at its cap fits in the window.
abbrev pub IsPair : OperatorState → Type 0
IsPair st = st.max_payment_msat ≤ℤ st.max_spend_msat

same-IsPair : (st st' : OperatorState) → SameControls st st' → IsPair st → IsPair st'
same-IsPair st st' s h = ground (arith, s.same_spend, s.same_payment)

apply-IsPair :
    (c : Change) (st : OperatorState) → check_cap_pair st c ≡ true → IsPair st → IsPair (apply c st)
unfolding check_cap_pair apply
apply-IsPair c st ok h = ground arith

check-same :
    (c : Change) (st st' : OperatorState)
    → SameControls st st'
    → check_cap_pair st c ≡ true
    → check_cap_pair st' c ≡ true
unfolding check_cap_pair
check-same c st st' s h = ground (arith, s.same_spend, s.same_payment)

commit-IsPair :
    (w : Write) (c : Change) (how : Outcome) (st : OperatorState)
    → check_cap_pair st c ≡ true
    → IsPair st
    → IsPair (commit_change w c how st).after
unfolding commit_change
commit-IsPair saved c how st ok h = apply-IsPair c st ok h
commit-IsPair unsaved c how st ok h = h
commit-IsPair unread c how st ok h = h

commit_redeemed-IsPair :
    (w : Write) (c : Change) (a : Answer)
    → check_cap_pair a.after c ≡ true
    → IsPair a.after
    → IsPair (commit_redeemed w c a).after
commit_redeemed-IsPair w c a ok h = ground (arith, commit-IsPair w c authorised a.after ok h)

apply_change-IsPair :
    (t : TextFunctions) (io : Io) (now : Time) (c : Change) (code : String) (st : OperatorState)
    → IsPair st
    → IsPair (apply_change t io now c code st).after
unfolding apply_change
apply_change-IsPair t io now c code st h =
    let P = λ (a : Answer). IsPair a.after in
    let same = redeem-SameControls t io.grant now c code st in
    if-both P (not (valid c)) (λ _. h)
      (λ _.
        if-both P (not io.readable) (λ _. h)
          (λ _.
            if-both P (already_has st c) (λ _. h)
              (λ _.
                if-both P (not (check_cap_pair st c)) (λ _. h)
                  (λ ok.
                    if-both P (not (loosens st c))
                      (λ _. commit-IsPair io.commit c tightening st (ground arith) h)
                      (λ _.
                        commit_redeemed-IsPair io.commit c (redeem t io.grant now c code st)
                          (check-same c st _ same (ground arith)) (same-IsPair st _ same h))))))

-- Whatever the calls, the clock and the disk: from caps of which the one for a payment is at most the
-- one for the window, every run of calls leaves it so.
pub handle_all-IsPair :
    (t : TextFunctions) (cs : List Call) (st : OperatorState)
    → IsPair st
    → IsPair (handle_all t cs st)
unfolding handle
handle_all-IsPair t [] st h = h
handle_all-IsPair t (apply_call io now c code ∷ cs) st h =
    handle_all-IsPair t cs _ (apply_change-IsPair t io now c code st h)
handle_all-IsPair t (request_call io now new_code c ∷ cs) st h =
    handle_all-IsPair t cs _ (same-IsPair st _ (request-IsFair io now new_code c st).0 h)
handle_all-IsPair t (sweep_call true d now ∷ cs) st h =
    handle_all-IsPair t cs _ (same-IsPair st _ (sweep_expired-SameControls d now st).0 h)
handle_all-IsPair t (sweep_call false d now ∷ cs) st h = handle_all-IsPair t cs _ h
