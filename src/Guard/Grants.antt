-- ===== src/Guard/Grants.antt =====
-- What one call does to the grant that is outstanding, and what it leaves of the controls.
use brollyzapper.Base.{
  ℕ, ◌+◌, ◌≤◌, ◌≡◌, refl, ◌∙◌, Bool, true, false, not, Option, none, some, List, String, arith,
  if-both, is_some,
}
use brollyzapper.Store.Rows.{Time}
use brollyzapper.Guard.Operator.{
  already_has, sweep_grant, Change, Authorisation, OperatorState, TextFunctions, Answer, Disk, Io,
  Write, saved, unsaved, unread, apply_change, request_authorisation, sweep_expired, check_cap_pair,
  apply, valid, loosens, clear_grant, replace_authorisation, install_grant, expired, commit_change,
  redeem, Verdict, ungranted, redeemed, ended, miscounted, settle_verdict, judge, under_lock,
  Outcome, authorised, tightening, commit_redeemed, Row, request_swept, with_code,
}
use brollyzapper.Guard.Loosening.{SameControls, clear_grant-SameControls}

abbrev pub count_if : Bool → ℕ
count_if true = 1
count_if false = 0

abbrev pub outstanding : OperatorState → ℕ
outstanding st = count_if (is_some st.authorisation)

-- A call that adds no grant.
abbrev IsNoGain : OperatorState → Answer → Type 0
IsNoGain st a = outstanding a.after ≤ outstanding st

clear-less : (d : Disk) (st : OperatorState) → outstanding (clear_grant d st) ≤ outstanding st
unfolding replace_authorisation
clear-less d st = ground arith

settle-less :
    (d : Disk) (c : Change) (v : Verdict) (st : OperatorState)
    → ((g : Authorisation) → v ≡ miscounted g → outstanding st ≡ 1)
    → IsNoGain st (settle_verdict d c v st)
unfolding settle_verdict replace_authorisation
settle-less d c ungranted st h = omega arith
settle-less d c redeemed st h = ground (arith, clear-less d st)
settle-less d c (ended why r) st h = clear-less d st
settle-less d c (miscounted g) st h = ground (arith, h g refl)

judge_miscounted :
    (t : TextFunctions) (now : Time) (c : Change) (code : String) (o : Option Authorisation)
    (g : Authorisation)
    → judge t now c code o ≡ miscounted g
    → count_if (is_some o) ≡ 1
unfolding judge
judge_miscounted t now c code none g h = absurd (ground arith)
judge_miscounted t now c code (some _) g h = refl

lock-less :
    (w : Write) (st : OperatorState) (a : Answer) → IsNoGain st a → IsNoGain st (under_lock w st a)
lock-less unread st a h = omega arith
lock-less unsaved st a h = h
lock-less saved st a h = h

redeem-less :
    (t : TextFunctions) (d : Disk) (now : Time) (c : Change) (code : String) (st : OperatorState)
    → IsNoGain st (redeem t d now c code st)
unfolding redeem
redeem-less t d now c code st =
    lock-less d.write st _ (settle-less d c _ st (judge_miscounted t now c code st.authorisation))

commit-less :
    (w : Write) (c : Change) (how : Outcome) (st : OperatorState)
    → IsNoGain st (commit_change w c how st)
unfolding commit_change apply
commit-less w c how st = ground arith

commit_redeemed-less :
    (w : Write) (c : Change) (st : OperatorState) (a : Answer)
    → IsNoGain st a
    → IsNoGain st (commit_redeemed w c a)
commit_redeemed-less w c st a h = ground (arith, commit-less w c authorised a.after)

pub apply_change-less :
    (t : TextFunctions) (io : Io) (now : Time) (c : Change) (code : String) (st : OperatorState)
    → IsNoGain st (apply_change t io now c code st)
unfolding apply_change
apply_change-less t io now c code st =
    let P = IsNoGain st in
    if-both P (not (valid c)) (λ _. omega arith)
      (λ _.
        if-both P (not io.readable) (λ _. omega arith)
          (λ _.
            if-both P (already_has st c) (λ _. omega arith)
              (λ _.
                if-both P (not (check_cap_pair st c)) (λ _. omega arith)
                  (λ _.
                    if-both P (not (loosens st c)) (λ _. commit-less io.commit c tightening st)
                      (λ _.
                        commit_redeemed-less io.commit c st _
                          (redeem-less t io.grant now c code st))))))

-- A call that leaves the controls, and adds a grant only when it accepts.
abbrev IsFair : OperatorState → Answer → Type 0
IsFair st a =
    SameControls st a.after
    × (outstanding a.after ≤ count_if (not (is_some a.refused)) + outstanding st)

SameControls-trans :
    (a b c : OperatorState) → SameControls a b → SameControls b c → SameControls a c
SameControls-trans a b c s s' = record {
  same_latch = s.same_latch ∙ s'.same_latch;
  same_spend = s.same_spend ∙ s'.same_spend;
  same_payment = s.same_payment ∙ s'.same_payment;
}

pub same : (st : OperatorState) → SameControls st st
same st = record { same_latch = refl; same_spend = refl; same_payment = refl }

sweep_grant-SameControls :
    (d : Disk) (now : Time) (o : Option Authorisation) (st : OperatorState)
    → SameControls st (sweep_grant d now o st).0
      × (outstanding (sweep_grant d now o st).0 ≤ outstanding st)
sweep_grant-SameControls d now none st = (same st, omega arith)
sweep_grant-SameControls d now (some g) st =
    if-both
      (λ (x : OperatorState × List Row). SameControls st x.0 × (outstanding x.0 ≤ outstanding st))
      (expired now g) (λ _. (clear_grant-SameControls d st, clear-less d st))
      (λ _. (same st, omega arith))

pub sweep_expired-SameControls :
    (d : Disk) (now : Time) (st : OperatorState)
    → SameControls st (sweep_expired d now st).0
      × (outstanding (sweep_expired d now st).0 ≤ outstanding st)
unfolding sweep_expired
sweep_expired-SameControls d now st = sweep_grant-SameControls d now st.authorisation st

install-IsFair :
    (io : Io) (now : Time) (g : Authorisation) (rows : List Row) (st : OperatorState)
    → IsFair st (install_grant io now g rows st)
unfolding install_grant replace_authorisation
install-IsFair io now g rows st = (
  record { same_latch = ground arith; same_spend = ground arith; same_payment = ground arith },
  ground arith,
)

with_code-IsFair :
    (io : Io) (now : Time) (c : Change) (st : OperatorState) (rows : List Row) (o : Option String)
    → IsFair st (with_code io now c st rows o)
with_code-IsFair io now c st rows none = (same st, omega arith)
with_code-IsFair io now c st rows (some code) = install-IsFair io now _ rows st

swept-IsFair :
    (io : Io) (now : Time) (new_code : Option String) (c : Change) (x : OperatorState × List Row)
    → IsFair x.0 (request_swept io now new_code c x)
swept-IsFair io now new_code c (st, rows) =
    let P = IsFair st in
    if-both P (not (loosens st c)) (λ _. (same st, omega arith))
      (λ _.
        if-both P (not (check_cap_pair st c)) (λ _. (same st, omega arith))
          (λ _. with_code-IsFair io now c st rows new_code))

pub request-IsFair :
    (io : Io) (now : Time) (new_code : Option String) (c : Change) (st : OperatorState)
    → IsFair st (request_authorisation io now new_code c st)
unfolding request_authorisation
request-IsFair io now new_code c st =
    let P = IsFair st in
    if-both P (not (valid c)) (λ _. (same st, omega arith))
      (λ _.
        if-both P (not io.readable) (λ _. (same st, omega arith))
          (λ _.
            let (s, less) = sweep_expired-SameControls io.sweep now st in
            let (s', less') = swept-IsFair io now new_code c (sweep_expired io.sweep now st) in
            (SameControls-trans st _ _ s s', omega arith)))
