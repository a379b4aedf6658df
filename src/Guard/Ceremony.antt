-- ===== src/Guard/Ceremony.antt =====
-- Runs of the ceremony: how often a control can be loosened.
use brollyzapper.Base.{
  ℕ, ◌+◌, ◌≤◌, ◌≡◌, Bool, true, false, not, ◌&&◌, ◌||◌, inl, inr, Option, none, some, List, [], ◌∷◌,
  String, arith, Bool-cases, is_some,
}
use brollyzapper.Base.Int.{ltb_ℤ}
use brollyzapper.Store.Rows.{Time}
use brollyzapper.Guard.Operator.{
  Change, Authorisation, OperatorState, TextFunctions, Answer, Disk, Io, apply_change,
  request_authorisation, sweep_expired_authorisation, sweep_expired,
}
use brollyzapper.Guard.Loosening.{IsLooser, SameControls, not_looser, apply_change_authorised}
use brollyzapper.Guard.Grants.{
  count_if, outstanding, apply_change-less, same, sweep_expired-SameControls, request-IsFair,
}

-- What reaches the guard, with the clock and what the disk answers.
pub data Call : Type 0 where
  apply_call : Io → Time → Change → String → Call
  request_call : Io → Time → Option String → Change → Call
  sweep_call : Bool → Disk → Time → Call

unfoldable pub handle : TextFunctions → Call → OperatorState → Answer
handle t (apply_call io now c code) st = apply_change t io now c code st
handle t (request_call io now new_code c) st = request_authorisation io now new_code c st
handle t (sweep_call readable d now) st = record {
  refused = none;
  after = (sweep_expired_authorisation readable d now st).0;
  rows = (sweep_expired_authorisation readable d now st).1;
}

abbrev pub handle_all : TextFunctions → List Call → OperatorState → OperatorState
handle_all t [] st = st
handle_all t (c ∷ cs) st = handle_all t cs (handle t c st).after

abbrev pub looser : OperatorState → OperatorState → Bool
looser st st' =
    (not st.sending_latch && st'.sending_latch)
    || (ltb_ℤ st.max_spend_msat st'.max_spend_msat
        || ltb_ℤ st.max_payment_msat st'.max_payment_msat)

-- The calls that loosen a control, and the requests that were granted.
abbrev pub loosenings : TextFunctions → List Call → OperatorState → ℕ
loosenings t [] st = 0
loosenings t (c ∷ cs) st =
    count_if (looser st (handle t c st).after) + loosenings t cs (handle t c st).after

abbrev pub granted : Call → Answer → Bool
granted (request_call io now new_code c) a = not (is_some a.refused)
granted _ a = false

abbrev pub grants : TextFunctions → List Call → OperatorState → ℕ
grants t [] st = 0
grants t (c ∷ cs) st = count_if (granted c (handle t c st)) + grants t cs (handle t c st).after

looser→IsLooser : (st st' : OperatorState) → looser st st' ≡ true → IsLooser st st'
looser→IsLooser st st' h = ground arith

not_looser_same : (st st' : OperatorState) → SameControls st st' → looser st st' ≡ false
not_looser_same st st' s = elim (Bool-cases (looser st st')) [
  | inl l ↦ absurd (not_looser st st' s (looser→IsLooser st st' l))
  | inr e ↦ e
]

stored_one :
    (st : OperatorState) (g : Authorisation) → st.authorisation ≡ some g → 1 ≤ outstanding st
stored_one st g e = ground arith

-- One call: what it loosens and leaves is paid for by what it found and was granted.
handle-paid :
    (t : TextFunctions) (c : Call) (st : OperatorState)
    → count_if (looser st (handle t c st).after) + outstanding (handle t c st).after
      ≤ count_if (granted c (handle t c st)) + outstanding st
unfolding handle
handle-paid t (apply_call io now c code) st =
    elim (Bool-cases (looser st (apply_change t io now c code st).after)) [
      | inl l ↦
          let (g, gone) =
            apply_change_authorised t io now c code st
              (looser→IsLooser st (apply_change t io now c code st).after l) in
          let one = stored_one st g.grant g.is_stored in rw l (rw gone (omega arith))
      | inr n ↦ let less = apply_change-less t io now c code st in rw n (omega arith)
    ]
handle-paid t (request_call io now new_code c) st =
    let (s, paid) = request-IsFair io now new_code c st in
    rw (not_looser_same st (request_authorisation io now new_code c st).after s) (omega arith)
handle-paid t (sweep_call true d now) st =
    let (s, less) = sweep_expired-SameControls d now st in
    rw (not_looser_same st (sweep_expired d now st).0 s) (omega arith)
handle-paid t (sweep_call false d now) st = rw (not_looser_same st st (same st)) (omega arith)

-- Over any run of calls, on any clock and any disk: the loosenings, with the grant that is left, are at
-- most the requests that were granted, with the grant there was at the start. So each granted request
-- allows one loosening at most, and there is none without one.
pub single_use :
    (t : TextFunctions) (cs : List Call) (st : OperatorState)
    → loosenings t cs st + outstanding (handle_all t cs st) ≤ grants t cs st + outstanding st
single_use t [] st = omega arith
single_use t (c ∷ cs) st =
    let one = handle-paid t c st in let rest = single_use t cs (handle t c st).after in omega arith
