-- ===== src/Tests/Guard.antt =====
-- The results on the guard.
use brollyzapper.Base.{
  ◌≡◌, ◌≤◌, ◌+◌, refl, true, false, inl, inr, Option, none, some, List, [], ◌∷◌, String, str_eq,
  arith, if◌then◌else◌,
}
use brollyzapper.Base.Int.{ℤ, pos, ◌+ℤ◌, ◌-ℤ◌, ◌*ℤ◌, ◌≤ℤ◌}
use brollyzapper.Base.Int64.{mul64, wrap64, sub64, add64}
use brollyzapper.Store.Rows.{Time, second}
use brollyzapper.Guard.Price.{SendRequest, price_attempt, costs}
use brollyzapper.Guard.Window.{SpendAttempt, kept}
use brollyzapper.Guard.Sums.{total}
use brollyzapper.Guard.Log.{Event, attempt, failed, answers, log_answers, final_log, end_of}
use brollyzapper.Guard.Caps.{fresh, spend_cap_holds}
use brollyzapper.Guard.Operator.{
  Change, Authorisation, OperatorState, TextFunctions, Io, saved, sending, spend_cap, apply_change,
  change_eq, replace_authorisation, request_authorisation,
}
use brollyzapper.Guard.Loosening.{IsGrantFor, apply_change_authorised}
use brollyzapper.Guard.Ceremony.{
  Call, handle, apply_call, request_call, sweep_call, handle_all, loosenings, grants, single_use,
}
use brollyzapper.Guard.Grants.{outstanding}
use brollyzapper.Guard.Pair.{IsPair, handle_all-IsPair}
use brollyzapper.Guard.File.{healthy}
use brollyzapper.Tests.Fixtures.{noon}

-- One invoice can be read; it names 5 sat.
abbrev read_invoice : String → Option ℤ
read_invoice s = if str_eq s "lnbc5" then some (pos 5000) else none

-- A request that claims 1 msat for it, at a fee of at most 2 sat.
abbrev claim : SendRequest
claim = record {
  amt_msat = pos 1;
  amt = pos 0;
  payment_request = "lnbc5";
  fee_limit_msat = pos 0;
  fee_limit_sat = pos 2;
}

claim_costs : price_attempt read_invoice claim ≡ costs (pos 7000)
unfolding price_attempt mul64 wrap64 ◌*ℤ◌ sub64 ◌-ℤ◌ add64 ◌+ℤ◌
claim_costs = refl

-- Two attempts of 6 sat under a cap of 10, and a third after the first has failed.
abbrev first : SpendAttempt
first = record { key = "a"; at = noon; msat = pos 6000 }

abbrev second_try : SpendAttempt
second_try = record { key = "b"; at = noon + second; msat = pos 6000 }

abbrev third : SpendAttempt
third = record { key = "c"; at = noon + second; msat = pos 6000 }

abbrev day : List (Time × Event)
day =
    (noon, attempt first)
    ∷ (noon + second, attempt second_try)
    ∷ (noon + second, failed "a")
    ∷ (noon + second, attempt third)
    ∷ []

spend_cap_holds_example :
    (answers 5000 day (fresh (pos 10000) (pos 8000))
      ≡ log_answers 5000 day (fresh (pos 10000) (pos 8000)))
    × (total (
          kept (end_of noon day) (final_log 5000 day (fresh (pos 10000) (pos 8000))).spend_attempts)
        ≤ℤ pos 10000)
spend_cap_holds_example =
    spend_cap_holds 5000 noon (pos 10000) (pos 8000) day (omega arith) (omega arith) (omega arith) (
      omega arith,
      omega arith,
      omega arith,
      (
        omega arith,
        omega arith,
        omega arith,
        (omega arith, (omega arith, omega arith, omega arith, tt)),
      ),
    )

-- Codes are typed as they are shown.
abbrev plain : TextFunctions
plain = record { trim_space = λ s. s; remove_dashes = λ s. s; to_upper = λ s. s }

abbrev calm : Io
calm = record {
  readable = true;
  sweep = healthy;
  file_written = true;
  grant = healthy;
  commit = saved;
}

abbrev raise : Change
raise = record { control = spend_cap; on = false; msat = pos 50000 }

abbrev grant : Authorisation
grant = record { change = raise; code = "7K2M-9QRT"; expires_at = noon + second; attempts = 1 }

abbrev pub controls : OperatorState
controls = record {
  sending_latch = false;
  max_spend_msat = pos 10000;
  max_payment_msat = pos 8000;
  authorisation = some grant;
  file = some "7K2M-9QRT";
}

apply_change_authorised_example :
    IsGrantFor plain noon raise "7K2M-9QRT" controls
    × ((apply_change plain calm noon raise "7K2M-9QRT" controls).after.authorisation ≡ none)
unfolding apply_change change_eq
apply_change_authorised_example =
    apply_change_authorised plain calm noon raise "7K2M-9QRT" controls (inr (inl (omega arith)))

-- The code is used, used again, and a new one is asked for and left to expire.
abbrev calls : List Call
calls =
    apply_call calm noon raise "7K2M-9QRT"
    ∷ apply_call calm noon (record raise { msat = pos 90000 }) "7K2M-9QRT"
    ∷ request_call calm noon (some "AAAA-BBBB") (record raise { control = sending; on = true })
    ∷ sweep_call true healthy (noon + noon)
    ∷ []

single_use_example :
    loosenings plain calls controls + outstanding (handle_all plain calls controls)
    ≤ grants plain calls controls + outstanding controls
single_use_example = single_use plain calls controls

loosenings_once : loosenings plain calls controls ≡ 1
unfolding handle apply_change change_eq replace_authorisation request_authorisation
loosenings_once = refl

handle_all-IsPair_example : IsPair (handle_all plain calls controls)
handle_all-IsPair_example = handle_all-IsPair plain calls controls (omega arith)
