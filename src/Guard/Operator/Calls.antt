-- ===== src/Guard/Operator/Calls.antt =====
-- guard/operator.go and guard/authorisation.go: the ceremony that authorises a loosening. `updateIf` reads,
-- decides and saves under one lock; `Disk` says what the disk answers.
use brollyzapper.Base.{
  suc, ◌+◌, Bool, not, Option, none, some, List, [], ◌∷◌, ◌++◌, String, if◌then◌else◌, ltb,
}
use brollyzapper.Store.Rows.{Time}
use brollyzapper.Guard.Operator.Rules.{
  Change, Authorisation, OperatorState, authorisation_ttl, max_authorisation_attempts,
  TextFunctions, matches, expired, DiscardReason, Outcome, Row, Refusal, Answer, discard_expired,
  offered_against, too_many_wrong, superseded, issued, authorised, tightening, wrong_code,
  discarded, invalid_change, state_unreadable, not_a_loosening, cap_pair, no_code, file_unwritten,
  state_unwritten, authorisation_required, grant_expired, different_change, grant_spent, code_wrong,
  change_eq, valid, loosens, already_has, apply, check_cap_pair,
}

-- One `updateIf`: the state could not be read, could not be saved, or was saved.
pub data Write : Type 0 where
  unread unsaved saved : Write

-- One clear of the grant: the save, and whether the operator's file could be removed.
pub record Disk : Type 0 where
  pub write : Write
  pub removed : Bool

abbrev pub clear_authorisation_file : Disk → OperatorState → OperatorState
clear_authorisation_file d st = if d.removed then record st { file = none } else st

unfoldable pub replace_authorisation : Option Authorisation → OperatorState → OperatorState
replace_authorisation next st = record st { authorisation = next }

-- The file goes before the save.
abbrev pub clear_grant : Disk → OperatorState → OperatorState
clear_grant d st = elim d.write [
  | unread ↦ st
  | unsaved ↦ clear_authorisation_file d st
  | saved ↦ replace_authorisation none (clear_authorisation_file d st)
]

abbrev pub swept_rows : Write → Change → List Row
swept_rows saved c = record { about = c; outcome = discarded discard_expired } ∷ []
swept_rows _ c = []

abbrev pub sweep_grant :
    Disk → Time → Option Authorisation → OperatorState → OperatorState × List Row
sweep_grant d now none st = (st, [])
sweep_grant d now (some g) st =
    if expired now g then (clear_grant d st, swept_rows d.write g.change) else (st, [])

unfoldable pub sweep_expired : Disk → Time → OperatorState → OperatorState × List Row
sweep_expired d now st = sweep_grant d now st.authorisation st

abbrev pub sweep_expired_authorisation :
    Bool → Disk → Time → OperatorState → OperatorState × List Row
sweep_expired_authorisation readable d now st =
    if readable then sweep_expired d now st else (st, [])

-- What the stored grant makes of a code for a change.
pub data Verdict : Type 0 where
  ungranted redeemed : Verdict
  ended : DiscardReason → Refusal → Verdict
  miscounted : Authorisation → Verdict

abbrev pub judge_code : TextFunctions → String → Authorisation → Verdict
judge_code t code g =
    if matches t g code
    then redeemed
    else if ltb (suc g.attempts) max_authorisation_attempts
    then miscounted (record g { attempts = suc g.attempts })
    else ended too_many_wrong grant_spent

unfoldable pub judge : TextFunctions → Time → Change → String → Option Authorisation → Verdict
judge t now change code none = ungranted
judge t now change code (some g) =
    if expired now g
    then ended discard_expired grant_expired
    else if not (change_eq g.change change)
    then ended offered_against different_change
    else judge_code t code g

unfoldable pub settle_verdict : Disk → Change → Verdict → OperatorState → Answer
settle_verdict d change ungranted st = record {
  refused = some authorisation_required;
  after = st;
  rows = [];
}
settle_verdict d change (ended why r) st = record {
  refused = some r;
  after = clear_grant d st;
  rows = record { about = change; outcome = discarded why } ∷ [];
}
settle_verdict d change (miscounted g) st = elim d.write [
  | saved ↦ record {
    refused = some (code_wrong g.attempts);
    after = replace_authorisation (some g) st;
    rows = record { about = change; outcome = wrong_code } ∷ [];
  }
  | _ ↦ record { refused = some state_unwritten; after = st; rows = [] }
]
settle_verdict d change redeemed st = elim d.write [
  | saved ↦ record { refused = none; after = clear_grant d st; rows = [] }
  | _ ↦ record { refused = some state_unwritten; after = clear_grant d st; rows = [] }
]

abbrev pub under_lock : Write → OperatorState → Answer → Answer
under_lock unread st a = record { refused = some state_unreadable; after = st; rows = [] }
under_lock _ st a = a

unfoldable pub redeem : TextFunctions → Disk → Time → Change → String → OperatorState → Answer
unfolding judge settle_verdict
redeem t d now change code st =
    under_lock d.write st (settle_verdict d change (judge t now change code st.authorisation) st)

unfoldable pub commit_change : Write → Change → Outcome → OperatorState → Answer
unfolding apply
commit_change saved change how st = record {
  refused = none;
  after = apply change st;
  rows = record { about = change; outcome = how } ∷ [];
}
commit_change _ change how st = record { refused = some state_unwritten; after = st; rows = [] }

abbrev pub refuse : Refusal → OperatorState → Answer
refuse r st = record { refused = some r; after = st; rows = [] }

-- `commitChange` after a code that was redeemed; otherwise what `redeem` said.
abbrev pub commit_redeemed : Write → Change → Answer → Answer
commit_redeemed w change a = elim a.refused [
  | some _ ↦ a
  | none ↦ commit_change w change authorised a.after
]

-- What the disk answers within one call: the first read, the sweep, the operator's file, the clear or
-- the install of a grant, and the commit.
pub record Io : Type 0 where
  pub readable : Bool
  pub sweep : Disk
  pub file_written : Bool
  pub grant : Disk
  pub commit : Write

unfoldable pub apply_change : TextFunctions → Io → Time → Change → String → OperatorState → Answer
unfolding valid already_has check_cap_pair loosens redeem commit_change
apply_change t io now change code st =
    if not (valid change)
    then refuse invalid_change st
    else if not io.readable
    then refuse state_unreadable st
    else if already_has st change
    then record { refused = none; after = st; rows = [] }
    else if not (check_cap_pair st change)
    then refuse cap_pair st
    else if not (loosens st change)
    then commit_change io.commit change tightening st
    else commit_redeemed io.commit change (redeem t io.grant now change code st)

abbrev pub superseded_rows : Time → Option Authorisation → List Row
superseded_rows now none = []
superseded_rows now (some g) =
    if expired now g then [] else record { about = g.change; outcome = discarded superseded } ∷ []

-- The file, then the grant.
unfoldable pub install_grant : Io → Time → Authorisation → List Row → OperatorState → Answer
unfolding replace_authorisation
install_grant io now g rows st = elim io.grant.write [
  | unread ↦ record { refused = some state_unreadable; after = st; rows = rows }
  | unsaved ↦
      if io.file_written
      then record {
        refused = some state_unwritten;
        after = record st { file = some g.code };
        rows = rows;
      }
      else record { refused = some file_unwritten; after = st; rows = rows }
  | saved ↦
      if io.file_written
      then record {
        refused = none;
        after = replace_authorisation (some g) (record st { file = some g.code });
        rows =
            rows
            ++ superseded_rows now st.authorisation
            ++ (record { about = g.change; outcome = issued } ∷ []);
      }
      else record { refused = some file_unwritten; after = st; rows = rows }
]

abbrev pub with_code : Io → Time → Change → OperatorState → List Row → Option String → Answer
with_code io now change st rows none = record { refused = some no_code; after = st; rows = rows }
with_code io now change st rows (some code) =
    install_grant io now
      (record { change = change; code = code; expires_at = now + authorisation_ttl; attempts = 0 })
      rows st

abbrev pub request_swept : Io → Time → Option String → Change → OperatorState × List Row → Answer
request_swept io now new_code change (st, rows) =
    if not (loosens st change)
    then record { refused = some not_a_loosening; after = st; rows = rows }
    else if not (check_cap_pair st change)
    then record { refused = some cap_pair; after = st; rows = rows }
    else with_code io now change st rows new_code

-- `new_code` is what `newCode` returns, `none` where the randomness fails.
unfoldable pub request_authorisation : Io → Time → Option String → Change → OperatorState → Answer
unfolding valid loosens check_cap_pair sweep_expired install_grant
request_authorisation io now new_code change st =
    if not (valid change)
    then refuse invalid_change st
    else if not io.readable
    then refuse state_unreadable st
    else request_swept io now new_code change (sweep_expired io.sweep now st)
