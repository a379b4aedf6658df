-- ===== src/Guard/Operator/Rules.antt =====
-- guard/operator.go and guard/authorisation.go: the operator's three controls, what loosens one, and what a
-- call answers and leaves on the trail.
use brollyzapper.Base.{ℕ, ◌*◌, Bool, true, false, not, ◌&&◌, Option, List, String, str_eq, leb}
use brollyzapper.Base.Int.{ℤ, pos, ltb_ℤ, eqb_ℤ}
use brollyzapper.Store.Rows.{Time, second}

pub data Control : Type 0 where
  sending spend_cap payment_cap : Control
  other_control : String → Control

pub record Change : Type 0 where
  pub control : Control
  pub on : Bool
  pub msat : ℤ

pub record Authorisation : Type 0 where
  pub change : Change
  pub code : String
  pub expires_at : Time
  pub attempts : ℕ

pub record OperatorState : Type 0 where
  pub sending_latch : Bool
  pub max_spend_msat : ℤ
  pub max_payment_msat : ℤ
  pub authorisation : Option Authorisation
  pub file : Option String

-- Ten minutes.
abbrev pub authorisation_ttl : Time
authorisation_ttl = 600 * second

abbrev pub max_authorisation_attempts : ℕ
max_authorisation_attempts = 3

abbrev pub control_eq : Control → Control → Bool
control_eq sending sending = true
control_eq spend_cap spend_cap = true
control_eq payment_cap payment_cap = true
control_eq (other_control a) (other_control b) = str_eq a b
control_eq _ _ = false

abbrev pub bool_eq : Bool → Bool → Bool
bool_eq true b = b
bool_eq false b = not b

-- `grant.Change != change` compares every field.
unfoldable pub change_eq : Change → Change → Bool
change_eq a b = control_eq a.control b.control && bool_eq a.on b.on && eqb_ℤ a.msat b.msat

unfoldable pub valid : Change → Bool
valid c = elim c.control [
  | sending ↦ true
  | spend_cap ↦ not (ltb_ℤ c.msat (pos 0))
  | payment_cap ↦ not (ltb_ℤ c.msat (pos 0))
  | other_control _ ↦ false
]

unfoldable pub loosens : OperatorState → Change → Bool
loosens st c = elim c.control [
  | sending ↦ c.on && not st.sending_latch
  | spend_cap ↦ ltb_ℤ st.max_spend_msat c.msat
  | payment_cap ↦ ltb_ℤ st.max_payment_msat c.msat
  | other_control _ ↦ true
]

unfoldable pub already_has : OperatorState → Change → Bool
already_has st c = elim c.control [
  | sending ↦ bool_eq st.sending_latch c.on
  | spend_cap ↦ eqb_ℤ st.max_spend_msat c.msat
  | payment_cap ↦ eqb_ℤ st.max_payment_msat c.msat
  | other_control _ ↦ false
]

unfoldable pub apply : Change → OperatorState → OperatorState
apply c st = elim c.control [
  | sending ↦ record st { sending_latch = c.on }
  | spend_cap ↦ record st { max_spend_msat = c.msat }
  | payment_cap ↦ record st { max_payment_msat = c.msat }
  | other_control _ ↦ st
]

-- Whether the pair stays one that the guard can enforce.
unfoldable pub check_cap_pair : OperatorState → Change → Bool
check_cap_pair st c = elim c.control [
  | sending ↦ true
  | spend_cap ↦ not (ltb_ℤ c.msat st.max_payment_msat)
  | payment_cap ↦ not (ltb_ℤ st.max_spend_msat c.msat)
  | other_control _ ↦ true
]

-- The functions of package strings that `normaliseCode` composes.
pub record TextFunctions : Type 0 where
  pub trim_space : String → String
  pub remove_dashes : String → String
  pub to_upper : String → String

abbrev pub normalise_code : TextFunctions → String → String
normalise_code t s = t.to_upper (t.remove_dashes (t.trim_space s))

abbrev pub matches : TextFunctions → Authorisation → String → Bool
matches t a code = str_eq (normalise_code t a.code) (normalise_code t code)

abbrev pub expired : Time → Authorisation → Bool
expired now a = leb a.expires_at now

pub data DiscardReason : Type 0 where
  discard_expired offered_against too_many_wrong superseded : DiscardReason

pub data Outcome : Type 0 where
  issued authorised tightening wrong_code : Outcome
  discarded : DiscardReason → Outcome

pub record Row : Type 0 where
  pub about : Change
  pub outcome : Outcome

pub data Refusal : Type 0 where
  invalid_change state_unreadable not_a_loosening cap_pair no_code file_unwritten state_unwritten :
      Refusal
  authorisation_required grant_expired different_change grant_spent : Refusal
  code_wrong : ℕ → Refusal

pub record Answer : Type 0 where
  pub refused : Option Refusal
  pub after : OperatorState
  pub rows : List Row
