-- ===== src/Nwc/Ladder/Rungs.antt =====
-- nwc/pay.go, `payInvoice` up to the budget: the gates in their order, with `Held` and `Decode` of the
-- adapter in cmd/brollyzapper/nwc.go. What is said to the client is its code.
use brollyzapper.Base.{
  ℕ, ◌==◌, Bool, true, false, not, ◌&&◌, ◌||◌, Option, none, some, String, str_eq, if◌then◌else◌,
  leb,
}
use brollyzapper.Base.Int.{ℤ, ltb_ℤ}
use brollyzapper.Base.Int64.{add64}
use brollyzapper.Store.Rows.{Time, Db}
use brollyzapper.Store.Settings.{setting}
use brollyzapper.Store.Ledger.Marks.{count_unresolved_payments_before}
use brollyzapper.Wallet.Codec as Wallet
use brollyzapper.Wallet.Codec.{Codec, Deficit, Refusal, of_store, Answer}
use brollyzapper.Wallet.Freeze.{shortfall, unresolved_cutoff}
use brollyzapper.Wallet.Fee.{max_fee}
use brollyzapper.Nwc.Amount.{payable_amount, Payable, pays}
use brollyzapper.Payments.Closing.{Env}

-- An invoice as the node reads it. A zero `ExpiresAt` is `none`.
pub record Bolt11 : Type 0 where
  pub payment_hash : String
  pub amount_msat : ℤ
  pub description : String
  pub description_hash : String
  pub expires_at : Option Time
  pub destination : String

abbrev pub is_expired : Time → Bolt11 → Bool
is_expired now b = elim b.expires_at [ none ↦ false | some at ↦ leb at now ]

-- The codes of NIP-47 that this request is answered with.
pub data Code : Type 0 where
  other internal restricted quota_exceeded unauthorized insufficient payment_failed : Code

pub data Response : Type 0 where
  error_response : Code → Response
  preimage_response : String → ℤ → Response

pub data Period : Type 0 where
  daily weekly monthly never : Period

-- The row of the connection, as the service holds it.
pub record Limits : Type 0 where
  pub id : ℕ
  pub max_payment_msat : Option ℤ
  pub budget_period : Period

pub record Params : Type 0 where
  pub invoice : String
  pub amount : ℤ

-- What the ladder takes from outside: the credential and the Tier-2 checks, the node's decoder and its
-- identity ("" while it is unknown), `time.AddDate` by months and days, and the texts that the reservation
-- carries besides (`paymentRef`, `boundedDescription`, `outgoingMetadata`).
pub record Spend : Type 0 where
  pub credential_ready : Bool
  pub sending_blocked : Bool
  pub decode : String → Option Bolt11
  pub node_identity : String
  pub add_date : ℕ → ℕ → Time → Time
  pub payment_ref : Bolt11 → String
  pub bounded_description : Bolt11 → String
  pub outgoing_metadata : Bolt11 → ℤ → String

abbrev pub next_renewal : Spend → Limits → Time → Option Time
next_renewal s limits now = elim limits.budget_period [
  | daily ↦ some (s.add_date 0 1 now)
  | weekly ↦ some (s.add_date 0 7 now)
  | monthly ↦ some (s.add_date 1 0 now)
  | never ↦ none
]

-- A gate lets the request on with a value, or answers it.
pub data Gate (A : Type 0) : Type 0 where
  stop : Code → Gate A
  pass : A → Gate A

infixl 5 ◌>>=◌ ◌>>◌
abbrev pub ◌>>=◌ : {A B : Type 0} → Gate A → (A → Gate B) → Gate B
stop code >>= onward = stop code
pass a >>= onward = onward a

abbrev pub ◌>>◌ : {A B : Type 0} → Gate A → Gate B → Gate B
gate >> onward = gate >>= λ _. onward

-- Answers with the code unless the test holds.
abbrev pub require : Bool → Code → Gate (Unit {0})
require true code = pass tt
require false code = stop code

abbrev pub is_on : Option String → Bool
is_on none = false
is_on (some raw) = str_eq raw "true" || str_eq raw "1"

unfoldable pub send_enabled : Db → Bool
send_enabled db = is_on (setting "send_enabled" db)

unfoldable pub unresolved_payments : Time → Time → Db → ℕ
unresolved_payments started_at now db =
    count_unresolved_payments_before (unresolved_cutoff started_at now) db

abbrev pub held_by : Answer (Option Deficit) → ℕ → Gate (Unit {0})
held_by (Wallet.err e) unresolved = stop internal
held_by (Wallet.ok (some d)) unresolved = stop restricted
held_by (Wallet.ok none) unresolved = if unresolved == 0 then pass tt else stop restricted

abbrev pub readable : Option Bolt11 → Gate Bolt11
readable none = stop other
readable (some b) = pass b

abbrev pub payable : Payable → Gate ℤ
payable (pays a) = pass a
payable _ = stop other

abbrev pub is_own : Spend → Bolt11 → Bool
is_own s b = not (str_eq s.node_identity "") && str_eq b.destination s.node_identity

abbrev pub is_within : Option ℤ → ℤ → Bool
is_within none amount = true
is_within (some limit) amount = not (ltb_ℤ limit amount)

abbrev pub priced : Answer ℤ → Gate ℤ
priced (Wallet.err e) = stop internal
priced (Wallet.ok fee) = pass fee

-- What the gates have settled on.
pub record Cleared : Type 0 where
  pub invoice : Bolt11
  pub amount : ℤ
  pub max_fee_msat : ℤ

abbrev pub total_of : Cleared → ℤ
total_of c = add64 c.amount c.max_fee_msat

-- Whether anything may be sent.
abbrev pub may_send : Env → Spend → Time → Db → Gate (Unit {0})
may_send env s now db = do
  require (send_enabled db) restricted
  require s.credential_ready restricted
  held_by (shortfall env.codec db) (unresolved_payments env.started_at now db)
  require (not s.sending_blocked) restricted

-- Whether the invoice can be paid.
abbrev pub payable_invoice : Spend → Params → Time → Gate Bolt11
payable_invoice s params now = do
  require (not (str_eq params.invoice "")) other
  invoice ← readable (s.decode params.invoice)
  require (not (is_expired now invoice)) other
  require (not (is_own s invoice)) payment_failed
  pass invoice

-- Whether its amount may be.
abbrev pub payable_at : Env → Limits → Params → Db → Bolt11 → Gate Cleared
payable_at env limits params db invoice = do
  amount ← payable (payable_amount invoice.amount_msat params.amount)
  require (is_within limits.max_payment_msat amount) quota_exceeded
  fee ← priced (max_fee env.codec amount db)
  pass (record { invoice = invoice; amount = amount; max_fee_msat = fee })

unfoldable pub gates : Env → Spend → Limits → Params → Time → Db → Gate Cleared
unfolding send_enabled unresolved_payments
gates env s limits params now db = do
  may_send env s now db
  invoice ← payable_invoice s params now
  payable_at env limits params db invoice
