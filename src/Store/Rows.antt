-- ===== src/Store/Rows.antt =====
-- The rows of internal/store: the columns of `txns`, `balance_entries` and `invoices`
-- (migrations 0001 to 0015) and the vocabulary of balance.go. A nullable column is an `Option`.
use brollyzapper.Base.{
  ℕ, ◌/◌, ◌==◌, Bool, true, false, Option, none, some, List, String, str_eq, if◌then◌else◌, ◌&&◌,
}
use brollyzapper.Base.Int.{ℤ}

-- time.Time in nanoseconds since 1970; the columns hold `t.Unix()`, whole seconds.
abbrev pub Time : Type 0
Time = ℕ

abbrev pub second : ℕ
second = 1000000000

abbrev pub unix : Time → ℕ
unix t = t / second

pub data Reason : Type 0 where
  allocate deallocate credit reserve refund_reserve reverse adjust : Reason

pub data Kind : Type 0 where
  allocation deallocation invoice_in payment_out adjustment : Kind

pub data TxnState : Type 0 where
  pending settled failed expired : TxnState

pub data InvoiceState : Type 0 where
  open_invoice settled_invoice expired_invoice : InvoiceState

abbrev pub is_payment_out : Kind → Bool
is_payment_out payment_out = true
is_payment_out _ = false

abbrev pub is_invoice_in : Kind → Bool
is_invoice_in invoice_in = true
is_invoice_in _ = false

abbrev pub is_pending : TxnState → Bool
is_pending pending = true
is_pending _ = false

abbrev pub is_open : InvoiceState → Bool
is_open open_invoice = true
is_open _ = false

pub record Txn : Type 0 where
  pub id : ℕ
  pub kind : Kind
  pub state : TxnState
  pub amount_msat : ℤ
  pub fee_msat : ℤ
  pub fee_reserved_msat : ℤ
  pub payment_hash : Option String
  pub bolt11 : Option String
  pub preimage : Option String
  pub description : Option String
  pub zap_request : Option String
  pub comment : Option String
  pub nwc_connection_id : Option ℕ
  pub note : Option String
  pub out_metadata : Option String
  pub out_description_hash : Option String
  pub created_at : ℕ
  pub settled_at : Option ℕ
  pub dispatched_at : Option ℕ
  pub resolve_attempts : ℕ
  pub unresolvable_reason : Option String

pub record Entry : Type 0 where
  pub id : ℕ
  pub txn_id : ℕ
  pub amount_msat : ℤ
  pub reason : Reason
  pub created_at : ℕ

pub record Invoice : Type 0 where
  pub payment_hash : String
  pub amount_msat : ℤ
  pub description_hash : String
  pub bolt11 : String
  pub zap_request : Option String
  pub zap_relays : Option String
  pub comment : Option String
  pub state : InvoiceState
  pub created_at : ℕ
  pub expires_at : ℕ

-- The tables, the newest row first. `connections` holds the ids of `nwc_connections`, which
-- `txns.nwc_connection_id` references (`foreign_keys` is on); that table is modelled apart.
pub record Db : Type 0 where
  pub txns : List Txn
  pub entries : List Entry
  pub invoices : List Invoice
  pub connections : List ℕ
  pub settings : List (String × String)

-- `nullString`: an empty text is stored as NULL.
abbrev pub null_string : String → Option String
null_string s = if str_eq s "" then none else some s

-- Two nullable texts are equal in SQL's sense: neither is NULL.
abbrev pub same_text : Option String → Option String → Bool
same_text (some a) (some b) = str_eq a b
same_text _ _ = false

-- The `WHERE` clauses that balance.go repeats.
abbrev pub is_pending_out : Txn → Bool
is_pending_out t = is_payment_out t.kind && is_pending t.state

abbrev pub has_id : ℕ → Txn → Bool
has_id i t = t.id == i
