-- ===== src/Store/Invoices.antt =====
-- internal/store/invoices.go: the inbound invoices, the credit of a settled one, and the sweep.
pub mod Credits
pub mod Redelivery
use brollyzapper.Base.{
  ℕ, Bool, true, false, ◌&&◌, Option, none, some, List, ◌∷◌, String, str_eq, if◌then◌else◌, ltb,
  leb, any, find_first, select, length, update_where,
}
use brollyzapper.Base.Int.{ℤ, pos}
use brollyzapper.Store.Rows.{
  Time, unix, InvoiceState, open_invoice, settled_invoice, expired_invoice, is_open, invoice_in,
  settled, credit, Txn, Invoice, Db, null_string,
}
use brollyzapper.Store.Tx.{
  Result, ok, err, Tx, ◌>>=◌, ◌>>◌, pure, in_tx, modify, unknown_invoice, unique_payment_hash,
}
use brollyzapper.Store.Ledger.Append.{next_txn_id, clashes, append_balance_entry}

abbrev pub has_hash : String → Invoice → Bool
has_hash h inv = str_eq inv.payment_hash h

-- Go's `Invoice` as it is handed to `CreateInvoice`; a state that is empty is `none`.
pub record NewInvoice : Type 0 where
  pub payment_hash : String
  pub amount_msat : ℤ
  pub description_hash : String
  pub bolt11 : String
  pub zap_request : String
  pub zap_relays : String
  pub comment : String
  pub state : Option InvoiceState
  pub created_at : Time
  pub expires_at : Time

abbrev pub or_open : Option InvoiceState → InvoiceState
or_open none = open_invoice
or_open (some s) = s

abbrev pub invoice_row : NewInvoice → Invoice
invoice_row new = record {
  payment_hash = new.payment_hash;
  amount_msat = new.amount_msat;
  description_hash = new.description_hash;
  bolt11 = new.bolt11;
  zap_request = null_string new.zap_request;
  zap_relays = null_string new.zap_relays;
  comment = null_string new.comment;
  state = or_open new.state;
  created_at = unix new.created_at;
  expires_at = unix new.expires_at;
}

-- The primary key refuses a second invoice with the same hash.
unfoldable pub create_invoice : NewInvoice → Db → Result (Unit {0}) × Db
create_invoice new db =
    if any (has_hash new.payment_hash) db.invoices
    then (err unique_payment_hash, db)
    else (ok tt, record db { invoices = invoice_row new ∷ db.invoices })

-- The invoice_in row of a settlement.
unfoldable pub credit_txn : ℕ → String → String → ℤ → Time → Invoice → Txn
credit_txn i hash preimage paid at inv = record {
  id = i;
  kind = invoice_in;
  state = settled;
  amount_msat = paid;
  fee_msat = pos 0;
  fee_reserved_msat = pos 0;
  payment_hash = some hash;
  bolt11 = some inv.bolt11;
  preimage = null_string preimage;
  description = none;
  zap_request = inv.zap_request;
  comment = inv.comment;
  nwc_connection_id = none;
  note = none;
  out_metadata = none;
  out_description_hash = none;
  created_at = unix at;
  settled_at = some (unix at);
  dispatched_at = none;
  resolve_attempts = 0;
  unresolvable_reason = none;
}

abbrev pub set_settled : Invoice → Invoice
set_settled inv = record inv { state = settled_invoice }

unfoldable pub mark_invoice_settled : String → Tx (Unit {0})
mark_invoice_settled hash =
    modify (λ db. record db { invoices = update_where (has_hash hash) set_settled db.invoices })

abbrev pub credit_if : Bool → Tx (Unit {0}) → Tx (Unit {0})
credit_if wanted m = if wanted then m else pure tt

unfoldable pub record_credit : Txn → String → ℤ → Time → Bool → Tx Bool
unfolding mark_invoice_settled append_balance_entry
record_credit t hash paid at wanted = do
  modify (λ db. record db { txns = t ∷ db.txns })
  credit_if wanted (append_balance_entry t.id paid credit at)
  mark_invoice_settled hash
  pure true

-- `ON CONFLICT(payment_hash) WHERE kind = 'invoice_in' DO NOTHING`: a settlement that is delivered
-- again changes nothing and answers false.
unfoldable pub credit_found : Txn → String → ℤ → Time → Bool → Tx Bool
unfolding record_credit
credit_found t hash paid at wanted db =
    if any (clashes t) db.txns then ok (false, db) else record_credit t hash paid at wanted db

unfoldable pub credit_body : String → String → ℤ → Time → Bool → Tx Bool
unfolding credit_found
credit_body hash preimage paid at wanted db = elim (find_first (has_hash hash) db.invoices) [
  | none ↦ err unknown_invoice
  | some inv ↦
      credit_found (credit_txn (next_txn_id db.txns) hash preimage paid at inv) hash paid at wanted
        db
]

unfoldable pub credit_settled_invoice : String → String → ℤ → Time → Bool → Db → Result Bool × Db
unfolding credit_body
credit_settled_invoice hash preimage paid at wanted =
    in_tx (credit_body hash preimage paid at wanted)

abbrev pub is_live : Time → Invoice → Bool
is_live now inv = is_open inv.state && ltb (unix now) inv.expires_at

abbrev pub is_past_due : Time → Invoice → Bool
is_past_due now inv = is_open inv.state && leb inv.expires_at (unix now)

unfoldable pub count_open_invoices : Time → Db → ℕ
count_open_invoices now db = length (select (is_live now) db.invoices)

abbrev pub set_expired : Invoice → Invoice
set_expired inv = record inv { state = expired_invoice }

unfoldable pub expire_invoices : Time → Db → ℕ × Db
expire_invoices now db = (
  length (select (is_past_due now) db.invoices),
  record db { invoices = update_where (is_past_due now) set_expired db.invoices },
)
