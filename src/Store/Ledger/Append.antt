-- ===== src/Store/Ledger/Append.antt =====
-- balance.go, the choke point: `appendBalanceEntry`, `inRange`, `insertTxn`, `BalanceMsat` and
-- `AdjustBalance`.
use Prim.Native.Nat.{max}
use brollyzapper.Base.{
  ℕ, suc, ◌==◌, Bool, true, ◌&&◌, ◌||◌, Option, none, some, List, [], ◌∷◌, String, if◌then◌else◌,
  any,
}
use brollyzapper.Base.Int.{ℤ, pos, negsuc, ◌+ℤ◌, ltb_ℤ, leb_ℤ}
use brollyzapper.Base.Int64.{neg64}
use brollyzapper.Store.Rows.{
  Time, unix, Reason, Kind, TxnState, settled, is_invoice_in, is_pending_out, Txn, Entry, Db,
  null_string, same_text,
}
use brollyzapper.Store.Tx.{
  Result, ok, err, Tx, ◌>>=◌, ◌>>◌, pure, fail, in_tx, modify, insufficient_balance,
  amount_out_of_range, unique_payment_hash, foreign_key, sum_overflow,
}

-- 21 million BTC in msat: 21_000_000 * 100_000_000 * 1_000.
abbrev pub max_msat : ℕ
max_msat = 2100000000000000000

unfoldable pub in_range : ℤ → Tx (Unit {0})
in_range amount =
    if ltb_ℤ amount (negsuc 2099999999999999999) || ltb_ℤ (pos max_msat) amount
    then fail amount_out_of_range
    else pure tt

-- Whether an integer is an int64.
abbrev pub is_int64 : ℤ → Bool
is_int64 a = leb_ℤ (negsuc 9223372036854775807) a && leb_ℤ a (pos 9223372036854775807)

-- `SELECT SUM(amount_msat) FROM balance_entries`, in the order of the row ids. No rows give NULL,
-- which `sql.NullInt64` reads as 0, and a running sum past int64 is an error of SQLite's.
unfoldable pub sum_entries : List Entry → Option ℤ
sum_entries [] = some (pos 0)
sum_entries (e ∷ es) = elim (sum_entries es) [
  | none ↦ none
  | some s ↦ if is_int64 (s +ℤ e.amount_msat) then some (s +ℤ e.amount_msat) else none
]

unfoldable pub balance_msat : Tx ℤ
unfolding sum_entries
balance_msat db = elim (sum_entries db.entries) [ none ↦ err sum_overflow | some s ↦ ok (s, db) ]

-- SQLite's choice for an INTEGER PRIMARY KEY: one more than the largest in the table.
unfoldable pub next_txn_id : List Txn → ℕ
next_txn_id [] = 1
next_txn_id (t ∷ ts) = max (suc t.id) (next_txn_id ts)

unfoldable pub next_entry_id : List Entry → ℕ
next_entry_id [] = 1
next_entry_id (e ∷ es) = max (suc e.id) (next_entry_id es)

unfoldable pub push_entry : ℕ → ℤ → Reason → Time → Db → Db
unfolding next_entry_id
push_entry txn_id amount reason at db =
    let e : Entry = record {
      id = next_entry_id db.entries;
      txn_id = txn_id;
      amount_msat = amount;
      reason = reason;
      created_at = unix at;
    } in
    record db { entries = e ∷ db.entries }

-- The two refusals after the insert.
unfoldable pub check_balance : ℤ → Tx (Unit {0})
check_balance balance =
    if ltb_ℤ balance (pos 0)
    then fail insufficient_balance
    else if ltb_ℤ (pos max_msat) balance
    then fail amount_out_of_range
    else pure tt

unfoldable pub append_balance_entry : ℕ → ℤ → Reason → Time → Tx (Unit {0})
unfolding in_range push_entry balance_msat check_balance
append_balance_entry txn_id amount reason at = do
  in_range amount
  modify (push_entry txn_id amount reason at)
  balance ← balance_msat
  check_balance balance

-- `txnRow`: what the operations write of a row.
pub record TxnRow : Type 0 where
  pub kind : Kind
  pub state : TxnState
  pub amount_msat : ℤ
  pub fee_reserved_msat : ℤ
  pub payment_hash : String
  pub note : String
  pub description : String
  pub out_metadata : String
  pub out_description_hash : String
  pub nwc_connection_id : ℕ
  pub created_at : Time
  pub settled_at : Option Time

-- NULL rather than 0 for a payment that no connection asked for.
abbrev pub connection_ref : ℕ → Option ℕ
connection_ref c = if c == 0 then none else some c

abbrev pub unix_of : Option Time → Option ℕ
unix_of none = none
unix_of (some t) = some (unix t)

unfoldable pub new_txn : ℕ → TxnRow → Txn
new_txn i row = record {
  id = i;
  kind = row.kind;
  state = row.state;
  amount_msat = row.amount_msat;
  fee_msat = pos 0;
  fee_reserved_msat = row.fee_reserved_msat;
  payment_hash = null_string row.payment_hash;
  bolt11 = none;
  preimage = none;
  description = null_string row.description;
  zap_request = none;
  comment = none;
  nwc_connection_id = connection_ref row.nwc_connection_id;
  note = null_string row.note;
  out_metadata = null_string row.out_metadata;
  out_description_hash = null_string row.out_description_hash;
  created_at = unix row.created_at;
  settled_at = unix_of row.settled_at;
  dispatched_at = none;
  resolve_attempts = 0;
  unresolvable_reason = none;
}

-- The unique indexes of migration 0008: one invoice_in row for a hash, and one pending
-- payment_out row for a hash.
abbrev pub clashes : Txn → Txn → Bool
clashes t u =
    same_text t.payment_hash u.payment_hash
    && ((is_pending_out t && is_pending_out u) || (is_invoice_in t.kind && is_invoice_in u.kind))

abbrev pub refers : Option ℕ → List ℕ → Bool
refers none cs = true
refers (some c) cs = any (λ d. d == c) cs

-- Inserts a row, if it meets the foreign key and the unique indexes.
unfoldable pub insert_row : Txn → Tx ℕ
insert_row t db =
    if refers t.nwc_connection_id db.connections
    then if any (clashes t) db.txns
      then err unique_payment_hash
      else ok (t.id, record db { txns = t ∷ db.txns })
    else err foreign_key

unfoldable pub insert_txn : TxnRow → Tx ℕ
unfolding insert_row new_txn next_txn_id
insert_txn row db = insert_row (new_txn (next_txn_id db.txns) row) db

-- Go's `if magnitude < 0 { magnitude = -magnitude }`, on int64.
unfoldable pub magnitude : ℤ → ℤ
magnitude a = if ltb_ℤ a (pos 0) then neg64 a else a

abbrev pub adjustment_row : Kind → ℤ → String → Time → TxnRow
adjustment_row kind amount note at = record {
  kind = kind;
  state = settled;
  amount_msat = amount;
  fee_reserved_msat = pos 0;
  payment_hash = "";
  note = note;
  description = "";
  out_metadata = "";
  out_description_hash = "";
  nwc_connection_id = 0;
  created_at = at;
  settled_at = some at;
}

unfoldable pub adjust_body : Kind → Reason → ℤ → String → Time → Tx (Unit {0})
unfolding insert_txn magnitude append_balance_entry
adjust_body kind reason amount note at = do
  i ← insert_txn (adjustment_row kind (magnitude amount) note at)
  append_balance_entry i amount reason at

unfoldable pub adjust_balance : Kind → Reason → ℤ → String → Time → Db → Result (Unit {0}) × Db
unfolding adjust_body
adjust_balance kind reason amount note at = in_tx (adjust_body kind reason amount note at)
