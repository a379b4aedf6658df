-- ===== src/Zap/Queue.antt =====
-- store/invoices.go, the queue of zap receipts (migration 0005): its rows, and what they are built from.
use brollyzapper.Base.{
  ℕ, zero, suc, Bool, not, ◌&&◌, Option, none, some, is_some, List, [], ◌∷◌, String, str_eq,
  if◌then◌else◌, leb, any, find_first, select, get_or,
}
use brollyzapper.Base.Int.{ℤ}
use brollyzapper.Store.Rows.{Time, unix, Txn, Invoice, Db, is_invoice_in, same_text}

-- A row: the times are whole seconds. The text of the last error is left out.
pub record PendingReceipt : Type 0 where
  pub payment_hash : String
  pub attempts : ℕ
  pub give_up_at : ℕ
  pub next_attempt_at : ℕ

-- The tables: `receipts` is the column `zap_receipt_id` of a settled txn, by its payment hash.
pub record Zaps : Type 0 where
  pub db : Db
  pub queue : List PendingReceipt
  pub receipts : List (String × String)

abbrev pub has_hash : String → PendingReceipt → Bool
has_hash h r = str_eq r.payment_hash h

-- On a conflict the deadline stays the one that was first stored.
unfoldable pub upsert : PendingReceipt → List PendingReceipt → List PendingReceipt
upsert r [] = r ∷ []
upsert r (q ∷ qs) =
    if has_hash r.payment_hash q
    then record q { attempts = r.attempts; next_attempt_at = r.next_attempt_at } ∷ qs
    else q ∷ upsert r qs

-- The payment hash refers to an invoice.
unfoldable pub queue_zap_receipt : PendingReceipt → Zaps → Zaps
unfolding upsert
queue_zap_receipt r z =
    if any (λ (i : Invoice). str_eq i.payment_hash r.payment_hash) z.db.invoices
    then record z { queue = upsert r z.queue }
    else z

unfoldable pub insert_by_next : PendingReceipt → List PendingReceipt → List PendingReceipt
insert_by_next r [] = r ∷ []
insert_by_next r (q ∷ qs) =
    if leb r.next_attempt_at q.next_attempt_at then r ∷ q ∷ qs else q ∷ insert_by_next r qs

-- `ORDER BY next_attempt_at`.
unfoldable pub by_next : List PendingReceipt → List PendingReceipt
unfolding insert_by_next
by_next [] = []
by_next (r ∷ rs) = insert_by_next r (by_next rs)

abbrev pub take : ℕ → List PendingReceipt → List PendingReceipt
take zero rs = []
take (suc n) [] = []
take (suc n) (r ∷ rs) = r ∷ take n rs

unfoldable pub due_zap_receipts : Time → ℕ → List PendingReceipt → List PendingReceipt
unfolding by_next
due_zap_receipts now limit rs =
    take limit (by_next (select (λ r. leb r.next_attempt_at (unix now)) rs))

unfoldable pub drop_zap_receipt : String → Zaps → Zaps
drop_zap_receipt h z = record z { queue = select (λ r. not (has_hash h r)) z.queue }

abbrev pub is_settlement : String → Txn → Bool
is_settlement h t = same_text (some h) t.payment_hash && is_invoice_in t.kind

-- The latest id of a hash is the column's value.
unfoldable pub record_zap_receipt : String → String → Zaps → Zaps
record_zap_receipt h event_id z =
    if any (is_settlement h) z.db.txns
    then record z { receipts = (h, event_id) ∷ z.receipts }
    else z

pub record SettledZap : Type 0 where
  pub payment_hash : String
  pub minted_msat : ℤ
  pub paid_msat : ℤ
  pub bolt11 : String
  pub preimage : String
  pub zap_request : String
  pub settled_at : ℕ

-- A zap, none, or a row that cannot be read.
pub data Found : Type 0 where
  a_zap : SettledZap → Found
  no_zap unreadable : Found

abbrev pub is_zap_invoice : String → Invoice → Bool
is_zap_invoice h i = str_eq i.payment_hash h && is_some i.zap_request

abbrev pub zap_of : String → Txn → Invoice → Option ℕ → Found
zap_of h t i none = unreadable
zap_of h t i (some at) = a_zap (record {
  payment_hash = h;
  minted_msat = i.amount_msat;
  paid_msat = t.amount_msat;
  bolt11 = get_or t.bolt11 "";
  preimage = get_or t.preimage "";
  zap_request = get_or i.zap_request "";
  settled_at = at;
})

-- The join of a settlement with its invoice.
abbrev pub joined : String → Option Txn → Option Invoice → Found
joined h (some t) (some i) = zap_of h t i t.settled_at
joined h _ _ = no_zap

unfoldable pub settled_zap_for : String → Db → Found
settled_zap_for h db =
    joined h (find_first (is_settlement h) db.txns) (find_first (is_zap_invoice h) db.invoices)
