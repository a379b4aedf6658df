-- ===== src/Payments/Resolve.antt =====
-- payments.go, `resolvePendingPayments`, and store/balance.go, `PendingPaymentsBefore`.
use brollyzapper.Base.{
  ℕ, ◌==◌, ◌&&◌, ◌||◌, Bool, true, false, not, Option, none, some, get_or, List, [], ◌∷◌, String,
  str_eq, if◌then◌else◌, ltb, leb, select,
}
use brollyzapper.Base.Int.{ℤ, pos, eqb_ℤ}
use brollyzapper.Store.Rows.{Time, Txn, Db}
use brollyzapper.Store.Ledger.Marks.{
  is_unresolved, max_resolve_attempts, note_resolve_attempt, clear_resolve_attempts,
  mark_payment_unresolvable,
}
use brollyzapper.Wallet.Spender.{reverse}
use brollyzapper.Nwc.Budget.{Connection, adjust_nwc_budget, budget_correction}
use brollyzapper.Lnd.Payments.{
  PaymentResult, is_succeeded, is_failed, payment_not_found, Outcome, answered, errored, Router,
  track_payment,
}
use brollyzapper.Payments.Closing.{
  Env, Closing, closed, already_closed, closing_of, close_reservation,
}

pub record PendingPayment : Type 0 where
  pub id : ℕ
  pub payment_hash : String
  pub dispatched : Bool
  pub amount_msat : ℤ
  pub fee_reserved_msat : ℤ
  pub nwc_connection_id : ℕ

-- The scan of a row, with its COALESCEs.
abbrev pub scan : Txn → PendingPayment
scan t = record {
  id = t.id;
  payment_hash = get_or t.payment_hash "";
  dispatched = not (get_or t.dispatched_at 0 == 0);
  amount_msat = t.amount_msat;
  fee_reserved_msat = t.fee_reserved_msat;
  nwc_connection_id = get_or t.nwc_connection_id 0;
}

-- `ORDER BY created_at, id`
abbrev pub is_earlier : Txn → Txn → Bool
is_earlier a b = ltb a.created_at b.created_at || (a.created_at == b.created_at && leb a.id b.id)

abbrev pub insert_by_age : Txn → List Txn → List Txn
insert_by_age t [] = t ∷ []
insert_by_age t (u ∷ us) =
    let rest = insert_by_age t us in if is_earlier t u then t ∷ u ∷ us else u ∷ rest

abbrev pub sort_by_age : List Txn → List Txn
sort_by_age [] = []
sort_by_age (t ∷ ts) = insert_by_age t (sort_by_age ts)

abbrev pub scan_all : List Txn → List PendingPayment
scan_all [] = []
scan_all (t ∷ ts) = scan t ∷ scan_all ts

unfoldable pub pending_payments_before : Time → Db → List PendingPayment
pending_payments_before before db = scan_all (sort_by_age (select (is_unresolved before) db.txns))

-- The ledger and the connections, which the resolver both changes.
pub record World : Type 0 where
  pub db : Db
  pub budgets : List Connection

-- Why a payment is reported as unresolved.
pub data Unresolved : Type 0 where
  no_hash unreadable_hash no_record untracked out_of_time : Unresolved
  unclosed : Closing → Unresolved

unfoldable pub name : ℕ → String → World → World
name i why w = record w { db = mark_payment_unresolvable i why w.db }

abbrev pub name_after : ℕ → ℕ → String → World → World
name_after attempts i why w = if ltb attempts max_resolve_attempts then w else name i why w

-- While the pass's context lasts. `resolve_row` says what becomes of it, and of each other call of the
-- ledger, when the context has ended: it fails, nothing is counted, and nothing is named.
unfoldable pub count_attempt : ℕ → String → World → World
unfolding name
count_attempt i why w =
    name_after (note_resolve_attempt i w.db).0 i why
      (record w { db = (note_resolve_attempt i w.db).1 })

unfoldable pub correction_of : PendingPayment → PaymentResult → ℤ
correction_of row r =
    if is_succeeded r
    then budget_correction true row.amount_msat row.fee_reserved_msat r.fee_msat
    else if is_failed r
    then budget_correction false row.amount_msat row.fee_reserved_msat (pos 0)
    else pos 0

unfoldable pub correct_connection_budget : PendingPayment → PaymentResult → World → World
unfolding correction_of
correct_connection_budget row r w =
    if row.nwc_connection_id == 0
    then w
    else if eqb_ℤ (correction_of row r) (pos 0)
    then w
    else record w {
      budgets = adjust_nwc_budget row.nwc_connection_id (correction_of row r) w.budgets;
    }

abbrev pub no_hash_reason : String
no_hash_reason = "this payment has no payment hash, so the node cannot be asked about it at all"

abbrev pub bad_hash_reason : String
bad_hash_reason = "this payment's hash cannot be read, so the node cannot be asked about it"

abbrev pub no_record_reason : String
no_record_reason =
    "this payment was handed to the node and the node has no record of it — either the record was lost, or the node refused the request and never created one; only you can say whether it settled"

abbrev pub unasked_reason : String
unasked_reason = "the node could not be asked about this payment, and repeated attempts have failed"

abbrev pub unbooked_reason : String
unbooked_reason = "the node answered about this payment and the ledger could not book the result"

-- `notPendingIsFine(purse.Reverse(…))`, which this arm returns as it is.
abbrev pub reversed : Closing → Option Unresolved
reversed closed = none
reversed c = some (unclosed c)

abbrev pub not_found_arm : Time → PendingPayment → World → Option Unresolved × World
not_found_arm now row w =
    if row.dispatched then (some no_record, name row.id no_record_reason w) else (
      reversed (closing_of (reverse row.id now w.db).0),
      record w { db = (reverse row.id now w.db).1 },
    )

-- After the node's result was booked, or was not.
abbrev pub booked_arm : PendingPayment → PaymentResult → Closing → World → Option Unresolved × World
booked_arm row r closed w =
    (none, correct_connection_budget row r (record w { db = clear_resolve_attempts row.id w.db }))
booked_arm row r already_closed w = (none, record w { db = clear_resolve_attempts row.id w.db })
booked_arm row r c w = (some (unclosed c), count_attempt row.id unbooked_reason w)

unfoldable pub resolve_outcome :
    Env → Time → PendingPayment → Outcome → World → Option Unresolved × World
unfolding close_reservation name count_attempt correct_connection_budget
resolve_outcome env now row (errored payment_not_found) w = not_found_arm now row w
resolve_outcome env now row (errored _) w = (some untracked, count_attempt row.id unasked_reason w)
resolve_outcome env now row (answered r) w =
    booked_arm row r (close_reservation env now row.id r w.db).0
      (record w { db = (close_reservation env now row.id r w.db).1 })

abbrev pub resolve_hash :
    Env → Time → Router → PendingPayment → Option String → World → Option Unresolved × World
resolve_hash env now node row none w = (some unreadable_hash, name row.id bad_hash_reason w)
resolve_hash env now node row (some hash) w =
    resolve_outcome env now row (track_payment node hash) w

unfoldable pub resolve_one :
    Env → Time → Router → PendingPayment → World → Option Unresolved × World
unfolding name resolve_outcome
resolve_one env now node row w =
    if str_eq row.payment_hash ""
    then (some no_hash, name row.id no_hash_reason w)
    else resolve_hash env now node row (env.decode_hex row.payment_hash) w

abbrev pub with_unresolved : Option Unresolved → List Unresolved → List Unresolved
with_unresolved none us = us
with_unresolved (some u) us = u ∷ us

-- Whether the pass's deadline, `resolveTimeout`, passes while the node is asked about a row.
abbrev pub row_outlasts : Env → Router → PendingPayment → Bool
row_outlasts env node row =
    if str_eq row.payment_hash ""
    then false
    else elim (env.decode_hex row.payment_hash) [ none ↦ false | some hash ↦ node.outlasts hash ]

-- A row in a pass whose context has ended, or not. The ledger is called with that same context, after the
-- node, so that once it has ended every call fails: an attempt is not counted, and no row is named.
unfoldable pub resolve_row :
    Env → Time → Router → Bool → PendingPayment → World → Option Unresolved × World
unfolding resolve_one
resolve_row env now node ended row w =
    if ended then (some out_of_time, w) else resolve_one env now node row w

-- Every row is attempted; what is unresolved is reported together. `late` is whether the context has ended
-- at an earlier row.
abbrev pub resolve_all :
    Env → Time → Router → Bool → List PendingPayment → World → List Unresolved × World
resolve_all env now node late [] w = ([], w)
resolve_all env now node late (row ∷ rows) w =
    let ended = late || row_outlasts env node row in
    let this = resolve_row env now node ended row w in
    let rest = resolve_all env now node ended rows this.1 in (with_unresolved this.0 rest.0, rest.1)

unfoldable pub resolve_pending_payments :
    Env → Time → Router → Time → World → List Unresolved × World
unfolding pending_payments_before resolve_row
resolve_pending_payments env now node before w =
    resolve_all env now node false (pending_payments_before before w.db) w
