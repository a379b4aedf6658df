-- ===== src/Store/Ledger/Marks.antt =====
-- balance.go: the marks on a pending payment (dispatch, failed attempts, the resolver's name for
-- it) and the queries that read them.
use brollyzapper.Base.{
  ℕ, not, ◌+◌, ◌==◌, Bool, true, false, ◌&&◌, Option, none, some, is_some, String, if◌then◌else◌,
  ltb, any, find_first, select, length, update_where,
}
use brollyzapper.Store.Rows.{Time, unix, is_pending_out, has_id, Txn, Db}
use brollyzapper.Store.Tx.{Result, ok, err, not_dispatchable}

abbrev pub is_pending_out_with_id : ℕ → Txn → Bool
is_pending_out_with_id i t = has_id i t && is_pending_out t

-- A single UPDATE statement, with the number of rows that it changed.
unfoldable pub update_rows : (Txn → Bool) → (Txn → Txn) → Db → ℕ × Db
update_rows p f db = (length (select p db.txns), record db { txns = update_where p f db.txns })

unfoldable pub dispatched_at : ℕ → Db → Option ℕ
dispatched_at i db = elim (find_first (has_id i) db.txns) [ none ↦ none | some t ↦ t.dispatched_at ]

abbrev pub is_unmarked : ℕ → Txn → Bool
is_unmarked i t = is_pending_out_with_id i t && (if is_some t.dispatched_at then false else true)

abbrev pub set_dispatched : Time → Txn → Txn
set_dispatched at t = record t { dispatched_at = some (unix at) }

unfoldable pub mark_spend_dispatched : ℕ → Time → Db → Result (Unit {0}) × Db
unfolding update_rows dispatched_at
mark_spend_dispatched i at db =
    let (affected, db') = update_rows (is_unmarked i) (set_dispatched at) db in
    if affected == 0
    then if is_some (dispatched_at i db') then (ok tt, db') else (err not_dispatchable, db')
    else (ok tt, db')

unfoldable pub clear_spend_dispatched : ℕ → Db → Db
unfolding update_rows
clear_spend_dispatched i db =
    (update_rows (is_pending_out_with_id i) (λ t. record t { dispatched_at = none }) db).1

-- The pass after which a payment is named for the operator.
abbrev pub max_resolve_attempts : ℕ
max_resolve_attempts = 5

abbrev pub count_attempt : Txn → Txn
count_attempt t = record t { resolve_attempts = t.resolve_attempts + 1 }

-- `UPDATE … RETURNING resolve_attempts`; a row that is closed gives 0.
unfoldable pub note_resolve_attempt : ℕ → Db → ℕ × Db
unfolding update_rows
note_resolve_attempt i db = elim (find_first (is_pending_out_with_id i) db.txns) [
  | none ↦ (0, db)
  | some t ↦ (t.resolve_attempts + 1, (update_rows (is_pending_out_with_id i) count_attempt db).1)
]

unfoldable pub clear_resolve_attempts : ℕ → Db → Db
unfolding update_rows
clear_resolve_attempts i db =
    (update_rows (λ t. has_id i t && not (t.resolve_attempts == 0))
      (λ t. record t { resolve_attempts = 0 }) db).1

abbrev pub is_unnamed : ℕ → Txn → Bool
is_unnamed i t =
    is_pending_out_with_id i t && (if is_some t.unresolvable_reason then false else true)

abbrev pub set_named : String → Txn → Txn
set_named why t = record t { unresolvable_reason = some why }

-- The first reason stands.
unfoldable pub mark_payment_unresolvable : ℕ → String → Db → Db
unfolding update_rows
mark_payment_unresolvable i why db = (update_rows (is_unnamed i) (set_named why) db).1

-- `unresolvedPaymentsWhere`: pending, and created strictly before the cutoff's second.
abbrev pub is_unresolved : Time → Txn → Bool
is_unresolved before t = is_pending_out t && ltb t.created_at (unix before)

unfoldable pub has_unresolved_payments_before : Time → Db → Bool
has_unresolved_payments_before before db = any (is_unresolved before) db.txns

unfoldable pub count_unresolved_payments_before : Time → Db → ℕ
count_unresolved_payments_before before db = length (select (is_unresolved before) db.txns)

abbrev pub is_named_unresolved : Time → Txn → Bool
is_named_unresolved before t = is_unresolved before t && is_some t.unresolvable_reason

unfoldable pub count_named_unresolved_payments_before : Time → Db → ℕ
count_named_unresolved_payments_before before db =
    length (select (is_named_unresolved before) db.txns)
