-- ===== src/Payments/Named.antt =====
-- A payment that the node never answers about is named for the operator after five passes.
use brollyzapper.Base.{
  ℕ, ◌+◌, ◌≤◌, ◌≡◌, refl, subst, ◌∙◌, true, false, some, is_some, List, [], ◌∷◌, String, str_eq,
  arith, if◌then◌else◌, if-both, ltb, find_first, find_first-passes, length,
}
use brollyzapper.Store.Rows.{Time, Txn, Db}
use brollyzapper.Store.Ledger.Marks.{
  is_pending_out_with_id, update_rows, count_attempt as count_row, note_resolve_attempt,
  max_resolve_attempts, is_unnamed, set_named, mark_payment_unresolvable,
}
use brollyzapper.Lnd.Payments.{
  not_sent, payment_not_found, stream_ended, rpc, Outcome, answered, errored, Router, track_payment,
}
use brollyzapper.Payments.Closing.{Env}
use brollyzapper.Payments.Resolve.{
  PendingPayment, World, name, name_after, count_attempt, resolve_outcome, resolve_one,
  row_outlasts, resolve_row, unasked_reason,
}
use brollyzapper.Payments.Unsure.{Waiting, find-update_where}

noted :
    (i : ℕ) (db : Db) (t : Txn)
    → find_first (is_pending_out_with_id i) db.txns ≡ some t
    → note_resolve_attempt i db
      ≡ (t.resolve_attempts + 1, (update_rows (is_pending_out_with_id i) count_row db).1)
unfolding note_resolve_attempt
noted i db t h = ground arith

counted_row :
    (i : ℕ) (db : Db) (t : Txn)
    → find_first (is_pending_out_with_id i) db.txns ≡ some t
    → find_first
        (is_pending_out_with_id i)
        (update_rows (is_pending_out_with_id i) count_row db).1.txns
      ≡ some (count_row t)
unfolding update_rows
counted_row i db t h =
    let hit = find_first-passes (is_pending_out_with_id i) db.txns t h in
    find-update_where (is_pending_out_with_id i) (is_pending_out_with_id i) count_row db.txns t
      (λ u. refl) h
    ∙ rw hit refl

name-Waiting :
    (i n : ℕ) (why : String) (w : World) (t : Txn)
    → find_first (is_pending_out_with_id i) w.db.txns ≡ some t
    → n ≤ t.resolve_attempts
    → Waiting i n (name i why w).db
unfolding name mark_payment_unresolvable update_rows
name-Waiting i n why w t found few =
    let hit = find_first-passes (is_pending_out_with_id i) w.db.txns t found in
    record {
      row = if is_unnamed i t then set_named why t else t;
      found =
          find-update_where (is_pending_out_with_id i) (is_unnamed i) (set_named why) w.db.txns t
            (λ u. refl) found;
      counted =
          if-both (λ (u : Txn). n ≤ u.resolve_attempts) (is_unnamed i t) (λ _. few) (λ _. few);
      named = λ _.
          if-both (λ (u : Txn). is_some u.unresolvable_reason ≡ true) (is_unnamed i t) (λ _. refl)
            (λ e. ground (arith, hit));
    }

named-Waiting :
    (i n : ℕ) (why : String) (w : World) (t : Txn)
    → find_first (is_pending_out_with_id i) w.db.txns ≡ some t
    → n ≤ t.resolve_attempts
    → Waiting i n (name_after t.resolve_attempts i why w).db
named-Waiting i n why w t found few =
    if-both (λ (x : World). Waiting i n x.db) (ltb t.resolve_attempts max_resolve_attempts)
      (λ below. record {
        row = t;
        found = found;
        counted = few;
        named = λ enough. absurd (ground arith);
      })
      (λ above. name-Waiting i n why w t found few)

count-Waiting :
    (i n : ℕ) (why : String) (w : World)
    → Waiting i n w.db
    → Waiting i (n + 1) (count_attempt i why w).db
unfolding count_attempt
count-Waiting i n why w h = rw (noted i w.db h.row h.found) (
    named-Waiting i (n + 1) why
      (record w { db = (update_rows (is_pending_out_with_id i) count_row w.db).1 })
      (count_row h.row) (counted_row i w.db h.row h.found) (omega (arith, h.counted)))

-- The node could not be asked.
abbrev pub IsUnasked : Outcome → Type 0
IsUnasked (errored payment_not_found) = ⊥
IsUnasked (errored e) = Unit
IsUnasked _ = ⊥

outcome-Waiting :
    (env : Env) (now : Time) (row : PendingPayment) (o : Outcome) (n : ℕ) (w : World)
    → IsUnasked o
    → Waiting row.id n w.db
    → Waiting row.id (n + 1) (resolve_outcome env now row o w).1.db
unfolding resolve_outcome
outcome-Waiting env now row (answered r) n w u h = elim u [ ]
outcome-Waiting env now row (errored payment_not_found) n w u h = elim u [ ]
outcome-Waiting env now row (errored (not_sent e)) n w u h =
    count-Waiting row.id n unasked_reason w h
outcome-Waiting env now row (errored stream_ended) n w u h =
    count-Waiting row.id n unasked_reason w h
outcome-Waiting env now row (errored (rpc e)) n w u h = count-Waiting row.id n unasked_reason w h

-- One pass after another over the payment, which is the first row of each, with the clock and the node of
-- its time.
abbrev pub passes : Env → PendingPayment → List (Time × Router) → World → World
passes env row [] w = w
passes env row ((now, node) ∷ ps) w =
    passes env row ps (resolve_row env now node (row_outlasts env node row) row w).1

abbrev pub AllUnasked : String → List (Time × Router) → Type 0
AllUnasked hash [] = Unit
AllUnasked hash ((now, node) ∷ ps) =
    (node.outlasts hash ≡ false) × IsUnasked (track_payment node hash) × AllUnasked hash ps

one-Waiting :
    (env : Env) (now : Time) (node : Router) (row : PendingPayment) (hash : String) (n : ℕ)
    (w : World)
    → str_eq row.payment_hash "" ≡ false
    → env.decode_hex row.payment_hash ≡ some hash
    → node.outlasts hash ≡ false
    → IsUnasked (track_payment node hash)
    → Waiting row.id n w.db
    → Waiting row.id (n + 1) (resolve_row env now node (row_outlasts env node row) row w).1.db
unfolding resolve_row resolve_one
one-Waiting env now node row hash n w given decoded timely u h =
    rw (given, decoded, timely) (outcome-Waiting env now row (track_payment node hash) n w u h)

passes-Waiting :
    (env : Env) (row : PendingPayment) (hash : String) (ps : List (Time × Router)) (n : ℕ)
    (w : World)
    → str_eq row.payment_hash "" ≡ false
    → env.decode_hex row.payment_hash ≡ some hash
    → AllUnasked hash ps
    → Waiting row.id n w.db
    → Waiting row.id (n + length ps) (passes env row ps w).db
passes-Waiting env row hash [] n w given decoded u h =
    subst (λ (k : ℕ). Waiting row.id k w.db) (omega arith) h
passes-Waiting env row hash ((now, node) ∷ ps) n w given decoded u h =
    let rest =
      passes-Waiting env row hash ps (n + 1)
        (resolve_row env now node (row_outlasts env node row) row w).1 given decoded u.2
        (one-Waiting env now node row hash n w given decoded u.0 u.1 h) in
    subst (λ (k : ℕ). Waiting row.id k (passes env row ((now, node) ∷ ps) w).db) (omega arith) rest

-- A pending payment whose hash can be read, the first that each of five passes of the resolver or more turns
-- to, about which the node answers each of them with an error other than that it has no record, before the
-- deadline of the pass: it is still pending after them and has been named for the operator.
pub passes_name :
    (env : Env) (row : PendingPayment) (hash : String) (ps : List (Time × Router)) (w : World)
    (t : Txn)
    → str_eq row.payment_hash "" ≡ false
    → env.decode_hex row.payment_hash ≡ some hash
    → AllUnasked hash ps
    → max_resolve_attempts ≤ length ps
    → find_first (is_pending_out_with_id row.id) w.db.txns ≡ some t
    → (t' : Txn) × (find_first (is_pending_out_with_id row.id) (passes env row ps w).db.txns
        ≡ some t')
      × (is_some t'.unresolvable_reason ≡ true)
passes_name env row hash ps w t given decoded u enough found =
    let end = passes-Waiting env row hash ps 0 w given decoded u (record {
      row = t;
      found = found;
      counted = omega arith;
      named = λ h. absurd (omega arith);
    }) in
    (end.row, end.found, end.named (omega arith))
