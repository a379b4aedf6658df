-- ===== src/Payments/Unsure.antt =====
-- What the resolver does when it cannot be sure: it moves nothing, and in the end it names the payment.
use brollyzapper.Base.{
  ℕ, ◌≤◌, ◌≡◌, refl, sym, subst, ◌∙◌, Bool, true, false, ◌⊎◌, inl, inr, Option, none, some, is_some,
  List, [], ◌∷◌, String, str_eq, arith, if◌then◌else◌, if-both, ltb, find_first, update_where,
}
use brollyzapper.Store.Rows.{Time, TxnState, Txn, Db}
use brollyzapper.Store.Ledger.Marks.{
  is_pending_out_with_id, update_rows, count_attempt as count_row, note_resolve_attempt,
  max_resolve_attempts, is_unnamed, set_named, mark_payment_unresolvable,
}
use brollyzapper.Lnd.Payments.{
  LndError, not_sent, payment_not_found, stream_ended, rpc, errored, Router, track_payment,
}
use brollyzapper.Payments.Closing.{Env}
use brollyzapper.Payments.Resolve.{
  PendingPayment, World, Unresolved, name, count_attempt, resolve_outcome, resolve_one,
  unasked_reason, no_record_reason,
}

abbrev pub states : List Txn → List (ℕ × TxnState)
states [] = []
states (t ∷ ts) = (t.id, t.state) ∷ states ts

-- No entry, no state of a row, and no budget has moved.
pub record Untouched (w w' : World) : Type 0 where
  pub same_entries : w'.db.entries ≡ w.db.entries
  pub same_states : states w'.db.txns ≡ states w.db.txns
  pub same_budgets : w'.budgets ≡ w.budgets

module _ (p : Txn → Bool) (f : Txn → Txn) (keep : (t : Txn) → (f t).id ≡ t.id)
    (state : (t : Txn) → (f t).state ≡ t.state) where
  states-update : (ts : List Txn) → states (update_where p f ts) ≡ states ts
  states-update [] = refl
  states-update (t ∷ ts) = ground (arith, keep t, state t, states-update ts)

  pub update_rows-Untouched : (w : World) → Untouched w (record w { db = (update_rows p f w.db).1 })
  unfolding update_rows
  update_rows-Untouched w = record {
    same_entries = refl;
    same_states = states-update w.db.txns;
    same_budgets = refl;
  }

Untouched-trans : (a b c : World) → Untouched a b → Untouched b c → Untouched a c
Untouched-trans a b c h k = record {
  same_entries = k.same_entries ∙ h.same_entries;
  same_states = k.same_states ∙ h.same_states;
  same_budgets = k.same_budgets ∙ h.same_budgets;
}

unchanged : (w : World) → Untouched w w
unchanged w = record { same_entries = refl; same_states = refl; same_budgets = refl }

name-Untouched : (i : ℕ) (why : String) (w : World) → Untouched w (name i why w)
unfolding name mark_payment_unresolvable
name-Untouched i why w =
    update_rows-Untouched (is_unnamed i) (set_named why) (λ t. refl) (λ t. refl) w

note_cases :
    (i : ℕ) (db : Db)
    → ((note_resolve_attempt i db).1 ≡ db)
      ⊎ ((note_resolve_attempt i db).1 ≡ (update_rows (is_pending_out_with_id i) count_row db).1)
unfolding note_resolve_attempt
note_cases i db = ground arith

note-Untouched :
    (i : ℕ) (w : World) → Untouched w (record w { db = (note_resolve_attempt i w.db).1 })
note-Untouched i w = elim (note_cases i w.db) [
  | inl e ↦ subst (λ (d : Db). Untouched w (record w { db = d })) (sym e) (unchanged w)
  | inr e ↦
      subst (λ (d : Db). Untouched w (record w { db = d })) (sym e)
        (update_rows-Untouched (is_pending_out_with_id i) count_row (λ t. refl) (λ t. refl) w)
]

count-Untouched : (i : ℕ) (why : String) (w : World) → Untouched w (count_attempt i why w)
unfolding count_attempt
count-Untouched i why w = Untouched-trans w _ _ (note-Untouched i w) (
    if-both (Untouched (record w { db = (note_resolve_attempt i w.db).1 }))
      (ltb (note_resolve_attempt i w.db).0 max_resolve_attempts) (λ _. unchanged _)
      (λ _. name-Untouched i why _))

-- The node could not be asked about the payment, or has no record of one that was dispatched.
abbrev pub IsUnsure : PendingPayment → LndError → Type 0
IsUnsure row payment_not_found = row.dispatched ≡ true
IsUnsure row e = Unit

-- Reported, and nothing has moved.
abbrev pub IsLeft : World → Option Unresolved × World → Type 0
IsLeft w (none, w') = ⊥
IsLeft w (some u, w') = Untouched w w'

outcome-IsLeft :
    (env : Env) (now : Time) (row : PendingPayment) (e : LndError) (w : World)
    → IsUnsure row e
    → IsLeft w (resolve_outcome env now row (errored e) w)
unfolding resolve_outcome
outcome-IsLeft env now row payment_not_found w h = rw h (name-Untouched row.id no_record_reason w)
outcome-IsLeft env now row (not_sent e) w h = count-Untouched row.id unasked_reason w
outcome-IsLeft env now row stream_ended w h = count-Untouched row.id unasked_reason w
outcome-IsLeft env now row (rpc e) w h = count-Untouched row.id unasked_reason w

-- When the node cannot be asked about a payment, or has no record of one that was dispatched, the
-- resolver reports the payment as unresolved and moves nothing: no entry of the ledger, no state of
-- a row and no connection's budget.
pub resolve_one_unsure :
    (env : Env) (now : Time) (node : Router) (row : PendingPayment) (w : World) (hash : String)
    (e : LndError)
    → str_eq row.payment_hash "" ≡ false
    → env.decode_hex row.payment_hash ≡ some hash
    → track_payment node hash ≡ errored e
    → IsUnsure row e
    → IsLeft w (resolve_one env now node row w)
unfolding resolve_one
resolve_one_unsure env now node row w hash e given decoded answer h =
    rw given (rw decoded (rw answer (outcome-IsLeft env now row e w h)))

-- A row that the resolver still has before it, with the attempts that were counted.
pub record Waiting (i n : ℕ) (db : Db) : Type 0 where
  pub row : Txn
  pub found : find_first (is_pending_out_with_id i) db.txns ≡ some row
  pub counted : n ≤ row.resolve_attempts
  pub named : max_resolve_attempts ≤ n → is_some row.unresolvable_reason ≡ true

pub find-update_where :
    (p q : Txn → Bool) (f : Txn → Txn) (ts : List Txn) (t : Txn)
    → ((u : Txn) → p (f u) ≡ p u)
    → find_first p ts ≡ some t
    → find_first p (update_where q f ts) ≡ some (if q t then f t else t)
find-update_where p q f [] t keep h = absurd (ground arith)
find-update_where p q f (u ∷ us) t keep h =
    ground (arith, keep u, find-update_where p q f us t keep)
