-- ===== src/Store/Ledger/Marking.antt =====
-- The marks on a pending payment and the settings leave the ledger's books as they are.
use brollyzapper.Base.{
  ℕ, ◌<◌, ◌≡◌, refl, subst, sym, Bool, true, false, String, List, [], ◌∷◌, All, arith, find_first,
  if◌then◌else◌, update_where, Option-cases, inl, inr,
}
use brollyzapper.Base.Int.{ℤ}
use brollyzapper.Store.Rows.{Time, Txn, Entry, Invoice, Db}
use brollyzapper.Store.Ledger.Append.{next_txn_id}
use brollyzapper.Store.Ledger.Marks.{
  update_rows, mark_spend_dispatched, clear_spend_dispatched, note_resolve_attempt,
  clear_resolve_attempts, mark_payment_unresolvable, is_unmarked, set_dispatched,
  is_pending_out_with_id, count_attempt, is_unnamed, set_named,
}
use brollyzapper.Store.Ledger.Sums.{net}
use brollyzapper.Store.Ledger.Invariant.{HasBooks, IsOrdered, Inv}
use brollyzapper.Store.Settings.{set_setting}

module _ (p : Txn → Bool) (f : Txn → Txn) (keep : (t : Txn) → (f t).id ≡ t.id) where
  update_rows_keeps_next : (ts : List Txn) → next_txn_id (update_where p f ts) ≡ next_txn_id ts
  unfolding next_txn_id
  update_rows_keeps_next [] = refl
  update_rows_keeps_next (t ∷ ts) = ground (arith, keep t, update_rows_keeps_next ts)

  update_rows-IsOrdered : (ts : List Txn) → IsOrdered ts → IsOrdered (update_where p f ts)
  update_rows-IsOrdered [] h = tt
  update_rows-IsOrdered (t ∷ ts) h =
      (ground (arith, keep t, update_rows_keeps_next ts, h.0), update_rows-IsOrdered ts h.1)

  update_rows-All :
      (P : Txn → Type 0)
      → ((t : Txn) → P t → P (f t))
      → (ts : List Txn) → All P ts
      → All P (update_where p f ts)
  update_rows-All P hit [] h = tt
  update_rows-All P hit (t ∷ ts) h = (kept (p t), update_rows-All P hit ts h.1)
    where
      kept : (b : Bool) → P (if b then f t else t)
      kept true = hit t h.0
      kept false = h.0

  -- A rewrite of any rows that leaves what their entries must come to keeps the invariant.
  pub update_rows-Inv :
      ((t : Txn) (n : ℤ) → HasBooks t n → HasBooks (f t) n)
      → (db : Db) → Inv db
      → Inv (update_rows p f db).1
  unfolding update_rows
  update_rows-Inv same db inv = record {
    bounded = inv.bounded;
    ordered = update_rows-IsOrdered db.txns inv.ordered;
    refs =
        subst (λ n. All (λ (e : Entry). e.txn_id < n) db.entries)
          (sym (update_rows_keeps_next db.txns)) inv.refs;
    books =
        update_rows-All (λ t. HasBooks t (net t.id db.entries))
          (λ t h. subst (λ j. HasBooks (f t) (net j db.entries)) (sym (keep t)) (same t _ h))
          db.txns inv.books;
  }

pub mark_outcome :
    (i : ℕ) (at : Time) (db : Db)
    → (mark_spend_dispatched i at db).1 ≡ (update_rows (is_unmarked i) (set_dispatched at) db).1
unfolding mark_spend_dispatched update_rows
mark_outcome i at db = ground arith

pub mark_spend_dispatched-Inv :
    (i : ℕ) (at : Time) (db : Db) → Inv db → Inv (mark_spend_dispatched i at db).1
mark_spend_dispatched-Inv i at db inv =
    rw (mark_outcome i at db)
      (update_rows-Inv (is_unmarked i) (set_dispatched at) (λ t. refl) (λ t n h. h) db inv)

pub clear_spend_dispatched-Inv : (i : ℕ) (db : Db) → Inv db → Inv (clear_spend_dispatched i db)
unfolding clear_spend_dispatched
clear_spend_dispatched-Inv i db inv = update_rows-Inv _ _ (λ t. refl) (λ t n h. h) db inv

pub note_resolve_attempt-Inv : (i : ℕ) (db : Db) → Inv db → Inv (note_resolve_attempt i db).1
unfolding note_resolve_attempt
note_resolve_attempt-Inv i db inv =
    elim (Option-cases (find_first (is_pending_out_with_id i) db.txns)) [
      | inl missing ↦ rw (missing, note_resolve_attempt) inv
      | inr (t, found) ↦
          rw (found, note_resolve_attempt)
            (update_rows-Inv (is_pending_out_with_id i) count_attempt (λ u. refl) (λ u n h. h) db
              inv)
    ]

pub clear_resolve_attempts-Inv : (i : ℕ) (db : Db) → Inv db → Inv (clear_resolve_attempts i db)
unfolding clear_resolve_attempts
clear_resolve_attempts-Inv i db inv = update_rows-Inv _ _ (λ t. refl) (λ t n h. h) db inv

pub mark_payment_unresolvable-Inv :
    (i : ℕ) (why : String) (db : Db) → Inv db → Inv (mark_payment_unresolvable i why db)
unfolding mark_payment_unresolvable
mark_payment_unresolvable-Inv i why db inv =
    update_rows-Inv (is_unnamed i) (set_named why) (λ t. refl) (λ t n h. h) db inv

-- The other tables are not spoken of.
pub other_tables-Inv :
    (db : Db) (invoices : List Invoice) (settings : List (String × String))
    → Inv db
    → Inv (record db { invoices = invoices; settings = settings })
other_tables-Inv db invoices settings inv = record {
  bounded = inv.bounded;
  ordered = inv.ordered;
  refs = inv.refs;
  books = inv.books;
}

pub set_setting-Inv : (key value : String) (db : Db) → Inv db → Inv (set_setting key value db)
unfolding set_setting
set_setting-Inv key value db inv = other_tables-Inv db db.invoices _ inv
