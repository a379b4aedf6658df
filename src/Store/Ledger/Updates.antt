-- ===== src/Store/Ledger/Updates.antt =====
-- A row rewritten, with or without an entry, keeps the invariant.
use brollyzapper.Base.{
  ℕ, ◌<◌, ◌≤◌, ◌≡◌, ◌≢◌, refl, sym, ap, subst, ◌∙◌, ◌⊎◌, inl, inr, true, false, some, List, [], ◌∷◌,
  arith, if◌then◌else◌, All, find_first, update_where,
}
use brollyzapper.Base.Int.{ℤ, ◌+ℤ◌}
use brollyzapper.Store.Rows.{Time, Reason, has_id, Txn, Entry, Db}
use brollyzapper.Store.Ledger.Append.{next_txn_id, push_entry}
use brollyzapper.Store.Ledger.Close.{is_out_with_id}
use brollyzapper.Store.Ledger.Sums.{net}
use brollyzapper.Store.Ledger.Invariant.{HasBooks, IsOrdered, Inv}
use brollyzapper.Store.Ledger.Steps.{Room, net-push_self, net-push_ne}

update_keeps_next :
    (i : ℕ) (f : Txn → Txn) (ts : List Txn)
    → ((t : Txn) → (f t).id ≡ t.id)
    → next_txn_id (update_where (has_id i) f ts) ≡ next_txn_id ts
unfolding next_txn_id
update_keeps_next i f [] keep = refl
update_keeps_next i f (t ∷ ts) keep = ground (arith, keep t, update_keeps_next i f ts keep)

update-IsOrdered :
    (i : ℕ) (f : Txn → Txn) (ts : List Txn)
    → ((t : Txn) → (f t).id ≡ t.id)
    → IsOrdered ts
    → IsOrdered (update_where (has_id i) f ts)
update-IsOrdered i f [] keep h = tt
update-IsOrdered i f (t ∷ ts) keep h =
    (ground (arith, keep t, update_keeps_next i f ts keep, h.0), update-IsOrdered i f ts keep h.1)

-- The row that a lookup by id finds stands at the head or further down.
find_out-cases :
    (i : ℕ) (t : Txn) (ts : List Txn) (r : Txn)
    → find_first (is_out_with_id i) (t ∷ ts) ≡ some r
    → ((t.id ≡ i) × (t ≡ r)) ⊎ (find_first (is_out_with_id i) ts ≡ some r)
find_out-cases i t ts r h = ground arith

find-lt-next :
    (i : ℕ) (ts : List Txn) (r : Txn)
    → find_first (is_out_with_id i) ts ≡ some r
    → i < next_txn_id ts
unfolding next_txn_id
find-lt-next i [] r h = absurd (cc)
find-lt-next i (t ∷ ts) r h = elim (find_out-cases i t ts r h) [
  | inl (own, _) ↦ omega arith
  | inr deeper ↦ omega (arith, find-lt-next i ts r deeper)
]

same_id : (i : ℕ) (t : Txn) → t.id ≡ i → has_id i t ≡ true
same_id i t e = ground arith

other_id : (i : ℕ) (t : Txn) → t.id ≢ i → has_id i t ≡ false
other_id i t ne = ground arith

-- A rewrite of the rows with one id, which are none or the row that was read.
module _ (i : ℕ) (f : Txn → Txn) (P Q : Txn → Type 0)
    (other : (t : Txn) → P t → t.id ≢ i → Q t) where
  update_miss :
      (ts : List Txn) → next_txn_id ts ≤ i → All P ts → All Q (update_where (has_id i) f ts)
  unfolding next_txn_id
  update_miss [] h a = tt
  update_miss (t ∷ ts) h a =
      let ne : t.id ≢ i = λ e. omega arith in
      (ground (arith, other t a.0 ne), update_miss ts (omega arith) a.1)

  update_hit :
      (ts : List Txn) (r : Txn)
      → IsOrdered ts
      → find_first (is_out_with_id i) ts ≡ some r
      → (P r → r.id ≡ i → Q (f r))
      → All P ts
      → All Q (update_where (has_id i) f ts)
  update_hit [] r o h hit a = tt
  update_hit (t ∷ ts) r o h hit a = elim (find_out-cases i t ts r h) [
    | inl (own, same) ↦ (
      subst (λ (u : Txn). Q (if has_id i u then f u else u)) (sym same)
          (rw (same_id i r (ap (λ (u : Txn). u.id) (sym same) ∙ own))
            (hit (subst P same a.0) (ap (λ (u : Txn). u.id) (sym same) ∙ own))),
      update_miss ts (omega (arith, o.0, own)) a.1,
    )
    | inr deeper ↦
        let below = find-lt-next i ts r deeper in
        let ne : t.id ≢ i = λ e. omega (arith, o.0, below) in
        (rw (other_id i t ne) (other t a.0 ne), update_hit ts r o.1 deeper hit a.1)
  ]

abbrev with_update : ℕ → (Txn → Txn) → Db → Db
with_update i f db = record db { txns = update_where (has_id i) f db.txns }

-- A row rewritten, and no entry.
pub update-Inv :
    (i : ℕ) (f : Txn → Txn) (r : Txn) (db : Db)
    → ((t : Txn) → (f t).id ≡ t.id)
    → find_first (is_out_with_id i) db.txns ≡ some r
    → (HasBooks r (net i db.entries) → HasBooks (f r) (net i db.entries))
    → Inv db
    → Inv (record db { txns = update_where (has_id i) f db.txns })
update-Inv i f r db keep found books inv = record {
  bounded = inv.bounded;
  ordered = update-IsOrdered i f db.txns keep inv.ordered;
  refs =
      subst (λ n. All (λ (e : Entry). e.txn_id < n) db.entries)
        (sym (update_keeps_next i f db.txns keep)) inv.refs;
  books =
      update_hit i f (λ t. HasBooks t (net t.id db.entries)) (λ t. HasBooks t (net t.id db.entries))
        (λ t h ne. h) db.txns r inv.ordered found
        (λ h own.
          subst (λ j. HasBooks (f r) (net j db.entries)) (sym (keep r ∙ own))
            (books (subst (λ j. HasBooks r (net j db.entries)) own h)))
        inv.books;
}

-- A row rewritten, with an entry.
pub update_entry-Inv :
    (i : ℕ) (f : Txn → Txn) (r : Txn) (a : ℤ) (reason : Reason) (at : Time) (db : Db)
    → ((t : Txn) → (f t).id ≡ t.id)
    → find_first (is_out_with_id i) db.txns ≡ some r
    → (HasBooks r (net i db.entries) → HasBooks (f r) (net i db.entries +ℤ a))
    → Room a db.entries
    → Inv db
    → Inv (push_entry i a reason at (record db { txns = update_where (has_id i) f db.txns }))
unfolding push_entry
update_entry-Inv i f r a reason at db keep found books room inv = record {
  bounded = (room.not_below, room.not_above, room.in_range, inv.bounded);
  ordered = update-IsOrdered i f db.txns keep inv.ordered;
  refs =
      subst (λ n. All (λ (e : Entry). e.txn_id < n) (push_entry i a reason at db).entries)
        (sym (update_keeps_next i f db.txns keep)) (find-lt-next i db.txns r found, inv.refs);
  books =
      update_hit i f (λ t. HasBooks t (net t.id db.entries))
        (λ t. HasBooks t (net t.id (push_entry i a reason at db).entries))
        (λ t h ne. rw (net-push_ne i t.id a reason at db ne) h) db.txns r inv.ordered found
        (λ h own.
          subst (λ j. HasBooks (f r) (net j (push_entry i a reason at db).entries))
            (sym (keep r ∙ own))
            (rw (net-push_self i a reason at db)
              (books (subst (λ j. HasBooks r (net j db.entries)) own h))))
        inv.books;
}
