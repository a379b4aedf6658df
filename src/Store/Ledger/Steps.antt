-- ===== src/Store/Ledger/Steps.antt =====
-- The steps from which every operation on the ledger is put together, and that each keeps `Inv`:
-- a new row with or without its entry, and a row rewritten with or without an entry.
use brollyzapper.Base.{ℕ, ◌≡◌, ◌≢◌, List, ◌∷◌, arith, All, All-map, All-map₂}
use brollyzapper.Base.Int.{ℤ, pos, ◌+ℤ◌, ◌≤ℤ◌, int_laws}
use brollyzapper.Store.Rows.{Time, Reason, Txn, Entry, Db}
use brollyzapper.Store.Ledger.Append.{max_msat, next_txn_id, push_entry}
use brollyzapper.Store.Ledger.Sums.{total, net, InRange}
use brollyzapper.Store.Ledger.Invariant.{HasBooks, Inv, net-fresh, id-lt-next}

-- The conditions under which an entry of `a` may follow `es`.
pub record Room (a : ℤ) (es : List Entry) : Type 0 where
  pub in_range : InRange a
  pub not_below : pos 0 ≤ℤ total es +ℤ a
  pub not_above : total es +ℤ a ≤ℤ pos max_msat

abbrev with_row : Txn → Db → Db
with_row t db = record db { txns = t ∷ db.txns }

pub net-push_self :
    (i : ℕ) (a : ℤ) (reason : Reason) (at : Time) (db : Db)
    → net i (push_entry i a reason at db).entries ≡ net i db.entries +ℤ a
unfolding push_entry
net-push_self i a reason at db = ground arith

pub net-push_ne :
    (i j : ℕ) (a : ℤ) (reason : Reason) (at : Time) (db : Db)
    → j ≢ i
    → net j (push_entry i a reason at db).entries ≡ net j db.entries
unfolding push_entry
net-push_ne i j a reason at db ne = ground arith

+ℤ_zero : (a : ℤ) → pos 0 +ℤ a ≡ a
+ℤ_zero a = omega int_laws

-- A new row that has no entry yet.
pub insert_silent-Inv :
    (t : Txn) (db : Db)
    → t.id ≡ next_txn_id db.txns
    → HasBooks t (pos 0)
    → Inv db
    → Inv (record db { txns = t ∷ db.txns })
unfolding next_txn_id
insert_silent-Inv t db fresh own inv = record {
  bounded = inv.bounded;
  ordered = (omega arith, inv.ordered);
  refs = All-map (λ e h. omega arith) db.entries inv.refs;
  books =
      (rw (net-fresh t.id (next_txn_id db.txns) db.entries (omega arith) inv.refs) own, inv.books);
}

insert_own :
    (t : Txn) (a : ℤ) (reason : Reason) (at : Time) (db : Db)
    → t.id ≡ next_txn_id db.txns
    → HasBooks t a
    → Inv db
    → HasBooks t (net t.id (push_entry t.id a reason at db).entries)
insert_own t a reason at db fresh own inv = rw (net-push_self t.id a reason at db) (
    rw (net-fresh t.id (next_txn_id db.txns) db.entries (omega arith) inv.refs)
      (rw (+ℤ_zero a) own))

insert_rest :
    (t : Txn) (a : ℤ) (reason : Reason) (at : Time) (db : Db)
    → t.id ≡ next_txn_id db.txns
    → Inv db
    → All (λ (u : Txn). HasBooks u (net u.id (push_entry t.id a reason at db).entries)) db.txns
insert_rest t a reason at db fresh inv =
    All-map₂ (λ u h lt. rw (net-push_ne t.id u.id a reason at db (λ e. omega arith)) h) db.txns
      inv.books (id-lt-next db.txns)

-- A new row with its entry.
pub insert-Inv :
    (t : Txn) (a : ℤ) (reason : Reason) (at : Time) (db : Db)
    → t.id ≡ next_txn_id db.txns
    → HasBooks t a
    → Room a db.entries
    → Inv db
    → Inv (push_entry t.id a reason at (record db { txns = t ∷ db.txns }))
unfolding next_txn_id push_entry
insert-Inv t a reason at db fresh own room inv = record {
  bounded = (room.not_below, room.not_above, room.in_range, inv.bounded);
  ordered = (omega arith, inv.ordered);
  refs = (omega arith, All-map (λ e h. omega arith) db.entries inv.refs);
  books = (insert_own t a reason at db fresh own inv, insert_rest t a reason at db fresh inv);
}
