-- ===== src/Store/Ledger/Sums.antt =====
-- Sums over `balance_entries`, and what an append does to them.
use brollyzapper.Base.{
  ℕ, ◌≡◌, refl, Bool, true, false, some, List, [], ◌∷◌, arith, if◌then◌else◌, ◌==◌, ◌||◌,
  Bool-cases, inl, inr,
}
use brollyzapper.Base.Int.{ℤ, pos, negsuc, ◌+ℤ◌, ◌≤ℤ◌, ltb_ℤ, +ℤ_parts}
use brollyzapper.Store.Rows.{Time, Reason, Entry, Db}
use brollyzapper.Store.Tx.{Result, ok, err, insufficient_balance, amount_out_of_range}
use brollyzapper.Store.Ledger.Append.{
  max_msat, sum_entries, is_int64, in_range, push_entry, balance_msat, check_balance,
  append_balance_entry,
}

-- The exact sum of the entries.
abbrev pub total : List Entry → ℤ
total [] = pos 0
total (e ∷ es) = total es +ℤ e.amount_msat

-- The sum of the entries of one transaction.
abbrev pub net : ℕ → List Entry → ℤ
net i [] = pos 0
net i (e ∷ es) = if e.txn_id == i then net i es +ℤ e.amount_msat else net i es

abbrev pub InRange : ℤ → Type 0
InRange a = (negsuc 2099999999999999999 ≤ℤ a) × (a ≤ℤ pos max_msat)

-- The balance has been between 0 and the supply after every entry so far.
abbrev pub IsBounded : List Entry → Type 0
IsBounded [] = Unit
IsBounded (e ∷ es) =
    (pos 0 ≤ℤ total (e ∷ es))
    × (total (e ∷ es) ≤ℤ pos max_msat)
    × (InRange e.amount_msat)
    × IsBounded es

pub total-bounds :
    (es : List Entry) → IsBounded es → (pos 0 ≤ℤ total es) × (total es ≤ℤ pos max_msat)
total-bounds [] h = omega arith
total-bounds (e ∷ es) h = (h.0, h.1)

is_int64_of_bounds : (a : ℤ) → pos 0 ≤ℤ a → a ≤ℤ pos 9223372036854775807 → is_int64 a ≡ true
is_int64_of_bounds a h k = ground arith

pub sum_entries-eq-total : (es : List Entry) → IsBounded es → sum_entries es ≡ some (total es)
unfolding sum_entries
sum_entries-eq-total [] h = refl
sum_entries-eq-total (e ∷ es) h =
    rw (sum_entries-eq-total es h.3)
      (rw (is_int64_of_bounds (total es +ℤ e.amount_msat) h.0 (omega (arith, h.1))) refl)

is_int64_after : (s a : ℤ) → pos 0 ≤ℤ s → s ≤ℤ pos max_msat → InRange a → is_int64 (s +ℤ a) ≡ true
is_int64_after s a h k r = grind (arith, +ℤ_parts s a)

abbrev pub is_in_range : ℤ → Bool
is_in_range a =
    if ltb_ℤ a (negsuc 2099999999999999999) || ltb_ℤ (pos max_msat) a then false else true

-- What an append to a bounded history comes to.
abbrev pub append_outcome : ℕ → ℤ → Reason → Time → Db → Result (Unit {0} × Db)
append_outcome i a reason at db =
    if is_in_range a
    then if ltb_ℤ (total db.entries +ℤ a) (pos 0)
      then err insufficient_balance
      else if ltb_ℤ (pos max_msat) (total db.entries +ℤ a)
      then err amount_out_of_range
      else ok (tt, push_entry i a reason at db)
    else err amount_out_of_range

sum-push :
    (i : ℕ) (a : ℤ) (reason : Reason) (at : Time) (db : Db)
    → IsBounded db.entries
    → InRange a
    → sum_entries (push_entry i a reason at db).entries ≡ some (total db.entries +ℤ a)
unfolding sum_entries push_entry
sum-push i a reason at db h r = rw (sum_entries-eq-total db.entries h) (
    rw
      (is_int64_after (total db.entries) a (total-bounds db.entries h).0
        (total-bounds db.entries h).1 r)
      refl)

pub append_balance_entry_lem :
    (i : ℕ) (a : ℤ) (reason : Reason) (at : Time) (db : Db)
    → IsBounded db.entries
    → append_balance_entry i a reason at db ≡ append_outcome i a reason at db
unfolding append_balance_entry in_range balance_msat check_balance
append_balance_entry_lem i a reason at db h = elim (Bool-cases (is_in_range a)) [
  | inl inside ↦ ground (arith, sum-push i a reason at db h (ground arith))
  | inr outside ↦ ground arith
]
