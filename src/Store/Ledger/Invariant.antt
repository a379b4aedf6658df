-- ===== src/Store/Ledger/Invariant.antt =====
-- What holds of `txns` and `balance_entries` between two transactions.
use brollyzapper.Base.{ℕ, ◌<◌, ◌≤◌, ◌≡◌, refl, ◌⊎◌, List, [], ◌∷◌, arith, All, All-map}
use brollyzapper.Base.Int.{ℤ, pos, ◌+ℤ◌, neg_ℤ, ◌≤ℤ◌}
use brollyzapper.Store.Rows.{
  Kind, TxnState, payment_out, invoice_in, allocation, deallocation, adjustment, pending, settled,
  failed, expired, Txn, Entry, Db,
}
use brollyzapper.Store.Ledger.Append.{max_msat, next_txn_id}
use brollyzapper.Store.Ledger.Sums.{net, IsBounded}

-- What the entries of a transaction sum to, by its kind and state: a reservation holds the amount
-- and the whole fee reserve, a settled payment has cost the amount and a fee within the reserve,
-- and a failed one nothing.
abbrev pub Books : Kind → TxnState → ℤ → ℤ → ℤ → ℤ → Type 0
Books payment_out pending amount fee reserved n =
    (n ≡ neg_ℤ (amount +ℤ reserved))
    × (pos 1 ≤ℤ amount)
    × (pos 0 ≤ℤ reserved)
    × (amount ≤ℤ pos max_msat)
    × (reserved ≤ℤ pos max_msat)
    × (amount +ℤ reserved ≤ℤ pos max_msat)
Books payment_out settled amount fee reserved n =
    (n ≡ neg_ℤ (amount +ℤ fee)) × (pos 0 ≤ℤ fee) × (fee ≤ℤ reserved)
Books payment_out failed amount fee reserved n = n ≡ pos 0
Books payment_out expired amount fee reserved n = ⊥
Books invoice_in s amount fee reserved n = (n ≡ pos 0) ⊎ (n ≡ amount)
Books allocation s amount fee reserved n = (n ≡ amount) ⊎ (n ≡ neg_ℤ amount)
Books deallocation s amount fee reserved n = (n ≡ amount) ⊎ (n ≡ neg_ℤ amount)
Books adjustment s amount fee reserved n = (n ≡ amount) ⊎ (n ≡ neg_ℤ amount)

abbrev pub HasBooks : Txn → ℤ → Type 0
HasBooks t n = Books t.kind t.state t.amount_msat t.fee_msat t.fee_reserved_msat n

-- The row ids fall from the newest row to the oldest.
abbrev pub IsOrdered : List Txn → Type 0
IsOrdered [] = Unit
IsOrdered (t ∷ ts) = (next_txn_id ts ≤ t.id) × IsOrdered ts

pub record Inv (db : Db) : Type 0 where
  pub bounded : IsBounded db.entries
  pub ordered : IsOrdered db.txns
  pub refs : All (λ (e : Entry). e.txn_id < next_txn_id db.txns) db.entries
  pub books : All (λ (t : Txn). HasBooks t (net t.id db.entries)) db.txns

pub net-fresh :
    (i k : ℕ) (es : List Entry) → k ≤ i → All (λ (e : Entry). e.txn_id < k) es → net i es ≡ pos 0
net-fresh i k [] h a = refl
net-fresh i k (e ∷ es) h a = ground (arith, net-fresh i k es h a.1)

pub id-lt-next : (ts : List Txn) → All (λ (t : Txn). t.id < next_txn_id ts) ts
unfolding next_txn_id
id-lt-next [] = tt
id-lt-next (t ∷ ts) = (omega arith, All-map (λ u h. omega arith) ts (id-lt-next ts))
