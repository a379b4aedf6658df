-- ===== src/Zap/Batch.antt =====
-- What holds of every queued receipt holds of a batch of them.
use brollyzapper.Base.{ℕ, zero, suc, Bool, List, [], ◌∷◌, leb, Bool-cases, inl, inr, select, All}
use brollyzapper.Store.Rows.{Time, unix}
use brollyzapper.Zap.Queue.{PendingReceipt, insert_by_next, by_next, take, due_zap_receipts}

module _ (P : PendingReceipt → Type 0) where
  pub All-select :
      (p : PendingReceipt → Bool) (rs : List PendingReceipt) → All P rs → All P (select p rs)
  All-select p [] h = tt
  All-select p (r ∷ rs) h = elim (Bool-cases (p r)) [
    | inl here ↦ rw here (h.0, All-select p rs h.1)
    | inr gone ↦ rw gone (All-select p rs h.1)
  ]

  All-insert_by_next :
      (r : PendingReceipt) (rs : List PendingReceipt) → P r → All P rs → All P (insert_by_next r rs)
  unfolding insert_by_next
  All-insert_by_next r [] h k = (h, tt)
  All-insert_by_next r (q ∷ qs) h k = elim (Bool-cases (leb r.next_attempt_at q.next_attempt_at)) [
    | inl first ↦ rw first (h, k)
    | inr later ↦ rw later (k.0, All-insert_by_next r qs h k.1)
  ]

  All-by_next : (rs : List PendingReceipt) → All P rs → All P (by_next rs)
  unfolding by_next
  All-by_next [] h = tt
  All-by_next (r ∷ rs) h = All-insert_by_next r (by_next rs) h.0 (All-by_next rs h.1)

  All-take : (n : ℕ) (rs : List PendingReceipt) → All P rs → All P (take n rs)
  All-take zero rs h = tt
  All-take (suc n) [] h = tt
  All-take (suc n) (r ∷ rs) h = (h.0, All-take n rs h.1)

  pub All-due :
      (now : Time) (limit : ℕ) (rs : List PendingReceipt)
      → All P rs
      → All P (due_zap_receipts now limit rs)
  unfolding due_zap_receipts
  All-due now limit rs h =
      All-take limit (by_next (select (λ r. leb r.next_attempt_at (unix now)) rs)) (
        All-by_next (select (λ r. leb r.next_attempt_at (unix now)) rs)
          (All-select (λ r. leb r.next_attempt_at (unix now)) rs h))
