-- ===== src/Zap/Drains.antt =====
-- A receipt is not retried for ever.
use brollyzapper.Base.{
  ℕ, suc, ◌*◌, ◌≤◌, ◌<◌, ◌==◌, ◌≡◌, refl, ◌∙◌, ap, subst, sym, Bool, true, not, Option, none, some,
  List, [], ◌∷◌, String, eq_refl, if-both, leb, arith, Bool-cases, inl, inr, any, select, length,
  ◌⊎◌, All, All-map,
}
use brollyzapper.Store.Rows.{Time, second, unix}
use brollyzapper.Zap.Queue.{
  PendingReceipt, Zaps, has_hash, insert_by_next, by_next, take, due_zap_receipts, drop_zap_receipt,
  record_zap_receipt, SettledZap, is_settlement, Found, a_zap, no_zap, unreadable, settled_zap_for,
}
use brollyzapper.Zap.Publish.{
  batch_size, Relays, reschedule, signed, built, retry_found, retry_each, retry_due, retry_all,
}
use brollyzapper.Zap.Batch.{All-select, All-due}
use brollyzapper.Zap.Join.{IsOf, settled_zap_for-IsOf, attempt-same}

le_trans : {a b c : ℕ} → a ≤ b → b ≤ c → a ≤ c
le_trans h k = omega arith

lt_of_le : {a b c : ℕ} → a ≤ b → b < c → a < c
lt_of_le h k = omega arith

le-leb : (a b : ℕ) → a ≤ b → leb a b ≡ true
le-leb a b h = ground arith

-- A row that is due for good: its next attempt has come, and its deadline is past.
abbrev pub IsOver : Time → PendingReceipt → Type 0
IsOver t r = (r.next_attempt_at ≤ unix t) × (r.give_up_at * second ≤ t)

IsOver-later : (t now : Time) → t ≤ now → (r : PendingReceipt) → IsOver t r → IsOver now r
IsOver-later t now h r o = (omega arith, omega arith)

-- At its deadline a receipt leaves the queue, whatever becomes of the attempt.
built-drops :
    (relays : Relays) (now : Time) (zap : SettledZap) (r : PendingReceipt) (z : Zaps)
    → r.give_up_at * second ≤ now
    → (built relays now zap r z).queue ≡ (drop_zap_receipt r.payment_hash z).queue
unfolding reschedule drop_zap_receipt record_zap_receipt
built-drops relays now zap r z h =
    if-both (λ (z' : Zaps). z'.queue ≡ select (λ q. not (has_hash r.payment_hash q)) z.queue)
      (relays.builds zap) (λ _. signed_drops (relays.sign zap)) (λ _. refl)
  where
    given_up : (reschedule now r z).queue ≡ select (λ q. not (has_hash r.payment_hash q)) z.queue
    given_up = rw (le-leb (r.give_up_at * second) now h) refl

    signed_drops :
        (o : Option String)
        → (signed relays now o r z).queue ≡ select (λ q. not (has_hash r.payment_hash q)) z.queue
    signed_drops none = given_up
    signed_drops (some e) =
        if-both (λ (z' : Zaps). z'.queue ≡ select (λ q. not (has_hash r.payment_hash q)) z.queue)
          (relays.accepted e == 0) (λ _. given_up)
          (λ _.
            if-both
              (λ (y : Zaps).
                select (λ q. not (has_hash r.payment_hash q)) y.queue
                ≡ select (λ q. not (has_hash r.payment_hash q)) z.queue)
              (any (is_settlement r.payment_hash) z.db.txns) (λ _. refl) (λ _. refl))

retry_found-drops :
    (relays : Relays) (now : Time) (f : Found) (r : PendingReceipt) (z : Zaps)
    → IsOf r.payment_hash z.db f
    → r.give_up_at * second ≤ now
    → (retry_found relays now f r z).queue ≡ (drop_zap_receipt r.payment_hash z).queue
retry_found-drops relays now (a_zap zap) r z o h =
    ap (λ (y : Zaps). y.queue) (attempt-same relays now zap r z o.0)
    ∙ built-drops relays now zap r z h
retry_found-drops relays now no_zap r z o h = refl
retry_found-drops relays now unreadable r z o h = refl

drop-le :
    (h : String) (rs : List PendingReceipt)
    → length (select (λ r. not (has_hash h r)) rs) ≤ length rs
drop-le h [] = omega arith
drop-le h (r ∷ rs) = ground (arith, drop-le h rs)

drop-lt :
    (h : String) (rs : List PendingReceipt)
    → any (has_hash h) rs ≡ true
    → length (select (λ r. not (has_hash h r)) rs) < length rs
drop-lt h [] e = absurd (cc)
drop-lt h (r ∷ rs) e = ground (arith, drop-lt h rs, drop-le h rs)

-- What one row of a pass leaves.
module _ (relays : Relays) (now : Time) (r : PendingReceipt) (z : Zaps) (o : IsOver now r) where
  abbrev passed : Zaps
  passed = retry_found relays now (settled_zap_for r.payment_hash z.db) r z

  passed-queue : passed.queue ≡ select (λ q. not (has_hash r.payment_hash q)) z.queue
  unfolding drop_zap_receipt
  passed-queue =
      retry_found-drops relays now (settled_zap_for r.payment_hash z.db) r z
        (settled_zap_for-IsOf r.payment_hash z.db) o.1

  passed-All : (P : PendingReceipt → Type 0) → All P z.queue → All P passed.queue
  passed-All P q =
      subst (All P) (sym passed-queue)
        (All-select P (λ x. not (has_hash r.payment_hash x)) z.queue q)

  passed-le : length passed.queue ≤ length z.queue
  passed-le = rw passed-queue (drop-le r.payment_hash z.queue)

  passed-lt : any (has_hash r.payment_hash) z.queue ≡ true → length passed.queue < length z.queue
  passed-lt h = rw passed-queue (drop-lt r.payment_hash z.queue h)

-- Over rows that are past their deadline, a pass only drops.
retry_each-All :
    (P : PendingReceipt → Type 0) (relays : Relays) (now : Time) (ds : List PendingReceipt)
    (z : Zaps)
    → All (IsOver now) ds
    → All P z.queue
    → (length (retry_each relays now ds z).queue ≤ length z.queue)
      × All P (retry_each relays now ds z).queue
unfolding retry_each
retry_each-All P relays now [] z d q = (omega arith, q)
retry_each-All P relays now (r ∷ rs) z d q =
    let rest =
      retry_each-All P relays now rs (passed relays now r z d.0) d.1
        (passed-All relays now r z d.0 P q) in
    (le_trans rest.0 (passed-le relays now r z d.0), rest.1)

retry_each-lt :
    (relays : Relays) (now : Time) (r : PendingReceipt) (rs : List PendingReceipt) (z : Zaps)
    → All (IsOver now) (r ∷ rs)
    → All (IsOver now) z.queue
    → any (has_hash r.payment_hash) z.queue ≡ true
    → length (retry_each relays now (r ∷ rs) z).queue < length z.queue
unfolding retry_each
retry_each-lt relays now r rs z d q h =
    let rest =
      retry_each-All (IsOver now) relays now rs (passed relays now r z d.0) d.1
        (passed-All relays now r z d.0 (IsOver now) q) in
    lt_of_le rest.0 (passed-lt relays now r z d.0 h)

select-All :
    (p : PendingReceipt → Bool) (rs : List PendingReceipt)
    → All (λ r. p r ≡ true) rs
    → select p rs ≡ rs
select-All p [] h = refl
select-All p (r ∷ rs) h = rw (h.0) (ap (λ (q : List PendingReceipt). r ∷ q) (select-All p rs h.1))

insert_by_next-cons :
    (r : PendingReceipt) (rs : List PendingReceipt)
    → (d : PendingReceipt) × (ds : List PendingReceipt) × (insert_by_next r rs ≡ d ∷ ds)
unfolding insert_by_next
insert_by_next-cons r [] = (r, [], refl)
insert_by_next-cons r (q ∷ qs) = elim (Bool-cases (leb r.next_attempt_at q.next_attempt_at)) [
  | inl first ↦ (r, q ∷ qs, rw first refl)
  | inr later ↦ (q, insert_by_next r qs, rw later refl)
]

-- Rows that are over are due, so that a batch of them is not empty.
due-cons :
    (now : Time) (n : ℕ) (r : PendingReceipt) (rs : List PendingReceipt)
    → All (IsOver now) (r ∷ rs)
    → (d : PendingReceipt) × (ds : List PendingReceipt) × (due_zap_receipts now (suc n) (r ∷ rs)
        ≡ d ∷ ds)
unfolding due_zap_receipts by_next
due-cons now n r rs h =
    let (d, ds, e) = insert_by_next-cons r (by_next rs) in
    let whole =
      select-All (λ q. leb q.next_attempt_at (unix now)) (r ∷ rs)
        (All-map (λ q o. le-leb q.next_attempt_at (unix now) o.0) (r ∷ rs) h) in
    (d, take n ds, rw whole (rw e refl))

abbrev IsHere : List PendingReceipt → PendingReceipt → Type 0
IsHere qs r = any (has_hash r.payment_hash) qs ≡ true

All-IsHere : (rs : List PendingReceipt) → All (IsHere rs) rs
All-IsHere [] = tt
All-IsHere (r ∷ rs) = (
  rw (eq_refl r.payment_hash) refl,
  All-map (λ (q : PendingReceipt) (h : IsHere rs q). further q h) rs (All-IsHere rs),
)
  where
    further : (q : PendingReceipt) → IsHere rs q → IsHere (r ∷ rs) q
    further q h = ground arith

retry_due-lt :
    (relays : Relays) (now : Time) (z : Zaps) (r : PendingReceipt) (rs : List PendingReceipt)
    → z.queue ≡ r ∷ rs
    → All (IsOver now) z.queue
    → length (retry_due relays now z).queue < length z.queue
unfolding retry_due
retry_due-lt relays now z r rs e q =
    let (d, ds, due) = due-cons now 7 r rs (subst (All (IsOver now)) e q) in
    let same : due_zap_receipts now batch_size z.queue ≡ d ∷ ds = rw e due in
    let over = subst (All (IsOver now)) same (All-due (IsOver now) now batch_size z.queue q) in
    let here =
      subst (All (IsHere z.queue)) same
        (All-due (IsHere z.queue) now batch_size z.queue (All-IsHere z.queue)) in
    rw same (retry_each-lt relays now d ds z over q here.0)

retry_due-All :
    (P : PendingReceipt → Type 0) (relays : Relays) (now : Time) (z : Zaps)
    → All (IsOver now) z.queue
    → All P z.queue
    → All P (retry_due relays now z).queue
unfolding retry_due
retry_due-All P relays now z o q =
    (retry_each-All P relays now (due_zap_receipts now batch_size z.queue) z
      (All-due (IsOver now) now batch_size z.queue o) q).1

retry_due-nil :
    (relays : Relays) (now : Time) (z : Zaps) → z.queue ≡ [] → (retry_due relays now z).queue ≡ []
unfolding retry_due retry_each due_zap_receipts by_next
retry_due-nil relays now z e =
    subst
      (λ (rs : List PendingReceipt).
        (retry_each relays now (due_zap_receipts now batch_size rs) z).queue ≡ [])
      (sym e) e

retry_all-nil : (ts : List (Relays × Time)) (z : Zaps) → z.queue ≡ [] → (retry_all ts z).queue ≡ []
unfolding retry_all
retry_all-nil [] z e = e
retry_all-nil ((relays, now) ∷ ts) z e =
    retry_all-nil ts (retry_due relays now z) (retry_due-nil relays now z e)

-- Retrying ends. Where every queued receipt has come to its next attempt and its deadline by a time, then as many
-- ticks from then on as there are receipts empty the queue, at most, whatever the relays answer at each.
pub retry_all_ends :
    (t : Time) (ts : List (Relays × Time)) (z : Zaps)
    → All (IsOver t) z.queue
    → All (λ (tick : Relays × Time). t ≤ tick.1) ts
    → length z.queue ≤ length ts
    → (retry_all ts z).queue ≡ []
unfolding retry_all
retry_all_ends t [] z q later n = none_left z.queue n
  where
    none_left : (rs : List PendingReceipt) → length rs ≤ 0 → rs ≡ []
    none_left [] h = refl
    none_left (r ∷ rs) h = absurd (omega arith)
retry_all_ends t ((relays, now) ∷ ts) z q later n = elim (cases z.queue) [
  | inl e ↦ retry_all-nil ((relays, now) ∷ ts) z e
  | inr (r, rs, e) ↦
      let over = All-map (IsOver-later t now later.0) z.queue q in
      let less = retry_due-lt relays now z r rs e over in
      retry_all_ends t ts (retry_due relays now z) (retry_due-All (IsOver t) relays now z over q)
        later.1 (omega arith)
]
  where
    cases :
        (rs : List PendingReceipt)
        → (rs ≡ []) ⊎ ((r : PendingReceipt) × (qs : List PendingReceipt) × (rs ≡ r ∷ qs))
    cases [] = inl refl
    cases (r ∷ rs) = inr (r, rs, refl)
