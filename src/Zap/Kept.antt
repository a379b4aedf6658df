-- ===== src/Zap/Kept.antt =====
-- A receipt is not given up before its time.
use brollyzapper.Base.{
  ◌==◌, ◌≡◌, refl, subst, Bool, true, false, ◌&&◌, ◌||◌, Option, none, some, List, [], ◌∷◌, String,
  if◌then◌else◌, if-both, arith, Bool-cases, inl, inr, any, All, All-map,
}
use brollyzapper.Store.Rows.{Time, Db}
use brollyzapper.Zap.Queue.{
  PendingReceipt, Zaps, has_hash, queue_zap_receipt, due_zap_receipts, drop_zap_receipt,
  record_zap_receipt, is_settlement, Found, a_zap, no_zap, unreadable, settled_zap_for,
}
use brollyzapper.Zap.Publish.{
  batch_size, Relays, reschedule, signed, attempt, retry_found, retry_each, retry_due,
}
use brollyzapper.Zap.Batch.{All-due}
use brollyzapper.Zap.Join.{settled_zap_for-IsOf}
use brollyzapper.Zap.Stays.{is_queued, is_receipted, excuses, holds, retry_found-Stays}

unfoldable pub is_excused : Relays → Time → Db → String → List PendingReceipt → Bool
is_excused relays now db h rs =
    any (λ r. has_hash h r && excuses relays now (settled_zap_for r.payment_hash db) r) rs

-- The ledger is not touched.
reschedule-db : (now : Time) (r : PendingReceipt) (z : Zaps) → (reschedule now r z).db ≡ z.db
unfolding reschedule queue_zap_receipt drop_zap_receipt
reschedule-db now r z = ground arith

signed-db :
    (relays : Relays) (now : Time) (o : Option String) (r : PendingReceipt) (z : Zaps)
    → (signed relays now o r z).db ≡ z.db
unfolding drop_zap_receipt record_zap_receipt
signed-db relays now none r z = reschedule-db now r z
signed-db relays now (some e) r z =
    if-both (λ (y : Zaps). y.db ≡ z.db) (relays.accepted e == 0) (λ _. reschedule-db now r z)
      (λ _.
        if-both (λ (y : Zaps). y.db ≡ z.db) (any (is_settlement r.payment_hash) z.db.txns)
          (λ _. refl) (λ _. refl))

retry_found-db :
    (relays : Relays) (now : Time) (f : Found) (r : PendingReceipt) (z : Zaps)
    → (retry_found relays now f r z).db ≡ z.db
unfolding attempt drop_zap_receipt
retry_found-db relays now no_zap r z = refl
retry_found-db relays now unreadable r z = refl
retry_found-db relays now (a_zap zap) r z =
    if-both (λ (y : Zaps). y.db ≡ z.db) (relays.builds zap)
      (λ _. signed-db relays now (relays.sign zap) (record r { payment_hash = zap.payment_hash }) z)
      (λ _. refl)

rest_or : (a b c : Bool) → (a || c) ≡ true → (a || (if b then true else c)) ≡ true
rest_or a b c e = ground arith

excused_or : (a b c : Bool) → b ≡ true → (a || (if b then true else c)) ≡ true
excused_or a b c e = ground arith

gone : (a b : Bool) → a ≡ false → (a || b) ≡ true → b ≡ true
gone a b n e = ground arith

retry_each_holds :
    (relays : Relays) (now : Time) (h : String) (rs : List PendingReceipt) (z : Zaps)
    → holds h z ≡ true
    → (holds h (retry_each relays now rs z) || is_excused relays now z.db h rs) ≡ true
unfolding retry_each is_excused
retry_each_holds relays now h [] z k = rw k refl
retry_each_holds relays now h (r ∷ rs) z k =
    let f = settled_zap_for r.payment_hash z.db in
    let y = retry_found relays now f r z in
    let here = has_hash h r && excuses relays now f r in
    let one : (holds h y || here) ≡ true =
      retry_found-Stays relays now h r z f (settled_zap_for-IsOf r.payment_hash z.db) k in
    elim (Bool-cases (holds h y)) [
      | inl kept ↦
          rest_or (holds h (retry_each relays now rs y)) here (is_excused relays now z.db h rs) (
            subst
              (λ (db : Db).
                (holds h (retry_each relays now rs y) || is_excused relays now db h rs) ≡ true)
              (retry_found-db relays now f r z) (retry_each_holds relays now h rs y kept))
      | inr lost ↦
          excused_or (holds h (retry_each relays now rs y)) here (is_excused relays now z.db h rs)
            (gone (holds h y) here lost one)
    ]

-- What holds of a row of a batch holds of a row of the queue.
module _ (p : PendingReceipt → Bool) where
  abbrev IsFound : List PendingReceipt → PendingReceipt → Type 0
  IsFound rs r = p r ≡ true → any p rs ≡ true

  any_in : (rs ds : List PendingReceipt) → All (IsFound rs) ds → any p ds ≡ true → any p rs ≡ true
  any_in rs [] a e = absurd (cc)
  any_in rs (d ∷ ds) a e = elim (Bool-cases (p d)) [
    | inl here ↦ a.0 here
    | inr later ↦ any_in rs ds a.1 (ground arith)
  ]

  All-IsFound : (rs : List PendingReceipt) → All (IsFound rs) rs
  All-IsFound [] = tt
  All-IsFound (r ∷ rs) = (
    λ h. rw h refl,
    All-map (λ (q : PendingReceipt) (f : IsFound rs q). further q f) rs (All-IsFound rs),
  )
    where
      further : (q : PendingReceipt) → IsFound rs q → IsFound (r ∷ rs) q
      further q f h = let e = f h in ground arith

merged : (a b c d : Bool) → ((a || b) || c) ≡ true → (c ≡ true → d ≡ true) → (a || b || d) ≡ true
merged a b c d e f = elim (Bool-cases c) [
  | inl excused ↦ let g = f excused in ground arith
  | inr kept ↦ ground arith
]

-- A receipt is not lost early. After one tick a receipt that was queued is still queued, or it is recorded as
-- published, or there was an excuse: no zap can be read for it, the receipt cannot be built, or its deadline is past.
pub kept_until :
    (relays : Relays) (now : Time) (h : String) (z : Zaps)
    → is_queued h z ≡ true
    → (is_queued h (retry_due relays now z)
        || is_receipted h (retry_due relays now z)
        || is_excused relays now z.db h z.queue)
      ≡ true
unfolding retry_due is_excused
kept_until relays now h z e =
    let ds = due_zap_receipts now batch_size z.queue in
    let y = retry_each relays now ds z in
    let p : PendingReceipt → Bool =
      λ r. has_hash h r && excuses relays now (settled_zap_for r.payment_hash z.db) r in
    merged (is_queued h y) (is_receipted h y) (any p ds) (any p z.queue)
      (retry_each_holds relays now h ds z (rw e refl))
      (any_in p z.queue ds
        (All-due (IsFound p z.queue) now batch_size z.queue (All-IsFound p z.queue)))
