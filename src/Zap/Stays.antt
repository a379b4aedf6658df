-- ===== src/Zap/Stays.antt =====
-- What one attempt does to a receipt.
use brollyzapper.Base.{
  ◌*◌, ◌==◌, ◌≡◌, refl, Bool, true, false, not, ◌&&◌, ◌||◌, Option, none, some, List, [], ◌∷◌,
  String, str_eq, eq_iff, if-both, leb, arith, Bool-cases, inl, inr, any, select,
}
use brollyzapper.Store.Rows.{Time, second, Invoice}
use brollyzapper.Zap.Queue.{
  PendingReceipt, Zaps, has_hash, upsert, queue_zap_receipt, drop_zap_receipt, record_zap_receipt,
  is_settlement, Found, a_zap, no_zap, unreadable,
}
use brollyzapper.Zap.Publish.{Relays, tried_again, reschedule, published, signed, retry_found}
use brollyzapper.Zap.Join.{IsOf, attempt-same}

abbrev pub is_queued : String → Zaps → Bool
is_queued h z = any (has_hash h) z.queue

abbrev pub is_receipted : String → Zaps → Bool
is_receipted h z = any (λ (r : String × String). str_eq r.0 h) z.receipts

-- Why a receipt may be given up: there is no zap behind it, it cannot be built, or its deadline is past.
abbrev pub excuses : Relays → Time → Found → PendingReceipt → Bool
excuses relays now (a_zap zap) r = not (relays.builds zap) || leb (r.give_up_at * second) now
excuses relays now _ r = true

abbrev pub holds : String → Zaps → Bool
holds h z = is_queued h z || is_receipted h z

upsert-queued :
    (r : PendingReceipt) (h : String) (qs : List PendingReceipt)
    → any (has_hash h) qs ≡ true
    → any (has_hash h) (upsert r qs) ≡ true
unfolding upsert
upsert-queued r h [] e = absurd (cc)
upsert-queued r h (q ∷ qs) e = ground (arith, upsert-queued r h qs)

queue-holds :
    (r : PendingReceipt) (h : String) (z : Zaps)
    → holds h z ≡ true
    → holds h (queue_zap_receipt r z) ≡ true
unfolding queue_zap_receipt
queue-holds r h z e =
    if-both (λ (y : Zaps). holds h y ≡ true)
      (any (λ (i : Invoice). str_eq i.payment_hash r.payment_hash) z.db.invoices)
      (λ _. ground (arith, upsert-queued r h z.queue)) (λ _. e)

drop-others :
    (g h : String) (qs : List PendingReceipt)
    → str_eq g h ≡ false
    → any (has_hash h) (select (λ r. not (has_hash g r)) qs) ≡ any (has_hash h) qs
drop-others g h [] n = refl
drop-others g h (q ∷ qs) n =
    ground
      (arith, drop-others g h qs n, eq_iff q.payment_hash g, eq_iff q.payment_hash h, eq_iff g h)

-- Dropping one receipt keeps the others.
drop-holds :
    (g h : String) (z : Zaps)
    → holds h z ≡ true
    → (holds h (drop_zap_receipt g z) || str_eq g h) ≡ true
unfolding drop_zap_receipt
drop-holds g h z e = ground (arith, drop-others g h z.queue)

-- What becomes of a receipt of hash h, where the row r of that pass has the excuse b.
abbrev pub Stays : String → PendingReceipt → Bool → Zaps → Type 0
Stays h r b z = (holds h z || has_hash h r && b) ≡ true

Stays-of_holds :
    (h : String) (r : PendingReceipt) (b : Bool) (z : Zaps) → holds h z ≡ true → Stays h r b z
Stays-of_holds h r b z e = rw e refl

or_true : (b : Bool) → (b || true) ≡ true
or_true true = refl
or_true false = refl

module _ (relays : Relays) (now : Time) (h : String) (r : PendingReceipt) (z : Zaps) where
  dropped-Stays :
      (b : Bool) → b ≡ true → holds h z ≡ true → Stays h r b (drop_zap_receipt r.payment_hash z)
  dropped-Stays true e k = ground (arith, drop-holds r.payment_hash h z k)
  dropped-Stays false e k = absurd (cc)

  reschedule-Stays :
      (b : Bool)
      → holds h z ≡ true
      → Stays h r (b || leb (r.give_up_at * second) now) (reschedule now r z)
  unfolding reschedule
  reschedule-Stays b k = elim (Bool-cases (leb (r.give_up_at * second) now)) [
    | inl past ↦ rw past (dropped-Stays (b || true) (or_true b) k)
    | inr ahead ↦ rw ahead (
        Stays-of_holds h r (b || false) (queue_zap_receipt (tried_again now r) z)
          (queue-holds (tried_again now r) h z k))
  ]

  recorded_holds :
      (e : String)
      → any (is_settlement r.payment_hash) z.db.txns ≡ true
      → holds h z ≡ true
      → holds h (drop_zap_receipt r.payment_hash (record_zap_receipt r.payment_hash e z)) ≡ true
  unfolding drop_zap_receipt record_zap_receipt
  recorded_holds e t k = rw t (ground (arith, drop-others r.payment_hash h z.queue))

  published-Stays :
      (b : Bool) (e : String)
      → any (is_settlement r.payment_hash) z.db.txns ≡ true
      → holds h z ≡ true
      → Stays h r (b || leb (r.give_up_at * second) now) (published relays now e r z)
  published-Stays b e t k =
      if-both (Stays h r (b || leb (r.give_up_at * second) now)) (relays.accepted e == 0)
        (λ _. reschedule-Stays b k)
        (λ _.
          Stays-of_holds h r (b || leb (r.give_up_at * second) now)
            (drop_zap_receipt r.payment_hash (record_zap_receipt r.payment_hash e z))
            (recorded_holds e t k))

  signed-Stays :
      (b : Bool) (o : Option String)
      → any (is_settlement r.payment_hash) z.db.txns ≡ true
      → holds h z ≡ true
      → Stays h r (b || leb (r.give_up_at * second) now) (signed relays now o r z)
  signed-Stays b none t k = reschedule-Stays b k
  signed-Stays b (some e) t k = published-Stays b e t k

  pub retry_found-Stays :
      (f : Found)
      → IsOf r.payment_hash z.db f
      → holds h z ≡ true
      → Stays h r (excuses relays now f r) (retry_found relays now f r z)
  retry_found-Stays no_zap o k = dropped-Stays true refl k
  retry_found-Stays unreadable o k = dropped-Stays true refl k
  retry_found-Stays (a_zap zap) o k = elim (Bool-cases (relays.builds zap)) [
    | inl made ↦
        rw (attempt-same relays now zap r z o.0, made) (signed-Stays false (relays.sign zap) o.1 k)
    | inr broken ↦ rw (attempt-same relays now zap r z o.0, broken) (dropped-Stays true refl k)
  ]
