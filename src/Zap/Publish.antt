-- ===== src/Zap/Publish.antt =====
-- zap/publish.go: a receipt is queued when the money lands, tried at once, and tried again until its deadline.
-- What is logged and audited is left out.
use brollyzapper.Base.{
  ℕ, zero, suc, ◌+◌, ◌-◌, ◌*◌, ◌==◌, Bool, true, false, Option, none, some, List, [], ◌∷◌, String,
  if◌then◌else◌, ltb, leb,
}
use brollyzapper.Store.Rows.{Time, second, unix}
use brollyzapper.Zap.Queue.{
  PendingReceipt, Zaps, queue_zap_receipt, due_zap_receipts, drop_zap_receipt, record_zap_receipt,
  SettledZap, Found, a_zap, no_zap, unreadable, settled_zap_for,
}

abbrev pub retry_window : Time
retry_window = 24 * 60 * 60 * second

abbrev pub first_backoff : Time
first_backoff = 30 * second

abbrev pub max_backoff : Time
max_backoff = 30 * 60 * second

abbrev pub batch_size : ℕ
batch_size = 8

-- What the receipt's parts answer: whether it can be built (`Build`), the id that signing gives it, and how
-- many relays accept it.
pub record Relays : Type 0 where
  pub builds : SettledZap → Bool
  pub sign : SettledZap → Option String
  pub accepted : String → ℕ

abbrev pub min : ℕ → ℕ → ℕ
min a b = if leb a b then a else b

-- `for range attempts - 1`.
unfoldable pub doubled : ℕ → Time → Time
doubled zero wait = wait
doubled (suc n) wait = elim (leb max_backoff wait) [ true ↦ wait | false ↦ doubled n (wait * 2) ]

unfoldable pub backoff : ℕ → Time
unfolding doubled
backoff attempts = min (doubled (attempts - 1) first_backoff) max_backoff

abbrev pub clamped : ℕ → Time → ℕ
clamped give_up_at at = if ltb (give_up_at * second) at then give_up_at else unix at

abbrev pub tried_again : Time → PendingReceipt → PendingReceipt
tried_again now r = record r {
  attempts = r.attempts + 1;
  next_attempt_at = clamped r.give_up_at (now + backoff (r.attempts + 1));
}

unfoldable pub reschedule : Time → PendingReceipt → Zaps → Zaps
unfolding backoff drop_zap_receipt queue_zap_receipt
reschedule now r z =
    if leb (r.give_up_at * second) now
    then drop_zap_receipt r.payment_hash z
    else queue_zap_receipt (tried_again now r) z

abbrev pub published : Relays → Time → String → PendingReceipt → Zaps → Zaps
published relays now event_id r z =
    if relays.accepted event_id == 0
    then reschedule now r z
    else drop_zap_receipt r.payment_hash (record_zap_receipt r.payment_hash event_id z)

abbrev pub signed : Relays → Time → Option String → PendingReceipt → Zaps → Zaps
signed relays now none r z = reschedule now r z
signed relays now (some event_id) r z = published relays now event_id r z

abbrev pub built : Relays → Time → SettledZap → PendingReceipt → Zaps → Zaps
built relays now zap r z =
    if relays.builds zap
    then signed relays now (relays.sign zap) r z
    else drop_zap_receipt r.payment_hash z

unfoldable pub attempt : Relays → Time → SettledZap → PendingReceipt → Zaps → Zaps
unfolding reschedule drop_zap_receipt record_zap_receipt
attempt relays now zap r z = built relays now zap (record r { payment_hash = zap.payment_hash }) z

-- `OnSettled`, up to the hand-off.
unfoldable pub on_settled : Time → String → Zaps → Zaps
unfolding queue_zap_receipt
on_settled now h z =
    queue_zap_receipt
      (record {
        payment_hash = h;
        attempts = 0;
        give_up_at = unix (now + retry_window);
        next_attempt_at = unix (now + first_backoff);
      })
      z

abbrev pub publish_found : Relays → Time → String → Found → Zaps → Zaps
publish_found relays now h (a_zap zap) z =
    attempt relays now zap
      (record {
        payment_hash = h;
        attempts = 0;
        give_up_at = unix (now + retry_window);
        next_attempt_at = 0;
      })
      z
publish_found relays now h no_zap z = drop_zap_receipt h z
publish_found relays now h unreadable z = z

unfoldable pub publish_now : Relays → Time → String → Zaps → Zaps
unfolding attempt settled_zap_for
publish_now relays now h z = publish_found relays now h (settled_zap_for h z.db) z

abbrev pub retry_found : Relays → Time → Found → PendingReceipt → Zaps → Zaps
retry_found relays now (a_zap zap) r z = attempt relays now zap r z
retry_found relays now _ r z = drop_zap_receipt r.payment_hash z

unfoldable pub retry_each : Relays → Time → List PendingReceipt → Zaps → Zaps
unfolding attempt settled_zap_for
retry_each relays now [] z = z
retry_each relays now (r ∷ rs) z =
    retry_each relays now rs (retry_found relays now (settled_zap_for r.payment_hash z.db) r z)

unfoldable pub retry_due : Relays → Time → Zaps → Zaps
unfolding retry_each due_zap_receipts
retry_due relays now z = retry_each relays now (due_zap_receipts now batch_size z.queue) z

-- The ticks of `RunRetry`.
unfoldable pub retry_all : List (Relays × Time) → Zaps → Zaps
unfolding retry_due
retry_all [] z = z
retry_all ((relays, now) ∷ ts) z = retry_all ts (retry_due relays now z)
