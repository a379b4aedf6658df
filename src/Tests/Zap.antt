-- ===== src/Tests/Zap.antt =====
-- The results on the queue of zap receipts, with one zap that is settled and no relay within reach.
use brollyzapper.Base.{◌-◌, ◌*◌, ◌^◌, ◌||◌, ◌≡◌, refl, true, some, [], ◌∷◌, arith}
use brollyzapper.Base.Int.{pos}
use brollyzapper.Store.Rows.{Time, second, invoice_in, settled, settled_invoice, Txn, Invoice}
use brollyzapper.Zap.Queue.{PendingReceipt, Zaps}
use brollyzapper.Zap.Publish.{
  first_backoff, max_backoff, min, Relays, backoff, on_settled, publish_now, retry_due, retry_all,
}
use brollyzapper.Zap.Drains.{retry_all_ends}
use brollyzapper.Zap.Backoff.{backoff_closed}
use brollyzapper.Zap.Stays.{is_queued, is_receipted}
use brollyzapper.Zap.Kept.{is_excused, kept_until}
use brollyzapper.Tests.Fixtures.{noon, invoice, funded, paying}

abbrev unreachable : Relays
unreachable = record { builds = λ zap. true; sign = λ zap. some "e1"; accepted = λ e. 0 }

abbrev reachable : Relays
reachable = record { builds = λ zap. true; sign = λ zap. some "e1"; accepted = λ e. 2 }

abbrev zap_invoice : Invoice
zap_invoice = record invoice { zap_request = some "{}"; state = settled_invoice }

abbrev settlement : Txn
settlement = record paying {
  id = 3;
  kind = invoice_in;
  state = settled;
  amount_msat = pos 2000;
  payment_hash = some "h1";
  settled_at = some 1000;
}

abbrev landed : Zaps
landed = record {
  db = record funded { txns = settlement ∷ funded.txns; invoices = zap_invoice ∷ [] };
  queue = [];
  receipts = [];
}

abbrev owed : PendingReceipt
owed = record { payment_hash = "h1"; attempts = 0; give_up_at = 1086400; next_attempt_at = 1000030 }

abbrev queued : Zaps
queued = record landed { queue = owed ∷ [] }

settle_queues : on_settled noon "h1" landed ≡ queued
unfolding on_settled
settle_queues = refl

abbrev again : PendingReceipt
again = record {
  payment_hash = "h1";
  attempts = 1;
  give_up_at = 1086400;
  next_attempt_at = 1000030;
}

-- A first attempt that no relay takes leaves the deadline as it is.
attempt_reschedules :
    publish_now unreachable noon "h1" queued ≡ record landed { queue = again ∷ [] }
unfolding publish_now
attempt_reschedules = refl

publish_records :
    publish_now reachable noon "h1" queued ≡ record landed { receipts = ("h1", "e1") ∷ [] }
unfolding publish_now
publish_records = refl

abbrev past : Time
past = 1086400 * second

retry_all_ends_example : (retry_all ((unreachable, past) ∷ []) queued).queue ≡ []
retry_all_ends_example =
    retry_all_ends past ((unreachable, past) ∷ []) queued ((omega arith, omega arith), tt)
      (omega arith, tt) (omega arith)

backoff_closed_example : backoff 4 ≡ min (first_backoff * 2 ^ (4 - 1)) max_backoff
backoff_closed_example = backoff_closed 4

abbrev due : Time
due = 1000030 * second

kept_until_example :
    (is_queued "h1" (retry_due unreachable due queued)
      || is_receipted "h1" (retry_due unreachable due queued)
      || is_excused unreachable due queued.db "h1" queued.queue)
    ≡ true
kept_until_example = kept_until unreachable due "h1" queued refl
