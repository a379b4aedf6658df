-- ===== src/Tests/Ladder.antt =====
-- The results on a paired app's requests, on reconciliation and on the life of a pairing.
use brollyzapper.Base.{
  ◌≡◌, ◌+◌, ◌*◌, refl, true, false, none, some, List, [], ◌∷◌, str_eq, arith, if◌then◌else◌,
  find_first,
}
use brollyzapper.Base.Int.{pos, ◌+ℤ◌, ◌-ℤ◌}
use brollyzapper.Store.Rows.{Db}
use brollyzapper.Store.Ledger.Invariant.{Inv}
use brollyzapper.Wallet.Codec.{Codec, err, spending_frozen}
use brollyzapper.Wallet.Freeze.{shortfall}
use brollyzapper.Wallet.Spender.{reserve}
use brollyzapper.Lnd.Payments.{PaymentResult, succeeded, opened, Router, send_payment}
use brollyzapper.Payments.Resolve.{World}
use brollyzapper.Nwc.Budget.{rolled}
use brollyzapper.Nwc.Ladder.{
  Bolt11, Params, Limits, daily as each_day, Spend, Cleared, preimage_response, pay_cleared,
  nwc_pay_invoice,
}
use brollyzapper.Nwc.Charged.{IsCharge, balance_cost, payment_end, pay_cleared_charges}
use brollyzapper.Nwc.Gates.{HasPassed}
use brollyzapper.Nwc.Settled.{IsSent, nwc_pay_invoice_settled}
use brollyzapper.Nwc.Books.{nwc_pay_invoice-Inv}
use brollyzapper.Nwc.Requests.{
  Handled, Step, deliver, answer, lost, claim_nwc_request, complete_nwc_request, claim_complete,
}
use brollyzapper.Nwc.Connections.{
  Pairing, Calendar, has_pairing, is_active, Change, limit, panic, pause, resume, revoke,
  default_limits, changes,
}
use brollyzapper.Nwc.Lifecycle.{changes_revoked, StaysPaused, changes_paused}
use brollyzapper.Recon.Check.{Options, Reconciler, check}
use brollyzapper.Recon.Holds.{check_freezes}
use brollyzapper.Store.Settings.{setting}
use brollyzapper.Store.Ledger.Marks.{
  count_unresolved_payments_before, has_unresolved_payments_before, mark_spend_dispatched,
}
use brollyzapper.Nwc.Amount.{payable_amount}
use brollyzapper.Wallet.Fee.{max_fee}
use brollyzapper.Nwc.Budget.{reserve_nwc_budget, adjust_nwc_budget, budget_correction}
use brollyzapper.Base.Int64.{add64, wrap64, mul64, neg64, sub64}
use brollyzapper.Base.Int.{max_ℤ, ◌/ℤ◌, ◌*ℤ◌, neg_ℤ}
use brollyzapper.Store.Ledger.Append.{balance_msat}
use brollyzapper.Payments.Pay.{pay_invoice}
use brollyzapper.Store.Ledger.Close.{settle_spend}
use brollyzapper.Store.Ledger.Reserve.{reserve_spend}
use brollyzapper.Wallet.Spender.{settle}
use brollyzapper.Wallet.Codec.{Deficit}
use brollyzapper.Recon.Check.{deficit_at}
use brollyzapper.Store.Ledger.Sums.{total}
use brollyzapper.Nwc.Budget.{fits}
use brollyzapper.Tests.Fixtures.{noon, codec, funded, funded-Inv, request}
use brollyzapper.Tests.Payments.{env, away}
use brollyzapper.Tests.Nwc.{daily, pairings, daily-Row}

-- A node that pays at a fee of 3 sat.
abbrev settled : PaymentResult
settled = record { status = succeeded; fee_msat = pos 3000; preimage = "pre" }

abbrev pub ready : Router
ready = record away {
  connection = none;
  send_stream = λ b f. opened (record { updates = settled ∷ []; ends = none });
}

abbrev bill : Bolt11
bill = record {
  payment_hash = "p9";
  amount_msat = pos 200000;
  description = "";
  description_hash = "";
  expires_at = none;
  destination = "them";
}

abbrev pub spend : Spend
spend = record {
  credential_ready = true;
  sending_blocked = false;
  decode = λ s. if str_eq s "lnbc9" then some bill else none;
  node_identity = "us";
  add_date = λ months days t. t + days * 86400000000000;
  payment_ref = λ b. "app";
  bounded_description = λ b. b.description;
  outgoing_metadata = λ b a. "";
}

abbrev pub limits : Limits
limits = record { id = 1; max_payment_msat = some (pos 500000); budget_period = each_day }

abbrev pub asked : Params
asked = record { invoice = "lnbc9"; amount = pos 0 }

abbrev pub open_wallet : Db
open_wallet = record funded { connections = 1 ∷ []; settings = ("send_enabled", "true") ∷ [] }

open_wallet-Inv : Inv open_wallet
open_wallet-Inv = record {
  bounded = funded-Inv.bounded;
  ordered = funded-Inv.ordered;
  refs = funded-Inv.refs;
  books = funded-Inv.books;
}

abbrev world : World
world = record { db = open_wallet; budgets = pairings }

paid_for :
    (nwc_pay_invoice env noon ready spend limits asked world).0 ≡ preimage_response "pre" (pos 3000)
unfolding nwc_pay_invoice setting shortfall count_unresolved_payments_before payable_amount max_fee
    reserve_nwc_budget ◌+ℤ◌ add64 wrap64 max_ℤ ◌/ℤ◌ mul64 ◌*ℤ◌ balance_msat pay_invoice reserve
    has_unresolved_payments_before neg_ℤ ◌-ℤ◌ neg64 sub64 send_payment adjust_nwc_budget
    budget_correction settle_spend mark_spend_dispatched reserve_spend settle
paid_for = refl

nwc_pay_invoice_settled_example :
    (c : Cleared) × HasPassed env spend limits asked noon open_wallet c
    × IsSent ready "lnbc9" c.max_fee_msat "pre" (pos 3000)
nwc_pay_invoice_settled_example =
    nwc_pay_invoice_settled env noon ready spend limits asked world "pre" (pos 3000) paid_for

abbrev cleared : Cleared
cleared = record { invoice = bill; amount = pos 200000; max_fee_msat = pos 10000 }

pay_cleared_charges_example :
    IsCharge 1
      (pos 400000)
      cleared
      (balance_cost cleared
        (balance_msat world.db)
        (payment_end env noon ready spend limits asked cleared world.db))
      (pay_cleared env noon ready spend limits asked cleared world)
unfolding rolled send_payment ◌+ℤ◌ fits add64 wrap64
pay_cleared_charges_example =
    pay_cleared_charges env noon ready spend limits asked cleared world daily daily-Row
      (record { amount_nonneg = omega arith; fee_nonneg = omega arith; sum_fits = omega arith })
      (omega arith) refl (omega arith, omega arith)

nwc_pay_invoice-Inv_example : Inv (nwc_pay_invoice env noon ready spend limits asked world).1.db
unfolding send_payment
nwc_pay_invoice-Inv_example =
    nwc_pay_invoice-Inv env noon ready spend limits asked world (λ b f. (omega arith, omega arith))
      open_wallet-Inv

-- The node can send 1 sat, or everything; the codec keeps the one deficit that is found.
abbrev options : Options
options = record { tolerance_msat = pos 5000; print_cause = λ c. "" }

abbrev reconciler : Reconciler
reconciler = record { db = open_wallet; previous = none }

abbrev found : Deficit
found = deficit_at options noon none (total open_wallet.entries) (pos 1000)

abbrev keeping : Codec
keeping = record codec { decode_deficit = λ s. if str_eq s "{}" then some found else none }

check_freezes_example :
    reserve keeping noon request noon (check keeping options noon (some (pos 1000)) reconciler).1.db
    ≡ (err spending_frozen, (check keeping options noon (some (pos 1000)) reconciler).1.db)
unfolding shortfall setting ◌+ℤ◌ ◌-ℤ◌
check_freezes_example =
    check_freezes keeping options noon (pos 1000) reconciler none noon request noon
      (record { decodes = refl; has_text = refl }) open_wallet-Inv refl (omega arith) (omega arith)
      (omega arith) (record { positive = omega arith; fee_nonneg = omega arith; named = refl })

-- A request is delivered over two relays, answered, and delivered again.
abbrev deliveries : List Step
deliveries =
    deliver (1 ∷ []) "e" 1 "pay_invoice" "{}" noon
    ∷ deliver (1 ∷ []) "e" 1 "pay_invoice" "{}" noon
    ∷ answer "e" "paid" noon
    ∷ deliver (1 ∷ []) "e" 1 "pay_invoice" "{}" noon
    ∷ []

abbrev claimed : Handled
claimed = record {
  event_id = "e";
  connection_id = 1;
  method = "pay_invoice";
  response_json = "{}";
  handled_at = 1000000;
}

claim_complete_example :
    claim_nwc_request
      (1 ∷ [])
      "e"
      1
      "pay_invoice"
      "{}"
      noon
      (complete_nwc_request "e" "paid" noon (claimed ∷ []))
    ≡ (lost "paid" 1000000, complete_nwc_request "e" "paid" noon (claimed ∷ []))
claim_complete_example =
    claim_complete (1 ∷ []) "e" "paid" "pay_invoice" "{}" 1 noon noon (claimed ∷ []) claimed refl

abbrev calendar : Calendar
calendar = record { add_date = λ months days t. t + days * 86400; trim_space = λ s. s }

abbrev pairing : Pairing
pairing = record {
  id = 1;
  permissions = "pay" ∷ [];
  budget_msat = none;
  budget_period = none;
  budget_renews_at = none;
  max_payment_msat = none;
  created_at = 1000;
  revoked = true;
  panic_count = 0;
  paused_reason = "";
  paused_at = none;
}

abbrev all_changes : List Change
all_changes =
    limit 1 ("pay" ∷ []) none none default_limits noon
    ∷ panic 1
    ∷ pause 1 "again" noon
    ∷ resume 2
    ∷ revoke 1
    ∷ []

changes_revoked_example :
    (find_first (has_pairing 1) (changes calendar all_changes (pairing ∷ [])) ≡ some pairing)
    × (is_active pairing ≡ false)
changes_revoked_example = changes_revoked calendar all_changes 1 (pairing ∷ []) pairing refl refl

abbrev halted : Pairing
halted = record pairing { revoked = false; paused_reason = "three panics"; paused_at = some 1000 }

changes_paused_example : StaysPaused 1 "three panics" (changes calendar all_changes (halted ∷ []))
changes_paused_example =
    changes_paused calendar all_changes 1 "three panics" (halted ∷ []) (refl, tt)
      (halted, refl, refl, refl)
