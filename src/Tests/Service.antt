-- ===== src/Tests/Service.antt =====
-- The results on the deliveries of requests: the rate limit, the replays, and who may ask.
use brollyzapper.Base.{◌+◌, ◌-◌, ◌*◌, ◌≡◌, ◌≤◌, refl, true, false, none, some, List, [], ◌∷◌, arith}
use brollyzapper.Base.Int.{pos}
use brollyzapper.Store.Rows.{second}
use brollyzapper.Nwc.Limit.{sibling, token, full, is_sibling, admit, fresh}
use brollyzapper.Nwc.Rate.{Arrival, admit_all, charges, charges_bounded}
use brollyzapper.Nwc.Copies.{copy_uncharged}
use brollyzapper.Nwc.Service.{
  Event, body, Outside, Paired, Session, handle, Move, delivered, pruned,
}
use brollyzapper.Nwc.Once.{is_dispatched}
use brollyzapper.Nwc.Replays.{dispatches, dispatched_once}
use brollyzapper.Nwc.Authorised.{IsAuthorised, handle-IsAuthorised}
use brollyzapper.Tests.Fixtures.{noon}
use brollyzapper.Tests.Payments.{env}
use brollyzapper.Tests.Nwc.{pairings}
use brollyzapper.Tests.Ladder.{ready, spend, limits, asked, open_wallet}

-- Eleven requests at once, after two earlier ones.
abbrev early : List Arrival
early = ("a", noon) ∷ ("b", noon) ∷ []

abbrev burst : List Arrival
burst = ("c", noon + second) ∷ ("d", noon + second) ∷ ("c", noon + second) ∷ []

charges_bounded_example :
    charges burst (admit_all early fresh) * token ≤ full + ((noon + 2 * second) - noon)
charges_bounded_example =
    charges_bounded early burst noon (noon + 2 * second) (omega arith) (omega arith)

copy_uncharged_example :
    (admit "a" (noon + second) (admit_all burst (admit "a" noon (admit_all [] fresh)).1)).0
    ≡ sibling
unfolding admit_all admit is_sibling
copy_uncharged_example =
    copy_uncharged [] burst "a" noon (noon + second) refl (omega arith) (omega arith)

abbrev outside : Outside
outside = record {
  decrypt = λ scheme author content. some content;
  parse = λ s. some (record { method = s; params = "" });
  byte_length = λ s. 11;
  encode = λ r. some "answer";
  in_progress = λ m. "in progress";
  pay_params = λ s. some asked;
  invoice_params = λ s. some (pos 1000, "");
  add_invoice = λ a d t. none;
  invoice_body = λ i. "";
  read = λ r w. body "";
  env = env;
  node = ready;
  spend = spend;
}

abbrev app : Paired
app = record { client_pubkey = "app"; permissions = "pay" ∷ []; limits = limits }

abbrev ask : Event
ask = record {
  id = "e1";
  pubkey = "app";
  created_at = noon;
  content = "pay_invoice";
  encryption = none;
  id_matches = true;
  is_signed = true;
}

abbrev paired : Session
paired = record {
  limit = fresh;
  connections = 1 ∷ [];
  handled = [];
  world = record { db = open_wallet; budgets = pairings };
}

-- Three relays, and the same event a day later.
abbrev relayed : List Move
relayed =
    delivered ask noon
    ∷ delivered ask (noon + second)
    ∷ pruned (noon + 90000 * second)
    ∷ delivered ask (noon + 90000 * second)
    ∷ []

dispatched_once_example : dispatches ask outside app relayed paired ≤ 1
dispatched_once_example =
    dispatched_once ask outside app relayed paired noon (omega arith)
      ((λ _. refl), ((λ _. refl), ((λ _. refl), tt))) tt

handle-IsAuthorised_example :
    (is_dispatched (handle outside app ask noon paired).0 ≡ true
      → IsAuthorised outside app ask noon)
    × (is_dispatched (handle outside app ask noon paired).0 ≡ false
        → (handle outside app ask noon paired).1.world ≡ paired.world)
handle-IsAuthorised_example = handle-IsAuthorised outside app ask noon paired

-- The first delivery is the one.
relayed_once : dispatches ask outside app relayed paired ≡ 1
unfolding dispatches handle is_sibling
relayed_once = refl
