-- ===== src/Nwc/Service.antt =====
-- nwc/service.go, `handle` and `dispatch`: one delivery of a request, from the checks to the answer; with
-- `Mint` of cmd/brollyzapper/nwc.go and the pruning of nwc/run.go. What is logged, audited and sent to a relay
-- is left out: the outcome says what is answered, and by which step.
use brollyzapper.Base.{
  ℕ, ◌+◌, ◌-◌, ◌*◌, Bool, false, not, ◌&&◌, ◌||◌, Option, none, some, List, String, str_eq,
  if◌then◌else◌, ltb, leb, any, is_some,
}
use brollyzapper.Base.Int.{ℤ, pos, ltb_ℤ}
use brollyzapper.Store.Rows.{Time, Db, second}
use brollyzapper.Store.Tx as Tx
use brollyzapper.Store.Invoices.{NewInvoice, create_invoice}
use brollyzapper.Lnd.Payments.{Router}
use brollyzapper.Payments.Closing.{Env}
use brollyzapper.Payments.Resolve.{World}
use brollyzapper.Nwc.Ladder.{Limits, Params, Response, Spend, nwc_pay_invoice}
use brollyzapper.Nwc.Limit.{RequestLimit, Admitted, refused, sibling_delivery_window, admit}
use brollyzapper.Nwc.Requests.{
  Handled, Claim, won, lost, no_connection, claim_nwc_request, complete_nwc_request,
  prune_nwc_handled,
}

abbrev pub request_window : Time
request_window = 60 * second

abbrev pub handled_retention : Time
handled_retention = 24 * 60 * 60 * second

abbrev pub max_method_length : ℕ
max_method_length = 64

-- 1 BTC.
abbrev pub max_sendable_msat : ℤ
max_sendable_msat = pos 100000000000

-- An event, as the relay delivered it: whether its id is the one of its body and whether it is signed, and the
-- value of its encryption tag.
pub record Event : Type 0 where
  pub id : String
  pub pubkey : String
  pub created_at : Time
  pub content : String
  pub encryption : Option String
  pub id_matches : Bool
  pub is_signed : Bool

pub record Request : Type 0 where
  pub method : String
  pub params : String

-- The answers that the service itself makes, by their code, and those of the methods.
pub data Fault : Type 0 where
  unsupported_encryption not_implemented rate_limited internal_error restricted_method other_fault :
      Fault

pub data Reply : Type 0 where
  fault : String → Fault → Reply
  paid_reply : Response → Reply
  body : String → Reply

-- The scheme of the answer, `none` where the tag names one that is not known.
abbrev pub requested_scheme : Option String → Option String
requested_scheme none = some "nip04"
requested_scheme (some tag) =
    if str_eq tag "" || str_eq tag "nip04"
    then some "nip04"
    else if str_eq tag "nip44_v2"
    then some "nip44_v2"
    else none

abbrev pub in_window : Time → Time → Bool
in_window now created_at =
    leb now (created_at + request_window) && leb created_at (now + request_window)

abbrev pub method_group : String → Option String
method_group m =
    if str_eq m "get_info"
    then some "info"
    else if str_eq m "get_balance"
    then some "balance"
    else if str_eq m "make_invoice"
    then some "invoice"
    else if str_eq m "lookup_invoice"
    then some "lookup"
    else if str_eq m "list_transactions"
    then some "history"
    else if str_eq m "pay_invoice"
    then some "pay"
    else none

unfoldable pub permits : List String → String → Bool
permits groups m = elim (method_group m) [ none ↦ false | some g ↦ any (λ x. str_eq x g) groups ]

-- What the service stands on: the ciphers, JSON and the node (`decrypt` is by scheme, author and content,
-- `add_invoice` what the node and the clock make of an amount and a memo), and the payments' own parameters.
-- `read` answers the methods that change nothing.
pub record Outside : Type 0 where
  pub decrypt : String → String → String → Option String
  pub parse : String → Option Request
  pub byte_length : String → ℕ
  pub encode : Reply → Option String
  pub in_progress : String → String
  pub pay_params : String → Option Params
  pub invoice_params : String → Option (ℤ × String)
  pub add_invoice : ℤ → String → Time → Option NewInvoice
  pub invoice_body : NewInvoice → String
  pub read : Request → World → Reply
  pub env : Env
  pub node : Router
  pub spend : Spend

pub record Paired : Type 0 where
  pub client_pubkey : String
  pub permissions : List String
  pub limits : Limits

-- What a delivery may change: the pairing's bucket, the table of handled requests, and the money's tables.
pub record Session : Type 0 where
  pub limit : RequestLimit
  pub connections : List ℕ
  pub handled : List Handled
  pub world : World

-- `ignored` and `in_flight` are not answered at all.
pub data Outcome : Type 0 where
  ignored in_flight : Outcome
  turned_away : Reply → Outcome
  replayed : String → Outcome
  not_permitted : Reply → Outcome
  dispatched : Reply → Outcome

abbrev pub minted : Outside → NewInvoice → Tx.Result (Unit {0}) × Db → World → Reply × World
minted o new (Tx.ok _, db) w = (body (o.invoice_body new), record w { db = db })
minted o new (Tx.err e, db) w = (fault "make_invoice" internal_error, record w { db = db })

abbrev pub mint : Outside → Option NewInvoice → World → Reply × World
mint o none w = (fault "make_invoice" internal_error, w)
mint o (some new) w = minted o new (create_invoice new w.db) w

unfoldable pub make_invoice : Outside → Time → Option (ℤ × String) → World → Reply × World
unfolding create_invoice
make_invoice o now none w = (fault "make_invoice" other_fault, w)
make_invoice o now (some (amount, description)) w =
    if not (ltb_ℤ (pos 0) amount) || ltb_ℤ max_sendable_msat amount
    then (fault "make_invoice" other_fault, w)
    else mint o (o.add_invoice amount description now) w

abbrev pub paid_by : Response × World → Reply × World
paid_by (r, w) = (paid_reply r, w)

abbrev pub pay : Outside → Paired → Time → Option Params → World → Reply × World
pay o c now none w = (fault "pay_invoice" other_fault, w)
pay o c now (some params) w = paid_by (nwc_pay_invoice o.env now o.node o.spend c.limits params w)

unfoldable pub dispatch : Outside → Paired → Time → Request → World → Reply × World
unfolding make_invoice nwc_pay_invoice
dispatch o c now req w =
    if str_eq req.method "pay_invoice"
    then pay o c now (o.pay_params req.params) w
    else if str_eq req.method "make_invoice"
    then make_invoice o now (o.invoice_params req.params) w
    else if is_some (method_group req.method)
    then (o.read req w, w)
    else (fault req.method not_implemented, w)

-- `respond`, for a request that was claimed: an answer that can be encoded is kept for replay.
abbrev pub keep_answer : Option String → String → Time → List Handled → List Handled
keep_answer none e now hs = hs
keep_answer (some text) e now hs = complete_nwc_request e text now hs

abbrev pub respond : Outside → Event → Time → Reply → Session → Session
respond o ev now reply s = record s { handled = keep_answer (o.encode reply) ev.id now s.handled }

abbrev pub forbidden : Request → Reply
forbidden req =
    if is_some (method_group req.method)
    then fault req.method restricted_method
    else fault req.method not_implemented

abbrev pub dispatch_claimed : Outside → Event → Time → Reply × World → Session → Outcome × Session
dispatch_claimed o ev now (reply, w) s =
    (dispatched reply, respond o ev now reply (record s { world = w }))

unfoldable pub carry_out : Outside → Paired → Event → Time → Request → Session → Outcome × Session
unfolding permits dispatch
carry_out o c ev now req s =
    if permits c.permissions req.method
    then dispatch_claimed o ev now (dispatch o c now req s.world) s
    else (not_permitted (forbidden req), respond o ev now (forbidden req) s)

-- A stored time is in whole seconds.
abbrev pub replay : Outside → Request → Time → String → ℕ → Outcome
replay o req now cached claimed_at =
    if str_eq cached (o.in_progress req.method)
      && ltb now (claimed_at * second + sibling_delivery_window)
    then in_flight
    else replayed cached

abbrev pub after_claim :
    Outside → Paired → Event → Time → Request → Claim × List Handled → Session → Outcome × Session
after_claim o c ev now req (won, hs) s = carry_out o c ev now req (record s { handled = hs })
after_claim o c ev now req (lost cached at, hs) s =
    (replay o req now cached at, record s { handled = hs })
after_claim o c ev now req (no_connection, hs) s =
    (turned_away (fault req.method internal_error), record s { handled = hs })

abbrev pub after_admission :
    Outside
    → Paired
    → Event
    → Time
    → Request
    → Admitted × RequestLimit
    → Session
    → Outcome × Session
after_admission o c ev now req (refused starts, l) s =
    (turned_away (fault req.method rate_limited), record s { limit = l })
after_admission o c ev now req (_, l) s =
    after_claim o c ev now req
      (claim_nwc_request s.connections ev.id c.limits.id req.method (o.in_progress req.method) now
        s.handled)
      (record s { limit = l })

unfoldable pub handle_request :
    Outside → Paired → Event → Time → Option Request → Session → Outcome × Session
unfolding carry_out claim_nwc_request complete_nwc_request admit
handle_request o c ev now none s = (turned_away (fault "" other_fault), s)
handle_request o c ev now (some req) s =
    if ltb max_method_length (o.byte_length req.method)
    then (turned_away (fault "" not_implemented), s)
    else if not (in_window now ev.created_at)
    then (turned_away (fault req.method other_fault), s)
    else after_admission o c ev now req (admit ev.id now s.limit) s

abbrev pub parsed : Outside → Option String → Option Request
parsed o none = none
parsed o (some text) = o.parse text

-- Neither the text that cannot be decrypted nor the one that is not JSON is a request.
abbrev pub under_scheme :
    Outside → Paired → Event → Time → Option String → Session → Outcome × Session
under_scheme o c ev now none s = (turned_away (fault "" unsupported_encryption), s)
under_scheme o c ev now (some scheme) s =
    handle_request o c ev now (parsed o (o.decrypt scheme ev.pubkey ev.content)) s

unfoldable pub handle : Outside → Paired → Event → Time → Session → Outcome × Session
unfolding handle_request
handle o c ev now s =
    if not (str_eq ev.pubkey c.client_pubkey) || not ev.id_matches || not ev.is_signed
    then (ignored, s)
    else under_scheme o c ev now (requested_scheme ev.encryption) s

-- What happens to a session: a delivery, on any of the relays, and the hourly pruning.
pub data Move : Type 0 where
  delivered : Event → Time → Move
  pruned : Time → Move

abbrev pub time_of : Move → Time
time_of (delivered ev now) = now
time_of (pruned now) = now

abbrev pub prune : Time → Session → Session
prune now s = record s { handled = prune_nwc_handled (now - handled_retention) s.handled }
