-- ===== src/Nwc/Once.antt =====
-- A request is carried out once, however often it is delivered, and though the table of handled requests is
-- pruned.
use brollyzapper.Base.{
  ℕ, ◌+◌, ◌*◌, ◌<◌, ◌≡◌, refl, ◌∙◌, Bool, true, false, not, ◌||◌, Option, none, some, List, [], ◌∷◌,
  String, str_eq, eq_iff, if-both, ltb, arith, Option-cases, inl, inr, is_some, All,
}
use brollyzapper.Store.Rows.{Time, second, unix}
use brollyzapper.Payments.Resolve.{World}
use brollyzapper.Nwc.Limit.{RequestLimit, Admitted, sibling, charged, refused, admit}
use brollyzapper.Nwc.Requests.{
  Handled, has_event, find_handled, insert_if, claim_nwc_request, answer_with, found_complete,
  complete_nwc_request,
}
use brollyzapper.Nwc.Service.{
  Event, Request, Reply, in_window, request_window, max_method_length, permits, Outside, Paired,
  Session, Outcome, not_permitted, dispatched, dispatch, keep_answer, respond, forbidden, carry_out,
  replay, after_claim, after_admission, handle_request, parsed, under_scheme, requested_scheme,
  handle,
}

abbrev pub is_dispatched : Outcome → Bool
is_dispatched (dispatched r) = true
is_dispatched _ = false

-- The row of an event is not older than the event may be.
abbrev pub IsRecent : Event → Handled → Type 0
IsRecent ev h = ev.created_at < (h.handled_at + 1) * second + request_window

abbrev pub Rows : Event → List Handled → Type 0
Rows ev hs = All (λ h. has_event ev.id h ≡ true → IsRecent ev h) hs

abbrev pub is_held : Event → List Handled → Bool
is_held ev hs = is_some (find_handled ev.id hs)

-- A delivery with the id of `ev` is `ev`, as far as time goes: the id commits to the body.
abbrev pub IsSame : Event → Event → Type 0
IsSame ev e = str_eq e.id ev.id ≡ true → e.created_at ≡ ev.created_at

-- What a delivery of `e` does to the rows of `ev`.
pub record Keeps (ev e : Event) (s : Session) (r : Outcome × Session) : Type 0 where
  pub rows : Rows ev r.1.handled
  pub holds : is_held ev s.handled ≡ true → is_held ev r.1.handled ≡ true
  pub claims : is_dispatched r.0 ≡ true → str_eq e.id ev.id ≡ true → is_held ev r.1.handled ≡ true

unchanged :
    (ev e : Event) (s : Session) (r : Outcome) (l : RequestLimit)
    → is_dispatched r ≡ false
    → Rows ev s.handled
    → Keeps ev e s (r, record s { limit = l })
unchanged ev e s r l n h = record { rows = h; holds = λ x. x; claims = λ d _. absurd (cc (n, d)) }

fresh_row :
    (ev e : Event) (now : Time) (h : Handled)
    → h.handled_at ≡ unix now
    → in_window now e.created_at ≡ true
    → e.created_at ≡ ev.created_at
    → IsRecent ev h
fresh_row ev e now h a w same = rw a (rw (← same) (recent now e.created_at w))
  where
    recent : (n at : Time) → in_window n at ≡ true → at < (unix n + 1) * second + request_window
    recent n at v = ground arith

own_id : (i j k : String) → str_eq k j ≡ true → str_eq k i ≡ true → str_eq j i ≡ true
own_id i j k a b = rw ((eq_iff k j).0 a) at b

completed-Rows :
    (ev e : Event) (now : Time) (text : String) (hs : List Handled)
    → in_window now e.created_at ≡ true
    → IsSame ev e
    → Rows ev hs
    → Rows ev (complete_nwc_request e.id text now hs)
unfolding complete_nwc_request
completed-Rows ev e now text [] w same r = tt
completed-Rows ev e now text (h ∷ hs) w same r = (
  if-both (λ (x : Handled). has_event ev.id x ≡ true → IsRecent ev x) (has_event e.id h)
      (λ b k.
        fresh_row ev e now (answer_with text now h) refl w
          (same (own_id ev.id e.id h.event_id b k)))
      (λ _. r.0),
  completed-Rows ev e now text hs w same r.1,
)

kept-Rows :
    (ev e : Event) (now : Time) (text : Option String) (hs : List Handled)
    → in_window now e.created_at ≡ true
    → IsSame ev e
    → Rows ev hs
    → Rows ev (keep_answer text e.id now hs)
kept-Rows ev e now none hs w same r = r
kept-Rows ev e now (some text) hs w same r = completed-Rows ev e now text hs w same r

kept-holds :
    (ev e : Event) (now : Time) (text : Option String) (hs : List Handled)
    → is_held ev (keep_answer text e.id now hs) ≡ is_held ev hs
kept-holds ev e now none hs = refl
kept-holds ev e now (some text) hs =
    found_complete ev.id e.id text now hs (find_handled ev.id hs) refl

-- Answering a claimed request, whatever is done for it.
responded :
    (o : Outside) (ev e : Event) (now : Time) (s : Session) (r : Outcome) (reply : Reply)
    (w : World)
    → in_window now e.created_at ≡ true
    → IsSame ev e
    → Rows ev s.handled
    → (str_eq e.id ev.id ≡ true → is_held ev s.handled ≡ true)
    → Keeps ev e s (r, respond o e now reply (record s { world = w }))
responded o ev e now s r reply w win same h c = record {
  rows = kept-Rows ev e now (o.encode reply) s.handled win same h;
  holds = λ x. kept-holds ev e now (o.encode reply) s.handled ∙ x;
  claims = λ _ i. kept-holds ev e now (o.encode reply) s.handled ∙ c i;
}

carry_out-Keeps :
    (o : Outside) (c : Paired) (ev e : Event) (now : Time) (req : Request) (s : Session)
    → in_window now e.created_at ≡ true
    → IsSame ev e
    → Rows ev s.handled
    → (str_eq e.id ev.id ≡ true → is_held ev s.handled ≡ true)
    → Keeps ev e s (carry_out o c e now req s)
unfolding carry_out
carry_out-Keeps o c ev e now req s win same h k =
    if-both (Keeps ev e s) (permits c.permissions req.method)
      (λ _.
        responded o ev e now s (dispatched (dispatch o c now req s.world).0)
          (dispatch o c now req s.world).0 (dispatch o c now req s.world).1 win same h k)
      (λ _.
        responded o ev e now s (not_permitted (forbidden req)) (forbidden req) s.world win same h k)

weaken :
    (ev e : Event) (s s' : Session) (r : Outcome × Session)
    → (is_held ev s.handled ≡ true → is_held ev s'.handled ≡ true)
    → Keeps ev e s' r
    → Keeps ev e s r
weaken ev e s s' r f k = record { rows = k.rows; holds = λ h. k.holds (f h); claims = k.claims }

pub replay-silent :
    (o : Outside) (req : Request) (now : Time) (cached : String) (at : ℕ)
    → is_dispatched (replay o req now cached at) ≡ false
replay-silent o req now cached at = ground arith

abbrev claim_row : Outside → Paired → Event → Time → Request → Handled
claim_row o c e now req = record {
  event_id = e.id;
  connection_id = c.limits.id;
  method = req.method;
  response_json = o.in_progress req.method;
  handled_at = unix now;
}

inserted-Keeps :
    (o : Outside) (c : Paired) (ev e : Event) (now : Time) (req : Request) (s : Session)
    (connected : Bool)
    → in_window now e.created_at ≡ true
    → IsSame ev e
    → Rows ev s.handled
    → Keeps ev e s
        (after_claim o c e now req (insert_if connected (claim_row o c e now req) s.handled) s)
inserted-Keeps o c ev e now req s false w same h = unchanged ev e s _ s.limit refl h
inserted-Keeps o c ev e now req s true w same h =
    weaken ev e s (record s { handled = claim_row o c e now req ∷ s.handled }) _
      (λ held. ground arith)
      (carry_out-Keeps o c ev e now req (record s { handled = claim_row o c e now req ∷ s.handled })
        w same (λ i. fresh_row ev e now (claim_row o c e now req) refl w (same i), h)
        (λ i. rw i refl))

after_claim-Keeps :
    (o : Outside) (c : Paired) (ev e : Event) (now : Time) (req : Request) (s : Session)
    → in_window now e.created_at ≡ true
    → IsSame ev e
    → Rows ev s.handled
    → Keeps ev e s (
        after_claim o c e now req
          (claim_nwc_request s.connections e.id c.limits.id req.method
            (o.in_progress req.method)
            now
            s.handled)
          s)
unfolding claim_nwc_request
after_claim-Keeps o c ev e now req s w same h = elim (Option-cases (find_handled e.id s.handled)) [
  | inl new ↦ rw new (inserted-Keeps o c ev e now req s _ w same h)
  | inr (old, known) ↦
      rw known
        (unchanged ev e s _ s.limit (replay-silent o req now old.response_json old.handled_at) h)
]

after_admission-Keeps :
    (o : Outside) (c : Paired) (ev e : Event) (now : Time) (req : Request)
    (a : Admitted × RequestLimit) (s : Session)
    → in_window now e.created_at ≡ true
    → IsSame ev e
    → Rows ev s.handled
    → Keeps ev e s (after_admission o c e now req a s)
after_admission-Keeps o c ev e now req (refused b, l) s w same h = unchanged ev e s _ l refl h
after_admission-Keeps o c ev e now req (sibling, l) s w same h =
    weaken ev e s (record s { limit = l }) _ (λ x. x)
      (after_claim-Keeps o c ev e now req (record s { limit = l }) w same h)
after_admission-Keeps o c ev e now req (charged, l) s w same h =
    weaken ev e s (record s { limit = l }) _ (λ x. x)
      (after_claim-Keeps o c ev e now req (record s { limit = l }) w same h)

handle_request-Keeps :
    (o : Outside) (c : Paired) (ev e : Event) (now : Time) (req : Option Request) (s : Session)
    → IsSame ev e
    → Rows ev s.handled
    → Keeps ev e s (handle_request o c e now req s)
unfolding handle_request
handle_request-Keeps o c ev e now none s same h = unchanged ev e s _ s.limit refl h
handle_request-Keeps o c ev e now (some req) s same h =
    if-both (Keeps ev e s) (ltb max_method_length (o.byte_length req.method))
      (λ _. unchanged ev e s _ s.limit refl h)
      (λ _.
        if-both (Keeps ev e s) (not (in_window now e.created_at))
          (λ _. unchanged ev e s _ s.limit refl h)
          (λ w.
            after_admission-Keeps o c ev e now req (admit e.id now s.limit) s (within w) same h))
  where
    within : {b : Bool} → not b ≡ false → b ≡ true
    within v = ground arith

under_scheme-Keeps :
    (o : Outside) (c : Paired) (ev e : Event) (now : Time) (scheme : Option String) (s : Session)
    → IsSame ev e
    → Rows ev s.handled
    → Keeps ev e s (under_scheme o c e now scheme s)
under_scheme-Keeps o c ev e now none s same h = unchanged ev e s _ s.limit refl h
under_scheme-Keeps o c ev e now (some scheme) s same h =
    handle_request-Keeps o c ev e now (parsed o (o.decrypt scheme e.pubkey e.content)) s same h

pub handle-Keeps :
    (o : Outside) (c : Paired) (ev e : Event) (now : Time) (s : Session)
    → IsSame ev e
    → Rows ev s.handled
    → Keeps ev e s (handle o c e now s)
unfolding handle
handle-Keeps o c ev e now s same h =
    if-both (Keeps ev e s)
      (not (str_eq e.pubkey c.client_pubkey) || not e.id_matches || not e.is_signed)
      (λ _. unchanged ev e s _ s.limit refl h)
      (λ _. under_scheme-Keeps o c ev e now (requested_scheme e.encryption) s same h)
