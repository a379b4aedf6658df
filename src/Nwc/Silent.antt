-- ===== src/Nwc/Silent.antt =====
-- A request that was handled, or is past its window, is not carried out again.
use brollyzapper.Base.{
  ℕ, ◌+◌, ◌≡◌, refl, Bool, true, false, not, ◌||◌, Option, none, some, List, String, str_eq,
  if-both, ltb, arith, Option-cases, inl, inr,
}
use brollyzapper.Store.Rows.{Time}
use brollyzapper.Nwc.Limit.{RequestLimit, Admitted, sibling, charged, refused, admit}
use brollyzapper.Nwc.Requests.{find_handled, claim_nwc_request}
use brollyzapper.Nwc.Service.{
  Event, Request, in_window, request_window, max_method_length, Outside, Paired, Session, Outcome,
  after_claim, after_admission, handle_request, parsed, under_scheme, requested_scheme, handle,
}
use brollyzapper.Nwc.Once.{is_dispatched, is_held, replay-silent}

-- Handled already, or past its window.
abbrev pub is_spent : Event → Time → Session → Bool
is_spent e now s = is_held e s.handled || ltb (e.created_at + request_window) now

after_claim-silent :
    (o : Outside) (c : Paired) (e : Event) (now : Time) (req : Request) (s : Session)
    (connections : List ℕ)
    → is_held e s.handled ≡ true
    → (is_dispatched
          (after_claim o c e now req
            (claim_nwc_request connections e.id c.limits.id req.method
              (o.in_progress req.method)
              now
              s.handled)
            s).0
        ≡ false)
unfolding claim_nwc_request
after_claim-silent o c e now req s connections h =
    elim (Option-cases (find_handled e.id s.handled)) [
      | inl none_held ↦ absurd (cc (rw none_held at h))
      | inr (old, known) ↦ rw known (replay-silent o req now old.response_json old.handled_at)
    ]

after_admission-silent :
    (o : Outside) (c : Paired) (e : Event) (now : Time) (req : Request)
    (a : Admitted × RequestLimit) (s : Session)
    → is_held e s.handled ≡ true
    → is_dispatched (after_admission o c e now req a s).0 ≡ false
after_admission-silent o c e now req (refused b, l) s h = refl
after_admission-silent o c e now req (sibling, l) s h =
    after_claim-silent o c e now req (record s { limit = l }) s.connections h
after_admission-silent o c e now req (charged, l) s h =
    after_claim-silent o c e now req (record s { limit = l }) s.connections h

handle_request-silent :
    (o : Outside) (c : Paired) (e : Event) (now : Time) (req : Option Request) (s : Session)
    → is_spent e now s ≡ true
    → is_dispatched (handle_request o c e now req s).0 ≡ false
unfolding handle_request
handle_request-silent o c e now none s h = refl
handle_request-silent o c e now (some req) s h =
    if-both (λ (r : Outcome × Session). is_dispatched r.0 ≡ false)
      (ltb max_method_length (o.byte_length req.method)) (λ _. refl)
      (λ _.
        if-both (λ (r : Outcome × Session). is_dispatched r.0 ≡ false)
          (not (in_window now e.created_at)) (λ _. refl)
          (λ w.
            after_admission-silent o c e now req (admit e.id now s.limit) s
              (timely now e.created_at (is_held e s.handled) h w)))
  where
    timely :
        (n at : Time) (b : Bool)
        → (b || ltb (at + request_window) n) ≡ true
        → not (in_window n at) ≡ false
        → b ≡ true
    timely n at b p v = ground arith

pub handle-silent :
    (o : Outside) (c : Paired) (e : Event) (now : Time) (s : Session)
    → is_spent e now s ≡ true
    → is_dispatched (handle o c e now s).0 ≡ false
unfolding handle
handle-silent o c e now s h =
    if-both (λ (r : Outcome × Session). is_dispatched r.0 ≡ false)
      (not (str_eq e.pubkey c.client_pubkey) || not e.id_matches || not e.is_signed) (λ _. refl)
      (λ _. under (requested_scheme e.encryption))
  where
    under : (scheme : Option String) → is_dispatched (under_scheme o c e now scheme s).0 ≡ false
    under none = refl
    under (some scheme) =
        handle_request-silent o c e now (parsed o (o.decrypt scheme e.pubkey e.content)) s h
