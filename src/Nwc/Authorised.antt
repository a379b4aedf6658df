-- ===== src/Nwc/Authorised.antt =====
-- Which requests are carried out, and what the others leave alone.
use brollyzapper.Base.{
  ◌≡◌, refl, Bool, true, false, not, ◌||◌, Option, none, some, List, String, str_eq, if-both, ltb,
  arith,
}
use brollyzapper.Store.Rows.{Time}
use brollyzapper.Nwc.Limit.{RequestLimit, Admitted, sibling, charged, refused, admit}
use brollyzapper.Nwc.Requests.{Handled, Claim, won, lost, no_connection, claim_nwc_request}
use brollyzapper.Nwc.Service.{
  Event, Request, in_window, max_method_length, permits, Outside, Paired, Session, Outcome,
  carry_out, after_claim, after_admission, handle_request, parsed, under_scheme, requested_scheme,
  handle,
}
use brollyzapper.Nwc.Once.{is_dispatched, replay-silent}

-- Carried out, and so what is asked holds; or not, and so the money's tables are as they were.
record Guards (P : Type 0) (s : Session) (r : Outcome × Session) : Type 0 where
  because : is_dispatched r.0 ≡ true → P
  otherwise : is_dispatched r.0 ≡ false → r.1.world ≡ s.world

stopped :
    (P : Type 0) (s : Session) (r : Outcome × Session)
    → is_dispatched r.0 ≡ false
    → r.1.world ≡ s.world
    → Guards P s r
stopped P s r n w = record { because = λ d. absurd (cc (n, d)); otherwise = λ _. w }

carry_out-Guards :
    (o : Outside) (c : Paired) (e : Event) (now : Time) (req : Request) (s : Session)
    → Guards (permits c.permissions req.method ≡ true) s (carry_out o c e now req s)
unfolding carry_out
carry_out-Guards o c e now req s =
    if-both (Guards (permits c.permissions req.method ≡ true) s) (permits c.permissions req.method)
      (λ p. record { because = λ _. p; otherwise = λ n. absurd (cc) })
      (λ _. stopped _ s _ refl refl)

after_claim-Guards :
    (o : Outside) (c : Paired) (e : Event) (now : Time) (req : Request) (k : Claim × List Handled)
    (s : Session)
    → Guards (permits c.permissions req.method ≡ true) s (after_claim o c e now req k s)
after_claim-Guards o c e now req (won, hs) s =
    let g = carry_out-Guards o c e now req (record s { handled = hs }) in
    record { because = g.because; otherwise = g.otherwise }
after_claim-Guards o c e now req (lost cached at, hs) s =
    stopped _ s _ (replay-silent o req now cached at) refl
after_claim-Guards o c e now req (no_connection, hs) s = stopped _ s _ refl refl

after_admission-Guards :
    (o : Outside) (c : Paired) (e : Event) (now : Time) (req : Request)
    (a : Admitted × RequestLimit) (s : Session)
    → Guards (permits c.permissions req.method ≡ true) s (after_admission o c e now req a s)
after_admission-Guards o c e now req (refused b, l) s = stopped _ s _ refl refl
after_admission-Guards o c e now req (sibling, l) s =
    let g =
      after_claim-Guards o c e now req
        (claim_nwc_request s.connections e.id c.limits.id req.method (o.in_progress req.method) now
          s.handled)
        (record s { limit = l }) in
    record { because = g.because; otherwise = g.otherwise }
after_admission-Guards o c e now req (charged, l) s =
    let g =
      after_claim-Guards o c e now req
        (claim_nwc_request s.connections e.id c.limits.id req.method (o.in_progress req.method) now
          s.handled)
        (record s { limit = l }) in
    record { because = g.because; otherwise = g.otherwise }

-- The request, as it was read.
abbrev pub IsPermitted : Paired → Event → Time → Option Request → Type 0
IsPermitted c e now read =
    (in_window now e.created_at ≡ true)
    × (req : Request) × (read ≡ some req)
    × (permits c.permissions req.method ≡ true)

handle_request-Guards :
    (o : Outside) (c : Paired) (e : Event) (now : Time) (read : Option Request) (s : Session)
    → Guards (IsPermitted c e now read) s (handle_request o c e now read s)
unfolding handle_request
handle_request-Guards o c e now none s = stopped _ s _ refl refl
handle_request-Guards o c e now (some req) s =
    if-both (Guards (IsPermitted c e now (some req)) s)
      (ltb max_method_length (o.byte_length req.method)) (λ _. stopped _ s _ refl refl)
      (λ _.
        if-both (Guards (IsPermitted c e now (some req)) s) (not (in_window now e.created_at))
          (λ _. stopped _ s _ refl refl)
          (λ w.
            let g = after_admission-Guards o c e now req (admit e.id now s.limit) s in
            record { because = λ d. (within w, req, refl, g.because d); otherwise = g.otherwise }))
  where
    within : {b : Bool} → not b ≡ false → b ≡ true
    within v = ground arith

-- Where a delivery comes from, and what it may ask.
abbrev pub IsAuthorised : Outside → Paired → Event → Time → Type 0
IsAuthorised o c e now =
    (str_eq e.pubkey c.client_pubkey ≡ true)
    × (e.id_matches ≡ true)
    × (e.is_signed ≡ true)
    × (scheme : String) × (requested_scheme e.encryption ≡ some scheme)
    × IsPermitted c e now (parsed o (o.decrypt scheme e.pubkey e.content))

under_scheme-Guards :
    (o : Outside) (c : Paired) (e : Event) (now : Time) (tag : Option String) (s : Session)
    → Guards
        ((scheme : String) × (tag ≡ some scheme)
          × IsPermitted c e now (parsed o (o.decrypt scheme e.pubkey e.content)))
        s
        (under_scheme o c e now tag s)
under_scheme-Guards o c e now none s = stopped _ s _ refl refl
under_scheme-Guards o c e now (some scheme) s =
    let g = handle_request-Guards o c e now (parsed o (o.decrypt scheme e.pubkey e.content)) s in
    record { because = λ d. (scheme, refl, g.because d); otherwise = g.otherwise }

-- A delivery that is carried out is one of the paired client's, with the id of its body and its signature, in
-- a scheme that is known, within a minute of now, and asks for a method of a group that the pairing has been
-- given; one that is not carried out leaves the money's tables as they were.
pub handle-IsAuthorised :
    (o : Outside) (c : Paired) (e : Event) (now : Time) (s : Session)
    → (is_dispatched (handle o c e now s).0 ≡ true → IsAuthorised o c e now)
      × (is_dispatched (handle o c e now s).0 ≡ false → (handle o c e now s).1.world ≡ s.world)
unfolding handle
handle-IsAuthorised o c e now s =
    let g =
      if-both (Guards (IsAuthorised o c e now) s)
        (not (str_eq e.pubkey c.client_pubkey) || not e.id_matches || not e.is_signed)
        (λ _. stopped _ s _ refl refl)
        (λ ours.
          let u = under_scheme-Guards o c e now (requested_scheme e.encryption) s in
          record {
            because = λ d.
                let (scheme, tagged, read) = u.because d in
                (
                  first (str_eq e.pubkey c.client_pubkey) e.id_matches e.is_signed ours,
                  second (str_eq e.pubkey c.client_pubkey) e.id_matches e.is_signed ours,
                  third (str_eq e.pubkey c.client_pubkey) e.id_matches e.is_signed ours,
                  scheme,
                  tagged,
                  read,
                );
            otherwise = u.otherwise;
          }) in
    (g.because, g.otherwise)
  where
    first : (a b d : Bool) → (not a || not b || not d) ≡ false → a ≡ true
    first a b d h = ground arith

    second : (a b d : Bool) → (not a || not b || not d) ≡ false → b ≡ true
    second a b d h = ground arith

    third : (a b d : Bool) → (not a || not b || not d) ≡ false → d ≡ true
    third a b d h = ground arith
