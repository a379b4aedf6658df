-- ===== src/Nwc/Requests.antt =====
-- store/nwc.go, `nwc_handled_requests`: a request is claimed once, and a repeated delivery gets the answer.
use brollyzapper.Base.{
  ℕ, ◌+◌, ◌≤◌, ◌==◌, ◌≡◌, refl, ap, Bool, true, false, not, inl, inr, Option, none, some, is_some,
  List, [], ◌∷◌, String, str_eq, eq_iff, subst, arith, if◌then◌else◌, if-both, Bool-cases, ltb, any,
  find_first, select, update_where,
}
use brollyzapper.Store.Rows.{Time, unix}

pub record Handled : Type 0 where
  pub event_id : String
  pub connection_id : ℕ
  pub method : String
  pub response_json : String
  pub handled_at : ℕ

abbrev pub has_event : String → Handled → Bool
has_event e h = str_eq h.event_id e

-- The event id is the table's primary key.
abbrev pub find_handled : String → List Handled → Option Handled
find_handled e hs = find_first (has_event e) hs

-- The claim is won, or lost to a stored answer with its time, or the connection is gone (the foreign key).
pub data Claim : Type 0 where
  won : Claim
  lost : String → ℕ → Claim
  no_connection : Claim

abbrev pub insert_if : Bool → Handled → List Handled → Claim × List Handled
insert_if true new hs = (won, new ∷ hs)
insert_if false new hs = (no_connection, hs)

abbrev pub claim_over : List ℕ → Handled → Option Handled → List Handled → Claim × List Handled
claim_over connections new (some old) hs = (lost old.response_json old.handled_at, hs)
claim_over connections new none hs =
    insert_if (any (λ i. i == new.connection_id) connections) new hs

-- `connections` are the ids that the foreign key refers to.
unfoldable pub claim_nwc_request :
    List ℕ → String → ℕ → String → String → Time → List Handled → Claim × List Handled
claim_nwc_request connections e connection_id method placeholder at hs =
    claim_over connections
      (record {
        event_id = e;
        connection_id = connection_id;
        method = method;
        response_json = placeholder;
        handled_at = unix at;
      })
      (find_handled e hs) hs

abbrev pub answer_with : String → Time → Handled → Handled
answer_with response at h = record h { response_json = response; handled_at = unix at }

unfoldable pub complete_nwc_request : String → String → Time → List Handled → List Handled
complete_nwc_request e response at hs = update_where (has_event e) (answer_with response at) hs

unfoldable pub prune_nwc_handled : Time → List Handled → List Handled
prune_nwc_handled before hs = select (λ h. not (ltb h.handled_at (unix before))) hs

-- What arrives: a delivery of a request, and the answer of one that was claimed.
pub data Step : Type 0 where
  deliver : List ℕ → String → ℕ → String → String → Time → Step
  answer : String → String → Time → Step

unfoldable pub step : Step → List Handled → Option Claim × List Handled
step (deliver cs e i method placeholder at) hs = (
  some (claim_nwc_request cs e i method placeholder at hs).0,
  (claim_nwc_request cs e i method placeholder at hs).1,
)
step (answer e response at) hs = (none, complete_nwc_request e response at hs)

abbrev pub is_win : String → Step → Option Claim → ℕ
is_win e (deliver cs f i method placeholder at) (some won) = if str_eq f e then 1 else 0
is_win e _ _ = 0

-- The deliveries of an event that win, which are the ones that are carried out.
abbrev pub wins : String → List Step → List Handled → ℕ
wins e [] hs = 0
wins e (s ∷ ss) hs = is_win e s (step s hs).0 + wins e ss (step s hs).1

abbrev pub held : String → List Handled → ℕ
held e hs = if is_some (find_handled e hs) then 1 else 0

pub found_complete :
    (e f response : String) (at : Time) (hs : List Handled) (o : Option Handled)
    → find_handled e hs ≡ o
    → is_some (find_handled e (complete_nwc_request f response at hs)) ≡ is_some o
unfolding complete_nwc_request
found_complete e f response at [] o h = ap is_some h
found_complete e f response at (x ∷ xs) o h = ground (arith, found_complete e f response at xs o)

pub has_event-own : (e f : String) → str_eq f e ≡ true → f ≡ e
has_event-own e f h = (eq_iff f e).0 h

won_or_not :
    (e f : String) (cs : List ℕ) (i : ℕ) (method placeholder : String) (at : Time) (new : Handled)
    (hs : List Handled) (b : Bool)
    → new.event_id ≡ f
    → find_handled f hs ≡ none
    → is_win e (deliver cs f i method placeholder at) (some (insert_if b new hs).0) + held e hs
      ≡ held e (insert_if b new hs).1
won_or_not e f cs i method placeholder at new hs false own absent = omega arith
won_or_not e f cs i method placeholder at new hs true own absent = elim (Bool-cases (str_eq f e)) [
  | inl same ↦
      let e' = has_event-own e f same in
      let none_held : find_handled e hs ≡ none =
        subst (λ (x : String). find_handled x hs ≡ none) e' absent in
      rw own (rw same (rw none_held (omega arith)))
  | inr different ↦ rw own (rw different (omega arith))
]

deliver-held :
    (e f : String) (cs : List ℕ) (i : ℕ) (method placeholder : String) (at : Time) (new : Handled)
    (hs : List Handled) (o : Option Handled)
    → new.event_id ≡ f
    → find_handled f hs ≡ o
    → is_win e (deliver cs f i method placeholder at) (some (claim_over cs new o hs).0) + held e hs
      ≡ held e (claim_over cs new o hs).1
deliver-held e f cs i method placeholder at new hs (some old) own h = omega arith
deliver-held e f cs i method placeholder at new hs none own h =
    won_or_not e f cs i method placeholder at new hs (any (λ i. i == new.connection_id) cs) own h

step-held :
    (e : String) (s : Step) (hs : List Handled)
    → is_win e s (step s hs).0 + held e hs ≡ held e (step s hs).1
unfolding step claim_nwc_request
step-held e (deliver cs f i method placeholder at) hs =
    deliver-held e f cs i method placeholder at _ hs (find_handled f hs) refl refl
step-held e (answer f response at) hs =
    rw (found_complete e f response at hs (find_handled e hs) refl) (omega arith)

held_bound : (e : String) (hs : List Handled) → held e hs ≤ 1
held_bound e hs =
    if-both (λ (n : ℕ). n ≤ 1) (is_some (find_handled e hs)) (λ _. omega arith) (λ _. omega arith)

-- Over any run of deliveries, of this event and of others, on any relays, and of answers: the deliveries
-- of an event that win are at most one, and none if its claim was held at the start. The request is
-- carried out once, however often it arrives.
pub wins_once : (e : String) (ss : List Step) (hs : List Handled) → wins e ss hs + held e hs ≤ 1
wins_once e [] hs = let bound = held_bound e hs in omega arith
wins_once e (s ∷ ss) hs =
    let here = step-held e s hs in let rest = wins_once e ss (step s hs).1 in omega arith

complete-find :
    (e response : String) (at : Time) (hs : List Handled) (h : Handled)
    → find_handled e hs ≡ some h
    → find_handled e (complete_nwc_request e response at hs) ≡ some (answer_with response at h)
unfolding complete_nwc_request
complete-find e response at [] h k = absurd (ground arith)
complete-find e response at (x ∷ xs) h k = ground (arith, complete-find e response at xs h)

-- Once a claimed request has been answered, a repeated delivery loses its claim to that answer, with the
-- second it was given in, and changes nothing.
pub claim_complete :
    (cs : List ℕ) (e response method placeholder : String) (i : ℕ) (at later : Time)
    (hs : List Handled) (h : Handled)
    → find_handled e hs ≡ some h
    → claim_nwc_request cs e i method placeholder later (complete_nwc_request e response at hs)
      ≡ (lost response (unix at), complete_nwc_request e response at hs)
unfolding claim_nwc_request
claim_complete cs e response method placeholder i at later hs h k =
    rw (complete-find e response at hs h k) refl
