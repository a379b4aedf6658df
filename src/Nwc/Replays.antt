-- ===== src/Nwc/Replays.antt =====
-- Any sequence of deliveries and prunings carries a request out once.
use brollyzapper.Base.{
  ℕ, ◌+◌, ◌-◌, ◌*◌, ◌≤◌, ◌<◌, ◌≡◌, refl, Bool, true, false, ◌&&◌, ◌||◌, List, [], ◌∷◌, str_eq,
  eq_iff, if◌then◌else◌, ltb, arith, Bool-cases, inl, inr,
}
use brollyzapper.Store.Rows.{Time, second, unix}
use brollyzapper.Nwc.Requests.{Handled, has_event, prune_nwc_handled}
use brollyzapper.Nwc.Service.{
  Event, request_window, handled_retention, Outside, Paired, Session, Outcome, handle, Move,
  delivered, pruned, time_of, prune,
}
use brollyzapper.Nwc.Once.{is_dispatched, Rows, is_held, IsSame, Keeps, handle-Keeps}
use brollyzapper.Nwc.Silent.{is_spent, handle-silent}

-- A clock that does not run backwards.
abbrev pub IsOrdered : Time → List Move → Type 0
IsOrdered t [] = Unit {0}
IsOrdered t (m ∷ ms) = (t ≤ time_of m) × IsOrdered (time_of m) ms

abbrev pub HasOneTime : Event → List Move → Type 0
HasOneTime ev [] = Unit {0}
HasOneTime ev (delivered e now ∷ ms) = IsSame ev e × HasOneTime ev ms
HasOneTime ev (pruned now ∷ ms) = HasOneTime ev ms

-- The deliveries of an event that are carried out.
abbrev pub counts : Event → Event → Outcome → ℕ
counts ev e r = if str_eq e.id ev.id && is_dispatched r then 1 else 0

unfoldable pub dispatches : Event → Outside → Paired → List Move → Session → ℕ
dispatches ev o c [] s = 0
dispatches ev o c (delivered e now ∷ ms) s =
    counts ev e (handle o c e now s).0 + dispatches ev o c ms (handle o c e now s).1
dispatches ev o c (pruned now ∷ ms) s = dispatches ev o c ms (prune now s)

pruned-Rows :
    (ev : Event) (before : Time) (hs : List Handled)
    → Rows ev hs
    → Rows ev (prune_nwc_handled before hs)
unfolding prune_nwc_handled
pruned-Rows ev before [] r = tt
pruned-Rows ev before (h ∷ hs) r = elim (Bool-cases (ltb h.handled_at (unix before))) [
  | inl old ↦ rw old (pruned-Rows ev before hs r.1)
  | inr young ↦ rw young (r.0, pruned-Rows ev before hs r.1)
]

or-left : (a b : Bool) → a ≡ true → (a || b) ≡ true
or-left a b h = ground arith

both-left : (a b : Bool) → (a && b) ≡ true → a ≡ true
both-left a b h = ground arith

both-right : (a b : Bool) → (a && b) ≡ true → b ≡ true
both-right a b h = ground arith

plus_zero : {a : ℕ} → a ≤ 1 → 0 + a ≤ 1
plus_zero h = omega arith

or-right : (a b : Bool) → b ≡ true → (a || b) ≡ true
or-right a b h = ground arith

later : (a t now : Time) → ltb a t ≡ true → t ≤ now → ltb a now ≡ true
later a t now h k = ground arith

past :
    (handled_at created_at now : Time)
    → created_at < (handled_at + 1) * second + request_window
    → ltb handled_at (unix (now - handled_retention)) ≡ true
    → ltb (created_at + request_window) now ≡ true
past handled_at created_at now h k = ground arith

-- What pruning takes of an event is older than its window.
pruned-late :
    (ev : Event) (now : Time) (hs : List Handled)
    → Rows ev hs
    → is_held ev hs ≡ true
    → (is_held ev (prune_nwc_handled (now - handled_retention) hs)
        || ltb (ev.created_at + request_window) now)
      ≡ true
unfolding prune_nwc_handled
pruned-late ev now [] r h = absurd (cc)
pruned-late ev now (h ∷ hs) r k = elim (Bool-cases (has_event ev.id h)) [
  | inl own ↦ elim (Bool-cases (ltb h.handled_at (unix (now - handled_retention)))) [
    | inl old ↦ or-right _ _ (past h.handled_at ev.created_at now (r.0 own) old)
    | inr young ↦ rw young (rw own refl)
  ]
  | inr other ↦ elim (Bool-cases (ltb h.handled_at (unix (now - handled_retention)))) [
    | inl old ↦ rw old (pruned-late ev now hs r.1 (rw other at k))
    | inr young ↦ rw young (rw other (pruned-late ev now hs r.1 (rw other at k)))
  ]
]

still_spent :
    (ev : Event) (now : Time) (hs : List Handled) (t : Time) (b : Bool)
    → is_held ev hs ≡ b
    → (is_held ev hs || ltb (ev.created_at + request_window) t) ≡ true
    → t ≤ now
    → Rows ev hs
    → (is_held ev (prune_nwc_handled (now - handled_retention) hs)
        || ltb (ev.created_at + request_window) now)
      ≡ true
still_spent ev now hs t true e sp le r = pruned-late ev now hs r e
still_spent ev now hs t false e sp le r =
    or-right _ _ (later (ev.created_at + request_window) t now (rw e at sp) le)

later_spent :
    (ev : Event) (t now : Time) (hs hs' : List Handled)
    → t ≤ now
    → (is_held ev hs ≡ true → is_held ev hs' ≡ true)
    → (is_held ev hs || ltb (ev.created_at + request_window) t) ≡ true
    → (is_held ev hs' || ltb (ev.created_at + request_window) now) ≡ true
later_spent ev t now hs hs' le f sp = elim (Bool-cases (is_held ev hs)) [
  | inl h ↦ or-left _ _ (f h)
  | inr n ↦ or-right _ _ (later (ev.created_at + request_window) t now (rw n at sp) le)
]

same_spent :
    (ev e : Event) (now : Time) (s : Session)
    → e.id ≡ ev.id
    → e.created_at ≡ ev.created_at
    → is_spent ev now s ≡ true
    → is_spent e now s ≡ true
same_spent ev e now s i a h = rw i (rw a h)

silent_counts :
    (ev : Event) (o : Outside) (c : Paired) (e : Event) (now : Time) (s : Session) (t : Time)
    → IsSame ev e
    → t ≤ now
    → is_spent ev t s ≡ true
    → counts ev e (handle o c e now s).0 ≡ 0
silent_counts ev o c e now s t same le sp = elim (Bool-cases (str_eq e.id ev.id)) [
  | inl own ↦ rw own (
      rw
        (handle-silent o c e now s (
          same_spent ev e now s ((eq_iff e.id ev.id).0 own) (same own)
            (later_spent ev t now s.handled s.handled le (λ x. x) sp)))
        refl)
  | inr other ↦ rw other refl
]

one_then_none : (a b : ℕ) → a ≤ 1 → b ≡ 0 → a + b ≤ 1
one_then_none a b h k = omega arith

counts-le : (ev e : Event) (r : Outcome) → counts ev e r ≤ 1
counts-le ev e r = ground arith

none_added : (a b : ℕ) → a ≡ 0 → b ≡ 0 → a + b ≡ 0
none_added a b h k = omega arith

-- From a session where the event is spent, none of its deliveries is carried out.
spent_dispatches :
    (ev : Event) (o : Outside) (c : Paired) (ms : List Move) (s : Session) (t : Time)
    → IsOrdered t ms
    → HasOneTime ev ms
    → Rows ev s.handled
    → is_spent ev t s ≡ true
    → dispatches ev o c ms s ≡ 0
unfolding dispatches
spent_dispatches ev o c [] s t ord one r sp = refl
spent_dispatches ev o c (pruned now ∷ ms) s t ord one r sp =
    spent_dispatches ev o c ms (prune now s) now ord.1 one
      (pruned-Rows ev (now - handled_retention) s.handled r)
      (still_spent ev now s.handled t (is_held ev s.handled) refl sp ord.0 r)
spent_dispatches ev o c (delivered e now ∷ ms) s t ord one r sp =
    let k = handle-Keeps o c ev e now s one.0 r in
    let after = later_spent ev t now s.handled (handle o c e now s).1.handled ord.0 k.holds sp in
    none_added (counts ev e (handle o c e now s).0) (dispatches ev o c ms (handle o c e now s).1)
      (silent_counts ev o c e now s t one.0 ord.0 sp)
      (spent_dispatches ev o c ms (handle o c e now s).1 now ord.1 one.1 k.rows after)

-- Where the stored rows of an event, if there are any, are not from before the window of the event: of all its
-- deliveries, on any relays and at any times on a clock that does not run backwards, among those of other
-- events and among prunings of the table, at most one is carried out. Events with its id share its time.
pub dispatched_once :
    (ev : Event) (o : Outside) (c : Paired) (ms : List Move) (s : Session) (t : Time)
    → IsOrdered t ms
    → HasOneTime ev ms
    → Rows ev s.handled
    → dispatches ev o c ms s ≤ 1
unfolding dispatches
dispatched_once ev o c [] s t ord one r = omega arith
dispatched_once ev o c (pruned now ∷ ms) s t ord one r =
    dispatched_once ev o c ms (prune now s) now ord.1 one
      (pruned-Rows ev (now - handled_retention) s.handled r)
dispatched_once ev o c (delivered e now ∷ ms) s t ord one r =
    elim (Bool-cases (str_eq e.id ev.id && is_dispatched (handle o c e now s).0)) [
      | inl won ↦
          one_then_none (counts ev e (handle o c e now s).0)
            (dispatches ev o c ms (handle o c e now s).1) (counts-le ev e (handle o c e now s).0)
            (spent_dispatches ev o c ms (handle o c e now s).1 now ord.1 one.1 k.rows
              (or-left _ _ (k.claims (both-right _ _ won) (both-left _ _ won))))
      | inr lost ↦
          rw lost
            (plus_zero (dispatched_once ev o c ms (handle o c e now s).1 now ord.1 one.1 k.rows))
    ]
  where
    k : Keeps ev e s (handle o c e now s)
    k = handle-Keeps o c ev e now s one.0 r
