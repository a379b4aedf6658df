-- ===== src/Nwc/Rate.antt =====
-- What the token bucket of a pairing bounds.
use brollyzapper.Base.{
  ℕ, ◌+◌, ◌-◌, ◌*◌, ◌≤◌, ◌≡◌, refl, none, some, List, [], ◌∷◌, String, if◌then◌else◌, ltb, arith,
  Option-cases, inl, inr, All, All-map, ◌∙◌,
}
use brollyzapper.Store.Rows.{Time}
use brollyzapper.Nwc.Limit.{
  RequestLimit, Admitted, charged, token, full, refill, calmed, admit_refilled, admit, fresh,
}

abbrev pub is_charged : Admitted → ℕ
is_charged charged = 1
is_charged _ = 0

abbrev pub Arrival : Type 0
Arrival = String × Time

unfoldable pub admit_all : List Arrival → RequestLimit → RequestLimit
admit_all [] l = l
admit_all ((id, now) ∷ rs) l = admit_all rs (admit id now l).1

unfoldable pub charges : List Arrival → RequestLimit → ℕ
charges [] l = 0
charges ((id, now) ∷ rs) l = is_charged (admit id now l).0 + charges rs (admit id now l).1

admit_refilled-tokens :
    (id : String) (now : Time) (l : RequestLimit)
    → is_charged (admit_refilled id now l).0 * token + (admit_refilled id now l).1.tokens ≡ l.tokens
admit_refilled-tokens id now l = ground arith

admit_refilled-last :
    (id : String) (now : Time) (l : RequestLimit) → (admit_refilled id now l).1.last ≡ l.last
admit_refilled-last id now l = ground arith

calmed-tokens : (l : RequestLimit) → (calmed l).tokens ≡ l.tokens
calmed-tokens l = ground arith

calmed-last : (l : RequestLimit) → (calmed l).last ≡ l.last
calmed-last l = ground arith

-- One request, on a bucket that has been looked at before.
pub admit-tokens :
    (id : String) (now : Time) (l : RequestLimit)
    → is_charged (admit id now l).0 * token + (admit id now l).1.tokens ≡ (refill now l).tokens
unfolding admit
admit-tokens id now l =
    admit_refilled-tokens id now (calmed (refill now l)) ∙ calmed-tokens (refill now l)

pub admit-last :
    (id : String) (now : Time) (l : RequestLimit) → (admit id now l).1.last ≡ (refill now l).last
unfolding admit
admit-last id now l =
    admit_refilled-last id now (calmed (refill now l)) ∙ calmed-last (refill now l)

abbrev pub last_or : RequestLimit → Time → Time
last_or l t = elim l.last [ none ↦ t | some s ↦ s ]

abbrev latest : Time → Time → Time
latest now at = if ltb at now then now else at

later :
    (now : Time) (l : RequestLimit) (at : Time)
    → l.last ≡ some at
    → (refill now l).last ≡ some (latest now at)
later now l at e = rw e (ground arith)

refilled :
    (now : Time) (l : RequestLimit) (at until : Time)
    → l.last ≡ some at
    → now ≤ until
    → (refill now l).tokens + (until - latest now at) ≤ l.tokens + (until - at)
refilled now l at until e h = rw e (ground arith)

-- What a span up to `until` can still refill.
pub charges_le :
    (until : Time) (rs : List Arrival) (l : RequestLimit) (at : Time)
    → l.last ≡ some at
    → All (λ (r : Arrival). r.1 ≤ until) rs
    → charges rs l * token ≤ l.tokens + (until - at)
unfolding charges
charges_le until [] l at e h = omega arith
charges_le until ((id, now) ∷ rs) l at e h =
    let step = admit-tokens id now l in
    let when = admit-last id now l ∙ later now l at e in
    let rest = charges_le until rs (admit id now l).1 (latest now at) when h.1 in
    let gain = refilled now l at until e h.0 in omega arith

pub refill-le-full :
    (now : Time) (l : RequestLimit) → l.tokens ≤ full → (refill now l).tokens ≤ full
refill-le-full now l h = elim (Option-cases l.last) [
  | inl e ↦ rw e (omega arith)
  | inr (at, e) ↦ rw e (ground arith)
]

pub admit_all-le-full :
    (rs : List Arrival) (l : RequestLimit) → l.tokens ≤ full → (admit_all rs l).tokens ≤ full
unfolding admit_all
admit_all-le-full [] l h = h
admit_all-le-full ((id, now) ∷ rs) l h =
    admit_all-le-full rs (admit id now l).1
      (let step = admit-tokens id now l in let most = refill-le-full now l h in omega arith)

-- The first request of a span meets a bucket that is at most full, and that has been looked at since.
pub since :
    (now from : Time) (l : RequestLimit)
    → from ≤ now
    → (at : Time) × ((refill now l).last ≡ some at) × (from ≤ at)
since now from l h = elim (Option-cases l.last) [
  | inl e ↦ (now, rw e refl, h)
  | inr (at, e) ↦ (latest now at, later now l at e, ground arith)
]

-- After any earlier requests, on any clock: of the requests that are seen between two times, in any order, the
-- ones that are charged are at most the burst, and what refills from the one time to the other.
pub charges_bounded :
    (earlier rs : List Arrival) (from until : Time)
    → from ≤ until
    → All (λ (r : Arrival). (from ≤ r.1) × (r.1 ≤ until)) rs
    → charges rs (admit_all earlier fresh) * token ≤ full + (until - from)
unfolding charges
charges_bounded earlier [] from until f h = omega arith
charges_bounded earlier ((id, now) ∷ rs) from until f h =
    let l = admit_all earlier fresh in
    let (at, e, s) = since now from l h.0.0 in
    let step = admit-tokens id now l in
    let most = refill-le-full now l (admit_all-le-full earlier fresh (omega arith)) in
    let rest =
      charges_le until rs (admit id now l).1 at (admit-last id now l ∙ e)
        (All-map (λ r p. p.1) rs h.1) in
    omega arith
