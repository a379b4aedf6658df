-- ===== src/Api/Windows.antt =====
-- The limiter keeps to its two windows, and its sweep forgets nothing that still counts.
use brollyzapper.Base.{
  ℕ, suc, ◌+◌, ◌≤◌, ◌≡◌, refl, sym, ap, ◌∙◌, Bool, true, false, not, ◌&&◌, List, [], ◌∷◌, ◌++◌,
  String, str_eq, eq_refl, arith, ltb, select, length, All, Bool-cases, inl, inr,
}
use brollyzapper.Store.Rows.{Time}
use brollyzapper.Api.Limiter.{
  minute, hour, Limiter, is_recent, is_stale, sweep, put, kept, is_full, count_in, allow_key,
}

-- The arrivals that a window counts.
abbrev pub arrivals : Time → String → Time → Limiter → ℕ
arrivals width key now l = length (select (is_recent width now) (l.hits key))

select-again :
    (now : Time) (ts : List Time)
    → select (is_recent hour now) (select (is_recent hour now) ts) ≡ select (is_recent hour now) ts
select-again now [] = refl
select-again now (t ∷ ts) = ground (arith, select-again now ts)

select_snoc :
    (p : Time → Bool) (t : Time) (ts : List Time)
    → p t ≡ true
    → length (select p (ts ++ (t ∷ []))) ≡ suc (length (select p ts))
select_snoc p t [] h = ground arith
select_snoc p t (x ∷ ts) h = ground (arith, select_snoc p t ts h)

recent_now : (width now : Time) → 1 ≤ width → is_recent width now now ≡ true
recent_now width now h = ground arith

counted :
    (per_minute per_hour : ℕ) (key : String) (now : Time) (l : Limiter)
    → is_full per_minute per_hour now (kept key now l) ≡ false
    → (arrivals minute key now (put key (kept key now l ++ (now ∷ [])) l) ≤ per_minute)
      × (arrivals hour key now (put key (kept key now l ++ (now ∷ [])) l) ≤ per_hour)
counted per_minute per_hour key now l h = rw (eq_refl key) (
  rw (select_snoc (is_recent minute now) now (kept key now l) (recent_now minute now (omega arith)))
      (ground arith),
  rw (select_snoc (is_recent hour now) now (kept key now l) (recent_now hour now (omega arith)))
      (rw (select-again now (l.hits key)) (ground arith)),
)

-- A request that is let through leaves both counts within the limits.
allow_key-within :
    (per_minute per_hour : ℕ) (key : String) (now : Time) (l : Limiter)
    → (allow_key per_minute per_hour key now l).0 ≡ true
    → (arrivals minute key now (allow_key per_minute per_hour key now l).1 ≤ per_minute)
      × (arrivals hour key now (allow_key per_minute per_hour key now l).1 ≤ per_hour)
unfolding allow_key
allow_key-within per_minute per_hour key now l h =
    elim (Bool-cases (is_full per_minute per_hour now (kept key now (sweep now l)))) [
      | inl full ↦ absurd (ground arith)
      | inr room ↦ rw room (counted per_minute per_hour key now (sweep now l) room)
    ]

-- A bucket in the order of arrival.
abbrev pub IsInOrder : List Time → Type 0
IsInOrder [] = Unit
IsInOrder (t ∷ ts) = All (λ u. t ≤ u) ts × IsInOrder ts

stale-select :
    (now : Time) (ts : List Time)
    → IsInOrder ts
    → is_stale now ts ≡ true
    → select (is_recent hour now) ts ≡ []
stale-select now [] o h = refl
stale-select now (t ∷ []) o h = ground arith
stale-select now (t ∷ (u ∷ ts)) o h = ground (arith, stale-select now (u ∷ ts), o.0)

-- A stale bucket counts nothing in the last minute either.
minute-of_hour :
    (now : Time) (ts : List Time)
    → select (is_recent minute now) (select (is_recent hour now) ts)
      ≡ select (is_recent minute now) ts
minute-of_hour now [] = refl
minute-of_hour now (t ∷ ts) = ground (arith, minute-of_hour now ts)

stale_minute :
    (now : Time) (ts : List Time)
    → IsInOrder ts
    → is_stale now ts ≡ true
    → select (is_recent minute now) ts ≡ []
stale_minute now ts o h =
    sym (minute-of_hour now ts) ∙ ap (select (is_recent minute now)) (stale-select now ts o h)

-- A sweep changes no count of a bucket that is in the order of arrival: it drops only what the windows no
-- longer count.
module _ (width now : Time) (key : String) (l : Limiter)
    (empty : is_stale now (l.hits key) ≡ true
      → select (is_recent width now) (l.hits key) ≡ []) where
  sweep-kept : arrivals width key now (sweep now l) ≡ arrivals width key now l
  unfolding sweep
  sweep-kept = elim (Bool-cases (ltb now (l.swept + minute))) [
    | inl early ↦ rw early refl
    | inr due ↦ elim (Bool-cases (is_stale now (l.hits key))) [
      | inl stale ↦ rw due (rw stale (ap length (sym (empty stale))))
      | inr fresh ↦ rw due (rw fresh refl)
    ]
  ]

sweep-arrivals :
    (now : Time) (key : String) (l : Limiter)
    → IsInOrder (l.hits key)
    → arrivals hour key now (sweep now l) ≡ arrivals hour key now l
sweep-arrivals now key l o = sweep-kept hour now key l (stale-select now (l.hits key) o)

sweep-minute :
    (now : Time) (key : String) (l : Limiter)
    → IsInOrder (l.hits key)
    → arrivals minute key now (sweep now l) ≡ arrivals minute key now l
sweep-minute now key l o = sweep-kept minute now key l (stale_minute now (l.hits key) o)

-- Room for one more, by the counts.
abbrev pub has_room : ℕ → ℕ → String → Time → Limiter → Bool
has_room per_minute per_hour key now l =
    ltb (arrivals minute key now l) per_minute && ltb (arrivals hour key now l) per_hour

has_room-full :
    (per_minute per_hour : ℕ) (key : String) (now : Time) (l : Limiter)
    → has_room per_minute per_hour key now l
      ≡ not (is_full per_minute per_hour now (kept key now l))
has_room-full per_minute per_hour key now l = rw (minute-of_hour now (l.hits key)) (ground arith)

counted_exact :
    (key : String) (now : Time) (l : Limiter)
    → (arrivals minute key now (put key (kept key now l ++ (now ∷ [])) l)
        ≡ suc (arrivals minute key now l))
      × (arrivals hour key now (put key (kept key now l ++ (now ∷ [])) l)
          ≡ suc (arrivals hour key now l))
counted_exact key now l = rw (eq_refl key) (
  select_snoc (is_recent minute now) now (kept key now l) (recent_now minute now (omega arith))
      ∙ ap (λ (ts : List Time). suc (length ts)) (minute-of_hour now (l.hits key)),
  select_snoc (is_recent hour now) now (kept key now l) (recent_now hour now (omega arith))
      ∙ ap (λ (ts : List Time). suc (length ts)) (select-again now (l.hits key)),
)

uncounted_exact :
    (key : String) (now : Time) (l : Limiter)
    → (arrivals minute key now (put key (kept key now l) l) ≡ arrivals minute key now l)
      × (arrivals hour key now (put key (kept key now l) l) ≡ arrivals hour key now l)
uncounted_exact key now l =
    rw (eq_refl key)
      (ap length (minute-of_hour now (l.hits key)), ap length (select-again now (l.hits key)))

-- One more, for a request that is let through.
abbrev pub one_more_if : Bool → ℕ → ℕ
one_more_if true n = suc n
one_more_if false n = n

put_other :
    (key k : String) (ts : List Time) (now : Time) (l : Limiter)
    → str_eq k key ≡ false
    → arrivals hour k now (put key ts l) ≡ arrivals hour k now l
put_other key k ts now l ne = rw ne refl

-- A request counts against its own bucket only: what another bucket, in the order of arrival, counts
-- in the last hour is what it was, whether the request is let through or not.
pub allow_key_others :
    (per_minute per_hour : ℕ) (key k : String) (now : Time) (l : Limiter)
    → str_eq k key ≡ false
    → IsInOrder (l.hits k)
    → arrivals hour k now (allow_key per_minute per_hour key now l).1 ≡ arrivals hour k now l
unfolding allow_key
allow_key_others per_minute per_hour key k now l ne o =
    elim (Bool-cases (is_full per_minute per_hour now (kept key now (sweep now l)))) [
      | inl full ↦ rw full (
          put_other key k (kept key now (sweep now l)) now (sweep now l) ne
          ∙ sweep-arrivals now k l o)
      | inr room ↦ rw room (
          put_other key k (kept key now (sweep now l) ++ (now ∷ [])) now (sweep now l) ne
          ∙ sweep-arrivals now k l o)
    ]

-- What one request does to a bucket.
abbrev pub IsCounted : ℕ → ℕ → String → Time → Limiter → Bool × Limiter → Type 0
IsCounted per_minute per_hour key now l (let_through, l') =
    (let_through ≡ has_room per_minute per_hour key now l)
    × (arrivals minute key now l' ≡ one_more_if let_through (arrivals minute key now l))
    × (arrivals hour key now l' ≡ one_more_if let_through (arrivals hour key now l))

counted-IsCounted :
    (per_minute per_hour : ℕ) (key : String) (now : Time) (l : Limiter)
    → IsCounted per_minute per_hour key now l (count_in per_minute per_hour key now l)
counted-IsCounted per_minute per_hour key now l =
    elim (Bool-cases (is_full per_minute per_hour now (kept key now l))) [
      | inl full ↦
          let same = sym (has_room-full per_minute per_hour key now l ∙ ap not full) in
          let counts = uncounted_exact key now l in rw full (same, counts.0, counts.1)
      | inr room ↦
          let same = sym (has_room-full per_minute per_hour key now l ∙ ap not room) in
          let counts = counted_exact key now l in rw room (same, counts.0, counts.1)
    ]

-- For a bucket in the order of arrival: a request is let through if and only if the last minute and the last
-- hour each count fewer arrivals than their limit. It then adds one to both counts, so that they stay
-- within the limits; a request that is not let through adds nothing.
pub allow_key_limits :
    (per_minute per_hour : ℕ) (key : String) (now : Time) (l : Limiter)
    → IsInOrder (l.hits key)
    → IsCounted per_minute per_hour key now l (allow_key per_minute per_hour key now l)
unfolding allow_key
allow_key_limits per_minute per_hour key now l o =
    let (answer, in_minute, in_hour) =
      counted-IsCounted per_minute per_hour key now (sweep now l) in
    let minutes = sweep-minute now key l o in
    let hours = sweep-arrivals now key l o in
    (
      answer
          ∙ ap (λ (m : ℕ). ltb m per_minute && ltb (arrivals hour key now (sweep now l)) per_hour)
              minutes
          ∙ ap (λ (h : ℕ). ltb (arrivals minute key now l) per_minute && ltb h per_hour) hours,
      in_minute ∙ ap (one_more_if _) minutes,
      in_hour ∙ ap (one_more_if _) hours,
    )
