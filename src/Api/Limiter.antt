-- ===== src/Api/Limiter.antt =====
-- api/ratelimit.go: the counter of two windows. A bucket that is not in the map is an empty one.
use brollyzapper.Base.{
  ℕ, ◌+◌, Bool, true, false, not, ◌||◌, Option, none, some, List, [], ◌∷◌, ◌++◌, String, str_eq,
  if◌then◌else◌, ltb, leb, select, length,
}
use brollyzapper.Store.Rows.{Time}

abbrev pub minute : Time
minute = 60000000000

abbrev pub hour : Time
hour = 3600000000000

-- The buckets, each in the order of arrival, and when they were last swept (0 for never).
pub record Limiter : Type 0 where
  pub hits : String → List Time
  pub swept : Time

-- `at.After(now.Add(-width))`
abbrev pub is_recent : Time → Time → Time → Bool
is_recent width now at = ltb now (at + width)

abbrev pub last : List Time → Option Time
last [] = none
last (x ∷ []) = some x
last (x ∷ (y ∷ ys)) = last (y ∷ ys)

-- Only the last arrival is looked at.
abbrev pub is_stale : Time → List Time → Bool
is_stale now ts = elim (last ts) [ none ↦ true | some at ↦ not (is_recent hour now at) ]

unfoldable pub sweep : Time → Limiter → Limiter
sweep now l =
    if ltb now (l.swept + minute)
    then l
    else record { hits = λ k. if is_stale now (l.hits k) then [] else l.hits k; swept = now }

abbrev pub put : String → List Time → Limiter → Limiter
put key ts l = record l { hits = λ k. if str_eq k key then ts else l.hits k }

-- What is kept of a bucket.
abbrev pub kept : String → Time → Limiter → List Time
kept key now l = select (is_recent hour now) (l.hits key)

abbrev pub is_full : ℕ → ℕ → Time → List Time → Bool
is_full per_minute per_hour now ts =
    leb per_minute (length (select (is_recent minute now) ts)) || leb per_hour (length ts)

abbrev pub count_in : ℕ → ℕ → String → Time → Limiter → Bool × Limiter
count_in per_minute per_hour key now l =
    let ts = kept key now l in
    if is_full per_minute per_hour now ts
    then (false, put key ts l)
    else (true, put key (ts ++ (now ∷ [])) l)

-- `AllowKey`
unfoldable pub allow_key : ℕ → ℕ → String → Time → Limiter → Bool × Limiter
unfolding sweep
allow_key per_minute per_hour key now l = count_in per_minute per_hour key now (sweep now l)
