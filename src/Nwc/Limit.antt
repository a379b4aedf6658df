-- ===== src/Nwc/Limit.antt =====
-- nwc/ratelimit.go: a pairing's token bucket. The source counts tokens in a float; here a token is the time in
-- which one refills, so that a refill is exact.
use brollyzapper.Base.{
  ◌==◌, ℕ, zero, suc, ◌+◌, ◌-◌, ◌*◌, ◌/◌, ◌%◌, Bool, true, false, not, ◌&&◌, ◌||◌, Option, none,
  some, String, str_eq, if◌then◌else◌, ltb, leb,
}
use brollyzapper.Store.Rows.{Time, second}

abbrev pub requests_per_minute : ℕ
requests_per_minute = 60

abbrev pub request_burst : ℕ
request_burst = 10

abbrev pub sibling_delivery_window : Time
sibling_delivery_window = 2 * second

-- `time.Minute / RequestsPerMinute`.
abbrev pub token : Time
token = 60 * second / requests_per_minute

abbrev pub full : Time
full = request_burst * token

abbrev pub admitted_memory : ℕ
admitted_memory = request_burst + sibling_delivery_window / token + 1

pub record Admission : Type 0 where
  pub id : String
  pub at : Time

-- A ring's place that was never written is `none`: the zero time is out of every window.
abbrev pub Ring : Type 0
Ring = ℕ → Option Admission

-- `last` is `none` until the first request.
pub record RequestLimit : Type 0 where
  pub tokens : Time
  pub last : Option Time
  pub refusing : Bool
  pub admitted : Ring
  pub next : ℕ

abbrev pub min : ℕ → ℕ → ℕ
min a b = if leb a b then a else b

-- The bucket, with what has refilled since it was last looked at. A clock that stepped back refills nothing.
abbrev pub refill : Time → RequestLimit → RequestLimit
refill now l = elim l.last [
  | none ↦ record l { tokens = full; last = some now }
  | some last ↦
      if ltb last now
      then record l { tokens = min full (l.tokens + (now - last)); last = some now }
      else l
]

abbrev pub calmed : RequestLimit → RequestLimit
calmed l = if leb full l.tokens then record l { refusing = false } else l

abbrev pub is_copy : String → Time → Option Admission → Bool
is_copy id now none = false
is_copy id now (some a) = str_eq a.id id && ltb now (a.at + sibling_delivery_window)

-- `for _, a := range l.admitted`.
abbrev pub any_below : ℕ → (ℕ → Bool) → Bool
any_below zero p = false
any_below (suc n) p = p n || any_below n p

unfoldable pub is_sibling : String → Time → RequestLimit → Bool
is_sibling id now l = any_below admitted_memory (λ i. is_copy id now (l.admitted i))

abbrev pub write_ring : ℕ → Admission → Ring → Ring
write_ring i a ring = λ j. if i == j then some a else ring j

-- Whether the request may be served, whether it was charged, and whether its refusal starts an episode.
pub data Admitted : Type 0 where
  sibling charged : Admitted
  refused : Bool → Admitted

abbrev pub charge : String → Time → RequestLimit → RequestLimit
charge id now l = record l {
  tokens = l.tokens - token;
  admitted = write_ring l.next (record { id = id; at = now }) l.admitted;
  next = (l.next + 1) % admitted_memory;
}

abbrev pub admit_refilled : String → Time → RequestLimit → Admitted × RequestLimit
admit_refilled id now l =
    if is_sibling id now l
    then (sibling, l)
    else if leb token l.tokens
    then (charged, charge id now l)
    else (refused (not l.refusing), record l { refusing = true })

unfoldable pub admit : String → Time → RequestLimit → Admitted × RequestLimit
admit id now l = admit_refilled id now (calmed (refill now l))

abbrev pub fresh : RequestLimit
fresh = record { tokens = 0; last = none; refusing = false; admitted = λ _. none; next = 0 }
