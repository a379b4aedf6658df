-- ===== src/Guard/Log.antt =====
-- What the cap promises, on a log that is never pruned: the sum of the attempts that were let through
-- in the last day and have not failed.
use brollyzapper.Base.{
  ℕ, ◌≤◌, ◌&&◌, Option, none, some, List, [], ◌∷◌, ◌++◌, String, str_eq, if◌then◌else◌, leb, length,
}
use brollyzapper.Base.Int.{ℤ, pos, ◌+ℤ◌, ◌≤ℤ◌, ltb_ℤ}
use brollyzapper.Store.Rows.{Time}
use brollyzapper.Guard.Window.{
  SpendAttempt, Caps, is_inside, kept, SpendRefusal, over_payment_cap, too_many_attempts,
  over_spend_cap, intercept, observe_failed,
}
use brollyzapper.Guard.Sums.{total}

-- The decision from the log: exact sums, and nothing forgotten.
unfoldable pub decide : ℕ → ℤ → Time → Caps → Option SpendRefusal
decide bound cost now log =
    if ltb_ℤ log.max_payment_msat cost
    then some over_payment_cap
    else if leb bound (length (kept now log.spend_attempts))
    then some too_many_attempts
    else if ltb_ℤ log.max_spend_msat (total (kept now log.spend_attempts) +ℤ cost)
    then some over_spend_cap
    else none

abbrev pub log_if : Option SpendRefusal → SpendAttempt → Caps → Caps
log_if (some e) a log = log
log_if none a log = record log { spend_attempts = log.spend_attempts ++ (a ∷ []) }

abbrev pub remove_inside : String → Time → List SpendAttempt → List SpendAttempt
remove_inside key now [] = []
remove_inside key now (a ∷ xs) =
    let rest = remove_inside key now xs in
    if is_inside now a && str_eq a.key key then xs else a ∷ rest

abbrev pub log_failed : String → Time → Caps → Caps
log_failed key now log = record log { spend_attempts = remove_inside key now log.spend_attempts }

-- What the middleware sees, each with the clock at its window.
pub data Event : Type 0 where
  attempt : SpendAttempt → Event
  failed : String → Event

abbrev pub answers : ℕ → List (Time × Event) → Caps → List (Option SpendRefusal)
answers bound [] st = []
answers bound ((now, attempt a) ∷ es) st =
    (intercept bound a now st).0 ∷ answers bound es (intercept bound a now st).1
answers bound ((now, failed key) ∷ es) st = answers bound es (observe_failed key now st)

abbrev pub log_answers : ℕ → List (Time × Event) → Caps → List (Option SpendRefusal)
log_answers bound [] log = []
log_answers bound ((now, attempt a) ∷ es) log =
    decide bound a.msat now log ∷ log_answers bound es (log_if (decide bound a.msat now log) a log)
log_answers bound ((now, failed key) ∷ es) log = log_answers bound es (log_failed key now log)

abbrev pub final_log : ℕ → List (Time × Event) → Caps → Caps
final_log bound [] log = log
final_log bound ((now, attempt a) ∷ es) log =
    final_log bound es (log_if (decide bound a.msat now log) a log)
final_log bound ((now, failed key) ∷ es) log = final_log bound es (log_failed key now log)

-- The clock does not run backwards, and a price is positive.
abbrev pub IsTimed : Time → List (Time × Event) → Type 0
IsTimed c [] = Unit
IsTimed c ((now, attempt a) ∷ es) = (c ≤ now) × (now ≤ a.at) × (pos 1 ≤ℤ a.msat) × IsTimed a.at es
IsTimed c ((now, failed key) ∷ es) = (c ≤ now) × IsTimed now es

abbrev pub end_of : Time → List (Time × Event) → Time
end_of c [] = c
end_of c ((now, attempt a) ∷ es) = end_of a.at es
end_of c ((now, failed key) ∷ es) = end_of now es
