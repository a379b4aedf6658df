-- ===== src/Guard/Window.antt =====
-- guard/spendcap.go: the rolling window of attempts, `InterceptRequest` past the price, and
-- `ObserveResponse` at a terminal failure. `saveLocked` writes the state that the call returns; a
-- refusal writes nothing, so that the state stays as it was.
use brollyzapper.Base.{
  ℕ, ◌+◌, ◌*◌, Bool, ◌&&◌, Option, none, some, List, [], ◌∷◌, ◌++◌, String, str_eq, if◌then◌else◌,
  ltb, leb, select, length,
}
use brollyzapper.Base.Int.{ℤ, pos, ltb_ℤ, eqb_ℤ}
use brollyzapper.Base.Int64.{add64}
use brollyzapper.Store.Rows.{Time, second}

-- Twenty-four hours.
abbrev pub spend_window : Time
spend_window = 86400 * second

abbrev pub max_window_attempts : ℕ
max_window_attempts = 5000

pub record SpendAttempt : Type 0 where
  pub key : String
  pub at : Time
  pub msat : ℤ

-- The part of the guard's state that the cap reads and writes.
pub record Caps : Type 0 where
  pub spend_attempts : List SpendAttempt
  pub max_spend_msat : ℤ
  pub max_payment_msat : ℤ

-- `attempt.At.After(now.Add(-SpendWindow))`
abbrev pub is_inside : Time → SpendAttempt → Bool
is_inside now a = ltb now (a.at + spend_window)

abbrev pub kept : Time → List SpendAttempt → List SpendAttempt
kept now xs = select (is_inside now) xs

-- The running sum, on int64.
unfoldable pub sum_from : ℤ → List SpendAttempt → ℤ
sum_from used [] = used
sum_from used (a ∷ xs) = sum_from (add64 used a.msat) xs

-- `spendWindowUsed`
unfoldable pub spend_window_used : List SpendAttempt → Time → ℤ × List SpendAttempt
unfolding sum_from
spend_window_used xs now = (sum_from (pos 0) (kept now xs), kept now xs)

pub data SpendRefusal : Type 0 where
  over_payment_cap too_many_attempts over_spend_cap : SpendRefusal

-- The three refusals, in their order.
unfoldable pub refusal : ℕ → ℤ → ℤ × List SpendAttempt → Caps → Option SpendRefusal
refusal bound cost (used, xs) st =
    if ltb_ℤ st.max_payment_msat cost
    then some over_payment_cap
    else if leb bound (length xs)
    then some too_many_attempts
    else if ltb_ℤ st.max_spend_msat (add64 used cost)
    then some over_spend_cap
    else none

unfoldable pub record_attempt :
    Option SpendRefusal → SpendAttempt → Time → Caps → Option SpendRefusal × Caps
record_attempt (some e) a now st = (some e, st)
record_attempt none a now st =
    (none, record st { spend_attempts = kept now st.spend_attempts ++ (a ∷ []) })

-- The decision about an attempt that was priced: `now` is the clock for the window, and the attempt
-- carries the clock of its record.
unfoldable pub intercept : ℕ → SpendAttempt → Time → Caps → Option SpendRefusal × Caps
unfolding refusal spend_window_used record_attempt
intercept bound a now st =
    record_attempt (refusal bound a.msat (spend_window_used st.spend_attempts now) st) a now st

-- What remains after one record with the key is taken out.
unfoldable pub return_failed : String → ℤ → List SpendAttempt → List SpendAttempt
return_failed key refunded [] = []
return_failed key refunded (a ∷ xs) =
    let hit = str_eq a.key key && eqb_ℤ refunded (pos 0) in
    let rest = return_failed key (if hit then a.msat else refunded) xs in
    if hit then rest else a ∷ rest

-- `ObserveResponse` of a payment that the node reports as failed.
unfoldable pub observe_failed : String → Time → Caps → Caps
unfolding return_failed
observe_failed key now st = record st {
  spend_attempts = return_failed key (pos 0) (kept now st.spend_attempts);
}
