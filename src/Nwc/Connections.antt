-- ===== src/Nwc/Connections.antt =====
-- store/nwc.go: the life of a pairing's row: its limits, its panics, its pause, and its end.
use brollyzapper.Base.{
  ℕ, ◌+◌, ◌==◌, Bool, true, false, not, ◌&&◌, Option, none, some, List, [], ◌∷◌, String, str_eq,
  if◌then◌else◌, any, find_first, select, length, update_where,
}
use brollyzapper.Base.Int.{ℤ, pos}
use brollyzapper.Store.Rows.{Time, unix}
use brollyzapper.Nwc.Ladder.{Period, daily, weekly, monthly, never}

-- The columns that these operations read or write. An unset period and a zero renewal are NULL.
pub record Pairing : Type 0 where
  pub id : ℕ
  pub permissions : List String
  pub budget_msat : Option ℤ
  pub budget_period : Option Period
  pub budget_renews_at : Option ℕ
  pub max_payment_msat : Option ℤ
  pub created_at : ℕ
  pub revoked : Bool
  pub panic_count : ℕ
  pub paused_reason : String
  pub paused_at : Option ℕ

-- 100,000 sat a day, 25,000 sat at once.
abbrev pub default_connection_budget_msat : ℤ
default_connection_budget_msat = pos 100000000

abbrev pub default_connection_max_payment_msat : ℤ
default_connection_max_payment_msat = pos 25000000

abbrev pub has_pairing : ℕ → Pairing → Bool
has_pairing i p = p.id == i

abbrev pub paused : Pairing → Bool
paused p = not (str_eq p.paused_reason "")

abbrev pub can_pay_with : List String → Bool
can_pay_with permissions = any (λ s. str_eq s "pay") permissions

abbrev pub is_active : Pairing → Bool
is_active p = not p.revoked && not (paused p)

-- `ActiveNWCConnections` in the table's order, and `CountPayingNWCConnections`.
unfoldable pub active_nwc_connections : List Pairing → List Pairing
active_nwc_connections ps = select is_active ps

unfoldable pub count_paying_nwc_connections : List Pairing → ℕ
unfolding active_nwc_connections
count_paying_nwc_connections ps =
    length (select (λ p. can_pay_with p.permissions) (active_nwc_connections ps))

-- `time.AddDate` by months and days, on the columns' seconds, and `strings.TrimSpace`.
pub record Calendar : Type 0 where
  pub add_date : ℕ → ℕ → ℕ → ℕ
  pub trim_space : String → String

abbrev pub next_window : Calendar → ℕ → Period → Option ℕ
next_window c start daily = some (c.add_date 0 1 start)
next_window c start weekly = some (c.add_date 0 7 start)
next_window c start monthly = some (c.add_date 1 0 start)
next_window c start never = none

abbrev pub or_default : {A : Type 0} → Option A → A → Option A
or_default none d = some d
or_default (some a) d = some a

abbrev pub or_daily : Option Period → Period
or_daily none = daily
or_daily (some p) = p

-- What `UpdateNWCConnectionLimits` asks for, by the policy. `none` for a limit is one that is not set.
pub data LimitPolicy : Type 0 where
  no_limits default_limits : LimitPolicy

-- `withDefaultLimits`, as far as the budget and the limit for one payment go.
abbrev pub with_default : LimitPolicy → List String → Option ℤ → ℤ → Option ℤ
with_default no_limits permissions limit d = limit
with_default default_limits permissions limit d =
    if can_pay_with permissions then or_default limit d else limit

abbrev pub window_for : Calendar → ℕ → Option ℕ → Period → Option ℕ
window_for c now none period = next_window c now period
window_for c now (some at) period = some at

-- A budget keeps its period and its window, or starts one; without a budget there is neither.
abbrev pub with_window : Calendar → ℕ → Option ℤ → Pairing → Pairing
with_window c now none p = record p {
  budget_msat = none;
  budget_period = none;
  budget_renews_at = none;
}
with_window c now (some budget) p = record p {
  budget_msat = some budget;
  budget_period = some (or_daily p.budget_period);
  budget_renews_at = window_for c now p.budget_renews_at (or_daily p.budget_period);
}

abbrev pub limited :
    Calendar → Time → List String → Option ℤ → Option ℤ → LimitPolicy → Pairing → Pairing
limited c now permissions budget max_payment policy p =
    record (with_window c (unix now)
      (with_default policy permissions budget default_connection_budget_msat) p) {
        permissions = permissions;
        max_payment_msat =
            with_default policy permissions max_payment default_connection_max_payment_msat;
      }

abbrev pub is_live : ℕ → Pairing → Bool
is_live i p = has_pairing i p && not p.revoked

unfoldable pub update_nwc_connection_limits :
    Calendar
    → ℕ
    → List String
    → Option ℤ
    → Option ℤ
    → LimitPolicy
    → Time
    → List Pairing
    → Bool × List Pairing
update_nwc_connection_limits c i permissions budget max_payment policy now ps = (
  any (is_live i) ps,
  update_where (is_live i) (limited c now permissions budget max_payment policy) ps,
)

abbrev pub count_panic : Pairing → Pairing
count_panic p = record p { panic_count = p.panic_count + 1 }

-- `RETURNING panic_count`; 0 where no row is live.
unfoldable pub note_nwc_panic : ℕ → List Pairing → ℕ × List Pairing
note_nwc_panic i ps = (
  elim (find_first (is_live i) ps) [ none ↦ 0 | some p ↦ p.panic_count + 1 ],
  update_where (is_live i) count_panic ps,
)

abbrev pub is_running : ℕ → Pairing → Bool
is_running i p = is_live i p && not (paused p)

abbrev pub set_paused : String → Time → Pairing → Pairing
set_paused reason at p = record p { paused_reason = reason; paused_at = some (unix at) }

-- `false` is the error of a blank reason.
unfoldable pub pause_nwc_connection :
    Calendar → ℕ → String → Time → List Pairing → Bool × List Pairing
pause_nwc_connection c i reason at ps =
    if str_eq (c.trim_space reason) ""
    then (false, ps)
    else (true, update_where (is_running i) (set_paused reason at) ps)

abbrev pub is_held : ℕ → Pairing → Bool
is_held i p = is_live i p && paused p

abbrev pub set_running : Pairing → Pairing
set_running p = record p { paused_reason = ""; paused_at = none; panic_count = 0 }

unfoldable pub resume_nwc_connection : ℕ → List Pairing → Bool × List Pairing
resume_nwc_connection i ps = (any (is_held i) ps, update_where (is_held i) set_running ps)

abbrev pub set_revoked : Pairing → Pairing
set_revoked p = record p { revoked = true }

unfoldable pub revoke_nwc_connection : ℕ → List Pairing → Bool × List Pairing
revoke_nwc_connection i ps = (any (is_live i) ps, update_where (is_live i) set_revoked ps)

pub data Change : Type 0 where
  limit : ℕ → List String → Option ℤ → Option ℤ → LimitPolicy → Time → Change
  panic : ℕ → Change
  pause : ℕ → String → Time → Change
  resume revoke : ℕ → Change

unfoldable pub change : Calendar → Change → List Pairing → List Pairing
change c (limit i permissions budget max_payment policy now) ps =
    (update_nwc_connection_limits c i permissions budget max_payment policy now ps).1
change c (panic i) ps = (note_nwc_panic i ps).1
change c (pause i reason at) ps = (pause_nwc_connection c i reason at ps).1
change c (resume i) ps = (resume_nwc_connection i ps).1
change c (revoke i) ps = (revoke_nwc_connection i ps).1

abbrev pub changes : Calendar → List Change → List Pairing → List Pairing
changes c [] ps = ps
changes c (x ∷ xs) ps = changes c xs (change c x ps)
