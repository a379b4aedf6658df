-- ===== src/Wallet/Freeze.antt =====
-- internal/wallet/deficit.go and the cutoff of wallet.go: the two reasons for which spending is held.
use brollyzapper.Base.{
  ◌-◌, ◌*◌, ◌≤◌, ◌≡◌, refl, false, Option, none, some, String, str_eq, arith, if◌then◌else◌, ltb,
}
use brollyzapper.Store.Rows.{Time, second, Db}
use brollyzapper.Store.Settings.{setting, set_setting, setting-set_setting}
use brollyzapper.Wallet.Codec.{Codec, Deficit, Answer, ok, err, unreadable_deficit}

-- Five minutes.
abbrev pub unresolved_after : Time
unresolved_after = 300 * second

-- The later of this process's start and five minutes ago (`now` is later than 1970 by more).
unfoldable pub unresolved_cutoff : Time → Time → Time
unresolved_cutoff started_at now =
    if ltb started_at (now - unresolved_after) then now - unresolved_after else started_at

unfoldable pub record_shortfall : Codec → Deficit → Db → Db
record_shortfall c d db = set_setting "deficit_state" (c.encode_deficit d) db

unfoldable pub clear_shortfall : Db → Db
clear_shortfall db = set_setting "deficit_state" "" db

-- An unreadable row holds spending: the answer is then an error and not `none`.
unfoldable pub deficit_of : Codec → Option String → Answer (Option Deficit)
deficit_of c none = ok none
deficit_of c (some raw) =
    if str_eq raw ""
    then ok none
    else elim (c.decode_deficit raw) [ none ↦ err unreadable_deficit | some d ↦ ok (some d) ]

unfoldable pub shortfall : Codec → Db → Answer (Option Deficit)
unfolding deficit_of
shortfall c db = deficit_of c (setting "deficit_state" db)

-- A shortfall that was recorded is read back as it was, if its text is not empty and decodes to it,
-- and a clearing lifts it.
pub shortfall-record_clear :
    (c : Codec) (d : Deficit) (db : Db)
    → c.decode_deficit (c.encode_deficit d) ≡ some d
    → str_eq (c.encode_deficit d) "" ≡ false
    → (shortfall c (record_shortfall c d db) ≡ ok (some d))
      × (shortfall c (clear_shortfall db) ≡ ok none)
unfolding shortfall record_shortfall clear_shortfall
shortfall-record_clear c d db decoded text = (
  rw (setting-set_setting "deficit_state" (c.encode_deficit d) db) (ground (arith, decoded, text)),
  rw (setting-set_setting "deficit_state" "" db) refl,
)

-- The cutoff lies neither before the start of the process nor more than five minutes back.
pub unresolved_cutoff_bounds :
    (started_at now : Time)
    → (started_at ≤ unresolved_cutoff started_at now)
      × (now - unresolved_after ≤ unresolved_cutoff started_at now)
unfolding unresolved_cutoff
unresolved_cutoff_bounds started_at now = ground arith
