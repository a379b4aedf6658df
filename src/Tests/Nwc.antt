-- ===== src/Tests/Nwc.antt =====
-- The results on the budgets of connections.
use brollyzapper.Base.{refl, true, false, some, List, [], ◌∷◌, arith, Option}
use brollyzapper.Base.Int.{pos, ◌+ℤ◌}
use brollyzapper.Store.Rows.{Time}
use brollyzapper.Nwc.Budget.{Connection}
use brollyzapper.Nwc.Windows.{Row}
use brollyzapper.Nwc.Corrections.{Priced}

-- 1000 sat a day, of which 400 are spent; the window is open at noon.
abbrev pub daily : Connection
daily = record {
  id = 1;
  budget_msat = some (pos 1000000);
  budget_used_msat = pos 400000;
  budget_renews_at = some 1080000;
  revoked = false;
}

abbrev dropped : Connection
dropped = record daily { id = 2; revoked = true }

abbrev pub pairings : List Connection
pairings = daily ∷ dropped ∷ []

abbrev tomorrow : Option Time
tomorrow = some 1086400000000000

pub daily-Row : Row 1 pairings daily
daily-Row = record { single = refl; found = refl }

-- The window of yesterday has ended: a first request, one that does not fit beside it, and one that does.
abbrev yesterday : Connection
yesterday = record daily { budget_renews_at = some 900000 }

priced : Priced (pos 300000) (pos 10000)
unfolding ◌+ℤ◌
priced = record { amount_nonneg = omega arith; fee_nonneg = omega arith; sum_fits = omega arith }
