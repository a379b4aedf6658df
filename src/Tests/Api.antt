-- ===== src/Tests/Api.antt =====
-- The results on the limiter.
use brollyzapper.Base.{◌≡◌, refl, true, false, arith, if◌then◌else◌, [], ◌∷◌, str_eq}
use brollyzapper.Api.Limiter.{Limiter, allow_key}
use brollyzapper.Api.Windows.{IsCounted, allow_key_limits}
use brollyzapper.Tests.Fixtures.{noon}

-- One caller, who came a second ago and two hours ago.
abbrev busy : Limiter
busy = record {
  hits = λ k. if str_eq k "a" then 992800000000000 ∷ 999999000000000 ∷ [] else [];
  swept = 0;
}

allowed : (allow_key 2 10 "a" noon busy).0 ≡ true
unfolding allow_key
allowed = refl

-- A limit of one a minute is used up.
refused : (allow_key 1 10 "a" noon busy).0 ≡ false
unfolding allow_key
refused = refl

allow_key_limits_example : IsCounted 2 10 "a" noon busy (allow_key 2 10 "a" noon busy)
allow_key_limits_example = allow_key_limits 2 10 "a" noon busy ((omega arith, tt), (tt, tt))
