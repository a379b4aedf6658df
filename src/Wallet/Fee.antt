-- ===== src/Wallet/Fee.antt =====
-- internal/wallet/fee.go: the one fee number.
use brollyzapper.Base.{
  ℕ, ◌*◌, ◌/◌, ◌≤◌, ◌<◌, ◌≡◌, refl, subst, Bool, true, false, ◌||◌, Option, none, some, String,
  arith, if◌then◌else◌,
}
use brollyzapper.Base.Int.{ℤ, pos, ◌*ℤ◌, ◌/ℤ◌, ◌≤ℤ◌, ltb_ℤ, max_ℤ}
use brollyzapper.Base.Int64.{wrap64, mul64, wrap64_of_Fits}
use brollyzapper.Store.Rows.{Db}
use brollyzapper.Store.Settings.{setting}
use brollyzapper.Store.Ledger.Append.{max_msat}
use brollyzapper.Wallet.Codec.{
  Codec, Answer, ok, err, ◌>>=◌, >>=-eq-ok, unreadable_setting, unpriceable,
}

abbrev pub ppm_divisor : ℕ
ppm_divisor = 1000000

abbrev pub default_max_fee_floor_msat : ℤ
default_max_fee_floor_msat = pos 10000

abbrev pub default_max_fee_ppm : ℤ
default_max_fee_ppm = pos 10000

unfoldable pub int_of : Codec → Option String → ℤ → Answer ℤ
int_of c none fallback = ok fallback
int_of c (some raw) fallback = elim (c.parse_int raw) [
  | none ↦ err unreadable_setting
  | some value ↦ if ltb_ℤ value (pos 0) then err unreadable_setting else ok value
]

unfoldable pub int_setting : Codec → String → ℤ → Db → Answer ℤ
unfolding int_of
int_setting c key fallback db = int_of c (setting key db) fallback

-- The larger of the floor and the proportional part, on int64.
unfoldable pub fee_of : ℤ → ℤ → ℤ → ℤ
fee_of amount floor ppm = max_ℤ floor (mul64 amount ppm /ℤ ppm_divisor)

abbrev pub is_priceable : ℤ → Bool
is_priceable amount = if ltb_ℤ amount (pos 0) || ltb_ℤ (pos max_msat) amount then false else true

unfoldable pub max_fee : Codec → ℤ → Db → Answer ℤ
unfolding int_setting fee_of
max_fee c amount db =
    if is_priceable amount
    then (do
      floor ← int_setting c "max_fee_floor_msat" default_max_fee_floor_msat db
      ppm ← int_setting c "max_fee_ppm" default_max_fee_ppm db
      ok (fee_of amount floor ppm))
    else err unpriceable

mul_pos : (a b : ℕ) → pos a *ℤ pos b ≡ pos (a * b)
unfolding ◌*ℤ◌
mul_pos a b = grind arith

div_pos : (a : ℕ) → pos a /ℤ 1000000 ≡ pos (a / 1000000)
unfolding ◌/ℤ◌
div_pos a = ground arith

-- While the product of the amount and the rate is an int64, the fee is the formula.
fee_of_exact :
    (amount floor ppm : ℕ)
    → amount * ppm ≤ 9223372036854775807
    → fee_of (pos amount) (pos floor) (pos ppm) ≡ max_ℤ (pos floor) (pos (amount * ppm / 1000000))
unfolding fee_of mul64
fee_of_exact amount floor ppm h =
    rw (mul_pos amount ppm)
      (rw (wrap64_of_Fits (pos (amount * ppm)) (omega arith)) (rw (div_pos (amount * ppm)) refl))

-- The fee number of an amount within the supply, with a floor and a rate that are set or defaulted:
-- the larger of the floor and amount * ppm / 1_000_000, while amount * ppm is an int64.
pub max_fee_exact :
    (c : Codec) (db : Db) (amount floor ppm : ℕ)
    → amount ≤ max_msat
    → int_setting c "max_fee_floor_msat" default_max_fee_floor_msat db ≡ ok (pos floor)
    → int_setting c "max_fee_ppm" default_max_fee_ppm db ≡ ok (pos ppm)
    → amount * ppm ≤ 9223372036854775807
    → max_fee c (pos amount) db ≡ ok (max_ℤ (pos floor) (pos (amount * ppm / 1000000)))
unfolding max_fee
max_fee_exact c db amount floor ppm h ef ep small =
    ground (arith, ef, ep, fee_of_exact amount floor ppm small)

wrapped_product :
    (n : ℕ) → 9223372036854775807 < n → n ≤ 18446744073709551616 → wrap64 (pos n) ≤ℤ pos 0
unfolding wrap64
wrapped_product n lo hi = ground arith

div_nonpos : (a : ℤ) → a ≤ℤ pos 0 → a /ℤ 1000000 ≤ℤ pos 0
unfolding ◌/ℤ◌
div_nonpos a h = ground arith

fee_of_wraps :
    (n : ℕ)
    → 922337203685477 < n
    → n ≤ 1844674407370955
    → fee_of (pos n) (pos 10000) (pos 10000) ≡ pos 10000
unfolding fee_of mul64 max_ℤ
fee_of_wraps n lo hi = rw (mul_pos n 10000) (
    ground (
      arith,
      div_nonpos (wrap64 (pos (n * 10000)))
          (wrapped_product (n * 10000) (omega arith) (omega arith)),
    ))

-- With the settings at their defaults, an amount above 922337203685477 msat and up to
-- 1844674407370955 msat, which lies within the supply, is priced at the floor of 10000 msat,
-- although one per cent of it is more than 9223372036854 msat: the product has wrapped around.
pub max_fee_wraps :
    (c : Codec) (db : Db) (n : ℕ)
    → setting "max_fee_floor_msat" db ≡ none
    → setting "max_fee_ppm" db ≡ none
    → 922337203685477 < n
    → n ≤ 1844674407370955
    → (max_fee c (pos n) db ≡ ok (pos 10000)) × (9223372036854 ≤ n * 10000 / 1000000)
unfolding max_fee int_setting
max_fee_wraps c db n ef ep lo hi = (ground (arith, ef, ep, fee_of_wraps n lo hi), omega arith)

int_of-nonneg :
    (c : Codec) (raw : Option String) (fallback a : ℤ)
    → pos 0 ≤ℤ fallback
    → int_of c raw fallback ≡ ok a
    → pos 0 ≤ℤ a
unfolding int_of
int_of-nonneg c none fallback a h e = ground arith
int_of-nonneg c (some raw) fallback a h e = ground arith

max_ℤ-left : (a b : ℤ) → a ≤ℤ max_ℤ a b
unfolding max_ℤ
max_ℤ-left a b = ground arith

fee_of-floor : (amount floor ppm : ℤ) → floor ≤ℤ fee_of amount floor ppm
unfolding fee_of
fee_of-floor amount floor ppm = max_ℤ-left floor (mul64 amount ppm /ℤ ppm_divisor)

ok_injective : {a b : ℤ} → ◌≡◌ {A = Answer ℤ} (ok a) (ok b) → a ≡ b
ok_injective h = cc

priced :
    (c : Codec) (amount : ℤ) (db : Db) (fee : ℤ)
    → max_fee c amount db ≡ ok fee
    → (int_setting c "max_fee_floor_msat" default_max_fee_floor_msat db >>= λ floor.
        int_setting c "max_fee_ppm" default_max_fee_ppm db >>= λ ppm. ok (fee_of amount floor ppm))
      ≡ ok fee
unfolding max_fee
priced c amount db fee h = ground arith

-- The fee number is never negative, whatever the settings hold and even where the product wraps.
pub max_fee_nonneg :
    (c : Codec) (amount : ℤ) (db : Db) (fee : ℤ) → max_fee c amount db ≡ ok fee → pos 0 ≤ℤ fee
unfolding int_setting
max_fee_nonneg c amount db fee h =
    let (floor, ef, k) =
      >>=-eq-ok (int_setting c "max_fee_floor_msat" default_max_fee_floor_msat db) _
        (priced c amount db fee h) in
    let (ppm, ep, e) = >>=-eq-ok (int_setting c "max_fee_ppm" default_max_fee_ppm db) _ k in
    let lo =
      int_of-nonneg c (setting "max_fee_floor_msat" db) default_max_fee_floor_msat floor
        (omega arith) ef in
    let above = fee_of-floor amount floor ppm in
    subst (λ (f : ℤ). pos 0 ≤ℤ f) (ok_injective e) (omega (arith, lo, above))
