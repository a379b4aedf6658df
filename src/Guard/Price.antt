-- ===== src/Guard/Price.antt =====
-- guard/spendcap.go, `priceAttempt`: what a payment may cost the node.
use brollyzapper.Base.{
  ℕ, ◌≡◌, ap, ◌∙◌, sym, subst, Bool, false, ◌&&◌, ◌||◌, ◌⊎◌, inl, inr, Option, none, some, String,
  str_eq, arith, if◌then◌else◌, Bool-cases, Option-cases,
}
use brollyzapper.Base.Int.{ℤ, pos, negsuc, ◌+ℤ◌, ◌-ℤ◌, ◌*ℤ◌, ◌≤ℤ◌, ltb_ℤ, leb_ℤ, eqb_ℤ, int_laws}
use brollyzapper.Base.Int64.{
  Fits, add64, sub64, mul64, wrap64-Fits, wrap64_of_Fits, add64_of_Fits, sub64_of_Fits,
}

-- The fields of `routerrpc.SendPaymentRequest` that are read.
pub record SendRequest : Type 0 where
  pub amt_msat : ℤ
  pub amt : ℤ
  pub payment_request : String
  pub fee_limit_msat : ℤ
  pub fee_limit_sat : ℤ

pub data Price : Type 0 where
  costs : ℤ → Price
  too_large unreadable_invoice no_amount : Price

-- 2^62
abbrev pub max_countable_msat : ℕ
max_countable_msat = 4611686018427387904

abbrev pub countable_sats : ℤ → Bool
countable_sats sats = leb_ℤ (pos 0) sats && leb_ℤ sats (pos 4611686018427387)

-- The msat field, or the sat field a thousandfold where it is zero and can be counted.
unfoldable pub in_msat : ℤ → ℤ → Option ℤ
in_msat msat sats =
    if eqb_ℤ msat (pos 0)
    then if countable_sats sats then some (mul64 sats (pos 1000)) else none
    else some msat

-- The invoice's own amount, where it names one. `decode` is the node's `DecodePayReq`: `none` is
-- its error, and otherwise the amount that the invoice names, 0 for none.
unfoldable pub invoiced : (String → Option ℤ) → String → ℤ → Option ℤ
invoiced decode bolt11 amount = if str_eq bolt11 "" then some amount else elim (decode bolt11) [
  | none ↦ none
  | some named ↦ if ltb_ℤ (pos 0) named then some named else some amount
]

abbrev pub priced : ℤ → ℤ → Price
priced amount fee =
    if leb_ℤ amount (pos 0)
    then no_amount
    else if ltb_ℤ fee (pos 0) || ltb_ℤ (sub64 (pos max_countable_msat) fee) amount
    then too_large
    else costs (add64 amount fee)

abbrev pub with_fee : SendRequest → ℤ → Price
with_fee req amount = elim (in_msat req.fee_limit_msat req.fee_limit_sat) [
  | none ↦ too_large
  | some fee ↦ priced amount fee
]

abbrev pub with_amount : (String → Option ℤ) → SendRequest → ℤ → Price
with_amount decode req amount = elim (invoiced decode req.payment_request amount) [
  | none ↦ unreadable_invoice
  | some a ↦ with_fee req a
]

unfoldable pub price_attempt : (String → Option ℤ) → SendRequest → Price
unfolding in_msat invoiced
price_attempt decode req = elim (in_msat req.amt_msat req.amt) [
  | none ↦ too_large
  | some amount ↦ with_amount decode req amount
]

mul_1000 : (s : ℤ) → pos 0 ≤ℤ s → s ≤ℤ pos 4611686018427387 → mul64 s (pos 1000) ≡ s *ℤ pos 1000
unfolding mul64 ◌*ℤ◌
mul_1000 (pos n) lo hi = wrap64_of_Fits _ (ground arith)
mul_1000 (negsuc n) lo hi = absurd (omega arith)

-- An amount in msat that a msat and a sat field stand for.
abbrev pub IsInMsat : ℤ → ℤ → ℤ → Type 0
IsInMsat msat sats a = (a ≡ msat) ⊎ ((msat ≡ pos 0) × (a ≡ sats *ℤ pos 1000))

in_msat-IsInMsat : (msat sats a : ℤ) → in_msat msat sats ≡ some a → IsInMsat msat sats a
unfolding in_msat
in_msat-IsInMsat msat sats a h = elim (Bool-cases (eqb_ℤ msat (pos 0))) [
  | inl zero ↦ elim (Bool-cases (countable_sats sats)) [
    | inl small ↦ inr (ground arith, ground (arith, mul_1000 sats))
    | inr large ↦ absurd (ground arith)
  ]
  | inr given ↦ inl (ground arith)
]

-- The amount of an attempt: what the invoice names, or, for one that names none or no invoice at
-- all, what the request says.
abbrev pub IsAmount : (String → Option ℤ) → SendRequest → ℤ → Type 0
IsAmount decode req a = (decode req.payment_request ≡ some a) ⊎ IsInMsat req.amt_msat req.amt a

invoiced-cases :
    (decode : String → Option ℤ) (bolt11 : String) (amount a : ℤ)
    → invoiced decode bolt11 amount ≡ some a
    → (decode bolt11 ≡ some a) ⊎ (a ≡ amount)
unfolding invoiced
invoiced-cases decode bolt11 amount a h = ground arith

in_msat-Fits : (msat sats a : ℤ) → Fits msat → in_msat msat sats ≡ some a → Fits a
unfolding in_msat mul64
in_msat-Fits msat sats a f h = ground (arith, wrap64-Fits (sats *ℤ pos 1000))

bounded :
    (amount fee cost : ℤ)
    → priced amount fee ≡ costs cost
    → (cost ≡ add64 amount fee)
      × (pos 1 ≤ℤ amount)
      × (pos 0 ≤ℤ fee)
      × (amount ≤ℤ sub64 (pos max_countable_msat) fee)
bounded amount fee cost h = (ground arith, ground arith, ground arith, ground arith)

exact_sum :
    (amount fee cost : ℤ)
    → Fits fee
    → priced amount fee ≡ costs cost
    → (cost ≡ amount +ℤ fee) × (pos 1 ≤ℤ amount) × (pos 0 ≤ℤ fee) × (cost ≤ℤ pos max_countable_msat)
exact_sum amount fee cost f h =
    let (e, lo, fee_lo, hi) = bounded amount fee cost h in
    let apart = sub64_of_Fits (pos max_countable_msat) fee (omega (int_laws, fee_lo, f.0, f.1)) in
    let hi' : amount ≤ℤ pos max_countable_msat -ℤ fee = subst (λ (x : ℤ). amount ≤ℤ x) apart hi in
    let sum = e ∙ add64_of_Fits amount fee (omega int_laws) in
    (sum, lo, fee_lo, subst (λ (x : ℤ). x ≤ℤ pos max_countable_msat) (sym sum) (omega int_laws))

-- What went into a price.
pub record Breakdown (decode : String → Option ℤ) (req : SendRequest) (cost : ℤ) : Type 0 where
  pub amount : ℤ
  pub fee : ℤ
  pub is_amount : IsAmount decode req amount
  pub is_fee : IsInMsat req.fee_limit_msat req.fee_limit_sat fee
  pub is_sum : cost ≡ amount +ℤ fee
  pub positive : pos 1 ≤ℤ amount
  pub fee_nonneg : pos 0 ≤ℤ fee
  pub countable : cost ≤ℤ pos max_countable_msat

steps :
    (decode : String → Option ℤ) (req : SendRequest) (cost : ℤ)
    → price_attempt decode req ≡ costs cost
    → (asked amount fee : ℤ) × (in_msat req.amt_msat req.amt ≡ some asked)
      × (invoiced decode req.payment_request asked ≡ some amount)
      × (in_msat req.fee_limit_msat req.fee_limit_sat ≡ some fee)
      × (priced amount fee ≡ costs cost)
unfolding price_attempt
steps decode req cost h = elim (Option-cases (in_msat req.amt_msat req.amt)) [
  | inl none_asked ↦ absurd (ground arith)
  | inr (asked, e) ↦ elim (Option-cases (invoiced decode req.payment_request asked)) [
    | inl unread ↦ absurd (ground arith)
    | inr (amount, e') ↦ elim (Option-cases (in_msat req.fee_limit_msat req.fee_limit_sat)) [
      | inl no_fee ↦ absurd (ground arith)
      | inr (fee, e'') ↦ (asked, amount, fee, e, e', e'', ground arith)
    ]
  ]
]

invoiced-IsAmount :
    (decode : String → Option ℤ) (req : SendRequest) (asked amount : ℤ)
    → in_msat req.amt_msat req.amt ≡ some asked
    → invoiced decode req.payment_request asked ≡ some amount
    → IsAmount decode req amount
invoiced-IsAmount decode req asked amount e e' =
    elim (invoiced-cases decode req.payment_request asked amount e') [
      | inl named ↦ inl named
      | inr same ↦
          inr (subst (IsInMsat req.amt_msat req.amt) (sym same) (in_msat-IsInMsat _ _ asked e))
    ]

-- For an int64 fee limit, an attempt that is priced is priced at exactly its amount and its fee limit,
-- in integers: the amount is what the invoice or the request names, and positive; the fee limit is
-- the request's and not negative; the sum is at most 2^62, so that neither a product nor the sum has
-- wrapped around.
pub price_attempt_exact :
    (decode : String → Option ℤ) (req : SendRequest) (cost : ℤ)
    → Fits req.fee_limit_msat
    → price_attempt decode req ≡ costs cost
    → Breakdown decode req cost
price_attempt_exact decode req cost f h =
    let (asked, amount, fee, e, e', e'', p) = steps decode req cost h in
    let (sum, lo, fee_lo, hi) = exact_sum amount fee cost (in_msat-Fits _ _ fee f e'') p in
    record {
      amount = amount;
      fee = fee;
      is_amount = invoiced-IsAmount decode req asked amount e e';
      is_fee = in_msat-IsInMsat _ _ fee e'';
      is_sum = sum;
      positive = lo;
      fee_nonneg = fee_lo;
      countable = hi;
    }

invoiced-named :
    (decode : String → Option ℤ) (bolt11 : String) (asked amount n : ℤ)
    → str_eq bolt11 "" ≡ false
    → decode bolt11 ≡ some n
    → pos 1 ≤ℤ n
    → invoiced decode bolt11 asked ≡ some amount
    → amount ≡ n
unfolding invoiced
invoiced-named decode bolt11 asked amount n given named lo h = ground arith

-- Where the request carries an invoice that names a positive amount, the price is that amount and
-- the fee limit, whatever amount the request itself claims.
pub price_attempt_invoice :
    (decode : String → Option ℤ) (req : SendRequest) (cost n : ℤ)
    → Fits req.fee_limit_msat
    → str_eq req.payment_request "" ≡ false
    → decode req.payment_request ≡ some n
    → pos 1 ≤ℤ n
    → price_attempt decode req ≡ costs cost
    → (fee : ℤ) × (cost ≡ n +ℤ fee)
      × (pos 0 ≤ℤ fee)
      × IsInMsat req.fee_limit_msat req.fee_limit_sat fee
price_attempt_invoice decode req cost n f given named lo h =
    let (asked, amount, fee, e, e', e'', p) = steps decode req cost h in
    let (sum, _, fee_lo, _) = exact_sum amount fee cost (in_msat-Fits _ _ fee f e'') p in
    let same = invoiced-named decode req.payment_request asked amount n given named lo e' in
    (fee, sum ∙ ap (λ (a : ℤ). a +ℤ fee) same, fee_lo, in_msat-IsInMsat _ _ fee e'')
