-- ===== src/Nwc/Amount.antt =====
-- nwc/pay.go, `payableAmount`: what a pay_invoice request pays.
use brollyzapper.Base.{◌≡◌, not, ◌&&◌, ◌⊎◌, arith, if◌then◌else◌}
use brollyzapper.Base.Int.{ℤ, pos, ◌≤ℤ◌, ltb_ℤ, eqb_ℤ}
use brollyzapper.Store.Ledger.Append.{max_msat}

-- The amount, or the refusal's sentence.
pub data Payable : Type 0 where
  pays : ℤ → Payable
  overridden not_payable no_amount : Payable

unfoldable pub payable_amount : ℤ → ℤ → Payable
payable_amount invoice_msat requested =
    if ltb_ℤ (pos 0) invoice_msat && ltb_ℤ (pos 0) requested && not (eqb_ℤ requested invoice_msat)
    then overridden
    else if ltb_ℤ (pos 0) invoice_msat
    then pays invoice_msat
    else if ltb_ℤ (pos max_msat) requested
    then not_payable
    else if ltb_ℤ (pos 0) requested
    then pays requested
    else no_amount

-- What is paid is positive: it is the invoice's own amount, or, for an invoice that names none, what
-- was requested, which then is within the supply.
pub payable_amount_sound :
    (invoice_msat requested a : ℤ)
    → payable_amount invoice_msat requested ≡ pays a
    → (pos 1 ≤ℤ a)
      × ((a ≡ invoice_msat) ⊎ ((a ≡ requested) × (invoice_msat ≤ℤ pos 0) × (a ≤ℤ pos max_msat)))
unfolding payable_amount
payable_amount_sound invoice_msat requested a h = ground arith
