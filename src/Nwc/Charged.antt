-- ===== src/Nwc/Charged.antt =====
-- What a request leaves on its connection's counter, by its answer.
use brollyzapper.Base.{
  ℕ, ◌≡◌, refl, sym, ap, subst, ◌∙◌, true, false, ◌⊎◌, inl, inr, some, List, if-both, if◌then◌else◌,
  Bool-cases, find_first,
}
use brollyzapper.Base.Int.{ℤ, pos, ◌+ℤ◌, ◌≤ℤ◌, eqb_ℤ, ltb_ℤ, int_laws}
use brollyzapper.Store.Rows.{Time, Db}
use brollyzapper.Store.Tx as Tx
use brollyzapper.Store.Ledger.Append.{max_msat, balance_msat}
use brollyzapper.Nwc.Budget.{
  Connection, has_connection, rolled, take_budget, fits, budget_correction,
}
use brollyzapper.Nwc.Windows.{Row, reserve_nwc_budget_takes}
use brollyzapper.Nwc.Corrections.{
  Priced, adjusted, total_exact, failed_exact, settled_exact, back_out, trued_up, plus_zero,
}
use brollyzapper.Nwc.Ladder.{
  Code, other, internal, restricted, quota_exceeded, unauthorized, insufficient, payment_failed,
  Response, error_response, preimage_response, Limits, Params, Spend, next_renewal, Cleared,
  total_of, PayResult, nothing_dispatched, unresolved, refused_by_route, went_through, result_of,
  nwc_pay, release, true_up, finish, payment_of, send_cleared, with_balance, pay_cleared,
}
use brollyzapper.Lnd.Payments.{PaymentResult, is_succeeded, is_failed, Router, send_payment}
use brollyzapper.Payments.Closing.{Env, closed, already_closed, non_terminal, booking_failed}
use brollyzapper.Payments.Pay.{
  Paid, not_dispatched, unmarked, not_taken_on, outcome_unknown, paid, pay_invoice,
}
use brollyzapper.Payments.Resolve.{World}
use brollyzapper.Nwc.RouteFee.{HasFeeAs, HasRouteFee, reserved-PaidFee, nwc_pay-HasFeeAs}

-- The counter after an answer, over what it was before the request: nothing for a refusal; the amount and
-- what the route took for a payment, or the whole reserve while its booking is open; and nothing or the
-- whole reserve for an answer that leaves the outcome open.
abbrev pub IsCharged : ℤ → Cleared → Response → ℤ → Type 0
IsCharged base c (preimage_response p fee) used =
    (used ≡ base +ℤ (c.amount +ℤ fee)) ⊎ (used ≡ base +ℤ (c.amount +ℤ c.max_fee_msat))
IsCharged base c (error_response other) used =
    (used ≡ base) ⊎ (used ≡ base +ℤ (c.amount +ℤ c.max_fee_msat))
IsCharged base c (error_response _) used = used ≡ base

-- What a payment's end comes to on the counter: nothing where nothing was sent or the node failed it; the
-- amount and the fee that the route took where the node's success was booked, or was by somebody else; and
-- the whole reserve where the end is not known, not final or not booked.
abbrev pub end_cost : Cleared → Paid → ℤ
end_cost c (not_dispatched e) = pos 0
end_cost c (not_taken_on e) = pos 0
end_cost c (unmarked e) = c.amount +ℤ c.max_fee_msat
end_cost c (outcome_unknown e) = c.amount +ℤ c.max_fee_msat
end_cost c (paid r (booking_failed e)) = c.amount +ℤ c.max_fee_msat
end_cost c (paid r non_terminal) = c.amount +ℤ c.max_fee_msat
end_cost c (paid r _) =
    if is_failed r
    then pos 0
    else if is_succeeded r
    then c.amount +ℤ r.fee_msat
    else c.amount +ℤ c.max_fee_msat

-- Nothing is paid where the balance cannot be read or does not cover the total.
abbrev pub balance_cost : Cleared → Tx.Result (ℤ × Db) → Paid → ℤ
balance_cost c (Tx.err e) p = pos 0
balance_cost c (Tx.ok (balance, db)) p = if ltb_ℤ balance (total_of c) then pos 0 else end_cost c p

-- The row of the connection with the counter that the answer and the cost go with.
abbrev pub IsCharge : ℕ → ℤ → Cleared → ℤ → Response × World → Type 0
IsCharge i base c cost (response, w) =
    (row : Connection) × (find_first (has_connection i) w.budgets ≡ some row)
    × IsCharged base c response row.budget_used_msat
    × (row.budget_used_msat ≡ base +ℤ cost)

plus_nothing : (a : ℤ) → a ≡ a +ℤ pos 0
plus_nothing a = plus_zero a (pos 0) refl

-- Before the payment: the whole reserve is on the counter.
record Taken (i : ℕ) (base : ℤ) (c : Cleared) (cs : List Connection) : Type 0 where
  row : Connection
  found : find_first (has_connection i) cs ≡ some row
  used : row.budget_used_msat ≡ base +ℤ (c.amount +ℤ c.max_fee_msat)
  base_nonneg : pos 0 ≤ℤ base
  priced : Priced c.amount c.max_fee_msat

released :
    (i : ℕ) (base : ℤ) (c : Cleared) (w : World)
    → Taken i base c w.budgets
    → (row : Connection) × (find_first (has_connection i) (release i c w).budgets ≡ some row)
      × (row.budget_used_msat ≡ base)
released i base c w t =
    let sum : t.row.budget_used_msat +ℤ budget_correction false c.amount c.max_fee_msat (pos 0)
        ≡ base =
      rw t.used (
        rw (failed_exact c.amount c.max_fee_msat t.priced)
          (back_out base c.amount c.max_fee_msat)) in
    let (row, found, exact) =
      adjusted i (budget_correction false c.amount c.max_fee_msat (pos 0)) w.budgets t.row t.found
        (subst (λ (x : ℤ). pos 0 ≤ℤ x) (sym sum) t.base_nonneg) in
    (row, found, exact ∙ sum)

trued_at :
    (i : ℕ) (base fee : ℤ) (c : Cleared) (w : World)
    → Taken i base c w.budgets
    → pos 0 ≤ℤ fee
    → fee ≤ℤ pos max_msat
    → (row : Connection) × (find_first (has_connection i) (true_up i c fee w).budgets ≡ some row)
      × (row.budget_used_msat ≡ base +ℤ (c.amount +ℤ fee))
trued_at i base fee c w t lo hi =
    let p = t.priced in
    let exact = settled_exact c.amount c.max_fee_msat fee p lo hi in
    let sum : t.row.budget_used_msat +ℤ budget_correction true c.amount c.max_fee_msat fee
        ≡ base +ℤ (c.amount +ℤ fee) =
      rw t.used (rw exact (trued_up base c.amount c.max_fee_msat fee)) in
    let base_lo = t.base_nonneg in
    let amount_lo = p.amount_nonneg in
    let above : pos 0 ≤ℤ base +ℤ (c.amount +ℤ fee) = omega int_laws in
    elim (Bool-cases (eqb_ℤ (budget_correction true c.amount c.max_fee_msat fee) (pos 0))) [
      | inl nothing ↦ rw nothing (t.row, t.found, plus_zero t.row.budget_used_msat _ nothing ∙ sum)
      | inr something ↦
          let (row, found, e) =
            adjusted i (budget_correction true c.amount c.max_fee_msat fee) w.budgets t.row t.found
              (subst (λ (x : ℤ). pos 0 ≤ℤ x) (sym sum) above) in
          rw something (row, found, e ∙ sum)
    ]

refusal-IsCharged :
    (base : ℤ) (c : Cleared) (code : Code) (used : ℤ)
    → used ≡ base
    → IsCharged base c (error_response code) used
refusal-IsCharged base c other used h = inl h
refusal-IsCharged base c internal used h = h
refusal-IsCharged base c restricted used h = h
refusal-IsCharged base c quota_exceeded used h = h
refusal-IsCharged base c unauthorized used h = h
refusal-IsCharged base c insufficient used h = h
refusal-IsCharged base c payment_failed used h = h

released-IsCharge :
    (i : ℕ) (base : ℤ) (c : Cleared) (code : Code) (w : World)
    → Taken i base c w.budgets
    → IsCharge i base c (pos 0) (error_response code, release i c w)
released-IsCharge i base c code w t =
    let (row, found, e) = released i base c w t in
    (row, found, refusal-IsCharged base c code row.budget_used_msat e, e ∙ plus_nothing base)

abbrev result_cost : Cleared → PayResult → ℤ
result_cost c (nothing_dispatched code) = pos 0
result_cost c unresolved = c.amount +ℤ c.max_fee_msat
result_cost c refused_by_route = pos 0
result_cost c (went_through p fee false) = c.amount +ℤ fee
result_cost c (went_through p fee true) = c.amount +ℤ c.max_fee_msat

finish-IsCharge :
    (i : ℕ) (base : ℤ) (c : Cleared) (res : PayResult) (w : World)
    → HasFeeAs res
    → Taken i base c w.budgets
    → IsCharge i base c (result_cost c res) (finish i c res w)
unfolding finish
finish-IsCharge i base c (nothing_dispatched code) w f t = released-IsCharge i base c code w t
finish-IsCharge i base c unresolved w f t = (t.row, t.found, inr t.used, t.used)
finish-IsCharge i base c refused_by_route w f t = released-IsCharge i base c payment_failed w t
finish-IsCharge i base c (went_through p fee false) w f t =
    let (row, found, e) = trued_at i base fee c w t f.0 f.1 in (row, found, inl e, e)
finish-IsCharge i base c (went_through p fee true) w f t = (t.row, t.found, inr t.used, t.used)

result_of-cost :
    (c : Cleared) (r : PaymentResult)
    → result_cost c (result_of r) ≡ (
        if is_failed r
        then pos 0
        else if is_succeeded r
        then c.amount +ℤ r.fee_msat
        else c.amount +ℤ c.max_fee_msat)
result_of-cost c r = elim (Bool-cases (is_failed r)) [
  | inl refused ↦ rw refused refl
  | inr unrefused ↦ elim (Bool-cases (is_succeeded r)) [
    | inl done ↦ rw (unrefused, done) refl
    | inr neither ↦ rw (unrefused, neither) refl
  ]
]

nwc_pay-cost : (c : Cleared) (p : Paid) → result_cost c (nwc_pay p) ≡ end_cost c p
unfolding nwc_pay
nwc_pay-cost c (not_dispatched e) = refl
nwc_pay-cost c (not_taken_on e) = refl
nwc_pay-cost c (unmarked e) = refl
nwc_pay-cost c (outcome_unknown e) = refl
nwc_pay-cost c (paid r (booking_failed e)) =
    if-both (λ (x : PayResult). result_cost c x ≡ c.amount +ℤ c.max_fee_msat) (is_succeeded r)
      (λ _. refl) (λ _. refl)
nwc_pay-cost c (paid r non_terminal) = refl
nwc_pay-cost c (paid r closed) = result_of-cost c r
nwc_pay-cost c (paid r already_closed) = result_of-cost c r

-- The payment that is made once the balance covers it.
abbrev pub payment_end : Env → Time → Router → Spend → Limits → Params → Cleared → Db → Paid
payment_end env now node s limits params c db =
    (pay_invoice env now node (payment_of s limits params c) db).0

send_cleared-IsCharge :
    (env : Env) (now : Time) (node : Router) (s : Spend) (limits : Limits) (params : Params)
    (c : Cleared) (base : ℤ) (w : World)
    → HasRouteFee (send_payment node params.invoice c.max_fee_msat)
    → Taken limits.id base c w.budgets
    → IsCharge limits.id base c
        (end_cost c (payment_end env now node s limits params c w.db))
        (send_cleared env now node s limits params c w)
unfolding send_cleared pay_invoice
send_cleared-IsCharge env now node s limits params c base w f t =
    subst (λ (x : ℤ). IsCharge limits.id base c x (send_cleared env now node s limits params c w))
      (nwc_pay-cost c (payment_end env now node s limits params c w.db))
      (finish-IsCharge limits.id base c _ _
        (nwc_pay-HasFeeAs _ (reserved-PaidFee env now node (payment_of s limits params c) _ f)) t)

balance-IsCharge :
    (env : Env) (now : Time) (node : Router) (s : Spend) (limits : Limits) (params : Params)
    (c : Cleared) (base : ℤ) (q : Tx.Result (ℤ × Db)) (w : World)
    → HasRouteFee (send_payment node params.invoice c.max_fee_msat)
    → Taken limits.id base c w.budgets
    → IsCharge limits.id base c
        (balance_cost c q (payment_end env now node s limits params c w.db))
        (with_balance env now node s limits params c q w)
balance-IsCharge env now node s limits params c base (Tx.err e) w f t =
    released-IsCharge limits.id base c internal w t
balance-IsCharge env now node s limits params c base (Tx.ok (balance, db)) w f t =
    elim (Bool-cases (ltb_ℤ balance (total_of c))) [
      | inl short ↦ rw short (released-IsCharge limits.id base c insufficient w t)
      | inr covered ↦ rw covered (send_cleared-IsCharge env now node s limits params c base w f t)
    ]

-- For a live connection whose budget has room for the amount and the fee reserve, which lie within the
-- supply together, and a counter that the roll leaves at 0 or above; and for a node whose fees are from 0
-- to the supply: the counter afterwards is what the roll left and the cost of the payment's end, exactly:
-- nothing where the balance cannot be read or is short, where nothing was sent, or where the node failed the
-- payment; the amount and the fee that the route took where the node's success is booked, by this
-- call or another; and the amount with the whole fee reserve where the end is unknown or its booking failed. And the answer goes with it: a
-- preimage is only given where the amount was charged, and an error other than the open one where nothing was.
pub pay_cleared_charges :
    (env : Env) (now : Time) (node : Router) (s : Spend) (limits : Limits) (params : Params)
    (c : Cleared) (w : World) (row : Connection)
    → Row limits.id w.budgets row
    → Priced c.amount c.max_fee_msat
    → pos 0 ≤ℤ rolled (next_renewal s limits now) now row
    → fits (next_renewal s limits now) now (total_of c) row ≡ true
    → HasRouteFee (send_payment node params.invoice c.max_fee_msat)
    → IsCharge limits.id
        (rolled (next_renewal s limits now) now row)
        c
        (balance_cost c (balance_msat w.db) (payment_end env now node s limits params c w.db))
        (pay_cleared env now node s limits params c w)
unfolding pay_cleared
pay_cleared_charges env now node s limits params c w row r p lo room f =
    let next = next_renewal s limits now in
    let (cs, e, after, used, _) =
      reserve_nwc_budget_takes limits.id (total_of c) now next w.budgets row r room in
    rw e (
      balance-IsCharge env now node s limits params c (rolled next now row) (balance_msat w.db)
        (record w { budgets = cs }) f
        (record {
          row = take_budget next now (total_of c) row;
          found = after.found;
          used =
              used
              ∙ ap (λ (x : ℤ). rolled next now row +ℤ x) (total_exact c.amount c.max_fee_msat p);
          base_nonneg = lo;
          priced = p;
        }))
