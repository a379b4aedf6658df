-- ===== src/Nwc/Ladder.antt =====
-- nwc/pay.go, `payInvoice`, with the adapter of cmd/brollyzapper/nwc.go.
pub mod Rungs
pub mod Payout
pub use brollyzapper.Nwc.Ladder.Rungs.{
  Bolt11, Cleared, Code, Gate, Limits, Params, Period, Response, Spend, held_by, is_expired, is_on,
  is_own, is_within, may_send, next_renewal, payable, payable_at, payable_invoice, priced, readable,
  require, total_of, ◌>>=◌, ◌>>◌, error_response, preimage_response, stop, pass, other, internal,
  restricted, quota_exceeded, unauthorized, insufficient, payment_failed, daily, weekly, monthly,
  never,
}
unfoldable pub use brollyzapper.Nwc.Ladder.Rungs.{send_enabled, unresolved_payments, gates}
pub use brollyzapper.Nwc.Ladder.Payout.{
  PayResult, after_gates, code_of, payment_of, release, result_of, true_up, unbooked_result,
  with_balance, with_budget, nothing_dispatched, unresolved, refused_by_route, went_through,
}
unfoldable pub use brollyzapper.Nwc.Ladder.Payout.{
  nwc_pay, finish, send_cleared, pay_cleared, nwc_pay_invoice,
}
