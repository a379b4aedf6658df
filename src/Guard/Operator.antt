-- ===== src/Guard/Operator.antt =====
-- guard/operator.go and guard/authorisation.go, the operator's controls. The state is the stored one together
-- with the operator's file, of which the code is kept. The rows of the trail are listed as
-- `auditAuthorisation` is called, before its budget.
pub mod Rules
pub mod Calls
pub use brollyzapper.Guard.Operator.Rules.{
  Control, Change, Authorisation, OperatorState, authorisation_ttl, max_authorisation_attempts,
  control_eq, bool_eq, TextFunctions, normalise_code, matches, expired, DiscardReason, Outcome, Row,
  Refusal, Answer, sending, spend_cap, payment_cap, other_control, discard_expired, offered_against,
  too_many_wrong, superseded, issued, authorised, tightening, wrong_code, discarded, invalid_change,
  state_unreadable, not_a_loosening, cap_pair, no_code, file_unwritten, state_unwritten,
  authorisation_required, grant_expired, different_change, grant_spent, code_wrong,
}
unfoldable pub use brollyzapper.Guard.Operator.Rules.{
  change_eq, valid, loosens, already_has, apply, check_cap_pair,
}
pub use brollyzapper.Guard.Operator.Calls.{
  Write, Disk, clear_authorisation_file, clear_grant, swept_rows, sweep_grant,
  sweep_expired_authorisation, Verdict, judge_code, under_lock, refuse, commit_redeemed, Io,
  superseded_rows, with_code, request_swept, unread, unsaved, saved, ungranted, redeemed, ended,
  miscounted,
}
unfoldable pub use brollyzapper.Guard.Operator.Calls.{
  replace_authorisation, sweep_expired, judge, settle_verdict, redeem, commit_change, apply_change,
  install_grant, request_authorisation,
}
