-- ===== src/Lib.antt =====
-- BrollyZapper keeps a spending ceiling in front of a Lightning node: whatever is paid goes through
-- a ledger of its own, in SQLite, whose balance may never be overdrawn. This library models that
-- ledger and the wallet that guards it, with the limits in front of both.
--
-- The parts, and where they are modelled:
--
--   * internal/store: the tables. Store/Rows has the columns of `txns`, `balance_entries` and
--     `invoices`; Store/Tx a database transaction, a function from the tables to new tables or to
--     an error that rolls them back; Store/Settings the `settings` table (store.go).
--   * internal/store/balance.go, the ledger. Store/Ledger/Append has the choke point
--     `appendBalanceEntry`, with `inRange`, `insertTxn`, `BalanceMsat` and `AdjustBalance`;
--     Store/Ledger/Reserve has `ReserveSpend`; Store/Ledger/Close has `closeReservation` and its
--     users `SettleSpend`, `ReverseSpend` and `AssertPaymentOutcome`; Store/Ledger/Marks has the
--     dispatch marker, the resolver's counter and name, and the counts of unresolved payments. The
--     other modules of Store/Ledger are proofs: Sums and Invariant say what the books are, Steps,
--     Updates, Safety, ByHand, Closing, Settling and Marking that each operation keeps them,
--     Reserving, Effects, Fees and Once what each operation does.
--   * internal/store/invoices.go. Store/Invoices has `CreateInvoice`, `CreditSettledInvoice`,
--     `CountOpenInvoices` and `ExpireInvoices`; its proofs are in Credits and Redelivery.
--   * internal/wallet. Wallet/Fee has `MaxFee` (fee.go), Wallet/Freeze the recorded shortfall
--     (deficit.go) and `UnresolvedCutoff`, Wallet/Spender the operations of wallet.go with their
--     guards, and Wallet/History any sequence of them. Keeps, Guards, Ceiling and Receiving are
--     proofs.
--   * internal/store/nwc.go and internal/nwc/pay.go, the budget of a paired app. Nwc/Budget has
--     `ReserveNWCBudget`, `AdjustNWCBudget` and `BudgetCorrection`, Nwc/Amount `payableAmount`;
--     Windows, Spends and Corrections are proofs. The table of connections stands apart from the
--     ledger's.
--   * internal/api/ratelimit.go. Api/Limiter has `AllowKey` and its sweep; Api/Windows is proofs.
--   * internal/guard/spendcap.go, the cap inside the node's request path. Guard/Price has
--     `priceAttempt`, Guard/Window the window with `InterceptRequest` (from the price on) and
--     `ObserveResponse`. Guard/Log says what the cap promises, on a log that forgets nothing; Sums,
--     Refines and Caps are proofs.
--   * internal/guard/operator.go and authorisation.go, the operator's controls.
--     Guard/Operator/Rules has what loosens a control, Guard/Operator/Calls `RequestAuthorisation`,
--     `ApplyChange`, `redeem` and the sweep, with the failures of the disk. The stored state and
--     the operator's file are one record, and the rows of the trail are listed as they are raised.
--     Guard/Ceremony has the runs of calls; Grants, Loosening, Pair and File are proofs.
--   * internal/guard/guard.go, spend.go, orphans.go and rootkey.go, the root keys behind the two
--     credentials. Guard/Keys/World has what is stored, in the guard's state, in the credential
--     volume and at the node, Sweep `sweepPending` and `sweepOrphans`, Bake `bake`, and Sending
--     `RevokeSpend` and the renewals. A call is given what the node and the disk answer at each
--     step; a crash is an error at every later step. Revoking, Remembered, Recording, Baking,
--     Ending, Switch and Spared are proofs.
--   * internal/lnd/payments.go. Lnd/Payments has `SendPayment`, `TrackPayment` and `HasPayment`
--     over the streams of the node's client, which is the parameter `Router`; it also says whether
--     the caller's deadline passes while a payment is tracked.
--   * cmd/brollyzapper/payments.go. Payments/Closing has `closeReservation`, Payments/Pay
--     `payInvoice`, Payments/Resolve `resolvePendingPayments` with the query of store/balance.go
--     that it starts from. They call the wallet, the marks of the ledger, Lnd/Payments and the
--     budgets of Nwc. Keeps, Unsure, Named, Stale, Undone and Recovery are proofs.
--   * internal/nwc/pay.go, the payment of a paired app's request, and its adapter in
--     cmd/brollyzapper/nwc.go. Nwc/Ladder/Rungs has the gates of `payInvoice` in their order, with
--     `Held` and `Decode`, and Nwc/Ladder/Payout the rest, with `Pay`; the interface `Spend` of an
--     allowance is a record of what it answers. Gates, Settled, RouteFee, Charged
--     and Books are proofs.
--   * internal/store/nwc.go. Nwc/Requests has the table of handled requests, Nwc/Connections the
--     pairings and what an operator or the service changes of one, with `nextWindow` over the
--     parameter `Calendar`; Lifecycle is proofs.
--   * internal/nwc/ratelimit.go. Nwc/Limit has `admit`; a token is the time in which it refills,
--     where the source has a float. Rate and Copies are proofs.
--   * internal/nwc/service.go. Nwc/Service has `handle` and `dispatch`, from a delivery to its
--     answer, over the limit, the handled requests and the payment; ciphers, JSON and the methods
--     that only read are the parameter `Outside`. A delivery is handled at one time, its claim and
--     its answer included. Once, Silent, Replays and Authorised are proofs.
--   * internal/zap/publish.go, the receipt that tells a sender that a zap arrived, and its queue in
--     internal/store/invoices.go. Zap/Queue has `QueueZapReceipt`, `DueZapReceipts`,
--     `DropZapReceipt`, `RecordZapReceipt` and `SettledZapFor`, Zap/Publish `OnSettled`,
--     `PublishNow`, `attempt`, `reschedule`, `backoff` and `RetryDue`. The building and signing of
--     a receipt and the relays are the parameter `Relays`, and the clock stands still during a
--     call. Batch, Join, Stays, Drains, Backoff and Kept are proofs.
--   * internal/recon/recon.go, the reconciliation. Recon/Check has `check` with `froze` and
--     `recovered`, and one turn of `Run`, which lets the payment resolver go first. Holds is
--     proofs.
--   * Tests: small tables, runs on them, and each result at work.
--
-- A call reads and writes the tables as one step: the store opens its database with a single
-- connection, so that no two transactions interleave, and a history is a list of calls in the order
-- in which they took the connection.
--
-- Numbers: a msat amount is an integer, and int64 arithmetic wraps around where the source's does
-- (Base/Int64); row ids are natural numbers; a time is in nanoseconds since 1970 and the columns
-- hold whole seconds. SQLite's SUM is an error where a running sum leaves int64. The loops are over
-- lists (rows, attempts, the updates of a stream), by recursion on the list, and need no fuel: a
-- stream is what the node sends until it ends.
--
-- Not modelled: the texts of errors, the audit log and the note that `SettleSpend` prints (the note
-- is an argument); failures of the disk or the driver other than a constraint's; `time` before
-- 1970. A resolver's pass whose deadline passes
-- writes nothing from the row on that the node was asked about; that it passes between two calls of
-- the ledger is not modelled. strconv and encoding/json, as far as the wallet's settings need them, are the parameter
-- `Codec` of Wallet/Codec; `hex.DecodeString` is in `Env` of Payments/Closing, and the functions of
-- package strings that a code is normalised with are `TextFunctions` of Guard/Operator/Rules. The
-- rest of the NWC service (the sessions with the relays, the methods that only read), the creation
-- of a pairing, the guard's socket, status and rotation detector, the HTTP pages, LNURL, the tags
-- of a receipt and the relays are not modelled: they appear here by the calls that they make.
pub mod Base
pub mod Api
pub mod Guard
pub mod Lnd
pub mod Nwc
pub mod Payments
pub mod Recon
pub mod Store
pub mod Wallet
pub mod Zap
pub mod Tests
