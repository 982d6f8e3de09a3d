-- ===== src/Lib.antt =====
-- Models of the Delego services (TypeScript), and the theorems that make them correct.
--
-- The services are in apps/backend. The orchestrator moves a purchase through its workflow and
-- runs multi-step transactions as sagas over a store that several runners share; payments and
-- wallet serve its steps, and the gateway gives its clients their tokens.
--
-- Orchestrator/Machine: the purchase workflow machine of apps/backend/orchestrator/state. A
--   `Machine` is `PurchaseWorkflowMachine`, `send` its method `send`, `transitions` the table
--   `TRANSITIONS`; Machine/Snapshot is snapshot-validator.ts and `fromSnapshot`. Time is a number
--   of milliseconds, given by the caller, who also says what the `onTransition` hook does.
-- Orchestrator/Saga: apps/backend/orchestrator/src/saga. Saga/Store is memory-store.ts, one
--   function for each method; Saga/Coordinator is coordinator.ts (`run`, `resume`, `advance` as
--   `do_all`, `compensate` as `undo_all`, `claimStep` as `claim_step`), as functions of a world:
--   the store, the trace of the step functions that have run, and the number of awaits so far,
--   which a clock turns into a time. Actions and compensations are arguments, which may look at
--   the trace. Saga/Recovery is `recoverAll`; the timers that it sets are values. Saga/Spec is
--   the saga without store, versions and leases.
-- Orchestrator/Purchase: apps/backend/orchestrator/workflows/purchase/index.ts, the second, stored
--   workflow. Purchase/Store has `createWorkflow` and `transitionWorkflow` on the rows of the table
--   and the published messages, with `transitionWorkflow` split where it has loaded, for two
--   callers that overlap; Purchase/Restore is `restorePurchaseWorkflow`.
-- Orchestrator/Checkout: apps/backend/orchestrator/workflows/checkout/index.ts: a checkout and
--   `transitionTo` on it, the two steps of its saga over the answers of the payments service, and
--   `checkoutWorkflow`, which runs them with the coordinator of Orchestrator/Saga.
--   Checkout/Timeout is its `handleTimeout` on the stored purchases.
-- Orchestrator/Messages: apps/backend/orchestrator/src/messaging/processed-messages.ts.
-- Payments/Dedup: apps/backend/payments/events/dedup-store.ts, with `processEscrowContractEvent`
--   split where it has asked the store.
-- Payments/Fees: apps/backend/payments/escrow/feeEstimator.ts, with the cache passed along and
--   Horizon's answer as an argument.
-- Payments/Validation: apps/backend/payments/src/validation.ts. What JavaScript's `Number` makes of a
--   text, and whether it is an integer, are arguments.
-- Wallet: apps/backend/wallet/src. Wallet/Redis is the interface of the Redis commands that the
--   sequence numbers need, with a server that keeps its laws; Wallet/Sequence is
--   `getNextSequenceNumber` and Wallet/Job `executeTxJob` and `runTestJob` of queue/txQueue.ts, as
--   functions of the answers of the vault, Horizon and the RPC server, and of a world: the Redis
--   server and the spends recorded so far; Wallet/Enqueue is `addTransactionToQueue` in the mode
--   that runs the job in place; Wallet/Failure is queue/submissionFailure.ts on texts of
--   code points; Wallet/Limits is the check and the counters of spendLimits.ts, with the table of
--   limits as an argument. Wallet/Vault is vault.ts: the file of keys, with its faults, as state,
--   `storeKey` split where it awaits, for calls that overlap; the cipher as an interface whose one
--   law is that it opens what it has sealed; the random bytes and the answers of the signing
--   drivers as arguments.
-- Gateway/Tokens: the refresh tokens of apps/backend/gateway/src/auth/authService.ts, over an
--   interface of bcrypt and jsonwebtoken. `refresh_access_token` takes what other requests write to
--   the table between its queries.
-- Gateway/Delegations: the handlers of apps/backend/gateway/routes/delegations.ts and the check
--   of its owner in middleware/delegationOwnership.ts, on the tables of delegations and of their
--   limits. How the database reads and spells an id is an argument.
-- Gateway/RateLimit: apps/backend/gateway/src/rateLimit and middleware/rateLimit.ts, over an
--   interface of the Redis commands INCR and EXPIRE; a check is split where it has the count, and
--   checks that overlap are the commands in the order in which Redis runs them.
-- Utils/Amounts: packages/utils/src/parseBigIntString.ts.
--
-- Loops run over lists, or over the retries and attempts that are left (12 polls, 5 attempts). The
-- digits of a number n are written with fuel n, which Utils/Amounts/Decimal shows to be enough.
-- Log calls are left out, and error texts are replaced by constructors that carry what the text names,
-- where no code reads them.
--
-- Not modelled: HTTP routing, SQL stores, the Stellar SDK, Redis and BullMQ themselves, the timeout
-- queue, the schema validation of the gateway's bodies, its list of delegations, and the contracts in
-- contracts/, which are Rust.
pub mod Base
pub mod Orchestrator
pub mod Payments
pub mod Wallet
pub mod Gateway
pub mod Utils
