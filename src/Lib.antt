-- ===== src/Lib.antt =====
-- The billing of 0G Sandbox: vouchers, the queue they go through, and their settlement on chain;
-- the proxy in front of Daytona, which authenticates requests and admits those that start to cost;
-- and the broker, which tops up balances.
--
-- A sandbox has a billing session. The generator emits vouchers for its periods into a Redis queue;
-- the settler takes them in batches, collapses each batch by sandbox, signs it with nonces, submits
-- it, follows the transaction, and handles the status of each voucher; a sweep splits users'
-- backlogs against their balances, parks what they cannot pay as held debt, and orders their
-- sandboxes to stop; the stop handler archives them and keeps its marker until that is done.
--
-- A create passes the snapshot-only policy, the acknowledgement of the signer and the balance gate,
-- which reserves what the sandbox will cost first; its body is rewritten and forwarded, and the
-- hook behind the reply opens the session and releases the reservation.
--
-- What models what:
--   Store             the Redis keys of one provider, the stop channel and the raised alerts as one
--                     record, and actions on it; a command fails where `faults` says so. Keeps has the
--                     rules for what an action leaves as it is. (internal/events/log.go too)
--   Voucher           internal/voucher/types.go, and the usage hash of internal/voucher/eip712.go
--   Voucher/Digest    the EIP-712 digest of internal/voucher/eip712.go
--   Voucher/Collapse  internal/voucher/collapse.go
--   Backlog           internal/voucher/aggregate.go: Defs has the operations, Summary
--                     SummarizeQueue, Operator the operator's Aggregate
--   Billing/Session   internal/billing/session.go
--   Billing/Price, Billing/Events        internal/billing/events.go
--   Billing/Generator internal/billing/generator.go
--   Billing/Reserved  internal/billing/reserved.go
--   Billing/Signer    internal/billing/signer.go
--   Chain             ResolveTxFate and SettleStatusesFromReceipt of internal/chain/client.go; Chain/Events
--                     has its GetVoucherEvents and handleEvents of internal/proxy/handler.go
--   Settler/Statuses, Settler/Stop       internal/settler/handler.go
--   Settler/Pending   internal/settler/pendingtx.go
--   Settler/Sweep     internal/settler/aggregator.go
--   Settler/Round, Settler/Run           internal/settler/consumer.go
--   StopHandler       runStopHandler, classifySandbox, recoverPendingStops of cmd/billing/main.go
--   Proxy/Gate        the balance gate and handleBalance of internal/proxy/handler.go
--   Proxy/Create      handleCreate of internal/proxy/handler.go
--   Proxy/Start       handleStart of internal/proxy/handler.go
--   Proxy/Routes      handleCatchAll, its guards and the handlers of one sandbox, of the same file
--   Proxy/Bulk        handleArchiveAll and handleList, of the same file
--   Proxy/Scrub       internal/proxy/responsescrub.go
--   Proxy/CreatePolicy, Proxy/Ports, Proxy/Owner
--                     internal/proxy/createpolicy.go, ports.go and owner.go
--   Proxy/PathGuard   internal/proxy/pathguard.go
--   Proxy/Seal        internal/proxy/seal.go
--   Proxy/Snapshots   the handlers that make and delete snapshots, and what a sealed create starts, of
--                     internal/proxy/handler.go
--   Proxy/Json, Proxy/Text               decoded JSON, and the tests on texts of these
--   Dlq               internal/voucher/dlq.go
--   Broker            internal/broker/session.go; Broker/Monitor has monitor.go and payment.go, and
--                     Broker/Relay relayguard.go with its route in cmd/broker/main.go
--   Indexer           internal/indexer/indexer.go
--   Registry          internal/registry/digest.go, gc.go and puller.go, and the GC of
--                     cmd/billing/main.go
--   Identity          the resolver of the app's owner in cmd/billing/main.go, and
--                     cmd/billing/attestor.go
--   Auth              internal/auth/middleware.go
--   Alerts            internal/alert/alert.go
--   Examples          runs of the model and the theorems applied to them
-- A function keeps its Go name in snake case.
--
-- Numbers. Amounts in neuron and prices are naturals, as big.Int holds them where the code makes
-- them. Times and intervals are int64: `int64` in Billing/Price keeps 64 bits of them. An address
-- with its hexadecimal text is one number, but for the texts that the anti-replay key of a funding
-- request takes, and so is a sandbox id, of which 0 is the empty text.
--
-- Loops are recursion on the list or the count that they go through. `emit_loop` counts the
-- vouchers that a tick may emit, 10; `covered_attempts` the attempts of the optimistic transaction,
-- 5; both are limits of the code. `resolve_polls` goes through the polls made until the context is
-- done.
--
-- JSON goes from the decoded value of a request to the value that is encoded again. Of case
-- folding, a parameter, the theorems ask that it tells apart the few names that the code writes.
--
-- The runtime's listing, the contract, the RPC node, the signature and keccak are parameters. What
-- other processes push to the queue during a transaction is `arrivals`; the settler is the only
-- consumer.
--
-- The image registry and its client library are an interface with laws (Registry): answers are
-- true, listings complete, and a delete takes one manifest with the tags that point at it. The
-- parser of image references, the key pairs and random values of seals are parameters too.
--
-- Left out: log messages, sleeps and tickers, the expiry of keys, the second and later pages of a
-- SCAN, nonce counters beyond int64; a deposit that is taken while its reply is lost; of the
-- packages above RunGenerator, the operator's listings of sessions and of the audit log, signatures
-- and TLS; and the packages that forward to services (contract bindings, the Daytona client), which
-- have no state of their own here.
pub mod Base
pub mod Voucher
pub mod Store
pub mod Backlog
pub mod Billing
pub mod Chain
pub mod Settler
pub mod Proxy
pub mod Registry
pub mod Indexer
pub mod Identity
pub mod Dlq
pub mod Broker
pub mod Alerts
pub mod Auth
pub mod StopHandler
pub mod Examples
