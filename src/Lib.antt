-- ===== src/Lib.antt =====
-- VaultKey keeps wallets for other services: an API writes signing jobs to a queue, workers sign and
-- broadcast them, organizations pay for operations with credits, and webhooks report the results.
--
-- The parts and the files that model them (paths from the repository's root):
--   * Prelude: bytes and texts, int64 with its wrap-around, tables keyed by an id.
--   * Nonce: internal/nonce/manager.go (Next, SyncFromChain, Peek, Reset) and the worker's
--     ensureNonce and resyncNonce. Redis is a parameter, with the seconds that a key lives
--     (Nonce/Redis); runs are calls and time that passes (Nonce/Sequence).
--   * Credits: internal/credits/credits.go (GetCost, Debit, Credit, GetBalance; ResolveWalletLimits
--     in Credits/Limits). The tables are the state; each SQL statement is a step that the database
--     may refuse, and a transaction undoes all steps on an error (Credits/Tables). Calls
--     are a sequence (Credits/Invariant); transactions of debits that overlap, each waiting for the
--     row that another holds by SELECT … FOR UPDATE, are interleaved steps (Credits/Sessions).
--   * Cron: internal/cron/cron.go (runFreeTierGrantNow, grantToOrg) with the grant table's queries of
--     credits.go. It calls Credits.
--   * Payments: internal/api/handlers/payment_handler.go (StripeWebhook and its three handlers,
--     creditsForAmount), the payment table of internal/storage/payments.go (Payments/Table) and
--     MarkOrgPurchased of credits.go. It calls Credits.
--   * Amount: ParseAmount and FormatAmount of internal/stablecoin/abi.go on the bytes of the text.
--   * Queue: internal/queue/queue.go. The Redis lists and the JSON codec are parameters
--     (Queue/Redis).
--   * Webhook: internal/webhook/webhook.go (Deliver, send, sign). The endpoint and HMAC are
--     parameters.
--   * Store: the wallets and relayer wallets of internal/storage/store.go, and MarkWalletSwept of
--     internal/storage/sweep.go.
--   * Submit: submitJob of internal/api/handlers/handlers.go with CreateSigningJob of store.go
--     (Worker/Jobs). It calls Queue.
--   * Worker: internal/worker/worker.go (processJob, handleJobFailure, dispatchWebhook and what they
--     call) with the job row of internal/storage/store.go (Worker/Jobs) and the other tables it uses
--     (Worker/Tables). It calls Queue and Webhook, and a `Signer`, an interface that Worker/Operations
--     fills with `sign`, signGasless and signSweep (payloads in Worker/Payloads). A panic is a value
--     of its own. Worker/Keeps shows what processing a job can do to the rows, for any signer.
--   * Relayer: internal/relayer/relayer.go, RelayEVM (Relayer/Evm) and RelaySolana (Relayer/Solana).
--     Nodes, signatures and the encoding of Solana messages are parameters (Relayer/Outside); a
--     broadcast may fail although the node took the transaction (`Broadcast`). It calls Nonce.
--   * Stablecoin: internal/stablecoin. registry.go (Registry) over the table of
--     internal/storage/stablecoin.go (Tokens) and a cache that is a parameter (Cache);
--     EncodeERC20Transfer of abi.go (Abi); service.go's Transfer (Desk, Payloads, Transfer,
--     Submission), which calls Amount, the registry and, for the job, Submit. Its Solana jobs meet
--     Worker and Relayer in SolanaJobs.
--   * Sweep: internal/sweep/sweep.go over the tables of internal/storage/sweep.go (Sweep/Configs):
--     ProvisionMasterWallet (Sweep/Masters) and TriggerSweep (Sweep/Trigger), whose job goes through
--     Submit and is signed by Worker.
--   * Sdk: internal/api/handlers/sdk_handler.go, where an operation is paid for before its handler runs
--     (`billed` calls Debit of Credits; Credits/Settled says how a whole Debit ends), and CreateWallet
--     of internal/api/handlers/handlers.go behind the limits of ResolveWalletLimits (Sdk/Wallets).
--     The other handlers are a function of their state, which accounts are no part of.
--   * Access: internal/ratelimit/limiter.go (Allow), internal/api/middleware/auth.go (Auth,
--     OrgAuthz) and sdk_auth.go (SDKAuth). The key lookup and bcrypt are parameters.
--   * Cloud: internal/storage/cloud_store.go and internal/api/handlers/cloud_handlers.go. The tables
--     are in Members, Orgs and Invites; a request is a `Pc` (Requests), one SQL statement after the
--     other (Handlers), behind OrgAuthz of Access, and Sessions interleaves the requests of many
--     sessions. API keys and their cache (internal/storage/api_key_cache.go) are in Keys, the routes
--     that create and revoke them in KeyRoutes; their answers go to Auth and SDKAuth of Access.
--
-- Numbers are native; an int64 keeps its wrap-around (`wrap64`), a uint64 its `% 2 ^ 64`. The loop of
-- Deliver runs on the number of rounds that are left, which is its bound; no definition needs fuel.
-- `Faults` and `rejects` tell which statement or command of outside code fails, so every error path
-- is a value; ids and times that the database or the clock assign are arguments.
--
-- Not modelled: network and key services (internal/rpc, internal/kms, internal/wallet), HTTP handlers
-- that only list rows or call one of the services above, wiring and configuration. last_used_at of
-- keys is left out: nothing reads it but the list of keys.
pub mod Prelude
pub mod Nonce
pub mod Cloud
pub mod Credits
pub mod Cron
pub mod Amount
pub mod Queue
pub mod Webhook
pub mod Worker
pub mod Payments
pub mod Access
pub mod Store
pub mod Submit
pub mod Relayer
pub mod Stablecoin
pub mod Sweep
pub mod Sdk
