-- ===== src/Lib.antt =====
-- A model of the payment gateway atara-pay and proofs about it.
--
-- The gateway lets tenants move money from wallets under spending policies. A request is let in
-- by an API key or a session token, and a rate limit counts it. A transfer from a wallet under
-- platform custody is sent in one request; one from a wallet under user custody is prepared,
-- signed by its owner and submitted. What is sent passes limits.Service.Check, which resolves the
-- policy that governs it, runs the policy's gates and charges counters in Redis; a denial is
-- written to an audit table and published as an event. The publisher adds one row per subscribed
-- endpoint to a queue in the database, and the worker drains it. Session keys are signers of
-- their own policy, which a mint writes and Check reads. Accounts, API keys, session keys, wallet
-- groups, endpoints and default policies are set up through handlers of their own, and so are
-- orders of crypto for fiat money.
--
-- The files:
-- * Base and its children: the shared names of the library, signed integers, results, and texts
--   as lists of code points.
-- * Limits/Amount (internal/limits/counter.go, helpers.go): scaleToMicros, microsToDecimal,
--   numericToMicros. Limits/Calendar and Limits/Period (internal/limits/period.go): periodKey and
--   nextReset, on civil dates. Limits/Counter (counter.go and the loop of checkPeriods in
--   service.go): periodBudgetCheck and rollbackBudgets on a Redis server that is a parameter.
--   Limits/Policy (service.go, helpers.go): resolvePolicy and the gates without counters.
--   Limits/Service (service.go): Check, checkPeriods, reject, as functions on the counters and
--   the list of writes.
-- * SessionKeys/Rows (internal/sessionkey/pgx.go, internal/db/sqlcgen): the rows of keys and
--   policies. SessionKeys/Input and SessionKeys/Mint (internal/sessionkey/service.go):
--   validateMint, Mint, runOnChainAuthorize. SessionKeys/Custody (user_custody.go):
--   PrepareUserCustody and SubmitAuthorize. SessionKeys/Rotator (rotator.go): Tick.
--   SessionKeys/Requests and SessionKeys/Handlers (internal/server/handlers/session_keys.go,
--   session_keys_user_custody.go): Create, List, Revoke and SubmitAuthorize of the handlers, and
--   sequences of them with sweeps of the rotator.
-- * Webhooks/Store (internal/db/sqlcgen): the rows and the statements on them. Webhooks/Publisher
--   (internal/webhooks/publisher.go, limits_emitter.go): Publish and EmitLimitExceeded.
--   Webhooks/Worker (internal/webhooks/worker.go): Tick, deliverOne, scheduleRetry, bumpFailure,
--   on a database that may fail any statement, the errors of which the code mostly ignores.
-- * Keystore (internal/keystore): NewAESKeystore, Encrypt, Decrypt and FromEnv. Keystore/Rotation:
--   ciphertexts read under later keys.
-- * Http (internal/server/handlers): what the handlers share, as functions on a state that answer
--   a reply or a failure with its status, and the errors of handlers/pgx.go and wallet_groups.go.
--   Http/Post: assertions on such functions.
-- * Transfers (internal/server/handlers/wallet_group_tx.go, wallet_group_tx_prepare.go):
--   requests, checks and views. Transfers/Rows (internal/db/sqlcgen): rows and statements.
--   Transfers/Plane: the state, which holds the ledger, the calls to the rails in order, the
--   counters and what was announced. Transfers/Send: SendTransaction, its dispatchers and
--   recordTransaction. Transfers/Prepare: PrepareTransaction and SubmitTransaction.
--   Transfers/Histories: sequences of the three. Transfers/Lifecycle: the life of one row, which
--   they refine.
-- * Accounts (internal/server/handlers/wallet_groups.go): requests, checks and views of wallet
--   groups. Accounts/Rows: tables and rows. Accounts/Create: Create, and sequences of it in
--   Accounts/Create/Kept. Accounts/Read: Get and List.
-- * Onramp (internal/server/handlers/wallet_group_onramp.go, internal/db/sqlcgen): requests,
--   checks, views and rows of orders that buy crypto for fiat money. Onramp/Create: CreateOnramp
--   and recordOnramp. Onramp/Retries: sequences of them.
-- * Endpoints and Endpoints/Handlers (internal/server/handlers/webhooks.go): the six handlers of
--   webhook endpoints.
-- * Policies and Policies/Update (internal/server/handlers/limits.go,
--   internal/limits/defaults.go): GetTenantLimits, UpdateTenantLimits, tiers and caps.
--   Policies/Violations: ListViolations on the audit rows of Check.
-- * Auth (internal/auth/apikey.go, internal/server/middleware): API keys, the gate by key or
--   session token, and the rate limit. Auth/Password (internal/auth/password.go): HashPassword and
--   VerifyPassword. Auth/Session (internal/auth/session.go): NewSessionToken, ParseSessionToken.
-- * Members (internal/db/sqlcgen, internal/db/migrations): the tables of tenants, users and keys,
--   the statements on them and the bodies of requests. Members/Keys
--   (internal/server/handlers/api_keys.go): the three handlers of API keys. Members/Signup
--   (internal/server/handlers/auth.go): Signup and Login. Members/Histories: sequences of the five.
-- * Tempo/Units (internal/adapters/tempo/adapter.go): parseUnits.
--
-- The children of a module hold its proofs, and Tests the concrete runs.
--
-- Conventions: a fallible call answers a Result or an Option; an int64 amount is an integer with
-- the bounds of int64 tested where the code tests them, and the sums of counters are not bounded.
-- Instants are nanoseconds since Go's zero time. Every loop of the code is a recursion on a list.
-- The only fuel is that of printing a number in decimal, one more than the number, of which
-- Limits/Amount/Digits shows that it gives every digit. The number of attempts is that of the
-- configuration, 8 by default.
--
-- Parameters, since their code is not in the repository: Redis, queries to the database,
-- big.Float, JSON, URLs, base64, strings.ToUpper and ToLower, zones of package time, HMAC,
-- SHA-256, argon2, AES-GCM, JSON web tokens, the reading of mail addresses and of integers by
-- Sscanf, random bytes, the HTTP client and the clock. Key generation and the adapters of the
-- rails, whose code calls libraries and the chain, are parameters too, and so is the keystore for
-- the other components; the answer of a rail may depend on the calls made before. The statements
-- on a table are functions on lists of rows, newest first, and atomic; users stand in the order in
-- which they came.
--
-- What a single request meets, the clock, new ids and which statement of the database fails, is a
-- record that the handler takes: Circumstances in Transfers, Chances in Endpoints, Attempt in
-- Policies, KeyDraw, SignupDraw and LoginSetting in Members, KeyCall in SessionKeys/Handlers,
-- Visit in Onramp, Setting in Accounts. The last has a function for what other requests commit
-- between the lookup of a group and the transaction. A tick of the worker takes a Net, with the
-- network, the clock and the statements that fail. The handlers start after the body has been
-- parsed, and answers leave out times that are printed.
--
-- Not modelled: the routes of the HTTP server and its handlers of statements and of virtual
-- addresses; the adapters of the rails and the router; metrics, configuration and the command
-- line. The manifest gives the reasons.
pub mod Base
pub mod Limits
pub mod Webhooks
pub mod SessionKeys
pub mod Tempo
pub mod Http
pub mod Transfers
pub mod Endpoints
pub mod Auth
pub mod Policies
pub mod Accounts
pub mod Members
pub mod Onramp
pub mod Keystore
