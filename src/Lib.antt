-- ===== src/Lib.antt =====
-- Nearby Payments: the remote-cache worker and the Go API, modelled and verified.
--
-- tools/remote-cache/src/index.ts is a Cloudflare worker over one R2 bucket. It serves a Maven
-- repository to everybody and Bazel's remote cache to the holders of a token.
--   Cache.Regex: regular expressions with ECMAScript's backtracking search. `match` gives the array of
--     `String.prototype.match`; Cache/Regex/Meaning and Complete give the meaning of a pattern.
--   Cache.Paths: CACHE_PATH and MAVEN_PATH.
--   Cache.Http: headers, requests, responses and awaited promises, as the Fetch API defines them;
--     Cache.Http.Decimal is `toString` of a number, with the number itself plus one as fuel, which is
--     enough since each round divides by ten.
--   Cache.Bucket: the R2 bucket as a record of operations on a state, and the record IsConsistent of
--     what R2 documents. Every call may be rejected. Only the metadata that the worker reads is there.
--   Cache.Worker: text, cacheObjectHeaders, mavenObjectHeaders, authorized, handleBazelCache,
--     handleMavenRepository and fetch, each under its own name in snake case. `fetch` takes the bucket,
--     the URL parser (`new URL(url).pathname`), the request, the secret and the bucket's state, and
--     gives the promise's outcome and the new state.
--   Texts are lists of UTF-16 code units. What worker-configuration.d.ts declares is generated and is
--   not modelled but for the parts above.
--
-- apps/api is the Go backend. A method of a service is an action: it takes the database's tables and
-- gives a value or an error, and the tables as they then are. The clock, fresh ids, the chain and
-- whether the database answers a statement are what a `World` says for that call; each statement of
-- a store may fail by itself.
--   Api.Errors: internal/errors (AppError, New, Write, IsNotFound) and the actions.
--   Api.Payment: internal/domain/payment. Types are types.go and errors.go, Store is store.go over the
--     tables of internal/db/migrations/003_payment.sql, and Service is service.go: CreateIntent,
--     GetIntent, SubmitIntent, CancelIntent and GetPayment in snake case; a panic of the sponsor is the error
--     `panic`, which Recovery answers. Runs has sequences of calls, each made by its `caller`.
--     Foreign keys are not modelled.
--   Api.Nearby: internal/domain/nearby, service, store and handlers (InitiateSession, GetSession,
--     AcknowledgeSession). Api.Replies is the shape of a handler: the session, the body and the path's
--     parameter are given. Api.Wallets has the queries of auth's wallet bindings, and Api.Rows tables
--     as lists of rows.
--   Api.Deposit: internal/domain/deposit: Store has the rows and the statements that the webhook and the
--     processor run, and Pipeline is webhook.go (HandleBridgeWebhook) and processor.go (process,
--     processAll). `Libraries` stands for JSON, base64, RSA and the JSONB column. Run's ticker is not
--     modelled. Statements has what the service runs, Bridge is bridge_client.go over the decoded answers
--     of Bridge, Options is GetOptions of service.go and handler.go (getFiatUsdState, getCryptoState and
--     buildCryptoRoute), and Listing GetDeposits and GetDeposit. The order of rows of one second is a
--     parameter.
--   Api.Sui: internal/sui. Multisig is multisig.go: appendULEB128 with ten rounds, which a uint64 never
--     exceeds, as Decoding proves, BuildMultisigAddress and CombineMultisigSignature; SHA-256, which
--     blake2b.go gives for BLAKE2b, and base64 are parameters. Sponsor is sponsor.go, with the call of the
--     node as a parameter; the panic of a transaction below 32 bytes is an outcome of its own, and the
--     bytes behind the transaction in its slice are an argument. Signers says which keys have signed.
--   Api.Avs: internal/avs. Aggregator is aggregator.go (Authorize) and Operator.Sign, with Ed25519 and JSON
--     as parameters; Quorum describes the result without the loop. Client is client.go, where `approve` is
--     what its three methods do with the bytes of their payloads; a `Moment` is the random number and the
--     clock of one call.
--   Api.Names: internal/domain/names, service, store and handlers (RegisterLeaf, GetTask) over the client of
--     the AVS. Pattern is leafNameRe over the matcher of Cache.Regex, where `c{0,n}` is `up_to n c`.
--   Api.Idempotency: internal/middleware/idempotency.go over the keys that Redis holds and that have not
--     expired; Payment's
--     Handlers are handler.go of the payments.
--   Api.Auth: internal/domain/auth. Types are types.go and errors.go, Store is store.go over the tables
--     of internal/db/migrations/001_auth.sql and the keys of Redis, each with the time when it expires by the clock of Redis;
--     Google, Claims and Login are OAuthBegin and OAuthComplete of service.go with both calls of Google,
--     over `Libraries`, and Keys the calls of Redis;
--     Sessions is RefreshSession, RevokeSession, VerifyAccessToken and AssertDeviceIntegrity, and
--     InWindow of internal/utils/time.go in int64. Middleware is middleware.go and Handlers
--     handler.go. Calls has sequences of
--     calls, each of which is one step. Actions.Binds and Stable follow an invariant of the
--     tables through the methods. Credentials is IssueDeviceCredential, with its panic where the session
--     has no integrity record, and GetServerPublicKey.
--   Api.Router: router/router.go, the routes and the guard before each; the handlers are parameters.
--   Not modelled: the loading of keys, how the router finds a route, the HTTP calls
--     of the Sui client and of Bridge, configuration and connections, logging, and the apps
--     for Android and iOS, which are user interfaces.
pub mod Api
pub mod Base
pub mod Cache
