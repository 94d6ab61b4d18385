-- ===== src/Lib.antt =====
-- Verification library of hashden, a non-custodial platform of group-mining pools ("dens"): a block
-- found by a den pays its members by the coinbase transaction itself, and sums below a threshold by
-- Lightning afterwards.
--
-- The parts of the program that are modelled, and how they interact:
--
-- * packages/shared (Shared): a miner connects under the name `<slug>.<pubkey>[.<worker>]`.
--   Shared/WorkerName models `parseWorkerName` of packages/shared/src/worker-name.ts, its patterns
--   by the tests of Shared/Pattern.
-- * packages/groups (Groups): Groups/Router models `GroupRouter.route` (group-router.ts), which takes
--   a parsed name to a den and a member; Groups/Window models `computePplnsWindow`
--   (pplns-window.ts), which sums the last shares of a den into the members' weights.
-- * packages/coinbase (Coinbase): Coinbase/Fees, Coinbase/Solo and Coinbase/Pplns model `splitFees`
--   (fees.ts), `buildSoloShowcaseCoinbase` (solo-showcase.ts) and `buildPplnsCoinbase` (pplns.ts),
--   which turn the weights and the block reward into the outputs of the coinbase and the list of the
--   members who are owed dust. Coinbase/Script models `encodeOutputs` (script.ts).
-- * apps/payouts (Payouts): Payouts/Recording models `recordOnChainPayouts` and Payouts/Fanout
--   `fanoutDust` (dust-fanout.ts), Payouts/Maturity `checkMaturity` (maturity-watcher.ts), and
--   Payouts/Reconcile `reconcileInFlight` (reconcile-inflight.ts): a found block matures, its outputs
--   are recorded, its dust is paid over Lightning, and the payments that a crash interrupted are
--   settled at the next start. Payouts/Types has the rows of packages/db/prisma/schema.prisma that
--   they use. Payouts/ZapReceipt models `buildZapReceiptEvent` (zap-receipt.ts), the public receipt of a
--   payout.
-- * packages/templates (Templates): Templates/Health models `TemplateSourceHealth` (health.ts), the
--   circuit breaker of a den's own node, and Templates/Source the choice of the node (source.ts).
-- * apps/stratum (Stratum): Stratum/Client models the connection of a miner, `StratumV1Client`
--   (apps/stratum/src/models/StratumV1Client.ts): Client itself has the cases of `handleMessage` but that of
--   a share, Client/Dispatch the whole of it with `initStratum`, `sendNewMiningJob` and `checkDifficulty`,
--   Client/Submission `handleMiningSubmission`, with its effects and difficulty.utils.ts in Client/Effects, and
--   Client/Protocol the abstract protocol. Stratum/Messages models the messages
--   (models/stratum-messages), Stratum/Vardiff
--   `setSessionDifficulty` and `acceptableTarget`, Stratum/MiningJob `MiningJob` (models/MiningJob.ts) with
--   Stratum/Extranonce (utils/extranonce.utils.ts), and Stratum/Jobs the store of jobs and templates that
--   all connections share (services/stratum-v1-jobs.service.ts). Stratum/Ssrf models the guard of
--   apps/stratum/src/hashden/api/ssrf-guard.ts: which addresses may be connected to for a user's Lightning
--   address. Stratum/Statistics models `addShares` of models/StratumV1ClientStatistics.ts, which counts a
--   miner's shares; its float arithmetic is a parameter, and its calls come one after the other.
--   Stratum/Den models the payouts that `HashdenService` (apps/stratum/src/hashden/hashden.service.ts)
--   assembles for a den's coinbase, and Den/Template the choice of the den's template with its cache.
-- * packages/crypto (Crypto): the encryption of an operator's credentials (operator-creds.ts), with the
--   service of apps/stratum/src/hashden/operator-creds.service.ts that falls back to plain rows.
-- * apps/verifier (Verifier): models `verifyOutputs` (apps/verifier/src/verify.ts), by which a miner checks
--   that a job's coinbase pays its address; Verifier/Job puts the coinbase together from the job's parts.
--
-- Conventions:
--
-- * BigInt is Common/Int, over the native numbers; a decimal string of sats is the integer that it
--   spells. A JavaScript number that is tested by Number.isInteger is a JsNumber. A string is a list
--   of UTF-16 code units (Common/Text), so that `<` and `===` are those of JavaScript. An exception
--   is the error of a Result; a promise is its value.
-- * A Map is the list of its entries in the order of insertion. Array.sort is an insertion sort: the
--   keys that it sorts are distinct, so that the sorted list does not depend on the algorithm.
-- * What is not code of the repository is a parameter. The Prisma client is the record RowStore
--   (Payouts/Store) on the tables that are updated, and a function where a query only reads; its laws
--   are the documented behaviour of findUnique, findMany, update and updateMany, and Payouts/Store/Rows
--   is a table that has them. Payouts/Recording has its own interface, UniqueStore, for `upsert` under
--   the unique key of an attempt. nip19.decode, the Bitcoin node, the Lightning wallet and the zap publisher
--   are functions. A wallet answers by the calls before it, so that it may answer differently to two equal
--   calls. `BigInt(Math.round(d * 1_000_000))`, float arithmetic, is a parameter of the window.
-- * A connection is given its environment as records: Pool has the settings, the den's route and whether the
--   socket takes a message, Chain has bitcoinjs-lib (the record Bitcoin), the header of a block, float
--   arithmetic and the answers of the services, and Desk has what a job asks for. Layout says that a
--   transaction is written as a text around its input script, WritesBytes that numbers and texts are
--   written as bytes. What an event asks of the services is the list of its effects (Client/Effects). The
--   check that `addOutput` of bitcoinjs-lib makes of a value is left out.
--   Pool.route, Desk and Sources are the interfaces of the connection and of `HashdenService` to the router
--   of Groups/Router, to Stratum/Den and to Crypto, which are modelled on their own; `getSuggestedDifficulty`
--   is a function of Desk. IsAes says that the bytes which AES-256-GCM seals open again, IsUtf8
--   that Node reads again what it codes in UTF-8, but for surrogates that stand alone.
-- * Loops are recursion on their lists; nothing needs fuel. The 32-bit operators of the SSRF guard are
--   arithmetic modulo 2 ^ 32, and the shifts and masks of BigInt division and remainder.
--
-- Concurrency: Payouts/Fanout follows one worker through its queue in order, as `runWithConcurrency` does
-- for `paymentConcurrency` 1; the default is 5. Payouts/Fanout/Interleaving has the same statements as
-- steps of any number of workers, in any order, with crashes. Failures of the
-- database itself, and a rejected `buildLnClient`, are not modelled. A connection handles its messages one
-- after the other, each to its end, though other connections may change the jobs between them.
--
-- Not modelled: the rest of the stratum server (apps/stratum: the controllers of the den API,
-- `getSuggestedDifficulty`, `calculateNetworkDifficulty`, the splitting of a socket's data into lines),
-- the RPC client of packages/templates, the verifier's sockets and texts, `parseLightningAddress`, and what
-- is I/O or presentation: HTTP and relay clients (packages/nostr), the ORM, and the web application
-- (apps/web).
--
-- Common has the shared names: tests, lists, integers, texts and results. Each component has a module
-- Tests with runs at fixed inputs.
pub mod Common
pub mod Crypto
pub mod Coinbase
pub mod Shared
pub mod Groups
pub mod Payouts
pub mod Templates
pub mod Stratum
pub mod Verifier
