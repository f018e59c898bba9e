-- ===== src/Lib.antt =====
-- The tamper-evident audit log service. A log entry holds a SHA-256 digest of its content and of
-- the digest of the entry before it. Entries are written to PostgreSQL in a transaction that locks
-- the one row of chain_head; they are read through a cache in Redis; the chain is verified on
-- request and by jobs of a queue. An Express application with an API key serves all of it.
--
-- Parts, and the files that model them (paths from the repository's root):
--   - src/services/hash.service.js: Hash (generateHash as hash_input and generate_hash, verifyEntry,
--     the loop of verifyEntireChain as verify_from, one round of it as check_entry). Hash/Intact says
--     what a chain is, Hash/Verdict what the loop returns, Hash/Input what the hashed text determines,
--     Hash/Digest, Hash/Evidence and Hash/Unique what follows from equal digests, Hash/Ambiguity what "|" hides,
--     Hash/Entries compares verifyEntry with the whole.
--   - prisma/schema.prisma and src/repositories/log.repository.js: Database (rows, chain head,
--     constraints, a transaction as a function on the tables that may throw; Database/Sorted) and
--     Repository (each query, and createWithTransaction in its four steps, as a do block in the order of
--     the code);
--     Repository/Creation, Repository/Ledger, Repository/Payloads, Repository/Filtering,
--     Repository/Throws, Repository/Lookup.
--   - src/services/verification.service.js and the processor of src/workers/verification.worker.js:
--     Verification, with Verification/Order, Verification/Races and Verification/Payloads.
--   - src/services/redis.service.js: Redis and Redis/Laws (the cache), Lifecycle and
--     Lifecycle/Sharing (the singleton client, with src/queues/verification.queue.js and
--     src/workers/verification.worker.js; disconnect, closeVerificationQueue and
--     stopVerificationWorker are cut at their awaits). src/config/database.js: Lifecycle/Prisma.
--   - src/services/log.service.js, src/services/queue.service.js, src/services/export.service.js:
--     LogService, on a World of tables, cache and queue; LogService/Creation, LogService/Reads,
--     LogService/Answers, LogService/Coherence (the cache agrees with the table), LogService/Jobs.
--     Copies has what is written to the cache and sent, and what is read back. Schedule has the same
--     calls cut at their awaits, and steps between the states of many calls; Schedule/Alone,
--     Schedule/Kept, Schedule/Interleavings (the cache), Schedule/Ledgers (the log), Schedule/Replies,
--     Schedule/Writers, Schedule/Orderly.
--   - src/middlewares/auth.middleware.js: Auth, Auth/Keys. src/utils/pagination.js: Pagination,
--     Pagination/Bounds, Pagination/Pages. src/errors/AppError.js: Errors. src/constants: Constants.
--   - src/utils/response.helper.js, src/middlewares/error.middleware.js, src/utils/asyncHandler.js:
--     Http. src/validators/log.validator.js, src/middlewares/validate.middleware.js: Validation,
--     Validation/Bounds. src/controllers, src/services/health.service.js: Controllers.
--     src/types/index.js: Types, the shapes of responses; src/types/log.types.js is modelled by the
--     records where they are used.
--   - src/app.js and src/routes: App, one request after the other; App/Access, App/Writes, App/Keeps,
--     App/Runs (runs of requests and of what happens to the services), App/Replies, App/RoundTrip,
--     App/Shapes (the shapes of all responses), App/Audit (an export and its verification), App/Paging
--     (pages and
--     the export). App/Reference
--     is the service without cache and queue, which App/Refinement and App/Traces compare with App.
--   - src/config/env.js: Env, Env/Bounds. src/lib/logger.js and src/middlewares/requestLogger.js:
--     Logger, Logger/Levels. src/server.js: Shutdown, Shutdown/Server. src/utils/date.js and
--     src/utils/crypto.js: Utilities.
--   - JavaScript itself: Common/Texts (strings as UTF-16 units), Json (JSON.stringify; Json/Parse is
--     JSON.parse on what JSON.stringify writes, Json/RoundTrip that it reads it back, Json/WellFormed
--     that it writes whole characters), Date (toISOString; Date/Calendar, Date/Digits, Date/Texts), Utf8
--     (Utf8/WellFormed, Utf8/Injective), Http/Decimal. Common holds the shared names and lemmas, Samples
--     and Tests the concrete inputs.
--
-- Names are those of the code in snake case. A function that throws returns a Result, one that
-- changes the tables or the world returns them too; an absent or undefined value is none.
--
-- Parameters, since their code is not in the repository: sha256 (crypto), Postgres (what a jsonb
-- column gives back, the order of ORDER BY, which may be another one for each page, refusals), Zod
-- (the issues reported, what a datetime is and whether its Date is valid), Redis (its answers to
-- GET, and what SETEX and DEL make of them), what queue.add does (BullMQ),
-- which queries fail, which services answer, the UUID and the time of a request, Coercion (numbers and
-- URLs of the environment). IsDigest, IsSorting, IsStore, Within and AddsOnce state what is documented
-- of them; Within that keys expire and are evicted, but never come up by themselves.
--
-- Bounds: numbers are unbounded, as the ones in the code are small; times are milliseconds since
-- 1970, up to the last one that a Date can hold where texts of dates are read. parseInt gives
-- the nearest double, and texts of 2 ^ 1024 and more, which it takes for Infinity, are left out, as is
-- the rounding of skip beyond 2 ^ 53. Fuel is used three times: in Pagination, 971 doublings from 2 ^ 53
-- up to 2 ^ 1024, in Http/Decimal (Http/Decimal/Digits), one more than the number that is
-- written, and in Json/Parse (Json/RoundTrip), two for every character and two more.
--
-- Not modelled: the log lines that are written, binding the port, helmet, the headers of cors, the
-- counting of the rate limiter, Express's matching of paths, the retries of BullMQ, a Redis
-- command that never settles, JSON.parse on texts that JSON.stringify does not write. A
-- transaction is one step, since the row lock makes transactions follow one another.
pub mod Common
pub mod Constants
pub mod Json
pub mod Date
pub mod Utf8
pub mod Hash
pub mod Copies
pub mod Errors
pub mod Database
pub mod Repository
pub mod Verification
pub mod Redis
pub mod LogService
pub mod Auth
pub mod Pagination
pub mod Env
pub mod Logger
pub mod Utilities
pub mod Http
pub mod Types
pub mod Validation
pub mod Controllers
pub mod App
pub mod Schedule
pub mod Lifecycle
pub mod Shutdown
pub mod Samples
pub mod Tests
