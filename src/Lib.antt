-- ===== src/Lib.antt =====
-- CashCount: the parts of the application that decide what happens to jobs, money and
-- transactions, as definitions that compute, and the theorems that hold of them.
--
-- The parts and the files that model them:
-- * The durable job queue, Queue.antt and the files under Queue/: the table `job_queue` of
--   packages/db/src/schema.ts, packages/db/src/job-queue-insert.ts and
--   packages/db/src/job-queue-repository.ts. A table is a list of rows; a call of the repository
--   is a function from the table to an error or the answer and the new table. Queue/Job is the
--   schema with its CHECK constraints and its partial unique index, Queue/Insert is
--   `insertQueueJob`, Queue/Claim is `claim`, Queue/Lease is `heartbeat`, `complete` and `fail`,
--   Queue/Reclaim is `reclaimExpired`. Queue/Calls runs any sequence of calls: each is one
--   statement or transaction of PostgreSQL. An enqueue has two statements, the insert and the select
--   of the job that it conflicted with; what others do to the table in between is an argument, and
--   in a sequence of calls the enqueue is the step of its insert. Which keys the database can store
--   (PostgreSQL refuses U+0000) is a parameter. An instant is a number of milliseconds, or nothing for an invalid
--   date. The fields of `JSON.stringify(payload)` that the code reads, the identifiers that the
--   database draws and the set of locked rows are parameters.
-- * Money, Decimal.antt and the files under Decimal/: packages/domain/src/money.ts. Texts are
--   lists of UTF-16 code units. decimal.js is not part of the repository: its operations are the
--   record `Decimals`, and its documented exactness is the record `DecimalLaws`.
-- * The transaction policy, Policy.antt and the files under Policy/:
--   packages/domain/src/transaction-policy.ts, which classifies a transaction and computes what
--   it means for spending and for cash.
-- * The classification rules, Rules.antt and the files under Rules/:
--   packages/classification/src/rule-dsl.ts and packages/classification/src/rule-evaluator.ts.
--   Rules/Schema and Rules/Documents say which documents the schema accepts, Rules/Conditions is
--   `evaluateNode`, Rules/Actions the loop over the actions of a rule, Rules/Evaluate
--   `evaluateClassificationRules`. Rules/Log says apart from these variables what an evaluation
--   should come to. Documents start from their JSON shape; the UUID test, the calendar, RE2 and the
--   sizes of JSON texts are the record `Engine`.
-- * The calendar, Calendar.antt and the files under Calendar/: packages/domain/src/dates.ts.
--   Calendar/Civil is the calendar behind JavaScript's `Date`, by which the code checks dates,
--   Calendar/Text the parsing and printing of bank dates, Calendar/Shift `addBankDays`. A day is
--   counted from the first of January of the year 0. The functions that ask `Intl` are left out.
-- * The periods of the analytics, Periods.antt and the files under Periods/: the checks of ranges
--   and the ranges of comparison of packages/analytics/src/index.ts. The queries are left out.
-- * The detectors of financial roles, Detection.antt and the files under Detection/:
--   packages/domain/src/financial-role-detectors.ts, over the money and the calendar above.
--   Detection/Decision says what an answer of a detector should be.
-- * The provider, Provider.antt and the files under Provider/: the lifecycle of a connection is
--   packages/provider-pluggy/src/lifecycle-mapper.ts; Provider/Client is `request` of
--   packages/provider-pluggy/src/authenticated-http-client.ts over the cached key of
--   packages/provider-pluggy/src/api-key-provider.ts, one request at a time. What the network and
--   the clock answer after what was sent so far is the record `World`. The loop is a recursion
--   on the retries that are left, before and after the one retry of the authentication.
-- * The queue worker, Worker.antt and the files under Worker/: the constructors, `retryAt` and
--   `#process` of apps/worker/src/queue-worker.ts, over the job queue above. What others do to
--   the table while a handler runs are calls that stand before each statement of the worker. The
--   handler's outcome, the times of the statements, whether they reach the database and the
--   random scaling of a delay are parameters.
-- * The replacement policy, Replacement.antt and the files under Replacement/:
--   packages/domain/src/replacement-policy.ts, with its floating-point score as a parameter.
-- Base.antt and the files under Base/ hold what the parts share: lists over the native numbers,
-- stable sorting, texts, results with errors, integers, JavaScript's numbers.
--
-- No model uses fuel: every loop is over a finite list, or over the retries that are left, and each
-- is structural. Numbers are unbounded; the widths that
-- the code relies on (a lease of at most 900000 ms, a limit of at most 1000 rows, PostgreSQL's
-- integers) are the guards and constraints of the source and are modelled as these.
--
-- Not modelled: the HTTP API, the web and MCP applications, configuration, encryption, logging,
-- the contracts of the API and the repositories of other tables, which are mostly input and
-- output, SQL or validation by schema; of the worker, the loop that claims and starts jobs.
pub mod Base
pub mod Calendar
pub mod Decimal
pub mod Detection
pub mod Periods
pub mod Policy
pub mod Provider
pub mod Queue
pub mod Replacement
pub mod Rules
pub mod Worker
