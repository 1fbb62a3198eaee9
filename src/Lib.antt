-- ===== src/Lib.antt =====
-- The phone-number service of apps/api: normalising Vietnamese numbers, finding their owners' names
-- in crawled text, spam reports, call logs, and the exports for a phone's call directory.
--
-- The program and the files that model it:
--   * Phone (apps/api/src/normalizers/vietnamPhone.ts): normalizeVietnamPhone, from the text that a user
--     or a page gives to a number in E.164 form with its type. Every other part goes through it.
--   * Schema (apps/api/src/db/schema.ts, packages/shared-types/src/index.ts): the enums and the rows of
--     the tables, with the columns that the modelled services use.
--   * Spam (apps/api/src/services/spamReports.ts): submitSpamReport appends a row to spam_reports,
--     getSpamSummary reads the rows of a number as a risk level and a category.
--   * Suppression (apps/api/src/services/labelSuppressions.ts): the numbers whose owner has no label on
--     them any more; a table with one row for a number.
--   * Settings (apps/api/src/services/appSettings.ts): the key-value table with the auto-block switch,
--     modelled at Booleans, the only values that the program stores there.
--   * Directory (apps/api/src/services/callDirectoryExport.ts): getCallDirectoryEntries and
--     getBlockedDigits, which read all of the tables above.
--   * CallLog (apps/api/src/services/callLog.ts): importCallLogEntries appends to personal_call_logs; the
--     summary, the unknown numbers and their ranking read it with the tables of identities. A date is
--     the number of its day, and `new Date(…).getTime()` a function `time` of it.
--   * Guess, Candidates and Aggregation (apps/api/src/services/aggregation.ts): guessIdentity with its regular
--     expressions as matchers, and runAggregation, which groups the observations of the crawler by
--     number and by name, scores the names, and writes phone_identities and phone_identity_evidence.
--     The case mappings of ECMAScript (of a code unit, and toLowerCase) are parameters.
--   * Monitoring (apps/api/src/services/monitoring.ts): getObservationWindow, and evaluateQueueHealth with
--     its thresholds from the environment, which is a parameter; getDataGrowth, its time series,
--     getJobsSummary and getRunningJobs.
--   * UserConfirmed (apps/api/src/services/userConfirmedIdentity.ts): importUserConfirmedIdentities writes the
--     six tables that the lookup, the aggregation and the exports read. The ids and the times of round n
--     of its loop are a record `fresh n`; the SHA-256 digest and toLowerCase are parameters.
--   * Lookup (apps/api/src/services/lookup.ts): lookupPhone joins the normalizer, the spam summary and the
--     tables of identities into the answer of the API; searchPhones.
--   * Matches and Extractor (apps/api/src/extractors/phoneExtractor.ts): extractPhoneCandidatesFromText and
--     extractPhoneCandidatesFromHtml, with matchAll and replace as scans that are given a matcher. The
--     fuel of a scan is the length of the text, and each step leaves at least one code unit.
--   * Jobs (apps/api/src/services/acquisition.ts and jobStats.ts): the list of crawl jobs, one job,
--     enqueueDomainDiscovery, which appends a job that the Python worker takes, and getJobStats.
--   * Statistics (apps/api/src/services/stats.ts and acquisition.ts): the counts over the tables. A quotient
--     is a record of its two numbers, without the rounding of toFixed.
--   * Routes (apps/api/src/routes): the checks of a request, the calls of the services above and the status
--     of the reply, for the routes that check one.
--   * Prelude: lists, texts, the stable sort and counting, which the parts share.
--
-- How the code is read. A string is the list of its UTF-16 code units. A table is the list of its rows,
-- a query a function of the tables, and a statement that writes gives the new table. An `await` is a
-- plain call: each service call is one step on the tables. What PostgreSQL leaves open (the order of the
-- groups of a GROUP BY, of rows that an ORDER BY does not tell apart) is a parameter `arrange`, of which
-- the theorems suppose only that it permutes its argument; the clock and generated ids are arguments.
-- `Array.prototype.sort` is a stable insertion sort. Numbers are natural numbers; the code's counts and
-- scores stay far below 2^53. The count of a call-log entry, which a client sends, is any JSON number, and
-- the INTEGER column refuses one that it does not hold. `phone_numbers` may hold a number twice; what
-- needs its unique index says so. The fuel of the decimal digits of a number n is n + 1 steps, one more than
-- its digits; that of a scan is the length of its text.
--
-- Not modelled: the routes that only send what a service returns, and the server's wiring; getQueueHealth
-- and the rows of system_metrics, which are only copied; and the web and iOS clients and the Python
-- crawler, which are programs of their own.
pub mod Prelude
pub mod Phone
pub mod Schema
pub mod Directory
pub mod Spam
pub mod Settings
pub mod Suppression
pub mod CallLog
pub mod Guess
pub mod Candidates
pub mod Aggregation
pub mod Monitoring
pub mod UserConfirmed
pub mod Matches
pub mod Extractor
pub mod Jobs
pub mod Statistics
pub mod Routes
pub mod Lookup
mod Tests
