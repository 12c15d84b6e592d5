-- ===== src/Lib.antt =====
-- Pods is an application in which a group commits to an activity: its members pay a deposit, show
-- evidence on each scheduled day, and share what the others forfeit. This library models the rules
-- of packages/domain/src, on which the repositories (packages/db), the web application (apps/web)
-- and the worker (apps/worker) rest, and of the repositories those of the deposits and transfers.
--
-- The parts of packages/domain/src and their files:
--   Settlement    settlement.ts: `calculateSettlement`. It registers the members, settles one
--                 occurrence after the other, and sums up. Types has the data, the parent the
--                 operations in the order in which the code calls them.
--   Deposit       funding.ts: the state machine of a deposit (`nextDepositState`), the amount that
--                 is required and the order of finalized deposits.
--   Activity      activity.ts: the window of an occurrence, the states of a submission, the review
--                 of the creator, and the tasks and links of builds.
--   Evidence      template-evidence.ts: drafts and submissions of evidence. A submission of a build
--                 calls `validateBuildEvidence` of Activity.
--   Enrollment    enrollment.ts: answers of applications, decisions, tokens of invitations.
--   Amount        index.ts: `parseNimToLuna`.
--   Contract      index.ts: the steps of a draft, the occurrences of its schedule, and
--                 `buildPublishedContract`, which calls them and Amount.
--   Capabilities  alpha-capabilities.ts and runtime-identity.ts: the switches of a deployment and
--                 the identity that it shows.
--   Social        social.ts: messages, introductions, requests, reports and profiles.
--
-- The parts of packages/db/src and apps/worker/src and their files:
--   Database      schema.ts: the rows of the tables (Rows), an update of rows and what it returns
--                 (Table), all tables with the insertions under unique indexes (Store, Insert), and
--                 the early returns and errors of a transaction (Flow).
--   Transfers     transfer-repository.ts: the operations on payouts and their attempts (Payout), the
--                 confirmation of a payout, which settles its run and completes its Pod (Confirm),
--                 and the operations on refunds (Refund). Run has the methods as calls. Audit is
--                 about what the attempts, the events and the ledger say of a payout.
--   Funding       funding-repository.ts: the deposits of members, by `nextDepositState` of Deposit.
--                 Steps has the operations, History the methods as calls. Reconcile is
--                 apps/worker/src/funding/deposit-reconciler.ts, `validateObservedDeposit`.
--
--   Base          what all of them share: results and exceptions, texts, numbers, unchecked values.
--
-- How the code is read. A string is the list of its UTF-16 code units. A number is a `Number`; where
-- the code has tested it to be a safe integer, a natural number. A value that comes from outside is
-- a `Value`. An exception and a list of errors are the two sides of `Result`, with a constructor for
-- each message. A `Map` and an environment are association lists. A function that updates an object
-- in place takes it and returns it.
--
-- A transaction of a repository takes the tables and returns a value with new tables, or an error,
-- which rolls it back; since the code locks the rows that it reads, a transaction is one step, and
-- any interleaving is a sequence of steps. A table is a list of rows, with the columns that the
-- operations read or write. A unique index is a test at an insertion or an update; foreign keys and
-- defaults are not modelled. A time is a number of milliseconds. `randomUUID` is a function of the
-- number of identities given so far, and an insertion under a known identity fails.
--
-- What is a parameter: `randomUUID`, `localeCompare`, `toLowerCase`, `toUpperCase`, `String`, the
-- printing of numbers and the URL parser of the run time, and the calendar of
-- @js-temporal/polyfill. Some theorems suppose something of one: that the day after a date has the
-- next number, that `localeCompare` is transitive, or that lower case leaves lower-case ASCII
-- letters, digits and underscores as they are.
--
-- Bounds. The only loop that is not over a list is that of `materializeOccurrences`, from a start
-- date to an end date. It takes one round for each day from the one to the other, both counted,
-- which is enough where the calendar counts days one by one. Amounts are bounded by 2 ^ 53 - 1.
--
-- Not modelled: the repositories of enrollment, cutoff, activity, settlement, messages, profiles and
-- moderation; of the modelled ones, the ordered lists that they read; the cycles of the worker, the
-- pages and the HTTP handlers; of packages/domain, the stable serialization of a contract and the
-- public projection of the capabilities. The network of the capabilities and the verifier of a
-- contract are constants, which the records leave out.
pub mod Base
pub mod Settlement
pub mod Deposit
pub mod Activity
pub mod Enrollment
pub mod Amount
pub mod Capabilities
pub mod Contract
pub mod Social
pub mod Evidence
pub mod Database
pub mod Transfers
pub mod Funding
