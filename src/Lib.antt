-- ===== src/Lib.antt =====
-- Models and theorems for the core of UmaAgent, a server that runs agents over conversations: it
-- queues the runs of a session, calls a model and its tools, keeps the conversation within the
-- window of the model, and starts tasks at their times.
--
-- Each part is a module whose comment names its file; the children of the module hold the proofs,
-- named for what they prove, and Tests holds runs at concrete inputs.
--
-- Base: Booleans, lists measured by native numbers and results of functions that may throw.
--   JsMap: JavaScript's Map with text keys, as a list in the order of insertion.
-- Semaphore: the class Semaphore of packages/core/src/runtime-support.ts. `acquire` and the
--   function it returns (`release`) are steps; a waiter that is woken goes on in a step of its own
--   (`run_on`), as the continuation of a promise does.
-- Orchestrator: packages/core/src/run-orchestrator.ts. The state is the map of the session queues,
--   with the runs that were started and the waiters of `drain`. `pump` starts a run; `finish` is the
--   `finally` block behind it. Any order of calls and ends of runs is a list of operations.
-- ToolLoop: packages/core/src/tool-loop-guard.ts. The digest of a value is a parameter.
-- Schedule: packages/core/src/scheduled-task-repository.ts (Schedule/Repository) and
--   packages/core/src/scheduler.ts (Schedule/Service), with the parts of
--   packages/core/src/runtime.ts that the scheduler calls. The tables are lists of rows; a transaction
--   that throws leaves the tables as they were. Random ids, the clock and the library of cron
--   expressions are parameters.
-- Context: packages/core/src/context-manager.ts. The estimate of tokens and the sentences that are
--   put into a conversation are parameters. The loop of `compaction_batches` runs on fuel, as much as
--   there are entries; a round takes at least one.
-- Snapshot: the client's picture of a session, apps/web/src/streaming.ts: Snapshot for pieces of
--   streamed text, Snapshot/Merge for the merging of lists, snapshots and pages, Snapshot/Events for
--   the events. What a client receives is a list of deliveries in any order.
-- EventHub: packages/core/src/events.ts, with withTransaction and appendEvent of
--   packages/core/src/database.ts. A script is any nesting of calls, errors and their handling,
--   and what a listener calls in its turn is such a script. Resource listeners make no calls.
-- ModelRetry: packages/core/src/model-retry.ts. What the provider does is a round for each attempt; the
--   tests on the texts of errors that are regular expressions or the library's are parameters, as is
--   the callback that makes a message of an error. The loop runs on fuel 8, one for each attempt.
-- Permissions: packages/core/src/permissions.ts.
-- ErrorMapping: apps/server/src/error-mapping.ts; its regular expressions look for words in any case.
-- SqlWriter: packages/telemetry/src/sql-writer.ts and packages/telemetry/src/sqlite-writer.mjs.
-- Auth: apps/server/src/auth.ts, with its tables in packages/core/src/database.ts: Auth/Tokens for the
--   text of tokens, Auth/Limits for the limits on attempts, Auth/Requests for the users of requests,
--   Auth/Codes for the exchange of codes. The digests are parameters.
-- RunApprovals: packages/core/src/run-approvals.ts, with its table in packages/core/src/database.ts.
-- RunRecovery: packages/core/src/run-recovery.ts, packages/core/src/runtime-recovery.ts and the actions
--   of runs in packages/core/src/database.ts.
-- ClientEvents: packages/client/src/index.ts: the events of one session, as steps that may come in any
--   order, and ClientEvents/Reconnect for the socket.
-- Network: the tests on addresses of apps/browser-worker/src/network.ts, over the lookup of names.
--
-- Not modelled: views, HTTP, SQL text, files, processes, models and other services, which are input
-- and output or code of libraries.
pub mod Base
pub mod JsMap
pub mod Semaphore
pub mod ToolLoop
pub mod Orchestrator
pub mod Schedule
pub mod Context
pub mod Snapshot
pub mod EventHub
pub mod ModelRetry
pub mod Permissions
pub mod ErrorMapping
pub mod SqlWriter
pub mod Auth
pub mod RunApprovals
pub mod ClientEvents
pub mod RunRecovery
pub mod Network
