-- ===== src/Lib.antt =====
-- BullMQ, a job queue for Node.js: a model of the core of the TypeScript library.
--
-- A `Worker` (src/classes/worker.ts) runs a main loop, which fetches jobs from a backend and
-- puts the promises of the fetches and of the jobs that are processed into an `AsyncFifoQueue`
-- (src/classes/async-fifo-queue.ts). A job that is processed is tracked by the `LockManager`
-- (src/classes/lock-manager.ts), which extends its lock by a timer. When it has ended, the
-- worker moves it: a failed attempt leads to `Job.moveToFailed` (src/classes/job.ts), which asks
-- `Backoffs` (src/classes/backoffs.ts) for the delay of the next attempt. Calls of the backend
-- that fail for the connection are repeated. A `FlowProducer` (src/classes/flow-producer.ts)
-- collects the jobs of a tree and hands them to the backend at once, and a `JobScheduler`
-- (src/classes/job-scheduler.ts) asks it for the next job of a repetition; the Redis backend
-- (src/classes/redis-queue-backend.ts) makes calls of scripts of both, which a loader puts
-- together from files that include others (src/commands/script-loader.ts). The PostgreSQL
-- backend keeps its schema by migrations (src/postgres/migrator.ts). A processor may run in a
-- child process, which `sandbox` (src/classes/sandbox.ts) takes from a `ChildPool`
-- (src/classes/child-pool.ts).
--
-- Shared: tests on numbers and texts, lists over native numbers, integers and exact fractions,
--   maps in insertion order, results that may be errors.
-- Fifo: LinkedList and Fifo/Queue are the classes `LinkedList` and `AsyncFifoQueue`. The list is
--   a store of nodes with links. A promise is a number, and a call of `fetch` returns or says
--   which promise it waits for; `World` adds one consumer.
-- Backoffs: `Backoffs`, where a number with a fractional part is an exact fraction and
--   `Math.random()` is an argument. A custom strategy may throw; one that is not there and a type
--   that is an inherited name are errors of their own.
-- Job: Job/Options is the constructor and `validateOptions`, Job/Failing is `moveToFailed` with
--   `shouldRetryJob` and `updateStacktrace`, and Job/Moving is the other moves. The backend is a
--   function from the call to its answer, or the answer.
-- FlowProducer: the class of that name. FlowProducer/Adding is `addNode` with its continuations,
--   which run in any order, FlowProducer/Answers what `add` and `addBulk` do with the answers,
--   and FlowProducer/Getting is `getFlow`.
-- JobScheduler: JobScheduler/LegacyKeys is `hasLegacyRepeatableKeyShape`, which the worker uses
--   too, JobScheduler/NextMillis is `getNextMillis` and the default strategy,
--   JobScheduler/Upserting is `upsertJobScheduler`, JobScheduler/Stored is `getJobSchedulers`
--   with what it removes. A legacy key is a list of codes.
-- LockManager: the class of that name. The timer's callback is `fire` up to the call of the
--   worker, and `settle` from its answer on.
-- Worker: Worker/Timing is `waitForJob`, `getBlockTimeout`, `updateDelays` and the decisions of
--   `_getNextJob`; Worker/Retrying is `retryIfFailed`; Worker/Processing is `processJob` with
--   its handlers, over the record `Backend` of what it calls, which Worker/Processing/Moves
--   fills with the model of `moveToFailed`; Worker/MainLoop is `mainLoop`, over Fifo/Queue, as a
--   step relation; Worker/Lifecycle is `run`, `pause`, `resume`, `close` and the stalled
--   checker.
-- Queue: the loops of `clean`, `obliterate`, `retryJobs` and `promoteJobs` of
--   src/classes/queue.ts.
-- Redis: Redis/Adding is the calls that add jobs and flows, Redis/Options the names under which
--   options are stored, Redis/NodeKeys is `parseNodeKey` and Redis/Pausing is `pause`, all of
--   src/classes/redis-queue-backend.ts. The server is an argument.
-- ChildPool: the class of that name of src/classes/child-pool.ts, whose children are known by
--   their process ids. `retain` is two operations, before and after its wait for a new child.
-- Sandbox: jobs processed in a child, with the calls of `sandbox` (src/classes/sandbox.ts) that
--   take one child after the other. Sandbox/ChildProcessor is the class of
--   src/classes/child-processor.ts with its job, Sandbox/Child the start and the end of a
--   process of src/classes/child.ts, and Sandbox/Session runs both sides on events. Messages
--   arrive in the order in which they were sent, and calls are known by their number.
-- Scripts: src/commands/script-loader.ts. A script is the list of its characters, the matches of the
--   regular expression for includes and the tokens of files, and the cache is a map from paths.
--   Scripts/Resolving is `parseScript` with `resolveDependencies`, and Scripts/Interpolating is
--   `interpolate`, with the patterns that `replace` reads in a replacement.
-- BunClient: the connection of `BunRedisAdapter` of src/classes/bun-redis-client.ts. The raw
--   clients are numbered, and what the runtime does with them are the events of BunClient/Steps;
--   BunClient/Scripting is `ensureScriptsLoaded`.
-- QueueGetters: the counts of jobs by type, and how the ids of several types are merged, of
--   src/classes/queue-getters.ts; the backend's answers are arguments.
-- Errors: `finishedErrors` of src/classes/finished-errors.ts, the codes of
--   src/enums/error-code.ts and the keys of src/classes/queue-keys.ts.
-- Postgres: Postgres/Migrator is src/postgres/migrator.ts, over a server that may refuse any
--   statement; the session keeps the database of before `BEGIN` while a transaction is open.
-- Tests: runs on concrete inputs.
--
-- Times are whole milliseconds. Loops over lists are structural. `retryIfFailed` has no bound of
-- its own, since errors of the connection are retried for ever; it runs on fuel, the number of
-- calls of its operation, and where the operation answers finally, one more than the answers
-- before is enough. `getNode` runs on fuel too, for which its depth is enough from a depth of 1
-- on, and so do the loop of resuming and those of `Queue`; the fuel of `resolveDependencies` is
-- the number of files that are open at a time, and that of `interpolate` the depth of the
-- includes. The main loop, the lifecycle and the continuations of a flow are relations and need
-- no fuel. What an answer of the backend, the user's processor, a custom strategy, the cron
-- parser, `Math.random()`, `parseInt` and the server are is left open, as an argument.
--
-- Not modelled: the Lua and SQL scripts, which are in other languages, the PostgreSQL backend
-- and the other calls of the Redis backend; the commands, scripts and transactions of the
-- clients of Redis, and the other clients than that of Bun; how the loader maps paths and loads
-- commands; telemetry; the default options of the queues of a flow, and the other getters of a
-- queue; the other methods of the class `Queue`; the ports to other languages.
pub mod Shared
pub mod Fifo
pub mod Backoffs
pub mod Job
pub mod FlowProducer
pub mod JobScheduler
pub mod LockManager
pub mod Worker
pub mod Queue
pub mod Redis
pub mod Sandbox
pub mod ChildPool
pub mod Scripts
pub mod BunClient
pub mod QueueGetters
pub mod Errors
pub mod Postgres
pub mod Tests
