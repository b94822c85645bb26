-- ===== src/Lib.antt =====
-- minicrond: a model of the parts of the program that decide which definitions the daemon accepts, which
-- run starts when, and what of a run is remembered and told.
--
-- The program. A definition names a job or a worker. The executor (internal/executor) admits a run
-- of it, executes it and keeps its outcome; a job needs one of `max_runs` slots and otherwise waits
-- in a queue that the metadata database holds (internal/store). The drain loop starts queued runs as
-- slots come free, the retry scheduler triggers failed jobs again, and history that the database
-- cannot take now waits in memory. The scheduler (internal/scheduler) triggers jobs at their times and
-- catches up after a downtime. The supervisor (internal/supervisor) restarts workers. The HTTP
-- interface (internal/api) admits expensive reads through a gate, and the log store
-- (internal/logstore) keeps the logs within a disk budget. The configuration (internal/config) is
-- filled from defaults and validated before any of them reads it, and a command of the client
-- (cmd/minicrond/crontab.go) imports the user's crontab through the daemon. Ends of runs are queued as
-- alerts for the channels of a definition (internal/alerts).
--
-- Which file models which part:
--   Model                 internal/model/model.go: the fields of `Definition` that a run depends on
--   Store/Tables          internal/store/store.go: the tables `runs`, `exec_queue` and
--                         `idempotency` as lists of records, `CreateRun`'s keys, errors
--   Store/Lifecycle       internal/store/store.go: `CreateRun`, `AdmitIdempotentRun`, `StartRun`,
--                         `FinishRunWithUsage`, `Recover`, `DeleteRuns`
--   Store/Queue           internal/store/queue.go: `EnqueueRun`, `ExpireQueued`, `DropQueued`,
--                         `CancelQueued`, `DequeueRun`, `QueueHeads` and the statistics
--   Store/Registry/Changes internal/store/store.go: `putDefinition`, `ImportDefinitions`,
--                         `SyncConfigDefinitions`, `DeleteDefinition`, `SetEnabled`
--   Store/Registry, Registry/*
--                         their tables, the history of revisions, puts under an expected revision
--   Store/Queue/*, Store/Sound/*, Store/History
--                         limits, replays, expiry and dequeues; the invariant of the tables; the
--                         order of a run's statuses
--   Executor/State        internal/executor/executor.go and queue.go: `Service` and its parts
--   Executor/Backlog      storage.go, finalizer.go: `admitRow`, `spool`, `deferRecord`
--   Executor/Admission    queue.go, executor.go: `enqueue`, `recordSkipped`
--   Executor/Trigger      executor.go: `trigger`, `launch`
--   Executor/Retries      retries.go: `addRetry`, `scheduleRetry`, `retryStep`
--   Executor/Completion   executor.go: `complete` and the deferred part of `execute`
--   Executor/Writer       finalizer.go: `writeHistory`, `finalizePass`; Writer/* what they leave
--   Executor/Drain, Step  queue.go: `nextItem`, `startQueued`, `drainStep`
--   Executor/Capacity/*   the slots, the active runs and the runs per name through every move
--   Executor/SingleFlight overlapping runs through every move
--   Executor/Fairness, Bounds, Overlap
--                         the choice of the next run, the memory bounds, refusals to launch
--   Supervisor            internal/supervisor: `restartDelay`, `restartAfter`, `resetExhaustion`,
--                         `persistExhaustion`, and what the worker's loop does after a run's end
--   Reads, Reads/*        internal/api/readlimit.go: `newReadGate`, `acquireKind` and its release;
--                         what holds the gate and waits for it, downloads beside pages
--   Disk                  internal/logstore/budget.go: `pressure`, `probe`, `pruneSealed`,
--                         `finishPass`, `EnforceDiskBudget`
--   Disk/Measure, Relief, Verdict
--                         what a measurement says, what is freed, and what a pass says
--   Scheduler             internal/scheduler/scheduler.go: `nextFire`, `nextFireDistinct`,
--                         `secondFoldEnd`, `forwardTransition`
--   Scheduler/CatchUp     `overdue`, `latestFire`
--   Scheduler/Loop        `scheduleMemory` and the acts of `runPass`, from pass to pass
--   Scheduler/Restart     internal/store/store.go: `LastScheduledFire`, and a loop after a restart
--   Scheduler/Grid, Advance, Overdue, Latest
--                         interval arithmetic, fires after an instant, missed occurrences
--   Config/Definition     internal/model/model.go: `Definition` whole; internal/config/config.go:
--                         `DefinitionInput`, `Resolve`, `EditableInput`
--   Config/Fill           `mergeDefinitionDefaults`, `applyDefinitionDefaults`
--   Config/Check, Validate the tests of `validateDefinitions`, and its callers `ParseImport` and
--                         `ValidateDefinitionInput`
--   Config/Settings, Load the sections of the file, `applyConfigDefaults`, `validateConfig`, `Load`
--   Config/Values, Rules  `cmp.Or`, sizes, durations, patterns; lists of tests
--   Config/RoundTrip, Valid, Layers, Limits, Sections, Loaded
--                         edited definitions, what validation ensures, where imported fields come from
--   Crontab/Text          the functions on texts that cmd/minicrond/crontab.go calls
--   Crontab/Parse         `parseCrontab`, `commentCrontab`
--   Crontab/Import        `crontab`, the steps of the command
--   Crontab/Split, Comments, Again
--                         lines split and joined, and the commented crontab read again
--   Alerts/Notify, Drops  internal/alerts/alerts.go: `Notify`; `observeDrop`, `flushDrops`
--   Alerts/Newest, Account
--                         the ring as a list of the newest, and what becomes of each alert
--   Alerts/Deliveries     internal/store/alerts.go: `RecordAlerts`, `RecordAlertsForStoredRuns`
--   Alerts/Park, Parked   internal/daemon/alert_park.go: `park` and `flush`; what its loop keeps
--   Examples              runs of all this at concrete inputs
--
-- How state and effects are modelled. An operation takes the state and returns the next one. Clock
-- readings are arguments, in nanoseconds; `UnixMicro` divides by 1000. A transaction that fails
-- leaves the tables as they were, and which storage calls of a step fail is told by `World.fails`;
-- `World` also holds the next run identity, the definitions, a caller that gives up and a shutdown
-- that begins meanwhile; the background writer is told which of its calls fail, and a
-- pass over the disk budget is given what it measures and deletes. The admission slot makes triggers
-- and starts from the queue take turns, so a sequence of moves stands for their interleavings; what other goroutines of the supervisor do
-- between two locks is a function from state to state. The rounds of the exhaustion writer are a
-- list of attempts, and one that ends first answers `none`. The loop of `restartDelay` recurs on its
-- number of rounds and a retry pass on the size of its batch. The scheduler's search for a forward
-- transition recurs on the nanoseconds between its bounds, its backward search on eight windows, and
-- the two loops that the source bounds by a count recur on that count.
--
-- What package cron and package time answer is the record `Clock`, and `IsClock` is what they
-- document: what follows an instant is later, and cron times and transitions fall on whole seconds.
-- An instant counts nanoseconds from the zero time, so that a backward window never passes it.
--
-- A list of tests stands for a chain of early returns, and the text of an error names the setting only. In
-- Config an integer may be negative, and a map or a list that may be nil is an `Option`. The
-- configuration is decoded: what package toml leaves out is a zero value or `none`. Time zones, the cron
-- parser, users, paths and addresses are the record `Host`. JSON is modelled by what `omitempty` drops.
--
-- Assumptions. Identities of runs are texts made outside the model. Durations, counts and limits are
-- natural numbers outside Config, since the configuration refuses negative ones, and sums of them stay far from
-- 2^63. A guarded UPDATE by primary key touches at most one row. Where Go leaves an order open (equal
-- due times of a heap, the entry that a full outcome map loses) the model takes insertion order.
--
-- Not modelled: processes and their signals, log capture and archives, the rest of the HTTP
-- interface and of the command line, the decoding of files, the batching and delivery of alerts, the loops of the scheduler as goroutines,
-- foreign keys to definitions, `PruneMetadata` (which deletes all but the newest 100 revisions of a
-- definition, old audit entries and expired replay keys), log lines and callbacks' panics.
pub mod Prelude
pub mod Model
pub mod Store
pub mod Executor
pub mod Supervisor
pub mod Reads
pub mod Scheduler
pub mod Disk
pub mod Config
pub mod Crontab
pub mod Alerts
mod Examples
