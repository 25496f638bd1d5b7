-- ===== src/Lib.antt =====
-- The recording service: uploads of recordings, their transcription and summary by a pool of
-- workers, and their deletion. Facts live in MySQL; this library models the program over it.
--
-- The parts, and where they are:
--   Domain        internal/domain/recording: statuses and transitions (Status, Task), events (Event),
--                 file names (Filename), the summary and its parser (Summary, Summary/Parse); JSON
--                 values (Json); what the state machine promises (Machine).
--   ErrorCode     internal/application/errorcode.
--   Ports         internal/application/ports: the values and errors between use cases and adapters.
--   Database      internal/infrastructure/persistence/mysql: the rows (Rows, models.go), the meaning
--                 of the SQL statements on tables (Table), transactions (Tx), what a transaction can
--                 leave behind (Tx/Steps), and the consistency of task rows and event logs (Log).
--   ProcessingTx  processing_tx.go, a module for each transaction: ClaimNext (Claim),
--                 SaveTranscription (Save), CompleteTask (Complete), FailTask (Fail), ResetInFlight
--                 (Reset), InspectIntegrity and ListStoragePaths (Integrity); the rows
--                 and the event that each leaves, column by column (Effect).
--   RecordingTx   recording_tx.go: CreateWithTask and CreateOrReuseByContentHash (Create), RetryTask
--                 (Retry), MarkDeleting, PurgeRecording (Purge), and the hash lock rows (HashLock).
--   Query         query.go, the read-only adapter.
--   FileStore     internal/infrastructure/filestore/local/store.go.
--   Llm           internal/infrastructure/llm/llm.go: one call of the summary channel, and how the
--                 envelope of its response is read (Envelope).
--   Asr           internal/infrastructure/asr/mock: the stand-ins for the transcriber.
--   CancelTable, Cleanup
--                 internal/infrastructure/worker: canceltable.go and cleanup.go.
--   Service       internal/application: Upload, Delete, Retry, Queries, one round of a worker
--                 (Process) with its retried writes (Persist), and the recovery at start (Recover);
--                 what holds of the database and the files together (Sound), of the recordings and
--                 their tasks (Catalog), of an upload of a known content (Catalog/Reuse), and any
--                 sequence of the use cases, rounds and recoveries
--                 (Reach); the codes that they answer (Answers).
--   Pool          internal/infrastructure/worker/pool.go: the calls of the pool and the moves of its
--                 workers (Pool), what ending the claims does (Ending), what holds of every pool
--                 (Sound), and that a drained pool ends (Drain).
--   Http          internal/interfaces/http: the bodies (Dto), the handlers (Handlers), the stream of a
--                 recording's progress (Stream), the limit on a request's body (BodyLimit), errors and
--                 middlewares (Answer), and the routes (Router).
--   Bootstrap     bootstrap: the configuration (Environ, Config), the order of the start (Startup), and
--                 the stop in two phases (Lifecycle).
--   Uuid, Decimal internal/pkg/uuid, and the decimal numbers of the standard library.
--   System        any sequence of the transactions: reachable databases, how a task may move
--                 (Follows), what an old execution key can do (Fencing), and when the writes of a
--                 worker succeed (Progress).
--   Examples      concrete runs, and the properties at them.
--
-- How the program is modelled. A transaction is a body, a sequence of statements with its early
-- returns behind Rollback, that ends in Commit; `transact` runs it on a database. The tables are
-- lists of rows, newest first. What the program does not decide is the argument `Env` of every call:
-- which statement fails, whether the reply to COMMIT is lost (with the changes kept or dropped),
-- which rows SKIP LOCKED passes over, the server's order of ids, the clock (read once for a call)
-- and the new ids. A transaction is one step, as the row locks that it takes make it; orders of
-- transactions are sequences of steps. The hint that MarkDeleting reads before its transaction is an
-- argument, so that it can be old; it names no task of another recording. A use case runs its calls
-- in sequence, each with an environment of its own. Two calls outside, to the transcriber and to
-- the summarizer, are arbitrary functions that return, fail, or panic. The operating system's and
-- the context's answers to the file store, and SHA-256, are the argument `Disk`.
--
-- Numbers. Times are natural numbers of nanoseconds. `attempt` and `event_seq` only go up by one, so
-- they stay far below 2^63 and are natural numbers; a consistent database has attempt <= event_seq,
-- the number of the task's events. The delay of a retry is a second shifted by attempt - 1 < 2.
-- Loops are structural: over the rows of a query, the chunks of a reader, the characters of a text,
-- or the two waits of `persist`; none needs fuel.
--
-- Data. A JSON column holds a JSON value, so that JSON's syntax is not modelled; a repeated key with
-- null elements in its array is read without what the earlier value left in memory. A NULL text
-- reads as the empty text, as GORM scans it. A file name is a text of Unicode scalar values. The
-- bytes of a file are seen in its size and hash only.
--
-- The outside. What the program reads from elsewhere is an argument: the random bytes of an id; the
-- environment and the reader of durations; the exchange with the summary channel, with the JSON
-- value of a body; the parts of a multipart body; the route that gin finds for a request, with what
-- a handler reads of it; how long the parts of a stop would take. Numbers of the configuration are
-- integers, and its limits in bytes are computed modulo 2^64, as `int64` does.
--
-- Not modelled: logging, the access log, and the mirroring of events to the log, other than the
-- final event of a deletion; the construction of the adapters, and `Run`, which starts and stops
-- what is modelled; the fake of the summary channel for the tests; the static page; the migration
-- runner. The constraints of migrations/*.sql (primary and unique keys, and the checks of a new
-- recording and of a new task) are in the insert statements; the widths of its columns are not, so
-- that a text that is too long is one of the failures of a statement.
pub mod Prelude
pub mod Decimal
pub mod Uuid
pub mod Domain
pub mod ErrorCode
pub mod Ports
pub mod Database
pub mod ProcessingTx
pub mod RecordingTx
pub mod Query
pub mod FileStore
pub mod CancelTable
pub mod Asr
pub mod Cleanup
pub mod Pool
pub mod Service
pub mod Llm
pub mod Http
pub mod Bootstrap
pub mod System
pub mod Examples
