-- ===== src/Lib.antt =====
-- The upload server of divinevideo, as checked models of its Rust sources with the theorems that
-- make them correct. Paths are relative to the root of the repository.
--
-- The program receives media uploads over HTTP. A client opens a resumable session, sends the file in
-- ranges and completes the session; the server checks the SHA-256 of what it received, puts it under
-- its hash in object storage, and announces it to a processing pipeline.
--
-- What models what:
--   Prelude, Result, Exec   shared names, `anyhow`-style results, and code with effects: an `Exec`
--                           is a function of the world (what stands outside the code: storage, the
--                           database, the clock) that returns a result and the world after it, and
--                           keeps what it did when it fails.
--   Text                    the string functions of Rust's `std` that the sources call, on lists of
--                           code points; Text/Decimal has `u64` printing and parsing.
--   MediaType               src/media_type.rs, `normalize`.
--   Resources               src/resources.rs: the settings, `check_size`, the permits.
--   Query                   the parts of an SQL query on a table, which is the list of its rows, and what
--                           the statements leave under a primary key (Query/Keyed).
--   Storage                 src/storage/mod.rs: Objects has `WriteMode`, `StorageProvider`,
--                           `ObjectRef`; Media the parts of `MediaStorage` and the clients it calls, as
--                           records of operations; Reads and Writes its methods. Streams has the bytes
--                           of a stream; Copies and Placement are about a write that succeeded.
--   Resumable               src/resumable.rs. Data has the structs, Range the `Content-Range`
--                           header, Traits the traits `SessionStore` and `ResumableBackend` as
--                           records of operations, with the processing outbox and the machine (clock,
--                           random source, hashing, permits) beside them. Sessions, Manager and
--                           Completion have the methods of `ResumableManager`. Contract says what
--                           is relied on of the store (a save or a delete changes the session it names
--                           or fails and changes nothing, a save may give a new revision) and of the
--                           rest (no session is changed). Keeps has one lemma for each method: what
--                           it preserves. Invariant and Invariant/Progress run any sequence of
--                           requests; Success says what a successful answer proves. Memory is an
--                           in-memory instance of the interfaces, on which Tests runs the code. Gcs has
--                           `GcsSessionStore` and `GcsResumableBackend` over the storage client.
--   Processing              src/processing.rs: the event `MediaFinalizedV1` and its identity.
--   Inbox                   src/inbox.rs: Data has the structs and the settings, Validate the checks,
--                           Tables the three tables of database/migrations/003_finalization_inbox.sql
--                           with the statements on them, Store the operations `lookup`, `accept`,
--                           `claim`, `renew` and `complete`. An operation is one transaction: its
--                           result has the tables it commits, and an error commits nothing; what the
--                           clock and SKIP LOCKED answer are arguments. A transaction that the
--                           database fails is one that is not in the sequence, or one that is there
--                           and was not acknowledged. Laws, Rows and Carries say what each operation
--                           does to one row, for any relation that the statements respect; History
--                           runs any sequence of transactions; Fencing and Deadlines have the
--                           leases, Replay (with Remembers) the repeated delivery of an
--                           event, Receipts the repeated completion.
--                           Http is src/inbox_http.rs, over the operations of the store, and
--                           Authority says who it lets in and what its answers prove.
--   Outbox                  src/outbox.rs, on the tables of
--                           database/migrations/002_processing_outbox.sql: Data has the rows,
--                           Destinations and Intents the admission of an upload, Enqueue the transaction
--                           that commits its event, Sources the copies that events record, Dispatch the
--                           loop that offers events to the consumer, Recovery the pass over pending intents,
--                           on which Intact says what has been read; Retained is about Sources.
--                           Policy, Admission and Receipts are
--                           about admission and commit; Delivery runs any sequence of statements on the
--                           events; Fencing, Progress, Drain and Retries are about dispatch.
--   Provider                src/resumable_storage.rs, on the tables of
--                           database/migrations/001_upload_coordination.sql: Tables has the rows and
--                           the statements, each of which may fail; Store is `ProviderSessionStore`, Rows
--                           and Refines compare it with the contract of the manager; Identity, Staged and
--                           Backend are `MediaResumableBackend`, of which Assembly and Chunks show what it
--                           checks; Sweep is `sweep_expired`.
--   RequestLog              src/request_log.rs.
--
-- Numbers of type `u64` are natural numbers with the wrap-around of `+ 1` written out; the offsets of
-- an accepted range are 64-bit by parsing. No function of the model needs fuel, except that printing
-- takes at most twenty decimal digits, which covers every 64-bit number. The rounds of
-- `dispatch_once` are counted down, as its `for` loop does. An `Exec` always returns. The attempts of an event, a SQL
-- integer, are unbounded. The MAC of a token is a parameter, of which nothing is assumed.
--
-- Not modelled: the clients of Google Cloud Storage, Backblaze B2 and Postgres, the HTTP routing and
-- ffmpeg, which are calls of other code; an event that is stored is one that its JSON decodes to; and
-- src/producer_journal.rs, src/storage/b2.rs, `ResumableRuntime::new`, which opens the database, and the handlers of src/main.rs. Requests on one
-- session are served one at a time, as the lock of the session store grants; a transaction of the inbox
-- is one step, as its row locks grant.
pub mod Prelude
pub mod Result
pub mod Exec
pub mod Text
pub mod Query
pub mod MediaType
pub mod Resources
pub mod Storage
pub mod Resumable
pub mod Processing
pub mod Inbox
pub mod Outbox
pub mod Provider
pub mod RequestLog
