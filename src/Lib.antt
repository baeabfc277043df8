-- ===== src/Lib.antt =====
-- notifyd: a service that accepts HTTP notifications, journals each before it answers, and delivers
-- it at least once, with retries, until it succeeds or is given up.
--
-- The parts. `internal/api` accepts a submission and calls `internal/queue`, which keeps all tasks in
-- memory (a map, an index of idempotency keys, and a heap of due tasks) and writes every transition to
-- the journal of `internal/store`. `internal/dispatch` leases due tasks from the queue, sends the
-- request, judges the answer, and reports it to the queue. A maintenance round expires tasks that
-- have ended, caps their number, and compacts the journal. At the start the queue is restored from
-- the journal.
--
-- The files.
--   Base: byte strings, lists over the native numbers, and Go's maps as association lists whose order
--   stands for the order of one iteration.
--   Model: internal/model/task.go, with `NewID` in Model/NewId. A `*model.Task` is the id under which
--   the task map holds it.
--   Store/Record, Store/Codec: internal/store/store.go, and encoding/json as a parameter.
--   Store/Wal: internal/store/wal.go. The state is the file as the operating system has it, how much of
--   it is synced, the writer's buffer and its sticky error. A crash, of the machine or of the process
--   alone, leaves the synced part and any prefix of the rest, of which any prefix is on the disk. Which call fails is an argument (`Io`, `Fault`, `CompactFault`).
--   Store/Wal/Journal and Failures: what the journal holds while all calls succeed, and when any fails.
--   Store/Replay: `WAL.Replay`; Replay/Lines and Replay/Recovery follow it through a torn file.
--   Queue/Heap: internal/queue/heap.go with `container/heap` over it, by index as Go does it.
--   Queue/State, Queue/Ops: internal/queue/queue.go, one function for each method. The mutex makes
--   each a single step; the clock and the answers of the system are arguments.
--   Queue/Restore: `Queue.Restore`; below it the loop that fills the heap (Rebuilt), the callback
--   (Folded, Sound), a start after a crash (Starts, Restart), and a start from what a compaction has
--   written (Snapshot, Compacted, Remembers). Queue/Maintain: internal/queue/maintain.go.
--   Queue/Invariant, Keeps, Admits, Lease, Purge, Victims, Cap, Upkeep: the queue's invariant, that the
--   operations keep it, and what `Lease`, the expiry and the cap do. Queue/Sending: which operations
--   change whether a task is being sent. Queue/Durable, Race, Stranded: what an accepted submission
--   promises, and where a compaction or a failed append breaks in. Queue/Ledger: what the journal has
--   of each task, kept by every operation, a compaction and a start. Queue/Lives: lives of the queue.
--   Queue/Still: what leaves the tasks that are being sent as they are.
--   Dispatch: `Classify`, `Backoff` and `ParseRetryAfter` of internal/dispatch/backoff.go, and `deliver`
--   of internal/dispatch/dispatch.go. Durations are nanoseconds; the sums and products that may leave int64
--   are wrapped as int64 does.
--   Dispatch/Target: the address checks of internal/dispatch/client.go, on addresses as numbers, and
--   Target/Nets: the ranges that they refuse.
--   Api: `validate`, `handleSubmit` and `handleRetry` of internal/api/api.go; Promises and Retry: what
--   the answers stand for. Api/Reads: `handleGet` and `handleList`. Api/Auth: internal/api/auth.go, with
--   the decimal texts (Decimal), what a signature covers (Canonical), and who is let in (Verify).
--   Api/Receive: `handleSubmit` with its `Verify` and the limit of the body.
--   Dispatch/Request: `doRequest` and `decodeBody` of internal/dispatch/dispatch.go, and
--   Dispatch/Exchange: `deliver` with the request that it sends.
--   Dispatch/Run: `Run` of internal/dispatch/dispatch.go with `hostSemFor` and `hostOf`, one function for
--   each stretch between two waits; the semaphores are numbers of tokens, a goroutine is a `Flight`.
--   Program: the steps of the loop, the workers, the requests and the maintenance over one queue, in
--   any order (Steps), what holds between two of them (Sound, Moves, Workers, Kept), of all that is
--   reached (Reach), what submissions are answered (Answers), through any crashes and starts (Courses), the end of the loop and the workers
--   (Shutdown), and `run` of cmd/notifyd/main.go from the start of its goroutines to its return
--   (Exits). Program/Start: `run` of cmd/notifyd/main.go up to where it serves, from the
--   configuration, the keys and the log.
--   Metrics: internal/metrics/metrics.go, with its maps (Counters), what they count (Counted), `Render`
--   (Render), and the orders that a scrape does not show (Scrapes). Api/Probes: `handleHealth` and
--   `handleMetrics`. Config: `Load` of internal/config/config.go, and Config/Keys: `LoadKeys`.
--   Examples: a codec, concrete states, and the theorems at them.
--
-- Bounds and fuel. The sift of the heap recurses on fuel: the number of entries, which is more than
-- the depth of the heap; the loop of `Backoff` on the attempt; decimal text on 19 digits, enough for
-- an int64, and an id on its 26. All other loops are structural.
--
-- Not modelled. Timers, directories, the routes and the JSON of the answers, and of cmd/notifyd the
-- flags, the log and the settings of the HTTP server. A negative duration in the configuration, which
-- `Load` lets through, is an outcome of its own in Program/Start; where a cap of the backoff above
-- 2^62 ns makes `rand.Int64N` panic, the model goes on with any number. The random id of a new task is an
-- argument; that it is fresh is a hypothesis where it matters. Log output is left out.
pub mod Base
pub mod Model
pub mod Store
pub mod Queue
pub mod Dispatch
pub mod Api
pub mod Program
pub mod Metrics
pub mod Config
pub mod Examples
