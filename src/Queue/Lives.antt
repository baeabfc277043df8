-- ===== src/Queue/Lives.antt =====
-- Lives of the queue: internal/queue/queue.go, internal/queue/maintain.go and internal/store/wal.go
-- through any operations of which no call fails, and any crashes, each with a start after it.
use rc_wnzzer.Base.{ℕ, ◌+◌, ◌≤◌, ◌≡◌, ◌≢◌, Bool, true, Bytes, bytes, some, List, [], ◌∷◌, occurs}
use rc_wnzzer.Base.Table.{lookup}
use rc_wnzzer.Model.{Task, sending}
use rc_wnzzer.Store.Record.{res_retry}
use rc_wnzzer.Store.Codec.{Codec}
use rc_wnzzer.Store.Wal.{
  Fault, Io, none_fails, CompactFault, open_wal, close_wal, sync_tick, enqueue_record,
  attempt_record, done_record, dead_record, truncate, err_field_max, Crash, reopen,
}
use rc_wnzzer.Store.Replay.{no_fault}
use rc_wnzzer.Queue.State.{Config, Queue, new}
use rc_wnzzer.Queue.Ops.{lease, defer, submit, on_retry, on_success, on_dead, revive}
use rc_wnzzer.Queue.Maintain.{purge_expired, enforce_task_cap, snapshot, compact_queue}
use rc_wnzzer.Queue.Invariant.{Inv, new-Inv}
use rc_wnzzer.Queue.Admits.{submit-Inv}
use rc_wnzzer.Queue.Keeps.{on_retry-Inv, on_success-Inv, on_dead-Inv, defer-Inv, revive-Inv}
use rc_wnzzer.Queue.Lease.{lease-Inv}
use rc_wnzzer.Queue.Purge.{purge_expired-Inv}
use rc_wnzzer.Queue.Cap.{enforce_task_cap-Inv}
use rc_wnzzer.Queue.Upkeep.{compact_with-Inv}
use rc_wnzzer.Queue.Restore.{restore}
use rc_wnzzer.Queue.Restore.Folded.{AllSound}
use rc_wnzzer.Queue.Ledger.{IsRecorded}
use rc_wnzzer.Queue.Ledger.Writes.{Ledger-fresh}
use rc_wnzzer.Queue.Ledger.Restarts.{Started, crash-Started, close-Started}
use rc_wnzzer.Queue.Ledger.Moves.{
  Books, given_more, submit-Books, lease-Books, defer-Books, on_retry-Books, on_success-Books,
  on_dead-Books, revive-Books,
}
use rc_wnzzer.Queue.Ledger.Upkeep.{
  new-Books, purge-Books, cap-Books, tick-Books, compact-Books, store-Inv,
}

-- The queues that a life reaches, with the ids that were drawn for submissions. What is written is
-- read back as it was written.
pub data Life (c : Codec) : List Bytes → Queue → Type 0 where
  begins : (cfg : Config) → Life c [] (new cfg (open_wal 0 []))
  submits :
      {given : List Bytes} {q : Queue}
      → Life c given q
      → (io : Io) (t : Task) → io.fault ≡ none_fails
      → c.is_utf8 (enqueue_record io.ts t) ≡ true
      → t.idem_key ≢ []
      → occurs t.id given ≡ 0
      → t.attempts ≡ 0
      → Life c (t.id ∷ given) (submit c io t q).0
  draws : {given : List Bytes} {q : Queue} → Life c given q → (id : Bytes) → Life c (id ∷ given) q
  leases :
      {given : List Bytes} {q : Queue} → Life c given q → (now : ℕ) → Life c given (lease now q).0
  defers :
      {given : List Bytes} {q : Queue}
      → Life c given q
      → (id : Bytes) (t : Task) (next_at : ℕ) → lookup id q.tasks ≡ some t
      → t.state ≡ sending
      → t.next_at ≤ next_at
      → Life c given (defer id next_at q)
  retries :
      {given : List Bytes} {q : Queue}
      → Life c given q
      → (id : Bytes) (t : Task) (io : Io) (now code : ℕ) (msg : Bytes) (next_at : ℕ)
      → lookup id q.tasks ≡ some t
      → t.state ≡ sending
      → io.fault ≡ none_fails
      → c.is_utf8 (
          attempt_record io.ts t.id
            (t.attempts + 1)
            res_retry
            code
            (truncate msg err_field_max)
            next_at)
        ≡ true
      → Life c given (on_retry c io now id code msg next_at q).0
  succeeds :
      {given : List Bytes} {q : Queue}
      → Life c given q
      → (id : Bytes) (t : Task) (io : Io) (now code : ℕ) (resp : Bytes) → lookup id q.tasks ≡ some t
      → t.state ≡ sending
      → io.fault ≡ none_fails
      → c.is_utf8 (done_record io.ts t.id (t.attempts + 1) code (truncate resp err_field_max))
        ≡ true
      → Life c given (on_success c io now id code resp q).0
  dies :
      {given : List Bytes} {q : Queue}
      → Life c given q
      → (id : Bytes) (t : Task) (io : Io) (now code : ℕ) (msg why : Bytes)
      → lookup id q.tasks ≡ some t
      → t.state ≡ sending
      → io.fault ≡ none_fails
      → c.is_utf8 (dead_record io.ts t.id (t.attempts + 1) why) ≡ true
      → Life c given (on_dead c io now id code msg why q).0
  revives :
      {given : List Bytes} {q : Queue}
      → Life c given q
      → (io : Io) (now : ℕ) (id : Bytes) → io.fault ≡ none_fails
      → c.is_utf8
          (attempt_record io.ts id 0 res_retry 0 (truncate (bytes "revived") err_field_max) now)
        ≡ true
      → Life c given (revive c io now id q).0
  purges :
      {given : List Bytes} {q : Queue}
      → Life c given q
      → (now : ℕ) → Life c given (purge_expired now q)
  caps : {given : List Bytes} {q : Queue} → Life c given q → Life c given (enforce_task_cap q)
  ticks :
      {given : List Bytes} {q : Queue}
      → Life c given q
      → Life c given (record q { store = sync_tick none_fails q.store })
  compacts :
      {given : List Bytes} {q : Queue}
      → Life c given q
      → AllSound c (snapshot q.tasks)
      → Life c given (compact_queue c CompactFault.no_fault q).0
  crashes :
      {given : List Bytes} {q : Queue}
      → Life c given q
      → (n : Crash) (cfg : Config) (io : Fault)
      → Life c given (restore c no_fault io (new cfg (reopen n q.store))).0

-- Through any life the queue keeps its invariant, and the journal records the tasks in memory.
pub Life-Books :
    (c : Codec) {given : List Bytes} {q : Queue} → Life c given q → Inv q × Books c given q
unfolding compact_queue
Life-Books c (begins cfg) = (new-Inv cfg (open_wal 0 []), new-Books c cfg)
Life-Books c (submits {given} {q} l io t ok text key fresh new) =
    let (v, b) = Life-Books c l in
    (
      submit-Inv c io t q v key (Ledger-fresh b t.id fresh),
      submit-Books c given q v b io t ok text fresh new,
    )
Life-Books c (draws {given} {q} l id) =
    let (v, b) = Life-Books c l in (v, given_more c given q v b id)
Life-Books c (leases {given} {q} l now) =
    let (v, b) = Life-Books c l in (lease-Inv now q v, lease-Books c given q v b now)
Life-Books c (defers {given} {q} l id t next_at at busy late) =
    let (v, b) = Life-Books c l in
    (defer-Inv id t q v at next_at busy, defer-Books c given q v b id t next_at at busy late)
Life-Books c (retries {given} {q} l id t io now code msg next_at at busy ok text) =
    let (v, b) = Life-Books c l in
    (
      on_retry-Inv c io now id t q v at code msg next_at busy,
      on_retry-Books c given q v b id t at io ok now code msg next_at busy text,
    )
Life-Books c (succeeds {given} {q} l id t io now code resp at busy ok text) =
    let (v, b) = Life-Books c l in
    (
      on_success-Inv c io now id t q v at code resp busy,
      on_success-Books c given q v b id t at io ok now code resp busy text,
    )
Life-Books c (dies {given} {q} l id t io now code msg why at busy ok text) =
    let (v, b) = Life-Books c l in
    (
      on_dead-Inv c io now id t q v at code msg why busy,
      on_dead-Books c given q v b id t at io ok now code msg why busy text,
    )
Life-Books c (revives {given} {q} l io now id ok text) =
    let (v, b) = Life-Books c l in
    (revive-Inv c io now id q v, revive-Books c given q v b io now id ok text)
Life-Books c (purges {given} {q} l now) =
    let (v, b) = Life-Books c l in (purge_expired-Inv now q v, purge-Books c given q v b now)
Life-Books c (caps {given} {q} l) =
    let (v, b) = Life-Books c l in (enforce_task_cap-Inv q v, cap-Books c given q v b)
Life-Books c (ticks {given} {q} l) =
    let (v, b) = Life-Books c l in
    (store-Inv q (sync_tick none_fails q.store) v, tick-Books c given q v b)
Life-Books c (compacts {given} {q} l sound) =
    let (v, b) = Life-Books c l in
    (
      compact_with-Inv c CompactFault.no_fault (snapshot q.tasks) q v,
      compact-Books c given q v b sound,
    )
Life-Books c (crashes l n cfg io) =
    let s = crash-Started (Life-Books c l).1 n cfg io in (s.queue_Inv, s.ledger)

module _ (c : Codec) {given : List Bytes} {q : Queue} (life : Life c given q) (n : Crash)
    (cfg : Config) (io : Fault) where
  -- After any life of which no call fails, its own crashes and starts included, a crash at any moment
  -- and a start of which no call fails: the start succeeds, no task in memory is lost, and its id, key,
  -- policy, caller and target are as they were, the target up to its stripping after a success; those
  -- that have not ended are in the heap, each once, every idempotency key leads to a task, and the queue is in a state of the invariant, whose tasks the
  -- journal again records.
  pub crash-loses_nothing :
      Started c given q.tasks (restore c no_fault io (new cfg (reopen n q.store)))
  crash-loses_nothing = crash-Started (Life-Books c life).1 n cfg io

  -- After any life of which no call fails, its own crashes and starts included, a close that does not
  -- fail, a crash at any moment and a start of which no call fails: the start succeeds and loses
  -- nothing, and each task that was in memory has the attempts that it had, its target, perhaps
  -- stripped once it has succeeded, and its end with the reason, or it has not ended, and the next
  -- attempt is no later than it was.
  pub close-remembers :
      (is_closed : Bool)
      → let w = (close_wal none_fails is_closed q.store).0 in
        let r = restore c no_fault io (new cfg (reopen n w)) in
        Started c given q.tasks r
        × ((j : Bytes) → IsRecorded (lookup j q.tasks) (lookup j r.0.tasks))
  close-remembers is_closed = close-Started (Life-Books c life).1 n is_closed cfg io
