-- ===== src/Examples/Restarts.antt =====
-- Accepted submissions, crashes and restarts at concrete inputs.
use rc_wnzzer.Base.{◌≡◌, refl, bytes, Bytes, some, none, [], ◌∷◌, ◌++◌, occurs, true, false}
use rc_wnzzer.Base.Table.{lookup, insert, weight_of}
use rc_wnzzer.Model.{persisted}
use rc_wnzzer.Store.Record.{Record}
use rc_wnzzer.Store.Codec.{line, lines}
use rc_wnzzer.Store.Wal.{
  Wal, Io, none_fails, sync_fails, no_fault, crash, compact, append, append_enqueue, append_attempt,
  append_done, append_dead, truncate, write_fails, write, flush, done_record, reopen,
}
use rc_wnzzer.Store.Wal.Journal.{IsJournal, compact-safe, append-recent}
use rc_wnzzer.Store.Wal.Failures.{ticks, run_ops}
use rc_wnzzer.Store.Replay.{ReplayFault}
use rc_wnzzer.Queue.State.{new, schedule, store_failed, update, next_at_of}
use rc_wnzzer.Queue.Ops.{
  accepted, enqueued, submit, submit_new, lease, on_success, on_dead, on_retry, retried,
}
use rc_wnzzer.Queue.Maintain.{snapshot, snapshot_task, compact_with, compact_queue}
use rc_wnzzer.Queue.Invariant.{Inv, live, new-Inv}
use rc_wnzzer.Queue.Durable.{submit-durable}
use rc_wnzzer.Queue.Race.{mentions, compact-forgets}
use rc_wnzzer.Queue.Restore.{from_enq, restore}
use rc_wnzzer.Queue.Restore.Folded.{AllSound}
use rc_wnzzer.Queue.Restore.Remembers.{AllRemembered, KeyKnown, compact-remembers}
use rc_wnzzer.Queue.Restore.Restart.{restart-keeps}
use rc_wnzzer.Examples.Json.{sample_codec}
use rc_wnzzer.Examples.Inputs.{killed, task, config, io, journal, enqueue, fresh_queue}
use rc_wnzzer.Queue.Stranded.{on_retry-stranded}
use rc_wnzzer.Queue.Heap.{push, pop, up, down, swap}
use rc_wnzzer.Examples.Queues.{
  one_task, three_tasks, three_tasks-Inv, fresh_id, out_queue, out_queue-Inv, out_task, out_held,
}

is_accepted : (submit sample_codec io task fresh_queue).1 ≡ accepted (enqueued task)
unfolding submit submit_new append_enqueue schedule new lookup write flush
is_accepted = refl

submit-durable_example :
    (rest : Bytes) × (crash 0 (run_ops sample_codec (ticks sync_fails ∷ []) one_task.store)
      ≡ (fresh_queue.store.file ++ (fresh_queue.store.buf ++ line sample_codec enqueue)) ++ rest)
submit-durable_example =
    submit-durable sample_codec io task (enqueued task) fresh_queue (ticks sync_fails ∷ []) 0
      is_accepted

compact-forgets_example :
    let q' = (compact_with sample_codec no_fault (snapshot fresh_queue.tasks) one_task).0 in
    (lookup task.id q'.tasks ≡ some (enqueued task))
    × (q'.store.file ++ q'.store.buf ≡ lines sample_codec (snapshot fresh_queue.tasks))
    × (mentions task.id (snapshot fresh_queue.tasks) ≡ false)
compact-forgets_example =
    compact-forgets sample_codec io task (enqueued task) fresh_queue (new-Inv config journal)
      fresh_id is_accepted

abbrev compacted : Wal
compacted = (compact sample_codec no_fault (enqueue ∷ []) journal).0

abbrev pub other_done : Record
other_done = done_record 9 (bytes "7") 1 200 []

abbrev pub written : Wal
written = (append sample_codec io other_done false compacted).0

pub written-IsJournal : IsJournal sample_codec ([] ++ enqueue ∷ []) ([] ++ other_done ∷ []) written
written-IsJournal =
    append-recent sample_codec io other_done refl (compact-safe sample_codec (enqueue ∷ []) journal)

pub is_utf8 : sample_codec.is_utf8 enqueue ≡ true
unfolding sample_codec
is_utf8 = refl

pub is_utf8_done : sample_codec.is_utf8 other_done ≡ true
unfolding sample_codec
is_utf8_done = refl

restart-keeps_example :
    let r =
      restore sample_codec ReplayFault.no_fault none_fails (new config (reopen killed written)) in
    (r.1 ≡ none)
    × (lookup task.id r.0.tasks ≡ some (from_enq 5 (persisted task)))
    × (occurs task.id r.0.due ≡ 1)
restart-keeps_example =
    restart-keeps sample_codec [] task 5 tt is_utf8 ([] ++ other_done ∷ []) killed written config
      none_fails written-IsJournal (is_utf8_done, refl, tt) (refl, tt)

-- The writer takes three bytes of the line and fails.
abbrev broken : Io
broken = record { ts = 6; fault = write_fails 3; spilled = 0 }

retry_refused : (on_retry sample_codec broken 8 task.id 503 [] 20 out_queue).1 ≡ some store_failed
unfolding on_retry append_attempt truncate lease submit submit_new append_enqueue schedule new
    lookup insert update push pop next_at_of write flush up down swap
retry_refused = refl

on_retry-stranded_example :
    let q' = (on_retry sample_codec broken 8 task.id 503 [] 20 out_queue).0 in
    (lookup task.id q'.tasks ≡ some (retried 8 503 [] 20 out_task))
    × (q'.active ≡ out_queue.active)
    × (occurs task.id q'.due ≡ 0)
on_retry-stranded_example =
    on_retry-stranded sample_codec broken 8 task.id out_task out_queue 503 [] 20 out_queue-Inv
      out_held refl retry_refused

snapshot_is_sound : AllSound sample_codec (snapshot three_tasks.tasks)
unfolding sample_codec snapshot snapshot_task lease submit submit_new append_enqueue on_success
    append_done on_dead append_dead schedule new lookup insert update push pop next_at_of write
    flush up down swap
snapshot_is_sound = (refl, refl, (refl, refl, (refl, refl, (refl, refl, (refl, refl, tt)))))

compact-remembers_example :
    let w = (compact_queue sample_codec no_fault three_tasks).0.store in
    let r = restore sample_codec ReplayFault.no_fault none_fails (new config (reopen killed w)) in
    (r.1 ≡ none)
    × ((j : Bytes) → AllRemembered (lookup j three_tasks.tasks) (lookup j r.0.tasks))
    × ((j : Bytes) → occurs j r.0.due ≡ weight_of live (lookup j three_tasks.tasks))
    × ((j : Bytes) → KeyKnown (lookup j three_tasks.tasks) r.0.idem)
    × Inv r.0
compact-remembers_example =
    compact-remembers sample_codec three_tasks config none_fails killed three_tasks-Inv
      snapshot_is_sound
