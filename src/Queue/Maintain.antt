-- ===== src/Queue/Maintain.antt =====
-- internal/queue/maintain.go: expiry, the cap on all tasks, and compaction.
use rc_wnzzer.Base.{
  ℕ, ◌-◌, ◌*◌, Bool, true, false, not, ◌&&◌, ◌||◌, Bytes, str_eq, Option, none, some, List, [], ◌∷◌,
  ◌++◌, length, ltb, leb, ◌==◌, if◌then◌else◌,
}
use rc_wnzzer.Base.Table.{Table, lookup, delete}
use rc_wnzzer.Model.{State, Task, succeeded, dead, strip, state_eq, terminal}
use rc_wnzzer.Store.Record.{Record, res_retry}
use rc_wnzzer.Store.Codec.{Codec}
use rc_wnzzer.Store.Wal.{
  CompactFault, enqueue_record, attempt_record, done_record, dead_record, compact,
}
use rc_wnzzer.Queue.State.{Config, Queue, Err, store_error}

-- `dropLocked`
unfoldable pub drop_key : Bytes → Bytes → Table Bytes → Table Bytes
drop_key [] id idem = idem
drop_key (b ∷ k) id idem = elim (lookup (b ∷ k) idem) [
  | none ↦ idem
  | some held ↦ if str_eq held id then delete (b ∷ k) idem else idem
]

unfoldable pub drop_task : Bytes → Task → Queue → Queue
unfolding drop_key
drop_task id t q = record q { tasks = delete id q.tasks; idem = drop_key t.idem_key id q.idem }

-- Whether `purgeExpired` drops the task. The cutoffs stop at 0, below which no time lies.
abbrev pub is_expired : Config → ℕ → Task → Bool
is_expired cfg now t =
    let ok_cutoff = now - cfg.retention_ms in
    let dead_cutoff = now - cfg.dead_retention_ms in
    if state_eq t.state succeeded
    then not (leb ok_cutoff t.updated_at)
    else if state_eq t.state dead
    then not (leb dead_cutoff t.updated_at)
    else false

-- The loop of `purgeExpired`.
unfoldable pub purge_loop : ℕ → Table Task → Queue → Queue
purge_loop now [] q = q
purge_loop now ((id, t) ∷ m) q =
    purge_loop now m (if is_expired q.cfg now t then drop_task id t q else q)

unfoldable pub purge_expired : ℕ → Queue → Queue
unfolding purge_loop
purge_expired now q = purge_loop now q.tasks q

-- The order of the victims: succeeded before dead, and the older first.
abbrev pub before : Task → Task → Bool
before a b =
    if state_eq a.state dead
    then state_eq b.state dead && ltb a.updated_at b.updated_at
    else state_eq b.state dead || ltb a.updated_at b.updated_at

unfoldable pub candidates : Table Task → Table Task
candidates [] = []
candidates ((id, t) ∷ m) =
    let rest = candidates m in if terminal t.state then (id, t) ∷ rest else rest

-- `sort.Slice`; which of several orders of equal victims it takes is not specified.
unfoldable pub sort_in : Bytes × Task → Table Task → Table Task
sort_in v [] = v ∷ []
sort_in v (w ∷ vs) = if before w.1 v.1 then w ∷ sort_in v vs else v ∷ w ∷ vs

unfoldable pub sorted : Table Task → Table Task
sorted [] = []
sorted (v ∷ vs) = sort_in v (sorted vs)

-- The loop over the victims, with how many are still over the cap.
unfoldable pub cap_loop : ℕ → Table Task → Queue → Queue
cap_loop over [] q = q
cap_loop over ((id, t) ∷ vs) q =
    let q' = cap_loop (over - 1) vs (drop_task id t q) in if over == 0 then q else q'

unfoldable pub enforce_task_cap : Queue → Queue
enforce_task_cap q =
    let over = length q.tasks - q.cfg.tasks_max in
    if q.cfg.tasks_max == 0
    then q
    else if over == 0
    then q
    else cap_loop over (sorted (candidates q.tasks)) q

-- The state record of a task in a snapshot, behind its enq record.
abbrev pub unfinished : Task → List Record
unfinished t =
    if ltb 0 t.attempts || not (t.next_at == t.created_at)
    then attempt_record t.updated_at t.id t.attempts res_retry t.last_code t.last_err t.next_at ∷ []
    else []

unfoldable pub state_records : State → Task → List Record
state_records succeeded t = done_record t.updated_at t.id t.attempts t.last_code [] ∷ []
state_records dead t = dead_record t.updated_at t.id t.attempts t.dead_reason ∷ []
state_records _ t = unfinished t

unfoldable pub snapshot_task : Task → List Record
unfolding state_records
snapshot_task t =
    let snap = if state_eq t.state succeeded then record t { target = strip t.target } else t in
    enqueue_record t.created_at snap ∷ state_records t.state t

-- `snapshot`
unfoldable pub snapshot : Table Task → List Record
unfolding snapshot_task
snapshot [] = []
snapshot ((id, t) ∷ m) = snapshot_task t ++ snapshot m

-- The test of `maybeCompact`.
unfoldable pub wants_compaction : Queue → Bool
wants_compaction q =
    let st = q.store.stats in
    let space_win =
      leb q.cfg.compact_min_bytes st.bytes && q.cfg.is_sparse (length q.tasks * 2) st.records in
    let creds_stale = ltb 0 q.cfg.strip_threshold && leb q.cfg.strip_threshold q.unstripped in
    not (st.records == 0) && (space_win || creds_stale)

module _ (c : Codec) where
  -- The second half of `Compact`. The snapshot was taken before, under a lock since released.
  unfoldable pub compact_with : CompactFault → List Record → Queue → Queue × Option Err
  compact_with f snap q =
      let (w, fine) = compact c f snap q.store in
      let q' = record q { store = w } in
      (if fine then record q' { unstripped = 0 } else q', store_error fine)

  -- `Compact`, with nothing between its halves.
  unfoldable pub compact_queue : CompactFault → Queue → Queue × Option Err
  unfolding compact_with
  compact_queue f q = compact_with f (snapshot q.tasks) q

  -- `maybeCompact`
  unfoldable pub maybe_compact : CompactFault → Queue → Queue × Option Err
  maybe_compact f q = if wants_compaction q then compact_queue f q else (q, store_error true)

  -- `Maintain`
  unfoldable pub maintain : CompactFault → ℕ → Queue → Queue
  maintain f now q = (maybe_compact f (enforce_task_cap (purge_expired now q))).0
