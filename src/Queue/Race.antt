-- ===== src/Queue/Race.antt =====
-- `Compact` of internal/queue/maintain.go beside `Submit`: the lock is released between the snapshot
-- and the rewriting of the journal.
use rc_wnzzer.Base.{
  ◌≡◌, refl, ap, ◌∙◌, Bool, false, ◌||◌, Bytes, str_eq, eq_iff, none, some, List, [], ◌∷◌, ◌++◌,
  append-nil, arith,
}
use rc_wnzzer.Base.Table.{Table, lookup, lookup-insert, HasUniqueKeys}
use rc_wnzzer.Model.{Task}
use rc_wnzzer.Store.Record.{Record}
use rc_wnzzer.Store.Codec.{Codec, lines}
use rc_wnzzer.Store.Wal.{Io, no_fault, compact}
use rc_wnzzer.Queue.State.{Queue}
use rc_wnzzer.Queue.Ops.{accepted, submit}
use rc_wnzzer.Queue.Maintain.{snapshot, snapshot_task, compact_with}
use rc_wnzzer.Queue.Invariant.{Inv}
use rc_wnzzer.Queue.Purge.{lookup-head, lookup-cons}
use rc_wnzzer.Queue.Durable.{submit-Accepted}

-- Whether a record of the list is about the task.
abbrev pub mentions : Bytes → List Record → Bool
mentions id [] = false
mentions id (r ∷ rs) = str_eq r.id id || mentions id rs

mentions-append :
    (id : Bytes) (rs ss : List Record) → mentions id (rs ++ ss) ≡ (mentions id rs || mentions id ss)
mentions-append id [] ss = refl
mentions-append id (r ∷ rs) ss = ground (arith, mentions-append id rs ss)

mentions-snapshot_task :
    (id : Bytes) (t : Task) → str_eq t.id id ≡ false → mentions id (snapshot_task t) ≡ false
unfolding snapshot_task
mentions-snapshot_task id t h = ground (arith, h)

mentions-snapshot :
    (id : Bytes) (m : Table Task)
    → HasUniqueKeys m
    → ((j : Bytes) (t : Task) → lookup j m ≡ some t → t.id ≡ j)
    → lookup id m ≡ none
    → mentions id (snapshot m) ≡ false
unfolding snapshot
mentions-snapshot id [] u keyed absent = refl
mentions-snapshot id ((j, t) ∷ m) u keyed absent =
    let here : t.id ≡ j = keyed j t (lookup-head j t m) in
    let rest : mentions id (snapshot m) ≡ false =
      mentions-snapshot id m u.1
        (λ i s e. keyed i s (ground (arith, lookup-cons j i t m, e, u.0, eq_iff j i)))
        (ground (arith, lookup-cons j id t m, absent)) in
    ground (
      arith,
      mentions-append id (snapshot_task t) (snapshot m),
      mentions-snapshot_task id t (ground (arith, lookup-cons j id t m, absent, here)),
      rest,
    )

-- In a state of the invariant, if a submission under a new id is accepted between the snapshot and
-- the rewriting of a compaction that succeeds, the task is in memory, but the journal then holds
-- the lines of the snapshot only, none of which is about the task.
pub compact-forgets :
    (c : Codec) (io : Io) (t t' : Task) (q : Queue)
    → Inv q
    → lookup t.id q.tasks ≡ none
    → (submit c io t q).1 ≡ accepted t'
    → let q' = (compact_with c no_fault (snapshot q.tasks) (submit c io t q).0).0 in
      (lookup t.id q'.tasks ≡ some t')
      × (q'.store.file ++ q'.store.buf ≡ lines c (snapshot q.tasks))
      × (mentions t.id (snapshot q.tasks) ≡ false)
unfolding compact_with compact
compact-forgets c io t t' q v fresh h =
    let a = submit-Accepted c io t t' q h in
    (
      ap (lookup t.id) a.tasks
          ∙ ground (arith, lookup-insert t.id t.id t' q.tasks, eq_iff t.id t.id),
      append-nil _,
      mentions-snapshot t.id q.tasks v.unique v.keyed fresh,
    )
