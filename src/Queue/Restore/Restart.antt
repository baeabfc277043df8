-- ===== src/Queue/Restore/Restart.antt =====
-- A restart: `Restore` of internal/queue/queue.go over a journal that a crash has cut.
use rc_wnzzer.Base.{
  ℕ, zero, suc, ◌≡◌, refl, ap, ◌∙◌, true, Bytes, eq_iff, none, some, List, [], ◌∷◌, ◌++◌,
  append_assoc, take, occurs, occurs-nil, arith,
}
use rc_wnzzer.Base.Table.{lookup, insert, lookup-insert, HasUniqueKeys, insert-HasUniqueKeys}
use rc_wnzzer.Model.{Task, persisted}
use rc_wnzzer.Store.Record.{Record}
use rc_wnzzer.Store.Codec.{Codec}
use rc_wnzzer.Store.Wal.{Wal, Fault, enqueue_record, Crash, reopen}
use rc_wnzzer.Store.Wal.Journal.{IsJournal}
use rc_wnzzer.Store.Replay.{no_fault}
use rc_wnzzer.Store.Replay.Recovery.{fold_records, recovered, replay_result, replay-crash}
use rc_wnzzer.Queue.State.{Config, Queue, new}
use rc_wnzzer.Queue.Restore.{Maps, index_key, from_enq, restore_record, restore}
use rc_wnzzer.Queue.Restore.Rebuilt.{rebuild-Rebuilt}
use rc_wnzzer.Queue.Restore.Folded.{AllSound, AllElsewhere, fold-Folded, fold-append}

take-AllSound : (c : Codec) (k : ℕ) (rs : List Record) → AllSound c rs → AllSound c (take k rs)
take-AllSound c zero rs s = tt
take-AllSound c (suc k) [] s = tt
take-AllSound c (suc k) (r ∷ rs) s = (s.0, s.1, take-AllSound c k rs s.2)

take-AllElsewhere :
    (id : Bytes) (k : ℕ) (rs : List Record) → AllElsewhere id rs → AllElsewhere id (take k rs)
take-AllElsewhere id zero rs s = tt
take-AllElsewhere id (suc k) [] s = tt
take-AllElsewhere id (suc k) (r ∷ rs) s = (s.0, take-AllElsewhere id k rs s.1)

module _ (c : Codec) (before : List Record) (t : Task) (ts : ℕ) (sound : AllSound c before)
    (utf8 : c.is_utf8 (enqueue_record ts t) ≡ true) where
  abbrev enqueued_maps : Maps → Maps
  enqueued_maps m = record {
    tasks = insert t.id (from_enq ts (persisted t)) m.tasks;
    idem = index_key t.idem_key t.id m.idem;
  }

  restore-enqueue :
      (m : Maps) → restore_record (c.reread (enqueue_record ts t)) m ≡ some (enqueued_maps m)
  unfolding restore_record
  restore-enqueue m = ap (λ r. restore_record r m) (c.reread_utf8 (enqueue_record ts t) utf8)

  -- The maps after the records before the task's, its own, and later ones that are not about it.
  fold-keeps :
      (later : List Record) (m : Maps)
      → HasUniqueKeys m.tasks
      → AllSound c later
      → AllElsewhere t.id later
      → (m' : Maps) × (fold_records c restore_record
            ((before ++ enqueue_record ts t ∷ []) ++ later)
            m
          ≡ some m')
        × HasUniqueKeys m'.tasks
        × (lookup t.id m'.tasks ≡ some (from_enq ts (persisted t)))
  fold-keeps later m u later_sound elsewhere =
      let r = enqueue_record ts t in
      let p = fold-Folded c before m u sound in
      let m₁ = enqueued_maps p.maps in
      let t' = from_enq ts (persisted t) in
      let b =
        fold-Folded c later m₁ (insert-HasUniqueKeys t.id t' p.maps.tasks p.unique) later_sound in
      let own : fold_records c restore_record (r ∷ later) p.maps ≡ some b.maps =
        rw (restore-enqueue p.maps, fold_records) b.result in
      (
        b.maps,
        ap (λ rs. fold_records c restore_record rs m) (append_assoc before (r ∷ []) later)
            ∙ fold-append c before (r ∷ later) m p.maps p.result
            ∙ own,
        b.unique,
        b.kept t.id elsewhere
            ∙ ground (arith, lookup-insert t.id t.id t' p.maps.tasks, eq_iff t.id t.id),
      )

  -- A crash at any moment, and then a restart of which no call fails: a task whose submission was
  -- synced to a sound log is there, as it was submitted, pending, and in the heap exactly once, as
  -- long as the journal has no later record about it. All records are whole and read back as they
  -- were written.
  pub restart-keeps :
      (later : List Record) (n : Crash) (w : Wal) (cfg : Config) (io : Fault)
      → IsJournal c (before ++ enqueue_record ts t ∷ []) later w
      → AllSound c later
      → AllElsewhere t.id later
      → let r = restore c no_fault io (new cfg (reopen n w)) in
        (r.1 ≡ none)
        × (lookup t.id r.0.tasks ≡ some (from_enq ts (persisted t)))
        × (occurs t.id r.0.due ≡ 1)
  unfolding restore new
  restart-keeps later n w cfg io j later_sound elsewhere =
      let all = before ++ enqueue_record ts t ∷ [] in
      let empty : Maps = record { tasks = []; idem = [] } in
      let (k, size, lo, hi, e) = replay-crash c restore_record io n all later w empty j in
      let rest = take k later in
      let (m, folded, unique, held) =
        fold-keeps rest empty tt (take-AllSound c k later later_sound)
          (take-AllElsewhere t.id k later elsewhere) in
      let log = recovered c restore_record size (all ++ rest) in
      let q : Queue = record (new cfg log) { tasks = m.tasks; idem = m.idem } in
      let b = rebuild-Rebuilt m.tasks q unique (λ i u f. f) (λ a p h. absurd (omega arith)) in
      rw (e ∙ ap (replay_result c restore_record log) folded, restore)
        (
          refl,
          ground (arith, b.found t.id, held),
          ground (arith, b.entries t.id, held, occurs-nil t.id),
        )
