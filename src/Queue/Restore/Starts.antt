-- ===== src/Queue/Restore/Starts.antt =====
-- A start: `Restore` of internal/queue/queue.go on an empty queue, over a journal that a crash has
-- cut.
use rc_wnzzer.Base.{
  ℕ, ◌≡◌, refl, sym, ap, ◌∙◌, true, Bytes, Option, none, some, Option-cases, inl, inr, List, [],
  ◌∷◌, ◌++◌, ◌||◌, append_assoc, take, drop, take-append-drop, occurs-nil, subst, arith,
}
use rc_wnzzer.Base.Table.{lookup, lookup-nil}
use rc_wnzzer.Model.{Task}
use rc_wnzzer.Store.Record.{Kind, Record, enq, att, done, other, on_wire}
use rc_wnzzer.Store.Codec.{Codec}
use rc_wnzzer.Store.Wal.{Wal, Fault, Crash, reopen}
use rc_wnzzer.Store.Wal.Journal.{IsJournal}
use rc_wnzzer.Store.Replay.{no_fault}
use rc_wnzzer.Store.Replay.Recovery.{fold_records, recovered, replay_result, replay-crash}
use rc_wnzzer.Queue.State.{Config, Queue, new}
use rc_wnzzer.Queue.Invariant.{Inv}
use rc_wnzzer.Queue.Sending.{sent_now}
use rc_wnzzer.Queue.Restore.{Maps, restore_record, rebuild, restore}
use rc_wnzzer.Queue.Restore.Rebuilt.{Rebuilt, rebuild-Rebuilt}
use rc_wnzzer.Queue.Restore.Folded.{AllSound, fold-Folded}
use rc_wnzzer.Queue.Restore.Sound.{MapsInv, empty-MapsInv, opens, opened, OpensOnce, kind-Taken}

opens-on_wire :
    (id : Bytes) (k : Kind) (o : Option Task) (r : Record)
    → r.kind ≡ k
    → r.task ≡ o
    → opens id (on_wire r) ≡ opens id r
opens-on_wire id enq none r ek eo = rw (ek) (rw (eo) refl)
opens-on_wire id enq (some t) r ek eo = rw (ek) (rw (eo) refl)
opens-on_wire id att o r ek eo = rw (ek) refl
opens-on_wire id done o r ek eo = rw (ek) refl
opens-on_wire id Kind.dead o r ek eo = rw (ek) refl
opens-on_wire id (other x) o r ek eo = rw (ek) refl

pub fold-MapsInv :
    (c : Codec) (rs : List Record) (m m' : Maps)
    → MapsInv m
    → AllSound c rs
    → OpensOnce rs
    → ((id : Bytes) → opened id rs ≡ true → lookup id m.tasks ≡ none)
    → fold_records c restore_record rs m ≡ some m'
    → MapsInv m'
fold-MapsInv c [] m m' v s o fresh h = subst MapsInv (ground (arith, h)) v
fold-MapsInv c (r ∷ rs) m m' v s o fresh h = elim (Option-cases (restore_record (c.reread r) m)) [
  | inl e ↦ absurd (ground (arith, e, h))
  | inr (m₁, e) ↦
      let wire = opens-on_wire in
      let same = λ (id : Bytes). opens-on_wire id r.kind r.task r refl refl in
      let back : c.reread r ≡ on_wire r = c.reread_utf8 r s.0 in
      let step =
        kind-Taken m m₁ v r.kind (on_wire r).task (on_wire r) refl refl
          (λ id a. fresh id (ground (arith, a, same id)))
          (ap (λ x. restore_record x m) (sym back) ∙ e) in
      fold-MapsInv c rs m₁ m' step.still s.2 o.1
        (λ id a. step.absent id (fresh id (ground (arith, a))) (ground (arith, o.0 id, same id, a)))
        (ground (arith, e, h))
]

AllSound-prefix : (c : Codec) (rs ss : List Record) → AllSound c (rs ++ ss) → AllSound c rs
AllSound-prefix c [] ss s = tt
AllSound-prefix c (r ∷ rs) ss s = (s.0, s.1, AllSound-prefix c rs ss s.2)

pub opened-append :
    (id : Bytes) (rs ss : List Record) → opened id (rs ++ ss) ≡ (opened id rs || opened id ss)
opened-append id [] ss = refl
opened-append id (r ∷ rs) ss = ground (arith, opened-append id rs ss)

OpensOnce-prefix : (rs ss : List Record) → OpensOnce (rs ++ ss) → OpensOnce rs
OpensOnce-prefix [] ss o = tt
OpensOnce-prefix (r ∷ rs) ss o =
    (λ id a. ground (arith, o.0 id a, opened-append id rs ss), OpensOnce-prefix rs ss o.1)

module _ (m : Maps) (v : MapsInv m) (w : Wal) (cfg : Config) where
  -- The queue after the replay, and after the loop.
  abbrev pub loaded : Queue
  loaded = record (new cfg w) { tasks = m.tasks; idem = m.idem }

  abbrev pub restarted : Queue
  restarted = record (rebuild m.tasks loaded) { wake = true }

  pub loaded-Rebuilt : Rebuilt m.tasks loaded (rebuild m.tasks loaded)
  unfolding new
  loaded-Rebuilt =
      rebuild-Rebuilt m.tasks loaded v.unique (λ i u f. f) (λ a p h. absurd (omega arith))

  pub restarted-Inv : Inv restarted
  unfolding new
  restarted-Inv =
      let b = loaded-Rebuilt in
      record {
        unique = b.unique v.unique;
        keyed = λ id t e. elim (Option-cases (lookup id m.tasks)) [
          | inl none_there ↦ absurd (ground (arith, b.found id, e, none_there))
          | inr (u, f) ↦ ground (arith, b.found id, e, f, v.keyed id u f)
        ];
        counted = omega (arith, b.counted, b.as_many);
        due_once = λ j. ground (arith, b.found j, b.entries j, occurs-nil j);
        ordered = b.ordered;
        indexed = λ k id e. ground (arith, b.found id, ap (lookup k) b.index, e, v.indexed k id);
        named = ap (lookup []) b.index ∙ v.named;
      }

  pub restarted-unsent : (j : Bytes) → sent_now restarted j ≡ 0
  unfolding new
  restarted-unsent j = ground (arith, loaded-Rebuilt.found j)

module _ (c : Codec) (safe recent : List Record) (sound : AllSound c (safe ++ recent))
    (once : OpensOnce (safe ++ recent)) where
  first-prefix : (k : ℕ) → safe ++ recent ≡ (safe ++ take k recent) ++ drop k recent
  first-prefix k =
      ap (◌++◌ safe) (sym (take-append-drop k recent))
      ∙ sym (append_assoc safe (take k recent) (drop k recent))

  -- A start of which no call fails, after a crash at any moment of a sound log of records that are
  -- whole and read back as they were written, with no two submissions under one id: it succeeds, and
  -- leaves a queue of the invariant in which nothing is being sent.
  pub restart-Inv :
      (n : Crash) (w : Wal) (cfg : Config) (io : Fault)
      → IsJournal c safe recent w
      → let r = restore c no_fault io (new cfg (reopen n w)) in
        (r.1 ≡ none) × Inv r.0 × ((j : Bytes) → sent_now r.0 j ≡ 0)
  unfolding restore new
  restart-Inv n w cfg io j =
      let empty : Maps = record { tasks = []; idem = [] } in
      let (k, size, lo, hi, e) = replay-crash c restore_record io n safe recent w empty j in
      let rs = safe ++ take k recent in
      let s = AllSound-prefix c rs (drop k recent) (subst (AllSound c) (first-prefix k) sound) in
      let o = OpensOnce-prefix rs (drop k recent) (subst OpensOnce (first-prefix k) once) in
      let f = fold-Folded c rs empty tt s in
      let v = fold-MapsInv c rs empty f.maps empty-MapsInv s o (λ id a. lookup-nil id) f.result in
      let log = recovered c restore_record size rs in
      rw (e ∙ ap (replay_result c restore_record log) f.result, restore)
        (refl, restarted-Inv f.maps v log cfg, restarted-unsent f.maps v log cfg)
