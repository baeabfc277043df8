-- ===== src/Queue/Restore/Compacted.antt =====
-- `Compact` of internal/queue/maintain.go, a crash, and `Restore` of internal/queue/queue.go: what
-- comes back of the tasks.
use rc_wnzzer.Base.{
  ◌≡◌, refl, ap, ◌∙◌, ◌≢◌, Bool, true, false, not, ◌||◌, Bytes, eq_iff, Option, none, some, inl,
  inr, List, [], ◌∷◌, ◌++◌, str_eq, ltb, ◌==◌, Bool-cases, if◌then◌else◌, arith,
}
use rc_wnzzer.Base.Table.{Table, lookup, lookup-nil, HasUniqueKeys}
use rc_wnzzer.Model.{State, unset, pending, waiting, sending, succeeded, dead, Task}
use rc_wnzzer.Store.Record.{Record}
use rc_wnzzer.Store.Codec.{Codec}
use rc_wnzzer.Store.Replay.Recovery.{fold_records}
use rc_wnzzer.Queue.Maintain.{snapshot, snapshot_task, state_records, unfinished}
use rc_wnzzer.Queue.Purge.{lookup-head, lookup-cons}
use rc_wnzzer.Queue.Restore.{Maps, restore_record}
use rc_wnzzer.Queue.Restore.Folded.{AllSound, fold-append}
use rc_wnzzer.Queue.Restore.Sound.{lookup-index_key, opened, OpensOnce}
use rc_wnzzer.Queue.Restore.Starts.{opened-append}
use rc_wnzzer.Queue.Restore.Snapshot.{att_of, image, snapshot_task-Imaged}

abbrev pub AllKeyed : Table Task → Type 0
AllKeyed m = (id : Bytes) (t : Task) → lookup id m ≡ some t → t.id ≡ id

AllKeyed-tail :
    (id : Bytes) (t : Task) (m : Table Task)
    → lookup id m ≡ none
    → AllKeyed ((id, t) ∷ m)
    → AllKeyed m
AllKeyed-tail id t m once k j u e =
    k j u (ground (arith, lookup-cons id j t m, e, once, eq_iff id j))

AllSound-split :
    (c : Codec) (rs ss : List Record) → AllSound c (rs ++ ss) → AllSound c rs × AllSound c ss
AllSound-split c [] ss s = (tt, s)
AllSound-split c (r ∷ rs) ss s = let (a, b) = AllSound-split c rs ss s.2 in ((s.0, s.1, a), b)

abbrev pub image_or : Option Task → Option Task → Option Task
image_or none o = o
image_or (some t) o = some (image t)

-- The maps after all records of a snapshot.
pub record Recalled (tasks : Table Task) (m m' : Maps) : Type 0 where
  pub found : (j : Bytes) → lookup j m'.tasks ≡ image_or (lookup j tasks) (lookup j m.tasks)
  pub kept_keys : (k : Bytes) → lookup k m.idem ≢ none → lookup k m'.idem ≢ none
  pub keys :
      (j : Bytes) (t : Task)
      → lookup j tasks ≡ some t
      → t.idem_key ≢ []
      → lookup t.idem_key m'.idem ≢ none

pub fold-snapshot :
    (c : Codec) (tasks : Table Task) (m : Maps)
    → HasUniqueKeys tasks
    → AllKeyed tasks
    → AllSound c (snapshot tasks)
    → (m' : Maps) × (fold_records c restore_record (snapshot tasks) m ≡ some m')
      × Recalled tasks m m'
unfolding snapshot
fold-snapshot c [] m u k s = (
  m,
  refl,
  record {
    found = λ j. ground (arith, lookup-nil {V = Task} j);
    kept_keys = λ k n. n;
    keys = λ j t e n. absurd (ground (arith, lookup-nil {V = Task} j, e));
  },
)
fold-snapshot c ((id, t) ∷ tasks) m u k s =
    let (s₁, s₂) = AllSound-split c (snapshot_task t) (snapshot tasks) s in
    let here : t.id ≡ id = k id t (lookup-head id t tasks) in
    let (m₁, e₁, i) = snapshot_task-Imaged c t m s₁ in
    let (m', e₂, r) = fold-snapshot c tasks m₁ u.1 (AllKeyed-tail id t tasks u.0 k) s₂ in
    (
      m',
      fold-append c (snapshot_task t) (snapshot tasks) m m₁ e₁ ∙ e₂,
      record {
        found = λ j.
            ground (arith, r.found j, i.found j, lookup-cons id j t tasks, eq_iff id j, here, u.0);
        kept_keys = λ k n.
            r.kept_keys k
              (ground (arith, ap (lookup k) i.index, lookup-index_key t.idem_key t.id k m.idem, n));
        keys = λ j v e n. elim (Bool-cases (str_eq id j)) [
          | inl same ↦
              let own : v ≡ t = ground (arith, lookup-cons id j t tasks, e, same) in
              r.kept_keys v.idem_key (
                ground (
                  arith,
                  ap (lookup v.idem_key) i.index,
                  lookup-index_key t.idem_key t.id v.idem_key m.idem,
                  own,
                  n,
                  eq_iff t.idem_key [],
                  eq_iff t.idem_key t.idem_key,
                ))
          | inr other ↦ r.keys j v (ground (arith, lookup-cons id j t tasks, e, other)) n
        ];
      },
    )

-- A submission in a snapshot is that of a task in the map.
opened-state : (id : Bytes) (s : State) (t : Task) → opened id (state_records s t) ≡ false
unfolding state_records
opened-state id succeeded t = refl
opened-state id dead t = refl
opened-state id pending t = ground arith
opened-state id waiting t = ground arith
opened-state id sending t = ground arith
opened-state id unset t = ground arith

opened-snapshot :
    (id : Bytes) (tasks : Table Task)
    → HasUniqueKeys tasks
    → AllKeyed tasks
    → lookup id tasks ≡ none
    → opened id (snapshot tasks) ≡ false
unfolding snapshot snapshot_task
opened-snapshot id [] u k e = refl
opened-snapshot id ((j, t) ∷ tasks) u k e = ground (
  arith,
  opened-append id (snapshot_task t) (snapshot tasks),
  opened-state id t.state t,
  k j t (lookup-head j t tasks),
  lookup-cons j id t tasks,
  eq_iff j id,
  opened-snapshot id tasks u.1 (AllKeyed-tail j t tasks u.0 k),
  e,
)

OpensOnce-append :
    (rs ss : List Record)
    → OpensOnce rs
    → OpensOnce ss
    → ((id : Bytes) → opened id rs ≡ true → opened id ss ≡ false)
    → OpensOnce (rs ++ ss)
OpensOnce-append [] ss a b h = b
OpensOnce-append (r ∷ rs) ss a b h = (
  λ id o. ground (arith, opened-append id rs ss, a.0 id o, h id, o),
  OpensOnce-append rs ss a.1 b (λ id o. h id (ground (arith, o))),
)

either_OpensOnce : (rs : List Record) (b : Bool) → OpensOnce rs → OpensOnce (if b then rs else [])
either_OpensOnce rs true o = o
either_OpensOnce rs false o = tt

snapshot_task-OpensOnce : (t : Task) → OpensOnce (snapshot_task t)
unfolding snapshot_task
snapshot_task-OpensOnce t = (λ id o. opened-state id t.state t, state-OpensOnce t.state)
  where
    unfinished-OpensOnce : OpensOnce (unfinished t)
    unfinished-OpensOnce =
        either_OpensOnce (att_of t ∷ []) (ltb 0 t.attempts || not (t.next_at == t.created_at))
          (λ id o. refl, tt)

    state-OpensOnce : (s : State) → OpensOnce (state_records s t)
    state-OpensOnce succeeded = (λ id o. refl, tt)
    state-OpensOnce dead = (λ id o. refl, tt)
    state-OpensOnce pending = unfinished-OpensOnce
    state-OpensOnce waiting = unfinished-OpensOnce
    state-OpensOnce sending = unfinished-OpensOnce
    state-OpensOnce unset = unfinished-OpensOnce

pub snapshot-OpensOnce :
    (tasks : Table Task) → HasUniqueKeys tasks → AllKeyed tasks → OpensOnce (snapshot tasks)
unfolding snapshot snapshot_task
snapshot-OpensOnce [] u k = tt
snapshot-OpensOnce ((id, t) ∷ tasks) u k =
    OpensOnce-append (snapshot_task t) (snapshot tasks) (snapshot_task-OpensOnce t)
      (snapshot-OpensOnce tasks u.1 (AllKeyed-tail id t tasks u.0 k))
      (λ j o.
        opened-snapshot j tasks u.1 (AllKeyed-tail id t tasks u.0 k)
          (ground (arith, o, opened-own j, k id t (lookup-head id t tasks), u.0)))
  where
    opened-own : (j : Bytes) → opened j (snapshot_task t) ≡ true → t.id ≡ j
    opened-own j o = ground (arith, o, opened-state j t.state t, eq_iff t.id j)
