-- ===== src/Queue/Purge.antt =====
-- Dropping tasks in internal/queue/maintain.go: what goes, what stays, and the invariant.
use rc_wnzzer.Base.{
  ◌⊎◌, ◌+◌, inl, inr, Bool-cases, ℕ, ◌<◌, ◌≡◌, refl, ap, ◌∙◌, Bool, true, false, Bytes, str_eq,
  eq_iff, Option, none, some, [], ◌∷◌, occurs, if◌then◌else◌, arith,
}
use rc_wnzzer.Base.Table.{
  Table, lookup, delete, lookup-delete, total-delete, HasUniqueKeys, delete-HasUniqueKeys,
}
use rc_wnzzer.Model.{succeeded, dead, Task, terminal}
use rc_wnzzer.Queue.Heap.Laws.{IsHeap-agree}
use rc_wnzzer.Queue.State.{Config, Queue, next_at_of}
use rc_wnzzer.Queue.Maintain.{drop_key, drop_task, is_expired, purge_loop, purge_expired}
use rc_wnzzer.Queue.Invariant.{Inv, live}

lookup-drop_key :
    (key id j : Bytes) (idem : Table Bytes)
    → lookup [] idem ≡ none
    → lookup j (drop_key key id idem) ≡ (elim (lookup j idem) [
      | none ↦ none
      | some held ↦ if str_eq key j then (if str_eq held id then none else some held) else some held
    ])
unfolding drop_key
lookup-drop_key [] id j idem named = ground (arith, named, eq_iff [] j)
lookup-drop_key (b ∷ k) id j idem named =
    ground (arith, lookup-delete (b ∷ k) j idem, eq_iff (b ∷ k) j)

-- Dropping a task in a final state keeps the invariant.
module _ (q : Queue) (v : Inv q) (id : Bytes) (t : Task) (at : lookup id q.tasks ≡ some t)
    (over : terminal t.state ≡ true) where
  gone :
      (j : Bytes) → lookup j (delete id q.tasks) ≡ (if str_eq id j then none else lookup j q.tasks)
  gone j = lookup-delete id j q.tasks

  dropped-agree :
      (a : Bytes) → 0 < occurs a q.due → next_at_of q.tasks a ≡ next_at_of (delete id q.tasks) a
  unfolding next_at_of
  dropped-agree a p = ground (arith, gone a, eq_iff id a, v.due_once a, at, over)

  pub drop_task-Inv : Inv (drop_task id t q)
  unfolding drop_task
  drop_task-Inv = record {
    unique = delete-HasUniqueKeys id q.tasks v.unique;
    keyed = λ j u f. ground (arith, gone j, eq_iff id j, v.keyed j u);
    counted = ground (arith, total-delete live id q.tasks v.unique, at, over, v.counted);
    due_once = λ j. ground (arith, gone j, eq_iff id j, v.due_once j, at, over);
    ordered =
        IsHeap-agree (next_at_of q.tasks) (next_at_of (delete id q.tasks)) q.due dropped-agree
          v.ordered;
    indexed = λ k j f. ground (
      arith,
      gone j,
      eq_iff id j,
      lookup-drop_key t.idem_key id k q.idem v.named,
      eq_iff t.idem_key k,
      v.indexed k j,
      at,
    );
    named = ground (arith, lookup-drop_key t.idem_key id [] q.idem v.named, v.named);
  }

-- Every entry of the first table is held by the second.
abbrev pub Held : Table Task → Table Task → Type 0
Held m tasks = (j : Bytes) (u : Task) → lookup j m ≡ some u → lookup j tasks ≡ some u

pub Held-tail :
    (id : Bytes) (t : Task) (m tasks : Table Task)
    → lookup id m ≡ none
    → Held ((id, t) ∷ m) tasks
    → (drop : Bool) → Held m (if drop then delete id tasks else tasks)
unfolding lookup
Held-tail id t m tasks once h true j u e =
    ground (arith, lookup-delete id j tasks, eq_iff id j, h j u)
Held-tail id t m tasks once h false j u e = ground (arith, eq_iff id j, h j u)

pub lookup-head : (id : Bytes) (t : Task) (m : Table Task) → lookup id ((id, t) ∷ m) ≡ some t
unfolding lookup
lookup-head id t m = ground (arith, eq_iff id id)

pub lookup-cons :
    (id j : Bytes) (t : Task) (m : Table Task)
    → lookup j ((id, t) ∷ m) ≡ (if str_eq id j then some t else lookup j m)
unfolding lookup
lookup-cons id j t m = refl

cfg-drop_if :
    (b : Bool) (id : Bytes) (t : Task) (q : Queue) → (if b then drop_task id t q else q).cfg ≡ q.cfg
unfolding drop_task
cfg-drop_if true id t q = refl
cfg-drop_if false id t q = refl

pub tasks-drop_if :
    (b : Bool) (id : Bytes) (t : Task) (q : Queue)
    → (if b then drop_task id t q else q).tasks ≡ (if b then delete id q.tasks else q.tasks)
unfolding drop_task
tasks-drop_if true id t q = refl
tasks-drop_if false id t q = refl

drop_if-Inv :
    (b : Bool) (id : Bytes) (t : Task) (q : Queue)
    → (b ≡ true → terminal t.state ≡ true)
    → lookup id q.tasks ≡ some t
    → Inv q
    → Inv (if b then drop_task id t q else q)
drop_if-Inv true id t q over at v = drop_task-Inv q v id t at (over refl)
drop_if-Inv false id t q over at v = v

is_expired-terminal :
    (cfg : Config) (now : ℕ) (t : Task) → is_expired cfg now t ≡ true → terminal t.state ≡ true
is_expired-terminal cfg now t e = ground (arith, e)

purge_loop-Inv :
    (now : ℕ) (m : Table Task) (q : Queue)
    → HasUniqueKeys m
    → Held m q.tasks
    → Inv q
    → Inv (purge_loop now m q)
unfolding purge_loop
purge_loop-Inv now [] q u h v = v
purge_loop-Inv now ((id, t) ∷ m) q u h v =
    let b = is_expired q.cfg now t in
    let q' = if b then drop_task id t q else q in
    purge_loop-Inv now m q' u.1
      (λ j w e. ap (lookup j) (tasks-drop_if b id t q) ∙ Held-tail id t m q.tasks u.0 h b j w e)
      (drop_if-Inv b id t q (is_expired-terminal q.cfg now t) (h id t (lookup-head id t m)) v)

pub purge_expired-Inv : (now : ℕ) (q : Queue) → Inv q → Inv (purge_expired now q)
unfolding purge_expired
purge_expired-Inv now q v = purge_loop-Inv now q.tasks q v.unique (λ j u e. e) v

-- What a purge leaves of a task.
abbrev pub kept : Config → ℕ → Option Task → Option Task
kept cfg now none = none
kept cfg now (some t) = if is_expired cfg now t then none else some t

lookup-purge_loop :
    (now : ℕ) (m : Table Task) (q : Queue) (j : Bytes)
    → HasUniqueKeys m
    → Held m q.tasks
    → lookup j (purge_loop now m q).tasks
      ≡ (elim (lookup j m) [ none ↦ lookup j q.tasks | some t ↦ kept q.cfg now (some t) ])
unfolding purge_loop
lookup-purge_loop now [] q j u h = unfold lookup in refl
lookup-purge_loop now ((id, t) ∷ m) q j u h =
    let b = is_expired q.cfg now t in
    let q' = if b then drop_task id t q else q in
    let later =
      lookup-purge_loop now m q' j u.1 (λ i w e.
        ap (lookup i) (tasks-drop_if b id t q) ∙ Held-tail id t m q.tasks u.0 h b i w e) in
    let cons = lookup-cons id j t m in
    let here = h id t (lookup-head id t m) in
    ground (
      arith,
      later,
      cons,
      here,
      u.0,
      ap (lookup j) (tasks-drop_if b id t q),
      cfg-drop_if b id t q,
      lookup-delete id j q.tasks,
      eq_iff id j,
    )

-- Under the invariant a purge keeps what `kept` says, and changes no task.
pub lookup-purge_expired :
    (now : ℕ) (q : Queue) (j : Bytes)
    → Inv q
    → lookup j (purge_expired now q).tasks ≡ kept q.cfg now (lookup j q.tasks)
unfolding purge_expired
lookup-purge_expired now q j v =
    ground (arith, lookup-purge_loop now q.tasks q j v.unique (λ i u e. e))

-- The task ended longer ago than the retention of its state.
abbrev pub IsPast : Config → ℕ → Task → Type 0
IsPast cfg now t =
    ((t.state ≡ succeeded) × (t.updated_at + cfg.retention_ms < now))
    ⊎ ((t.state ≡ dead) × (t.updated_at + cfg.dead_retention_ms < now))

-- Under the invariant, a purge drops a task of the map exactly if it has succeeded or is dead and
-- was last updated longer ago than the retention of that state; it changes no task that it keeps.
pub purge_expired-IsPast :
    (now : ℕ) (q : Queue) (id : Bytes) (t : Task)
    → Inv q
    → lookup id q.tasks ≡ some t
    → (IsPast q.cfg now t × (lookup id (purge_expired now q).tasks ≡ none))
      ⊎ ((¬ IsPast q.cfg now t) × (lookup id (purge_expired now q).tasks ≡ some t))
purge_expired-IsPast now q id t v at = elim (Bool-cases (is_expired q.cfg now t)) [
  | inl over ↦ inl (past over, lookup-purge_expired now q id v ∙ ground (arith, at, over))
  | inr not_yet ↦
      inr (λ p. young not_yet p, lookup-purge_expired now q id v ∙ ground (arith, at, not_yet))
]
  where
    past : is_expired q.cfg now t ≡ true → IsPast q.cfg now t
    past h = ground (arith, h)

    young : is_expired q.cfg now t ≡ false → IsPast q.cfg now t → ⊥
    young h (inl (a, b)) = ground (arith, h, a, b)
    young h (inr (a, b)) = ground (arith, h, a, b)
