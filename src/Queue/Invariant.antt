-- ===== src/Queue/Invariant.antt =====
-- What holds of the queue between two operations.
use rc_wnzzer.Base.{
  [], ℕ, ◌+◌, ◌≤◌, ◌≡◌, refl, Bytes, str_eq, eq_iff, Option, none, some, occurs, occurs-nil,
  if◌then◌else◌, arith, ◌⊎◌, ◌<◌,
}
use rc_wnzzer.Base.Table.{
  lookup, lookup-nil, insert, lookup-insert, total, total-insert, HasUniqueKeys,
  insert-HasUniqueKeys,
}
use rc_wnzzer.Model.{State, Task, pending, waiting, terminal}
use rc_wnzzer.Store.Wal.{Wal}
use rc_wnzzer.Queue.Heap.Order.{IsHeap}
use rc_wnzzer.Queue.Heap.Laws.{push-IsHeap, IsHeap-agree}
use rc_wnzzer.Queue.State.{Config, Queue, new, next_at_of, schedule}

-- How often the heap may hold a task: once if it is pending or waiting.
abbrev pub slots : State → ℕ
slots pending = 1
slots waiting = 1
slots _ = 0

abbrev pub slots_of : Option Task → ℕ
slots_of none = 0
slots_of (some t) = slots t.state

-- Whether a task counts as active.
abbrev pub live : Task → ℕ
live t = if terminal t.state then 0 else 1

abbrev pub idem_key_of : Option Task → Option Bytes
idem_key_of none = none
idem_key_of (some t) = some t.idem_key

pub record Inv (q : Queue) : Type 0 where
  -- the map holds each task once, under its own id
  pub unique : HasUniqueKeys q.tasks
  pub keyed : (id : Bytes) (t : Task) → lookup id q.tasks ≡ some t → t.id ≡ id
  -- the counter is the number of tasks that are not in a final state
  pub counted : q.active ≡ total live q.tasks
  -- the heap holds pending and waiting tasks only, and none twice
  pub due_once : (id : Bytes) → occurs id q.due ≤ slots_of (lookup id q.tasks)
  pub ordered : IsHeap (next_at_of q.tasks) q.due
  -- an idempotency key leads to a task that was submitted with it
  pub indexed :
      (k id : Bytes) → lookup k q.idem ≡ some id → idem_key_of (lookup id q.tasks) ≡ some k
  pub named : lookup [] q.idem ≡ none

-- An empty queue satisfies the invariant.
pub new-Inv : (cfg : Config) (w : Wal) → Inv (new cfg w)
unfolding new total
new-Inv cfg w = record {
  unique = tt;
  keyed = λ id t e. ground (arith, lookup-nil {V = Task} id);
  counted = refl;
  due_once = λ id. omega (arith, occurs-nil id);
  ordered = λ c p q. absurd (omega arith);
  indexed = λ k id e. ground (arith, lookup-nil {V = Bytes} k);
  named = lookup-nil [];
}

-- A write to one task that keeps its id and its key.
module _ (q : Queue) (v : Inv q) (id : Bytes) (t t' : Task) (at : lookup id q.tasks ≡ some t)
    (same_id : t'.id ≡ t.id) (same_key : t'.idem_key ≡ t.idem_key)
    (free : occurs id q.due ≤ slots t'.state)
    (still : (t'.next_at ≡ t.next_at) ⊎ (occurs id q.due ≡ 0)) where
  found :
      (j : Bytes)
      → lookup j (insert id t' q.tasks) ≡ (if str_eq id j then some t' else lookup j q.tasks)
  found j = lookup-insert id j t' q.tasks

  written-agree :
      (a : Bytes) → 0 < occurs a q.due → next_at_of q.tasks a ≡ next_at_of (insert id t' q.tasks) a
  unfolding next_at_of
  written-agree a p = ground (arith, found a, eq_iff id a, at)

  pub write-Inv :
      (w : Wal) (active unstripped : ℕ)
      → active + live t ≡ q.active + live t'
      → Inv (record q {
        store = w;
        tasks = insert id t' q.tasks;
        active = active;
        unstripped = unstripped;
      })
  write-Inv w active unstripped e = record {
    unique = insert-HasUniqueKeys id t' q.tasks v.unique;
    keyed = λ j u f. ground (arith, found j, eq_iff id j, v.keyed j u, v.keyed id t);
    counted = ground (arith, total-insert live id t' q.tasks, at, v.counted);
    due_once = λ j. ground (arith, found j, eq_iff id j, v.due_once j);
    ordered =
        IsHeap-agree (next_at_of q.tasks) (next_at_of (insert id t' q.tasks)) q.due written-agree
          v.ordered;
    indexed = λ k j f. ground (arith, found j, eq_iff id j, v.indexed k j, at);
    named = v.named;
  }

-- Putting a task into the heap that is ready for it and not there.
pub schedule-Inv :
    (id : Bytes) (q : Queue)
    → Inv q
    → slots_of (lookup id q.tasks) ≡ 1
    → occurs id q.due ≡ 0
    → Inv (schedule id q)
unfolding schedule
schedule-Inv id q v ready absent =
    let p = push-IsHeap (next_at_of q.tasks) id q.due v.ordered in
    record {
      unique = v.unique;
      keyed = v.keyed;
      counted = v.counted;
      due_once = λ j. ground (arith, p.1 j, eq_iff id j, v.due_once j);
      ordered = p.0;
      indexed = v.indexed;
      named = v.named;
    }
