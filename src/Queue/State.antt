-- ===== src/Queue/State.antt =====
-- internal/queue/queue.go: the state. A `*model.Task` is the id under which the task map holds it.
use rc_wnzzer.Base.{ℕ, Bool, true, false, Bytes, Option, none, some, List, []}
use rc_wnzzer.Base.Table.{Table, lookup, insert, weight_of}
use rc_wnzzer.Model.{Task}
use rc_wnzzer.Store.Wal.{Wal}
use rc_wnzzer.Queue.Heap.{push}

-- `is_sparse a b` is the test `float64(a)/float64(b) < CompactLiveRatio`.
pub record Config : Type 0 where
  pub queue_max : ℕ
  pub tasks_max : ℕ
  pub retention_ms : ℕ
  pub dead_retention_ms : ℕ
  pub compact_min_bytes : ℕ
  pub is_sparse : ℕ → ℕ → Bool
  pub strip_threshold : ℕ

-- `wake` is whether the wake channel, of capacity one, holds a signal.
pub record Queue : Type 0 where
  pub cfg : Config
  pub store : Wal
  pub tasks : Table Task
  pub idem : Table Bytes
  pub due : List Bytes
  pub active : ℕ
  pub unstripped : ℕ
  pub wake : Bool

-- `ErrQueueFull`, `ErrNotFound`, `ErrNotDead`, and an error of the store.
pub data Err : Type 0 where
  queue_full not_found not_dead store_failed : Err

-- `New`
unfoldable pub new : Config → Wal → Queue
new cfg w = record {
  cfg = cfg;
  store = w;
  tasks = [];
  idem = [];
  due = [];
  active = 0;
  unstripped = 0;
  wake = false;
}

-- NextAt behind a pointer.
unfoldable pub next_at_of : Table Task → Bytes → ℕ
next_at_of tasks id = weight_of (λ t. t.next_at) (lookup id tasks)

-- A write through a pointer.
unfoldable pub update : Bytes → (Task → Task) → Table Task → Table Task
update id f tasks = elim (lookup id tasks) [ none ↦ tasks | some t ↦ insert id (f t) tasks ]

-- `heap.Push(&q.due, t)` and `q.signal()`.
unfoldable pub schedule : Bytes → Queue → Queue
schedule id q = record q { due = push (next_at_of q.tasks) id q.due; wake = true }

abbrev pub store_error : Bool → Option Err
store_error true = none
store_error false = some store_failed
