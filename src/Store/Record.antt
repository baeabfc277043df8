-- ===== src/Store/Record.antt =====
-- internal/store/store.go: the records of the journal and its statistics.
use rc_wnzzer.Base.{ℕ, Bool, true, false, Bytes, bytes, Option, none, some}
use rc_wnzzer.Model.{Task, persisted}

-- The record kinds `RecEnqueue`, `RecAttempt`, `RecDone`, `RecDead`, and any other text.
pub data Kind : Type 0 where
  enq att done dead : Kind
  other : Bytes → Kind

abbrev pub res_retry : Bytes
res_retry = bytes "retry"

pub record Record : Type 0 where
  pub kind : Kind
  pub id : Bytes
  pub ts : ℕ
  pub task : Option Task
  pub n : ℕ
  pub res : Bytes
  pub code : ℕ
  pub err : Bytes
  pub resp : Bytes
  pub next_at : ℕ
  pub why : Bytes

-- `Record.Terminal`
abbrev pub is_terminal : Kind → Bool
is_terminal done = true
is_terminal dead = true
is_terminal _ = false

pub record Stats : Type 0 where
  pub records : ℕ
  pub terminal : ℕ
  pub bytes : ℕ

abbrev pub map_task : (Task → Task) → Option Task → Option Task
map_task f none = none
map_task f (some t) = some (f t)

-- A record as it comes back from JSON.
abbrev pub on_wire : Record → Record
on_wire r = record r { task = map_task persisted r.task }
