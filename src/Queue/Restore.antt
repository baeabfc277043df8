-- ===== src/Queue/Restore.antt =====
-- `Restore` of internal/queue/queue.go: the memory state out of the journal.
pub mod Rebuilt
pub mod Folded
pub mod Sound
pub mod Starts
pub mod Snapshot
pub mod Compacted
pub mod Remembers
pub mod Restart
use rc_wnzzer.Base.{ℕ, ◌+◌, true, Bytes, Option, none, some, [], ◌∷◌, if◌then◌else◌}
use rc_wnzzer.Base.Table.{Table, insert}
use rc_wnzzer.Model.{Task, pending, waiting, succeeded, dead, strip, terminal}
use rc_wnzzer.Store.Record.{Kind, Record, enq, att, done, other}
use rc_wnzzer.Store.Codec.{Codec}
use rc_wnzzer.Store.Wal.{Fault}
use rc_wnzzer.Store.Replay.{ReplayFault, Replayed, replayed, replay_failed, replay}
use rc_wnzzer.Queue.State.{Queue, Err, store_failed, update, schedule}

-- The maps that the callback fills.
pub record Maps : Type 0 where
  pub tasks : Table Task
  pub idem : Table Bytes

abbrev pub from_enq : ℕ → Task → Task
from_enq ts t = record t { state = pending; next_at = t.created_at; updated_at = ts }

abbrev pub from_att : Record → Task → Task
from_att r t = record t {
  attempts = r.n;
  next_at = r.next_at;
  last_code = r.code;
  last_err = r.err;
  state = waiting;
  updated_at = r.ts;
}

abbrev pub from_done : Record → Task → Task
from_done r t = record t {
  attempts = r.n;
  last_code = r.code;
  last_resp = r.resp;
  state = succeeded;
  updated_at = r.ts;
  target = strip t.target;
}

abbrev pub from_dead : Record → Task → Task
from_dead r t = record t { attempts = r.n; dead_reason = r.why; state = dead; updated_at = r.ts }

-- `if t.IdemKey != ""`
abbrev pub index_key : Bytes → Bytes → Table Bytes → Table Bytes
index_key [] id idem = idem
index_key (b ∷ k) id idem = insert (b ∷ k) id idem

restore_enq : ℕ → Option Task → Maps → Option Maps
restore_enq ts none m = none
restore_enq ts (some t) m = some (record {
  tasks = insert t.id (from_enq ts t) m.tasks;
  idem = index_key t.idem_key t.id m.idem;
})

-- The callback; `none` is the error of an enq record without a task.
restore_kind : Kind → Record → Maps → Option Maps
restore_kind enq r m = restore_enq r.ts r.task m
restore_kind att r m = some (record m { tasks = update r.id (from_att r) m.tasks })
restore_kind done r m = some (record m { tasks = update r.id (from_done r) m.tasks })
restore_kind Kind.dead r m = some (record m { tasks = update r.id (from_dead r) m.tasks })
restore_kind (other s) r m = some m

unfoldable pub restore_record : Record → Maps → Option Maps
unfolding restore_kind restore_enq
restore_record r m = restore_kind r.kind r m

-- The loop over the tasks after the replay.
unfoldable pub rebuild : Table Task → Queue → Queue
rebuild [] q = q
rebuild ((id, t) ∷ m) q = rebuild m (
    if terminal t.state
    then q
    else schedule id (record q {
      tasks = update id (λ t. record t { state = pending }) q.tasks;
      active = q.active + 1;
    }))

restored : Queue → Replayed Maps → Queue × Option Err
restored q replay_failed = (q, some store_failed)
restored q (replayed w m) =
    let q' = rebuild m.tasks (record q { store = w; tasks = m.tasks; idem = m.idem }) in
    (record q' { wake = true }, none)

module _ (c : Codec) where
  -- `Restore`
  unfoldable pub restore : ReplayFault → Fault → Queue → Queue × Option Err
  unfolding restored
  restore f io q =
      restored q (replay c restore_record f io (record { tasks = q.tasks; idem = q.idem }) q.store)
