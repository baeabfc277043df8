-- ===== src/Program/Courses.antt =====
-- Courses of the program of cmd/notifyd/main.go: its steps and those of the synchronisation of
-- internal/store/wal.go, in any order, as long as no call of the journal fails, and any crashes, each
-- with a start after it.
pub mod Submits
pub mod Delivers
pub mod Continues
pub mod InTime
pub mod Lives
use rc_wnzzer.Base.{
  ℕ, zero, suc, ◌+◌, ◌≡◌, Bool, true, Bytes, bytes, Option, some, List, [], ◌∷◌, occurs,
}
use rc_wnzzer.Base.Table.{lookup}
use rc_wnzzer.Model.{Task}
use rc_wnzzer.Store.Record.{res_retry}
use rc_wnzzer.Store.Codec.{Codec}
use rc_wnzzer.Store.Wal.{
  Fault, none_fails, CompactFault, open_wal, crash, sync_tick, enqueue_record, attempt_record,
  done_record, dead_record, truncate, err_field_max, Crash, reopen,
}
use rc_wnzzer.Store.Replay.{no_fault}
use rc_wnzzer.Queue.State.{Config, new}
use rc_wnzzer.Queue.Maintain.{snapshot}
use rc_wnzzer.Queue.Restore.{restore}
use rc_wnzzer.Queue.Restore.Folded.{AllSound}
use rc_wnzzer.Api.Validate.{SubmitRequest}
use rc_wnzzer.Api.Submit.{task_from}
use rc_wnzzer.Dispatch.Outcome.{permanent_reason}
use rc_wnzzer.Dispatch.Deliver.{Attempt}
use rc_wnzzer.Dispatch.Target.{Url}
use rc_wnzzer.Dispatch.Run.{Settings, System, started}
use rc_wnzzer.Program.Steps.{
  Step, looks, stops, chooses, starts, gives_up, finishes, releases, submits, retries, purges, caps,
  compacts,
}

-- The records that a delivery of the task may write are read back as they are written.
pub record Writable (c : Codec) (a : Attempt) (t : Task) : Type 0 where
  pub again :
      (next_at : ℕ)
      → c.is_utf8 (
          attempt_record a.io.ts t.id
            (t.attempts + 1)
            res_retry
            a.reply.code
            (truncate a.reply.snippet err_field_max)
            next_at)
        ≡ true
  pub success :
      c.is_utf8 (
        done_record a.io.ts t.id
          (t.attempts + 1)
          a.reply.code
          (truncate a.reply.snippet err_field_max))
      ≡ true
  pub permanent :
      c.is_utf8 (dead_record a.io.ts t.id (t.attempts + 1) (permanent_reason a.reply.err)) ≡ true
  pub max_attempts :
      c.is_utf8 (dead_record a.io.ts t.id (t.attempts + 1) (bytes "max_attempts")) ≡ true
  pub deadline :
      c.is_utf8 (dead_record a.io.ts t.id (t.attempts + 1) (bytes "deadline_exceeded")) ≡ true

module _ (c : Codec) (cfg : Settings) (parse : Bytes → Option Url) where
  -- A step in which no call of the journal fails, what is written is read back as it was written, the
  -- id of a new task was never drawn, and nothing happens between the halves of a compaction.
  abbrev pub IsClean : {s s' : System} → List Bytes → Step c cfg parse s s' → Type 0
  IsClean {s} given (finishes a i f here going) =
      (a.io.fault ≡ none_fails) × ((t : Task) → lookup f.id s.queue.tasks ≡ some t → Writable c a t)
  IsClean given (submits p allow_private io now id incoming fresh) =
      (io.fault ≡ none_fails)
      × (occurs id given ≡ 0)
      × ((key_id : Bytes) (r : SubmitRequest)
          → incoming.caller ≡ some key_id
          → incoming.request ≡ some r
          → c.is_utf8 (enqueue_record io.ts (task_from now id key_id r)) ≡ true)
  IsClean given (retries io now b id) =
      (io.fault ≡ none_fails)
      × (c.is_utf8
            (attempt_record io.ts id 0 res_retry 0 (truncate (bytes "revived") err_field_max) now)
          ≡ true)
  IsClean {s} given (compacts fault snap) =
      (fault ≡ CompactFault.no_fault)
      × (snap ≡ snapshot s.queue.tasks)
      × AllSound c (snapshot s.queue.tasks)
  IsClean given _ = Unit

  -- The ids that were drawn, after a step.
  abbrev pub drawn : {s s' : System} → List Bytes → Step c cfg parse s s' → List Bytes
  drawn given (submits p allow_private io now id incoming fresh) = id ∷ given
  drawn given _ = given

-- The states that are reached, with the ids that were drawn and the settings of the last start.
pub data Course (c : Codec) (parse : Bytes → Option Url)
    : List Bytes → Settings → System → Type 0 where
  boots :
      (cfg : Settings) (qcfg : Config) → Course c parse [] cfg (started (new qcfg (open_wal 0 [])))
  steps :
      {given : List Bytes} {cfg : Settings} {s s' : System}
      → Course c parse given cfg s
      → (e : Step c cfg parse s s') → IsClean c cfg parse given e
      → Course c parse (drawn c cfg parse given e) cfg s'
  ticks :
      {given : List Bytes} {cfg : Settings} {s : System}
      → Course c parse given cfg s
      → Course c parse given cfg
          (record s { queue = record s.queue { store = sync_tick none_fails s.queue.store } })
  crashes :
      {given : List Bytes} {cfg : Settings} {s : System}
      → Course c parse given cfg s
      → (n : Crash) (cfg' : Settings) (qcfg : Config) (io : Fault)
      → Course c parse given cfg'
          (started (restore c no_fault io (new qcfg (reopen n s.queue.store))).0)
