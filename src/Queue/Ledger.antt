-- ===== src/Queue/Ledger.antt =====
-- What the journal of internal/store/wal.go says of the tasks that internal/queue/queue.go has in
-- memory, between two operations.
pub mod Updates
pub mod Writes
pub mod Admits
pub mod Starts
pub mod Ready
pub mod Restarts
pub mod Entries
pub mod Moves
pub mod Upkeep
use rc_wnzzer.Base.{
  ℕ, ◌≤◌, ◌≡◌, ◌⊎◌, Bool, true, false, Bytes, Option, none, some, List, [], ◌∷◌, occurs,
  if◌then◌else◌,
}
use rc_wnzzer.Base.Table.{Table, lookup}
use rc_wnzzer.Model.{Task, Policy, succeeded, dead, strip, terminal, state_eq}
use rc_wnzzer.Store.Record.{Kind, Record, enq}
use rc_wnzzer.Store.Codec.{Codec}
use rc_wnzzer.Store.Wal.{Wal}
use rc_wnzzer.Store.Wal.Journal.{IsJournal}
use rc_wnzzer.Store.Replay.Recovery.{fold_records}
use rc_wnzzer.Queue.Restore.{Maps, restore_record}
use rc_wnzzer.Queue.Restore.Sound.{MapsInv}
use rc_wnzzer.Queue.Restore.Remembers.{KeyKnown}

-- What a submission fixes for good, beside its target.
pub record SameSubmission (t u : Task) : Type 0 where
  pub same_id : u.id ≡ t.id
  pub same_key : u.idem_key ≡ t.idem_key
  pub same_policy : u.policy ≡ t.policy
  pub same_caller : u.key_id ≡ t.key_id

-- What the journal has of a task: the submission, with the target perhaps stripped once it has
-- succeeded, the attempts, and the end and its reason, or that there is none and a time of the next attempt
-- that is no later than the one in memory.
pub record Recorded (t u : Task) : Type 0 where
  pub submission : SameSubmission t u
  pub attempts : u.attempts ≡ t.attempts
  pub target :
      (u.target ≡ t.target) ⊎ ((state_eq t.state succeeded ≡ true) × (u.target ≡ strip t.target))
  pub over : terminal u.state ≡ terminal t.state
  pub end : (terminal t.state ≡ false) ⊎ (u.state ≡ t.state)
  pub reason : (state_eq t.state dead ≡ false) ⊎ (u.dead_reason ≡ t.dead_reason)
  pub due : (terminal t.state ≡ true) ⊎ (u.next_at ≤ t.next_at)

-- The first is a task in memory, if there is one, the second what is read back.
abbrev pub IsRecorded : Option Task → Option Task → Type 0
IsRecorded none o = Unit
IsRecorded (some t) none = ⊥
IsRecorded (some t) (some u) = Recorded t u

-- What no start loses of a task: what its submission fixed, and the target, as it is in memory; the one
-- read back has more if that in memory was stripped, and may be stripped itself if the task has
-- succeeded.
pub record Held (t u : Task) : Type 0 where
  pub submission : SameSubmission t u
  pub target :
      (u.target ≡ t.target)
      ⊎ ((strip u.target ≡ t.target)
          ⊎ ((state_eq t.state succeeded ≡ true) × (strip u.target ≡ strip t.target)))

abbrev pub IsHeld : Option Task → Option Task → Type 0
IsHeld none o = Unit
IsHeld (some t) none = ⊥
IsHeld (some t) (some u) = Held t u

abbrev pub is_update : Kind → Bool
is_update enq = false
is_update _ = true

-- Records that are read back as they were written, none of them a submission.
abbrev pub AllUpdates : Codec → List Record → Type 0
AllUpdates c [] = Unit
AllUpdates c (r ∷ rs) = (c.is_utf8 r ≡ true) × (is_update r.kind ≡ true) × AllUpdates c rs

abbrev pub no_maps : Maps
no_maps = record { tasks = []; idem = [] }

-- The log holds synced records, that make some maps, and later updates of these, after which the maps
-- record every task in memory. The idempotency keys in the maps lead to tasks, and only ids that were
-- given stand there.
pub record Ledger (c : Codec) (given : List Bytes) (w : Wal) (tasks : Table Task) : Type 0 where
  pub safe : List Record
  pub recent : List Record
  pub journal : IsJournal c safe recent w
  pub base : Maps
  pub base_folded : fold_records c restore_record safe no_maps ≡ some base
  pub base_Inv : MapsInv base
  pub updates : AllUpdates c recent
  pub maps : Maps
  pub folded : fold_records c restore_record recent base ≡ some maps
  pub known : (j : Bytes) → IsRecorded (lookup j tasks) (lookup j maps.tasks)
  pub keys : (j : Bytes) → KeyKnown (lookup j maps.tasks) maps.idem
  pub only : (j : Bytes) → occurs j given ≡ 0 → lookup j maps.tasks ≡ none
