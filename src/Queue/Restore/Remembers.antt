-- ===== src/Queue/Restore/Remembers.antt =====
-- A compaction, a crash and a start: `Compact` of internal/queue/maintain.go and `Restore` of
-- internal/queue/queue.go together lose no task.
use rc_wnzzer.Base.{
  ◌≡◌, refl, ap, ◌∙◌, ◌≢◌, ◌⊎◌, true, false, Bytes, eq_iff, Option, none, some, Option-cases, inl,
  inr, [], ◌++◌, append-nil, str_eq, Bool-cases, if◌then◌else◌, occurs, occurs-nil, take, take-nil,
  arith,
}
use rc_wnzzer.Base.Table.{Table, lookup, lookup-nil, weight_of}
use rc_wnzzer.Model.{
  State, unset, pending, waiting, sending, succeeded, dead, Task, strip, terminal, state_eq,
}
use rc_wnzzer.Store.Codec.{Codec}
use rc_wnzzer.Store.Wal.{Fault, CompactFault, compact, Crash, reopen}
use rc_wnzzer.Store.Wal.Journal.{compact-safe}
use rc_wnzzer.Store.Replay.{no_fault, replay, replayed}
use rc_wnzzer.Store.Replay.Recovery.{fold_records, recovered, replay_result, replay-crash}
use rc_wnzzer.Queue.State.{Config, Queue, new}
use rc_wnzzer.Queue.Maintain.{snapshot, compact_with, compact_queue}
use rc_wnzzer.Queue.Invariant.{Inv, live}
use rc_wnzzer.Queue.Restore.{Maps, restore_record, restore}
use rc_wnzzer.Queue.Restore.Rebuilt.{ready, ready_or}
use rc_wnzzer.Queue.Restore.Folded.{AllSound}
use rc_wnzzer.Queue.Restore.Sound.{empty-MapsInv}
use rc_wnzzer.Queue.Restore.Starts.{fold-MapsInv, loaded-Rebuilt, restarted-Inv}
use rc_wnzzer.Queue.Restore.Snapshot.{image_in, unfinished_image}
use rc_wnzzer.Queue.Restore.Compacted.{image_or, Recalled, fold-snapshot, snapshot-OpensOnce}

live_image : (s : State) (t : Task) → t.state ≡ s → terminal (image_in s t).state ≡ terminal s
live_image succeeded t e = refl
live_image dead t e = refl
live_image pending t e = ground arith
live_image waiting t e = ground arith
live_image sending t e = ground arith
live_image unset t e = ground arith

-- What is remembered of a task: all that was submitted, the attempts, and either its end with the
-- time of it or, pending, the time of the next attempt; the target of a succeeded task is stripped.
pub record Remembered (t u : Task) : Type 0 where
  pub same_id : u.id ≡ t.id
  pub same_key : u.idem_key ≡ t.idem_key
  pub same_policy : u.policy ≡ t.policy
  pub same_age : u.created_at ≡ t.created_at
  pub same_caller : u.key_id ≡ t.key_id
  pub same_attempts : u.attempts ≡ t.attempts
  pub target : u.target ≡ (if state_eq t.state succeeded then strip t.target else t.target)
  pub state : u.state ≡ (if terminal t.state then t.state else pending)
  pub due : (terminal t.state ≡ true) ⊎ (u.next_at ≡ t.next_at)
  pub ended_at : (terminal t.state ≡ false) ⊎ (u.updated_at ≡ t.updated_at)

abbrev pub AllRemembered : Option Task → Option Task → Type 0
AllRemembered none none = Unit
AllRemembered (some t) (some u) = Remembered t u
AllRemembered _ _ = ⊥

unfinished-Remembered :
    (t : Task)
    → terminal t.state ≡ false
    → state_eq t.state succeeded ≡ false
    → Remembered t (ready (unfinished_image t))
unfinished-Remembered t busy other = record {
  same_id = ground arith;
  same_key = ground arith;
  same_policy = ground arith;
  same_age = ground arith;
  same_caller = ground arith;
  same_attempts = ground arith;
  target = ground arith;
  state = ground arith;
  due = inr (ground arith);
  ended_at = inl busy;
}

-- The idempotency key of a task leads to some task.
abbrev pub KeyKnown : Option Task → Table Bytes → Type 0
KeyKnown none idem = Unit
KeyKnown (some t) idem = (t.idem_key ≡ []) ⊎ (lookup t.idem_key idem ≢ none)

image_in-Remembered : (s : State) (t : Task) → t.state ≡ s → Remembered t (ready (image_in s t))
image_in-Remembered succeeded t e = record {
  same_id = rw (e) refl;
  same_key = rw (e) refl;
  same_policy = rw (e) refl;
  same_age = rw (e) refl;
  same_caller = rw (e) refl;
  same_attempts = refl;
  target = rw (e) refl;
  state = rw (e) refl;
  due = inl (rw (e) refl);
  ended_at = inr refl;
}
image_in-Remembered dead t e = record {
  same_id = rw (e) refl;
  same_key = rw (e) refl;
  same_policy = rw (e) refl;
  same_age = rw (e) refl;
  same_caller = rw (e) refl;
  same_attempts = refl;
  target = rw (e) refl;
  state = rw (e) refl;
  due = inl (rw (e) refl);
  ended_at = inr refl;
}
image_in-Remembered pending t e = unfinished-Remembered t (rw (e) refl) (rw (e) refl)
image_in-Remembered waiting t e = unfinished-Remembered t (rw (e) refl) (rw (e) refl)
image_in-Remembered sending t e = unfinished-Remembered t (rw (e) refl) (rw (e) refl)
image_in-Remembered unset t e = unfinished-Remembered t (rw (e) refl) (rw (e) refl)

at_id : (o : Option Task) → AllRemembered o (ready_or (image_or o none) (image_or o none))
at_id none = tt
at_id (some t) = image_in-Remembered t.state t refl

known_at :
    (tasks : Table Task) (m m' : Maps)
    → Recalled tasks m m'
    → (j : Bytes) → KeyKnown (lookup j tasks) m'.idem
known_at tasks m m' r j = elim (Option-cases (lookup j tasks)) [
  | inl e ↦ rw (e) tt
  | inr (t, e) ↦ rw (e) (elim (Bool-cases (str_eq t.idem_key [])) [
    | inl bare ↦ inl (ground (arith, bare, eq_iff t.idem_key []))
    | inr named ↦ inr (r.keys j t e (ground (arith, named, eq_iff t.idem_key [])))
  ])
]

live_at : (o : Option Task) → weight_of live (image_or o none) ≡ weight_of live o
live_at none = refl
live_at (some t) = ground (arith, live_image t.state t refl)

-- In a state of the invariant whose snapshot is read back as it was written: after a compaction and a
-- start, of which no call fails, with a crash at any moment between them, no task is lost and none is
-- made up; of each is remembered what was submitted, the attempts, and its end or the time of the next
-- attempt. Exactly the tasks that have not ended are in the heap, each once, every idempotency key is
-- known, and the queue is again in a state of the invariant.
pub compact-remembers :
    (c : Codec) (q : Queue) (cfg : Config) (io : Fault) (n : Crash)
    → Inv q
    → AllSound c (snapshot q.tasks)
    → let w = (compact_queue c CompactFault.no_fault q).0.store in
      let r = restore c no_fault io (new cfg (reopen n w)) in
      (r.1 ≡ none)
      × ((j : Bytes) → AllRemembered (lookup j q.tasks) (lookup j r.0.tasks))
      × ((j : Bytes) → occurs j r.0.due ≡ weight_of live (lookup j q.tasks))
      × ((j : Bytes) → KeyKnown (lookup j q.tasks) r.0.idem)
      × Inv r.0
unfolding compact_queue compact_with compact restore new
compact-remembers c q cfg io n v sound =
    let snap = snapshot q.tasks in
    let empty : Maps = record { tasks = []; idem = [] } in
    let w = (compact c CompactFault.no_fault snap q.store).0 in
    let (k, size, lo, hi, e) =
      replay-crash c restore_record io n snap [] w empty (compact-safe c snap q.store) in
    let whole : snap ++ take k [] ≡ snap = ap (◌++◌ snap) (take-nil k) ∙ append-nil snap in
    let (m, folded, recalled) = fold-snapshot c q.tasks empty v.unique v.keyed sound in
    let log = recovered c restore_record size snap in
    let maps =
      fold-MapsInv c snap empty m empty-MapsInv sound (snapshot-OpensOnce q.tasks v.unique v.keyed)
        (λ id a. lookup-nil id) folded in
    let there : (j : Bytes) → lookup j m.tasks ≡ image_or (lookup j q.tasks) none =
      λ j. recalled.found j ∙ ap (image_or (lookup j q.tasks)) (lookup-nil j) in
    let b = loaded-Rebuilt m maps log cfg in
    let run : replay c restore_record no_fault io empty (reopen n w) ≡ replayed log m =
      e
      ∙ ap
          (λ rs.
            replay_result c restore_record (recovered c restore_record size rs)
              (fold_records c restore_record rs empty))
          whole
      ∙ ap (replay_result c restore_record log) folded in
    rw (run, restore)
      (
        refl,
        λ j. rw (b.found j, there j) (at_id (lookup j q.tasks)),
        λ j. ground (arith, b.entries j, occurs-nil j, there j, live_at (lookup j q.tasks)),
        λ j. rw (b.index) (known_at q.tasks empty m recalled j),
        restarted-Inv m maps log cfg,
      )
