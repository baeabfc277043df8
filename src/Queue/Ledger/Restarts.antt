-- ===== src/Queue/Ledger/Restarts.antt =====
-- A crash and a start: `Restore` of internal/queue/queue.go on the journal that records the tasks.
use rc_wnzzer.Base.{
  ℕ, zero, suc, ◌+◌, ◌≡◌, refl, sym, ap, ◌∙◌, Bool, Bytes, Option, none, some, List, [], ◌∷◌, ◌++◌,
  take, drop, take-append-drop, append-nil, length, length-append, ◌≤◌, occurs, occurs-nil,
  if◌then◌else◌, subst, arith,
}
use rc_wnzzer.Base.Table.{Table, lookup, weight_of}
use rc_wnzzer.Model.{Task, terminal, pending}
use rc_wnzzer.Store.Record.{Record}
use rc_wnzzer.Store.Codec.{Codec, lines}
use rc_wnzzer.Store.Wal.{Wal, Fault, none_fails, close_wal, Crash, reopen}
use rc_wnzzer.Store.Wal.Journal.{IsJournal}
use rc_wnzzer.Store.Replay.{no_fault}
use rc_wnzzer.Store.Replay.Lines.{lines-append}
use rc_wnzzer.Store.Replay.Recovery.{
  fold_records, recovered, replay_result, replay-crash, close-replay,
}
use rc_wnzzer.Queue.State.{Config, Queue, Err, new, schedule, update}
use rc_wnzzer.Queue.Invariant.{Inv, live}
use rc_wnzzer.Queue.Restore.{Maps, restore_record, rebuild, restore}
use rc_wnzzer.Queue.Restore.Rebuilt.{ready_or}
use rc_wnzzer.Queue.Restore.Folded.{fold-append}
use rc_wnzzer.Queue.Restore.Sound.{MapsInv}
use rc_wnzzer.Queue.Restore.Starts.{loaded, restarted, loaded-Rebuilt, restarted-Inv}
use rc_wnzzer.Queue.Restore.Remembers.{KeyKnown}
use rc_wnzzer.Queue.Ledger.{IsRecorded, IsHeld, AllUpdates, Ledger, no_maps}
use rc_wnzzer.Queue.Ledger.Updates.{
  SameAt, SameMaps, SameAt-trans, SameAt-sym, SameAt-none, ShedsAt, IsHeld-before, fold-Updated,
}
use rc_wnzzer.Queue.Ledger.Writes.{Ledger-maps}
use rc_wnzzer.Queue.Ledger.Ready.{
  ready_or-IsRecorded, ready-IsRecorded, ready-IsHeld, IsRecorded-IsHeld, SameAt-KeyKnown,
  ready_or_self, live_ready, KeyKnown-ready,
}

recovered-IsJournal :
    (c : Codec) (k : ℕ) (safe recent : List Record)
    → length (lines c safe) ≤ k
    → k ≤ length (lines c (safe ++ recent))
    → IsJournal c safe recent (recovered c restore_record k (safe ++ recent))
recovered-IsJournal c k safe recent lo hi = record {
  content = append-nil (lines c (safe ++ recent)) ∙ lines-append c safe recent;
  covered = lo;
  on_file = hi;
  attached = refl;
  sound = refl;
}

store-rebuild : (m : Table Task) (q : Queue) → (rebuild m q).store ≡ q.store
unfolding rebuild schedule
store-rebuild [] q = refl
store-rebuild ((id, t) ∷ m) q = ground (
  arith,
  store-rebuild m (
      if terminal t.state
      then q
      else schedule id (record q {
        tasks = update id (λ t. record t { state = pending }) q.tasks;
        active = q.active + 1;
      })),
)

-- A start that succeeds, by the tasks that were in memory before: none is lost, those that have not
-- ended are in the heap, each once, and the journal records what is now in memory.
pub record Started (c : Codec) (given : List Bytes) (tasks : Table Task) (r : Queue × Option Err)
    : Type 0 where
  pub succeeds : r.1 ≡ none
  pub queue_Inv : Inv r.0
  pub ledger : Ledger c given r.0.store r.0.tasks
  pub held : (j : Bytes) → IsHeld (lookup j tasks) (lookup j r.0.tasks)
  pub due : (j : Bytes) → occurs j r.0.due ≡ weight_of live (lookup j r.0.tasks)
  pub keys : (j : Bytes) → KeyKnown (lookup j r.0.tasks) r.0.idem

-- The queue that a start makes of the maps of some records.
abbrev restarted_queue :
    (c : Codec) (k : ℕ) (rs : List Record) (m : Maps) → MapsInv m → (cfg : Config) → Queue
restarted_queue c k rs m v cfg = restarted m v (recovered c restore_record k rs) cfg

module _ (c : Codec) (k : ℕ) (rs : List Record) (m : Maps) (v : MapsInv m) (cfg : Config) where
  found :
      (j : Bytes)
      → lookup j (restarted_queue c k rs m v cfg).tasks ≡ ready_or (lookup j m.tasks) none
  unfolding new
  found j =
      (loaded-Rebuilt m v (recovered c restore_record k rs) cfg).found j
      ∙ ready_or_self (lookup j m.tasks)

  due :
      (j : Bytes)
      → occurs j (restarted_queue c k rs m v cfg).due
        ≡ weight_of live (lookup j (restarted_queue c k rs m v cfg).tasks)
  unfolding new
  due j =
      let b = loaded-Rebuilt m v (recovered c restore_record k rs) cfg in
      omega (
        arith,
        b.entries j,
        occurs-nil j,
        live_ready (lookup j m.tasks),
        ap (weight_of live) (found j),
      )

  store : (restarted_queue c k rs m v cfg).store ≡ recovered c restore_record k rs
  unfolding new
  store = store-rebuild m.tasks (loaded m v (recovered c restore_record k rs) cfg)

module _ (c : Codec) (k : ℕ) (safe recent : List Record) (base m : Maps) (v : MapsInv m)
    (cfg : Config) (given : List Bytes) (lo : length (lines c safe) ≤ k)
    (hi : k ≤ length (lines c (safe ++ recent)))
    (base_folded : fold_records c restore_record safe no_maps ≡ some base) (base_Inv : MapsInv base)
    (updates : AllUpdates c recent) (folded : fold_records c restore_record recent base ≡ some m)
    (keys : (j : Bytes) → KeyKnown (lookup j m.tasks) m.idem)
    (only : (j : Bytes) → occurs j given ≡ 0 → lookup j m.tasks ≡ none) where
  abbrev records : List Record
  records = safe ++ recent

  restarted-Ledger : let q = restarted_queue c k records m v cfg in Ledger c given q.store q.tasks
  restarted-Ledger = record {
    safe = safe;
    recent = recent;
    journal =
        subst (IsJournal c safe recent) (sym (store c k records m v cfg))
          (recovered-IsJournal c k safe recent lo hi);
    base = base;
    base_folded = base_folded;
    base_Inv = base_Inv;
    updates = updates;
    maps = m;
    folded = folded;
    known = λ j. rw (found c k records m v cfg j) (ready_or-IsRecorded (lookup j m.tasks));
    keys = keys;
    only = only;
  }

  restarted-Started :
      (tasks : Table Task)
      → ((j : Bytes) → IsHeld (lookup j tasks) (lookup j m.tasks))
      → Started c given tasks (restarted_queue c k records m v cfg, none)
  restarted-Started tasks held =
      let log = recovered c restore_record k records in
      let index = (loaded-Rebuilt m v log cfg).index in
      record {
        succeeds = refl;
        queue_Inv = restarted-Inv m v log cfg;
        ledger = restarted-Ledger;
        held = λ j.
            rw (found c k records m v cfg j)
              (ready-IsHeld (lookup j tasks) (lookup j m.tasks) (held j));
        due = due c k records m v cfg;
        keys = λ j. rw (found c k records m v cfg j) (
            KeyKnown-ready (lookup j m.tasks) _
              (subst (KeyKnown (lookup j m.tasks)) (sym index) (keys j)));
      }

take-AllUpdates :
    (c : Codec) (k : ℕ) (rs : List Record) → AllUpdates c rs → AllUpdates c (take k rs)
take-AllUpdates c zero rs s = tt
take-AllUpdates c (suc k) [] s = tt
take-AllUpdates c (suc k) (r ∷ rs) s = (s.0, s.1, take-AllUpdates c k rs s.2)

drop-AllUpdates :
    (c : Codec) (k : ℕ) (rs : List Record) → AllUpdates c rs → AllUpdates c (drop k rs)
drop-AllUpdates c zero rs s = s
drop-AllUpdates c (suc k) [] s = tt
drop-AllUpdates c (suc k) (r ∷ rs) s = drop-AllUpdates c k rs s.2

module _ {c : Codec} {given : List Bytes} {w : Wal} {tasks : Table Task}
    (l : Ledger c given w tasks) where
  -- The maps after the synced records and some of the others hold the same submissions.
  same_maps :
      (m : Maps)
      → SameMaps l.base m
      → (j : Bytes) → SameAt (lookup j l.maps.tasks) (lookup j m.tasks)
  same_maps m s j =
      SameAt-trans (lookup j l.maps.tasks) (lookup j l.base.tasks) (lookup j m.tasks)
        (SameAt-sym (lookup j l.base.tasks) (lookup j l.maps.tasks) ((Ledger-maps l).1.at j))
        (s.at j)

  same_index : (m : Maps) → SameMaps l.base m → m.idem ≡ l.maps.idem
  same_index m s = s.index ∙ sym (Ledger-maps l).1.index

  -- The maps after all records have the targets of those after fewer, some perhaps stripped.
  later_sheds :
      (k : ℕ) (m : Maps)
      → MapsInv m
      → fold_records c restore_record (take k l.recent) l.base ≡ some m
      → (j : Bytes) → ShedsAt (lookup j m.tasks) (lookup j l.maps.tasks)
  later_sheds k m v e j =
      let up = fold-Updated c (drop k l.recent) m v (drop-AllUpdates c k l.recent l.updates) in
      let all : fold_records c restore_record l.recent l.base ≡ some up.maps =
        ap (λ rs. fold_records c restore_record rs l.base) (sym (take-append-drop k l.recent))
        ∙ fold-append c (take k l.recent) (drop k l.recent) l.base m e
        ∙ up.result in
      let same : up.maps ≡ l.maps = ground (arith, all, l.folded) in
      subst (λ x. ShedsAt (lookup j m.tasks) (lookup j x.tasks)) same (up.same.sheds j)

  -- A crash at any moment, and a start of which no call fails.
  pub crash-Started :
      (n : Crash) (cfg : Config) (io : Fault)
      → Started c given tasks (restore c no_fault io (new cfg (reopen n w)))
  unfolding restore new
  crash-Started n cfg io =
      let (k, size, lo, hi, e) =
        replay-crash c restore_record io n l.safe l.recent w no_maps l.journal in
      let rest = take k l.recent in
      let updates = take-AllUpdates c k l.recent l.updates in
      let up = fold-Updated c rest l.base l.base_Inv updates in
      let folded : fold_records c restore_record (l.safe ++ rest) no_maps ≡ some up.maps =
        fold-append c l.safe rest no_maps l.base l.base_folded ∙ up.result in
      let at = same_maps up.maps up.same in
      let result =
        replay_result c restore_record (recovered c restore_record size (l.safe ++ rest)) in
      rw (e ∙ ap result folded, restore)
        (restarted-Started c size l.safe rest l.base up.maps up.still cfg given lo hi l.base_folded
          l.base_Inv updates up.result
          (λ j. subst (KeyKnown (lookup j up.maps.tasks)) (sym (same_index up.maps up.same)) (
            SameAt-KeyKnown (lookup j up.maps.tasks) (lookup j l.maps.tasks) l.maps.idem
              (SameAt-sym (lookup j l.maps.tasks) (lookup j up.maps.tasks) (at j)) (l.keys j)))
          (λ j n. SameAt-none (lookup j l.maps.tasks) (lookup j up.maps.tasks) (at j) (l.only j n))
          tasks
          (λ j.
            IsHeld-before (lookup j tasks) (lookup j l.maps.tasks) (lookup j up.maps.tasks)
              (l.known j) (at j) (later_sheds k up.maps up.still up.result j)))

  -- A close that does not fail, a crash at any moment, and a start of which no call fails.
  pub close-Started :
      (n : Crash) (is_closed : Bool) (cfg : Config) (io : Fault)
      → let r = restore c no_fault io (new cfg (reopen n (close_wal none_fails is_closed w).0)) in
        Started c given tasks r × ((j : Bytes) → IsRecorded (lookup j tasks) (lookup j r.0.tasks))
  unfolding close_wal restore new
  close-Started n is_closed cfg io =
      let rs = l.safe ++ l.recent in
      let size = length (lines c rs) in
      let folded : fold_records c restore_record rs no_maps ≡ some l.maps =
        fold-append c l.safe l.recent no_maps l.base l.base_folded ∙ l.folded in
      let v = (Ledger-maps l).0 in
      let lo : length (lines c l.safe) ≤ size = omega (
        arith,
        ap length (lines-append c l.safe l.recent),
        length-append (lines c l.safe) (lines c l.recent),
      ) in
      let run = close-replay c restore_record io n is_closed l.safe l.recent w no_maps l.journal in
      rw
        (
          run ∙ ap (replay_result c restore_record (recovered c restore_record size rs)) folded,
          restore,
        )
        (
          restarted-Started c size l.safe l.recent l.base l.maps v cfg given lo (omega arith)
              l.base_folded l.base_Inv l.updates l.folded l.keys l.only tasks
              (λ j. IsRecorded-IsHeld (lookup j tasks) (lookup j l.maps.tasks) (l.known j)),
          λ j.
              rw (found c size rs l.maps v cfg j)
                (ready-IsRecorded (lookup j tasks) (lookup j l.maps.tasks) (l.known j)),
        )
