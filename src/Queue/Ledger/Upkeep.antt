-- ===== src/Queue/Ledger/Upkeep.antt =====
-- The upkeep of internal/queue/maintain.go, and the ticks of internal/store/wal.go, leave a journal
-- that records the tasks in memory.
use rc_wnzzer.Base.{
  ℕ, ◌-◌, ◌≡◌, refl, ◌⊎◌, inl, Bool, true, false, Bytes, Option, none, some, List, [], ◌∷◌, length,
  if◌then◌else◌, arith,
}
use rc_wnzzer.Base.Table.{Table, lookup, lookup-nil}
use rc_wnzzer.Model.{Task}
use rc_wnzzer.Store.Codec.{Codec, lines}
use rc_wnzzer.Store.Wal.{Wal, none_fails, CompactFault, open_wal, sync_tick, flush, compact}
use rc_wnzzer.Queue.State.{Config, Queue, new}
use rc_wnzzer.Queue.Maintain.{
  drop_task, is_expired, purge_loop, purge_expired, candidates, sorted, cap_loop, enforce_task_cap,
  snapshot, compact_with, compact_queue,
}
use rc_wnzzer.Queue.Invariant.{Inv}
use rc_wnzzer.Queue.Purge.{kept, lookup-purge_expired}
use rc_wnzzer.Queue.Sending.{kept-cap}
use rc_wnzzer.Queue.Restore.Folded.{AllSound}
use rc_wnzzer.Queue.Restore.Sound.{empty-MapsInv}
use rc_wnzzer.Queue.Ledger.{Ledger, no_maps}
use rc_wnzzer.Queue.Ledger.Writes.{flush-Ledger, drop-Ledger}
use rc_wnzzer.Queue.Ledger.Starts.{compact-Ledger}
use rc_wnzzer.Queue.Ledger.Moves.{Books}

pub new-Books : (c : Codec) (cfg : Config) → Books c [] (new cfg (open_wal 0 []))
unfolding new lines
new-Books c cfg = record {
  safe = [];
  recent = [];
  journal = record {
    content = refl;
    covered = omega arith;
    on_file = omega arith;
    attached = refl;
    sound = refl;
  };
  base = no_maps;
  base_folded = refl;
  base_Inv = empty-MapsInv;
  updates = tt;
  maps = no_maps;
  folded = refl;
  known = λ j. rw (lookup-nil {V = Task} j) tt;
  keys = λ j. rw (lookup-nil {V = Task} j) tt;
  only = λ j n. lookup-nil j;
}

store-purge_loop : (now : ℕ) (m : Table Task) (q : Queue) → (purge_loop now m q).store ≡ q.store
unfolding purge_loop drop_task
store-purge_loop now [] q = refl
store-purge_loop now ((id, t) ∷ m) q =
    ground (arith, store-purge_loop now m (if is_expired q.cfg now t then drop_task id t q else q))

store-purge_expired : (now : ℕ) (q : Queue) → (purge_expired now q).store ≡ q.store
unfolding purge_expired
store-purge_expired now q = store-purge_loop now q.tasks q

store-cap_loop : (over : ℕ) (vs : Table Task) (q : Queue) → (cap_loop over vs q).store ≡ q.store
unfolding cap_loop drop_task
store-cap_loop over [] q = refl
store-cap_loop over ((id, t) ∷ vs) q =
    ground (arith, store-cap_loop (over - 1) vs (drop_task id t q))

store-cap : (q : Queue) → (enforce_task_cap q).store ≡ q.store
unfolding enforce_task_cap
store-cap q =
    ground
      (arith, store-cap_loop (length q.tasks - q.cfg.tasks_max) (sorted (candidates q.tasks)) q)

module _ (c : Codec) (given : List Bytes) (q : Queue) (v : Inv q) (l : Books c given q) where
  pub purge-Books : (now : ℕ) → Books c given (purge_expired now q)
  purge-Books now = rw (store-purge_expired now q) (
      drop-Ledger l (purge_expired now q).tasks
        (λ j. rw (lookup-purge_expired now q j v) (either (lookup j q.tasks))))
    where
      either : (o : Option Task) → (kept q.cfg now o ≡ o) ⊎ (kept q.cfg now o ≡ none)
      either none = inl refl
      either (some t) = ground arith

  pub cap-Books : Books c given (enforce_task_cap q)
  cap-Books = rw (store-cap q) (drop-Ledger l (enforce_task_cap q).tasks (kept-cap q))

  pub tick-Books : Books c given (record q { store = sync_tick none_fails q.store })
  unfolding sync_tick
  tick-Books = pick q.store.dirty
    where
      pick :
          (b : Bool)
          → Ledger c given (if b then flush none_fails q.store else (q.store, true)).0 q.tasks
      pick true = flush-Ledger l
      pick false = l

  pub compact-Books :
      AllSound c (snapshot q.tasks) → Books c given (compact_queue c CompactFault.no_fault q).0
  unfolding compact_queue compact_with compact
  compact-Books sound = compact-Ledger l v.unique v.keyed sound

pub store-Inv : (q : Queue) (w : Wal) → Inv q → Inv (record q { store = w })
store-Inv q w v = record {
  unique = v.unique;
  keyed = v.keyed;
  counted = v.counted;
  due_once = v.due_once;
  ordered = v.ordered;
  indexed = v.indexed;
  named = v.named;
}
