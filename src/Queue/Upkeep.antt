-- ===== src/Queue/Upkeep.antt =====
-- `Maintain`, `Compact` and `maybeCompact` of internal/queue/maintain.go.
use rc_wnzzer.Base.{ℕ, Bool, true, false, List, if◌then◌else◌}
use rc_wnzzer.Store.Record.{Record}
use rc_wnzzer.Store.Codec.{Codec}
use rc_wnzzer.Store.Wal.{CompactFault, compact}
use rc_wnzzer.Queue.State.{Queue}
use rc_wnzzer.Queue.Maintain.{
  purge_expired, enforce_task_cap, snapshot, wants_compaction, compact_with, compact_queue,
  maybe_compact, maintain,
}
use rc_wnzzer.Queue.Invariant.{Inv}
use rc_wnzzer.Queue.Purge.{purge_expired-Inv}
use rc_wnzzer.Queue.Cap.{enforce_task_cap-Inv}

pair_either :
    {B : Type 0} (P : Queue → Type 0) (b : Bool) (x y : Queue × B)
    → P x.0
    → P y.0
    → P (if b then x else y).0
pair_either P true x y px py = px
pair_either P false x y px py = py

either : (P : Queue → Type 0) (b : Bool) (x y : Queue) → P x → P y → P (if b then x else y)
either P true x y px py = px
either P false x y px py = py

module _ (c : Codec) where
  -- A compaction keeps the invariant, whichever snapshot it writes and whatever fails.
  pub compact_with-Inv :
      (f : CompactFault) (snap : List Record) (q : Queue) → Inv q → Inv (compact_with c f snap q).0
  unfolding compact_with
  compact_with-Inv f snap q v =
      let r = compact c f snap q.store in
      let kept : Inv (record q { store = r.0 }) = record {
        unique = v.unique;
        keyed = v.keyed;
        counted = v.counted;
        due_once = v.due_once;
        ordered = v.ordered;
        indexed = v.indexed;
        named = v.named;
      } in
      let reset : Inv (record q { store = r.0; unstripped = 0 }) = record {
        unique = v.unique;
        keyed = v.keyed;
        counted = v.counted;
        due_once = v.due_once;
        ordered = v.ordered;
        indexed = v.indexed;
        named = v.named;
      } in
      either Inv r.1 _ _ reset kept

  maybe_compact-Inv : (f : CompactFault) (q : Queue) → Inv q → Inv (maybe_compact c f q).0
  unfolding maybe_compact compact_queue
  maybe_compact-Inv f q v =
      pair_either Inv (wants_compaction q) _ _ (compact_with-Inv f (snapshot q.tasks) q v) v

  -- The whole maintenance round keeps the invariant, also if the compaction fails.
  pub maintain-Inv : (f : CompactFault) (now : ℕ) (q : Queue) → Inv q → Inv (maintain c f now q)
  unfolding maintain
  maintain-Inv f now q v =
      let purged = purge_expired now q in
      maybe_compact-Inv f (enforce_task_cap purged)
        (enforce_task_cap-Inv purged (purge_expired-Inv now q v))
