-- ===== src/Queue/Cap.antt =====
-- `enforceTaskCap` of internal/queue/maintain.go: which tasks it gives up, and how many.
use rc_wnzzer.Base.{
  ℕ, ◌+◌, ◌-◌, ◌≤◌, ◌<◌, ◌≡◌, refl, ap, ◌∙◌, Bool, true, false, Bytes, str_eq, eq_iff, none, some,
  ◌⊎◌, [], ◌∷◌, length, ◌==◌, if◌then◌else◌, Bool-cases, inl, inr, arith,
}
use rc_wnzzer.Base.Table.{
  Table, lookup, lookup-nil, lookup-delete, total, total-delete, HasUniqueKeys,
}
use rc_wnzzer.Model.{Task, succeeded, dead, terminal}
use rc_wnzzer.Queue.State.{Queue}
use rc_wnzzer.Queue.Maintain.{drop_task, before, candidates, sorted, cap_loop, enforce_task_cap}
use rc_wnzzer.Queue.Invariant.{Inv, live}
use rc_wnzzer.Queue.Purge.{Held, Held-tail, lookup-head, lookup-cons, tasks-drop_if, drop_task-Inv}
use rc_wnzzer.Queue.Victims.{
  terminal_only, lookup-candidates, candidates-HasUniqueKeys, lookup-sorted, sorted-HasUniqueKeys,
  IsOrdered, sorted-IsOrdered, length-sorted, length-candidates, total_ones,
}
use rc_wnzzer.Queue.Cap.Loop.{
  AllTerminal, cap_loop-Inv, lookup-cap_loop, size, size-cap_loop, order-cap_loop, queue_either,
}
pub mod Loop

size-length : (q : Queue) → size q ≡ length q.tasks
unfolding size
size-length q = total_ones q.tasks

-- The victims of a queue, in order.
victims : Queue → Table Task
victims q = sorted (candidates q.tasks)

-- Which of two ended tasks is given up first: the succeeded before the dead one, else the one updated
-- earlier.
abbrev pub ComesFirst : Task → Task → Type 0
ComesFirst s d =
    ((s.state ≡ succeeded) × (d.state ≡ dead))
    ⊎ ((s.state ≡ d.state) × (s.updated_at < d.updated_at))

ComesFirst-before :
    (s d : Task)
    → terminal s.state ≡ true
    → terminal d.state ≡ true
    → ComesFirst s d
    → before s d ≡ true
ComesFirst-before s d e f (inl (a, b)) = ground (arith, a, b)
ComesFirst-before s d e f (inr (a, b)) = ground (arith, a, b, e, f)

module _ (q : Queue) (v : Inv q) where
  lookup-victims : (j : Bytes) → lookup j (victims q) ≡ terminal_only (lookup j q.tasks)
  unfolding victims
  lookup-victims j =
      lookup-sorted (candidates q.tasks) j (candidates-HasUniqueKeys q.tasks v.unique)
      ∙ lookup-candidates q.tasks j v.unique

  victims-Held : Held (victims q) q.tasks
  victims-Held j u e = ground (arith, lookup-victims j, e)

  victims-AllTerminal : AllTerminal (victims q)
  victims-AllTerminal j u e = ground (arith, lookup-victims j, e)

  victims-HasUniqueKeys : HasUniqueKeys (victims q)
  unfolding victims
  victims-HasUniqueKeys =
      sorted-HasUniqueKeys (candidates q.tasks) (candidates-HasUniqueKeys q.tasks v.unique)

  victims-IsOrdered : IsOrdered (victims q)
  unfolding victims
  victims-IsOrdered =
      sorted-IsOrdered (candidates q.tasks) (candidates-HasUniqueKeys q.tasks v.unique)

  length-victims : length (victims q) + total live q.tasks ≡ length q.tasks
  unfolding victims
  length-victims = omega (arith, length-sorted (candidates q.tasks), length-candidates q.tasks)

  -- The cap keeps the invariant.
  pub enforce_task_cap-Inv : Inv (enforce_task_cap q)
  unfolding enforce_task_cap victims
  enforce_task_cap-Inv =
      let over = length q.tasks - q.cfg.tasks_max in
      let run =
        cap_loop-Inv over (victims q) q victims-HasUniqueKeys victims-Held victims-AllTerminal v in
      queue_either (q.cfg.tasks_max == 0) _ _ v (queue_either (over == 0) _ _ v run)

  -- Under the invariant the cap never drops or changes a task that is not in a final state.
  pub cap-keeps-active :
      (j : Bytes) (t : Task)
      → lookup j q.tasks ≡ some t
      → terminal t.state ≡ false
      → lookup j (enforce_task_cap q).tasks ≡ some t
  unfolding enforce_task_cap victims
  cap-keeps-active j t at busy =
      let over = length q.tasks - q.cfg.tasks_max in
      let no_victim : lookup j (victims q) ≡ none = ground (arith, lookup-victims j, at, busy) in
      ground (arith, at, lookup-cap_loop over (victims q) q j no_victim)

  -- If the cap, in a state of the invariant, drops a task that has ended, then it drops every
  -- ended task that comes before that one: a succeeded task before a dead one, else the one
  -- updated earlier.
  pub cap-order :
      (s d : Bytes) (ts td : Task)
      → lookup s q.tasks ≡ some ts
      → lookup d q.tasks ≡ some td
      → terminal ts.state ≡ true
      → terminal td.state ≡ true
      → ComesFirst ts td
      → lookup d (enforce_task_cap q).tasks ≡ none
      → lookup s (enforce_task_cap q).tasks ≡ none
  unfolding enforce_task_cap victims
  cap-order s d ts td es ed fs fd b n =
      let over = length q.tasks - q.cfg.tasks_max in
      let ordered =
        order-cap_loop over (victims q) q s d ts td victims-HasUniqueKeys victims-IsOrdered
          victims-Held (ground (arith, lookup-victims s, es, fs))
          (ground (arith, lookup-victims d, ed, fd)) (ComesFirst-before ts td fs fd b) in
      ground (arith, n, ed, ordered)

  -- Under the invariant, after the cap the map is no larger than the cap, if that is not zero and
  -- the active tasks alone are not more.
  pub cap-length :
      0 < q.cfg.tasks_max
      → q.active ≤ q.cfg.tasks_max
      → length (enforce_task_cap q).tasks ≤ q.cfg.tasks_max
  unfolding enforce_task_cap victims
  cap-length pos small =
      let over = length q.tasks - q.cfg.tasks_max in
      let run =
        size-cap_loop over (victims q) q victims-HasUniqueKeys victims-Held victims-AllTerminal v in
      ground (
        arith,
        pos,
        small,
        run,
        v.counted,
        length-victims,
        size-length q,
        size-length (cap_loop over (victims q) q),
      )
