-- ===== src/Queue/Lease/Least.antt =====
-- What `Lease` of internal/queue/queue.go hands out, and what it means that it hands out nothing.
use rc_wnzzer.Base.{
  ℕ, ◌+◌, ◌≤◌, ◌<◌, ◌≡◌, refl, ap, ◌⊎◌, [], ◌∷◌, get_elem?, Bytes, bit, str_eq, eq_iff, Option,
  none, some, Option-cases, inl, inr, List, occurs, occurs-nil, occurs-cons, arith, subst,
}
use rc_wnzzer.Base.Table.{lookup, insert}
use rc_wnzzer.Model.{Task}
use rc_wnzzer.Queue.Heap.Laws.{Popped, root-le}
use rc_wnzzer.Queue.State.{Queue, next_at_of, update}
use rc_wnzzer.Queue.Ops.{lease, lease_popped}
use rc_wnzzer.Queue.Invariant.{Inv}
use rc_wnzzer.Queue.Lease.{Leases, empty, early, hands_out, leased, lease-Leases}

-- The task is due, no task of the heap is due earlier, and it is out of the heap and marked.
pub record HandsOut (now : ℕ) (q : Queue) (id : Bytes) (q' : Queue) : Type 0 where
  pub task : Task
  pub at : lookup id q.tasks ≡ some task
  pub is_due : task.next_at ≤ now
  pub least : (j : Bytes) → 0 < occurs j q.due → task.next_at ≤ next_at_of q.tasks j
  pub was_in : occurs id q.due ≡ 1
  pub removed : (j : Bytes) → occurs j q.due ≡ bit (str_eq id j) + occurs j q'.due
  pub marked : q'.tasks ≡ insert id (leased now task) q.tasks

-- No task of the heap is due; the time returned is the least one of the heap, or 0 if it is empty.
pub record HandsNothing (now : ℕ) (q q' : Queue) (next : ℕ) : Type 0 where
  pub same : q' ≡ q
  pub not_due : (j : Bytes) → 0 < occurs j q.due → now < next_at_of q.tasks j
  pub waits : (j : Bytes) → 0 < occurs j q.due → next ≤ next_at_of q.tasks j
  pub attained :
      ((q.due ≡ []) × (next ≡ 0))
      ⊎ ((j : Bytes) × (0 < occurs j q.due) × (next ≡ next_at_of q.tasks j))

Popped-HandsOut :
    (now : ℕ) (q : Queue) (id : Bytes) (rest : List Bytes)
    → Inv q
    → Popped (next_at_of q.tasks) q.due id rest
    → next_at_of q.tasks id ≤ now
    → HandsOut now q id (lease_popped now q (some (id, rest))).0
unfolding lease_popped update next_at_of
Popped-HandsOut now q id rest v p due = elim (Option-cases (lookup id q.tasks)) [
  | inl e ↦ absurd (ground (arith, e, v.due_once id, p.entries id, eq_iff id id))
  | inr (t, e) ↦ record {
    task = t;
    at = e;
    is_due = ground (arith, due, e);
    least = λ j h. ground (arith, root-le (next_at_of q.tasks) q.due id j v.ordered p.root h, e);
    was_in = ground (arith, v.due_once id, p.entries id, eq_iff id id, e);
    removed = p.entries;
    marked = rw (e, update) refl;
  }
]

Leases-HandsOut :
    {now : ℕ} {q : Queue} {r : Queue × Option Bytes × ℕ} (got : Bytes)
    → Inv q
    → Leases now q r
    → r.1 ≡ some got
    → HandsOut now q got r.0
unfolding lease_popped
Leases-HandsOut got v (empty e) h = absurd (ground arith)
Leases-HandsOut got v (early e p) h = absurd (ground arith)
Leases-HandsOut {now} {q} got v (hands_out {id} {rest} p due) h =
    let same : id ≡ got = ground (arith, h) in
    subst (λ i. HandsOut now q i (lease_popped now q (some (id, rest))).0) same
      (Popped-HandsOut now q id rest v p due)

first_occurs : (h : List Bytes) (top : Bytes) → get_elem? h 0 ≡ some top → 0 < occurs top h
first_occurs [] top e = absurd (ground (arith, e))
first_occurs (x ∷ h) top e = ground (arith, e, eq_iff x top, occurs-cons top x h)

Leases-HandsNothing :
    {now : ℕ} {q : Queue} {r : Queue × Option Bytes × ℕ}
    → Inv q
    → Leases now q r
    → r.1 ≡ none
    → HandsNothing now q r.0 r.2
unfolding lease_popped
Leases-HandsNothing {now} {q} v (empty e) h = record {
  same = refl;
  not_due = λ j p. absurd (omega (arith, p, ap (occurs j) e, occurs-nil j));
  waits = λ j p. omega arith;
  attained = inl (e, refl);
}
Leases-HandsNothing {now} {q} v (early {top} e p) h =
    let least = λ (j : Bytes). root-le (next_at_of q.tasks) q.due top j v.ordered e in
    record {
      same = refl;
      not_due = λ j b. omega (arith, p, least j b);
      waits = λ j b. least j b;
      attained = inr (top, first_occurs q.due top e, refl);
    }
Leases-HandsNothing v (hands_out p due) h = absurd (ground arith)

-- Under the invariant, a task that `Lease` hands out is due, was in the heap once, and no task of
-- the heap has an earlier time; it is taken out of the heap, marked as being sent, and nothing
-- else changes in either.
pub lease-HandsOut :
    (now : ℕ) (q : Queue) (id : Bytes)
    → Inv q
    → (lease now q).1 ≡ some id
    → HandsOut now q id (lease now q).0
lease-HandsOut now q id v h = Leases-HandsOut id v (lease-Leases now q v) h

-- Under the invariant, if `Lease` hands out nothing, it changes nothing, no task of the heap is
-- due, and the time that it returns is that of a task of the heap, not behind that of any other, or 0
-- if the heap is empty.
pub lease-HandsNothing :
    (now : ℕ) (q : Queue)
    → Inv q
    → (lease now q).1 ≡ none
    → HandsNothing now q (lease now q).0 (lease now q).2
lease-HandsNothing now q v h = Leases-HandsNothing v (lease-Leases now q v) h
