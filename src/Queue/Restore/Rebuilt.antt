-- ===== src/Queue/Restore/Rebuilt.antt =====
-- The second half of `Restore` of internal/queue/queue.go: the loop that makes the heap.
use rc_wnzzer.Base.{
  ◌+◌, ◌<◌, ◌≡◌, refl, ◌∙◌, true, false, Bool-cases, Bytes, eq_iff, Option, none, some, inl, inr,
  [], ◌∷◌, occurs, if◌then◌else◌, arith,
}
use rc_wnzzer.Base.Table.{
  Table, lookup, lookup-nil, insert, lookup-insert, HasUniqueKeys, weight_of, total, total-insert,
  insert-HasUniqueKeys,
}
use rc_wnzzer.Model.{Task, pending, terminal}
use rc_wnzzer.Queue.Heap.Order.{IsHeap}
use rc_wnzzer.Queue.Heap.Laws.{push-IsHeap, IsHeap-agree}
use rc_wnzzer.Queue.State.{Queue, next_at_of, update, schedule}
use rc_wnzzer.Queue.Invariant.{live}
use rc_wnzzer.Queue.Purge.{Held, lookup-head, lookup-cons}
use rc_wnzzer.Queue.Restore.{rebuild}

-- A task that has not ended is pending again.
abbrev pub ready : Task → Task
ready t = if terminal t.state then t else record t { state = pending }

abbrev pub ready_or : Option Task → Option Task → Option Task
ready_or none o = o
ready_or (some t) o = some (ready t)

-- The tasks of m are ready, and those that have not ended are in the heap.
pub record Rebuilt (m : Table Task) (q q' : Queue) : Type 0 where
  pub found : (j : Bytes) → lookup j q'.tasks ≡ ready_or (lookup j m) (lookup j q.tasks)
  pub entries : (j : Bytes) → occurs j q'.due ≡ weight_of live (lookup j m) + occurs j q.due
  pub ordered : IsHeap (next_at_of q'.tasks) q'.due
  pub counted : q'.active ≡ q.active + total live m
  pub as_many : total live q'.tasks ≡ total live q.tasks
  pub unique : HasUniqueKeys q.tasks → HasUniqueKeys q'.tasks
  pub index : q'.idem ≡ q.idem

module _ (id : Bytes) (t : Task) (q : Queue) (at : lookup id q.tasks ≡ some t)
    (v : IsHeap (next_at_of q.tasks) q.due) where
  -- The state after the body of the loop, for a task that has not ended.
  abbrev woken : Queue
  woken =
      schedule id (record q {
        tasks = insert id (record t { state = pending }) q.tasks;
        active = q.active + 1;
      })

  woken-agree :
      (a : Bytes)
      → 0 < occurs a q.due
      → next_at_of q.tasks a ≡ next_at_of (insert id (record t { state = pending }) q.tasks) a
  unfolding next_at_of
  woken-agree a p =
      ground (arith, lookup-insert id a (record t { state = pending }) q.tasks, eq_iff id a, at)

  woken-Rebuilt : terminal t.state ≡ false → Rebuilt ((id, t) ∷ []) q woken
  unfolding schedule total
  woken-Rebuilt busy =
      let t' = record t { state = pending } in
      let key = next_at_of (insert id t' q.tasks) in
      let p =
        push-IsHeap key id q.due (IsHeap-agree (next_at_of q.tasks) key q.due woken-agree v) in
      record {
        found = λ j. ground (
          arith,
          lookup-insert id j t' q.tasks,
          lookup-cons id j t [],
          lookup-nil {V = Task} j,
          busy,
        );
        entries = λ j. ground (arith, p.1 j, lookup-cons id j t [], lookup-nil {V = Task} j, busy);
        ordered = p.0;
        counted = ground (arith, busy);
        as_many = ground (arith, total-insert live id t' q.tasks, at, busy);
        unique = insert-HasUniqueKeys id t' q.tasks;
        index = refl;
      }

  asleep-Rebuilt : terminal t.state ≡ true → Rebuilt ((id, t) ∷ []) q q
  unfolding total
  asleep-Rebuilt over = record {
    found =
        λ j. ground (arith, lookup-cons id j t [], lookup-nil {V = Task} j, eq_iff id j, over, at);
    entries = λ j. ground (arith, lookup-cons id j t [], lookup-nil {V = Task} j, over);
    ordered = v;
    counted = ground (arith, over);
    as_many = refl;
    unique = λ u. u;
    index = refl;
  }

Rebuilt-trans :
    (id : Bytes) (t : Task) (m : Table Task) (q q₁ q' : Queue)
    → lookup id m ≡ none
    → Rebuilt ((id, t) ∷ []) q q₁
    → Rebuilt m q₁ q'
    → Rebuilt ((id, t) ∷ m) q q'
unfolding total
Rebuilt-trans id t m q q₁ q' absent a b = record {
  found = λ j. ground (
    arith,
    a.found j,
    b.found j,
    lookup-cons id j t m,
    lookup-cons id j t [],
    lookup-nil {V = Task} j,
    eq_iff id j,
    absent,
  );
  entries = λ j. ground (
    arith,
    a.entries j,
    b.entries j,
    lookup-cons id j t m,
    lookup-cons id j t [],
    lookup-nil {V = Task} j,
    eq_iff id j,
    absent,
  );
  ordered = b.ordered;
  counted = omega (arith, a.counted, b.counted);
  as_many = b.as_many ∙ a.as_many;
  unique = λ u. b.unique (a.unique u);
  index = b.index ∙ a.index;
}

Held-tail :
    (id : Bytes) (t : Task) (m : Table Task) (q q₁ : Queue)
    → lookup id m ≡ none
    → Held ((id, t) ∷ m) q.tasks
    → Rebuilt ((id, t) ∷ []) q q₁
    → Held m q₁.tasks
Held-tail id t m q q₁ absent h a j u e = ground (
  arith,
  a.found j,
  h j u,
  lookup-cons id j t m,
  lookup-cons id j t [],
  lookup-nil {V = Task} j,
  eq_iff id j,
  absent,
  e,
)

pub rebuild-Rebuilt :
    (m : Table Task) (q : Queue)
    → HasUniqueKeys m
    → Held m q.tasks
    → IsHeap (next_at_of q.tasks) q.due
    → Rebuilt m q (rebuild m q)
unfolding rebuild update schedule total
rebuild-Rebuilt [] q u h v = record {
  found = λ j. ground (arith, lookup-nil {V = Task} j);
  entries = λ j. ground (arith, lookup-nil {V = Task} j);
  ordered = v;
  counted = omega arith;
  as_many = refl;
  unique = λ u. u;
  index = refl;
}
rebuild-Rebuilt ((id, t) ∷ m) q u h v =
    let at : lookup id q.tasks ≡ some t = h id t (lookup-head id t m) in
    elim (Bool-cases (terminal t.state)) [
      | inl over ↦
          let a = asleep-Rebuilt id t q at v over in
          rw (over, rebuild)
            (Rebuilt-trans id t m q q (rebuild m q) u.0 a
              (rebuild-Rebuilt m q u.1 (Held-tail id t m q q u.0 h a) v))
      | inr busy ↦
          let a = woken-Rebuilt id t q at v busy in
          let q₁ = woken id t q at v in
          rw (busy, rebuild)
            (rw (at, update)
              (Rebuilt-trans id t m q q₁ (rebuild m q₁) u.0 a
                (rebuild-Rebuilt m q₁ u.1 (Held-tail id t m q q₁ u.0 h a) a.ordered)))
    ]
