-- ===== src/Queue/Lease.antt =====
-- `Lease` of internal/queue/queue.go: the due task with the least time, and nothing else.
pub mod Least
use rc_wnzzer.Base.{
  ℕ, ◌≤◌, ◌<◌, ◌≡◌, refl, ap, Bytes, eq_iff, Option, none, some, Option-cases, List, [], ◌∷◌,
  length, get_elem?, ltb→lt, ltb, Bool-cases, inl, inr, arith,
}
use rc_wnzzer.Base.Table.{lookup, insert, lookup-insert, total-insert, insert-HasUniqueKeys}
use rc_wnzzer.Model.{Task, sending}
use rc_wnzzer.Queue.Heap.Laws.{Popped, pop-Popped, IsHeap-agree}
use rc_wnzzer.Queue.State.{Queue, next_at_of, update}
use rc_wnzzer.Queue.Ops.{lease, lease_from, lease_popped}
use rc_wnzzer.Queue.Invariant.{Inv, live}

abbrev pub leased : ℕ → Task → Task
leased now t = record t { state = sending; updated_at = now }

leased-agree :
    (now : ℕ) (q : Queue) (id a : Bytes) (t : Task)
    → lookup id q.tasks ≡ some t
    → next_at_of q.tasks a ≡ next_at_of (insert id (leased now t) q.tasks) a
unfolding next_at_of
leased-agree now q id a t at =
    ground (arith, lookup-insert id a (leased now t) q.tasks, eq_iff id a, at)

-- `Lease` hands out nothing and leaves the queue as it is, or hands out the root of the heap.
pub data Leases (now : ℕ) (q : Queue) : Queue × Option Bytes × ℕ → Type 0 where
  empty : q.due ≡ [] → Leases now q (q, none, 0)
  early :
      {top : Bytes}
      → get_elem? q.due 0 ≡ some top
      → now < next_at_of q.tasks top
      → Leases now q (q, none, next_at_of q.tasks top)
  hands_out :
      {id : Bytes} {rest : List Bytes}
      → Popped (next_at_of q.tasks) q.due id rest
      → next_at_of q.tasks id ≤ now
      → Leases now q (lease_popped now q (some (id, rest)))

lease_from-Leases :
    (due : List Bytes) (now : ℕ) (q : Queue)
    → Inv q
    → q.due ≡ due
    → Leases now q (lease_from due now q)
unfolding lease_from
lease_from-Leases [] now q v e = empty e
lease_from-Leases (top ∷ due) now q v e =
    let root : get_elem? q.due 0 ≡ some top = ap (λ h. get_elem? h 0) e in
    elim (Bool-cases (ltb now (next_at_of q.tasks top))) [
      | inl wait ↦ rw (wait) (early root (ltb→lt _ _ wait))
      | inr ready ↦
          let (id, rest, p) =
            pop-Popped (next_at_of q.tasks) q.due v.ordered (omega (arith, ap length e)) in
          let same : top ≡ id = ground (arith, root, p.root) in
          rw (ready, p.result) (hands_out p (ground (arith, ready, same)))
    ]

pub lease-Leases : (now : ℕ) (q : Queue) → Inv q → Leases now q (lease now q)
unfolding lease
lease-Leases now q v = lease_from-Leases q.due now q v refl

Popped-Inv :
    (now : ℕ) (q : Queue) (id : Bytes) (rest : List Bytes) (t : Task)
    → Inv q
    → Popped (next_at_of q.tasks) q.due id rest
    → lookup id q.tasks ≡ some t
    → Inv (record q { tasks = insert id (leased now t) q.tasks; due = rest })
Popped-Inv now q id rest t v p at =
    let found = λ (j : Bytes). lookup-insert id j (leased now t) q.tasks in
    record {
      unique = insert-HasUniqueKeys id (leased now t) q.tasks v.unique;
      keyed = λ j u f. ground (arith, found j, eq_iff id j, v.keyed j u, v.keyed id t);
      counted = ground (
        arith,
        total-insert live id (leased now t) q.tasks,
        at,
        v.counted,
        v.due_once id,
        p.entries id,
        eq_iff id id,
      );
      due_once = λ j. ground (arith, found j, eq_iff id j, v.due_once j, p.entries j);
      ordered =
          IsHeap-agree (next_at_of q.tasks) (next_at_of (insert id (leased now t) q.tasks)) rest
            (λ a _. leased-agree now q id a t at) p.ordered;
      indexed = λ k j f. ground (arith, found j, eq_iff id j, v.indexed k j, at);
      named = v.named;
    }

lease_popped-Inv :
    (now : ℕ) (q : Queue) (id : Bytes) (rest : List Bytes)
    → Inv q
    → Popped (next_at_of q.tasks) q.due id rest
    → Inv (lease_popped now q (some (id, rest))).0
unfolding lease_popped update
lease_popped-Inv now q id rest v p = elim (Option-cases (lookup id q.tasks)) [
  | inl e ↦ absurd (ground (arith, e, v.due_once id, p.entries id, eq_iff id id))
  | inr (t, e) ↦ rw (e, update) (Popped-Inv now q id rest t v p e)
]

Leases-Inv : {now : ℕ} {q : Queue} {r : Queue × Option Bytes × ℕ} → Inv q → Leases now q r → Inv r.0
Leases-Inv v (empty e) = v
Leases-Inv v (early e p) = v
Leases-Inv {now} {q} v (hands_out {id} {rest} p due) = lease_popped-Inv now q id rest v p

-- `Lease` keeps the invariant.
pub lease-Inv : (now : ℕ) (q : Queue) → Inv q → Inv (lease now q).0
lease-Inv now q v = Leases-Inv v (lease-Leases now q v)
