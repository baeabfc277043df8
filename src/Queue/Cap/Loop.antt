-- ===== src/Queue/Cap/Loop.antt =====
-- The loop of `enforceTaskCap` of internal/queue/maintain.go, victim by victim.
use rc_wnzzer.Base.{
  ℕ, ◌+◌, ◌-◌, ◌≡◌, refl, ap, ◌∙◌, Bool, true, false, Bytes, str_eq, eq_iff, none, some, ◌⊎◌, [],
  ◌∷◌, length, ◌==◌, if◌then◌else◌, Bool-cases, inl, inr, arith,
}
use rc_wnzzer.Base.Table.{
  Table, lookup, lookup-nil, lookup-delete, total, total-delete, HasUniqueKeys,
}
use rc_wnzzer.Model.{Task, terminal}
use rc_wnzzer.Queue.State.{Queue}
use rc_wnzzer.Queue.Maintain.{drop_task, before, cap_loop}
use rc_wnzzer.Queue.Invariant.{Inv}
use rc_wnzzer.Queue.Purge.{Held, Held-tail, lookup-head, lookup-cons, tasks-drop_if, drop_task-Inv}
use rc_wnzzer.Queue.Victims.{IsOrdered}

abbrev pub AllTerminal : Table Task → Type 0
AllTerminal m = (j : Bytes) (u : Task) → lookup j m ≡ some u → terminal u.state ≡ true

AllTerminal-tail :
    (id : Bytes) (t : Task) (m : Table Task)
    → lookup id m ≡ none
    → AllTerminal ((id, t) ∷ m)
    → AllTerminal m
AllTerminal-tail id t m once h j u e =
    ground (arith, lookup-cons id j t m, eq_iff id j, e, h j u, once)

drop-Held :
    (id : Bytes) (t : Task) (m : Table Task) (q : Queue)
    → lookup id m ≡ none
    → Held ((id, t) ∷ m) q.tasks
    → Held m (drop_task id t q).tasks
drop-Held id t m q once h j w e =
    ap (lookup j) (tasks-drop_if true id t q) ∙ Held-tail id t m q.tasks once h true j w e

pub queue_either : (b : Bool) (x y : Queue) → Inv x → Inv y → Inv (if b then x else y)
queue_either true x y p q = p
queue_either false x y p q = q

pub cap_loop-Inv :
    (over : ℕ) (vs : Table Task) (q : Queue)
    → HasUniqueKeys vs
    → Held vs q.tasks
    → AllTerminal vs
    → Inv q
    → Inv (cap_loop over vs q)
unfolding cap_loop
cap_loop-Inv over [] q u h f v = v
cap_loop-Inv over ((id, t) ∷ vs) q u h f v =
    let here = lookup-head id t vs in
    let dropped = drop_task-Inv q v id t (h id t here) (f id t here) in
    let rest =
      cap_loop-Inv (over - 1) vs (drop_task id t q) u.1 (drop-Held id t vs q u.0 h)
        (AllTerminal-tail id t vs u.0 f) dropped in
    queue_either (over == 0) q (cap_loop (over - 1) vs (drop_task id t q)) v rest

-- What is no victim stays.
pub lookup-cap_loop :
    (over : ℕ) (vs : Table Task) (q : Queue) (j : Bytes)
    → lookup j vs ≡ none
    → lookup j (cap_loop over vs q).tasks ≡ lookup j q.tasks
unfolding cap_loop drop_task
lookup-cap_loop over [] q j n = refl
lookup-cap_loop over ((id, t) ∷ vs) q j n = ground (
  arith,
  lookup-cons id j t vs,
  n,
  lookup-cap_loop (over - 1) vs (drop_task id t q) j,
  lookup-delete id j q.tasks,
)

-- What is gone stays gone.
gone-cap_loop :
    (over : ℕ) (vs : Table Task) (q : Queue) (j : Bytes)
    → lookup j q.tasks ≡ none
    → lookup j (cap_loop over vs q).tasks ≡ none
unfolding cap_loop drop_task
gone-cap_loop over [] q j n = n
gone-cap_loop over ((id, t) ∷ vs) q j n =
    ground (arith, n, gone-cap_loop (over - 1) vs (drop_task id t q) j, lookup-delete id j q.tasks)

unfoldable pub size : Queue → ℕ
size q = total (λ t. 1) q.tasks

size-drop :
    (id : Bytes) (t : Task) (q : Queue)
    → Inv q
    → lookup id q.tasks ≡ some t
    → size (drop_task id t q) + 1 ≡ size q
unfolding size drop_task
size-drop id t q v at = ground (arith, total-delete (λ t. 1) id q.tasks v.unique, at)

-- The loop drops as many tasks as are over, or all victims.
pub size-cap_loop :
    (over : ℕ) (vs : Table Task) (q : Queue)
    → HasUniqueKeys vs
    → Held vs q.tasks
    → AllTerminal vs
    → Inv q
    → (size (cap_loop over vs q) + over ≡ size q) ⊎ (size (cap_loop over vs q) + length vs ≡ size q)
unfolding cap_loop
size-cap_loop over [] q u h f v = inr (omega arith)
size-cap_loop over ((id, t) ∷ vs) q u h f v =
    let at = h id t (lookup-head id t vs) in
    let dropped = drop_task-Inv q v id t at (f id t (lookup-head id t vs)) in
    let rest =
      size-cap_loop (over - 1) vs (drop_task id t q) u.1 (drop-Held id t vs q u.0 h)
        (AllTerminal-tail id t vs u.0 f) dropped in
    ground (arith, rest, size-drop id t q v at)

-- A victim that is to go before one that has gone has gone.
pub order-cap_loop :
    (over : ℕ) (vs : Table Task) (q : Queue) (s d : Bytes) (ts td : Task)
    → HasUniqueKeys vs
    → IsOrdered vs
    → Held vs q.tasks
    → lookup s vs ≡ some ts
    → lookup d vs ≡ some td
    → before ts td ≡ true
    → lookup d (cap_loop over vs q).tasks ≡ none
    → lookup s (cap_loop over vs q).tasks ≡ none
unfolding cap_loop
order-cap_loop over [] q s d ts td u o h es ed b n = ground (arith, es, lookup-nil {V = Task} s)
order-cap_loop over ((id, t) ∷ vs) q s d ts td u o h es ed b n =
    let cs = lookup-cons id s t vs in
    let cd = lookup-cons id d t vs in
    elim (Bool-cases (over == 0)) [
      | inl enough ↦ absurd (ground (arith, enough, n, h d td ed))
      | inr more ↦ rw (more) (elim (Bool-cases (str_eq id s)) [
        | inl same ↦ gone-cap_loop (over - 1) vs (drop_task id t q) s (
            ap (lookup s) (tasks-drop_if true id t q)
            ∙ ground (arith, lookup-delete id s q.tasks, same))
        | inr other ↦
            let later : lookup s vs ≡ some ts = ground (arith, cs, es, other) in
            elim (Bool-cases (str_eq id d)) [
              | inl same ↦ absurd (ground (arith, cd, ed, same, o.0 s ts later, b))
              | inr not_d ↦
                  order-cap_loop (over - 1) vs (drop_task id t q) s d ts td u.1 o.1
                    (drop-Held id t vs q u.0 h) later (ground (arith, cd, ed, not_d)) b
                    (ground (arith, more, n))
            ]
      ])
    ]
