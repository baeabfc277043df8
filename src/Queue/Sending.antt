-- ===== src/Queue/Sending.antt =====
-- Which operations of internal/queue change whether a task is being sent.
use rc_wnzzer.Base.{
  ℕ, ◌+◌, ◌-◌, ◌≡◌, refl, ap, ◌∙◌, ◌⊎◌, Bool, true, false, Bytes, bytes, str_eq, eq_iff, Option,
  none, some, List, Option-cases, Bool-cases, inl, inr, [], ◌∷◌, leb, length, not, bit,
  if◌then◌else◌, arith,
}
use rc_wnzzer.Base.Table.{Table, lookup, insert, lookup-insert, lookup-delete}
use rc_wnzzer.Model.{Task, pending, sending, dead, state_eq}
use rc_wnzzer.Store.Record.{Record, res_retry}
use rc_wnzzer.Store.Codec.{Codec}
use rc_wnzzer.Store.Wal.{Io, CompactFault, append_enqueue, append_attempt}
use rc_wnzzer.Queue.State.{Queue, update, schedule}
use rc_wnzzer.Queue.Ops.{enqueued, revived, lease, defer, submit, submit_new, revive, revive_dead}
use rc_wnzzer.Queue.Maintain.{
  drop_task, purge_expired, cap_loop, sorted, candidates, enforce_task_cap, compact_with,
}
use rc_wnzzer.Queue.Invariant.{Inv}
use rc_wnzzer.Queue.Cap.{cap-keeps-active}
use rc_wnzzer.Queue.Lease.{leased}
use rc_wnzzer.Queue.Lease.Least.{lease-HandsOut, lease-HandsNothing}
use rc_wnzzer.Queue.Purge.{kept, lookup-purge_expired}

-- 1 for a task that is being sent.
abbrev pub sending_of : Option Task → ℕ
sending_of none = 0
sending_of (some t) = bit (state_eq t.state sending)

-- 1 if the task of the queue is being sent.
abbrev pub sent_now : Queue → Bytes → ℕ
sent_now q j = sending_of (lookup j q.tasks)

either : (P : Queue → Type 0) (b : Bool) (x y : Queue) → P x → P y → P (if b then x else y)
either P true x y px py = px
either P false x y px py = py

pair_either :
    {B : Type 0} (P : Queue → Type 0) (b : Bool) (x y : Queue × B)
    → P x.0
    → P y.0
    → P (if b then x else y).0
pair_either P true x y px py = px
pair_either P false x y px py = py

-- A lease marks the task that it hands out, which was not being sent, and no other.
pub sent_now-lease :
    (now : ℕ) (q : Queue) (id j : Bytes)
    → Inv q
    → (lease now q).1 ≡ some id
    → sent_now (lease now q).0 j ≡ (if str_eq id j then 1 else sent_now q j)
sent_now-lease now q id j v h =
    let o = lease-HandsOut now q id v h in
    ap (λ m. sending_of (lookup j m)) o.marked
    ∙ ground (arith, lookup-insert id j (leased now o.task) q.tasks)

pub unsent-lease :
    (now : ℕ) (q : Queue) (id : Bytes) → Inv q → (lease now q).1 ≡ some id → sent_now q id ≡ 0
unsent-lease now q id v h =
    let o = lease-HandsOut now q id v h in ground (arith, o.at, o.was_in, v.due_once id)

pub sent_now-lease-none :
    (now : ℕ) (q : Queue) (j : Bytes)
    → Inv q
    → (lease now q).1 ≡ none
    → sent_now (lease now q).0 j ≡ sent_now q j
sent_now-lease-none now q j v h = ap (λ q'. sent_now q' j) (lease-HandsNothing now q v h).same

pub sent_now-defer :
    (id : Bytes) (next_at : ℕ) (q : Queue) (j : Bytes)
    → sent_now (defer id next_at q) j ≡ (if str_eq id j then 0 else sent_now q j)
unfolding defer schedule update
sent_now-defer id next_at q j = elim (Option-cases (lookup id q.tasks)) [
  | inl e ↦ rw (e, update) (ground (arith, e, eq_iff id j))
  | inr (t, e) ↦
      rw (e, update)
        (ground
          (arith, lookup-insert id j (record t { state = pending; next_at = next_at }) q.tasks))
]

module _ (c : Codec) (io : Io) where
  pub sent_now-submit :
      (t : Task) (q : Queue) (j : Bytes)
      → lookup t.id q.tasks ≡ none
      → sent_now (submit c io t q).0 j ≡ sent_now q j
  unfolding submit submit_new schedule
  sent_now-submit t q j fresh = elim (Option-cases (lookup t.idem_key q.idem)) [
    | inr (id, e) ↦ rw (e, submit) refl
    | inl e ↦
        rw (e, submit)
          (elim (Bool-cases (leb q.cfg.queue_max q.active)) [
            | inl full ↦ rw (full) refl
            | inr room ↦ rw (room) (
                pair_either (λ q'. sent_now q' j ≡ sent_now q j) (append_enqueue c io t q.store).1 _
                  _
                  (ground (arith, lookup-insert t.id j (enqueued t) q.tasks, eq_iff t.id j, fresh))
                  refl)
          ])
  ]

  pub sent_now-revive :
      (now : ℕ) (id : Bytes) (q : Queue) (j : Bytes)
      → sent_now (revive c io now id q).0 j ≡ sent_now q j
  unfolding revive revive_dead schedule
  sent_now-revive now id q j = elim (Option-cases (lookup id q.tasks)) [
    | inl e ↦ rw (e, revive) refl
    | inr (t, e) ↦
        rw (e, revive)
          (elim (Bool-cases (not (state_eq t.state dead))) [
            | inl alive ↦ rw (alive) refl
            | inr over ↦ rw (over) (elim (Bool-cases (leb q.cfg.queue_max q.active)) [
              | inl full ↦ rw (full) refl
              | inr room ↦ rw (room) (
                  either (λ q'. sent_now q' j ≡ sent_now q j)
                    (append_attempt c io t.id 0 res_retry 0 (bytes "revived") now q.store).1
                    (schedule id (record q {
                      store =
                          (append_attempt c io t.id 0 res_retry 0 (bytes "revived") now q.store).0;
                      tasks = insert id (revived now t) q.tasks;
                      active = q.active + 1;
                    }))
                    (record q {
                      store =
                          (append_attempt c io t.id 0 res_retry 0 (bytes "revived") now q.store).0;
                      tasks = insert id (revived now t) q.tasks;
                      active = q.active + 1;
                    })
                    (ground
                      (arith, lookup-insert id j (revived now t) q.tasks, eq_iff id j, e, over))
                    (ground
                      (arith, lookup-insert id j (revived now t) q.tasks, eq_iff id j, e, over)))
            ])
          ])
  ]

-- A purge keeps what is being sent.
pub sent_now-purge :
    (now : ℕ) (q : Queue) (j : Bytes) → Inv q → sent_now (purge_expired now q) j ≡ sent_now q j
sent_now-purge now q j v =
    ap sending_of (lookup-purge_expired now q j v) ∙ kept_sending (lookup j q.tasks)
  where
    kept_sending : (o : Option Task) → sending_of (kept q.cfg now o) ≡ sending_of o
    kept_sending none = refl
    kept_sending (some t) = ground arith

-- The cap changes no task that it leaves.
kept-cap_loop :
    (over : ℕ) (vs : Table Task) (q : Queue) (j : Bytes)
    → (lookup j (cap_loop over vs q).tasks ≡ lookup j q.tasks)
      ⊎ (lookup j (cap_loop over vs q).tasks ≡ none)
unfolding cap_loop drop_task
kept-cap_loop over [] q j = inl refl
kept-cap_loop over ((id, t) ∷ vs) q j =
    ground (arith, kept-cap_loop (over - 1) vs (drop_task id t q) j, lookup-delete id j q.tasks)

pub kept-cap :
    (q : Queue) (j : Bytes)
    → (lookup j (enforce_task_cap q).tasks ≡ lookup j q.tasks)
      ⊎ (lookup j (enforce_task_cap q).tasks ≡ none)
unfolding enforce_task_cap
kept-cap q j =
    let over = length q.tasks - q.cfg.tasks_max in
    ground (arith, kept-cap_loop over (sorted (candidates q.tasks)) q j)

pub sent_now-cap : (q : Queue) (j : Bytes) → Inv q → sent_now (enforce_task_cap q) j ≡ sent_now q j
sent_now-cap q j v = elim (Option-cases (lookup j q.tasks)) [
  | inl e ↦ ground (arith, e, kept-cap q j)
  | inr (t, e) ↦ ground (arith, e, kept-cap q j, cap-keeps-active q v j t e)
]

module _ (c : Codec) where
  pub sent_now-compact :
      (f : CompactFault) (snap : List Record) (q : Queue) (j : Bytes)
      → sent_now (compact_with c f snap q).0 j ≡ sent_now q j
  unfolding compact_with
  sent_now-compact f snap q j = ground arith
