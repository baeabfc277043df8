-- ===== src/Queue/Keeps.antt =====
-- The operations of internal/queue/queue.go on a task that the queue has keep the invariant, whatever
-- the journal answers.
use rc_wnzzer.Base.{
  ℕ, ◌+◌, ◌-◌, ◌<◌, ◌≡◌, refl, Bool, true, false, Bytes, bytes, eq_iff, some, Option-cases, occurs,
  leb, if◌then◌else◌, not, Bool-cases, inl, inr, arith,
}
use rc_wnzzer.Base.Table.{lookup, insert, lookup-insert, weight-le-total}
use rc_wnzzer.Model.{State, Task, pending, sending, dead, terminal, state_eq}
use rc_wnzzer.Store.Record.{res_retry}
use rc_wnzzer.Store.Codec.{Codec}
use rc_wnzzer.Store.Wal.{Io, append_attempt, append_done, append_dead}
use rc_wnzzer.Queue.Heap.Laws.{push-IsHeap}
use rc_wnzzer.Queue.State.{Queue, next_at_of, update, schedule}
use rc_wnzzer.Queue.Ops.{
  retried, delivered, buried, revived, defer, on_retry, on_success, on_dead, revive, revive_dead,
}
use rc_wnzzer.Queue.Invariant.{Inv, live, slots, slots_of, write-Inv, schedule-Inv}

schedule_if-Inv :
    (b : Bool) (id : Bytes) (q : Queue)
    → Inv q
    → slots_of (lookup id q.tasks) ≡ 1
    → occurs id q.due ≡ 0
    → Inv (if b then schedule id q else q)
schedule_if-Inv true id q v ready absent = schedule-Inv id q v ready absent
schedule_if-Inv false id q v ready absent = v

-- A task that is being delivered, or is in a final state, is not in the heap, and counts as active
-- in the first case.
not_due :
    (q : Queue) (id : Bytes) (t : Task)
    → Inv q
    → lookup id q.tasks ≡ some t
    → slots t.state ≡ 0
    → occurs id q.due ≡ 0
not_due q id t v at none_due = ground (arith, v.due_once id)

active_pos :
    (q : Queue) (id : Bytes) (t : Task)
    → Inv q
    → lookup id q.tasks ≡ some t
    → terminal t.state ≡ false
    → 0 < q.active
active_pos q id t v at busy = ground (arith, weight-le-total live id q.tasks, v.counted, busy)

module _ (c : Codec) (io : Io) (now : ℕ) (id : Bytes) (t : Task) (q : Queue) (v : Inv q)
    (at : lookup id q.tasks ≡ some t) where
  -- A retryable failure of a leased task keeps the invariant, also if the append fails.
  pub on_retry-Inv :
      (code : ℕ) (msg : Bytes) (next_at : ℕ)
      → t.state ≡ sending
      → Inv (on_retry c io now id code msg next_at q).0
  unfolding on_retry
  on_retry-Inv code msg next_at busy =
      let t' = retried now code msg next_at t in
      let absent = not_due q id t v at (ground (arith, busy)) in
      let r = append_attempt c io t.id t'.attempts res_retry code msg next_at q.store in
      let written =
        write-Inv q v id t t' at refl refl (omega (arith, absent)) (inr absent) r.0 q.active
          q.unstripped (ground (arith, busy)) in
      rw (at, on_retry)
        (schedule_if-Inv r.1 id _ written
          (ground (arith, lookup-insert id id t' q.tasks, eq_iff id id)) absent)

  -- A success of a leased task keeps the invariant, also if the append fails.
  pub on_success-Inv :
      (code : ℕ) (resp : Bytes) → t.state ≡ sending → Inv (on_success c io now id code resp q).0
  unfolding on_success
  on_success-Inv code resp busy =
      let t' = delivered now code resp t in
      let absent = not_due q id t v at (ground (arith, busy)) in
      let r = append_done c io t.id t'.attempts code resp q.store in
      rw (at, on_success)
        (write-Inv q v id t t' at refl refl (omega (arith, absent)) (inr absent) r.0 (q.active - 1)
          (q.unstripped + 1) (ground (arith, busy, active_pos q id t v at)))

  -- The end of a leased task keeps the invariant, also if the append fails.
  pub on_dead-Inv :
      (code : ℕ) (msg why : Bytes) → t.state ≡ sending → Inv (on_dead c io now id code msg why q).0
  unfolding on_dead
  on_dead-Inv code msg why busy =
      let t' = buried now code msg why t in
      let absent = not_due q id t v at (ground (arith, busy)) in
      let r = append_dead c io t.id t'.attempts why q.store in
      rw (at, on_dead)
        (write-Inv q v id t t' at refl refl (omega (arith, absent)) (inr absent) r.0 (q.active - 1)
          q.unstripped (ground (arith, busy, active_pos q id t v at)))

module _ (id : Bytes) (t : Task) (q : Queue) (v : Inv q) (at : lookup id q.tasks ≡ some t) where
  deferred-Inv :
      (next_at : ℕ)
      → t.state ≡ sending
      → Inv
          (record q { tasks = insert id (record t { state = pending; next_at = next_at }) q.tasks })
  deferred-Inv next_at busy =
      let absent = not_due q id t v at (ground (arith, busy)) in
      write-Inv q v id t (record t { state = pending; next_at = next_at }) at refl refl
        (omega (arith, absent)) (inr absent) q.store q.active q.unstripped (ground (arith, busy))

  -- A `Defer` of a task that was leased keeps the invariant.
  pub defer-Inv : (next_at : ℕ) → t.state ≡ sending → Inv (defer id next_at q)
  unfolding defer update
  defer-Inv next_at busy =
      let t' = record t { state = pending; next_at = next_at } in
      let absent = not_due q id t v at (ground (arith, busy)) in
      rw (at, update)
        (schedule-Inv id _ (deferred-Inv next_at busy)
          (ground (arith, lookup-insert id id t' q.tasks, eq_iff id id)) absent)

  -- A task that is put off is due once, at its new time.
  pub defer-puts_back :
      (next_at : ℕ)
      → t.state ≡ sending
      → (lookup id (defer id next_at q).tasks
          ≡ some (record t { state = pending; next_at = next_at }))
        × (occurs id (defer id next_at q).due ≡ 1)
  unfolding defer update schedule
  defer-puts_back next_at busy =
      let t' = record t { state = pending; next_at = next_at } in
      let absent = not_due q id t v at (ground (arith, busy)) in
      let pushed =
        push-IsHeap (next_at_of (insert id t' q.tasks)) id q.due
          (deferred-Inv next_at busy).ordered in
      rw (at, update)
        (
          ground (arith, lookup-insert id id t' q.tasks, eq_iff id id),
          ground (arith, pushed.1 id, absent, eq_iff id id),
        )

module _ (c : Codec) (io : Io) (now : ℕ) (id : Bytes) (t : Task) (q : Queue) (v : Inv q)
    (at : lookup id q.tasks ≡ some t) where
  revive_dead-Inv : t.state ≡ dead → Inv (revive_dead c io now id t q).0
  unfolding revive_dead
  revive_dead-Inv buried_before =
      let t' = revived now t in
      let absent = not_due q id t v at (ground (arith, buried_before)) in
      let r = append_attempt c io t.id 0 res_retry 0 (bytes "revived") now q.store in
      let written =
        write-Inv q v id t t' at refl refl (omega (arith, absent)) (inr absent) r.0 (q.active + 1)
          q.unstripped (ground (arith, buried_before)) in
      schedule_if-Inv r.1 id _ written
        (ground (arith, lookup-insert id id t' q.tasks, eq_iff id id)) absent

pub state_eq_dead : (s : State) → not (state_eq s dead) ≡ false → s ≡ dead
state_eq_dead s e = ground arith

module _ (c : Codec) where
  -- `Revive` keeps the invariant on every branch, a failed append included.
  pub revive-Inv :
      (io : Io) (now : ℕ) (id : Bytes) (q : Queue) → Inv q → Inv (revive c io now id q).0
  unfolding revive
  revive-Inv io now id q v = elim (Option-cases (lookup id q.tasks)) [
    | inl e ↦ rw (e, revive) v
    | inr (t, e) ↦
        rw (e, revive)
          (elim (Bool-cases (not (state_eq t.state dead))) [
            | inl alive ↦ rw (alive) v
            | inr over ↦ rw (over) (elim (Bool-cases (leb q.cfg.queue_max q.active)) [
              | inl full ↦ rw (full) v
              | inr room ↦
                  rw (room) (revive_dead-Inv c io now id t q v e (state_eq_dead t.state over))
            ])
          ])
  ]
