-- ===== src/Queue/Still.antt =====
-- The operations of internal/queue that leave the tasks that are being sent as they are.
use rc_wnzzer.Base.{
  ℕ, ◌+◌, ◌≡◌, refl, sym, ◌∙◌, List, inl, inr, Bool, true, false, Bool-cases, Bytes, bytes, eq_iff,
  Option, none, some, Option-cases, leb, not, if◌then◌else◌, arith,
}
use rc_wnzzer.Base.Table.{lookup, insert, lookup-insert}
use rc_wnzzer.Model.{Task, dead, state_eq}
use rc_wnzzer.Store.Record.{Record, res_retry}
use rc_wnzzer.Store.Codec.{Codec}
use rc_wnzzer.Store.Wal.{Io, CompactFault, append_enqueue, append_attempt}
use rc_wnzzer.Queue.State.{Queue, schedule}
use rc_wnzzer.Queue.Ops.{enqueued, revived, submit, submit_new, revive, revive_dead}
use rc_wnzzer.Queue.Maintain.{purge_expired, enforce_task_cap, compact_with}
use rc_wnzzer.Queue.Invariant.{Inv}
use rc_wnzzer.Queue.Cap.{cap-keeps-active}
use rc_wnzzer.Queue.Purge.{kept, lookup-purge_expired}
use rc_wnzzer.Queue.Sending.{sending_of, sent_now}

abbrev pub Still : (q q' : Queue) → Type 0
Still q q' = (j : Bytes) → sent_now q j ≡ 1 → lookup j q'.tasks ≡ lookup j q.tasks

either :
    {B : Type 0} (P : Queue → Type 0) (b : Bool) (x y : Queue × B)
    → P x.0
    → P y.0
    → P (if b then x else y).0
either P true x y px py = px
either P false x y px py = py

either_queue : (P : Queue → Type 0) (b : Bool) (x y : Queue) → P x → P y → P (if b then x else y)
either_queue P true x y px py = px
either_queue P false x y px py = py

module _ (c : Codec) (io : Io) where
  pub submit-Still :
      (t : Task) (q : Queue) → lookup t.id q.tasks ≡ none → Still q (submit c io t q).0
  unfolding submit submit_new schedule
  submit-Still t q fresh j busy = elim (Option-cases (lookup t.idem_key q.idem)) [
    | inr (id, e) ↦ rw (e, submit) refl
    | inl e ↦
        rw (e, submit)
          (elim (Bool-cases (leb q.cfg.queue_max q.active)) [
            | inl full ↦ rw (full) refl
            | inr room ↦ rw (room) (
                either (λ q'. lookup j q'.tasks ≡ lookup j q.tasks)
                  (append_enqueue c io t q.store).1 _ _
                  (ground
                    (arith, lookup-insert t.id j (enqueued t) q.tasks, eq_iff t.id j, fresh, busy))
                  refl)
          ])
  ]

  pub revive-Still : (now : ℕ) (id : Bytes) (q : Queue) → Still q (revive c io now id q).0
  unfolding revive revive_dead schedule
  revive-Still now id q j busy = elim (Option-cases (lookup id q.tasks)) [
    | inl e ↦ rw (e, revive) refl
    | inr (t, e) ↦
        rw (e, revive)
          (elim (Bool-cases (not (state_eq t.state dead))) [
            | inl alive ↦ rw (alive) refl
            | inr over ↦ rw (over) (elim (Bool-cases (leb q.cfg.queue_max q.active)) [
              | inl full ↦ rw (full) refl
              | inr room ↦
                  let r = append_attempt c io t.id 0 res_retry 0 (bytes "revived") now q.store in
                  let q' = record q {
                    store = r.0;
                    tasks = insert id (revived now t) q.tasks;
                    active = q.active + 1;
                  } in
                  let same : lookup j q'.tasks ≡ lookup j q.tasks = ground (
                    arith,
                    lookup-insert id j (revived now t) q.tasks,
                    eq_iff id j,
                    e,
                    over,
                    busy,
                  ) in
                  rw (room) (
                    either_queue (λ x. lookup j x.tasks ≡ lookup j q.tasks) r.1 (schedule id q') q'
                      same same)
            ])
          ])
  ]

pub purge-Still : (now : ℕ) (q : Queue) → Inv q → Still q (purge_expired now q)
purge-Still now q v j busy = lookup-purge_expired now q j v ∙ kept_sending (lookup j q.tasks) busy
  where
    kept_sending : (o : Option Task) → sending_of o ≡ 1 → kept q.cfg now o ≡ o
    kept_sending none h = refl
    kept_sending (some t) h = ground (arith, h)

pub cap-Still : (q : Queue) → Inv q → Still q (enforce_task_cap q)
cap-Still q v j busy = elim (Option-cases (lookup j q.tasks)) [
  | inl e ↦ absurd (ground (arith, e, busy))
  | inr (t, e) ↦ cap-keeps-active q v j t e (ground (arith, e, busy)) ∙ sym e
]

pub compact-Still :
    (c : Codec) (f : CompactFault) (snap : List Record) (q : Queue)
    → Still q (compact_with c f snap q).0
unfolding compact_with
compact-Still c f snap q j busy = ground arith
