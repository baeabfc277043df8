-- ===== src/Dispatch/Deliver/Settles.antt =====
-- What `deliver` of internal/dispatch/dispatch.go leaves of the task and of the queue.
use rc_wnzzer.Base.{
  ℕ, ◌+◌, ◌/◌, ◌<◌, ◌≤◌, ◌≡◌, refl, ◌⊎◌, inl, inr, Bool, true, false, Bool-cases, Bytes, bytes,
  eq_iff, Option, none, some, leb, if◌then◌else◌, arith,
}
use rc_wnzzer.Base.Table.{lookup, insert, lookup-insert}
use rc_wnzzer.Model.{Task, waiting, sending, succeeded, dead}
use rc_wnzzer.Store.Codec.{Codec}
use rc_wnzzer.Queue.State.{Queue, schedule}
use rc_wnzzer.Queue.Ops.{retried, delivered, buried, on_retry, on_success, on_dead}
use rc_wnzzer.Queue.Invariant.{Inv}
use rc_wnzzer.Queue.Keeps.{on_retry-Inv, on_success-Inv, on_dead-Inv}
use rc_wnzzer.Dispatch.Outcome.{
  Outcome, RequestError, success, retryable, permanent, classify, permanent_reason,
}
use rc_wnzzer.Dispatch.Deliver.{
  Limits, Attempt, millisecond, max_attempts_of, deadline_of, is_late, delay_of, deliver_again,
  deliver_outcome, deliver,
}

either : (P : Queue → Type 0) (b : Bool) (x y : Queue) → P x → P y → P (if b then x else y)
either P true x y px py = px
either P false x y px py = py

-- How a task ends an attempt, by the judgement on it: succeeded; dead, for the reason of the failure;
-- or, after a failure that may pass, dead for the number of its attempts or for its deadline, or
-- waiting for another attempt within both.
abbrev pub Ended : Limits → Outcome → Option RequestError → (t t' : Task) → Type 0
Ended l success err t t' = t'.state ≡ succeeded
Ended l permanent err t t' = (t'.state ≡ dead) × (t'.dead_reason ≡ permanent_reason err)
Ended l retryable err t t' =
    ((t'.state ≡ dead)
      × (t'.dead_reason ≡ bytes "max_attempts")
      × (max_attempts_of l t.policy ≤ t'.attempts))
    ⊎ (((t'.state ≡ dead)
          × (t'.dead_reason ≡ bytes "deadline_exceeded")
          × (t'.attempts < max_attempts_of l t.policy))
        ⊎ ((t'.state ≡ waiting)
            × (t'.attempts < max_attempts_of l t.policy)
            × (is_late t'.next_at t.created_at (deadline_of l t.policy) ≡ false)))

abbrev pub Settled : Limits → (code : ℕ) → Option RequestError → Task → Option Task → Type 0
Settled l code err t none = ⊥
Settled l code err t (some t') =
    (t'.attempts ≡ t.attempts + 1) × (t'.last_code ≡ code) × Ended l (classify code err) err t t'

module _ (c : Codec) (l : Limits) (a : Attempt) (id : Bytes) (t : Task) (q : Queue)
    (at : lookup id q.tasks ≡ some t) where
  found : (t' : Task) → lookup id (insert id t' q.tasks) ≡ some t'
  found t' = ground (arith, lookup-insert id id t' q.tasks, eq_iff id id)

  lookup-success :
      lookup id (on_success c a.io a.written_at id a.reply.code a.reply.snippet q).0.tasks
      ≡ some (delivered a.written_at a.reply.code a.reply.snippet t)
  unfolding on_success
  lookup-success = rw (at, on_success) (found _)

  lookup-dead :
      (why : Bytes)
      → lookup id (on_dead c a.io a.written_at id a.reply.code a.reply.snippet why q).0.tasks
        ≡ some (buried a.written_at a.reply.code a.reply.snippet why t)
  unfolding on_dead
  lookup-dead why = rw (at, on_dead) (found _)

  lookup-retry :
      (next_at : ℕ)
      → lookup id (on_retry c a.io a.written_at id a.reply.code a.reply.snippet next_at q).0.tasks
        ≡ some (retried a.written_at a.reply.code a.reply.snippet next_at t)
  unfolding on_retry schedule
  lookup-retry next_at =
      rw (at, on_retry)
        (either
          (λ (q' : Queue).
            lookup id q'.tasks ≡ some (retried a.written_at a.reply.code a.reply.snippet next_at t))
          _ _ _ (found _) (found _))

  -- What `Settled` says under the judgement `o`.
  abbrev After : Outcome → Option Task → Type 0
  After o none = ⊥
  After o (some t') =
      (t'.attempts ≡ t.attempts + 1) × (t'.last_code ≡ a.reply.code) × Ended l o a.reply.err t t'

  again-After : After retryable (lookup id (deliver_again c l a id t q).tasks)
  unfolding deliver_again
  again-After =
      let attempt = t.attempts + 1 in
      let next_at = a.now + delay_of l a attempt / millisecond in
      elim (Bool-cases (leb (max_attempts_of l t.policy) attempt)) [
        | inl last ↦
            rw (last, deliver_again)
              (rw (lookup-dead (bytes "max_attempts"))
                (refl, refl, inl (refl, refl, ground (arith, last))))
        | inr more ↦ elim (Bool-cases (is_late next_at t.created_at (deadline_of l t.policy))) [
          | inl late ↦
              rw (more, late, deliver_again)
                (rw (lookup-dead (bytes "deadline_exceeded"))
                  (refl, refl, inr (inl (refl, refl, ground (arith, more)))))
          | inr soon ↦
              rw (more, soon, deliver_again)
                (rw (lookup-retry next_at)
                  (refl, refl, inr (inr (refl, ground (arith, more), soon))))
        ]
      ]

  outcome-After : (o : Outcome) → After o (lookup id (deliver_outcome c l a id t q o).tasks)
  unfolding deliver_outcome
  outcome-After success = rw (lookup-success) (refl, refl, refl)
  outcome-After permanent =
      rw (lookup-dead (permanent_reason a.reply.err)) (refl, refl, (refl, refl))
  outcome-After retryable = again-After

  After-Settled :
      (o : Option Task)
      → After (classify a.reply.code a.reply.err) o
      → Settled l a.reply.code a.reply.err t o
  After-Settled none h = h
  After-Settled (some t') h = h

  -- A delivery of a task that the queue holds counts one attempt and keeps the code. The task is
  -- succeeded if the attempt was a success; dead with the reason of a permanent failure; and after a
  -- retryable one dead if the attempts are used up, else dead if the next attempt would be past the
  -- deadline, else waiting for it.
  pub deliver-Settled : Settled l a.reply.code a.reply.err t (lookup id (deliver c l a id q).tasks)
  unfolding deliver
  deliver-Settled =
      rw (at, deliver) (After-Settled _ (outcome-After (classify a.reply.code a.reply.err)))

  again-Inv : Inv q → t.state ≡ sending → Inv (deliver_again c l a id t q)
  unfolding deliver_again
  again-Inv v busy =
      let code = a.reply.code in
      let msg = a.reply.snippet in
      let buried_Inv = on_dead-Inv c a.io a.written_at id t q v at code msg in
      either Inv _ _ _ (buried_Inv (bytes "max_attempts") busy) (
        either Inv _ _ _ (buried_Inv (bytes "deadline_exceeded") busy)
          (on_retry-Inv c a.io a.written_at id t q v at code msg _ busy))

  outcome-Inv : (o : Outcome) → Inv q → t.state ≡ sending → Inv (deliver_outcome c l a id t q o)
  unfolding deliver_outcome
  outcome-Inv success v busy = on_success-Inv c a.io a.written_at id t q v at _ _ busy
  outcome-Inv permanent v busy = on_dead-Inv c a.io a.written_at id t q v at _ _ _ busy
  outcome-Inv retryable v busy = again-Inv v busy

  -- A delivery of a task that was leased keeps the invariant, whatever the answer and whatever
  -- fails in the journal.
  pub deliver-Inv : Inv q → t.state ≡ sending → Inv (deliver c l a id q)
  unfolding deliver
  deliver-Inv v busy = rw (at, deliver) (outcome-Inv (classify a.reply.code a.reply.err) v busy)
