-- ===== src/Dispatch/Deliver/Frees.antt =====
-- `deliver` of internal/dispatch/dispatch.go ends the sending of its task and changes no other.
use rc_wnzzer.Base.{
  ℕ, ◌+◌, ◌/◌, ◌≡◌, ap, ◌∙◌, Bool, true, false, Bool-cases, inl, inr, Bytes, bytes, str_eq, some,
  leb, if◌then◌else◌, arith,
}
use rc_wnzzer.Base.Table.{lookup, insert, lookup-insert}
use rc_wnzzer.Model.{Task}
use rc_wnzzer.Store.Codec.{Codec}
use rc_wnzzer.Store.Record.{res_retry}
use rc_wnzzer.Store.Wal.{append_attempt}
use rc_wnzzer.Queue.State.{Queue, schedule}
use rc_wnzzer.Queue.Ops.{retried, delivered, buried, on_retry, on_success, on_dead}
use rc_wnzzer.Queue.Sending.{sending_of, sent_now}
use rc_wnzzer.Dispatch.Outcome.{Outcome, success, retryable, permanent, classify}
use rc_wnzzer.Dispatch.Deliver.{
  Limits, Attempt, millisecond, max_attempts_of, deadline_of, is_late, delay_of, deliver_again,
  deliver_outcome, deliver,
}

either : (P : Queue → Type 0) (b : Bool) (x y : Queue) → P x → P y → P (if b then x else y)
either P true x y px py = px
either P false x y px py = py

-- The task of one id is replaced by one that is not being sent.
abbrev pub Frees : Bytes → (q q' : Queue) → Type 0
Frees id q q' =
    (t' : Task) × (sending_of (some t') ≡ 0)
    × ((j : Bytes) → lookup j q'.tasks ≡ (if str_eq id j then some t' else lookup j q.tasks))

module _ (c : Codec) (l : Limits) (a : Attempt) (id : Bytes) (t : Task) (q : Queue)
    (at : lookup id q.tasks ≡ some t) where
  success-Frees : Frees id q (on_success c a.io a.written_at id a.reply.code a.reply.snippet q).0
  unfolding on_success
  success-Frees =
      let t' = delivered a.written_at a.reply.code a.reply.snippet t in
      rw (at, on_success) (t', ground arith, λ j. lookup-insert id j t' q.tasks)

  dead-Frees :
      (why : Bytes)
      → Frees id q (on_dead c a.io a.written_at id a.reply.code a.reply.snippet why q).0
  unfolding on_dead
  dead-Frees why =
      let t' = buried a.written_at a.reply.code a.reply.snippet why t in
      rw (at, on_dead) (t', ground arith, λ j. lookup-insert id j t' q.tasks)

  retry-Frees :
      (next_at : ℕ)
      → Frees id q (on_retry c a.io a.written_at id a.reply.code a.reply.snippet next_at q).0
  unfolding on_retry schedule
  retry-Frees next_at =
      let t' = retried a.written_at a.reply.code a.reply.snippet next_at t in
      let r =
        append_attempt c a.io t.id t'.attempts res_retry a.reply.code a.reply.snippet next_at
          q.store in
      let q' = record q { store = r.0; tasks = insert id t' q.tasks } in
      let kept : Frees id q q' = (t', ground arith, λ j. lookup-insert id j t' q.tasks) in
      rw (at, on_retry) (either (Frees id q) r.1 (schedule id q') q' kept kept)

  again-Frees : Frees id q (deliver_again c l a id t q)
  unfolding deliver_again
  again-Frees =
      let attempt = t.attempts + 1 in
      let next_at = a.now + delay_of l a attempt / millisecond in
      elim (Bool-cases (leb (max_attempts_of l t.policy) attempt)) [
        | inl last ↦ rw (last, deliver_again) (dead-Frees (bytes "max_attempts"))
        | inr more ↦ elim (Bool-cases (is_late next_at t.created_at (deadline_of l t.policy))) [
          | inl late ↦ rw (more, late, deliver_again) (dead-Frees (bytes "deadline_exceeded"))
          | inr soon ↦ rw (more, soon, deliver_again) (retry-Frees next_at)
        ]
      ]

  outcome-Frees : (o : Outcome) → Frees id q (deliver_outcome c l a id t q o)
  unfolding deliver_outcome
  outcome-Frees success = success-Frees
  outcome-Frees permanent = dead-Frees _
  outcome-Frees retryable = again-Frees

  pub deliver-Frees : Frees id q (deliver c l a id q)
  unfolding deliver
  deliver-Frees = rw (at, deliver) (outcome-Frees (classify a.reply.code a.reply.err))

  pub sent_now-deliver :
      (j : Bytes) → sent_now (deliver c l a id q) j ≡ (if str_eq id j then 0 else sent_now q j)
  sent_now-deliver j =
      let (t', free, found) = deliver-Frees in ap sending_of (found j) ∙ ground (arith, free)
