-- ===== src/Program/Courses/Delivers.antt =====
-- A delivery of internal/dispatch/dispatch.go of which no call of the journal fails continues the life
-- of the queue.
use rc_wnzzer.Base.{◌+◌, ◌/◌, ◌≡◌, Bool-cases, inl, inr, Bytes, bytes, some, List, leb}
use rc_wnzzer.Base.Table.{lookup}
use rc_wnzzer.Model.{Task, sending}
use rc_wnzzer.Store.Codec.{Codec}
use rc_wnzzer.Store.Wal.{none_fails}
use rc_wnzzer.Queue.State.{Queue}
use rc_wnzzer.Queue.Lives.{Life, retries, succeeds, dies}
use rc_wnzzer.Dispatch.Outcome.{Outcome, success, retryable, permanent, classify}
use rc_wnzzer.Dispatch.Deliver.{
  Limits, Attempt, millisecond, max_attempts_of, deadline_of, is_late, delay_of, deliver_again,
  deliver_outcome, deliver,
}
use rc_wnzzer.Program.Courses.{Writable}

module _ (c : Codec) {given : List Bytes} {q : Queue} (life : Life c given q) (l : Limits)
    (a : Attempt) (ok : a.io.fault ≡ none_fails) (id : Bytes) (t : Task)
    (at : lookup id q.tasks ≡ some t) (busy : t.state ≡ sending) (w : Writable c a t) where
  again-Life : Life c given (deliver_again c l a id t q)
  unfolding deliver_again
  again-Life =
      let attempt = t.attempts + 1 in
      let next_at = a.now + delay_of l a attempt / millisecond in
      elim (Bool-cases (leb (max_attempts_of l t.policy) attempt)) [
        | inl last ↦
            rw (last, deliver_again)
              (dies life id t a.io a.written_at a.reply.code a.reply.snippet (bytes "max_attempts")
                at busy ok w.max_attempts)
        | inr more ↦ elim (Bool-cases (is_late next_at t.created_at (deadline_of l t.policy))) [
          | inl late ↦
              rw (more, late, deliver_again)
                (dies life id t a.io a.written_at a.reply.code a.reply.snippet
                  (bytes "deadline_exceeded") at busy ok w.deadline)
          | inr soon ↦
              rw (more, soon, deliver_again)
                (retries life id t a.io a.written_at a.reply.code a.reply.snippet next_at at busy ok
                  (w.again next_at))
        ]
      ]

  outcome-Life : (o : Outcome) → Life c given (deliver_outcome c l a id t q o)
  unfolding deliver_outcome
  outcome-Life success =
      succeeds life id t a.io a.written_at a.reply.code a.reply.snippet at busy ok w.success
  outcome-Life permanent =
      dies life id t a.io a.written_at a.reply.code a.reply.snippet _ at busy ok w.permanent
  outcome-Life retryable = again-Life

  pub deliver-Life : Life c given (deliver c l a id q)
  unfolding deliver
  deliver-Life = rw (at, deliver) (outcome-Life (classify a.reply.code a.reply.err))
