-- ===== src/Queue/Stranded.antt =====
-- `OnRetry` of internal/queue/queue.go when the journal refuses the record.
use rc_wnzzer.Base.{ℕ, ◌≡◌, refl, Bool-cases, Bytes, some, inl, inr, eq_iff, occurs, arith}
use rc_wnzzer.Base.Table.{lookup, lookup-insert}
use rc_wnzzer.Model.{Task, sending}
use rc_wnzzer.Store.Record.{res_retry}
use rc_wnzzer.Store.Codec.{Codec}
use rc_wnzzer.Store.Wal.{Io, append_attempt}
use rc_wnzzer.Queue.State.{Queue, store_failed}
use rc_wnzzer.Queue.Ops.{retried, on_retry}
use rc_wnzzer.Queue.Invariant.{Inv}

-- In a state of the invariant, if the append of a retryable failure of a leased task fails, the
-- task is left waiting and the count of active tasks as it was, but the task is not in the heap.
pub on_retry-stranded :
    (c : Codec) (io : Io) (now : ℕ) (id : Bytes) (t : Task) (q : Queue) (code : ℕ) (msg : Bytes)
    (next_at : ℕ)
    → Inv q
    → lookup id q.tasks ≡ some t
    → t.state ≡ sending
    → (on_retry c io now id code msg next_at q).1 ≡ some store_failed
    → let q' = (on_retry c io now id code msg next_at q).0 in
      (lookup id q'.tasks ≡ some (retried now code msg next_at t))
      × (q'.active ≡ q.active)
      × (occurs id q'.due ≡ 0)
unfolding on_retry
on_retry-stranded c io now id t q code msg next_at v at busy h =
    let t' = retried now code msg next_at t in
    elim (Bool-cases (append_attempt c io t.id t'.attempts res_retry code msg next_at q.store).1) [
      | inl fine ↦ absurd (ground (arith, at, fine, h))
      | inr fails ↦
          rw (at, fails, on_retry)
            (
              ground (arith, lookup-insert id id t' q.tasks, eq_iff id id),
              refl,
              ground (arith, v.due_once id, at, busy),
            )
    ]
