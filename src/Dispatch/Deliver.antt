-- ===== src/Dispatch/Deliver.antt =====
-- `deliver` of internal/dispatch/dispatch.go: one attempt and what it does to the task. What
-- `doRequest` returns is an argument; the log and the metrics are left out.
pub mod Frees
pub mod Settles
use rc_wnzzer.Base.{
  ℕ, ◌+◌, ◌*◌, ◌/◌, Bool, Bytes, bytes, Option, none, some, [], ltb, leb, if◌then◌else◌,
}
use rc_wnzzer.Base.Table.{lookup}
use rc_wnzzer.Model.{Policy, Task}
use rc_wnzzer.Store.Codec.{Codec}
use rc_wnzzer.Store.Wal.{Io}
use rc_wnzzer.Queue.State.{Queue}
use rc_wnzzer.Queue.Ops.{on_retry, on_success, on_dead}
use rc_wnzzer.Dispatch.Outcome.{
  Outcome, RequestError, success, retryable, permanent, classify, permanent_reason,
}
use rc_wnzzer.Dispatch.Backoff.{backoff}
use rc_wnzzer.Dispatch.RetryAfter.{Int64, pos, neg, wrap64, parse_retry_after}

-- `Config`, as far as a delivery reads it: durations are nanoseconds.
pub record Limits : Type 0 where
  pub base_backoff : ℕ
  pub max_backoff : ℕ
  pub default_max_attempts : ℕ
  pub default_deadline : ℕ

-- What `doRequest` returns. `retry_after` is the Retry-After header, empty if the response has none,
-- and `none` if there is no response.
pub record Reply : Type 0 where
  pub code : ℕ
  pub retry_after : Option Bytes
  pub snippet : Bytes
  pub err : Option RequestError

-- What one delivery takes from outside: the reply, `rand.Int64N`, `http.ParseTime` relative to the
-- start, the clock at the computation of the next attempt and at the queue's write, and the append.
pub record Attempt : Type 0 where
  pub reply : Reply
  pub rand : ℕ → ℕ
  pub until : Bytes → Option Int64
  pub now : ℕ
  pub written_at : ℕ
  pub io : Io

abbrev pub millisecond : ℕ
millisecond = 1000000

abbrev pub max_attempts_of : Limits → Policy → ℕ
max_attempts_of l p = if ltb 0 p.max_attempts then p.max_attempts else l.default_max_attempts

-- `time.Duration(t.Policy.DeadlineMS) * time.Millisecond` wraps around in int64.
abbrev pub deadline_of : Limits → Policy → Int64
deadline_of l p =
    if ltb 0 p.deadline_ms then wrap64 (p.deadline_ms * millisecond) else pos l.default_deadline

-- `nextAt >= t.CreatedAt+deadline.Milliseconds()`
abbrev pub is_late : (next_at created_at : ℕ) → Int64 → Bool
is_late next_at created_at (pos d) = leb (created_at + d / millisecond) next_at
is_late next_at created_at (neg d) = leb created_at (next_at + d / millisecond)

-- The wait before the next attempt: the header's, if it says one, else the backoff.
unfoldable pub delay_of : Limits → Attempt → ℕ → ℕ
delay_of l a attempt =
    let own = backoff a.rand attempt l.base_backoff l.max_backoff in
    elim a.reply.retry_after [
      | none ↦ own
      | some v ↦ elim (parse_retry_after a.until v l.max_backoff) [ none ↦ own | some d ↦ d ]
    ]

module _ (c : Codec) (l : Limits) (a : Attempt) (id : Bytes) (t : Task) (q : Queue) where
  -- The part below the `switch`.
  unfoldable pub deliver_again : Queue
  deliver_again =
      let attempt = t.attempts + 1 in
      let bury =
        λ (why : Bytes). (on_dead c a.io a.written_at id a.reply.code a.reply.snippet why q).0 in
      let next_at = a.now + delay_of l a attempt / millisecond in
      if leb (max_attempts_of l t.policy) attempt
      then bury (bytes "max_attempts")
      else if is_late next_at t.created_at (deadline_of l t.policy)
      then bury (bytes "deadline_exceeded")
      else (on_retry c a.io a.written_at id a.reply.code a.reply.snippet next_at q).0

  unfoldable pub deliver_outcome : Outcome → Queue
  deliver_outcome success = (on_success c a.io a.written_at id a.reply.code a.reply.snippet q).0
  deliver_outcome permanent =
      (on_dead c a.io a.written_at id a.reply.code a.reply.snippet (permanent_reason a.reply.err)
        q).0
  deliver_outcome retryable = deliver_again

-- `deliver`; an error of the queue is only logged.
unfoldable pub deliver : Codec → Limits → Attempt → Bytes → Queue → Queue
deliver c l a id q = elim (lookup id q.tasks) [
  | none ↦ q
  | some t ↦ deliver_outcome c l a id t q (classify a.reply.code a.reply.err)
]
