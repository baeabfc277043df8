-- ===== src/Api/Submit.antt =====
-- `handleSubmit` and `handleRetry` of internal/api/api.go. What `ReadAll`, `Verify` and
-- `json.Unmarshal` return is an argument; the metrics, the log, the texts of errors and the
-- Retry-After header are left out.
use rc_wnzzer.Base.{ℕ, Bool, true, false, Bytes, bytes, Option, none, some, []}
use rc_wnzzer.Model.{State, Task, unset}
use rc_wnzzer.Store.Codec.{Codec}
use rc_wnzzer.Store.Wal.{Io}
use rc_wnzzer.Queue.State.{Queue, Err, queue_full, not_found, not_dead, store_failed}
use rc_wnzzer.Queue.Ops.{Submitted, duplicate, accepted, refused, submit, get, revive}
use rc_wnzzer.Api.Validate.{
  SubmitRequest, Rejection, missing_idempotency_key, idempotency_key_too_long, missing_target_url,
  method_not_allowed, blocked_target, invalid_target, invalid_body_encoding, Parsers, validate,
}

-- `submitted` is a `submitResponse`, `viewed` a task view; `panics` is the nil pointer that an answer
-- made of a missing task would follow.
pub data Response : Type 0 where
  failed : (status : ℕ) (code : Bytes) → Response
  submitted :
      (status : ℕ) (id : Bytes) (state : State) (is_duplicate : Bool) (created_at : ℕ) → Response
  viewed : (status : ℕ) → Task → Response
  panics : Response

-- A POST request: whether its body is within the limit, the key id that `Verify` returns, and the
-- body as JSON.
pub record Incoming : Type 0 where
  pub fits : Bool
  pub caller : Option Bytes
  pub request : Option SubmitRequest

abbrev pub code_of : Rejection → Bytes
code_of missing_idempotency_key = bytes "missing_idempotency_key"
code_of idempotency_key_too_long = bytes "idempotency_key_too_long"
code_of missing_target_url = bytes "missing_target_url"
code_of method_not_allowed = bytes "method_not_allowed"
code_of blocked_target = bytes "blocked_target"
code_of invalid_target = bytes "invalid_target"
code_of invalid_body_encoding = bytes "invalid_body_encoding"

-- The task of a valid request.
abbrev pub task_from : (now : ℕ) (id key_id : Bytes) → SubmitRequest → Task
task_from now id key_id r = record {
  id = id;
  idem_key = r.idem_key;
  target = r.target;
  policy = r.policy;
  created_at = now;
  key_id = key_id;
  state = unset;
  attempts = 0;
  next_at = 0;
  updated_at = 0;
  last_code = 0;
  last_err = [];
  last_resp = [];
  dead_reason = [];
}

-- The answer to what `Submit` returns.
abbrev pub answer : Submitted → Response
answer (accepted t) = submitted 202 t.id t.state false t.created_at
answer (duplicate (some t)) = submitted 200 t.id t.state true t.created_at
answer (duplicate none) = panics
answer (refused queue_full) = failed 429 (bytes "queue_full")
answer (refused _) = failed 500 (bytes "internal")

-- What follows the checks.
unfoldable pub take_task : Codec → Io → Task → Queue → Queue × Response
take_task c io t q = let r = submit c io t q in (r.0, answer r.1)

module _ (c : Codec) (p : Parsers) (allow_private : Bool) (io : Io) (now : ℕ) (id : Bytes) where
  -- The request behind `json.Unmarshal`.
  unfoldable pub take_request : Bytes → SubmitRequest → Queue → Queue × Response
  take_request key_id r q = elim (validate p r allow_private) [
    | some why ↦ (q, failed 400 (code_of why))
    | none ↦ take_task c io (task_from now id key_id r) q
  ]

  take_body : Bytes → Option SubmitRequest → Queue → Queue × Response
  take_body key_id none q = (q, failed 400 (bytes "invalid_json"))
  take_body key_id (some r) q = take_request key_id r q

  -- The checks of `handleSubmit` in their order.
  take_caller : Bool → Option Bytes → Option SubmitRequest → Queue → Queue × Response
  take_caller false caller request q = (q, failed 413 (bytes "payload_too_large"))
  take_caller true none request q = (q, failed 401 (bytes "unauthorized"))
  take_caller true (some key_id) request q = take_body key_id request q

  -- `handleSubmit`
  unfoldable pub handle_submit : Incoming → Queue → Queue × Response
  unfolding take_caller take_body take_request
  handle_submit incoming q = take_caller incoming.fits incoming.caller incoming.request q

-- The zero value of a task, which `Get` returns beside `false`.
abbrev pub no_task : Task
no_task = task_from 0 [] [] (record {
  idem_key = [];
  target = record { url = []; method = []; headers = []; body = []; body_encoding = [] };
  policy = record { timeout_ms = 0; max_attempts = 0; deadline_ms = 0 };
})

abbrev pub retry_answer : Option Err → Option Task → Response
retry_answer (some not_found) o = failed 404 (bytes "not_found")
retry_answer (some not_dead) o = failed 409 (bytes "not_dead")
retry_answer (some queue_full) o = failed 429 (bytes "queue_full")
retry_answer (some store_failed) o = failed 500 (bytes "internal")
retry_answer none (some t) = viewed 202 t
retry_answer none none = viewed 202 no_task

-- `handleRetry`; `later` is what happens to the queue between `Revive` and `Get`, which lock it apart.
unfoldable pub handle_retry :
    Codec
    → Io
    → (now : ℕ) (is_authed : Bool) (id : Bytes) (later : Queue → Queue) → Queue
    → Queue × Response
handle_retry c io now false id later q = (q, failed 401 (bytes "unauthorized"))
handle_retry c io now true id later q =
    let r = revive c io now id q in let q' = later r.0 in (q', retry_answer r.1 (get id q'))
