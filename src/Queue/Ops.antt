-- ===== src/Queue/Ops.antt =====
-- internal/queue/queue.go: the operations. `now` is what `model.NowMS()` returns, `io` what the
-- system answers to the append.
use rc_wnzzer.Base.{
  ℕ, ◌+◌, ◌-◌, Bytes, bytes, Option, none, some, List, [], ◌∷◌, ltb, leb, not, if◌then◌else◌,
}
use rc_wnzzer.Base.Table.{Table, lookup, insert}
use rc_wnzzer.Model.{State, Task, pending, waiting, sending, succeeded, dead, strip, state_eq}
use rc_wnzzer.Store.Record.{res_retry}
use rc_wnzzer.Store.Codec.{Codec}
use rc_wnzzer.Store.Wal.{Io, append_enqueue, append_attempt, append_done, append_dead}
use rc_wnzzer.Queue.Heap.{pop}
use rc_wnzzer.Queue.State.{
  Queue, Err, queue_full, not_found, not_dead, store_failed, next_at_of, update, schedule,
  store_error,
}

-- What `Submit` returns: an existing task, the new one, or an error.
pub data Submitted : Type 0 where
  duplicate : Option Task → Submitted
  accepted : Task → Submitted
  refused : Err → Submitted

abbrev pub enqueued : Task → Task
enqueued t = record t { state = pending; next_at = t.created_at; updated_at = t.created_at }

-- The task after a failed, a successful and a final attempt.
abbrev pub retried : (now code : ℕ) (msg : Bytes) (next_at : ℕ) → Task → Task
retried now code msg next_at t = record t {
  attempts = t.attempts + 1;
  last_code = code;
  last_err = msg;
  next_at = next_at;
  state = waiting;
  updated_at = now;
}

abbrev pub delivered : (now code : ℕ) (resp : Bytes) → Task → Task
delivered now code resp t = record t {
  attempts = t.attempts + 1;
  last_code = code;
  last_err = [];
  last_resp = resp;
  state = succeeded;
  updated_at = now;
  target = strip t.target;
}

abbrev pub buried : (now code : ℕ) (msg why : Bytes) → Task → Task
buried now code msg why t = record t {
  attempts = t.attempts + 1;
  last_code = code;
  last_err = msg;
  dead_reason = why;
  state = dead;
  updated_at = now;
}

abbrev pub revived : ℕ → Task → Task
revived now t = record t {
  attempts = 0;
  dead_reason = [];
  last_err = [];
  state = pending;
  next_at = now;
  updated_at = now;
  created_at = now;
}

-- `Lease` below the two early returns: the popped task is marked, and the new root's time returned.
unfoldable pub lease_popped : ℕ → Queue → Option (Bytes × List Bytes) → Queue × Option Bytes × ℕ
lease_popped now q none = (q, none, 0)
lease_popped now q (some (id, rest)) =
    let tasks = update id (λ t. record t { state = sending; updated_at = now }) q.tasks in
    let next : ℕ = elim rest [ [] ↦ 0 | top ∷ _ ↦ next_at_of tasks top ] in
    (record q { tasks = tasks; due = rest }, some id, next)

-- `Lease`, by the entries of the heap.
unfoldable pub lease_from : List Bytes → ℕ → Queue → Queue × Option Bytes × ℕ
lease_from [] now q = (q, none, 0)
lease_from (top ∷ _) now q =
    if ltb now (next_at_of q.tasks top)
    then (q, none, next_at_of q.tasks top)
    else lease_popped now q (pop (next_at_of q.tasks) q.due)

-- `Lease`
unfoldable pub lease : ℕ → Queue → Queue × Option Bytes × ℕ
unfolding lease_from lease_popped
lease now q = lease_from q.due now q

-- `Defer`
unfoldable pub defer : Bytes → ℕ → Queue → Queue
defer id next_at q =
    schedule id (record q {
      tasks = update id (λ t. record t { state = pending; next_at = next_at }) q.tasks;
    })

-- `Get`
unfoldable pub get : Bytes → Queue → Option Task
get id q = lookup id q.tasks

-- `ListByState`: the loop, with the number of tasks already in `out`.
unfoldable pub list_from : State → ℕ → ℕ → Table Task → List Task
list_from state limit n [] = []
list_from state limit n ((id, t) ∷ m) =
    let skip = list_from state limit n m in
    let more = list_from state limit (n + 1) m in
    if not (state_eq t.state state) then skip else t ∷ (if leb limit (n + 1) then [] else more)

unfoldable pub list_by_state : State → ℕ → Queue → List Task
unfolding list_from
list_by_state state limit q = list_from state limit 0 q.tasks

module _ (c : Codec) where
  -- `Submit` behind the two guards.
  unfoldable pub submit_new : Io → Task → Queue → Queue × Submitted
  submit_new io t q =
      let (w, fsynced) = append_enqueue c io t q.store in
      let t' = enqueued t in
      let q' = record q {
        store = w;
        tasks = insert t.id t' q.tasks;
        idem = insert t.idem_key t.id q.idem;
        active = q.active + 1;
      } in
      if fsynced
      then (schedule t.id q', accepted t')
      else (record q { store = w }, refused store_failed)

  -- `Submit`
  unfoldable pub submit : Io → Task → Queue → Queue × Submitted
  submit io t q = elim (lookup t.idem_key q.idem) [
    | some id ↦ (q, duplicate (lookup id q.tasks))
    | none ↦ if leb q.cfg.queue_max q.active then (q, refused queue_full) else submit_new io t q
  ]

  -- `OnRetry`. A failed append returns before the task is put back into the heap.
  unfoldable pub on_retry :
      Io
      → (now : ℕ) (id : Bytes) (code : ℕ) (msg : Bytes) (next_at : ℕ) → Queue
      → Queue × Option Err
  on_retry io now id code msg next_at q = elim (lookup id q.tasks) [
    | none ↦ (q, none)
    | some t ↦
        let t' = retried now code msg next_at t in
        let (w, fine) = append_attempt c io t.id t'.attempts res_retry code msg next_at q.store in
        let q' = record q { store = w; tasks = insert id t' q.tasks } in
        (if fine then schedule id q' else q', store_error fine)
  ]

  -- `OnSuccess`. The counter is positive whenever a task is out for delivery.
  unfoldable pub on_success :
      Io → (now : ℕ) (id : Bytes) (code : ℕ) (resp : Bytes) → Queue → Queue × Option Err
  on_success io now id code resp q = elim (lookup id q.tasks) [
    | none ↦ (q, none)
    | some t ↦
        let t' = delivered now code resp t in
        let (w, fine) = append_done c io t.id t'.attempts code resp q.store in
        (
          record q {
            store = w;
            tasks = insert id t' q.tasks;
            active = q.active - 1;
            unstripped = q.unstripped + 1;
          },
          store_error fine,
        )
  ]

  -- `OnDead`
  unfoldable pub on_dead :
      Io → (now : ℕ) (id : Bytes) (code : ℕ) (msg why : Bytes) → Queue → Queue × Option Err
  on_dead io now id code msg why q = elim (lookup id q.tasks) [
    | none ↦ (q, none)
    | some t ↦
        let t' = buried now code msg why t in
        let (w, fine) = append_dead c io t.id t'.attempts why q.store in
        (
          record q { store = w; tasks = insert id t' q.tasks; active = q.active - 1 },
          store_error fine,
        )
  ]

  -- `Revive` behind its guards.
  unfoldable pub revive_dead : Io → ℕ → Bytes → Task → Queue → Queue × Option Err
  revive_dead io now id t q =
      let (w, fine) = append_attempt c io t.id 0 res_retry 0 (bytes "revived") now q.store in
      let q' = record q {
        store = w;
        tasks = insert id (revived now t) q.tasks;
        active = q.active + 1;
      } in
      (if fine then schedule id q' else q', store_error fine)

  -- `Revive`
  unfoldable pub revive : Io → ℕ → Bytes → Queue → Queue × Option Err
  revive io now id q = elim (lookup id q.tasks) [
    | none ↦ (q, some not_found)
    | some t ↦
        if not (state_eq t.state dead)
        then (q, some not_dead)
        else if leb q.cfg.queue_max q.active
        then (q, some queue_full)
        else revive_dead io now id t q
  ]
