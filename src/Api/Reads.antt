-- ===== src/Api/Reads.antt =====
-- `handleGet` and `handleList` of internal/api/api.go. The parameters of the query are arguments.
pub mod Lists
use rc_wnzzer.Base.{
  ℕ, zero, suc, ◌+◌, ◌≤◌, ◌<◌, ◌≡◌, ◌≢◌, ◌⊎◌, refl, sym, ap, ◌∙◌, Bool, true, false, Bool-cases,
  not, Bytes, bytes, str_eq, eq_iff, Option, none, some, Option-cases, inl, inr, List, [], ◌∷◌, map,
  length, get_elem?, leb, ltb, if◌then◌else◌, arith,
}
use rc_wnzzer.Base.Table.{Table, lookup, lookup-nil, HasUniqueKeys}
use rc_wnzzer.Model.{State, pending, waiting, sending, succeeded, dead, Task, state_eq}
use rc_wnzzer.Queue.State.{Queue}
use rc_wnzzer.Queue.Ops.{get, list_from, list_by_state}
use rc_wnzzer.Queue.Invariant.{Inv}
use rc_wnzzer.Queue.Purge.{lookup-head, lookup-cons}
use rc_wnzzer.Dispatch.RetryAfter.{Int64, pos, neg, atoi}

-- `taskView`
pub record TaskView : Type 0 where
  pub id : Bytes
  pub idem_key : Bytes
  pub state : State
  pub url : Bytes
  pub attempts : ℕ
  pub next_at : ℕ
  pub last_code : ℕ
  pub last_err : Bytes
  pub last_resp : Bytes
  pub dead_reason : Bytes
  pub created_at : ℕ
  pub updated_at : ℕ
  pub key_id : Bytes

-- `viewOf`
abbrev pub view_of : Task → TaskView
view_of t = record {
  id = t.id;
  idem_key = t.idem_key;
  state = t.state;
  url = t.target.url;
  attempts = t.attempts;
  next_at = t.next_at;
  last_code = t.last_code;
  last_err = t.last_err;
  last_resp = t.last_resp;
  dead_reason = t.dead_reason;
  created_at = t.created_at;
  updated_at = t.updated_at;
  key_id = t.key_id;
}

-- `listed` is the answer of a list: the state's text and the tasks.
pub data Answer : Type 0 where
  refused : (status : ℕ) (code : Bytes) → Answer
  found : TaskView → Answer
  listed : (state : Bytes) (tasks : List TaskView) → Answer

-- `handleGet`
unfoldable pub handle_get : (is_authed : Bool) (id : Bytes) → Queue → Answer
handle_get false id q = refused 401 (bytes "unauthorized")
handle_get true id q = elim (get id q) [
  | none ↦ refused 404 (bytes "not_found")
  | some t ↦ found (view_of t)
]

abbrev pub default_list_limit : ℕ
default_list_limit = 100

abbrev pub max_list_limit : ℕ
max_list_limit = 1000

-- The text of the `limit` parameter, empty if it is missing.
limit_from : Option Int64 → ℕ
limit_from (some (pos (suc n))) = if ltb (suc n) max_list_limit then suc n else max_list_limit
limit_from _ = default_list_limit

unfoldable pub limit_of : Bytes → ℕ
unfolding limit_from
limit_of [] = default_list_limit
limit_of (b ∷ v) = limit_from (atoi (b ∷ v))

-- `model.State` of a text; no task has a state with another text.
unfoldable pub state_of : Bytes → Option State
state_of s =
    if str_eq s (bytes "pending")
    then some pending
    else if str_eq s (bytes "waiting")
    then some waiting
    else if str_eq s (bytes "sending")
    then some sending
    else if str_eq s (bytes "succeeded")
    then some succeeded
    else if str_eq s (bytes "dead")
    then some dead
    else none

abbrev pub state_param : Bytes → Bytes
state_param [] = bytes "dead"
state_param (b ∷ s) = b ∷ s

abbrev pub tasks_in : Option State → ℕ → Queue → List Task
tasks_in none limit q = []
tasks_in (some s) limit q = list_by_state s limit q

-- `handleList`
unfoldable pub handle_list : (is_authed : Bool) (state limit : Bytes) → Queue → Answer
handle_list false state limit q = refused 401 (bytes "unauthorized")
handle_list true state limit q =
    let text = state_param state in
    listed text (map view_of (tasks_in (state_of text) (limit_of limit) q))

-- The tasks of an answer.
abbrev pub shown : Answer → List TaskView
shown (listed state tasks) = tasks
shown (found v) = v ∷ []
shown (refused status code) = []
