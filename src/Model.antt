-- ===== src/Model.antt =====
-- internal/model/task.go: the task, its immutable part and its run-time state.
-- Times are Unix milliseconds; `int` and `int64` fields hold no negative value here.
pub mod NewId
use rc_wnzzer.Base.{ℕ, Bool, true, false, Bytes, ◌||◌, []}
use rc_wnzzer.Base.Table.{Table}

-- `State`; `unset` is the zero value "" of a task that no operation has touched.
pub data State : Type 0 where
  unset pending waiting sending succeeded dead : State

abbrev pub state_eq : State → State → Bool
state_eq unset unset = true
state_eq pending pending = true
state_eq waiting waiting = true
state_eq sending sending = true
state_eq succeeded succeeded = true
state_eq dead dead = true
state_eq _ _ = false

-- `State.Terminal`
abbrev pub terminal : State → Bool
terminal s = state_eq s succeeded || state_eq s dead

pub record Target : Type 0 where
  pub url : Bytes
  pub method : Bytes
  pub headers : Table Bytes
  pub body : Bytes
  pub body_encoding : Bytes

pub record Policy : Type 0 where
  pub timeout_ms : ℕ
  pub max_attempts : ℕ
  pub deadline_ms : ℕ

pub record Task : Type 0 where
  pub id : Bytes
  pub idem_key : Bytes
  pub target : Target
  pub policy : Policy
  pub created_at : ℕ
  pub key_id : Bytes
  pub state : State
  pub attempts : ℕ
  pub next_at : ℕ
  pub updated_at : ℕ
  pub last_code : ℕ
  pub last_err : Bytes
  pub last_resp : Bytes
  pub dead_reason : Bytes

-- `model.Target{URL: t.Target.URL, Method: t.Target.Method}`
abbrev pub strip : Target → Target
strip g = record { url = g.url; method = g.method; headers = []; body = []; body_encoding = [] }

-- What JSON keeps of a task: the fields marked `json:"-"` come back as zero values.
abbrev pub persisted : Task → Task
persisted t = record t {
  state = unset;
  attempts = 0;
  next_at = 0;
  updated_at = 0;
  last_code = 0;
  last_err = [];
  last_resp = [];
  dead_reason = [];
}
