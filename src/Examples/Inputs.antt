-- ===== src/Examples/Inputs.antt =====
-- A task, a configuration, answers of the system, and queues that operations lead to.
use rc_wnzzer.Base.{bytes, ltb, ◌*◌, []}
use rc_wnzzer.Model.{Target, Policy, Task, unset}
use rc_wnzzer.Store.Record.{Record}
use rc_wnzzer.Store.Wal.{Crash, Wal, Io, none_fails, open_wal, enqueue_record}
use rc_wnzzer.Queue.State.{Config, Queue, new}

abbrev pub target : Target
target = record {
  url = bytes "u";
  method = bytes "POST";
  headers = [];
  body = bytes "b";
  body_encoding = [];
}

abbrev pub policy : Policy
policy = record { timeout_ms = 0; max_attempts = 0; deadline_ms = 0 }

abbrev pub task : Task
task = record {
  id = bytes "1";
  idem_key = bytes "k";
  target = target;
  policy = policy;
  created_at = 5;
  key_id = bytes "a";
  state = unset;
  attempts = 0;
  next_at = 0;
  updated_at = 0;
  last_code = 0;
  last_err = [];
  last_resp = [];
  dead_reason = [];
}

abbrev pub config : Config
config = record {
  queue_max = 10;
  tasks_max = 1;
  retention_ms = 100;
  dead_retention_ms = 1000;
  compact_min_bytes = 4;
  is_sparse = λ a b. ltb (a * 2) b;
  strip_threshold = 1;
}

abbrev pub io : Io
io = record { ts = 5; fault = none_fails; spilled = 0 }

-- The process is killed with three bytes unsynced in the file, one of which reaches the disk.
abbrev pub killed : Crash
killed = record { kept = 3; settled = 1 }

abbrev pub journal : Wal
journal = open_wal 0 []

abbrev pub enqueue : Record
enqueue = enqueue_record 5 task

abbrev pub fresh_queue : Queue
fresh_queue = new config journal
