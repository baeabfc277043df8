-- ===== src/Config.antt =====
-- `Load` of internal/config/config.go: the environment is an argument, as are `strconv.ParseFloat`,
-- `strconv.ParseBool` and `time.ParseDuration`. Durations are nanoseconds.
pub mod Keys
pub mod Checks
use rc_wnzzer.Base.{
  ℕ, ◌+◌, ◌*◌, Bool, true, false, not, ◌&&◌, Bytes, bytes, Option, none, some, [], ◌∷◌, ltb,
  if◌then◌else◌,
}
use rc_wnzzer.Dispatch.RetryAfter.{Int64, pos, neg, atoi}

-- a < b
abbrev pub int_less : Int64 → Int64 → Bool
int_less (pos a) (pos b) = ltb a b
int_less (pos a) (neg b) = false
int_less (neg a) (pos b) = ltb 0 (a + b)
int_less (neg a) (neg b) = ltb b a

-- `Config`; F is float64.
pub record ServiceConfig (F : Type 0) : Type 0 where
  pub addr : Bytes
  pub data_dir : Bytes
  pub keys_file : Bytes
  pub workers : Int64
  pub host_concurrency : Int64
  pub queue_max : Int64
  pub tasks_max : Int64
  pub max_attempts : Int64
  pub base_backoff : Int64
  pub backoff_cap : Int64
  pub timeout : Int64
  pub deadline : Int64
  pub dial_timeout : Int64
  pub retention : Int64
  pub dead_retention : Int64
  pub maintain_interval : Int64
  pub skew_tolerance : Int64
  pub shutdown_grace : Int64
  pub compact_min_bytes : Int64
  pub compact_live_ratio : F
  pub strip_threshold : Int64
  pub allow_private_hosts : Bool

-- The errors of `Load`, in the order of its checks.
pub data ConfigError : Type 0 where
  few_workers few_per_host few_attempts small_tasks_max short_dead_retention : ConfigError

abbrev pub minute : ℕ
minute = 60 * 1000000000

abbrev pub hour : ℕ
hour = 60 * minute

-- `env`, for the value of the variable
abbrev pub env : Bytes → Bytes → Bytes
env [] default = default
env (b ∷ v) default = b ∷ v

-- `envInt`, `envFloat`, `envBool` and `envDur`, by the function that parses.
abbrev pub env_parsed : {A : Type 0} → (Bytes → Option A) → Bytes → A → A
env_parsed parse [] default = default
env_parsed parse (b ∷ v) default = elim (parse (b ∷ v)) [ none ↦ default | some a ↦ a ]

module _ {F : Type 0} where
  -- The checks of `Load`.
  unfoldable pub check : ServiceConfig F → Option ConfigError
  check c =
      if int_less c.workers (pos 1)
      then some few_workers
      else if int_less c.host_concurrency (pos 1)
      then some few_per_host
      else if int_less c.max_attempts (pos 1)
      then some few_attempts
      else if int_less (pos 0) c.tasks_max && int_less c.tasks_max c.queue_max
      then some small_tasks_max
      else if int_less c.dead_retention c.retention
      then some short_dead_retention
      else none

  module _ (parse_float : Bytes → Option F) (parse_bool : Bytes → Option Bool)
      (parse_duration : Bytes → Option Int64) (half : F) (getenv : Bytes → Bytes) where
    abbrev env_int : Bytes → ℕ → Int64
    env_int k default = env_parsed atoi (getenv k) (pos default)

    abbrev env_dur : Bytes → ℕ → Int64
    env_dur k default = env_parsed parse_duration (getenv k) (pos default)

    -- The reading of the variables.
    unfoldable pub read_env : ServiceConfig F
    read_env = record {
      addr = env (getenv (bytes "NOTIFY_ADDR")) (bytes ":8080");
      data_dir = env (getenv (bytes "NOTIFY_DATA_DIR")) (bytes "./data");
      keys_file = env (getenv (bytes "NOTIFY_KEYS_FILE")) (bytes "./keys");
      workers = env_int (bytes "NOTIFY_WORKERS") 32;
      host_concurrency = env_int (bytes "NOTIFY_HOST_CONCURRENCY") 8;
      queue_max = env_int (bytes "NOTIFY_QUEUE_MAX") 100000;
      tasks_max = env_int (bytes "NOTIFY_TASKS_MAX") 500000;
      max_attempts = env_int (bytes "NOTIFY_MAX_ATTEMPTS") 24;
      base_backoff = env_dur (bytes "NOTIFY_BACKOFF_BASE") 1000000000;
      backoff_cap = env_dur (bytes "NOTIFY_BACKOFF_CAP") hour;
      timeout = env_dur (bytes "NOTIFY_TIMEOUT") (5 * 1000000000);
      deadline = env_dur (bytes "NOTIFY_DEADLINE") (24 * hour);
      dial_timeout = env_dur (bytes "NOTIFY_DIAL_TIMEOUT") (5 * 1000000000);
      retention = env_dur (bytes "NOTIFY_RETENTION") (7 * 24 * hour);
      dead_retention = env_dur (bytes "NOTIFY_DEAD_RETENTION") (30 * 24 * hour);
      maintain_interval = env_dur (bytes "NOTIFY_MAINTAIN_INTERVAL") minute;
      skew_tolerance = env_dur (bytes "NOTIFY_SKEW_TOLERANCE") (5 * minute);
      shutdown_grace = env_dur (bytes "NOTIFY_SHUTDOWN_GRACE") (30 * 1000000000);
      compact_min_bytes = env_int (bytes "NOTIFY_COMPACT_MIN_BYTES") 67108864;
      compact_live_ratio = env_parsed parse_float (getenv (bytes "NOTIFY_COMPACT_LIVE_RATIO")) half;
      strip_threshold = env_int (bytes "NOTIFY_COMPACT_STRIP_THRESHOLD") 1000;
      allow_private_hosts =
          env_parsed parse_bool (getenv (bytes "NOTIFY_ALLOW_PRIVATE_HOSTS")) false;
    }

    -- `Load`
    unfoldable pub load : ServiceConfig F × Option ConfigError
    load = (read_env, check read_env)
