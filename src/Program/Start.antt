-- ===== src/Program/Start.antt =====
-- `run` of cmd/notifyd/main.go up to where the program serves: from the environment, the file of keys
-- and the log to a queue, a dispatcher and a server.
use rc_wnzzer.Base.{
  ℕ, ◌/◌, ◌≤◌, ◌≡◌, refl, Bool, false, ◌||◌, Bytes, Option, none, some, List, ◌++◌, if◌then◌else◌,
  arith,
}
use rc_wnzzer.Base.Table.{Table}
use rc_wnzzer.Store.Record.{Record}
use rc_wnzzer.Store.Codec.{Codec}
use rc_wnzzer.Store.Wal.{Wal, Fault, Crash, reopen}
use rc_wnzzer.Store.Wal.Journal.{IsJournal}
use rc_wnzzer.Store.Replay.{ReplayFault, no_fault}
use rc_wnzzer.Queue.State.{Config, Queue, Err, new}
use rc_wnzzer.Queue.Restore.{restore}
use rc_wnzzer.Queue.Restore.Folded.{AllSound}
use rc_wnzzer.Queue.Restore.Sound.{OpensOnce}
use rc_wnzzer.Queue.Restore.Starts.{restart-Inv}
use rc_wnzzer.Dispatch.RetryAfter.{Int64, pos, neg}
use rc_wnzzer.Dispatch.Target.{Url}
use rc_wnzzer.Dispatch.Run.{Settings, System, started}
use rc_wnzzer.Config.{ServiceConfig, ConfigError, int_less, check}
use rc_wnzzer.Config.Checks.{AtMost, IsValid, IsValid-check}
use rc_wnzzer.Config.Keys.{KeysError, Loaded, keys, refused, load_keys}
use rc_wnzzer.Program.Sound.{Sound}
use rc_wnzzer.Program.Reach.{Reach, Reach-Sound}

-- A negative number where the code treats one like 0: no count of tasks and no size is below it.
abbrev pub at_least_zero : Int64 → ℕ
at_least_zero (pos n) = n
at_least_zero (neg n) = 0

-- `Milliseconds`, of what is not negative
abbrev pub milliseconds : Int64 → ℕ
milliseconds d = at_least_zero d / 1000000

-- The program when it serves: what it gives the server is the keys with the tolerance of their
-- timestamps, and whether private addresses are allowed.
pub record Service : Type 0 where
  pub settings : Settings
  pub keys : Table Bytes
  pub skew : Int64
  pub allow_private : Bool
  pub system : System

-- How `run` comes out. `unmodelled` stands for what `Load` lets through and the models leave out: a
-- negative duration that the queue or a delivery reads, and an interval of the maintenance that is not
-- positive, with which `time.NewTicker` panics.
pub data Start : Type 0 where
  bad_config : ConfigError → Start
  bad_keys : KeysError → Start
  unmodelled no_log : Start
  not_restored : Err → Start
  serving : Service → Start

module _ {F : Type 0} where
  -- The configuration of the queue; `sparse` is the test on the ratio of the live bytes.
  abbrev pub queue_config : (sparse : F → ℕ → ℕ → Bool) → ServiceConfig F → Config
  queue_config sparse c = record {
    queue_max = at_least_zero c.queue_max;
    tasks_max = at_least_zero c.tasks_max;
    retention_ms = milliseconds c.retention;
    dead_retention_ms = milliseconds c.dead_retention;
    compact_min_bytes = at_least_zero c.compact_min_bytes;
    is_sparse = sparse c.compact_live_ratio;
    strip_threshold = at_least_zero c.strip_threshold;
  }

  -- The configuration of the dispatcher
  abbrev pub dispatch_config : ServiceConfig F → Settings
  dispatch_config c = record {
    workers = at_least_zero c.workers;
    host_concurrency = at_least_zero c.host_concurrency;
    limits = record {
      base_backoff = at_least_zero c.base_backoff;
      max_backoff = at_least_zero c.backoff_cap;
      default_max_attempts = at_least_zero c.max_attempts;
      default_deadline = at_least_zero c.deadline;
    };
  }

  abbrev pub is_left_out : ServiceConfig F → Bool
  is_left_out c =
      int_less c.retention (pos 0)
      || int_less c.dead_retention (pos 0)
      || int_less c.base_backoff (pos 0)
      || int_less c.backoff_cap (pos 0)
      || int_less c.deadline (pos 0)
      || int_less c.maintain_interval (pos 1)

  module _ (c : Codec) (trim : Bytes → Bytes) (sparse : F → ℕ → ℕ → Bool) (fr : ReplayFault)
      (fw : Fault) where
    -- After `Restore`
    abbrev pub serve : ServiceConfig F → Table Bytes → Queue × Option Err → Start
    serve cfg ks r = elim r.1 [
      | some e ↦ not_restored e
      | none ↦ serving (record {
        settings = dispatch_config cfg;
        keys = ks;
        skew = cfg.skew_tolerance;
        allow_private = cfg.allow_private_hosts;
        system = started r.0;
      })
    ]

    -- After `LoadKeys`
    abbrev pub with_keys : ServiceConfig F → (disk : Bytes → Option Wal) → Loaded → Start
    with_keys cfg disk (refused e) = bad_keys e
    with_keys cfg disk (keys ks) =
        if is_left_out cfg then unmodelled else elim (disk cfg.data_dir) [
          | none ↦ no_log
          | some w ↦ serve cfg ks (restore c fr fw (new (queue_config sparse cfg) w))
        ]

    -- `run`, over what `Load` returns, up to the start of the goroutines. `files` reads a file:
    -- its text, whether its permissions are too wide, and whether a read fails behind the text; `disk` is `OpenWAL`.
    unfoldable pub run :
        ServiceConfig F × Option ConfigError
        → (files : Bytes → Option Bytes × Bool × Bool) → (disk : Bytes → Option Wal) → Start
    run loaded files disk = elim loaded.1 [
      | some e ↦ bad_config e
      | none ↦
          let cfg = loaded.0 in
          let file = files cfg.keys_file in with_keys cfg disk (load_keys trim file.0 file.1 file.2)
    ]

-- What is at least 1 is not negative.
positive : (n : Int64) → AtMost (pos 1) n → (pos (at_least_zero n) ≡ n) × (1 ≤ at_least_zero n)
positive (pos n) h = (refl, h)
positive (neg n) h = absurd (omega (arith, h))

module _ {F : Type 0} (c : Codec) (trim : Bytes → Bytes) (sparse : F → ℕ → ℕ → Bool) (io : Fault)
    (cfg : ServiceConfig F) (ks : Table Bytes) (files : Bytes → Option Bytes × Bool × Bool)
    (disk : Bytes → Option Wal) (safe recent : List Record) (n : Crash) (w : Wal) where
  -- After a crash at any moment of a sound log of records that are whole and read back as they were
  -- written, with no two submissions under one id, the program starts, if the configuration passes
  -- the checks, has no negative duration and a positive interval of the maintenance, its file of keys
  -- is read, and no call fails: it serves with these keys and as many workers, and connections for a
  -- host, as the configuration says, at least one of each; and every state that it then reaches is
  -- sound.
  pub run-Sound :
      IsValid cfg
      → is_left_out cfg ≡ false
      → load_keys trim (files cfg.keys_file).0 (files cfg.keys_file).1 (files cfg.keys_file).2
        ≡ keys ks
      → disk cfg.data_dir ≡ some (reopen n w)
      → AllSound c (safe ++ recent)
      → OpensOnce (safe ++ recent)
      → IsJournal c safe recent w
      → (v : Service) × (run c trim sparse no_fault io (cfg, check cfg) files disk ≡ serving v)
        × (v.keys ≡ ks)
        × (pos v.settings.workers ≡ cfg.workers)
        × (1 ≤ v.settings.workers)
        × (pos v.settings.host_concurrency ≡ cfg.host_concurrency)
        × (1 ≤ v.settings.host_concurrency)
        × ((parse : Bytes → Option Url) (s : System)
            → Reach c v.settings parse v.system.queue s
            → Sound v.settings s)
  unfolding run
  run-Sound valid signs read opened sound once j =
      let q = new (queue_config sparse cfg) (reopen n w) in
      let r = restore c no_fault io q in
      let up = restart-Inv c safe recent sound once n w (queue_config sparse cfg) io j in
      let many = positive cfg.workers valid.has_worker in
      let each = positive cfg.host_concurrency valid.has_connection in
      (
        record {
          settings = dispatch_config cfg;
          keys = ks;
          skew = cfg.skew_tolerance;
          allow_private = cfg.allow_private_hosts;
          system = started r.0;
        },
        rw (IsValid-check cfg valid, read, signs, opened, up.0) refl,
        refl,
        many.0,
        many.1,
        each.0,
        each.1,
        λ parse s k. Reach-Sound c (dispatch_config cfg) parse r.0 up.1 up.2 k,
      )
