-- ===== src/Examples/Starts.antt =====
-- A start of the program after a crash, at concrete inputs.
use rc_wnzzer.Base.{
  ℕ, ◌≡◌, ◌≤◌, refl, Bool, false, Bytes, bytes, Option, some, [], ◌∷◌, ◌++◌, inr, arith, ltb, ◌*◌,
}
use rc_wnzzer.Store.Wal.{Wal, none_fails, reopen}
use rc_wnzzer.Store.Replay.{no_fault}
use rc_wnzzer.Dispatch.RetryAfter.{pos}
use rc_wnzzer.Dispatch.Target.{Url}
use rc_wnzzer.Dispatch.Run.{System}
use rc_wnzzer.Config.{ServiceConfig, check, minute, hour}
use rc_wnzzer.Config.Checks.{IsValid}
use rc_wnzzer.Config.Keys.Printed.{print_keys, load_keys-print_keys}
use rc_wnzzer.Program.Sound.{Sound}
use rc_wnzzer.Program.Reach.{Reach}
use rc_wnzzer.Program.Start.{Service, serving, run, run-Sound}
use rc_wnzzer.Examples.Json.{sample_codec}
use rc_wnzzer.Examples.Inputs.{killed, enqueue}
use rc_wnzzer.Examples.Settings.{as_is, entry, entry-IsEntry, alone}
use rc_wnzzer.Examples.Restarts.{other_done, written, written-IsJournal, is_utf8, is_utf8_done}

-- The defaults of `Load`; a ratio is a number of thousandths.
abbrev defaults : ServiceConfig ℕ
defaults = record {
  addr = bytes ":8080";
  data_dir = bytes "./data";
  keys_file = bytes "./keys";
  workers = pos 32;
  host_concurrency = pos 8;
  queue_max = pos 100000;
  tasks_max = pos 500000;
  max_attempts = pos 24;
  base_backoff = pos 1000000000;
  backoff_cap = pos hour;
  timeout = pos 5000000000;
  deadline = pos (24 * hour);
  dial_timeout = pos 5000000000;
  retention = pos (168 * hour);
  dead_retention = pos (720 * hour);
  maintain_interval = pos minute;
  skew_tolerance = pos (5 * minute);
  shutdown_grace = pos 30000000000;
  compact_min_bytes = pos 67108864;
  compact_live_ratio = 500;
  strip_threshold = pos 1000;
  allow_private_hosts = false;
}

defaults-IsValid : IsValid defaults
defaults-IsValid = record {
  has_worker = omega arith;
  has_connection = omega arith;
  has_attempt = omega arith;
  has_room = inr (omega arith);
  keeps_dead = omega arith;
}

abbrev below : ℕ → ℕ → ℕ → Bool
below ratio live size = ltb (1000 * live) (ratio * size)

abbrev files : Bytes → Option Bytes × Bool × Bool
files path = (some (print_keys (entry ∷ [])), false, false)

abbrev disk : Bytes → Option Wal
disk dir = some (reopen killed written)

run-Sound_example :
    (v : Service) × (run sample_codec as_is below no_fault none_fails
        (defaults, check defaults)
        files
        disk
      ≡ serving v)
    × (v.keys ≡ entry ∷ [])
    × (pos v.settings.workers ≡ pos 32)
    × (1 ≤ v.settings.workers)
    × (pos v.settings.host_concurrency ≡ pos 8)
    × (1 ≤ v.settings.host_concurrency)
    × ((parse : Bytes → Option Url) (s : System)
        → Reach sample_codec v.settings parse v.system.queue s
        → Sound v.settings s)
run-Sound_example =
    run-Sound sample_codec as_is below none_fails defaults (entry ∷ []) files disk
      ([] ++ enqueue ∷ []) ([] ++ other_done ∷ []) killed written defaults-IsValid refl
      (load_keys-print_keys as_is entry [] (entry-IsEntry, tt) alone) refl
      (is_utf8, refl, (is_utf8_done, refl, tt)) (λ id e. refl, (λ id e. refl, tt)) written-IsJournal
