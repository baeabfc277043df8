-- ===== src/Examples/Attempts.antt =====
-- Deliveries, delays and outcomes at concrete inputs.
use rc_wnzzer.Base.{
  ℕ, ◌*◌, ◌-◌, ◌^◌, ◌+◌, ◌%◌, ◌≤◌, ◌<◌, ◌≡◌, ◌⊎◌, refl, Bytes, bytes, Option, none, some, ltb,
  if◌then◌else◌, arith,
}
use rc_wnzzer.Dispatch.Backoff.{min_delay, least, window_of, backoff, backoff_bounds}
use rc_wnzzer.Dispatch.RetryAfter.{
  Int64, pos, atoi, digits_from, second, clamp_window, parse_retry_after, retry_after_seconds,
}
use rc_wnzzer.Dispatch.Deliver.{Limits, Reply, Attempt}
use rc_wnzzer.Examples.Inputs.{io}

abbrev pub limits : Limits
limits = record {
  base_backoff = 200000000;
  max_backoff = 3000000000;
  default_max_attempts = 5;
  default_deadline = 60000000000;
}

abbrev busy : Reply
busy = record { code = 503; retry_after = some (bytes "2"); snippet = bytes "busy"; err = none }

abbrev least_random : ℕ → ℕ
least_random n = 0

abbrev no_date : Bytes → Option Int64
no_date s = none

abbrev pub failed : Attempt
failed = record {
  reply = busy;
  rand = least_random;
  until = no_date;
  now = 9;
  written_at = 9;
  io = io;
}

backoff_bounds_example :
    let d = backoff least_random 3 200000000 3000000000 in
    let n = (window_of 3 200000000 3000000000 + 1) % 2 ^ 64 in
    (min_delay ≤ d)
    × ((d ≤ min_delay) ⊎ (d ≤ least 3000000000 (200000000 * 2 ^ (3 - 1))))
    × (0 < n)
    × (n < 2 ^ 63)
backoff_bounds_example =
    backoff_bounds least_random 3 200000000 3000000000 (omega arith) (omega arith) (λ n p small. p)

two_seconds : parse_retry_after no_date (bytes "2") 3000000000 ≡ some 2000000000
unfolding parse_retry_after atoi digits_from
two_seconds = refl

huge : atoi (bytes "9999999999") ≡ some (pos 9999999999)
unfolding atoi digits_from
huge = refl

retry_after_seconds_example :
    parse_retry_after no_date (bytes "9999999999") 3000000000
    ≡ some (
        if ltb (9999999999 * second) (2 ^ 63)
        then clamp_window (pos (9999999999 * second)) 3000000000
        else min_delay)
retry_after_seconds_example =
    retry_after_seconds no_date (bytes "9999999999") 3000000000 9999999999 huge (omega arith)
