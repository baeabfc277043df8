-- ===== src/Dispatch/RetryAfter.antt =====
-- `ParseRetryAfter` and `clampWindow` of internal/dispatch/backoff.go, with the wrap-around of
-- `time.Duration(secs)*time.Second` in int64 written out.
use rc_wnzzer.Base.{
  ℕ, zero, suc, ◌+◌, ◌-◌, ◌*◌, ◌%◌, ◌^◌, ◌≤◌, ◌<◌, ◌≡◌, refl, Bool, true, false, ◌&&◌, Bytes,
  Option, none, some, Option-cases, [], ◌∷◌, ltb, leb, ◌==◌, if◌then◌else◌, arith, inl, inr,
}
use rc_wnzzer.Dispatch.Backoff.{min_delay}

-- An int64; `neg n` stands for -n.
pub data Int64 : Type 0 where
  pos neg : ℕ → Int64

-- The int64 with the given bits.
abbrev pub wrap64 : ℕ → Int64
wrap64 n = let bits = n % 2 ^ 64 in if ltb bits (2 ^ 63) then pos bits else neg (2 ^ 64 - bits)

abbrev pub is_digit : ℕ → Bool
is_digit b = leb b'0' b && leb b b'9'

-- The value of a run of decimal digits behind a value.
unfoldable pub digits_from : ℕ → Bytes → Option ℕ
digits_from n [] = some n
digits_from n (b ∷ s) =
    let rest = digits_from (n * 10 + (b - b'0')) s in if is_digit b then rest else none

digits : Bytes → Option ℕ
digits [] = none
digits (b ∷ s) = digits_from 0 (b ∷ s)

in_range : Bool → ℕ → Option Int64
in_range true n = if leb n (2 ^ 63) then some (neg n) else none
in_range false n = if ltb n (2 ^ 63) then some (pos n) else none

signed : Bool → Bytes → Option Int64
unfolding in_range digits
signed minus s = elim (digits s) [ none ↦ none | some n ↦ in_range minus n ]

-- `strconv.Atoi`; `none` is its error.
unfoldable pub atoi : Bytes → Option Int64
unfolding signed
atoi [] = none
atoi (b ∷ s) =
    if b == b'-' then signed true s else if b == b'+' then signed false s else signed false (b ∷ s)

-- `clampWindow`
unfoldable pub clamp_window : Int64 → ℕ → ℕ
clamp_window (neg d) max_window = min_delay
clamp_window (pos d) max_window =
    if ltb max_window d then max_window else if ltb d min_delay then min_delay else d

abbrev pub second : ℕ
second = 1000000000

-- A value that `Atoi` accepts.
from_seconds : Int64 → ℕ → Option ℕ
unfolding clamp_window
from_seconds (neg zero) max_window = some (clamp_window (pos 0) max_window)
from_seconds (neg (suc n)) max_window = none
from_seconds (pos secs) max_window = some (clamp_window (wrap64 (secs * second)) max_window)

-- A date that `http.ParseTime` accepts, as the time until then.
from_date : Int64 → ℕ → Option ℕ
from_date (neg d) max_window = none
from_date (pos zero) max_window = none
from_date (pos (suc d)) max_window = some (clamp_window (pos (suc d)) max_window)

-- `ParseRetryAfter` on the header's value; `until` is `http.ParseTime` and the subtraction of `now`.
-- `none` is the result `false`.
unfoldable pub parse_retry_after : (Bytes → Option Int64) → Bytes → ℕ → Option ℕ
unfolding from_seconds from_date
parse_retry_after until [] max_window = none
parse_retry_after until (b ∷ v) max_window = elim (atoi (b ∷ v)) [
  | some secs ↦ from_seconds secs max_window
  | none ↦ elim (until (b ∷ v)) [ none ↦ none | some d ↦ from_date d max_window ]
]

clamp_window_bounds :
    (d : Int64) (max_window : ℕ)
    → min_delay ≤ max_window
    → (min_delay ≤ clamp_window d max_window) × (clamp_window d max_window ≤ max_window)
unfolding clamp_window
clamp_window_bounds (neg d) max_window h = ground arith
clamp_window_bounds (pos d) max_window h = ground arith

seconds_bounds :
    (n : Int64) (max_window d : ℕ)
    → min_delay ≤ max_window
    → from_seconds n max_window ≡ some d
    → (min_delay ≤ d) × (d ≤ max_window)
unfolding from_seconds
seconds_bounds (neg zero) max_window d h e = ground (arith, e)
seconds_bounds (neg (suc n)) max_window d h e = ground (arith, e)
seconds_bounds (pos secs) max_window d h e =
    let b = clamp_window_bounds (wrap64 (secs * second)) max_window h in ground (arith, e, b)

date_bounds :
    (n : Int64) (max_window d : ℕ)
    → min_delay ≤ max_window
    → from_date n max_window ≡ some d
    → (min_delay ≤ d) × (d ≤ max_window)
unfolding from_date
date_bounds (neg n) max_window d h e = ground (arith, e)
date_bounds (pos zero) max_window d h e = ground (arith, e)
date_bounds (pos (suc n)) max_window d h e =
    let b = clamp_window_bounds (pos (suc n)) max_window h in ground (arith, e, b)

atoi_empty : atoi [] ≡ none
unfolding atoi
atoi_empty = refl

-- A delay taken from a Retry-After header lies between `min_delay` and the cap, whatever the
-- header says, if the cap is not below `min_delay`.
pub retry_after_bounds :
    (until : Bytes → Option Int64) (v : Bytes) (max_window d : ℕ)
    → min_delay ≤ max_window
    → parse_retry_after until v max_window ≡ some d
    → (min_delay ≤ d) × (d ≤ max_window)
unfolding parse_retry_after
retry_after_bounds until [] max_window d h e = ground arith
retry_after_bounds until (b ∷ v) max_window d h e = elim (Option-cases (atoi (b ∷ v))) [
  | inr (n, a) ↦ seconds_bounds n max_window d h (ground (arith, a, e))
  | inl a ↦ elim (Option-cases (until (b ∷ v))) [
    | inr (n, u) ↦ date_bounds n max_window d h (ground (arith, a, u, e))
    | inl u ↦ absurd (ground (arith, a, u, e))
  ]
]

-- A header that is a number of seconds asks for that many seconds, clamped, as long as these in
-- nanoseconds fit into int64; for the next larger numbers, up to 2^64 nanoseconds, the product wraps
-- to a negative one and the delay is `min_delay`.
pub retry_after_seconds :
    (until : Bytes → Option Int64) (v : Bytes) (max_window secs : ℕ)
    → atoi v ≡ some (pos secs)
    → secs * second < 2 ^ 64
    → parse_retry_after until v max_window
      ≡ some (
          if ltb (secs * second) (2 ^ 63)
          then clamp_window (pos (secs * second)) max_window
          else min_delay)
unfolding parse_retry_after
retry_after_seconds until [] max_window secs e h = ground (arith, atoi_empty, e)
retry_after_seconds until (b ∷ v) max_window secs e h = ground (arith, e, h)
