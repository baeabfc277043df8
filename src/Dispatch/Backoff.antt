-- ===== src/Dispatch/Backoff.antt =====
-- `Backoff` of internal/dispatch/backoff.go. Durations are nanoseconds, each as the word of 64 bits
-- that int64 is; a word from 2^63 on is a negative number.
use native.Mathlib.Nat.{one-le-pow, pow-suc}
use rc_wnzzer.Base.{
  ℕ, zero, suc, ◌+◌, ◌-◌, ◌*◌, ◌^◌, ◌≤◌, ◌<◌, ◌≡◌, ◌⊎◌, ◌%◌, ◌&&◌, Bool, ◌∙◌, ap, ltb, leb,
  if◌then◌else◌, arith, Bool-cases, inl, inr,
}

-- `minDelay`, 100 ms
abbrev pub min_delay : ℕ
min_delay = 100000000

-- `window >= maxWindow`, for a maximal window that is not negative
abbrev pub is_capped : (max_window window : ℕ) → Bool
is_capped max_window window = ltb window (2 ^ 63) && leb max_window window

-- The loop over i; the first argument is the rounds left.
unfoldable pub grow : ℕ → (max_window window : ℕ) → ℕ
grow zero max_window window = window
grow (suc k) max_window window =
    let rest = grow k max_window (window * 2 % 2 ^ 64) in
    if is_capped max_window window then window else rest

-- `window > maxWindow` bounds the window.
abbrev pub clip : ℕ → ℕ → ℕ
clip max_window d = if ltb d (2 ^ 63) && ltb max_window d then max_window else d

-- The window after the given attempt, 1 standing for anything below.
unfoldable pub window_of : (attempt base max_window : ℕ) → ℕ
window_of attempt base max_window = clip max_window (grow (attempt - 1) max_window base)

-- `Backoff`; `rand n` is what `rand.Int64N(n)` returns, which panics unless n is positive as an int64:
-- what `rand` has for another n stands for nothing.
unfoldable pub backoff : (ℕ → ℕ) → (attempt base max_window : ℕ) → ℕ
backoff rand attempt base max_window =
    let d = rand ((window_of attempt base max_window + 1) % 2 ^ 64) in
    if ltb d min_delay then min_delay else d

-- The lesser of two numbers.
abbrev pub least : ℕ → ℕ → ℕ
least a b = if ltb a b then a else b

pow_pos : (k : ℕ) → 1 ≤ 2 ^ k
pow_pos k = one-le-pow k 2 (omega arith)

clip-grow :
    (k max_window window : ℕ)
    → max_window ≤ 2 ^ 62
    → window < 2 ^ 63
    → clip max_window (grow k max_window window) ≡ least max_window (window * 2 ^ k)
unfolding grow
clip-grow zero max_window window top small =
    let one : window * 2 ^ 0 ≡ window = omega arith in rw (one) (ground (arith, small))
clip-grow (suc k) max_window window top small =
    let doubled : window * 2 * 2 ^ k ≡ window * 2 ^ suc k = rw (pow-suc 2 k) (grind arith) in
    let larger : window ≤ window * 2 ^ suc k = grind (arith, pow_pos (suc k)) in
    elim (Bool-cases (is_capped max_window window)) [
      | inl stop ↦ rw (stop) (ground (arith, stop, larger, small))
      | inr go ↦
          let below : window < max_window = ground (arith, go, small) in
          let same : window * 2 % 2 ^ 64 ≡ window * 2 = omega (arith, below, top) in
          rw (go, same)
            (clip-grow k max_window (window * 2) top (omega (arith, below, top))
              ∙ ap (least max_window) doubled)
    ]

-- The window doubles with each attempt up to the cap.
pub window_of_lem :
    (attempt base max_window : ℕ)
    → max_window ≤ 2 ^ 62
    → base < 2 ^ 63
    → window_of attempt base max_window ≡ least max_window (base * 2 ^ (attempt - 1))
unfolding window_of
window_of_lem attempt base max_window top small = clip-grow (attempt - 1) max_window base top small

-- If the cap is at most 2^62 ns, the base an int64 that is not negative, and the random number below a
-- positive int64 n below n, then the wait is at least `min_delay`, and at most that or the window,
-- which doubles with each attempt up to the cap; and the random number is asked for below a positive
-- int64.
pub backoff_bounds :
    (rand : ℕ → ℕ) (attempt base max_window : ℕ)
    → max_window ≤ 2 ^ 62
    → base < 2 ^ 63
    → ((n : ℕ) → 0 < n → n < 2 ^ 63 → rand n < n)
    → let d = backoff rand attempt base max_window in
      let n = (window_of attempt base max_window + 1) % 2 ^ 64 in
      (min_delay ≤ d)
      × ((d ≤ min_delay) ⊎ (d ≤ least max_window (base * 2 ^ (attempt - 1))))
      × (0 < n)
      × (n < 2 ^ 63)
unfolding backoff
backoff_bounds rand attempt base max_window top small law =
    let w = window_of attempt base max_window in
    let same = window_of_lem attempt base max_window top small in
    let bound : w ≤ max_window = rw (same) (ground arith) in
    let n : (w + 1) % 2 ^ 64 ≡ w + 1 = omega (arith, bound, top) in
    let below : rand (w + 1) < w + 1 = law (w + 1) (omega arith) (omega (arith, bound, top)) in
    rw (n) (ground (arith, same, below, bound, top))
