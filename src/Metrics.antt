-- ===== src/Metrics.antt =====
-- internal/metrics/metrics.go: the counters. A duration is a number of nanoseconds; the comparison of
-- its seconds with a bound is exact at the bounds used. The sum of the seconds is a float64, whose type
-- and addition are arguments.
pub mod Counters
pub mod Counted
pub mod Render
pub mod Scrapes
use rc_wnzzer.Base.{
  ℕ, zero, suc, ◌+◌, ◌<◌, ◌≡◌, refl, ◌∙◌, Bool, true, false, ◌&&◌, bit, Bytes, str_eq, some, List,
  [], ◌∷◌, map, length, get_elem?, leb, ltb, ◌==◌, text_order, number_order, if◌then◌else◌, arith,
}
use rc_wnzzer.Metrics.Counters.{
  Tally, count, increment, count-increment, IsTally, empty-IsTally, increment-IsTally,
}

-- `buckets`
abbrev pub buckets : List ℕ
buckets =
    50000000 ∷ 100000000 ∷ 250000000 ∷ 500000000 ∷ 1000000000 ∷ 2500000000 ∷ 5000000000
    ∷ 10000000000 ∷ []

-- `Registry`; F is float64.
pub record Registry (F : Type 0) : Type 0 where
  pub submitted : Tally Bytes
  pub attempts : Tally Bytes
  pub codes : Tally ℕ
  pub hist_counts : List ℕ
  pub hist_sum : F
  pub hist_total : ℕ

abbrev pub zeros : List ℕ → List ℕ
zeros bounds = map (λ b. 0) bounds

-- The loop over the buckets.
unfoldable pub fill : ℕ → (bounds counts : List ℕ) → List ℕ
fill d [] counts = counts
fill d (b ∷ bounds) [] = []
fill d (b ∷ bounds) (n ∷ counts) = (if leb d b then n + 1 else n) ∷ fill d bounds counts

-- One call of `ObserveSubmit`, or of `ObserveAttempt`.
pub data Observed : Type 0 where
  submission : (result : Bytes) → Observed
  attempt : (outcome : Bytes) (code elapsed : ℕ) → Observed

module _ {F : Type 0} (nothing : F) (add_seconds : F → ℕ → F) where
  -- `New`
  abbrev pub new_registry : Registry F
  new_registry = record {
    submitted = [];
    attempts = [];
    codes = [];
    hist_counts = zeros buckets;
    hist_sum = nothing;
    hist_total = 0;
  }

  -- `ObserveSubmit`
  unfoldable pub observe_submit : Bytes → Registry F → Registry F
  observe_submit result r = record r { submitted = increment result r.submitted }

  -- `ObserveAttempt`
  unfoldable pub observe_attempt : (outcome : Bytes) (code d : ℕ) → Registry F → Registry F
  unfolding fill
  observe_attempt outcome code d r = record r {
    attempts = increment outcome r.attempts;
    codes = if ltb 0 code then increment code r.codes else r.codes;
    hist_counts = fill d buckets r.hist_counts;
    hist_sum = add_seconds r.hist_sum d;
    hist_total = r.hist_total + 1;
  }

  unfoldable pub observe : Observed → Registry F → Registry F
  unfolding observe_submit observe_attempt
  observe (submission result) r = observe_submit result r
  observe (attempt outcome code d) r = observe_attempt outcome code d r

  -- The registry after some calls, the last one first.
  unfoldable pub observe_all : List Observed → Registry F
  observe_all [] = new_registry
  observe_all (o ∷ os) = observe o (observe_all os)

-- How many calls pass a test.
unfoldable pub how_many : (Observed → Bool) → List Observed → ℕ
how_many f [] = 0
how_many f (o ∷ os) = bit (f o) + how_many f os

abbrev pub submitted_as : Bytes → Observed → Bool
submitted_as result (submission s) = str_eq s result
submitted_as result (attempt outcome code d) = false

abbrev pub is_attempt : Observed → Bool
is_attempt (submission s) = false
is_attempt (attempt outcome code d) = true

abbrev pub ended_as : Bytes → Observed → Bool
ended_as outcome (submission s) = false
ended_as outcome (attempt outcome' code d) = str_eq outcome' outcome

-- A code of 0 stands for no answer.
abbrev pub answered : ℕ → Observed → Bool
answered code (submission s) = false
answered code (attempt outcome code' d) = ltb 0 code' && (code' == code)

abbrev pub took_at_most : ℕ → Observed → Bool
took_at_most b (submission s) = false
took_at_most b (attempt outcome code d) = leb d b
