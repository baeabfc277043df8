-- ===== src/Metrics/Counted.antt =====
-- What the counters of internal/metrics/metrics.go say after any calls.
use rc_wnzzer.Base.{
  ℕ, zero, suc, ◌+◌, ◌≡◌, refl, Bool, true, false, bit, Bytes, some, List, [], ◌∷◌, length,
  get_elem?, leb, ltb, text_order, number_order, if◌then◌else◌, arith,
}
use rc_wnzzer.Metrics.Counters.{
  Tally, count, increment, count-increment, IsTally, empty-IsTally, increment-IsTally,
}
use rc_wnzzer.Metrics.{
  buckets, Registry, zeros, fill, Observed, submission, attempt, observe, observe_all, how_many,
  submitted_as, is_attempt, ended_as, answered, took_at_most,
}

get_elem?-fill :
    (d : ℕ) (bounds counts : List ℕ) (i b n : ℕ)
    → get_elem? bounds i ≡ some b
    → get_elem? counts i ≡ some n
    → get_elem? (fill d bounds counts) i ≡ some (bit (leb d b) + n)
unfolding fill
get_elem?-fill d [] counts i b n e f = absurd (ground (arith, e))
get_elem?-fill d (c ∷ bounds) [] i b n e f = absurd (ground (arith, f))
get_elem?-fill d (c ∷ bounds) (m ∷ counts) zero b n e f = ground (arith, e, f)
get_elem?-fill d (c ∷ bounds) (m ∷ counts) (suc i) b n e f =
    get_elem?-fill d bounds counts i b n e f

get_elem?-zeros :
    (xs : List ℕ) (i b : ℕ) → get_elem? xs i ≡ some b → get_elem? (zeros xs) i ≡ some 0
get_elem?-zeros [] i b e = absurd (ground (arith, e))
get_elem?-zeros (x ∷ xs) zero b e = refl
get_elem?-zeros (x ∷ xs) (suc i) b e = get_elem?-zeros xs i b e

module _ {F : Type 0} (nothing : F) (add_seconds : F → ℕ → F) where
  -- What the counters say of the calls.
  pub record Tallied (os : List Observed) (r : Registry F) : Type 0 where
    pub submits : (result : Bytes) → count result r.submitted ≡ how_many (submitted_as result) os
    pub ends : (outcome : Bytes) → count outcome r.attempts ≡ how_many (ended_as outcome) os
    pub answers : (code : ℕ) → count code r.codes ≡ how_many (answered code) os
    pub all : r.hist_total ≡ how_many is_attempt os
    pub times :
        (i b : ℕ)
        → get_elem? buckets i ≡ some b
        → get_elem? r.hist_counts i ≡ some (how_many (took_at_most b) os)

  -- After any calls, the counter of each result, of each outcome and of each code counts the calls
  -- with it, a code of 0 apart; the total counts the attempts, and the bucket at each bound those that
  -- took no longer.
  pub observe_all-Tallied : (os : List Observed) → Tallied os (observe_all nothing add_seconds os)
  unfolding observe_all observe how_many count
  observe_all-Tallied [] = record {
    submits = λ s. refl;
    ends = λ s. refl;
    answers = λ n. refl;
    all = refl;
    times = λ i b e. get_elem?-zeros buckets i b e;
  }
  observe_all-Tallied (submission result ∷ os) =
      let c = observe_all-Tallied os in
      let r = observe_all nothing add_seconds os in
      record {
        submits = λ s. ground (arith, count-increment result s r.submitted, c.submits s);
        ends = λ s. omega (arith, c.ends s);
        answers = λ n. omega (arith, c.answers n);
        all = omega (arith, c.all);
        times = λ i b e. ground (arith, c.times i b e);
      }
  observe_all-Tallied (attempt outcome code d ∷ os) =
      let c = observe_all-Tallied os in
      let r = observe_all nothing add_seconds os in
      record {
        submits = λ s. omega (arith, c.submits s);
        ends = λ s. ground (arith, count-increment outcome s r.attempts, c.ends s);
        answers = λ n. ground (arith, count-increment code n r.codes, c.answers n);
        all = omega (arith, c.all);
        times = λ i b e. get_elem?-fill d buckets r.hist_counts i b _ e (c.times i b e);
      }

  pub record AllTallies (r : Registry F) : Type 0 where
    pub submitted : IsTally r.submitted
    pub attempts : IsTally r.attempts
    pub codes : IsTally r.codes
    pub as_many : length r.hist_counts ≡ length buckets

  length-fill :
      (d : ℕ) (bounds counts : List ℕ)
      → length counts ≡ length bounds
      → length (fill d bounds counts) ≡ length bounds
  unfolding fill
  length-fill d [] counts e = e
  length-fill d (b ∷ bounds) [] e = e
  length-fill d (b ∷ bounds) (n ∷ counts) e =
      omega (arith, length-fill d bounds counts (omega (arith, e)))

  pub observe_all-AllTallies :
      (os : List Observed) → AllTallies (observe_all nothing add_seconds os)
  unfolding observe_all observe
  observe_all-AllTallies [] = record {
    submitted = empty-IsTally;
    attempts = empty-IsTally;
    codes = empty-IsTally;
    as_many = refl;
  }
  observe_all-AllTallies (submission result ∷ os) =
      let t = observe_all-AllTallies os in
      record {
        submitted = increment-IsTally result _ t.submitted;
        attempts = t.attempts;
        codes = t.codes;
        as_many = t.as_many;
      }
  observe_all-AllTallies (attempt outcome code d ∷ os) =
      let t = observe_all-AllTallies os in
      record {
        submitted = t.submitted;
        attempts = increment-IsTally outcome _ t.attempts;
        codes = counted (ltb 0 code) _ t.codes;
        as_many = length-fill d buckets _ t.as_many;
      }
    where
      counted : (b : Bool) (m : Tally ℕ) → IsTally m → IsTally (if b then increment code m else m)
      counted true m t = increment-IsTally code m t
      counted false m t = t
