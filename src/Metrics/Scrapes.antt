-- ===== src/Metrics/Scrapes.antt =====
-- What a scrape of internal/metrics/metrics.go shows does not depend on orders that the program leaves
-- open: that of the calls, which come from concurrent workers and requests, and that of the maps.
use rc_wnzzer.Base.{
  ℕ, suc, ◌≡◌, refl, sym, ap, ◌∙◌, Bool, Bytes, bytes, some, List, [], ◌∷◌, ◌++◌, length, get_elem?,
  text_order, number_order, arith,
}
use rc_wnzzer.Dispatch.RetryAfter.{Int64}
use rc_wnzzer.Metrics.{
  Registry, buckets, Observed, observe_all, how_many, submitted_as, is_attempt, ended_as, answered,
  took_at_most,
}
use rc_wnzzer.Metrics.Counters.{count, sorted_lines-agree}
use rc_wnzzer.Metrics.Counted.{AllTallies, observe_all-Tallied, observe_all-AllTallies}
use rc_wnzzer.Metrics.Render.{
  Snapshot, counter_line, code_line, counter, render_queue, render_counters, render,
}

same_elements :
    (bounds xs ys : List ℕ)
    → length xs ≡ length bounds
    → length ys ≡ length bounds
    → ((i b : ℕ) → get_elem? bounds i ≡ some b → get_elem? xs i ≡ get_elem? ys i)
    → xs ≡ ys
same_elements [] [] [] e f h = refl
same_elements [] [] (y ∷ ys) e f h = absurd (omega (arith, f))
same_elements [] (x ∷ xs) ys e f h = absurd (omega (arith, e))
same_elements (b ∷ bounds) [] ys e f h = absurd (omega (arith, e))
same_elements (b ∷ bounds) (x ∷ xs) [] e f h = absurd (omega (arith, f))
same_elements (b ∷ bounds) (x ∷ xs) (y ∷ ys) e f h =
    let rest =
      same_elements bounds xs ys (omega (arith, e)) (omega (arith, f)) (λ i a g. h (suc i) a g) in
    let first : x ≡ y = ground (arith, h 0 b refl) in ap (λ z. z ∷ xs) first ∙ ap (◌∷◌ y) rest

module _ {F : Type 0} (nothing : F) (add_seconds : F → ℕ → F) (quote : Bytes → Bytes)
    (format_g : F → Bytes) (format_thousandths : Int64 → Bytes) where
  -- The counts of two registries are the same.
  record SameCounts (r r' : Registry F) : Type 0 where
    submitted : (k : Bytes) → count k r.submitted ≡ count k r'.submitted
    attempts : (k : Bytes) → count k r.attempts ≡ count k r'.attempts
    codes : (k : ℕ) → count k r.codes ≡ count k r'.codes
    hist_counts : r.hist_counts ≡ r'.hist_counts
    hist_total : r.hist_total ≡ r'.hist_total
    hist_sum : r.hist_sum ≡ r'.hist_sum

  render_counters-agree :
      (r r' : Registry F)
      → AllTallies nothing add_seconds r
      → AllTallies nothing add_seconds r'
      → SameCounts r r'
      → render_counters quote format_g format_thousandths r
        ≡ render_counters quote format_g format_thousandths r'
  unfolding render_counters counter
  render_counters-agree r r' t t' e =
      rw
        (
          sorted_lines-agree
              (counter_line quote format_g format_thousandths (bytes "notifyd_submitted_total")
                (bytes "result"))
              r.submitted r'.submitted t.submitted t'.submitted e.submitted,
          sorted_lines-agree
              (counter_line quote format_g format_thousandths (bytes "notifyd_attempts_total")
                (bytes "outcome"))
              r.attempts r'.attempts t.attempts t'.attempts e.attempts,
          sorted_lines-agree (code_line quote format_g format_thousandths) r.codes r'.codes t.codes
              t'.codes e.codes,
          e.hist_counts,
          e.hist_total,
          e.hist_sum,
        )
        refl

  -- If of two sequences of calls every kind of call stands as often in one as in the other, and the
  -- seconds add up to the same float, then a scrape shows the same text after both.
  pub render-order :
      (os os' : List Observed) (now : ℕ) (s : Snapshot)
      → ((f : Observed → Bool) → how_many f os ≡ how_many f os')
      → (observe_all nothing add_seconds os).hist_sum
        ≡ (observe_all nothing add_seconds os').hist_sum
      → render quote format_g format_thousandths now s (observe_all nothing add_seconds os)
        ≡ render quote format_g format_thousandths now s (observe_all nothing add_seconds os')
  unfolding render
  render-order os os' now s same sums =
      let r = observe_all nothing add_seconds os in
      let r' = observe_all nothing add_seconds os' in
      let c = observe_all-Tallied nothing add_seconds os in
      let c' = observe_all-Tallied nothing add_seconds os' in
      let t = observe_all-AllTallies nothing add_seconds os in
      let t' = observe_all-AllTallies nothing add_seconds os' in
      ap (◌++◌ (render_queue quote format_g format_thousandths now s)) (
        render_counters-agree r r' t t' (record {
          submitted = λ k. c.submits k ∙ same (submitted_as k) ∙ sym (c'.submits k);
          attempts = λ k. c.ends k ∙ same (ended_as k) ∙ sym (c'.ends k);
          codes = λ k. c.answers k ∙ same (answered k) ∙ sym (c'.answers k);
          hist_counts =
              same_elements buckets r.hist_counts r'.hist_counts t.as_many t'.as_many
                (λ i b e. c.times i b e ∙ ap some (same (took_at_most b)) ∙ sym (c'.times i b e));
          hist_total = c.all ∙ same is_attempt ∙ sym c'.all;
          hist_sum = sums;
        }))
