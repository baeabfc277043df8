-- ===== src/Metrics/Counters.antt =====
-- The maps of counters in internal/metrics/metrics.go, whatever their keys, and their sorted keys.
use rc_wnzzer.Base.{
  ℕ, ◌+◌, ◌≡◌, refl, sym, ap, ◌∙◌, ◌||◌, Bytes, List, [], ◌∷◌, ◌++◌, ltb, Order, contains,
  IsDistinct, sort, sort_unique, if◌then◌else◌, arith,
}

-- `map[K]int64` as an association list, whose order stands for the order of one iteration.
abbrev pub Tally : Type 0 → Type 0
Tally K = List (K × ℕ)

module _ {K : Type 0} ⦃o : Order K⦄ where
  -- m[k]
  unfoldable pub count : K → Tally K → ℕ
  count k [] = 0
  count k ((j, n) ∷ m) = if o.same j k then n else count k m

  -- m[k]++
  unfoldable pub increment : K → Tally K → Tally K
  increment k [] = (k, 1) ∷ []
  increment k ((j, n) ∷ m) = if o.same j k then (j, n + 1) ∷ m else (j, n) ∷ increment k m

  unfoldable pub tally_keys : Tally K → List K
  tally_keys [] = []
  tally_keys ((j, n) ∷ m) = j ∷ tally_keys m

  -- `sortedKeys` and `sortedIntKeys`
  unfoldable pub sorted_keys : Tally K → List K
  unfolding tally_keys sort
  sorted_keys m = sort (tally_keys m)

  -- A line for each key, in the order of the keys.
  unfoldable pub lines_of : (K → ℕ → Bytes) → List K → Tally K → Bytes
  lines_of line [] m = []
  lines_of line (k ∷ ks) m = line k (count k m) ++ lines_of line ks m

  -- What holds of a map that is written by increments only.
  pub record IsTally (m : Tally K) : Type 0 where
    pub distinct : IsDistinct (tally_keys m)
    pub positive : (k : K) → contains (tally_keys m) k ≡ ltb 0 (count k m)

  pub count-increment :
      (k j : K) (m : Tally K)
      → count j (increment k m) ≡ (if o.same k j then count j m + 1 else count j m)
  unfolding count increment
  count-increment k j [] = ground arith
  count-increment k j ((i, n) ∷ m) =
      ground (arith, count-increment k j m, o.same_iff i k, o.same_iff i j, o.same_iff k j)

  contains-increment :
      (k j : K) (m : Tally K)
      → contains (tally_keys (increment k m)) j ≡ (o.same k j || contains (tally_keys m) j)
  unfolding increment tally_keys contains
  contains-increment k j [] = refl
  contains-increment k j ((i, n) ∷ m) =
      ground (arith, contains-increment k j m, o.same_iff i k, o.same_iff i j, o.same_iff k j)

  increment-IsDistinct :
      (k : K) (m : Tally K) → IsDistinct (tally_keys m) → IsDistinct (tally_keys (increment k m))
  unfolding increment tally_keys contains
  increment-IsDistinct k [] d = (refl, tt)
  increment-IsDistinct k ((i, n) ∷ m) d = ground (
    arith,
    d.0,
    d.1,
    contains-increment k i m,
    o.same_iff i k,
    o.same_iff k i,
    increment-IsDistinct k m d.1,
  )

  pub empty-IsTally : IsTally []
  unfolding tally_keys contains count
  empty-IsTally = record { distinct = tt; positive = λ k. refl }

  pub increment-IsTally : (k : K) (m : Tally K) → IsTally m → IsTally (increment k m)
  increment-IsTally k m t = record {
    distinct = increment-IsDistinct k m t.distinct;
    positive = λ j. ground (arith, contains-increment k j m, count-increment k j m, t.positive j);
  }

  lines_of-agree :
      (line : K → ℕ → Bytes) (ks : List K) (m m' : Tally K)
      → ((k : K) → count k m ≡ count k m')
      → lines_of line ks m ≡ lines_of line ks m'
  unfolding lines_of
  lines_of-agree line [] m m' e = refl
  lines_of-agree line (k ∷ ks) m m' e =
      ap (λ n. line k n ++ lines_of line ks m) (e k)
      ∙ ap (λ s. line k (count k m') ++ s) (lines_of-agree line ks m m' e)

  -- Two maps with the same counts are written alike, whatever the order of an iteration.
  pub sorted_lines-agree :
      (line : K → ℕ → Bytes) (m m' : Tally K)
      → IsTally m
      → IsTally m'
      → ((k : K) → count k m ≡ count k m')
      → lines_of line (sorted_keys m) m ≡ lines_of line (sorted_keys m') m'
  unfolding sorted_keys
  sorted_lines-agree line m m' t t' e =
      let same : sorted_keys m ≡ sorted_keys m' =
        sort_unique (tally_keys m) (tally_keys m') t.distinct t'.distinct
          (λ k. t.positive k ∙ ap (ltb 0) (e k) ∙ sym (t'.positive k)) in
      ap (λ ks. lines_of line ks m) same ∙ lines_of-agree line (sorted_keys m') m m' e
