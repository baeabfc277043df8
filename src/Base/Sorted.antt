-- ===== src/Base/Sorted.antt =====
-- Orders, and lists sorted by one: a list of distinct elements is sorted in one way only.
use Prim.Native.Nat.{ℕ}
use mathlib.Core.Path.{◌≡◌, refl, sym, ap, ◌∙◌}
use mathlib.Core.Logic.{◌↔◌, inl, inr}
use mathlib.Core.Bool.{Bool, true, false, ◌&&◌, ◌||◌}
use mathlib.Core.List.{List, [], ◌∷◌}
use native.Mathlib.Omega.{arith}
use rc_wnzzer.Base.Tests.{◌==◌, ltb, if◌then◌else◌, Bool-cases}
use rc_wnzzer.Base.Text.{Bytes, str_eq, eq_iff}

-- The order of texts, byte by byte.
abbrev pub str_less : Bytes → Bytes → Bool
str_less s [] = false
str_less [] (y ∷ t) = true
str_less (x ∷ s) (y ∷ t) = ltb x y || ((x == y) && str_less s t)

pub record Order (K : Type 0) : Type 0 where
  pub same : K → K → Bool
  pub precedes : K → K → Bool
  pub same_iff : (a b : K) → (same a b ≡ true) ↔ (a ≡ b)
  pub irreflexive : (a : K) → precedes a a ≡ false
  pub transitive : (a b d : K) → precedes a b ≡ true → precedes b d ≡ true → precedes a d ≡ true
  pub total : (a b : K) → same a b ≡ false → precedes a b ≡ false → precedes b a ≡ true

pub str_less-irreflexive : (s : Bytes) → str_less s s ≡ false
str_less-irreflexive [] = refl
str_less-irreflexive (x ∷ s) = ground (arith, str_less-irreflexive s)

pub str_less_trans :
    (s t u : Bytes) → str_less s t ≡ true → str_less t u ≡ true → str_less s u ≡ true
str_less_trans s [] u h k = absurd (ground (arith, h))
str_less_trans s (y ∷ t) [] h k = absurd (ground (arith, k))
str_less_trans [] (y ∷ t) (z ∷ u) h k = refl
str_less_trans (x ∷ s) (y ∷ t) (z ∷ u) h k = ground (arith, h, k, str_less_trans s t u)

pub str_less-total : (s t : Bytes) → str_eq s t ≡ false → str_less s t ≡ false → str_less t s ≡ true
str_less-total [] [] h k = absurd (ground (arith, h))
str_less-total [] (y ∷ t) h k = absurd (ground (arith, k))
str_less-total (x ∷ s) [] h k = refl
str_less-total (x ∷ s) (y ∷ t) h k = ground (arith, h, k, str_less-total s t)

instance abbrev pub text_order : Order Bytes
text_order = record {
  same = str_eq;
  precedes = str_less;
  same_iff = eq_iff;
  irreflexive = str_less-irreflexive;
  transitive = str_less_trans;
  total = str_less-total;
}

pub number_iff : (a b : ℕ) → ((a == b) ≡ true) ↔ (a ≡ b)
number_iff a b = (λ h. ground (arith, h), λ e. ground (arith, e))

pub ltb-irreflexive : (a : ℕ) → ltb a a ≡ false
ltb-irreflexive a = ground arith

pub ltb_trans : (a b d : ℕ) → ltb a b ≡ true → ltb b d ≡ true → ltb a d ≡ true
ltb_trans a b d h k = ground (arith, h, k)

pub ltb-total : (a b : ℕ) → (a == b) ≡ false → ltb a b ≡ false → ltb b a ≡ true
ltb-total a b h k = ground (arith, h, k)

instance abbrev pub number_order : Order ℕ
number_order = record {
  same = ◌==◌;
  precedes = ltb;
  same_iff = number_iff;
  irreflexive = ltb-irreflexive;
  transitive = ltb_trans;
  total = ltb-total;
}

module _ {K : Type 0} ⦃o : Order K⦄ where
  unfoldable pub contains : List K → K → Bool
  contains [] k = false
  contains (x ∷ xs) k = o.same x k || contains xs k

  -- `sort.Strings` and `sort.Ints`
  unfoldable pub sort_in : K → List K → List K
  sort_in k [] = k ∷ []
  sort_in k (x ∷ xs) = if o.precedes x k then x ∷ sort_in k xs else k ∷ x ∷ xs

  unfoldable pub sort : List K → List K
  sort [] = []
  sort (x ∷ xs) = sort_in x (sort xs)

  abbrev IsBelow : K → List K → Type 0
  IsBelow k [] = Unit
  IsBelow k (x ∷ xs) = (o.precedes k x ≡ true) × IsBelow k xs

  abbrev IsSorted : List K → Type 0
  IsSorted [] = Unit
  IsSorted (x ∷ xs) = IsBelow x xs × IsSorted xs

  abbrev pub IsDistinct : List K → Type 0
  IsDistinct [] = Unit
  IsDistinct (x ∷ xs) = (contains xs x ≡ false) × IsDistinct xs

  IsBelow-trans : (a b : K) (xs : List K) → o.precedes a b ≡ true → IsBelow b xs → IsBelow a xs
  IsBelow-trans a b [] h p = tt
  IsBelow-trans a b (x ∷ xs) h p = (o.transitive a b x h p.0, IsBelow-trans a b xs h p.1)

  IsBelow-sort_in :
      (a k : K) (xs : List K) → o.precedes a k ≡ true → IsBelow a xs → IsBelow a (sort_in k xs)
  unfolding sort_in
  IsBelow-sort_in a k [] h p = (h, tt)
  IsBelow-sort_in a k (x ∷ xs) h p = elim (Bool-cases (o.precedes x k)) [
    | inl before ↦ rw (before) (p.0, IsBelow-sort_in a k xs h p.1)
    | inr after ↦ rw (after) (h, p)
  ]

  sort_in-IsSorted :
      (k : K) (xs : List K) → contains xs k ≡ false → IsSorted xs → IsSorted (sort_in k xs)
  unfolding sort_in contains
  sort_in-IsSorted k [] n s = (tt, tt)
  sort_in-IsSorted k (x ∷ xs) n s = elim (Bool-cases (o.precedes x k)) [
    | inl before ↦
        rw (before)
          (IsBelow-sort_in x k xs before s.0, sort_in-IsSorted k xs (ground (arith, n)) s.1)
    | inr after ↦
        let first : o.precedes k x ≡ true = o.total x k (ground (arith, n)) after in
        rw (after) ((first, IsBelow-trans k x xs first s.0), s)
  ]

  contains-sort_in :
      (k : K) (xs : List K) (j : K) → contains (sort_in k xs) j ≡ (o.same k j || contains xs j)
  unfolding sort_in contains
  contains-sort_in k [] j = refl
  contains-sort_in k (x ∷ xs) j = ground (arith, contains-sort_in k xs j)

  contains-sort : (xs : List K) (j : K) → contains (sort xs) j ≡ contains xs j
  unfolding sort contains
  contains-sort [] j = refl
  contains-sort (x ∷ xs) j = ground (arith, contains-sort_in x (sort xs) j, contains-sort xs j)

  sort-IsSorted : (xs : List K) → IsDistinct xs → IsSorted (sort xs)
  unfolding sort
  sort-IsSorted [] d = tt
  sort-IsSorted (x ∷ xs) d =
      sort_in-IsSorted x (sort xs) (contains-sort xs x ∙ d.0) (sort-IsSorted xs d.1)

  below-ne-contains : (k : K) (xs : List K) → IsBelow k xs → contains xs k ≡ false
  unfolding contains
  below-ne-contains k [] p = refl
  below-ne-contains k (x ∷ xs) p =
      ground (arith, p.0, o.same_iff x k, o.irreflexive k, below-ne-contains k xs p.1)

  head_contained : (x : K) (xs : List K) → contains (x ∷ xs) x ≡ true
  unfolding contains
  head_contained x xs = ground (arith, o.same_iff x x)

  -- Nothing in a sorted list is below its head.
  below_head :
      (x y : K) (ys : List K)
      → IsSorted (y ∷ ys)
      → o.precedes x y ≡ true
      → contains (y ∷ ys) x ≡ false
  below_head x y ys s h = below-ne-contains x (y ∷ ys) (h, IsBelow-trans x y ys h s.0)

  heads :
      (x y : K) (xs ys : List K)
      → IsSorted (x ∷ xs)
      → IsSorted (y ∷ ys)
      → ((k : K) → contains (x ∷ xs) k ≡ contains (y ∷ ys) k)
      → x ≡ y
  heads x y xs ys s t e = elim (Bool-cases (o.same x y)) [
    | inl eq ↦ (o.same_iff x y).0 eq
    | inr ne ↦ elim (Bool-cases (o.precedes x y)) [
      | inl low ↦ absurd (ground (arith, e x, head_contained x xs, below_head x y ys t low))
      | inr high ↦
          absurd
            (ground (arith, e y, head_contained y ys, below_head y x xs s (o.total x y ne high)))
    ]
  ]

  sorted_unique :
      (xs ys : List K)
      → IsSorted xs
      → IsSorted ys
      → ((k : K) → contains xs k ≡ contains ys k)
      → xs ≡ ys
  unfolding contains
  sorted_unique [] [] s t e = refl
  sorted_unique [] (y ∷ ys) s t e = absurd (ground (arith, e y, head_contained y ys))
  sorted_unique (x ∷ xs) [] s t e = absurd (ground (arith, e x, head_contained x xs))
  sorted_unique (x ∷ xs) (y ∷ ys) s t e =
      let same = heads x y xs ys s t e in
      let tails = sorted_unique xs ys s.1 t.1 (λ k. ground (
        arith,
        e k,
        same,
        o.same_iff x k,
        o.same_iff y k,
        below-ne-contains x xs s.0,
        below-ne-contains y ys t.0,
      )) in
      ap (λ z. z ∷ xs) same ∙ ap (◌∷◌ y) tails

  -- Two lists of the same distinct elements are sorted alike.
  pub sort_unique :
      (xs ys : List K)
      → IsDistinct xs
      → IsDistinct ys
      → ((k : K) → contains xs k ≡ contains ys k)
      → sort xs ≡ sort ys
  sort_unique xs ys d e h =
      sorted_unique (sort xs) (sort ys) (sort-IsSorted xs d) (sort-IsSorted ys e)
        (λ k. contains-sort xs k ∙ h k ∙ sym (contains-sort ys k))
