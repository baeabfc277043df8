-- ===== src/Base/Lists.antt =====
-- Lists measured and indexed by native numbers, and how often a string stands in a list.
use Prim.Native.Nat.{ℕ, zero, suc, ◌+◌, ◌-◌, ◌≤◌, ◌<◌}
use mathlib.Core.Path.{◌≡◌, refl, ap, ◌∙◌}
use mathlib.Core.Bool.{Bool, true, false}
use mathlib.Core.List.{List, [], ◌∷◌, ◌++◌}
use mathlib.Core.Option.{Option, none, some}
use native.Mathlib.Omega.{arith}
use rc_wnzzer.Base.Tests.{◌==◌, if◌then◌else◌}
use rc_wnzzer.Base.Text.{Bytes, str_eq}

module _ {ℓ} {A : Type ℓ} where
  abbrev pub length : List A → ℕ
  length [] = 0
  length (x ∷ xs) = suc (length xs)

  abbrev pub get_elem? : List A → ℕ → Option A
  get_elem? [] i = none
  get_elem? (x ∷ xs) zero = some x
  get_elem? (x ∷ xs) (suc i) = get_elem? xs i

  -- A write out of bounds changes nothing.
  abbrev pub set : List A → ℕ → A → List A
  set [] i v = []
  set (x ∷ xs) zero v = v ∷ xs
  set (x ∷ xs) (suc i) v = x ∷ set xs i v

  abbrev pub take : ℕ → List A → List A
  take zero xs = []
  take (suc n) [] = []
  take (suc n) (x ∷ xs) = x ∷ take n xs

  abbrev pub drop : ℕ → List A → List A
  drop zero xs = xs
  drop (suc n) [] = []
  drop (suc n) (x ∷ xs) = drop n xs

  pub length-append : (xs ys : List A) → length (xs ++ ys) ≡ length xs + length ys
  length-append [] ys = omega arith
  length-append (x ∷ xs) ys = omega (arith, length-append xs ys)

  pub take-append-drop : (n : ℕ) (xs : List A) → take n xs ++ drop n xs ≡ xs
  take-append-drop zero xs = refl
  take-append-drop (suc n) [] = refl
  take-append-drop (suc n) (x ∷ xs) = ap (◌∷◌ x) (take-append-drop n xs)

  pub get_elem?-append :
      (xs ys : List A) (i : ℕ) → i < length xs → get_elem? (xs ++ ys) i ≡ get_elem? xs i
  get_elem?-append [] ys i h = absurd (omega arith)
  get_elem?-append (x ∷ xs) ys zero h = refl
  get_elem?-append (x ∷ xs) ys (suc i) h = get_elem?-append xs ys i (omega arith)

  pub get_elem?-take : (xs : List A) (n i : ℕ) → i < n → get_elem? (take n xs) i ≡ get_elem? xs i
  get_elem?-take xs zero i h = absurd (omega arith)
  get_elem?-take [] (suc n) i h = refl
  get_elem?-take (x ∷ xs) (suc n) zero h = refl
  get_elem?-take (x ∷ xs) (suc n) (suc i) h = get_elem?-take xs n i (omega arith)

  pub get_elem?-last :
      (xs : List A) (n : ℕ) (x : A)
      → length xs ≡ n + 1
      → get_elem? xs n ≡ some x
      → xs ≡ take n xs ++ x ∷ []
  get_elem?-last [] n x h e = absurd (omega arith)
  get_elem?-last (y ∷ []) zero x h e = ground arith
  get_elem?-last (y ∷ z ∷ xs) zero x h e = absurd (omega arith)
  get_elem?-last (y ∷ xs) (suc n) x h e = ap (◌∷◌ y) (get_elem?-last xs n x (omega arith) e)

  pub length-take : (xs : List A) (n : ℕ) → n ≤ length xs → length (take n xs) ≡ n
  length-take xs zero h = refl
  length-take [] (suc n) h = absurd (omega arith)
  length-take (x ∷ xs) (suc n) h = ap suc (length-take xs n (omega arith))

  pub length-set : (xs : List A) (i : ℕ) (v : A) → length (set xs i v) ≡ length xs
  length-set [] i v = refl
  length-set (x ∷ xs) zero v = refl
  length-set (x ∷ xs) (suc i) v = ap suc (length-set xs i v)

  pub get_elem?-set :
      (xs : List A) (i j : ℕ) (v : A)
      → i < length xs
      → get_elem? (set xs i v) j ≡ (if i == j then some v else get_elem? xs j)
  get_elem?-set [] i j v h = absurd (omega arith)
  get_elem?-set (x ∷ xs) zero zero v h = refl
  get_elem?-set (x ∷ xs) (suc i) (suc j) v h = ground (arith, get_elem?-set xs i j v)
  get_elem?-set (x ∷ xs) i j v h = ground arith

  pub take_all : (xs : List A) (n : ℕ) → length xs ≤ n → take n xs ≡ xs
  take_all [] zero h = refl
  take_all [] (suc n) h = refl
  take_all (x ∷ xs) zero h = absurd (omega arith)
  take_all (x ∷ xs) (suc n) h = ap (◌∷◌ x) (take_all xs n (omega arith))

  pub take-nil : (n : ℕ) → take n [] ≡ []
  take-nil zero = refl
  take-nil (suc n) = refl

  pub take_within : (xs ys : List A) (n : ℕ) → n ≤ length xs → take n (xs ++ ys) ≡ take n xs
  take_within xs ys zero h = refl
  take_within [] ys (suc n) h = absurd (omega arith)
  take_within (x ∷ xs) ys (suc n) h = ap (◌∷◌ x) (take_within xs ys n (omega arith))

  pub take-append :
      (xs ys : List A) (n : ℕ) → length xs ≤ n → take n (xs ++ ys) ≡ xs ++ take (n - length xs) ys
  take-append [] ys n h = ap (λ k. take k ys) (omega arith)
  take-append (x ∷ xs) ys zero h = absurd (omega arith)
  take-append (x ∷ xs) ys (suc n) h =
      ap (◌∷◌ x) (take-append xs ys n (omega arith) ∙ ap (λ k. xs ++ take k ys) (omega arith))

  pub take-take : (xs : List A) (m k : ℕ) → m ≤ k → take m (take k xs) ≡ take m xs
  take-take xs zero k h = refl
  take-take xs (suc m) zero h = absurd (omega arith)
  take-take [] (suc m) (suc k) h = refl
  take-take (x ∷ xs) (suc m) (suc k) h = ap (◌∷◌ x) (take-take xs m k (omega arith))

  pub take_prefix : (xs ys : List A) → take (length xs) (xs ++ ys) ≡ xs
  take_prefix xs ys =
      take_within xs ys (length xs) (omega arith) ∙ take_all xs (length xs) (omega arith)

abbrev pub bit : Bool → ℕ
bit true = 1
bit false = 0

-- How often a string stands in a list.
pub occurs : Bytes → List Bytes → ℕ
occurs a [] = 0
occurs a (x ∷ xs) = bit (str_eq x a) + occurs a xs

pub occurs-nil : (a : Bytes) → occurs a [] ≡ 0
unfolding occurs
occurs-nil a = refl

pub occurs-cons :
    (a x : Bytes) (xs : List Bytes) → occurs a (x ∷ xs) ≡ bit (str_eq x a) + occurs a xs
unfolding occurs
occurs-cons a x xs = refl

pub occurs-append :
    (a : Bytes) (xs ys : List Bytes) → occurs a (xs ++ ys) ≡ occurs a xs + occurs a ys
unfolding occurs
occurs-append a [] ys = omega arith
occurs-append a (x ∷ xs) ys = omega (arith, occurs-append a xs ys)

-- A write trades the old entry for the new one.
pub occurs-set :
    (a : Bytes) (xs : List Bytes) (i : ℕ) (v x : Bytes)
    → get_elem? xs i ≡ some x
    → occurs a (set xs i v) + bit (str_eq x a) ≡ occurs a xs + bit (str_eq v a)
unfolding occurs
occurs-set a [] i v x h = ground arith
occurs-set a (y ∷ ys) zero v x h = ground arith
occurs-set a (y ∷ ys) (suc i) v x h = omega (arith, occurs-set a ys i v x h)
