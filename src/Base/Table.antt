-- ===== src/Base/Table.antt =====
-- Go's `map[string]V` as an association list. Its order stands for the order of one iteration.
use Prim.Native.Nat.{ℕ, ◌+◌, ◌≤◌}
use mathlib.Core.Path.{◌≡◌, refl}
use mathlib.Core.List.{List, [], ◌∷◌}
use mathlib.Core.Option.{Option, none, some}
use native.Mathlib.Omega.{arith}
use rc_wnzzer.Base.Tests.{if◌then◌else◌}
use rc_wnzzer.Base.Text.{Bytes, str_eq, eq_iff}

abbrev pub Table : Type 0 → Type 0
Table V = List (Bytes × V)

module _ {V : Type 0} where
  -- m[k]
  unfoldable pub lookup : Bytes → Table V → Option V
  lookup k [] = none
  lookup k ((j, v) ∷ m) = if str_eq j k then some v else lookup k m

  -- m[k] = v
  unfoldable pub insert : Bytes → V → Table V → Table V
  insert k v [] = (k, v) ∷ []
  insert k v ((j, w) ∷ m) = if str_eq j k then (k, v) ∷ m else (j, w) ∷ insert k v m

  -- delete(m, k)
  unfoldable pub delete : Bytes → Table V → Table V
  delete k [] = []
  delete k ((j, w) ∷ m) = let rest = delete k m in if str_eq j k then rest else (j, w) ∷ rest

  -- The sum of a weight over the entries.
  unfoldable pub total : (V → ℕ) → Table V → ℕ
  total f [] = 0
  total f ((j, w) ∷ m) = f w + total f m

  abbrev pub weight_of : (V → ℕ) → Option V → ℕ
  weight_of f none = 0
  weight_of f (some v) = f v

  -- No key stands twice.
  abbrev pub HasUniqueKeys : Table V → Type 0
  HasUniqueKeys [] = Unit {0}
  HasUniqueKeys ((j, w) ∷ m) = (lookup j m ≡ none) × HasUniqueKeys m

  pub lookup-insert :
      (k j : Bytes) (v : V) (m : Table V)
      → lookup j (insert k v m) ≡ (if str_eq k j then some v else lookup j m)
  unfolding lookup insert
  lookup-insert k j v [] = refl
  lookup-insert k j v (entry ∷ rest) =
      let induction = lookup-insert k j v rest in
      ground (arith, induction, eq_iff entry.0 k, eq_iff entry.0 j, eq_iff k j)

  pub lookup-delete :
      (k j : Bytes) (m : Table V)
      → lookup j (delete k m) ≡ (if str_eq k j then none else lookup j m)
  unfolding lookup delete
  lookup-delete k j [] = ground arith
  lookup-delete k j ((i, w) ∷ m) =
      ground (arith, eq_iff k j, eq_iff i k, eq_iff i j, lookup-delete k j m)

  -- An insertion replaces the weight of the old value by that of the new one.
  pub total-insert :
      (f : V → ℕ) (k : Bytes) (v : V) (m : Table V)
      → total f (insert k v m) + weight_of f (lookup k m) ≡ total f m + f v
  unfolding lookup insert total
  total-insert f k v [] = omega arith
  total-insert f k v ((i, w) ∷ m) = ground (arith, total-insert f k v m)

  pub weight-le-total : (f : V → ℕ) (k : Bytes) (m : Table V) → weight_of f (lookup k m) ≤ total f m
  unfolding lookup total
  weight-le-total f k [] = omega arith
  weight-le-total f k ((i, w) ∷ m) = ground (arith, weight-le-total f k m)

  delete_missing : (k : Bytes) (m : Table V) → lookup k m ≡ none → delete k m ≡ m
  unfolding lookup delete
  delete_missing k [] h = refl
  delete_missing k ((i, w) ∷ m) h = ground (arith, delete_missing k m)

  pub total-delete :
      (f : V → ℕ) (k : Bytes) (m : Table V)
      → HasUniqueKeys m
      → total f (delete k m) + weight_of f (lookup k m) ≡ total f m
  unfolding lookup delete total
  total-delete f k [] u = omega arith
  total-delete f k ((i, w) ∷ m) u =
      ground (arith, total-delete f k m u.1, eq_iff i k, delete_missing k m)

  pub insert-HasUniqueKeys :
      (k : Bytes) (v : V) (m : Table V) → HasUniqueKeys m → HasUniqueKeys (insert k v m)
  unfolding insert
  insert-HasUniqueKeys k v [] u = (unfold lookup in refl, tt)
  insert-HasUniqueKeys k v ((i, w) ∷ m) u =
      ground (arith, insert-HasUniqueKeys k v m u.1, lookup-insert k i v m, eq_iff k i, eq_iff i k)

  pub delete-HasUniqueKeys :
      (k : Bytes) (m : Table V) → HasUniqueKeys m → HasUniqueKeys (delete k m)
  unfolding delete
  delete-HasUniqueKeys k [] u = tt
  delete-HasUniqueKeys k ((i, w) ∷ m) u =
      ground (arith, delete-HasUniqueKeys k m u.1, lookup-delete k i m)

pub lookup-nil : {V : Type 0} (k : Bytes) → lookup {V = V} k [] ≡ none
unfolding lookup
lookup-nil k = refl
