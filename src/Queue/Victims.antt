-- ===== src/Queue/Victims.antt =====
-- The victims of `enforceTaskCap` of internal/queue/maintain.go, and the order they are sorted in.
use rc_wnzzer.Base.{
  ◌+◌, ◌≡◌, refl, ◌∙◌, true, false, Bytes, str_eq, eq_iff, Option, none, some, [], ◌∷◌, length,
  if◌then◌else◌, Bool-cases, inl, inr, arith,
}
use rc_wnzzer.Base.Table.{Table, lookup, lookup-nil, total, HasUniqueKeys}
use rc_wnzzer.Model.{Task, terminal}
use rc_wnzzer.Queue.Maintain.{before, candidates, sort_in, sorted}
use rc_wnzzer.Queue.Invariant.{live}
use rc_wnzzer.Queue.Purge.{lookup-cons}

abbrev pub terminal_only : Option Task → Option Task
terminal_only none = none
terminal_only (some t) = if terminal t.state then some t else none

pub lookup-candidates :
    (m : Table Task) (j : Bytes)
    → HasUniqueKeys m
    → lookup j (candidates m) ≡ terminal_only (lookup j m)
unfolding lookup candidates
lookup-candidates [] j u = refl
lookup-candidates ((id, t) ∷ m) j u = ground (arith, lookup-candidates m j u.1, u.0, eq_iff id j)

pub candidates-HasUniqueKeys : (m : Table Task) → HasUniqueKeys m → HasUniqueKeys (candidates m)
unfolding candidates
candidates-HasUniqueKeys [] u = tt
candidates-HasUniqueKeys ((id, t) ∷ m) u =
    ground (arith, candidates-HasUniqueKeys m u.1, lookup-candidates m id u.1, u.0)

lookup-sort_in :
    (v : Bytes × Task) (m : Table Task) (j : Bytes)
    → lookup v.0 m ≡ none
    → lookup j (sort_in v m) ≡ (if str_eq v.0 j then some v.1 else lookup j m)
unfolding lookup sort_in
lookup-sort_in v [] j n = refl
lookup-sort_in v ((id, t) ∷ m) j n =
    ground (arith, lookup-sort_in v m j, n, eq_iff v.0 j, eq_iff id j, eq_iff id v.0)

sort_in-HasUniqueKeys :
    (v : Bytes × Task) (m : Table Task)
    → lookup v.0 m ≡ none
    → HasUniqueKeys m
    → HasUniqueKeys (sort_in v m)
unfolding sort_in
sort_in-HasUniqueKeys v [] n u = (n, tt)
sort_in-HasUniqueKeys v ((id, t) ∷ m) n u = ground (
  arith,
  sort_in-HasUniqueKeys v m,
  lookup-sort_in v m id,
  lookup-cons id v.0 t m,
  eq_iff v.0 id,
  eq_iff id v.0,
  n,
  u.0,
  u.1,
)

pub lookup-sorted :
    (m : Table Task) (j : Bytes) → HasUniqueKeys m → lookup j (sorted m) ≡ lookup j m
unfolding sorted
lookup-sorted [] j u = refl
lookup-sorted ((id, t) ∷ m) j u = ground (
  arith,
  lookup-sorted m id u.1,
  lookup-sorted m j u.1,
  lookup-sort_in (id, t) (sorted m) j,
  lookup-cons id j t m,
  u.0,
)

pub sorted-HasUniqueKeys : (m : Table Task) → HasUniqueKeys m → HasUniqueKeys (sorted m)
unfolding sorted
sorted-HasUniqueKeys [] u = tt
sorted-HasUniqueKeys ((id, t) ∷ m) u =
    sort_in-HasUniqueKeys (id, t) (sorted m) (lookup-sorted m id u.1 ∙ u.0)
      (sorted-HasUniqueKeys m u.1)

-- No later victim is to go before an earlier one.
abbrev pub IsOrdered : Table Task → Type 0
IsOrdered [] = Unit {0}
IsOrdered ((id, t) ∷ m) =
    ((j : Bytes) (u : Task) → lookup j m ≡ some u → before u t ≡ false) × IsOrdered m

before_trans : (a b c : Task) → before a b ≡ false → before b c ≡ false → before a c ≡ false
before_trans a b c p q = ground arith

before_asym : (a b : Task) → before a b ≡ true → before b a ≡ false
before_asym a b p = ground arith

sort_in-IsOrdered :
    (v : Bytes × Task) (m : Table Task)
    → lookup v.0 m ≡ none
    → IsOrdered m
    → IsOrdered (sort_in v m)
unfolding sort_in
sort_in-IsOrdered v [] n o = ((λ j u e. ground (arith, e, lookup-nil {V = Task} j)), tt)
sort_in-IsOrdered v ((id, t) ∷ m) n o =
    let free : lookup v.0 m ≡ none = ground (arith, lookup-cons id v.0 t m, n) in
    elim (Bool-cases (before t v.1)) [
      | inl first ↦ rw (first) (
        (λ j u e. ground (arith, lookup-sort_in v m j free, e, o.0 j u, before_asym t v.1 first)),
        sort_in-IsOrdered v m free o.1,
      )
      | inr later ↦ rw (later) (
        (λ j u e. ground (arith, lookup-cons id j t m, e, o.0 j u, later, before_trans u t v.1)),
        o,
      )
    ]

pub sorted-IsOrdered : (m : Table Task) → HasUniqueKeys m → IsOrdered (sorted m)
unfolding sorted
sorted-IsOrdered [] u = tt
sorted-IsOrdered ((id, t) ∷ m) u =
    sort_in-IsOrdered (id, t) (sorted m) (lookup-sorted m id u.1 ∙ u.0) (sorted-IsOrdered m u.1)

length-sort_in : (v : Bytes × Task) (m : Table Task) → length (sort_in v m) ≡ length m + 1
unfolding sort_in
length-sort_in v [] = omega arith
length-sort_in v ((id, t) ∷ m) = ground (arith, length-sort_in v m)

pub length-sorted : (m : Table Task) → length (sorted m) ≡ length m
unfolding sorted
length-sorted [] = refl
length-sorted ((id, t) ∷ m) = omega (arith, length-sort_in (id, t) (sorted m), length-sorted m)

pub length-candidates : (m : Table Task) → length (candidates m) + total live m ≡ length m
unfolding candidates total
length-candidates [] = refl
length-candidates ((id, t) ∷ m) = ground (arith, length-candidates m)

pub total_ones : (m : Table Task) → total (λ t. 1) m ≡ length m
unfolding total
total_ones [] = refl
total_ones ((id, t) ∷ m) = omega (arith, total_ones m)
