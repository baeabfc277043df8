-- ===== src/Queue/Listing.antt =====
-- `ListByState` of internal/queue/queue.go: what it lists, and what it may leave out.
use rc_wnzzer.Base.{
  ℕ, zero, suc, ◌+◌, ◌≤◌, ◌<◌, ◌≡◌, true, false, Bool-cases, Bytes, str_eq, eq_iff, some, inl, inr,
  [], ◌∷◌, length, get_elem?, arith,
}
use rc_wnzzer.Base.Table.{Table, lookup, lookup-nil, HasUniqueKeys}
use rc_wnzzer.Model.{State, Task, state_eq}
use rc_wnzzer.Queue.State.{Queue}
use rc_wnzzer.Queue.Ops.{list_from, list_by_state}
use rc_wnzzer.Queue.Purge.{lookup-cons}

state_eq-eq : (a b : State) → state_eq a b ≡ true → a ≡ b
state_eq-eq a b h = ground (arith, h)

state_eq_refl : (a : State) → state_eq a a ≡ true
state_eq_refl a = ground arith

module _ (s : State) (limit : ℕ) where
  length-list_from :
      (n : ℕ) (m : Table Task) → n < limit → n + length (list_from s limit n m) ≤ limit
  unfolding list_from
  length-list_from n [] h = omega (arith, h)
  length-list_from n ((id, t) ∷ m) h =
      ground (arith, h, length-list_from n m, length-list_from (n + 1) m)

  from_map :
      (n : ℕ) (m : Table Task) (i : ℕ) (t : Task)
      → HasUniqueKeys m
      → get_elem? (list_from s limit n m) i ≡ some t
      → (id : Bytes) × (lookup id m ≡ some t) × (t.state ≡ s)
  unfolding list_from
  from_map n [] i t u h = absurd (ground (arith, h))
  from_map n ((id, v) ∷ m) zero t u h = elim (Bool-cases (state_eq v.state s)) [
    | inr other ↦
        let (j, at, same) = from_map n m zero t u.1 (ground (arith, h, other)) in
        (j, ground (arith, lookup-cons id j v m, at, u.0, eq_iff id j), same)
    | inl here ↦
        let head : v ≡ t = ground (arith, h, here) in
        (
          id,
          ground (arith, lookup-cons id id v m, eq_iff id id, head),
          state_eq-eq t.state s (ground (arith, here, head)),
        )
  ]
  from_map n ((id, v) ∷ m) (suc i) t u h = elim (Bool-cases (state_eq v.state s)) [
    | inr other ↦
        let (j, at, same) = from_map n m (suc i) t u.1 (ground (arith, h, other)) in
        (j, ground (arith, lookup-cons id j v m, at, u.0, eq_iff id j), same)
    | inl here ↦
        let (j, at, same) = from_map (n + 1) m i t u.1 (ground (arith, h, here)) in
        (j, ground (arith, lookup-cons id j v m, at, u.0, eq_iff id j), same)
  ]

  -- Below the limit nothing is left out.
  all_found :
      (n : ℕ) (m : Table Task) (id : Bytes) (t : Task)
      → n + length (list_from s limit n m) < limit
      → lookup id m ≡ some t
      → t.state ≡ s
      → (i : ℕ) × (get_elem? (list_from s limit n m) i ≡ some t)
  unfolding list_from
  all_found n [] id t h at same = absurd (ground (arith, lookup-nil {V = Task} id, at))
  all_found n ((j, v) ∷ m) id t h at same = elim (Bool-cases (state_eq v.state s)) [
    | inr other ↦
        let unlike : str_eq j id ≡ false =
          ground (arith, lookup-cons j id v m, at, same, other, state_eq_refl s) in
        let (i, e) =
          all_found n m id t (ground (arith, h, other))
            (ground (arith, lookup-cons j id v m, at, unlike)) same in
        (i, ground (arith, e, other))
    | inl here ↦ elim (Bool-cases (str_eq j id)) [
      | inl own ↦ (0, ground (arith, here, lookup-cons j id v m, at, own))
      | inr unlike ↦
          let (i, e) =
            all_found (n + 1) m id t (ground (arith, h, here))
              (ground (arith, lookup-cons j id v m, at, unlike)) same in
          (suc i, ground (arith, e, here, h))
    ]
  ]

  pub length-list_by_state : (q : Queue) → 0 < limit → length (list_by_state s limit q) ≤ limit
  unfolding list_by_state
  length-list_by_state q h = omega (arith, length-list_from 0 q.tasks h)

  pub listed_from :
      (q : Queue) (i : ℕ) (t : Task)
      → HasUniqueKeys q.tasks
      → get_elem? (list_by_state s limit q) i ≡ some t
      → (id : Bytes) × (lookup id q.tasks ≡ some t) × (t.state ≡ s)
  unfolding list_by_state
  listed_from q i t u h = from_map 0 q.tasks i t u h

  pub all_listed :
      (q : Queue) (id : Bytes) (t : Task)
      → length (list_by_state s limit q) < limit
      → lookup id q.tasks ≡ some t
      → t.state ≡ s
      → (i : ℕ) × (get_elem? (list_by_state s limit q) i ≡ some t)
  unfolding list_by_state
  all_listed q id t h at same = all_found 0 q.tasks id t (omega (arith, h)) at same
