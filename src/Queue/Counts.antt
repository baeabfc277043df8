-- ===== src/Queue/Counts.antt =====
-- `Counts` of internal/queue/queue.go. A map from states to numbers is a function, 0 where it has no
-- entry.
use rc_wnzzer.Base.{
  ℕ, ◌+◌, ◌≤◌, ◌<◌, ◌≡◌, refl, Bool-cases, false, true, ◌⊎◌, not, ◌&&◌, ◌||◌, Bytes, str_eq, eq_iff,
  none, some, inl, inr, [], ◌∷◌, length, bit, ltb, ◌==◌, if◌then◌else◌, arith,
}
use rc_wnzzer.Base.Table.{Table, lookup, lookup-nil, total, HasUniqueKeys}
use rc_wnzzer.Model.{State, unset, pending, waiting, sending, Task, state_eq, terminal}
use rc_wnzzer.Queue.State.{Queue}
use rc_wnzzer.Queue.Invariant.{Inv, live}
use rc_wnzzer.Queue.Purge.{lookup-head, lookup-cons}

pub record Counts : Type 0 where
  pub per_state : State → ℕ
  pub depth : ℕ
  pub oldest : ℕ

-- m[s]++
abbrev bump : State → (State → ℕ) → State → ℕ
bump s m s' = if state_eq s s' then m s' + 1 else m s'

abbrev older : Task → ℕ → ℕ
older t oldest =
    if not (terminal t.state) && ((oldest == 0) || ltb t.created_at oldest)
    then t.created_at
    else oldest

-- The loop over the tasks.
count_loop : Table Task → (State → ℕ) → ℕ → (State → ℕ) × ℕ
count_loop [] m oldest = (m, oldest)
count_loop ((id, t) ∷ ts) m oldest = count_loop ts (bump t.state m) (older t oldest)

unfoldable pub counts : Queue → Counts
unfolding count_loop
counts q =
    let (m, oldest) = count_loop q.tasks (λ s. 0) 0 in
    record { per_state = m; depth = length q.due; oldest = oldest }

in_state : State → Task → ℕ
in_state s t = bit (state_eq t.state s)

counted :
    (ts : Table Task) (m : State → ℕ) (o : ℕ) (s : State)
    → (count_loop ts m o).0 s ≡ m s + total (in_state s) ts
unfolding count_loop total in_state
counted [] m o s = omega arith
counted ((id, t) ∷ ts) m o s = ground (arith, counted ts (bump t.state m) (older t o) s)

live_states :
    (ts : Table Task)
    → total (in_state pending) ts
        + total (in_state waiting) ts
        + total (in_state sending) ts
        + total (in_state unset) ts
      ≡ total live ts
unfolding total in_state
live_states [] = refl
live_states ((id, t) ∷ ts) = ground (arith, live_states ts)

AllDated : Table Task → Type 0
AllDated ts = (j : Bytes) (u : Task) → lookup j ts ≡ some u → 0 < u.created_at

AllDated-tail :
    (id : Bytes) (t : Task) (ts : Table Task)
    → lookup id ts ≡ none
    → AllDated ((id, t) ∷ ts)
    → AllDated ts
unfolding AllDated
AllDated-tail id t ts once d j u e =
    d j u (ground (arith, lookup-cons id j t ts, e, once, eq_iff id j))

-- A date that the loop has seen only becomes older.
seen :
    (ts : Table Task) (m : State → ℕ) (o : ℕ)
    → HasUniqueKeys ts
    → AllDated ts
    → 0 < o
    → (0 < (count_loop ts m o).1) × ((count_loop ts m o).1 ≤ o)
unfolding count_loop AllDated
seen [] m o u d h = (h, omega arith)
seen ((id, t) ∷ ts) m o u d h =
    let now : 0 < t.created_at = d id t (lookup-head id t ts) in
    let rest =
      seen ts (bump t.state m) (older t o) u.1 (AllDated-tail id t ts u.0 d)
        (ground (arith, now, h)) in
    (rest.0, ground (arith, rest.1, h))

oldest_from :
    (ts : Table Task) (m : State → ℕ) (o : ℕ) (j : Bytes) (t : Task)
    → HasUniqueKeys ts
    → AllDated ts
    → lookup j ts ≡ some t
    → terminal t.state ≡ false
    → (0 < (count_loop ts m o).1) × ((count_loop ts m o).1 ≤ t.created_at)
unfolding count_loop AllDated
oldest_from [] m o j t u d e busy = absurd (ground (arith, lookup-nil {V = Task} j, e))
oldest_from ((id, v) ∷ ts) m o j t u d e busy = elim (Bool-cases (str_eq id j)) [
  | inl same ↦
      let here : v ≡ t = ground (arith, lookup-cons id j v ts, e, same) in
      let dated : 0 < v.created_at = d id v (lookup-head id v ts) in
      let rest =
        seen ts (bump v.state m) (older v o) u.1 (AllDated-tail id v ts u.0 d)
          (ground (arith, dated, here, busy)) in
      (rest.0, ground (arith, rest.1, here, busy))
  | inr other ↦
      oldest_from ts (bump v.state m) (older v o) j t u.1 (AllDated-tail id v ts u.0 d)
        (ground (arith, lookup-cons id j v ts, e, other)) busy
]

-- The loop ends with the date that it began with, or with that of a task that has not ended.
dated_by :
    (ts : Table Task) (m : State → ℕ) (o : ℕ)
    → HasUniqueKeys ts
    → ((count_loop ts m o).1 ≡ o)
      ⊎ ((j : Bytes) × (t : Task) × (lookup j ts ≡ some t)
          × (terminal t.state ≡ false)
          × ((count_loop ts m o).1 ≡ t.created_at))
unfolding count_loop
dated_by [] m o u = inl refl
dated_by ((id, v) ∷ ts) m o u = elim (dated_by ts (bump v.state m) (older v o) u.1) [
  | inr (j, t, e, busy, same) ↦
      inr (j, t, ground (arith, lookup-cons id j v ts, e, u.0, eq_iff id j), busy, same)
  | inl same ↦ elim (Bool-cases (not (terminal v.state) && ((o == 0) || ltb v.created_at o))) [
    | inr kept ↦ inl (ground (arith, same, kept))
    | inl taken ↦
        inr (id, v, lookup-head id v ts, ground (arith, taken), ground (arith, same, taken))
  ]
]

-- The least creation time of the tasks that have not ended, or 0 if all have.
abbrev pub IsOldest : Table Task → ℕ → Type 0
IsOldest ts n =
    ((n ≡ 0) × ((i : Bytes) (u : Task) → lookup i ts ≡ some u → terminal u.state ≡ true))
    ⊎ ((j : Bytes) × (t : Task) × (lookup j ts ≡ some t)
        × (terminal t.state ≡ false)
        × (n ≡ t.created_at)
        × ((i : Bytes) (u : Task)
            → lookup i ts ≡ some u
            → terminal u.state ≡ false
            → n ≤ u.created_at))

counts-IsOldest :
    (q : Queue)
    → Inv q
    → ((i : Bytes) (u : Task) → lookup i q.tasks ≡ some u → 0 < u.created_at)
    → IsOldest q.tasks (counts q).oldest
unfolding counts AllDated
counts-IsOldest q v dated =
    let zero_map : State → ℕ = λ s. 0 in
    elim (dated_by q.tasks zero_map 0 v.unique) [
      | inl none_seen ↦ inl (
        none_seen,
        λ i u e. elim (Bool-cases (terminal u.state)) [
          | inl over ↦ over
          | inr busy ↦ absurd (
              omega
                (arith, none_seen, (oldest_from q.tasks zero_map 0 i u v.unique dated e busy).0))
        ],
      )
      | inr (j, t, e, busy, same) ↦ inr (
        j,
        t,
        e,
        busy,
        same,
        λ i u f b. (oldest_from q.tasks zero_map 0 i u v.unique dated f b).1,
      )
    ]

-- In a state of the invariant in which each task is in a state and has a creation time: the numbers of
-- pending, waiting and sending tasks add up to the count of active tasks, and the oldest time reported is
-- the least creation time of the tasks that have not ended, or 0 if all have.
pub counts-active :
    (q : Queue)
    → Inv q
    → (counts q).per_state unset ≡ 0
    → ((i : Bytes) (u : Task) → lookup i q.tasks ≡ some u → 0 < u.created_at)
    → ((counts q).per_state pending + (counts q).per_state waiting + (counts q).per_state sending
        ≡ q.active)
      × IsOldest q.tasks (counts q).oldest
unfolding counts
counts-active q v none_unset dated =
    let zero_map : State → ℕ = λ s. 0 in
    let found = λ (s : State). counted q.tasks zero_map 0 s in
    (
      omega (
        arith,
        found pending,
        found waiting,
        found sending,
        found unset,
        live_states q.tasks,
        v.counted,
        none_unset,
      ),
      counts-IsOldest q v dated,
    )
