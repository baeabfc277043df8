-- ===== src/Queue/Heap/Order.antt =====
-- The loops of container/heap restore the heap order and lose no entry.
use rc_wnzzer.Base.{
  ℕ, zero, suc, ◌+◌, ◌-◌, ◌*◌, ◌/◌, ◌≤◌, ◌<◌, ◌≡◌, ◌≢◌, refl, Bytes, List, length, occurs, leb, ltb,
  ltb→lt, true, false, ◌==◌, ◌||◌, ◌&&◌, not, if◌then◌else◌, Bool-cases, inl, inr, ◌⊎◌, arith,
}
use rc_wnzzer.Queue.Heap.{swap, key_at, less, up, lower_child, down}
use rc_wnzzer.Queue.Heap.Swap.{length-swap, occurs-swap, key_at-swap}

abbrev pub parent : ℕ → ℕ
parent c = (c - 1) / 2

-- The same entries, as often.
pub record IsRearranged (h h' : List Bytes) : Type 0 where
  pub size : length h' ≡ length h
  pub entries : (a : Bytes) → occurs a h' ≡ occurs a h

IsRearranged-refl : (h : List Bytes) → IsRearranged h h
IsRearranged-refl h = record { size = refl; entries = λ a. refl }

IsRearranged-trans : {h g k : List Bytes} → IsRearranged h g → IsRearranged g k → IsRearranged h k
IsRearranged-trans p q = record {
  size = omega (arith, p.size, q.size);
  entries = λ a. omega (arith, p.entries a, q.entries a);
}

swap-IsRearranged :
    (i j : ℕ) (h : List Bytes) → i < length h → j < length h → IsRearranged h (swap i j h)
swap-IsRearranged i j h p q = record {
  size = length-swap i j h p q;
  entries = occurs-swap i j h p q;
}

module _ (key : Bytes → ℕ) where
  -- Among the first n entries no entry is below its parent.
  abbrev pub IsHeapTo : ℕ → List Bytes → Type 0
  IsHeapTo n h = (c : ℕ) → 0 < c → c < n → key_at key h (parent c) ≤ key_at key h c

  abbrev pub IsHeap : List Bytes → Type 0
  IsHeap h = IsHeapTo (length h) h

  -- A heap but for the edge above j.
  pub record RisesAt (j : ℕ) (h : List Bytes) : Type 0 where
    pub inside : j < length h
    pub others : (c : ℕ) → 0 < c → c < length h → c ≢ j → key_at key h (parent c) ≤ key_at key h c
    pub across :
        (c : ℕ)
        → 0 < c
        → c < length h
        → parent c ≡ j
        → 0 < j
        → key_at key h (parent j) ≤ key_at key h c

  less_lt : (h : List Bytes) (i j : ℕ) → less key h i j ≡ true → key_at key h i < key_at key h j
  unfolding less
  less_lt h i j e = ltb→lt _ _ e

  less_ge : (h : List Bytes) (i j : ℕ) → less key h i j ≡ false → key_at key h j ≤ key_at key h i
  unfolding less
  less_ge h i j e = ground arith

  swap-RisesAt :
      (j : ℕ) (h : List Bytes)
      → RisesAt j h
      → 0 < j
      → key_at key h j < key_at key h (parent j)
      → RisesAt (parent j) (swap (parent j) j h)
  swap-RisesAt j h v pos below =
      let i : ℕ = parent j in
      let above : parent j < length h = omega (arith, v.inside) in
      let size = length-swap (parent j) j h above v.inside in
      let at = key_at-swap (parent j) j h above v.inside key in
      record {
        inside = omega (arith, size);
        others = λ c p q ne. ground (arith, size, at c, at (parent c), v.others c, v.across c);
        across = λ c p q e pos'.
            ground (arith, size, at c, at (parent (parent j)), v.others c, v.others (parent j));
      }

  -- A heap among the first n entries, of the same entries.
  pub record Restored (n : ℕ) (h h' : List Bytes) : Type 0 where
    pub ordered : IsHeapTo n h'
    pub same : IsRearranged h h'

  stays_up :
      (j : ℕ) (h : List Bytes)
      → RisesAt j h
      → ((parent j == j) || not (less key h j (parent j))) ≡ true
      → Restored (length h) h h
  stays_up j h v stop = record {
    ordered = λ c p q. ground (arith, stop, v.others c, less_ge h j (parent j));
    same = IsRearranged-refl h;
  }

  pub up-Restored :
      (fuel j : ℕ) (h : List Bytes)
      → j < fuel
      → RisesAt j h
      → Restored (length h) h (up key fuel j h)
  unfolding up
  up-Restored zero j h f v = absurd (omega arith)
  up-Restored (suc fuel) j h f v =
      elim (Bool-cases ((parent j == j) || not (less key h j (parent j)))) [
        | inl stop ↦ rw (stop) (stays_up j h v stop)
        | inr go ↦
            let pos : 0 < j = ground (arith, go) in
            let above : parent j < length h = omega (arith, v.inside) in
            let moved = swap (parent j) j h in
            let swapped = swap-IsRearranged (parent j) j h above v.inside in
            let below : key_at key h j < key_at key h (parent j) =
              ground (arith, go, less_lt h j (parent j)) in
            let rest =
              up-Restored fuel (parent j) moved (omega arith) (swap-RisesAt j h v pos below) in
            rw (go) (record {
              ordered = λ c p q. rest.ordered c p (omega (arith, swapped.size));
              same = IsRearranged-trans swapped rest.same;
            })
      ]

  -- A heap among the first n entries but for the edges below i.
  pub record SinksAt (i n : ℕ) (h : List Bytes) : Type 0 where
    pub bounded : n ≤ length h
    pub others : (c : ℕ) → 0 < c → c < n → parent c ≢ i → key_at key h (parent c) ≤ key_at key h c
    pub across :
        (c : ℕ) → 0 < c → c < n → parent c ≡ i → 0 < i → key_at key h (parent i) ≤ key_at key h c

  -- The child that `lower_child` picks, where there is one.
  pub record IsLowerChild (i n j : ℕ) (h : List Bytes) : Type 0 where
    pub inside : j < n
    pub child : (j ≡ 2 * i + 1) ⊎ (j ≡ 2 * i + 2)
    pub least : (c : ℕ) → 0 < c → c < n → parent c ≡ i → key_at key h j ≤ key_at key h c

  children : (c i : ℕ) → 0 < c → parent c ≡ i → (c ≡ 2 * i + 1) ⊎ (c ≡ 2 * i + 1 + 1)
  children c i p e = omega arith

  pub lower_child-IsLowerChild :
      (i n : ℕ) (h : List Bytes) → 2 * i + 1 < n → IsLowerChild i n (lower_child key i n h) h
  unfolding lower_child
  lower_child-IsLowerChild i n h p =
      let j₁ = 2 * i + 1 in
      let j₂ = j₁ + 1 in
      elim (Bool-cases (ltb j₂ n && less key h j₂ j₁)) [
        | inl right ↦ rw (right) (record {
          inside = ground (arith, right);
          child = ground arith;
          least = λ c pos q e. ground (arith, right, less_lt h j₂ j₁, children c i pos e);
        })
        | inr left ↦ rw (left) (record {
          inside = p;
          child = ground arith;
          least = λ c pos q e. ground (arith, left, less_ge h j₂ j₁, children c i pos e);
        })
      ]

  swap-SinksAt :
      (i j n : ℕ) (h : List Bytes)
      → SinksAt i n h
      → IsLowerChild i n j h
      → key_at key h j < key_at key h i
      → SinksAt j n (swap i j h)
  swap-SinksAt i j n h v s below =
      let pi : i < length h = omega (arith, v.bounded, s.inside, s.child) in
      let pj : j < length h = omega (arith, v.bounded, s.inside) in
      let size = length-swap i j h pi pj in
      let at = key_at-swap i j h pi pj key in
      record {
        bounded = omega (arith, size, v.bounded);
        others = λ c p q ne.
            ground
              (arith, s.child, at c, at (parent c), v.others c, v.across j, v.across c, s.least c);
        across = λ c p q e pos. ground (arith, s.child, at c, at (parent j), v.others c);
      }

  -- One round of `down` at an entry with children, given what the later rounds do.
  sinks_on :
      (fuel i n : ℕ) (h : List Bytes)
      → n - i < suc fuel
      → SinksAt i n h
      → IsLowerChild i n (lower_child key i n h) h
      → (let j = lower_child key i n h in
          n - j < fuel
          → SinksAt j n (swap i j h)
          → Restored n (swap i j h) (down key fuel j n (swap i j h)))
      → let j = lower_child key i n h in
        Restored n h (if not (less key h j i) then h else down key fuel j n (swap i j h))
  sinks_on fuel i n h f v s later =
      let j = lower_child key i n h in
      elim (Bool-cases (less key h j i)) [
        | inl below ↦
            let moved = swap-SinksAt i j n h v s (less_lt h j i below) in
            let rest = later (omega (arith, s.inside, s.child)) moved in
            let swapped =
              swap-IsRearranged i j h (omega (arith, v.bounded, s.inside, s.child))
                (omega (arith, v.bounded, s.inside)) in
            rw (below)
              (record { ordered = rest.ordered; same = IsRearranged-trans swapped rest.same })
        | inr settled ↦ rw (settled) (record {
          ordered = λ c p q. ground (arith, less_ge h j i settled, v.others c, s.least c);
          same = IsRearranged-refl h;
        })
      ]

  pub down-Restored :
      (fuel i n : ℕ) (h : List Bytes)
      → n - i < fuel
      → SinksAt i n h
      → Restored n h (down key fuel i n h)
  unfolding down
  down-Restored zero i n h f v = absurd (omega arith)
  down-Restored (suc fuel) i n h f v =
      let j = lower_child key i n h in
      elim (Bool-cases (leb n (2 * i + 1))) [
        | inl leaf ↦ rw (leaf) (record {
          ordered = λ c p q. ground (arith, leaf, v.others c);
          same = IsRearranged-refl h;
        })
        | inr inner ↦
            let s = lower_child-IsLowerChild i n h (ground (arith, inner)) in
            rw (inner) (sinks_on fuel i n h f v s (down-Restored fuel j n (swap i j h)))
      ]
