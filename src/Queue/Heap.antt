-- ===== src/Queue/Heap.antt =====
-- internal/queue/heap.go: the due heap, with the `Push` and `Pop` of container/heap that the queue
-- calls on it. A task pointer is the task's id, and `key` reads the task's NextAt through it.
pub mod Swap
pub mod Order
pub mod Laws
use rc_wnzzer.Base.{
  ℕ, zero, suc, ◌+◌, ◌-◌, ◌*◌, ◌/◌, Bool, true, false, not, ◌&&◌, ◌||◌, Bytes, Option, none, some,
  List, [], ◌∷◌, ◌++◌, length, get_elem?, set, take, ltb, leb, ◌==◌, if◌then◌else◌,
}

-- `Swap`
unfoldable pub swap : ℕ → ℕ → List Bytes → List Bytes
swap i j h = elim (get_elem? h i) [
  | none ↦ h
  | some x ↦ elim (get_elem? h j) [ none ↦ h | some y ↦ set (set h i y) j x ]
]

module _ (key : Bytes → ℕ) where
  -- The NextAt of the task at an index.
  unfoldable pub key_at : List Bytes → ℕ → ℕ
  key_at h i = elim (get_elem? h i) [ none ↦ 0 | some x ↦ key x ]

  -- `Less`
  unfoldable pub less : List Bytes → ℕ → ℕ → Bool
  unfolding key_at
  less h i j = ltb (key_at h i) (key_at h j)

  -- The loop of `heap.up`: towards the root from j. The first argument is fuel.
  unfoldable pub up : ℕ → ℕ → List Bytes → List Bytes
  up zero j h = h
  up (suc fuel) j h =
      let i = (j - 1) / 2 in
      let rest = up fuel i (swap i j h) in if i == j || not (less h j i) then h else rest

  -- The child of i with the lower key, among the first n entries.
  unfoldable pub lower_child : ℕ → ℕ → List Bytes → ℕ
  lower_child i n h =
      let j₁ = 2 * i + 1 in let j₂ = j₁ + 1 in if ltb j₂ n && less h j₂ j₁ then j₂ else j₁

  -- The loop of `heap.down`: away from the root from i, among the first n entries.
  unfoldable pub down : ℕ → ℕ → ℕ → List Bytes → List Bytes
  down zero i n h = h
  down (suc fuel) i n h =
      let j = lower_child i n h in
      let rest = down fuel j n (swap i j h) in
      if leb n (2 * i + 1) then h else if not (less h j i) then h else rest

  -- `heap.Push`
  unfoldable pub push : Bytes → List Bytes → List Bytes
  push x h = up (length h + 1) (length h) (h ++ x ∷ [])

  -- `heap.Pop`, and the heap's own `Pop`, which takes the last entry off. It panics on no entry.
  unfoldable pub pop : List Bytes → Option (Bytes × List Bytes)
  pop h =
      let n = length h - 1 in
      let sunk = down (n + 1) 0 n (swap 0 n h) in
      elim (get_elem? sunk n) [ none ↦ none | some x ↦ some (x, take n sunk) ]
