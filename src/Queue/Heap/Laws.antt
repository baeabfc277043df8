-- ===== src/Queue/Heap/Laws.antt =====
-- `Push` and `Pop`: the heap order, the entries, and the root.
use rc_wnzzer.Base.{
  ℕ, zero, suc, ◌+◌, ◌-◌, ◌*◌, ◌≤◌, ◌<◌, ◌≡◌, refl, sym, ap, ◌∙◌, Bytes, str_eq, str_eq_refl,
  eq_of_str_eq, bit, some, List, [], ◌∷◌, ◌++◌, length, get_elem?, take, length-append, length-take,
  get_elem?-append, get_elem?-take, get_elem?-last, occurs, occurs-append, occurs-cons, occurs-nil,
  leb, Bool-cases, inl, inr, arith,
}
use rc_wnzzer.Queue.Heap.{swap, key_at, less, lower_child, down, push, pop}
use rc_wnzzer.Queue.Heap.Swap.{length-swap, occurs-swap, key_at-swap, get_elem?-swap, get_elem?-lt}
use rc_wnzzer.Queue.Heap.Order.{
  parent, IsHeap, RisesAt, SinksAt, up-Restored, down-Restored, lower_child-IsLowerChild,
}

index_of :
    (y : Bytes) (h : List Bytes)
    → 0 < occurs y h
    → (i : ℕ) × (i < length h) × (get_elem? h i ≡ some y)
index_of y [] p = absurd (omega (arith, occurs-nil y))
index_of y (x ∷ h) p = elim (Bool-cases (str_eq x y)) [
  | inl same ↦ (0, omega arith, ap some (eq_of_str_eq x y same))
  | inr other ↦
      let (i, q, e) = index_of y h (ground (arith, occurs-cons y x h, other)) in
      (suc i, omega arith, e)
]

occurs_at : (h : List Bytes) (i : ℕ) (x : Bytes) → get_elem? h i ≡ some x → 0 < occurs x h
occurs_at [] i x e = ground arith
occurs_at (y ∷ h) zero x e = ground (arith, occurs-cons x y h, str_eq_refl x)
occurs_at (y ∷ h) (suc i) x e = omega (arith, occurs-cons x y h, occurs_at h i x e)

module _ (key : Bytes → ℕ) where
  key_at-append :
      (h : List Bytes) (x : Bytes) (i : ℕ)
      → i < length h
      → key_at key (h ++ x ∷ []) i ≡ key_at key h i
  unfolding key_at
  key_at-append h x i p = rw (get_elem?-append h (x ∷ []) i p, key_at) refl

  key_at-take : (h : List Bytes) (n i : ℕ) → i < n → key_at key (take n h) i ≡ key_at key h i
  unfolding key_at
  key_at-take h n i p = rw (get_elem?-take h n i p, key_at) refl

  appended-RisesAt :
      (x : Bytes) (h : List Bytes) → IsHeap key h → RisesAt key (length h) (h ++ x ∷ [])
  appended-RisesAt x h v =
      let size = length-append h (x ∷ []) in
      record {
        inside = omega (arith, size);
        others = λ c p q ne.
            ground (arith, size, v c, key_at-append h x c, key_at-append h x (parent c));
        across = λ c p q e pos. absurd (omega (arith, size));
      }

  -- `Push` on a heap keeps the heap order and adds the one entry.
  pub push-IsHeap :
      (x : Bytes) (h : List Bytes)
      → IsHeap key h
      → IsHeap key (push key x h)
        × ((a : Bytes) → occurs a (push key x h) ≡ bit (str_eq x a) + occurs a h)
  unfolding push
  push-IsHeap x h v =
      let r =
        up-Restored key (length h + 1) (length h) (h ++ x ∷ []) (omega arith)
          (appended-RisesAt x h v) in
      (
        λ c p q. r.ordered c p (omega (arith, r.same.size)),
        λ a.
            omega (
              arith,
              r.same.entries a,
              occurs-append a h (x ∷ []),
              occurs-cons a x [],
              occurs-nil a,
            ),
      )

  key_at-some :
      (h : List Bytes) (i : ℕ) (x : Bytes) → get_elem? h i ≡ some x → key_at key h i ≡ key x
  unfolding key_at
  key_at-some h i x e = rw (e, key_at) refl

  -- No entry of a heap has a lower key than the root.
  root_least :
      (bound i : ℕ) (h : List Bytes)
      → IsHeap key h
      → i < bound
      → i < length h
      → key_at key h 0 ≤ key_at key h i
  root_least zero i h v f p = absurd (omega arith)
  root_least (suc bound) i h v f p = ground (arith, v i, root_least bound (parent i) h v)

  -- The entries from n on stay where they are.
  down_beyond :
      (fuel i n k : ℕ) (h : List Bytes)
      → n ≤ length h
      → n ≤ k
      → get_elem? (down key fuel i n h) k ≡ get_elem? h k
  unfolding down
  down_beyond zero i n k h p q = refl
  down_beyond (suc fuel) i n k h p q = elim (Bool-cases (leb n (2 * i + 1))) [
    | inl leaf ↦ rw (leaf) refl
    | inr inner ↦
        let j = lower_child key i n h in
        let s = lower_child-IsLowerChild key i n h (ground (arith, inner)) in
        let pi : i < length h = omega (arith, s.inside, s.child) in
        let pj : j < length h = omega (arith, s.inside) in
        elim (Bool-cases (less key h j i)) [
          | inl below ↦
              rw (inner, below)
                (down_beyond fuel j n k (swap i j h) (omega (arith, length-swap i j h pi pj)) q
                  ∙ ground (arith, get_elem?-swap i j h pi pj k, s.inside, s.child))
          | inr settled ↦ rw (inner, settled) refl
        ]
  ]

  rooted-SinksAt :
      (n : ℕ) (h : List Bytes) → length h ≡ n + 1 → IsHeap key h → SinksAt key 0 n (swap 0 n h)
  rooted-SinksAt n h e v =
      let at = key_at-swap 0 n h (omega arith) (omega arith) key in
      record {
        bounded = omega (arith, length-swap 0 n h (omega arith) (omega arith));
        others = λ c p q ne. ground (arith, at c, at (parent c), v c);
        across = λ c p q e' pos. absurd (omega arith);
      }

  -- What `Pop` hands out of a heap and leaves.
  pub record Popped (h : List Bytes) (x : Bytes) (rest : List Bytes) : Type 0 where
    pub result : pop key h ≡ some (x, rest)
    pub root : get_elem? h 0 ≡ some x
    pub ordered : IsHeap key rest
    pub size : length h ≡ length rest + 1
    pub entries : (a : Bytes) → occurs a h ≡ bit (str_eq x a) + occurs a rest

  -- A heap that is not empty gives its root and leaves a heap of the other entries.
  pub pop-Popped :
      (h : List Bytes)
      → IsHeap key h
      → 0 < length h
      → (x : Bytes) × (rest : List Bytes) × Popped h x rest
  unfolding pop
  pop-Popped h v pos =
      let n : ℕ = length h - 1 in
      let (x, ex) = get_elem?-lt h 0 pos in
      let e : length h ≡ n + 1 = omega arith in
      let moved = swap 0 n h in
      let size = length-swap 0 n h pos (omega arith) in
      let r = down-Restored key (n + 1) 0 n moved (omega arith) (rooted-SinksAt n h e v) in
      let sunk = down key (n + 1) 0 n moved in
      let last : get_elem? sunk n ≡ some x =
        down_beyond (n + 1) 0 n n moved (omega (arith, size)) (omega arith)
        ∙ ground (arith, get_elem?-swap 0 n h pos (omega arith) n, ex) in
      let whole = get_elem?-last sunk n x (omega (arith, size, r.same.size)) last in
      let short = length-take sunk n (omega (arith, size, r.same.size)) in
      (
        x,
        take n sunk,
        record {
          result = rw (last, pop) refl;
          root = ex;
          ordered = λ c p q.
              ground
                (arith, short, r.ordered c, key_at-take sunk n c, key_at-take sunk n (parent c));
          size = omega (arith, short);
          entries = λ a. omega (
            arith,
            ap (occurs a) whole,
            occurs-append a (take n sunk) (x ∷ []),
            occurs-cons a x [],
            occurs-nil a,
            r.same.entries a,
            occurs-swap 0 n h pos (omega arith) a,
          );
        },
      )

  -- The root's key is the least of the keys of all entries.
  pub root-le :
      (h : List Bytes) (x y : Bytes)
      → IsHeap key h
      → get_elem? h 0 ≡ some x
      → 0 < occurs y h
      → key x ≤ key y
  root-le h x y v ex p =
      let (i, q, ey) = index_of y h p in
      omega (
        arith,
        root_least (suc i) i h v (omega arith) q,
        key_at-some h 0 x ex,
        key_at-some h i y ey,
      )

key_at_agree :
    (k k' : Bytes → ℕ) (h : List Bytes) (i : ℕ)
    → ((a : Bytes) → 0 < occurs a h → k a ≡ k' a)
    → i < length h
    → key_at k h i ≡ key_at k' h i
key_at_agree k k' h i same p =
    let (x, e) = get_elem?-lt h i p in
    key_at-some k h i x e ∙ same x (occurs_at h i x e) ∙ sym (key_at-some k' h i x e)

-- Two keys that agree on the entries make the same heaps.
pub IsHeap-agree :
    (k k' : Bytes → ℕ) (h : List Bytes)
    → ((a : Bytes) → 0 < occurs a h → k a ≡ k' a)
    → IsHeap k h
    → IsHeap k' h
IsHeap-agree k k' h same v c p q =
    let at = λ (i : ℕ) (b : i < length h). key_at_agree k k' h i same b in
    omega (arith, v c p q, at c q, at (parent c) (omega arith))
