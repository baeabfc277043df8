-- ===== src/Queue/Heap/Swap.antt =====
-- An exchange of two entries.
use rc_wnzzer.Base.{
  ℕ, zero, suc, ◌<◌, ◌≡◌, refl, Bytes, some, List, [], ◌∷◌, length, get_elem?, set, length-set,
  get_elem?-set, occurs, occurs-set, ◌==◌, if◌then◌else◌, arith,
}
use rc_wnzzer.Queue.Heap.{swap, key_at}

pub get_elem?-lt : (h : List Bytes) (i : ℕ) → i < length h → (x : Bytes) × (get_elem? h i ≡ some x)
get_elem?-lt [] i p = absurd (omega arith)
get_elem?-lt (x ∷ h) zero p = (x, refl)
get_elem?-lt (x ∷ h) (suc i) p = get_elem?-lt h i (omega arith)

module _ (i j : ℕ) (h : List Bytes) (p : i < length h) (q : j < length h) where
  swap-set :
      (x y : Bytes)
      → get_elem? h i ≡ some x
      → get_elem? h j ≡ some y
      → swap i j h ≡ set (set h i y) j x
  unfolding swap
  swap-set x y ex ey = rw (ex, ey, swap) refl

  pub get_elem?-swap :
      (k : ℕ)
      → get_elem? (swap i j h) k
        ≡ (if j == k then get_elem? h i else if i == k then get_elem? h j else get_elem? h k)
  get_elem?-swap k =
      let (x, ex) = get_elem?-lt h i p in
      let (y, ey) = get_elem?-lt h j q in
      ground (
        arith,
        swap-set x y ex ey,
        ex,
        ey,
        length-set h i y,
        get_elem?-set h i k y,
        get_elem?-set (set h i y) j k x,
      )

  pub length-swap : length (swap i j h) ≡ length h
  length-swap =
      let (x, ex) = get_elem?-lt h i p in
      let (y, ey) = get_elem?-lt h j q in
      ground (arith, swap-set x y ex ey, length-set h i y, length-set (set h i y) j x)

  pub occurs-swap : (a : Bytes) → occurs a (swap i j h) ≡ occurs a h
  occurs-swap a =
      let (x, ex) = get_elem?-lt h i p in
      let (y, ey) = get_elem?-lt h j q in
      ground (
        arith,
        swap-set x y ex ey,
        ex,
        ey,
        get_elem?-set h i j y,
        occurs-set a h i y x,
        occurs-set a (set h i y) j x y,
      )

  pub key_at-swap :
      (key : Bytes → ℕ) (k : ℕ)
      → key_at key (swap i j h) k
        ≡ (if j == k then key_at key h i else if i == k then key_at key h j else key_at key h k)
  unfolding key_at
  key_at-swap key k = ground (arith, get_elem?-swap k)
