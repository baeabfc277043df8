-- ===== src/Model/NewId.antt =====
-- `NewID` of internal/model/task.go: the text of 128 bits in base 32. The clock and the 80 random bits
-- are arguments.
use rc_wnzzer.Base.{
  str_less, ℕ, zero, suc, ◌+◌, ◌*◌, ◌/◌, ◌%◌, ◌^◌, ◌≤◌, ◌<◌, ◌≡◌, ◌⊎◌, refl, sym, ap, ◌∙◌, inl, inr,
  Bool, true, ◌&&◌, Bytes, bytes, Option, none, some, [], ◌∷◌, ◌++◌, length, length-append,
  get_elem?, ltb, arith,
}

-- `idAlphabet`
abbrev pub id_alphabet : Bytes
id_alphabet = bytes "0123456789ABCDEFGHJKMNPQRSTVWXYZ"

abbrev pub symbol_at : Option ℕ → ℕ
symbol_at none = 0
symbol_at (some b) = b

abbrev pub symbol : ℕ → ℕ
symbol d = symbol_at (get_elem? id_alphabet d)

-- The last digits of a number in base 32.
unfoldable pub digits32 : (count n : ℕ) → Bytes
digits32 zero n = []
digits32 (suc k) n = digits32 k (n / 32) ++ symbol (n % 32) ∷ []

-- The 16 bytes as a number: 48 bits of milliseconds, then the random ones.
abbrev pub id_bits : (ms random : ℕ) → ℕ
id_bits ms random = ms % 2 ^ 48 * 2 ^ 80 + random

-- `NewID`: 26 digits hold 130 bits, so that two zero bits follow the 128.
unfoldable pub new_id : (ms random : ℕ) → Bytes
new_id ms random = digits32 26 (id_bits ms random * 4)

abbrev increasing : Bytes → Bool
increasing [] = true
increasing (x ∷ []) = true
increasing (x ∷ y ∷ s) = ltb x y && increasing (y ∷ s)

increasing-head :
    (x b : ℕ) (s : Bytes) (j : ℕ) → increasing (x ∷ s) ≡ true → get_elem? s j ≡ some b → x < b
increasing-head x b [] j h e = absurd (ground (arith, e))
increasing-head x b (y ∷ s) zero h e = ground (arith, h, e)
increasing-head x b (y ∷ s) (suc j) h e =
    let later : y < b = increasing-head y b s j (ground (arith, h)) e in ground (arith, h, later)

increasing-get_elem? :
    (s : Bytes) (i j a b : ℕ)
    → increasing s ≡ true
    → i < j
    → get_elem? s i ≡ some a
    → get_elem? s j ≡ some b
    → a < b
increasing-get_elem? [] i j a b h p e f = absurd (ground (arith, e))
increasing-get_elem? (x ∷ s) i zero a b h p e f = absurd (omega (arith, p))
increasing-get_elem? (x ∷ s) zero (suc j) a b h p e f =
    let later : x < b = increasing-head x b s j h f in ground (arith, e, later)
increasing-get_elem? (x ∷ []) (suc i) (suc j) a b h p e f = absurd (ground (arith, e))
increasing-get_elem? (x ∷ y ∷ s) (suc i) (suc j) a b h p e f =
    increasing-get_elem? (y ∷ s) i j a b (ground (arith, h)) (omega (arith, p)) e f

within : (s : Bytes) (i : ℕ) → i < length s → (a : ℕ) × (get_elem? s i ≡ some a)
within [] i h = absurd (omega (arith, h))
within (x ∷ s) zero h = (x, refl)
within (x ∷ s) (suc i) h = within s i (omega (arith, h))

symbol-increasing : (d e : ℕ) → d < e → e < 32 → symbol d < symbol e
symbol-increasing d e p q =
    let (a, ea) = within id_alphabet d (omega (arith, p, q)) in
    let (b, eb) = within id_alphabet e (omega (arith, q)) in
    let less = increasing-get_elem? id_alphabet d e a b refl p ea eb in rw (ea, eb) less

length-digits32 : (k n : ℕ) → length (digits32 k n) ≡ k
unfolding digits32
length-digits32 zero n = refl
length-digits32 (suc k) n =
    omega (
      arith,
      length-append (digits32 k (n / 32)) (symbol (n % 32) ∷ []),
      length-digits32 k (n / 32),
    )

str_less-append :
    (s t a b : Bytes)
    → length s ≡ length t
    → str_less s t ≡ true
    → str_less (s ++ a) (t ++ b) ≡ true
str_less-append s [] a b h e = absurd (ground (arith, e))
str_less-append [] (y ∷ t) a b h e = absurd (omega (arith, h))
str_less-append (x ∷ s) (y ∷ t) a b h e =
    ground (arith, e, str_less-append s t a b (omega (arith, h)))

str_less-last : (s : Bytes) (x y : ℕ) → x < y → str_less (s ++ x ∷ []) (s ++ y ∷ []) ≡ true
str_less-last [] x y h = ground (arith, h)
str_less-last (z ∷ s) x y h = ground (arith, str_less-last s x y h)

front : (x y : ℕ) → x ≤ y → (x < y) ⊎ (x ≡ y)
front x y p = ground (arith, p)

digits32-less : (k n m : ℕ) → n < m → m < 32 ^ k → str_less (digits32 k n) (digits32 k m) ≡ true
unfolding digits32
digits32-less zero n m h b = absurd (omega (arith, h, b))
digits32-less (suc k) n m h b = elim (front (n / 32) (m / 32) (omega (arith, h))) [
  | inl less ↦
      str_less-append (digits32 k (n / 32)) (digits32 k (m / 32)) (symbol (n % 32) ∷ [])
        (symbol (m % 32) ∷ []) (length-digits32 k (n / 32) ∙ sym (length-digits32 k (m / 32)))
        (digits32-less k (n / 32) (m / 32) less (omega (arith, b)))
  | inr same ↦
      ap
        (λ x.
          str_less (digits32 k x ++ symbol (n % 32) ∷ [])
            (digits32 k (m / 32) ++ symbol (m % 32) ∷ []))
        same
      ∙ str_less-last (digits32 k (m / 32)) (symbol (n % 32)) (symbol (m % 32))
          (symbol-increasing (n % 32) (m % 32) (omega (arith, h, same)) (omega arith))
]

-- Of two ids that are made at different milliseconds, below 2 ^ 48, the earlier comes first in the
-- order of texts, whatever the random bits.
pub new_id-order :
    (ms ms' random random' : ℕ)
    → ms < ms'
    → ms' < 2 ^ 48
    → random < 2 ^ 80
    → random' < 2 ^ 80
    → str_less (new_id ms random) (new_id ms' random') ≡ true
unfolding new_id
new_id-order ms ms' random random' h b r r' =
    digits32-less 26 (id_bits ms random * 4) (id_bits ms' random' * 4) (omega (arith, h, b, r, r'))
      (omega (arith, b, r'))
