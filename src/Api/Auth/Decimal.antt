-- ===== src/Api/Auth/Decimal.antt =====
-- The decimal text of an int64 in internal/api/auth.go, and reading it back.
use rc_wnzzer.Base.{
  ℕ, zero, suc, ◌+◌, ◌*◌, ◌/◌, ◌%◌, ◌^◌, ◌-◌, ◌<◌, ◌≤◌, ◌≡◌, refl, sym, ap, ◌∙◌, Bool-cases, Bool,
  true, false, Bytes, some, [], ◌∷◌, ◌++◌, ltb, inl, inr, if◌then◌else◌, arith,
}
use rc_wnzzer.Store.Codec.{HasNoNewline}
use rc_wnzzer.Dispatch.RetryAfter.{Int64, pos, neg, is_digit, digits_from, atoi}
use rc_wnzzer.Api.Auth.{hex_digit, hex, format_from, format_int, AreBytes}

-- The int64 values, each in one way.
abbrev pub IsInt64 : Int64 → Type 0
IsInt64 (pos n) = n < 2 ^ 63
IsInt64 (neg n) = (0 < n) × (n ≤ 2 ^ 63)

digits_from-append :
    (a m b : ℕ) (s : Bytes)
    → digits_from a s ≡ some m
    → is_digit b ≡ true
    → digits_from a (s ++ b ∷ []) ≡ some (m * 10 + (b - b'0'))
unfolding digits_from
digits_from-append a m b [] h d = ground (arith, h, d)
digits_from-append a m b (x ∷ s) h d =
    ground (arith, h, d, digits_from-append (a * 10 + (x - b'0')) m b s)

digits-one : (n : ℕ) → n < 10 → digits_from 0 ((n + b'0') ∷ []) ≡ some n
unfolding digits_from
digits-one n h = ground (arith, h)

digits-format : (k n : ℕ) → n < 10 ^ suc k → digits_from 0 (format_from (suc k) n) ≡ some n
unfolding format_from
digits-format zero n h =
    let small : ltb n 10 ≡ true = ground (arith, h) in
    rw (small) (digits-one n (ground (arith, small)))
digits-format (suc k) n h = elim (Bool-cases (ltb n 10)) [
  | inl small ↦ rw (small) (digits-one n (ground (arith, small)))
  | inr large ↦ rw (large) (
      digits_from-append 0 (n / 10) (n % 10 + b'0') (format_from (suc k) (n / 10))
        (digits-format k (n / 10) (omega (arith, h))) (ground arith)
      ∙ ap some (omega arith))
]

starts_with_digit :
    (k n : ℕ) → (d : ℕ) × (s : Bytes) × (format_from (suc k) n ≡ d ∷ s) × (is_digit d ≡ true)
unfolding format_from
starts_with_digit zero n = elim (Bool-cases (ltb n 10)) [
  | inl small ↦ (n + b'0', [], rw (small) refl, ground (arith, small))
  | inr large ↦ (n % 10 + b'0', [], rw (large) refl, ground arith)
]
starts_with_digit (suc k) n = elim (Bool-cases (ltb n 10)) [
  | inl small ↦ (n + b'0', [], rw (small) refl, ground (arith, small))
  | inr large ↦
      let (d, s, e, digit) = starts_with_digit k (n / 10) in
      (d, s ++ (n % 10 + b'0') ∷ [], rw (large) (ap (λ x. x ++ (n % 10 + b'0') ∷ []) e), digit)
]

atoi-digits :
    (d n : ℕ) (s : Bytes)
    → is_digit d ≡ true
    → digits_from 0 (d ∷ s) ≡ some n
    → n < 2 ^ 63
    → atoi (d ∷ s) ≡ some (pos n)
unfolding atoi
atoi-digits d n s digit e small = ground (arith, digit, e, small)

atoi-minus :
    (d n : ℕ) (s : Bytes)
    → digits_from 0 (d ∷ s) ≡ some n
    → n ≤ 2 ^ 63
    → atoi (b'-' ∷ d ∷ s) ≡ some (neg n)
unfolding atoi
atoi-minus d n s e small = ground (arith, e, small)

-- `ParseInt` reads what `FormatInt` writes.
pub atoi-format_int : (ts : Int64) → IsInt64 ts → atoi (format_int ts) ≡ some ts
unfolding format_int
atoi-format_int (pos n) h =
    let (d, s, e, digit) = starts_with_digit 18 n in
    ap atoi e
    ∙ atoi-digits d n s digit (ap (digits_from 0) (sym e) ∙ digits-format 18 n (omega (arith, h))) h
atoi-format_int (neg zero) h = absurd (omega (arith, h.0))
atoi-format_int (neg (suc n)) h =
    let (d, s, e, digit) = starts_with_digit 18 (suc n) in
    ap (λ x. atoi (b'-' ∷ x)) e
    ∙ atoi-minus d (suc n) s
        (ap (digits_from 0) (sym e) ∙ digits-format 18 (suc n) (omega (arith, h.1))) h.1

HasNoNewline-append : (s t : Bytes) → HasNoNewline s → HasNoNewline t → HasNoNewline (s ++ t)
HasNoNewline-append [] t h k = k
HasNoNewline-append (b ∷ s) t h k = (h.0, HasNoNewline-append s t h.1 k)

either_line :
    (b : Bool) (s t : Bytes) → HasNoNewline s → HasNoNewline t → HasNoNewline (if b then s else t)
either_line true s t h k = h
either_line false s t h k = k

format_from-HasNoNewline : (k n : ℕ) → HasNoNewline (format_from k n)
unfolding format_from
format_from-HasNoNewline zero n = tt
format_from-HasNoNewline (suc k) n =
    either_line (ltb n 10) ((n + b'0') ∷ []) (format_from k (n / 10) ++ (n % 10 + b'0') ∷ [])
      (ground arith, tt)
      (HasNoNewline-append (format_from k (n / 10)) ((n % 10 + b'0') ∷ [])
        (format_from-HasNoNewline k (n / 10)) (ground arith, tt))

pub format_int-HasNoNewline : (ts : Int64) → HasNoNewline (format_int ts)
unfolding format_int
format_int-HasNoNewline (pos n) = format_from-HasNoNewline 19 n
format_int-HasNoNewline (neg zero) = format_from-HasNoNewline 19 0
format_int-HasNoNewline (neg (suc n)) = (ground arith, format_from-HasNoNewline 19 (suc n))

pub hex-HasNoNewline : (s : Bytes) → HasNoNewline (hex s)
unfolding hex
hex-HasNoNewline [] = tt
hex-HasNoNewline (b ∷ s) = (ground arith, (ground arith, hex-HasNoNewline s))

hex_digit-injective : (a b : ℕ) → hex_digit a ≡ hex_digit b → a ≡ b
hex_digit-injective a b e = ground (arith, e)

-- Two digests with the same text are the same.
pub hex-injective : (s t : Bytes) → AreBytes s → AreBytes t → hex s ≡ hex t → s ≡ t
unfolding hex
hex-injective [] [] h k e = refl
hex-injective [] (c ∷ t) h k e = absurd (ground (arith, e))
hex-injective (b ∷ s) [] h k e = absurd (ground (arith, e))
hex-injective (b ∷ s) (c ∷ t) h k e =
    let high = hex_digit-injective (b / 16) (c / 16) (ground (arith, e)) in
    let low = hex_digit-injective (b % 16) (c % 16) (ground (arith, e)) in
    let rest = hex-injective s t h.1 k.1 (ground (arith, e)) in
    let same : b ≡ c = omega (arith, high, low) in ground (arith, same, rest)
