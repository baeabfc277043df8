-- ===== src/Store/Replay/Lines.antt =====
-- Cutting the bytes of a journal into lines, whole and torn.
use rc_wnzzer.Base.{
  ℕ, zero, suc, ◌+◌, ◌-◌, ◌≤◌, ◌≡◌, refl, sym, ap, ◌∙◌, Bytes, List, [], ◌∷◌, ◌++◌, append-nil,
  append_assoc, length, take, length-append, take-nil, take_within, take-append, arith, leb,
  Bool-cases, inl, inr, leb→le,
}
use rc_wnzzer.Store.Record.{Record}
use rc_wnzzer.Store.Codec.{Codec, newline, HasNoNewline, line, lines}
use rc_wnzzer.Store.Replay.{Split, split_from}

split_from-line :
    (l : Bytes) (cur s : Bytes)
    → HasNoNewline l
    → split_from cur (l ++ newline ∷ s)
      ≡ record { whole = (cur ++ l) ∷ (split_from [] s).whole; rest = (split_from [] s).rest }
unfolding split_from
split_from-line [] cur s h = rw append-nil
split_from-line (b ∷ l) cur s h =
    ground (arith, split_from-line l (cur ++ b ∷ []) s h.1, append_assoc cur (b ∷ []) l)

split_from-rest :
    (l cur : Bytes) → HasNoNewline l → split_from cur l ≡ record { whole = []; rest = cur ++ l }
unfolding split_from
split_from-rest [] cur h = rw append-nil
split_from-rest (b ∷ l) cur h =
    ground (arith, split_from-rest l (cur ++ b ∷ []) h.1, append_assoc cur (b ∷ []) l)

take-HasNoNewline : (n : ℕ) (l : Bytes) → HasNoNewline l → HasNoNewline (take n l)
take-HasNoNewline zero l h = tt
take-HasNoNewline (suc n) [] h = tt
take-HasNoNewline (suc n) (b ∷ l) h = (h.0, take-HasNoNewline n l h.1)

module _ (c : Codec) where
  abbrev pub encoded : List Record → List Bytes
  encoded [] = []
  encoded (r ∷ rs) = c.encode r ∷ encoded rs

  pub split-lines :
      (rs : List Record) (tail : Bytes)
      → HasNoNewline tail
      → split_from [] (lines c rs ++ tail) ≡ record { whole = encoded rs; rest = tail }
  unfolding lines line
  split-lines [] tail h = split_from-rest tail [] h
  split-lines (r ∷ rs) tail h =
      let more = lines c rs ++ tail in
      let shape : lines c (r ∷ rs) ++ tail ≡ c.encode r ++ newline ∷ more =
        append_assoc (c.encode r ++ newline ∷ []) (lines c rs) tail
        ∙ append_assoc (c.encode r) (newline ∷ []) more in
      ap (split_from []) shape
      ∙ split_from-line (c.encode r) [] more (c.one_line r)
      ∙ ap (λ (x : Split). record { whole = c.encode r ∷ x.whole; rest = x.rest })
          (split-lines rs tail h)

  pub lines-append : (rs qs : List Record) → lines c (rs ++ qs) ≡ lines c rs ++ lines c qs
  unfolding lines
  lines-append [] qs = refl
  lines-append (r ∷ rs) qs =
      ap (◌++◌ (line c r)) (lines-append rs qs)
      ∙ sym (append_assoc (line c r) (lines c rs) (lines c qs))

  take_in_line :
      (r : Record) (rs : List Record) (k : ℕ)
      → k ≤ length (c.encode r)
      → take k (line c r ++ lines c rs) ≡ take k (c.encode r)
  unfolding line
  take_in_line r rs k h =
      ap (take k) (append_assoc (c.encode r) (newline ∷ []) (lines c rs))
      ∙ take_within (c.encode r) (newline ∷ lines c rs) k h

  pub length-line : (r : Record) → length (line c r) ≡ length (c.encode r) + 1
  unfolding line
  length-line r = length-append (c.encode r) (newline ∷ [])

  -- Cutting a journal anywhere leaves its first records and a torn line.
  pub take-lines :
      (rs : List Record) (k : ℕ)
      → (m : ℕ) × (tail : Bytes) × HasNoNewline tail
        × (take k (lines c rs) ≡ lines c (take m rs) ++ tail)
  unfolding lines
  take-lines [] k = (0, [], tt, take-nil k)
  take-lines (r ∷ rs) k = elim (Bool-cases (leb k (length (c.encode r)))) [
    | inl short ↦ (
      0,
      take k (c.encode r),
      take-HasNoNewline k (c.encode r) (c.one_line r),
      take_in_line r rs k (leb→le k _ short),
    )
    | inr long ↦
        let fits : length (line c r) ≤ k = ground (arith, length-line r) in
        let (m, tail, whole, e) = take-lines rs (k - length (line c r)) in
        (
          suc m,
          tail,
          whole,
          take-append (line c r) (lines c rs) k fits
              ∙ ap (◌++◌ (line c r)) e
              ∙ sym (append_assoc (line c r) (lines c (take m rs)) tail),
        )
  ]
