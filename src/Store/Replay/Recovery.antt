-- ===== src/Store/Replay/Recovery.antt =====
-- What `Replay` hands to its callback, and what it leaves of the file.
use rc_wnzzer.Base.{
  ℕ, ◌+◌, ◌≤◌, leb, if◌then◌else◌, ◌≡◌, refl, ap, ◌∙◌, Bool, true, false, Bytes, Option, none, some,
  Option-cases, inl, inr, List, [], ◌∷◌, ◌++◌, append-nil, length, take, take-nil, take_prefix,
  length-append, arith,
}
use rc_wnzzer.Store.Record.{Record, Stats}
use rc_wnzzer.Store.Codec.{Codec, HasNoNewline, line, lines}
use rc_wnzzer.Store.Wal.{
  Wal, Fault, open_wal, no_stats, Crash, crash, reopen, none_fails, flush, close_wal, Crash, reopen,
}
use rc_wnzzer.Store.Wal.Journal.{IsJournal, crash-lines, flush-safe}
use rc_wnzzer.Store.Replay.{
  count_replayed, reset_to, Split, split_from, Scan, scanned, refused, scan_lines, no_fault, finish,
  Replayed, replayed, replay_failed, replay,
}
use rc_wnzzer.Store.Replay.Lines.{lines-append, encoded, split-lines, length-line}

abbrev pub is_torn : Bytes → Bool
is_torn [] = false
is_torn (b ∷ s) = true

module _ (c : Codec) {S : Type 0} (callback : Record → S → Option S) where
  -- The callback over records as they are read back, in order.
  abbrev pub fold_records : List Record → S → Option S
  fold_records [] s = some s
  fold_records (r ∷ rs) s = elim (callback (c.reread r) s) [
    | none ↦ none
    | some s' ↦ fold_records rs s'
  ]

  -- The statistics of the records that are read back.
  abbrev pub replay_stats : List Record → Stats → Stats
  replay_stats [] st = st
  replay_stats (r ∷ rs) st = replay_stats rs (count_replayed (c.reread r) st)

  abbrev scan_result : ℕ → Stats → Bool → Option S → Scan S
  scan_result good st torn none = refused
  scan_result good st torn (some s) = scanned good st torn s

  scan-encoded :
      (rs : List Record) (tail : Bytes) (good : ℕ) (st : Stats) (s : S)
      → scan_lines c callback (encoded c rs) tail good st s
        ≡ scan_result
            (good + length (lines c rs))
            (replay_stats rs st)
            (is_torn tail)
            (fold_records rs s)
  unfolding scan_lines lines line
  scan-encoded [] [] good st s = ground arith
  scan-encoded [] (b ∷ tail) good st s = ground arith
  scan-encoded (r ∷ rs) tail good st s = elim (Option-cases (callback (c.reread r) s)) [
    | inl e ↦ rw (c.decode-encode r, e, scan_lines, fold_records) refl
    | inr (s₁, e) ↦
        let st₁ = count_replayed (c.reread r) st in
        let size : good + length (c.encode r) + 1 + length (lines c rs)
            ≡ good + length (line c r ++ lines c rs) =
          omega (arith, length-append (line c r) (lines c rs), length-line c r) in
        rw (c.decode-encode r, e, scan_lines, fold_records)
          (scan-encoded rs tail (good + length (c.encode r) + 1) st₁ s₁
            ∙ ap (λ n. scan_result n (replay_stats rs st₁) (is_torn tail) (fold_records rs s₁))
                size)
  ]

  -- The log after a replay: the good records, and how much of them is synced.
  abbrev pub recovered : (synced : ℕ) → List Record → Wal
  recovered k rs =
      reset_to (lines c rs) (length (lines c rs)) (replay_stats rs no_stats)
        (open_wal k (lines c rs))

  -- Cutting a torn line off syncs the file.
  abbrev pub synced_by : ℕ → (tail : Bytes) → List Record → ℕ
  synced_by k [] rs = k
  synced_by k (b ∷ tail) rs = length (lines c rs)

  -- What a replay ends with, if the callback ends with the given state or refuses a record.
  abbrev pub replay_result : Wal → Option S → Replayed S
  replay_result w none = replay_failed
  replay_result w (some s) = replayed w s

  scan-lines :
      (rs : List Record) (tail : Bytes) (s : S)
      → HasNoNewline tail
      → let parts = split_from [] (lines c rs ++ tail) in
        scan_lines c callback parts.whole parts.rest 0 no_stats s
        ≡ scan_result
            (length (lines c rs))
            (replay_stats rs no_stats)
            (is_torn tail)
            (fold_records rs s)
  scan-lines rs tail s h =
      ap (λ (p : Split). scan_lines c callback p.whole p.rest 0 no_stats s)
        (split-lines c rs tail h)
      ∙ scan-encoded rs tail 0 no_stats s
      ∙ ap (λ n. scan_result n (replay_stats rs no_stats) (is_torn tail) (fold_records rs s))
          (omega arith)

  -- A replay, of which no call fails, of a journal of whole records and a torn line: the callback
  -- sees the records in order, and the file is cut back to them.
  pub replay_torn :
      (f : Fault) (k : ℕ) (rs : List Record) (tail : Bytes) (s : S)
      → HasNoNewline tail
      → replay c callback no_fault f s (open_wal k (lines c rs ++ tail))
        ≡ replay_result (recovered (synced_by k tail rs) rs) (fold_records rs s)
  unfolding replay
  replay_torn f k rs tail s h = rw (scan-lines rs tail s h) (cut (fold_records rs s) tail)
    where
      cut :
          (o : Option S) (t : Bytes)
          → finish c callback no_fault
              (open_wal k (lines c rs ++ t))
              (scan_result (length (lines c rs)) (replay_stats rs no_stats) (is_torn t) o)
            ≡ replay_result (recovered (synced_by k t rs) rs) o
      cut none t = refl
      cut (some s') [] = rw append-nil refl
      cut (some s') (b ∷ t) = rw (take_prefix (lines c rs) (b ∷ t)) refl

  -- From whatever moment a crash takes a sound log, the next start, of which no call fails,
  -- replays all safe records and the first of the recent ones, in order; the safe ones are synced.
  pub replay-crash :
      (f : Fault) (n : Crash) (safe recent : List Record) (w : Wal) (s : S)
      → IsJournal c safe recent w
      → (m : ℕ) × (k : ℕ) × (length (lines c safe) ≤ k)
        × (k ≤ length (lines c (safe ++ take m recent)))
        × (replay c callback no_fault f s (reopen n w)
            ≡ replay_result
                (recovered k (safe ++ take m recent))
                (fold_records (safe ++ take m recent) s))
  replay-crash f n safe recent w s j =
      let (m, tail, torn, e) = crash-lines c n.kept safe recent w j in
      let rs = safe ++ take m recent in
      let size = length (crash n.kept w) in
      let reach = w.synced + n.settled in
      let k = if leb size reach then size else reach in
      let covers : length (lines c safe) ≤ k =
        ground (arith, crash_covers n.kept safe recent w j) in
      (
        m,
        synced_by k tail rs,
        lower k tail safe (take m recent) covers,
        upper k tail rs (ground (arith, ap length e)),
        ap (λ b. replay c callback no_fault f s (open_wal k b)) e ∙ replay_torn f k rs tail s torn,
      )
    where
      crash_covers :
          (n : ℕ) (safe recent : List Record) (w : Wal)
          → IsJournal c safe recent w
          → (length (lines c safe) ≤ length (crash n w)) × (length (lines c safe) ≤ w.synced)
      crash_covers n safe recent w j =
          let (m, tail, torn, e) = crash-lines c n safe recent w j in
          let size = ap length (lines-append c safe (take m recent)) in
          (
            omega (
              arith,
              ap length e,
              size,
              length-append (lines c (safe ++ take m recent)) tail,
              length-append (lines c safe) (lines c (take m recent)),
            ),
            j.covered,
          )

      lower :
          (k : ℕ) (tail : Bytes) (safe rs : List Record)
          → length (lines c safe) ≤ k
          → length (lines c safe) ≤ synced_by k tail (safe ++ rs)
      lower k [] safe rs h = h
      lower k (b ∷ tail) safe rs h =
          omega
            (arith, ap length (lines-append c safe rs), length-append (lines c safe) (lines c rs))

      upper :
          (k : ℕ) (tail : Bytes) (rs : List Record)
          → k ≤ length (lines c rs ++ tail)
          → synced_by k tail rs ≤ length (lines c rs)
      upper k [] rs h = omega (arith, h, length-append (lines c rs) [])
      upper k (b ∷ tail) rs h = omega arith

  -- After a close of a sound log whose flush does not fail, a crash at any moment loses nothing: the
  -- next start, of which no call fails, replays every record that was written, in order.
  pub close-replay :
      (f : Fault) (n : Crash) (is_closed : Bool) (safe recent : List Record) (w : Wal) (s : S)
      → IsJournal c safe recent w
      → replay c callback no_fault f s (reopen n (close_wal none_fails is_closed w).0)
        ≡ replay_result
            (recovered (length (lines c (safe ++ recent))) (safe ++ recent))
            (fold_records (safe ++ recent) s)
  unfolding close_wal
  close-replay f n is_closed safe recent w s j =
      let all = safe ++ recent in
      let (m, k, lo, hi, e) = replay-crash f n all [] (flush none_fails w).0 s (flush-safe c j) in
      let whole : all ++ take m [] ≡ all = ap (◌++◌ all) (take-nil m) ∙ append-nil all in
      let full : k ≡ length (lines c all) =
        omega (arith, lo, hi, ap (λ rs. length (lines c rs)) whole) in
      e
      ∙ ap (λ rs. replay_result (recovered k rs) (fold_records rs s)) whole
      ∙ ap (λ x. replay_result (recovered x all) (fold_records all s)) full
