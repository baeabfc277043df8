-- ===== src/Store/Wal/Journal.antt =====
-- The journal as its clients see it: the records that a crash cannot take away, and those written
-- since, of which a crash leaves the first ones.
use rc_wnzzer.Base.{
  ℕ, ◌+◌, ◌-◌, ◌≤◌, ◌≡◌, refl, sym, ap, ◌∙◌, Bool, true, false, Bytes, List, [], ◌∷◌, ◌++◌,
  append-nil, append_assoc, take, drop, take_within, take_all, take-append, take-append-drop, leb,
  leb→le, Bool-cases, inl, inr, length, length-append, arith,
}
use rc_wnzzer.Store.Record.{Record, Stats}
use rc_wnzzer.Store.Codec.{Codec, HasNoNewline, line, lines}
use rc_wnzzer.Store.Replay.Lines.{lines-append, take-lines}
use rc_wnzzer.Store.Wal.{
  Wal, Io, none_fails, spill, write, flush, append, open_wal, crash, no_fault, compact,
}

-- A sound log: its lines are those of the two lists, and the first list is synced.
pub record IsJournal (c : Codec) (safe recent : List Record) (w : Wal) : Type 0 where
  pub content : w.file ++ w.buf ≡ lines c safe ++ lines c recent
  pub covered : length (lines c safe) ≤ w.synced
  pub on_file : w.synced ≤ length w.file
  pub attached : w.attached ≡ true
  pub sound : w.stuck ≡ false

module _ (c : Codec) where
  pub write_sound :
      (io : Io) (s : Bytes) (w : Wal)
      → io.fault ≡ none_fails
      → w.attached ≡ true
      → w.stuck ≡ false
      → write io s w ≡ (spill io.spilled (w.buf ++ s) w, true)
  unfolding write
  write_sound io s w ok on sound = rw (on, sound, ok) refl

  spill-content :
      (n : ℕ) (b : Bytes) (w : Wal) → (spill n b w).file ++ (spill n b w).buf ≡ w.file ++ b
  spill-content n b w =
      append_assoc w.file (take n b) (drop n b) ∙ ap (◌++◌ w.file) (take-append-drop n b)

  lines-one : (r : Record) → lines c (r ∷ []) ≡ line c r
  unfolding lines
  lines-one r = append-nil (line c r)

  extend-content :
      (r : Record) (safe recent : List Record) (w : Wal)
      → w.file ++ w.buf ≡ lines c safe ++ lines c recent
      → w.file ++ (w.buf ++ line c r) ≡ lines c safe ++ lines c (recent ++ r ∷ [])
  extend-content r safe recent w e =
      sym (append_assoc w.file w.buf (line c r))
      ∙ ap (λ s. s ++ line c r) e
      ∙ append_assoc (lines c safe) (lines c recent) (line c r)
      ∙ ap (◌++◌ (lines c safe))
          (sym (lines-append c recent (r ∷ []) ∙ ap (◌++◌ (lines c recent)) (lines-one r)))

  -- All that stands in the file and the buffer has been synced.
  settled :
      (safe recent : List Record) (file : Bytes) (dirty : Bool) (stats : Stats)
      → file ≡ lines c safe ++ lines c recent
      → IsJournal c
          (safe ++ recent)
          []
          (record (open_wal (length file) file) { dirty = dirty; stats = stats })
  unfolding lines
  settled safe recent file dirty stats e =
      let whole : file ≡ lines c (safe ++ recent) = e ∙ sym (lines-append c safe recent) in
      record {
        content = ap (λ s. s ++ []) whole;
        covered = omega (arith, ap length whole);
        on_file = omega arith;
        attached = refl;
        sound = refl;
      }

  -- A record that is appended without a sync, and with no call failing, joins the recent ones of a
  -- sound log.
  pub append-recent :
      (io : Io) (r : Record) {safe recent : List Record} {w : Wal}
      → io.fault ≡ none_fails
      → IsJournal c safe recent w
      → IsJournal c safe (recent ++ r ∷ []) (append c io r false w).0
  unfolding append
  append-recent io r {safe} {recent} {w} ok j =
      rw (write_sound io (line c r) w ok j.attached j.sound, append)
        (record {
          content =
              spill-content io.spilled (w.buf ++ line c r) w
              ∙ extend-content r safe recent w j.content;
          covered = j.covered;
          on_file =
              omega (arith, j.on_file, length-append w.file (take io.spilled (w.buf ++ line c r)));
          attached = j.attached;
          sound = j.sound;
        })

  -- A synced append of which no call fails makes all records of a sound log safe, the earlier ones
  -- too.
  pub append-safe :
      (io : Io) (r : Record) {safe recent : List Record} {w : Wal}
      → io.fault ≡ none_fails
      → IsJournal c safe recent w
      → IsJournal c (safe ++ (recent ++ r ∷ [])) [] (append c io r true w).0
  unfolding append flush
  append-safe io r {safe} {recent} {w} ok j =
      rw (write_sound io (line c r) w ok j.attached j.sound, append, j.attached, j.sound, ok, flush)
        (settled safe (recent ++ r ∷ []) _ _ _ (
          spill-content io.spilled (w.buf ++ line c r) w
          ∙ extend-content r safe recent w j.content))

  -- A flush makes the recent records safe.
  pub flush-safe :
      {safe recent : List Record} {w : Wal}
      → IsJournal c safe recent w
      → IsJournal c (safe ++ recent) [] (flush none_fails w).0
  unfolding flush
  flush-safe {safe} {recent} {w} j =
      rw (j.attached, j.sound, flush) (settled safe recent _ _ _ j.content)

  -- A compaction leaves the snapshot, and nothing else, safe.
  pub compact-safe :
      (snap : List Record) (w : Wal) → IsJournal c snap [] (compact c no_fault snap w).0
  unfolding compact lines
  compact-safe snap w = record {
    content = refl;
    covered = omega arith;
    on_file = omega arith;
    attached = refl;
    sound = refl;
  }

  -- Cut anywhere behind the safe records, the file holds these and the first of the recent ones.
  cut-lines :
      (k : ℕ) (safe recent : List Record) (w : Wal)
      → w.file ++ w.buf ≡ lines c safe ++ lines c recent
      → length (lines c safe) ≤ k
      → k ≤ length w.file
      → (m : ℕ) × (tail : Bytes) × HasNoNewline tail
        × (take k w.file ≡ lines c (safe ++ take m recent) ++ tail)
  cut-lines k safe recent w e behind within =
      let (m, tail, whole, cut) = take-lines c recent (k - length (lines c safe)) in
      (
        m,
        tail,
        whole,
        sym (take_within w.file w.buf k within)
            ∙ ap (take k) e
            ∙ take-append (lines c safe) (lines c recent) k behind
            ∙ ap (◌++◌ (lines c safe)) cut
            ∙ sym (append_assoc (lines c safe) (lines c (take m recent)) tail)
            ∙ ap (λ s. s ++ tail) (sym (lines-append c safe (take m recent))),
      )

  -- After a crash the file holds the safe records, the first of the recent ones, and a torn line.
  pub crash-lines :
      (n : ℕ) (safe recent : List Record) (w : Wal)
      → IsJournal c safe recent w
      → (m : ℕ) × (tail : Bytes) × HasNoNewline tail
        × (crash n w ≡ lines c (safe ++ take m recent) ++ tail)
  crash-lines n safe recent w j = elim (Bool-cases (leb (w.synced + n) (length w.file))) [
    | inl within ↦
        cut-lines (w.synced + n) safe recent w j.content (omega (arith, j.covered))
          (leb→le _ _ within)
    | inr over ↦
        let whole : take (w.synced + n) w.file ≡ take (length w.file) w.file =
          take_all w.file (w.synced + n) (ground (arith, over))
          ∙ sym (take_all w.file (length w.file) (omega arith)) in
        let (m, tail, torn, e) =
          cut-lines (length w.file) safe recent w j.content (omega (arith, j.covered, j.on_file))
            (omega arith) in
        (m, tail, torn, whole ∙ e)
  ]
