-- ===== src/Store/Replay.antt =====
-- `WAL.Replay` of internal/store/wal.go: reading the journal back and cutting off a torn tail.
pub mod Lines
pub mod Recovery
use rc_wnzzer.Base.{
  ℕ, ◌+◌, ◌==◌, Bool, true, false, bit, Bytes, Option, none, some, List, [], ◌∷◌, ◌++◌, length,
  take, if◌then◌else◌,
}
use rc_wnzzer.Store.Record.{Record, Stats, is_terminal}
use rc_wnzzer.Store.Codec.{Codec, newline}
use rc_wnzzer.Store.Wal.{Wal, no_stats, Fault, flush}

-- What `ReadBytes('\n')` returns call after call: the lines, and the rest at the end of the file.
pub record Split : Type 0 where
  pub whole : List Bytes
  pub rest : Bytes

-- `cur` is what has been read of the line.
unfoldable pub split_from : Bytes → Bytes → Split
split_from cur [] = record { whole = []; rest = cur }
split_from cur (b ∷ s) =
    let next = split_from [] s in
    let more = split_from (cur ++ b ∷ []) s in
    if b == newline then record { whole = cur ∷ next.whole; rest = next.rest } else more

-- Where the system calls of a replay fail; `read_fails k` reads k bytes and then fails otherwise than
-- with the end of the file.
pub data ReplayFault : Type 0 where
  no_fault seek_fails truncate_fails sync_fails seek_end_fails : ReplayFault
  read_fails : (k : ℕ) → ReplayFault

-- What the loop leaves: the bytes of the good records, their statistics, whether the tail is to be
-- cut off, and the callback's state; or the callback's refusal of a record.
pub data Scan {ℓ} (S : Type ℓ) : Type ℓ where
  scanned : (good : ℕ) (stats : Stats) (truncated : Bool) (s : S) → Scan S
  refused : Scan S

pub data Replayed {ℓ} (S : Type ℓ) : Type ℓ where
  replayed : Wal → S → Replayed S
  replay_failed : Replayed S

abbrev pub count_replayed : Record → Stats → Stats
count_replayed r s = record {
  records = s.records + 1;
  terminal = s.terminal + bit (is_terminal r.kind);
  bytes = s.bytes;
}

-- `w.w.Reset(w.f)` and the two assignments to `w.stats`.
abbrev pub reset_to : Bytes → ℕ → Stats → Wal → Wal
reset_to file good stats w = record w {
  file = file;
  buf = [];
  stuck = false;
  stats = record stats { bytes = good };
}

module _ (c : Codec) {S : Type 0} (callback : Record → S → Option S) where
  -- The loop over the lines. A line that is no record, or a rest with no newline, ends it.
  unfoldable pub scan_lines : List Bytes → Bytes → ℕ → Stats → S → Scan S
  scan_lines [] [] good stats s = scanned good stats false s
  scan_lines [] (b ∷ rest) good stats s = scanned good stats true s
  scan_lines (l ∷ ls) rest good stats s = elim (c.decode l) [
    | none ↦ scanned good stats true s
    | some r ↦ elim (callback r s) [
      | none ↦ refused
      | some s' ↦ scan_lines ls rest (good + length l + 1) (count_replayed r stats) s'
    ]
  ]

  -- What follows the loop: cutting the tail off, and setting the writer behind the last record.
  finish : ReplayFault → Wal → Scan S → Replayed S
  finish seek_end_fails w _ = replay_failed
  finish f w refused = replay_failed
  finish f w (scanned good stats false s) = replayed (reset_to w.file good stats w) s
  finish truncate_fails w (scanned good stats true s) = replay_failed
  finish sync_fails w (scanned good stats true s) = replay_failed
  finish f w (scanned good stats true s) =
      let file = take good w.file in
      replayed (record (reset_to file good stats w) { synced = length file }) s

  -- The last call of `ReadBytes` returns an error and what is left of the bytes that were read. These,
  -- less the last of them, are taken for a record; if they are none, the journal is cut off there.
  finish_broken : Wal → (rest : Bytes) → Scan S → Replayed S
  unfolding finish
  finish_broken w rest refused = replay_failed
  finish_broken w rest (scanned good stats true s) = finish no_fault w (scanned good stats true s)
  finish_broken w [] (scanned good stats false s) = replay_failed
  finish_broken w (b ∷ rest) (scanned good stats false s) =
      elim (c.decode (take (length rest) (b ∷ rest))) [
        | none ↦ finish no_fault w (scanned good stats true s)
        | some r ↦ replay_failed
      ]

  scan_wal : ReplayFault → S → Wal → Replayed S
  unfolding finish finish_broken
  scan_wal seek_fails s w = replay_failed
  scan_wal (read_fails k) s w =
      let parts = split_from [] (take k w.file) in
      finish_broken w parts.rest (scan_lines parts.whole [] 0 no_stats s)
  scan_wal f s w =
      let parts = split_from [] w.file in
      finish f w (scan_lines parts.whole parts.rest 0 no_stats s)

  after_flush : ReplayFault → S → Wal × Bool → Replayed S
  after_flush f s (w, true) = scan_wal f s w
  after_flush f s (w, false) = replay_failed

  -- `Replay`: what is buffered is flushed first. The journal is open and the writer is sound.
  unfoldable pub replay : ReplayFault → Fault → S → Wal → Replayed S
  unfolding scan_wal after_flush
  replay f io s w = if w.dirty then after_flush f s (flush io w) else scan_wal f s w
