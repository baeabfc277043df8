-- ===== src/Store/Wal.antt =====
-- internal/store/wal.go: the append-only journal. What the operating system and the buffered
-- writer answer to one call is an argument (`Io`, `CompactFault`); the codec is a parameter.
pub mod Journal
pub mod Failures
use rc_wnzzer.Base.{
  ◌&&◌, ℕ, ◌+◌, Bool, true, false, Bytes, none, some, List, [], ◌∷◌, ◌++◌, length, take, drop, leb,
  if◌then◌else◌, not,
}
use rc_wnzzer.Model.{Task}
use rc_wnzzer.Store.Record.{Record, Stats, Kind, enq, att, done, dead}
use rc_wnzzer.Store.Codec.{Codec, line, lines, stats_of}

-- `file` is what the operating system has, `synced` how much of it the last fsync covers, `buf` what
-- the buffered writer holds. `stuck` is that writer's sticky error. `attached` is false once a failed
-- compaction has closed the file and pointed the writer at `io.Discard`.
pub record Wal : Type 0 where
  pub file : Bytes
  pub synced : ℕ
  pub buf : Bytes
  pub stuck : Bool
  pub attached : Bool
  pub dirty : Bool
  pub stats : Stats

abbrev pub no_stats : Stats
no_stats = record { records = 0; terminal = 0; bytes = 0 }

-- `OpenWAL` over the bytes that the directory holds, of which the first ones are on the disk: it syncs
-- none itself.
abbrev pub open_wal : (synced : ℕ) → Bytes → Wal
open_wal synced s = record {
  file = s;
  synced = synced;
  buf = [];
  stuck = false;
  attached = true;
  dirty = false;
  stats = no_stats;
}

-- Which call of an append or a flush fails: `write_fails j` accepts j bytes of the line, and
-- `flush_fails k` hands k bytes of the buffer over.
pub data Fault : Type 0 where
  none_fails sync_fails : Fault
  write_fails flush_fails : ℕ → Fault

-- One append: the clock, the failing call, and how many bytes of the buffer `Write` spilled.
pub record Io : Type 0 where
  pub ts : ℕ
  pub fault : Fault
  pub spilled : ℕ

-- A writer hands the first n bytes of its buffer to the file.
abbrev pub spill : ℕ → Bytes → Wal → Wal
spill n b w = record w { file = w.file ++ take n b; buf = drop n b }

-- `flushLocked`; the flag is true if it returns nil.
flush_fault : Fault → Wal → Wal × Bool
flush_fault (flush_fails k) w = (record (spill k w.buf w) { stuck = true }, false)
flush_fault sync_fails w = (record w { file = w.file ++ w.buf; buf = [] }, false)
flush_fault _ w =
    let file = w.file ++ w.buf in
    (record w { file = file; synced = length file; buf = []; dirty = false }, true)

unfoldable pub flush : Fault → Wal → Wal × Bool
unfolding flush_fault
flush f w =
    if not w.attached
    then (record w { buf = [] }, false)
    else if w.stuck
    then (w, false)
    else flush_fault f w

-- `w.w.Write(line)`
write_fault : Fault → ℕ → Bytes → Wal → Wal × Bool
write_fault (write_fails j) n s w = (record (spill n (w.buf ++ take j s) w) { stuck = true }, false)
write_fault _ n s w = (spill n (w.buf ++ s) w, true)

unfoldable pub write : Io → Bytes → Wal → Wal × Bool
unfolding write_fault
write io s w =
    if not w.attached
    then (record w { buf = w.buf ++ s }, true)
    else if w.stuck
    then (w, false)
    else write_fault io.fault io.spilled s w

-- What the next start finds after a crash: all that was synced, and some of the rest of the file.
abbrev pub crash : ℕ → Wal → Bytes
crash n w = take (w.synced + n) w.file

-- A crash: how much is found of the file behind what was synced, and how much of that is on the disk,
-- where no later crash takes it. All of it is if the machine has lost its power; it may be none if the
-- process alone was killed.
pub record Crash : Type 0 where
  pub kept : ℕ
  pub settled : ℕ

-- What `OpenWAL` makes of the journal after a crash.
abbrev pub reopen : Crash → Wal → Wal
reopen k w =
    let s = crash k.kept w in
    open_wal (if leb (length s) (w.synced + k.settled) then length s else w.synced + k.settled) s

-- The tick of `syncLoop`.
unfoldable pub sync_tick : Fault → Wal → Wal
sync_tick f w = (if w.dirty then flush f w else (w, true)).0

-- `Close`: what is buffered is flushed and the file closed, after which nothing is written.
-- `is_closed` is whether the closing succeeds.
unfoldable pub close_wal : Fault → (is_closed : Bool) → Wal → Wal × Bool
close_wal f is_closed w = let (w', fine) = flush f w in (w', fine && is_closed)

-- Where a compaction fails: before the old file is touched (creating, writing, syncing or closing
-- the new one), in closing the old file or renaming, or in syncing the directory or reopening.
pub data CompactFault : Type 0 where
  no_fault before_swap swap_fails after_swap : CompactFault

abbrev pub err_field_max : ℕ
err_field_max = 256

-- `truncate`; the three bytes are "…" in UTF-8.
unfoldable pub truncate : Bytes → ℕ → Bytes
truncate s max = if leb (length s) max then s else take max s ++ 0xe2 ∷ 0x80 ∷ 0xa6 ∷ []

abbrev blank : Kind → Bytes → ℕ → Record
blank kind id ts = record {
  kind = kind;
  id = id;
  ts = ts;
  task = none;
  n = 0;
  res = [];
  code = 0;
  err = [];
  resp = [];
  next_at = 0;
  why = [];
}

abbrev pub enqueue_record : ℕ → Task → Record
enqueue_record ts t = record (blank enq t.id ts) { task = some t }

abbrev pub attempt_record :
    ℕ → (id : Bytes) (n : ℕ) (res : Bytes) (code : ℕ) (msg : Bytes) (next_at : ℕ) → Record
attempt_record ts id n res code msg next_at = record (blank att id ts) {
  n = n;
  res = res;
  code = code;
  err = msg;
  next_at = next_at;
}

abbrev pub done_record : ℕ → (id : Bytes) (n code : ℕ) (resp : Bytes) → Record
done_record ts id n code resp = record (blank done id ts) { n = n; code = code; resp = resp }

abbrev pub dead_record : ℕ → (id : Bytes) (n : ℕ) (why : Bytes) → Record
dead_record ts id n why = record (blank dead id ts) { n = n; why = why }

module _ (c : Codec) where
  abbrev count_line : Record → Wal → Wal
  count_line r w = record w { dirty = true; stats = stats_of c (r ∷ []) w.stats }

  -- `append`; `Marshal` cannot fail on a `Record`, which holds texts and integers only.
  unfoldable pub append : Io → Record → Bool → Wal → Wal × Bool
  append io r sync w =
      let (w₁, written) = write io (line c r) w in
      if written
      then (if sync then flush io.fault (count_line r w₁) else (count_line r w₁, true))
      else (w₁, false)

  -- The four `Append*` methods: `ts` is the clock that each reads.
  unfoldable pub append_enqueue : Io → Task → Wal → Wal × Bool
  unfolding append
  append_enqueue io t w = append io (enqueue_record io.ts t) true w

  unfoldable pub append_attempt :
      Io
      → (id : Bytes) (n : ℕ) (res : Bytes) (code : ℕ) (msg : Bytes) (next_at : ℕ) → Wal
      → Wal × Bool
  unfolding append
  append_attempt io id n res code msg next_at w =
      append io (attempt_record io.ts id n res code (truncate msg err_field_max) next_at) false w

  unfoldable pub append_done : Io → (id : Bytes) (n code : ℕ) (resp : Bytes) → Wal → Wal × Bool
  unfolding append
  append_done io id n code resp w =
      append io (done_record io.ts id n code (truncate resp err_field_max)) false w

  unfoldable pub append_dead : Io → (id : Bytes) (n : ℕ) (why : Bytes) → Wal → Wal × Bool
  unfolding append
  append_dead io id n why w = append io (dead_record io.ts id n why) false w

  -- `Compact`: the new file is written, synced and renamed over the journal.
  unfoldable pub compact : CompactFault → List Record → Wal → Wal × Bool
  compact before_swap snap w = (w, false)
  compact swap_fails snap w = (record w { buf = []; stuck = false; attached = false }, false)
  compact after_swap snap w =
      let file = lines c snap in
      (
        record w { file = file; synced = length file; buf = []; stuck = false; attached = false },
        false,
      )
  compact no_fault snap w = (
    record (open_wal (length (lines c snap)) (lines c snap)) { stats = stats_of c snap no_stats },
    true,
  )
