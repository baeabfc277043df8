-- ===== src/Store/Wal/Failures.antt =====
-- Appends and flushes of which any call may fail: what a nil error promises, and what no failure
-- takes away.
use rc_wnzzer.Base.{
  ℕ, ◌+◌, ◌≤◌, ◌≡◌, refl, sym, ap, ◌∙◌, Bool, true, false, Bytes, [], ◌∷◌, List, ◌++◌, append-nil,
  append_assoc, take, drop, take-append-drop, take-take, take_within, take_all, length,
  length-append, if◌then◌else◌, not, arith,
}
use rc_wnzzer.Store.Record.{Record, Stats}
use rc_wnzzer.Store.Codec.{Codec, line}
use rc_wnzzer.Store.Wal.{
  Wal, Io, Fault, sync_fails, write_fails, flush_fails, spill, write_fault, write, flush_fault,
  flush, count_line, append, sync_tick, crash,
}

-- `w'` holds all that `w` had in the file, has synced no less, and no more than it has.
pub record Extends (w w' : Wal) : Type 0 where
  pub added : Bytes
  pub file : w'.file ≡ w.file ++ added
  pub synced : w.synced ≤ w'.synced
  pub on_file : w'.synced ≤ length w'.file

Extends-trans : (u v w : Wal) → Extends u v → Extends v w → Extends u w
Extends-trans u v w p q = record {
  added = p.added ++ q.added;
  file = q.file ∙ ap (λ s. s ++ q.added) p.file ∙ append_assoc u.file p.added q.added;
  synced = omega (arith, p.synced, q.synced);
  on_file = q.on_file;
}

-- Splitting on a test inside a state.
if_either :
    (P : Wal → Type 0) (b : Bool) (x y : Wal × Bool) → P x.0 → P y.0 → P (if b then x else y).0
if_either P true x y px py = px
if_either P false x y px py = py

module _ (w : Wal) (h : w.synced ≤ length w.file) where
  same :
      (dirty stuck attached : Bool) (buf : Bytes) (stats : Stats)
      → Extends w
          (record w { dirty = dirty; stuck = stuck; attached = attached; buf = buf; stats = stats })
  same dirty stuck attached buf stats = record {
    added = [];
    file = sym (append-nil w.file);
    synced = omega arith;
    on_file = h;
  }

  spill-Extends :
      (n : ℕ) (b : Bytes) (stuck : Bool) → Extends w (record (spill n b w) { stuck = stuck })
  spill-Extends n b stuck = record {
    added = take n b;
    file = refl;
    synced = omega arith;
    on_file = omega (arith, h, length-append w.file (take n b));
  }

  write_fault-Extends : (f : Fault) (n : ℕ) (s : Bytes) → Extends w (write_fault f n s w).0
  unfolding write_fault
  write_fault-Extends (write_fails j) n s = spill-Extends n (w.buf ++ take j s) true
  write_fault-Extends _ n s = spill-Extends n (w.buf ++ s) w.stuck

  flush_fault-Extends : (f : Fault) → Extends w (flush_fault f w).0
  unfolding flush_fault
  flush_fault-Extends (flush_fails k) = spill-Extends k w.buf true
  flush_fault-Extends sync_fails = record {
    added = w.buf;
    file = refl;
    synced = omega arith;
    on_file = omega (arith, h, length-append w.file w.buf);
  }
  flush_fault-Extends _ = record {
    added = w.buf;
    file = refl;
    synced = omega (arith, h, length-append w.file w.buf);
    on_file = omega arith;
  }

  write-Extends : (io : Io) (s : Bytes) → Extends w (write io s w).0
  unfolding write
  write-Extends io s =
      if_either (Extends w) (not w.attached) _ _
        (same w.dirty w.stuck w.attached (w.buf ++ s) w.stats)
        (if_either (Extends w) w.stuck _ _ (same w.dirty w.stuck w.attached w.buf w.stats)
          (write_fault-Extends io.fault io.spilled s))

  pub flush-Extends : (f : Fault) → Extends w (flush f w).0
  unfolding flush
  flush-Extends f =
      if_either (Extends w) (not w.attached) _ _ (same w.dirty w.stuck w.attached [] w.stats) (
        if_either (Extends w) w.stuck _ _ (same w.dirty w.stuck w.attached w.buf w.stats)
          (flush_fault-Extends f))

pub data WalOp : Type 0 where
  appends : Io → Record → Bool → WalOp
  ticks : Fault → WalOp

module _ (c : Codec) where
  -- A synced append that returns nil leaves its record in the file, behind all that was written
  -- before, and the whole file synced.
  pub append-true :
      (io : Io) (r : Record) (w : Wal)
      → (append c io r true w).1 ≡ true
      → let w' = (append c io r true w).0 in
        (w'.file ≡ w.file ++ (w.buf ++ line c r)) × (w'.synced ≡ length w'.file) × (w'.buf ≡ [])
  unfolding append write flush
  append-true io r w h = ground (
    arith,
    append_assoc w.file (take io.spilled (w.buf ++ line c r)) (drop io.spilled (w.buf ++ line c r)),
    take-append-drop io.spilled (w.buf ++ line c r),
  )

  -- Whatever fails, an append takes nothing from the file, and nothing that was synced, if what
  -- was synced is in the file.
  pub append-Extends :
      (io : Io) (r : Record) (sync : Bool) (w : Wal)
      → w.synced ≤ length w.file
      → Extends w (append c io r sync w).0
  unfolding append
  append-Extends io r sync w h =
      let w₁ = (write io (line c r) w).0 in
      let e₁ = write-Extends w h io (line c r) in
      let w₂ = count_line c r w₁ in
      let e₂ =
        Extends-trans w w₁ w₂ e₁ (same w₁ e₁.on_file true w₁.stuck w₁.attached w₁.buf w₂.stats) in
      let e₃ = Extends-trans w w₂ (flush io.fault w₂).0 e₂ (flush-Extends w₂ e₂.on_file io.fault) in
      if_either (Extends w) (write io (line c r) w).1 _ _ (if_either (Extends w) sync _ _ e₃ e₂) e₁

  -- Later use of the log: appends, and ticks of the background flush, of which any may fail.
  unfoldable pub run_op : WalOp → Wal → Wal
  run_op (appends io r sync) w = (append c io r sync w).0
  run_op (ticks f) w = sync_tick f w

  unfoldable pub run_ops : List WalOp → Wal → Wal
  run_ops [] w = w
  run_ops (op ∷ ops) w = run_ops ops (run_op op w)

  run_op-Extends : (op : WalOp) (w : Wal) → w.synced ≤ length w.file → Extends w (run_op op w)
  unfolding run_op sync_tick
  run_op-Extends (appends io r sync) w h = append-Extends io r sync w h
  run_op-Extends (ticks f) w h =
      if_either (Extends w) w.dirty _ _ (flush-Extends w h f)
        (same w h w.dirty w.stuck w.attached w.buf w.stats)

  run_ops-Extends :
      (ops : List WalOp) (w : Wal) → w.synced ≤ length w.file → Extends w (run_ops ops w)
  unfolding run_ops
  run_ops-Extends [] w h = same w h w.dirty w.stuck w.attached w.buf w.stats
  run_ops-Extends (op ∷ ops) w h =
      let e = run_op-Extends op w h in
      Extends-trans w (run_op op w) (run_ops ops (run_op op w)) e
        (run_ops-Extends ops (run_op op w) e.on_file)

  crash-synced :
      (n : ℕ) (w w' : Wal)
      → w.synced ≤ length w.file
      → Extends w w'
      → (rest : Bytes) × (crash n w' ≡ take w.synced w.file ++ rest)
  crash-synced n w w' h e =
      let image = crash n w' in
      (
        drop w.synced image,
        sym (take-append-drop w.synced image)
            ∙ ap (λ s. s ++ drop w.synced image)
                (take-take w'.file w.synced (w'.synced + n) (omega (arith, e.synced))
                  ∙ ap (take w.synced) e.file
                  ∙ take_within w.file e.added w.synced h),
      )

  -- Once a synced append has returned nil, its record stays: whatever the later appends and flushes
  -- do and whichever of their calls fail, a crash at any moment leaves a file that begins with all
  -- that was written up to and including that record.
  pub crash-append-true :
      (io : Io) (r : Record) (w : Wal) (ops : List WalOp) (n : ℕ)
      → (append c io r true w).1 ≡ true
      → (rest : Bytes) × (crash n (run_ops ops (append c io r true w).0)
          ≡ (w.file ++ (w.buf ++ line c r)) ++ rest)
  crash-append-true io r w ops n h =
      let w' = (append c io r true w).0 in
      let (written, all, empty) = append-true io r w h in
      let fits : w'.synced ≤ length w'.file = omega (arith, all) in
      let (rest, e) = crash-synced n w' (run_ops ops w') fits (run_ops-Extends ops w' fits) in
      (rest, e ∙ ap (λ s. s ++ rest) (take_all w'.file w'.synced (omega (arith, all)) ∙ written))
