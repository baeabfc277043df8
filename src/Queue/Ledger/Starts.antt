-- ===== src/Queue/Ledger/Starts.antt =====
-- The journal after a compaction, and after a crash and a start.
use rc_wnzzer.Base.{
  ◌≡◌, refl, ap, ◌∙◌, false, Bytes, str_eq, eq_iff, Option, none, some, Option-cases, Bool-cases,
  inl, inr, List, [], arith,
}
use rc_wnzzer.Base.Table.{Table, lookup, lookup-nil, HasUniqueKeys}
use rc_wnzzer.Model.{
  State, unset, pending, waiting, sending, succeeded, dead, Task, terminal, state_eq,
}
use rc_wnzzer.Store.Codec.{Codec}
use rc_wnzzer.Store.Wal.{Wal, CompactFault, compact}
use rc_wnzzer.Store.Wal.Journal.{compact-safe}
use rc_wnzzer.Queue.Maintain.{snapshot}
use rc_wnzzer.Queue.Restore.{Maps}
use rc_wnzzer.Queue.Restore.Folded.{AllSound}
use rc_wnzzer.Queue.Restore.Sound.{empty-MapsInv}
use rc_wnzzer.Queue.Restore.Starts.{fold-MapsInv}
use rc_wnzzer.Queue.Restore.Snapshot.{image_in, unfinished_image}
use rc_wnzzer.Queue.Restore.Compacted.{
  AllKeyed, image_or, Recalled, fold-snapshot, snapshot-OpensOnce,
}
use rc_wnzzer.Queue.Restore.Remembers.{KeyKnown}
use rc_wnzzer.Queue.Ledger.{Recorded, IsRecorded, Ledger, no_maps}
use rc_wnzzer.Queue.Ledger.Writes.{Ledger-fresh}

unfinished-Recorded :
    (t : Task)
    → terminal t.state ≡ false
    → state_eq t.state succeeded ≡ false
    → state_eq t.state dead ≡ false
    → Recorded t (unfinished_image t)
unfinished-Recorded t busy a b = record {
  submission = record {
    same_id = ground arith;
    same_key = ground arith;
    same_policy = ground arith;
    same_caller = ground arith;
  };
  attempts = ground arith;
  target = inl (ground arith);
  over = ground arith;
  end = inl busy;
  reason = inl b;
  due = inr (ground arith);
}

image-Recorded : (s : State) (t : Task) → t.state ≡ s → Recorded t (image_in s t)
image-Recorded succeeded t e = record {
  submission = record {
    same_id = rw (e) refl;
    same_key = rw (e) refl;
    same_policy = rw (e) refl;
    same_caller = rw (e) refl;
  };
  attempts = refl;
  target = inr (rw (e) refl, rw (e) refl);
  over = rw (e) refl;
  end = inr (rw (e) refl);
  reason = inl (rw (e) refl);
  due = inl (rw (e) refl);
}
image-Recorded dead t e = record {
  submission = record {
    same_id = rw (e) refl;
    same_key = rw (e) refl;
    same_policy = rw (e) refl;
    same_caller = rw (e) refl;
  };
  attempts = refl;
  target = inl (rw (e) refl);
  over = rw (e) refl;
  end = inr (rw (e) refl);
  reason = inr refl;
  due = inl (rw (e) refl);
}
image-Recorded pending t e = unfinished-Recorded t (rw (e) refl) (rw (e) refl) (rw (e) refl)
image-Recorded waiting t e = unfinished-Recorded t (rw (e) refl) (rw (e) refl) (rw (e) refl)
image-Recorded sending t e = unfinished-Recorded t (rw (e) refl) (rw (e) refl) (rw (e) refl)
image-Recorded unset t e = unfinished-Recorded t (rw (e) refl) (rw (e) refl) (rw (e) refl)

image_or-IsRecorded : (o : Option Task) → IsRecorded o (image_or o none)
image_or-IsRecorded none = tt
image_or-IsRecorded (some t) = image-Recorded t.state t refl

image-keyed :
    (tasks : Table Task) (m m' : Maps)
    → Recalled tasks m m'
    → (j : Bytes) → KeyKnown (image_or (lookup j tasks) none) m'.idem
image-keyed tasks m m' r j = elim (Option-cases (lookup j tasks)) [
  | inl e ↦ rw (e) tt
  | inr (t, e) ↦ rw (e) (
      let key = (image-Recorded t.state t refl).submission.same_key in
      elim (Bool-cases (str_eq t.idem_key [])) [
        | inl bare ↦ inl (ground (arith, key, bare, eq_iff t.idem_key []))
        | inr named ↦ inr (rw (key) (r.keys j t e (ground (arith, named, eq_iff t.idem_key []))))
      ])
]

module _ {c : Codec} {given : List Bytes} {w : Wal} {tasks : Table Task}
    (l : Ledger c given w tasks) where
  -- A compaction leaves a journal that records the tasks.
  pub compact-Ledger :
      HasUniqueKeys tasks
      → AllKeyed tasks
      → AllSound c (snapshot tasks)
      → Ledger c given (compact c CompactFault.no_fault (snapshot tasks) w).0 tasks
  compact-Ledger unique keyed sound =
      let snap = snapshot tasks in
      let (m, folded, r) = fold-snapshot c tasks no_maps unique keyed sound in
      let there : (j : Bytes) → lookup j m.tasks ≡ image_or (lookup j tasks) none =
        λ j. r.found j ∙ ap (image_or (lookup j tasks)) (lookup-nil j) in
      record {
        safe = snap;
        recent = [];
        journal = compact-safe c snap w;
        base = m;
        base_folded = folded;
        base_Inv =
            fold-MapsInv c snap no_maps m empty-MapsInv sound
              (snapshot-OpensOnce tasks unique keyed) (λ id a. lookup-nil id) folded;
        updates = tt;
        maps = m;
        folded = refl;
        known = λ j. rw (there j) (image_or-IsRecorded (lookup j tasks));
        keys = λ j. rw (there j) (image-keyed tasks no_maps m r j);
        only = λ j n. there j ∙ rw (Ledger-fresh l j n) refl;
      }
