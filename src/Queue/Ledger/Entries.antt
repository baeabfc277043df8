-- ===== src/Queue/Ledger/Entries.antt =====
-- What the journal's record of an attempt, of an end and of a revival makes of what it has of a task.
use rc_wnzzer.Base.{
  ℕ, ◌+◌, ◌≤◌, ◌≡◌, refl, sym, ◌∙◌, Bool, true, false, Bytes, bytes, inl, inr, List, arith,
}
use rc_wnzzer.Model.{Task, succeeded, state_eq, terminal}
use rc_wnzzer.Store.Record.{Record, res_retry}
use rc_wnzzer.Store.Codec.{Codec, line}
use rc_wnzzer.Store.Wal.{
  Wal, Io, none_fails, flush, append, attempt_record, done_record, dead_record, truncate,
  err_field_max,
}
use rc_wnzzer.Store.Wal.Journal.{IsJournal, write_sound}
use rc_wnzzer.Queue.Ops.{retried, delivered, buried, revived}
use rc_wnzzer.Queue.Restore.{from_att, from_done, from_dead}
use rc_wnzzer.Queue.Ledger.{SameSubmission, Recorded}
use rc_wnzzer.Queue.Ledger.Updates.{SameSubmission-trans, SameSubmission-sym}

pub append_fine :
    (c : Codec) (io : Io) (r : Record) (sync : Bool) {safe recent : List Record} {w : Wal}
    → io.fault ≡ none_fails
    → IsJournal c safe recent w
    → (append c io r sync w).1 ≡ true
unfolding append flush
append_fine c io r true {w = w} ok j =
    rw (write_sound c io (line c r) w ok j.attached j.sound, append, j.attached, j.sound, ok, flush)
      refl
append_fine c io r false {w = w} ok j =
    rw (write_sound c io (line c r) w ok j.attached j.sound, append) refl

-- A target is only ever stripped of a task that has succeeded.
own_target : (t u : Task) → Recorded t u → state_eq t.state succeeded ≡ false → u.target ≡ t.target
own_target t u r e = elim r.target [
  | inl same ↦ same
  | inr (over, stripped) ↦ absurd (ground (arith, over, e))
]

pub retried-Recorded :
    (now code : ℕ) (msg : Bytes) (next_at ts : ℕ) (t u : Task)
    → state_eq t.state succeeded ≡ false
    → Recorded t u
    → Recorded (retried now code msg next_at t) (
        from_att
          (attempt_record ts t.id
            (t.attempts + 1)
            res_retry
            code
            (truncate msg err_field_max)
            next_at)
          u)
retried-Recorded now code msg next_at ts t u e r = record {
  submission = record {
    same_id = r.submission.same_id;
    same_key = r.submission.same_key;
    same_policy = r.submission.same_policy;
    same_caller = r.submission.same_caller;
  };
  attempts = refl;
  target = inl (own_target t u r e);
  over = refl;
  end = inl refl;
  reason = inl refl;
  due = inr (omega arith);
}

pub delivered-Recorded :
    (now code : ℕ) (resp : Bytes) (ts : ℕ) (t u : Task)
    → state_eq t.state succeeded ≡ false
    → Recorded t u
    → Recorded
        (delivered now code resp t)
        (from_done (done_record ts t.id (t.attempts + 1) code (truncate resp err_field_max)) u)
delivered-Recorded now code resp ts t u e r = record {
  submission = record {
    same_id = r.submission.same_id;
    same_key = r.submission.same_key;
    same_policy = r.submission.same_policy;
    same_caller = r.submission.same_caller;
  };
  attempts = refl;
  target = inl (rw (own_target t u r e) refl);
  over = refl;
  end = inr refl;
  reason = inl refl;
  due = inl refl;
}

pub buried-Recorded :
    (now code : ℕ) (msg why : Bytes) (ts : ℕ) (t u : Task)
    → state_eq t.state succeeded ≡ false
    → Recorded t u
    → Recorded (buried now code msg why t) (from_dead (dead_record ts t.id (t.attempts + 1) why) u)
buried-Recorded now code msg why ts t u e r = record {
  submission = record {
    same_id = r.submission.same_id;
    same_key = r.submission.same_key;
    same_policy = r.submission.same_policy;
    same_caller = r.submission.same_caller;
  };
  attempts = refl;
  target = inl (own_target t u r e);
  over = refl;
  end = inr refl;
  reason = inr refl;
  due = inl refl;
}

pub revived-Recorded :
    (now ts : ℕ) (t u : Task)
    → state_eq t.state succeeded ≡ false
    → Recorded t u
    → Recorded (revived now t) (
        from_att
          (attempt_record ts t.id 0 res_retry 0 (truncate (bytes "revived") err_field_max) now)
          u)
revived-Recorded now ts t u e r = record {
  submission = record {
    same_id = r.submission.same_id;
    same_key = r.submission.same_key;
    same_policy = r.submission.same_policy;
    same_caller = r.submission.same_caller;
  };
  attempts = refl;
  target = inl (own_target t u r e);
  over = refl;
  end = inl refl;
  reason = inl refl;
  due = inr (omega arith);
}

-- A task that has not ended stays recorded whatever its state of that kind, if it is not put forward.
pub moved-Recorded :
    (t t' u : Task)
    → Recorded t u
    → SameSubmission t t'
    → t'.attempts ≡ t.attempts
    → t'.target ≡ t.target
    → terminal t.state ≡ false
    → terminal t'.state ≡ false
    → t.next_at ≤ t'.next_at
    → Recorded t' u
moved-Recorded t t' u r same attempts target busy busy' late = record {
  submission = SameSubmission-trans t' t u (SameSubmission-sym t t' same) r.submission;
  attempts = r.attempts ∙ sym attempts;
  target = inl (own_target t u r (ground (arith, busy)) ∙ sym target);
  over = r.over ∙ busy ∙ sym busy';
  end = inl busy';
  reason = inl (ground (arith, busy'));
  due = inr (ground (arith, r.due, busy, late));
}
