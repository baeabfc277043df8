-- ===== src/Queue/Ledger/Ready.antt =====
-- What a start makes of a task that the journal records.
use rc_wnzzer.Base.{◌≡◌, refl, sym, ◌∙◌, Bytes, Option, none, some, Bool-cases, inl, inr, arith}
use rc_wnzzer.Base.Table.{Table, weight_of}
use rc_wnzzer.Model.{Task, terminal}
use rc_wnzzer.Queue.Invariant.{live}
use rc_wnzzer.Queue.Restore.Rebuilt.{ready, ready_or}
use rc_wnzzer.Queue.Restore.Remembers.{KeyKnown}
use rc_wnzzer.Queue.Ledger.{Recorded, IsRecorded, IsHeld}
use rc_wnzzer.Queue.Ledger.Updates.{SameAt, SameAt-refl, ShedsAt-refl, IsHeld-before}

pub ready-Recorded : (u : Task) → Recorded (ready u) u
ready-Recorded u = elim (Bool-cases (terminal u.state)) [
  | inl over ↦ rw (over) (record {
    submission = record { same_id = refl; same_key = refl; same_policy = refl; same_caller = refl };
    attempts = refl;
    target = inl refl;
    over = refl;
    end = inr refl;
    reason = inr refl;
    due = inl over;
  })
  | inr busy ↦ rw (busy) (record {
    submission = record { same_id = refl; same_key = refl; same_policy = refl; same_caller = refl };
    attempts = refl;
    target = inl refl;
    over = busy;
    end = inl refl;
    reason = inl refl;
    due = inr (omega arith);
  })
]

pub ready_or-IsRecorded : (o : Option Task) → IsRecorded (ready_or o none) o
ready_or-IsRecorded none = tt
ready_or-IsRecorded (some u) = ready-Recorded u

-- What is recorded of a task is so of the task that a start makes of it.
pub ready-IsRecorded : (o o' : Option Task) → IsRecorded o o' → IsRecorded o (ready_or o' none)
ready-IsRecorded none o' r = tt
ready-IsRecorded (some t) none r = absurd r
ready-IsRecorded (some t) (some u) r = elim (Bool-cases (terminal u.state)) [
  | inl over ↦ rw (over) r
  | inr busy ↦ rw (busy) (record {
    submission = record {
      same_id = r.submission.same_id;
      same_key = r.submission.same_key;
      same_policy = r.submission.same_policy;
      same_caller = r.submission.same_caller;
    };
    attempts = r.attempts;
    target = r.target;
    over = sym busy ∙ r.over;
    end = inl (sym r.over ∙ busy);
    reason = r.reason;
    due = r.due;
  })
]

pub ready-IsHeld : (o o' : Option Task) → IsHeld o o' → IsHeld o (ready_or o' none)
ready-IsHeld none o' r = tt
ready-IsHeld (some t) none r = absurd r
ready-IsHeld (some t) (some u) r = record {
  submission = record {
    same_id = ground (arith, r.submission.same_id);
    same_key = ground (arith, r.submission.same_key);
    same_policy = ground (arith, r.submission.same_policy);
    same_caller = ground (arith, r.submission.same_caller);
  };
  target = elim (Bool-cases (terminal u.state)) [
    | inl over ↦ rw (over) r.target
    | inr busy ↦ rw (busy) r.target
  ];
}

pub IsRecorded-IsHeld : (o o' : Option Task) → IsRecorded o o' → IsHeld o o'
IsRecorded-IsHeld none o' r = tt
IsRecorded-IsHeld (some t) none r = absurd r
IsRecorded-IsHeld (some t) (some u) r =
    IsHeld-before (some t) (some u) (some u) r (SameAt-refl (some u)) (ShedsAt-refl (some u))

pub SameAt-KeyKnown :
    (o o' : Option Task) (idem : Table Bytes) → SameAt o o' → KeyKnown o' idem → KeyKnown o idem
SameAt-KeyKnown none o' idem s k = tt
SameAt-KeyKnown (some t) none idem s k = absurd s
SameAt-KeyKnown (some t) (some u) idem s (inl e) = inl (sym s.same_key ∙ e)
SameAt-KeyKnown (some t) (some u) idem s (inr n) = inr (rw (sym s.same_key) n)

pub ready_or_self : (o : Option Task) → ready_or o o ≡ ready_or o none
ready_or_self none = refl
ready_or_self (some u) = refl

pub live_ready : (o : Option Task) → weight_of live (ready_or o none) ≡ weight_of live o
live_ready none = refl
live_ready (some u) = ground arith

pub KeyKnown-ready :
    (o : Option Task) (idem : Table Bytes) → KeyKnown o idem → KeyKnown (ready_or o none) idem
KeyKnown-ready none idem k = tt
KeyKnown-ready (some u) idem k = elim (Bool-cases (terminal u.state)) [
  | inl over ↦ rw (over) k
  | inr busy ↦ rw (busy) k
]
