-- ===== src/Queue/Durable.antt =====
-- What an accepted submission to internal/queue/queue.go promises of the journal.
use rc_wnzzer.Base.{
  ℕ, ◌<◌, ◌≡◌, refl, ap, ◌∙◌, true, false, Bool-cases, Bytes, none, Option-cases, inl, inr, List,
  ◌++◌, leb, arith,
}
use rc_wnzzer.Base.Table.{lookup, insert}
use rc_wnzzer.Model.{Task}
use rc_wnzzer.Store.Codec.{Codec, line}
use rc_wnzzer.Store.Wal.{Io, enqueue_record, append_enqueue, crash}
use rc_wnzzer.Store.Wal.Failures.{WalOp, run_ops, crash-append-true}
use rc_wnzzer.Queue.State.{Queue, schedule}
use rc_wnzzer.Queue.Ops.{accepted, enqueued, submit, submit_new}

module _ (c : Codec) (io : Io) (t t' : Task) (q : Queue) where
  -- What holds if a submission was accepted.
  pub record Accepted (q' : Queue) : Type 0 where
    pub fsynced : (append_enqueue c io t q.store).1 ≡ true
    pub stored : q'.store ≡ (append_enqueue c io t q.store).0
    pub tasks : q'.tasks ≡ insert t.id t' q.tasks
    pub idem : q'.idem ≡ insert t.idem_key t.id q.idem
    pub is_new : lookup t.idem_key q.idem ≡ none
    pub room : q.active < q.cfg.queue_max

  new-Accepted :
      lookup t.idem_key q.idem ≡ none
      → leb q.cfg.queue_max q.active ≡ false
      → (submit_new c io t q).1 ≡ accepted t'
      → Accepted (submit_new c io t q).0
  unfolding submit_new schedule
  new-Accepted absent room h = elim (Bool-cases (append_enqueue c io t q.store).1) [
    | inr e ↦ absurd (ground (arith, e, h))
    | inl e ↦
        let same : enqueued t ≡ t' = ground (arith, e, h) in
        rw (e, submit_new)
          (record {
            fsynced = e;
            stored = refl;
            tasks = ap (λ u. insert t.id u q.tasks) same;
            idem = refl;
            is_new = absent;
            room = ground (arith, room);
          })
  ]

  pub submit-Accepted : (submit c io t q).1 ≡ accepted t' → Accepted (submit c io t q).0
  unfolding submit
  submit-Accepted h = elim (Option-cases (lookup t.idem_key q.idem)) [
    | inr (id, e) ↦ absurd (ground (arith, e, h))
    | inl e ↦ elim (Bool-cases (leb q.cfg.queue_max q.active)) [
      | inl full ↦ absurd (ground (arith, e, full, h))
      | inr room ↦ rw (e, room, submit) (new-Accepted e room (ground (arith, e, room, h)))
    ]
  ]

  -- Once a submission is accepted, its record stays in the journal: whatever is appended and flushed
  -- later, and whichever of these calls fail, a crash at any moment leaves a file that begins with
  -- all that was written before and that record.
  pub submit-durable :
      (ops : List WalOp) (n : ℕ)
      → (submit c io t q).1 ≡ accepted t'
      → (rest : Bytes) × (crash n (run_ops c ops (submit c io t q).0.store)
          ≡ (q.store.file ++ (q.store.buf ++ line c (enqueue_record io.ts t))) ++ rest)
  unfolding append_enqueue
  submit-durable ops n h =
      let a = submit-Accepted h in
      let (rest, e) = crash-append-true c io (enqueue_record io.ts t) q.store ops n a.fsynced in
      (rest, ap (λ w. crash n (run_ops c ops w)) a.stored ∙ e)
