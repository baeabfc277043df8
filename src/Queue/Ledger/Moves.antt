-- ===== src/Queue/Ledger/Moves.antt =====
-- Every operation of internal/queue/queue.go, of which no call fails, leaves a journal that records
-- the tasks in memory.
use rc_wnzzer.Base.{
  ℕ, ◌+◌, ◌≤◌, ◌≡◌, refl, sym, ap, true, false, not, Bytes, bytes, Option, some, Option-cases,
  Bool-cases, inl, inr, List, ◌∷◌, occurs, occurs-cons, leb, subst, arith,
}
use rc_wnzzer.Base.Table.{lookup}
use rc_wnzzer.Model.{Task, pending, sending, dead, state_eq}
use rc_wnzzer.Store.Record.{res_retry}
use rc_wnzzer.Store.Codec.{Codec}
use rc_wnzzer.Store.Wal.{
  Io, none_fails, append_enqueue, append_attempt, append_done, append_dead, enqueue_record,
  attempt_record, done_record, dead_record, truncate, err_field_max,
}
use rc_wnzzer.Queue.State.{Queue, schedule, update}
use rc_wnzzer.Queue.Ops.{
  retried, delivered, buried, revived, lease, lease_popped, defer, submit, submit_new, on_retry,
  on_success, on_dead, revive, revive_dead,
}
use rc_wnzzer.Queue.Invariant.{Inv}
use rc_wnzzer.Queue.Lease.{Leases, empty, early, hands_out, leased, lease-Leases}
use rc_wnzzer.Queue.Lease.Least.{lease-HandsOut, lease-HandsNothing}
use rc_wnzzer.Queue.Keeps.{state_eq_dead}
use rc_wnzzer.Queue.Restore.{from_att, from_done, from_dead, restore_record}
use rc_wnzzer.Queue.Ledger.{Ledger}
use rc_wnzzer.Queue.Ledger.Admits.{submit-Ledger}
use rc_wnzzer.Queue.Ledger.Writes.{append-Ledger, retask-Ledger}
use rc_wnzzer.Queue.Ledger.Entries.{
  append_fine, retried-Recorded, delivered-Recorded, buried-Recorded, revived-Recorded,
  moved-Recorded,
}

-- The journal of a queue records its tasks.
abbrev pub Books : Codec → List Bytes → Queue → Type 0
Books c given q = Ledger c given q.store q.tasks

module _ (c : Codec) (given : List Bytes) (q : Queue) (v : Inv q) (l : Books c given q) where
  pub given_more : (id : Bytes) → Books c (id ∷ given) q
  given_more id = record {
    safe = l.safe;
    recent = l.recent;
    journal = l.journal;
    base = l.base;
    base_folded = l.base_folded;
    base_Inv = l.base_Inv;
    updates = l.updates;
    maps = l.maps;
    folded = l.folded;
    known = l.known;
    keys = l.keys;
    only = λ j n. l.only j (omega (arith, n, occurs-cons j id given));
  }

  pub submit-Books :
      (io : Io) (t : Task)
      → io.fault ≡ none_fails
      → c.is_utf8 (enqueue_record io.ts t) ≡ true
      → occurs t.id given ≡ 0
      → t.attempts ≡ 0
      → Books c (t.id ∷ given) (submit c io t q).0
  unfolding submit submit_new schedule append_enqueue
  submit-Books io t ok text fresh new = elim (Option-cases (lookup t.idem_key q.idem)) [
    | inr (id, e) ↦ rw (e, submit) (given_more t.id)
    | inl e ↦
        rw (e, submit)
          (elim (Bool-cases (leb q.cfg.queue_max q.active)) [
            | inl full ↦ rw (full) (given_more t.id)
            | inr room ↦
                rw (room, append_fine c io (enqueue_record io.ts t) true ok l.journal)
                  (submit-Ledger l io t ok text fresh new)
          ])
  ]

  module _ (id : Bytes) (t : Task) (at : lookup id q.tasks ≡ some t) (io : Io)
      (ok : io.fault ≡ none_fails) (now code : ℕ) (msg : Bytes) where
    pub on_retry-Books :
        (next_at : ℕ)
        → t.state ≡ sending
        → let r =
            attempt_record io.ts t.id
              (t.attempts + 1)
              res_retry
              code
              (truncate msg err_field_max)
              next_at in
          c.is_utf8 r ≡ true → Books c given (on_retry c io now id code msg next_at q).0
    unfolding on_retry schedule append_attempt restore_record
    on_retry-Books next_at busy text =
        let r =
          attempt_record io.ts t.id (t.attempts + 1) res_retry code (truncate msg err_field_max)
            next_at in
        rw (at, on_retry)
          (rw (append_fine c io r false ok l.journal) (
            append-Ledger l io r (from_att r) id t (retried now code msg next_at t) ok text refl
              (ap (λ i. some (record l.maps { tasks = update i (from_att r) l.maps.tasks }))
                (v.keyed id t at))
              at
              (λ u old. retried-Recorded now code msg next_at io.ts t u (ground (arith, busy)) old)
              (λ u. refl)))

    pub on_success-Books :
        t.state ≡ sending
        → c.is_utf8 (done_record io.ts t.id (t.attempts + 1) code (truncate msg err_field_max))
          ≡ true
        → Books c given (on_success c io now id code msg q).0
    unfolding on_success append_done restore_record
    on_success-Books busy text =
        let r = done_record io.ts t.id (t.attempts + 1) code (truncate msg err_field_max) in
        rw (at, on_success)
          (append-Ledger l io r (from_done r) id t (delivered now code msg t) ok text refl
            (ap (λ i. some (record l.maps { tasks = update i (from_done r) l.maps.tasks }))
              (v.keyed id t at))
            at (λ u old. delivered-Recorded now code msg io.ts t u (ground (arith, busy)) old)
            (λ u. refl))

    pub on_dead-Books :
        (why : Bytes)
        → t.state ≡ sending
        → c.is_utf8 (dead_record io.ts t.id (t.attempts + 1) why) ≡ true
        → Books c given (on_dead c io now id code msg why q).0
    unfolding on_dead append_dead restore_record
    on_dead-Books why busy text =
        let r = dead_record io.ts t.id (t.attempts + 1) why in
        rw (at, on_dead)
          (append-Ledger l io r (from_dead r) id t (buried now code msg why t) ok text refl
            (ap (λ i. some (record l.maps { tasks = update i (from_dead r) l.maps.tasks }))
              (v.keyed id t at))
            at (λ u old. buried-Recorded now code msg why io.ts t u (ground (arith, busy)) old)
            (λ u. refl))

  -- A `Defer` to a time that is not before the one that the task has.
  pub defer-Books :
      (id : Bytes) (t : Task) (next_at : ℕ)
      → lookup id q.tasks ≡ some t
      → t.state ≡ sending
      → t.next_at ≤ next_at
      → Books c given (defer id next_at q)
  unfolding defer schedule update
  defer-Books id t next_at at busy late =
      let t' = record t { state = pending; next_at = next_at } in
      rw (at, update)
        (retask-Ledger l id t t' at (λ u old.
          moved-Recorded t t' u old
            (record { same_id = refl; same_key = refl; same_policy = refl; same_caller = refl })
            refl refl (ground (arith, busy)) refl late))

  store-lease : (now : ℕ) → (lease now q).0.store ≡ q.store
  unfolding lease_popped
  store-lease now = of_result (lease-Leases now q v)
    where
      of_result : {r : Queue × Option Bytes × ℕ} → Leases now q r → r.0.store ≡ q.store
      of_result (empty e) = refl
      of_result (early e p) = refl
      of_result (hands_out p due) = refl

  pub lease-Books : (now : ℕ) → Books c given (lease now q).0
  lease-Books now = elim (Option-cases (lease now q).1) [
    | inl e ↦ subst (Books c given) (sym (lease-HandsNothing now q v e).same) l
    | inr (id, e) ↦
        let o = lease-HandsOut now q id v e in
        let t = o.task in
        rw (store-lease now, o.marked)
          (retask-Ledger l id t (leased now t) o.at (λ u old.
            moved-Recorded t (leased now t) u old
              (record { same_id = refl; same_key = refl; same_policy = refl; same_caller = refl })
              refl refl (ground (arith, o.at, o.was_in, v.due_once id)) refl (omega arith)))
  ]

  -- A `Revive`, on each of its branches.
  pub revive-Books :
      (io : Io) (now : ℕ) (id : Bytes)
      → io.fault ≡ none_fails
      → c.is_utf8
          (attempt_record io.ts id 0 res_retry 0 (truncate (bytes "revived") err_field_max) now)
        ≡ true
      → Books c given (revive c io now id q).0
  unfolding revive revive_dead schedule append_attempt restore_record
  revive-Books io now id ok text = elim (Option-cases (lookup id q.tasks)) [
    | inl e ↦ rw (e, revive) l
    | inr (t, e) ↦
        rw (e, revive)
          (elim (Bool-cases (not (state_eq t.state dead))) [
            | inl alive ↦ rw (alive) l
            | inr over ↦ rw (over) (elim (Bool-cases (leb q.cfg.queue_max q.active)) [
              | inl full ↦ rw (full) l
              | inr room ↦ rw (room) (back t e (state_eq_dead t.state over))
            ])
          ])
  ]
    where
      back :
          (t : Task)
          → lookup id q.tasks ≡ some t
          → t.state ≡ dead
          → Books c given (revive_dead c io now id t q).0
      back t e gone =
          let r =
            attempt_record io.ts t.id 0 res_retry 0 (truncate (bytes "revived") err_field_max)
              now in
          let same = v.keyed id t e in
          rw (append_fine c io r false ok l.journal) (
            append-Ledger l io r (from_att r) id t (revived now t) ok (rw (same) text) refl
              (ap (λ i. some (record l.maps { tasks = update i (from_att r) l.maps.tasks })) same) e
              (λ u old. revived-Recorded now io.ts t u (ground (arith, gone)) old) (λ u. refl))
