-- ===== src/Queue/Admits.antt =====
-- `Submit` of internal/queue/queue.go keeps the invariant, whatever the journal answers.
use rc_wnzzer.Base.{
  ◌+◌, ◌<◌, ◌≡◌, ◌≢◌, ap, Bool, true, false, Bytes, eq_iff, none, Option-cases, [], occurs, leb,
  if◌then◌else◌, Bool-cases, inl, inr, arith,
}
use rc_wnzzer.Base.Table.{lookup, insert, lookup-insert, total-insert, insert-HasUniqueKeys}
use rc_wnzzer.Model.{Task}
use rc_wnzzer.Store.Codec.{Codec}
use rc_wnzzer.Store.Wal.{Wal, Io, append_enqueue}
use rc_wnzzer.Queue.Heap.Laws.{IsHeap-agree}
use rc_wnzzer.Queue.State.{Queue, next_at_of}
use rc_wnzzer.Queue.Ops.{enqueued, submit, submit_new}
use rc_wnzzer.Queue.Invariant.{Inv, live, slots_of, schedule-Inv}

pair_either :
    {B : Type 0} (P : Queue → Type 0) (b : Bool) (x y : Queue × B)
    → P x.0
    → P y.0
    → P (if b then x else y).0
pair_either P true x y px py = px
pair_either P false x y px py = py

added-agree :
    (q : Queue) (t : Task)
    → Inv q
    → lookup t.id q.tasks ≡ none
    → (a : Bytes) → 0 < occurs a q.due
    → next_at_of q.tasks a ≡ next_at_of (insert t.id (enqueued t) q.tasks) a
unfolding next_at_of
added-agree q t v fresh a p =
    ground (arith, lookup-insert t.id a (enqueued t) q.tasks, eq_iff t.id a, v.due_once a, fresh)

module _ (c : Codec) where
  add-Inv :
      (q : Queue) (t : Task) (w : Wal)
      → Inv q
      → t.idem_key ≢ []
      → lookup t.id q.tasks ≡ none
      → Inv (record q {
        store = w;
        tasks = insert t.id (enqueued t) q.tasks;
        idem = insert t.idem_key t.id q.idem;
        active = q.active + 1;
      })
  add-Inv q t w v key fresh =
      let t' = enqueued t in
      let found = λ (j : Bytes). lookup-insert t.id j t' q.tasks in
      record {
        unique = insert-HasUniqueKeys t.id t' q.tasks v.unique;
        keyed = λ j u f. ground (arith, found j, eq_iff t.id j, v.keyed j u);
        counted = ground (arith, total-insert live t.id t' q.tasks, fresh, v.counted);
        due_once = λ j. ground (arith, found j, eq_iff t.id j, v.due_once j, fresh);
        ordered =
            IsHeap-agree (next_at_of q.tasks) (next_at_of (insert t.id t' q.tasks)) q.due
              (λ a p. added-agree q t v fresh a p) v.ordered;
        indexed = λ k j f. ground (
          arith,
          found j,
          eq_iff t.id j,
          lookup-insert t.idem_key k t.id q.idem,
          eq_iff t.idem_key k,
          v.indexed k j,
          fresh,
        );
        named =
            ground
              (arith, lookup-insert t.idem_key [] t.id q.idem, eq_iff t.idem_key [], v.named, key);
      }

  submit_new-Inv :
      (io : Io) (t : Task) (q : Queue)
      → Inv q
      → t.idem_key ≢ []
      → lookup t.id q.tasks ≡ none
      → Inv (submit_new c io t q).0
  unfolding submit_new
  submit_new-Inv io t q v key fresh =
      let r = append_enqueue c io t q.store in
      let added = add-Inv q t r.0 v key fresh in
      let at = lookup-insert t.id t.id (enqueued t) q.tasks in
      pair_either Inv r.1 _ _
        (schedule-Inv t.id _ added (ground (arith, at, eq_iff t.id t.id))
          (omega (arith, v.due_once t.id, ap slots_of fresh)))
        (record {
          unique = v.unique;
          keyed = v.keyed;
          counted = v.counted;
          due_once = v.due_once;
          ordered = v.ordered;
          indexed = v.indexed;
          named = v.named;
        })

  -- A submission with a key, under an id that no task has, keeps the invariant.
  pub submit-Inv :
      (io : Io) (t : Task) (q : Queue)
      → Inv q
      → t.idem_key ≢ []
      → lookup t.id q.tasks ≡ none
      → Inv (submit c io t q).0
  unfolding submit
  submit-Inv io t q v key fresh = elim (Option-cases (lookup t.idem_key q.idem)) [
    | inr (id, e) ↦ rw (e, submit) v
    | inl e ↦
        rw (e, submit)
          (elim (Bool-cases (leb q.cfg.queue_max q.active)) [
            | inl full ↦ rw (full) v
            | inr room ↦ rw (room) (submit_new-Inv io t q v key fresh)
          ])
  ]
