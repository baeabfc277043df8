-- ===== src/Api/Promises.antt =====
-- What the answers of internal/api/api.go promise.
use rc_wnzzer.Base.{
  ℕ, ◌≡◌, ◌≢◌, refl, sym, ap, ◌∙◌, Bool, true, false, Bool-cases, Bytes, Option, none, some,
  Option-cases, inl, inr, List, ◌++◌, leb, arith,
}
use rc_wnzzer.Base.Table.{lookup}
use rc_wnzzer.Model.{State, Task}
use rc_wnzzer.Store.Codec.{Codec, line}
use rc_wnzzer.Store.Wal.{Io, enqueue_record, crash}
use rc_wnzzer.Store.Wal.Failures.{WalOp, run_ops}
use rc_wnzzer.Queue.State.{Queue, queue_full, not_found, not_dead, store_failed}
use rc_wnzzer.Queue.Ops.{Submitted, duplicate, accepted, refused, submit, submit_new}
use rc_wnzzer.Queue.Invariant.{Inv}
use rc_wnzzer.Queue.Admits.{submit-Inv}
use rc_wnzzer.Queue.Durable.{submit-durable}
use rc_wnzzer.Api.Validate.{SubmitRequest, Parsers, validate, validate-IsValid}
use rc_wnzzer.Api.Submit.{
  Response, failed, code_of, submitted, panics, Incoming, task_from, answer, take_task,
  take_request, handle_submit,
}

answer-accepted :
    (s : Submitted) {i : Bytes} {st : State} {d : Bool} {at : ℕ}
    → answer s ≡ submitted 202 i st d at
    → (t : Task) × (s ≡ accepted t)
answer-accepted (accepted t) h = (t, refl)
answer-accepted (duplicate (some t)) h = absurd (ground (arith, h))
answer-accepted (duplicate none) h = absurd (ground (arith, h))
answer-accepted (refused queue_full) h = absurd (ground (arith, h))
answer-accepted (refused not_found) h = absurd (ground (arith, h))
answer-accepted (refused not_dead) h = absurd (ground (arith, h))
answer-accepted (refused store_failed) h = absurd (ground (arith, h))

submit_new_found :
    (c : Codec) (io : Io) (t : Task) (q : Queue) → answer (submit_new c io t q).1 ≢ panics
unfolding submit_new
submit_new_found c io t q = ground arith

-- A key in the index leads to a task.
submit_found :
    (c : Codec) (io : Io) (t : Task) (q : Queue) → Inv q → answer (submit c io t q).1 ≢ panics
unfolding submit
submit_found c io t q v = elim (Option-cases (lookup t.idem_key q.idem)) [
  | inr (id, e) ↦ elim (Option-cases (lookup id q.tasks)) [
    | inl f ↦ absurd (ground (arith, v.indexed t.idem_key id, e, f))
    | inr (u, f) ↦ rw (e, submit) (rw (f) (ground arith))
  ]
  | inl e ↦
      rw (e, submit)
        (elim (Bool-cases (leb q.cfg.queue_max q.active)) [
          | inl full ↦ rw (full) (ground arith)
          | inr room ↦ rw (room) (submit_new_found c io t q)
        ])
]

module _ (c : Codec) (p : Parsers) (allow_private : Bool) (io : Io) (now : ℕ) (id : Bytes)
    (q : Queue) where
  -- A submission is refused and changes nothing, or it is valid and is handed to the queue.
  module _ (P : Queue × Response → Type 0)
      (no : (status : ℕ) (code : Bytes) → P (q, failed status code))
      (yes : (key_id : Bytes) (r : SubmitRequest)
        → validate p r allow_private ≡ none
        → P (take_task c io (task_from now id key_id r) q)) where
    pub handle_parts :
        (fits : Bool) (caller : Option Bytes) (request : Option SubmitRequest)
        → P (
            handle_submit c p allow_private io now id
              (record { fits = fits; caller = caller; request = request })
              q)
    unfolding handle_submit take_request
    handle_parts false caller request = no 413 _
    handle_parts true none request = no 401 _
    handle_parts true (some key_id) none = no 400 _
    handle_parts true (some key_id) (some r) = elim (Option-cases (validate p r allow_private)) [
      | inr (why, e) ↦ rw (e, take_request) (no 400 (code_of why))
      | inl e ↦ rw (e, take_request) (yes key_id r e)
    ]

  -- Under an id that no task has, a request keeps the invariant, whatever it holds and whatever
  -- fails in the journal.
  pub handle_submit-Inv :
      (incoming : Incoming)
      → Inv q
      → lookup id q.tasks ≡ none
      → Inv (handle_submit c p allow_private io now id incoming q).0
  unfolding take_task
  handle_submit-Inv incoming v fresh =
      handle_parts (λ r. Inv r.0) (λ status code. v)
        (λ key_id r e.
          submit-Inv c io (task_from now id key_id r) q v
            (validate-IsValid p r allow_private e).has_key fresh)
        incoming.fits incoming.caller incoming.request

  -- In a state of the invariant every request is answered: no answer is made of a task that is
  -- missing.
  pub handle_submit-answers :
      (incoming : Incoming)
      → Inv q
      → (handle_submit c p allow_private io now id incoming q).1 ≢ panics
  unfolding take_task
  handle_submit-answers incoming v =
      handle_parts (λ r. r.1 ≢ panics) (λ status code. ground arith)
        (λ key_id r e. submit_found c io (task_from now id key_id r) q v) incoming.fits
        incoming.caller incoming.request

  module _ (ops : List WalOp) (n : ℕ) (i : Bytes) (s : State) (d : Bool) (at : ℕ) where
    -- What a 202 stands for: the request is valid, and the record of its task is in the file after any
    -- crash.
    abbrev pub Kept : Option Bytes → Option SubmitRequest → Queue → Type 0
    Kept caller request q' =
        (key_id : Bytes) × (r : SubmitRequest) × (rest : Bytes) × (caller ≡ some key_id)
        × (request ≡ some r)
        × (validate p r allow_private ≡ none)
        × (crash n (run_ops c ops q'.store)
            ≡ (q.store.file
                ++ (q.store.buf ++ line c (enqueue_record io.ts (task_from now id key_id r))))
              ++ rest)

    handle_parts-Kept :
        (fits : Bool) (caller : Option Bytes) (request : Option SubmitRequest)
        → let r =
            handle_submit c p allow_private io now id
              (record { fits = fits; caller = caller; request = request })
              q in
          r.1 ≡ submitted 202 i s d at → Kept caller request r.0
    unfolding handle_submit take_task take_request
    handle_parts-Kept false caller request h = absurd (ground (arith, h))
    handle_parts-Kept true none request h = absurd (ground (arith, h))
    handle_parts-Kept true (some key_id) none h = absurd (ground (arith, h))
    handle_parts-Kept true (some key_id) (some r) h =
        elim (Option-cases (validate p r allow_private)) [
          | inr (why, e) ↦ absurd (ground (arith, h, e))
          | inl e ↦
              let t = task_from now id key_id r in
              let same : take_request c p allow_private io now id key_id r q ≡ take_task c io t q =
                rw (e, take_request) refl in
              let (t', a) = answer-accepted (submit c io t q).1 (ap (λ x. x.1) (sym same) ∙ h) in
              let (rest, kept) = submit-durable c io t t' q ops n a in
              (
                key_id,
                r,
                rest,
                refl,
                refl,
                e,
                ap (λ x. crash n (run_ops c ops x.0.store)) same ∙ kept,
              )
        ]

    -- If the answer is 202, then the request is valid, and whatever is appended and flushed later, and
    -- whichever of these calls fail, a crash at any moment leaves a file that begins with all that was
    -- written before and the record of the request's task.
    pub handle_submit-durable :
        (incoming : Incoming)
        → (handle_submit c p allow_private io now id incoming q).1 ≡ submitted 202 i s d at
        → Kept incoming.caller incoming.request
            (handle_submit c p allow_private io now id incoming q).0
    handle_submit-durable incoming h =
        handle_parts-Kept incoming.fits incoming.caller incoming.request h
