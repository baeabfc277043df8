-- ===== src/Queue/Restore/Snapshot.antt =====
-- What the callback of `Restore` in internal/queue/queue.go makes of a snapshot that `Compact` in
-- internal/queue/maintain.go has written.
use rc_wnzzer.Base.{
  ◌≡◌, refl, sym, ap, ◌∙◌, Bool, true, false, not, ◌||◌, Bytes, eq_iff, some, subst, inl, inr, [],
  ◌∷◌, str_eq, ltb, ◌==◌, Bool-cases, if◌then◌else◌, arith,
}
use rc_wnzzer.Base.Table.{lookup, insert, lookup-insert}
use rc_wnzzer.Model.{
  State, unset, pending, waiting, sending, succeeded, dead, Task, strip, persisted, state_eq,
}
use rc_wnzzer.Store.Record.{Record, res_retry, on_wire}
use rc_wnzzer.Store.Codec.{Codec}
use rc_wnzzer.Store.Wal.{enqueue_record, attempt_record, done_record, dead_record}
use rc_wnzzer.Store.Replay.Recovery.{fold_records}
use rc_wnzzer.Queue.State.{update}
use rc_wnzzer.Queue.Maintain.{snapshot_task, state_records, unfinished}
use rc_wnzzer.Queue.Restore.{
  Maps, index_key, from_enq, from_att, from_done, from_dead, restore_record,
}
use rc_wnzzer.Queue.Restore.Folded.{AllSound}

-- The task after its enq record, and after all its records.
abbrev opened_image : Task → Task
opened_image t =
    from_enq t.created_at
      (persisted (if state_eq t.state succeeded then record t { target = strip t.target } else t))

abbrev is_plain : Task → Bool
is_plain t = not (ltb 0 t.attempts || not (t.next_at == t.created_at))

abbrev pub att_of : Task → Record
att_of t = attempt_record t.updated_at t.id t.attempts res_retry t.last_code t.last_err t.next_at

abbrev pub unfinished_image : Task → Task
unfinished_image t = if is_plain t then opened_image t else from_att (att_of t) (opened_image t)

abbrev pub image_in : State → Task → Task
image_in succeeded t =
    from_done (done_record t.updated_at t.id t.attempts t.last_code []) (opened_image t)
image_in dead t =
    from_dead (dead_record t.updated_at t.id t.attempts t.dead_reason) (opened_image t)
image_in _ t = unfinished_image t

abbrev pub image : Task → Task
image t = image_in t.state t

-- What the records of one task do to the maps.
pub record Imaged (t : Task) (m m' : Maps) : Type 0 where
  pub found :
      (j : Bytes) → lookup j m'.tasks ≡ (if str_eq t.id j then some (image t) else lookup j m.tasks)
  pub index : m'.idem ≡ index_key t.idem_key t.id m.idem

module _ (c : Codec) (t : Task) (m : Maps) where
  abbrev first : Maps
  first = record {
    tasks = insert t.id (opened_image t) m.tasks;
    idem = index_key t.idem_key t.id m.idem;
  }

  second : (Task → Task) → Maps
  second f = record first { tasks = update t.id f first.tasks }

  second-found :
      (f : Task → Task) (j : Bytes)
      → lookup j (second f).tasks
        ≡ (if str_eq t.id j then some (f (opened_image t)) else lookup j m.tasks)
  unfolding second update
  second-found f j =
      let at : lookup t.id first.tasks ≡ some (opened_image t) =
        ground (arith, lookup-insert t.id t.id (opened_image t) m.tasks, eq_iff t.id t.id) in
      rw (at, update)
        (ground (
          arith,
          lookup-insert t.id j (f (opened_image t)) first.tasks,
          lookup-insert t.id j (opened_image t) m.tasks,
        ))

  first-found :
      (j : Bytes)
      → lookup j first.tasks ≡ (if str_eq t.id j then some (opened_image t) else lookup j m.tasks)
  first-found j = lookup-insert t.id j (opened_image t) m.tasks

  -- Two records, of which the second is read back as it was written.
  fold_two :
      (r : Record) (f : Task → Task)
      → c.reread r ≡ r
      → restore_record r first ≡ some (second f)
      → fold_records c restore_record (r ∷ []) first ≡ some (second f)
  fold_two r f back e = rw (ap (λ x. restore_record x first) back ∙ e, fold_records) refl

  unfinished-Imaged :
      AllSound c (unfinished t)
      → image t ≡ unfinished_image t
      → (m' : Maps) × (fold_records c restore_record (unfinished t) first ≡ some m') × Imaged t m m'
  unfolding restore_record second
  unfinished-Imaged s e = elim (Bool-cases (ltb 0 t.attempts || not (t.next_at == t.created_at))) [
    | inl begun ↦
        let sound : AllSound c (att_of t ∷ []) =
          subst (AllSound c) {y = att_of t ∷ []} (rw (begun) refl) s in
        (
          second (from_att (att_of t)),
          rw (begun)
              (fold_two (att_of t) (from_att (att_of t)) (c.reread_utf8 (att_of t) sound.0) refl),
          record {
            found = λ j.
                second-found (from_att (att_of t)) j
                ∙ ap (λ u. if str_eq t.id j then some u else lookup j m.tasks)
                    (sym (e ∙ rw (begun) refl));
            index = refl;
          },
        )
    | inr plain ↦ (
      first,
      rw (plain) refl,
      record {
        found = λ j.
            first-found j
            ∙ ap (λ u. if str_eq t.id j then some u else lookup j m.tasks)
                (sym (e ∙ rw (plain) refl));
        index = refl;
      },
    )
  ]

  state-Imaged :
      (s : State)
      → t.state ≡ s
      → AllSound c (state_records s t)
      → (m' : Maps) × (fold_records c restore_record (state_records s t) first ≡ some m')
        × Imaged t m m'
  unfolding state_records restore_record second
  state-Imaged succeeded e s =
      let r = done_record t.updated_at t.id t.attempts t.last_code [] in
      (
        second (from_done r),
        fold_two r (from_done r) (c.reread_utf8 r s.0) refl,
        record { found = λ j. second-found (from_done r) j ∙ rw (e) refl; index = refl },
      )
  state-Imaged dead e s =
      let r = dead_record t.updated_at t.id t.attempts t.dead_reason in
      (
        second (from_dead r),
        fold_two r (from_dead r) (c.reread_utf8 r s.0) refl,
        record { found = λ j. second-found (from_dead r) j ∙ rw (e) refl; index = refl },
      )
  state-Imaged pending e s = unfinished-Imaged s (rw (e) refl)
  state-Imaged waiting e s = unfinished-Imaged s (rw (e) refl)
  state-Imaged sending e s = unfinished-Imaged s (rw (e) refl)
  state-Imaged unset e s = unfinished-Imaged s (rw (e) refl)

  abbrev stripped_if : Bool → Task
  stripped_if b = if b then record t { target = strip t.target } else t

  restore-opened :
      (b : Bool)
      → restore_record (on_wire (enqueue_record t.created_at (stripped_if b))) m
        ≡ some (record {
          tasks = insert t.id (from_enq t.created_at (persisted (stripped_if b))) m.tasks;
          idem = index_key t.idem_key t.id m.idem;
        })
  unfolding restore_record
  restore-opened true = refl
  restore-opened false = refl

  -- The records of a task in a snapshot leave its image under its id.
  pub snapshot_task-Imaged :
      AllSound c (snapshot_task t)
      → (m' : Maps) × (fold_records c restore_record (snapshot_task t) m ≡ some m') × Imaged t m m'
  unfolding snapshot_task
  snapshot_task-Imaged s =
      let r = enqueue_record t.created_at (stripped_if (state_eq t.state succeeded)) in
      let (m', folded, i) = state-Imaged t.state refl s.2 in
      let one : restore_record (c.reread r) m ≡ some first =
        ap (λ x. restore_record x m) (c.reread_utf8 r s.0)
        ∙ restore-opened (state_eq t.state succeeded) in
      (m', rw (one, fold_records) folded, i)
