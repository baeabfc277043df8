-- ===== src/Api/Retry.antt =====
-- What `handleRetry` of internal/api/api.go answers.
use rc_wnzzer.Base.{ℕ, ◌≡◌, ◌⊎◌, inl, inr, refl, true, Bytes, eq_iff, Option, none, some, [], arith}
use rc_wnzzer.Base.Table.{lookup, lookup-insert}
use rc_wnzzer.Model.{Task, pending, dead}
use rc_wnzzer.Store.Codec.{Codec}
use rc_wnzzer.Store.Wal.{Io}
use rc_wnzzer.Queue.State.{Queue, Err, queue_full, not_found, not_dead, store_failed, schedule}
use rc_wnzzer.Queue.Ops.{revived, revive, revive_dead, get}
use rc_wnzzer.Api.Submit.{viewed, retry_answer, handle_retry}

-- A task that a retry has made of a dead one, at the given time: pending, due at once, with no attempt
-- counted, no error and no reason, and its age counted anew; what was submitted is the same.
pub record IsRenewed (now : ℕ) (t u : Task) : Type 0 where
  pub was_dead : t.state ≡ dead
  pub is_pending : u.state ≡ pending
  pub attempts : u.attempts ≡ 0
  pub next_at : u.next_at ≡ now
  pub created_at : u.created_at ≡ now
  pub updated_at : u.updated_at ≡ now
  pub last_err : u.last_err ≡ []
  pub dead_reason : u.dead_reason ≡ []
  pub same_id : u.id ≡ t.id
  pub same_key : u.idem_key ≡ t.idem_key
  pub same_target : u.target ≡ t.target
  pub same_policy : u.policy ≡ t.policy
  pub same_caller : u.key_id ≡ t.key_id

module _ (c : Codec) (io : Io) (now : ℕ) (id : Bytes) (t : Task) (q : Queue)
    (at : lookup id q.tasks ≡ some t) where
  revive-IsRenewed :
      (revive c io now id q).1 ≡ none
      → (u : Task) × (lookup id (revive c io now id q).0.tasks ≡ some u) × IsRenewed now t u
  unfolding revive revive_dead schedule
  revive-IsRenewed h =
      let u = revived now t in
      let over : t.state ≡ dead = ground (arith, at, h) in
      (
        u,
        ground (arith, at, h, lookup-insert id id u q.tasks, eq_iff id id),
        record {
          was_dead = over;
          is_pending = refl;
          attempts = refl;
          next_at = refl;
          created_at = refl;
          updated_at = refl;
          last_err = refl;
          dead_reason = refl;
          same_id = refl;
          same_key = refl;
          same_target = refl;
          same_policy = refl;
          same_caller = refl;
        },
      )

  answered :
      (o : Option Err) (p : Option Task) (v : Task) → retry_answer o p ≡ viewed 202 v → o ≡ none
  answered none p v h = refl
  answered (some queue_full) p v h = absurd (ground (arith, h))
  answered (some not_found) p v h = absurd (ground (arith, h))
  answered (some not_dead) p v h = absurd (ground (arith, h))
  answered (some store_failed) p v h = absurd (ground (arith, h))

  shown :
      {e : Option Err} {v : Task} (p : Option Task)
      → e ≡ none
      → retry_answer e p ≡ viewed 202 v
      → (p ≡ some v) ⊎ (p ≡ none)
  shown none e h = inr refl
  shown (some u) e h = inl (ground (arith, e, h))

  -- If a retry of a task that the queue holds is answered with a task, then the task was dead, and
  -- the queue then holds it renewed. Whatever happens to the queue before the answer is made, the
  -- answer shows the task as it is by then, unless it has left the map.
  pub handle_retry-views :
      (later : Queue → Queue) (v : Task)
      → (handle_retry c io now true id later q).1 ≡ viewed 202 v
      → (u : Task) × (lookup id (revive c io now id q).0.tasks ≡ some u)
        × IsRenewed now t u
        × ((lookup id (handle_retry c io now true id later q).0.tasks ≡ some v)
            ⊎ (lookup id (handle_retry c io now true id later q).0.tasks ≡ none))
  unfolding handle_retry get
  handle_retry-views later v h =
      let fine =
        answered (revive c io now id q).1 (lookup id (later (revive c io now id q).0).tasks) v h in
      let (u, found, new) = revive-IsRenewed fine in
      (u, found, new, shown (lookup id (later (revive c io now id q).0).tasks) fine h)
