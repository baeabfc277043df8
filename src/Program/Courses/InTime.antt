-- ===== src/Program/Courses/InTime.antt =====
-- `Run` of internal/dispatch/dispatch.go has in hand only a task that was due at the time it has of
-- the lease, whatever the other parts of the program do meanwhile.
use rc_wnzzer.Base.{
  ℕ, ◌≤◌, ◌≡◌, refl, sym, subst, inl, inr, Bool, true, false, Bool-cases, Bytes, eq_iff, Option,
  none, some, get_elem?, ltb, arith,
}
use rc_wnzzer.Base.Table.{Table, lookup, lookup-insert, weight_of}
use rc_wnzzer.Model.{Task}
use rc_wnzzer.Store.Codec.{Codec}
use rc_wnzzer.Queue.State.{Queue, next_at_of}
use rc_wnzzer.Queue.Ops.{lease, submit, revive}
use rc_wnzzer.Queue.Maintain.{purge_expired, enforce_task_cap, compact_with}
use rc_wnzzer.Queue.Lease
use rc_wnzzer.Queue.Still.{Still, submit-Still, revive-Still, purge-Still, cap-Still, compact-Still}
use rc_wnzzer.Queue.Lease.Least.{lease-HandsOut}
use rc_wnzzer.Store.Wal.{Io}
use rc_wnzzer.Api.Validate.{SubmitRequest, Parsers}
use rc_wnzzer.Api.Submit.{task_from, handle_retry}
use rc_wnzzer.Dispatch.Deliver.{Attempt}
use rc_wnzzer.Dispatch.Deliver.Frees.{deliver-Frees}
use rc_wnzzer.Dispatch.Target.{Url}
use rc_wnzzer.Dispatch.Run.{
  Settings, Loop, looking, leased, holding, stopped, Flight, System, after_lease, taken, look,
  host_sem_for, host_of, url_of, choose_host, start_worker, give_up, complete, release,
}
use rc_wnzzer.Dispatch.Run.Sums.{sum-without}
use rc_wnzzer.Program.Steps.{
  Step, looks, stops, chooses, starts, gives_up, finishes, releases, submits, retries, purges, caps,
  compacts,
}
use rc_wnzzer.Program.Sound.{is_sending, loop_sends, handlers, Sound, held_task, handlers_bound}
use rc_wnzzer.Program.Workers.{in_flight}
use rc_wnzzer.Program.Courses.Submits.{Handled, refuses, hands_on, handle_submit-Handled}

abbrev pub IsDue : Table Task → Loop → Type 0
IsDue m looking = Unit
IsDue m stopped = Unit
IsDue m (leased id now) = next_at_of m id ≤ now
IsDue m (holding id host now) = next_at_of m id ≤ now

abbrev pub InTime : System → Type 0
InTime s = IsDue s.queue.tasks s.loop

same-IsDue :
    (l : Loop) (m m' : Table Task)
    → ((j : Bytes) → loop_sends j l ≡ 1 → lookup j m' ≡ lookup j m)
    → IsDue m l
    → IsDue m' l
unfolding next_at_of
same-IsDue looking m m' same d = tt
same-IsDue stopped m m' same d = tt
same-IsDue (leased id now) m m' same d =
    subst (λ (o : Option Task). weight_of (λ (t : Task). t.next_at) o ≤ now)
      (sym (same id (ground (arith, eq_iff id id)))) d
same-IsDue (holding id host now) m m' same d =
    subst (λ (o : Option Task). weight_of (λ (t : Task). t.next_at) o ≤ now)
      (sym (same id (ground (arith, eq_iff id id)))) d

module _ (cfg : Settings) (s : System) (v : Sound cfg s) (d : InTime s) where
  Still-InTime : (q : Queue) → Still s.queue q → InTime (record s { queue = q })
  unfolding handlers
  Still-InTime q still =
      same-IsDue s.loop s.queue.tasks q.tasks
        (λ j h.
          let (t, at, busy) = held_task cfg s v j (ground (arith, h)) in
          still j (ground (arith, at, busy)))
        d

  look-InTime : (now : ℕ) → s.loop ≡ looking → InTime (look now s)
  unfolding look next_at_of
  look-InTime now at = found (lease now s.queue).1 refl
    where
      found :
          (o : Option Bytes)
          → (lease now s.queue).1 ≡ o
          → IsDue (lease now s.queue).0.tasks (after_lease now s.loop o)
      found none e = ground (arith, at)
      found (some id) e =
          let o = lease-HandsOut now s.queue id v.queue_Inv e in
          rw (o.marked) (
            ground (
              arith,
              o.is_due,
              lookup-insert id id (Lease.leased now o.task) s.queue.tasks,
              eq_iff id id,
            ))

  -- The loop's task is not the one that a worker delivers.
  complete-InTime :
      (c : Codec) (a : Attempt) (i : ℕ) (f : Flight)
      → get_elem? s.flights i ≡ some f
      → f.is_done ≡ false
      → InTime (complete c cfg a i f s)
  unfolding complete handlers
  complete-InTime c a i f here going =
      let (t, at, busy) = in_flight cfg s v i f here going in
      let (t', free, found) = deliver-Frees c cfg.limits a f.id t s.queue at in
      same-IsDue s.loop s.queue.tasks _
        (λ j h. ground (
          arith,
          found j,
          h,
          handlers_bound cfg s v j,
          sum-without (is_sending j) s.flights i f here,
          going,
          eq_iff f.id j,
        ))
        d

  choose_host-InTime :
      (parse : Bytes → Option Url) (id : Bytes) (now : ℕ)
      → s.loop ≡ leased id now
      → InTime (choose_host parse cfg id now s)
  unfolding choose_host
  choose_host-InTime parse id now at =
      let host = host_of parse (url_of id s.queue) in
      let sem = host_sem_for host s.host_sem in
      elim (Bool-cases (ltb (taken host sem) cfg.host_concurrency)) [
        | inl free ↦ rw (free) (subst (λ l. IsDue s.queue.tasks l) at d)
        | inr full ↦ rw (full) tt
      ]

  Handled-InTime :
      (c : Codec) {p : Parsers} {allow_private : Bool} {io : Io} {now : ℕ} {id : Bytes}
      {caller : Option Bytes} {request : Option SubmitRequest} {q : Queue}
      → lookup id s.queue.tasks ≡ none
      → Handled c p allow_private io now id s.queue caller request q
      → InTime (record s { queue = q })
  Handled-InTime c fresh refuses = d
  Handled-InTime c {io = io} {now} {id} fresh (hands_on key_id r _ _ _) =
      Still-InTime (submit c io (task_from now id key_id r) s.queue).0
        (submit-Still c io (task_from now id key_id r) s.queue fresh)

  retry-InTime :
      (c : Codec) (io : Io) (now : ℕ) (b : Bool) (id : Bytes)
      → InTime (record s { queue = (handle_retry c io now b id (λ x. x) s.queue).0 })
  unfolding handle_retry
  retry-InTime c io now false id = d
  retry-InTime c io now true id =
      Still-InTime (revive c io now id s.queue).0 (revive-Still c io now id s.queue)

-- Every step keeps that the task in the loop's hands was due.
pub Step-InTime :
    (c : Codec) (cfg : Settings) (parse : Bytes → Option Url) {s s' : System}
    → Sound cfg s
    → InTime s
    → Step c cfg parse s s'
    → InTime s'
unfolding start_worker give_up release
Step-InTime c cfg parse {s} v d (looks now at) = look-InTime cfg s v d now at
Step-InTime c cfg parse v d (stops at) = tt
Step-InTime c cfg parse {s} v d (chooses id now at) = choose_host-InTime cfg s v d parse id now at
Step-InTime c cfg parse v d (starts id host now at free) = tt
Step-InTime c cfg parse v d (gives_up id host now at) = tt
Step-InTime c cfg parse {s} v d (finishes a i f here going) =
    complete-InTime cfg s v d c a i f here going
Step-InTime c cfg parse v d (releases i f here over) = d
Step-InTime c cfg parse {s} v d (submits p allow_private io now id incoming fresh) =
    Handled-InTime cfg s v d c fresh
      (handle_submit-Handled c p allow_private io now id s.queue incoming)
Step-InTime c cfg parse {s} v d (retries io now b id) = retry-InTime cfg s v d c io now b id
Step-InTime c cfg parse {s} v d (purges now) =
    Still-InTime cfg s v d (purge_expired now s.queue) (purge-Still now s.queue v.queue_Inv)
Step-InTime c cfg parse {s} v d caps =
    Still-InTime cfg s v d (enforce_task_cap s.queue) (cap-Still s.queue v.queue_Inv)
Step-InTime c cfg parse {s} v d (compacts fault snap) =
    Still-InTime cfg s v d (compact_with c fault snap s.queue).0
      (compact-Still c fault snap s.queue)
