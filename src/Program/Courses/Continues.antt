-- ===== src/Program/Courses/Continues.antt =====
-- A step of the program of which no call of the journal fails continues the life of the queue.
use rc_wnzzer.Base.{
  ℕ, ◌+◌, ◌≤◌, ◌≡◌, refl, sym, subst, inl, inr, Bool, true, false, Bool-cases, Bytes, bytes, Option,
  some, List, ◌∷◌, occurs, ltb, eq_iff, arith,
}
use rc_wnzzer.Store.Record.{res_retry}
use rc_wnzzer.Store.Codec.{Codec}
use rc_wnzzer.Store.Wal.{
  Io, none_fails, CompactFault, enqueue_record, attempt_record, truncate, err_field_max,
}
use rc_wnzzer.Queue.State.{Queue, next_at_of}
use rc_wnzzer.Queue.Ops.{defer}
use rc_wnzzer.Queue.Maintain.{compact_with, compact_queue}
use rc_wnzzer.Queue.Lives.{Life, Life-Books, crash-loses_nothing, close-remembers}
use rc_wnzzer.Queue.Lives
use rc_wnzzer.Api.Validate.{SubmitRequest, Parsers, validate-IsValid}
use rc_wnzzer.Api.Submit.{task_from, handle_retry}
use rc_wnzzer.Dispatch.Target.{Url}
use rc_wnzzer.Dispatch.Run.{
  Settings, leased, System, taken, look, host_sem_for, host_of, url_of, host_busy_delay,
  choose_host, start_worker, give_up, complete, release,
}
use rc_wnzzer.Program.Steps.{
  Step, looks, stops, chooses, starts, gives_up, finishes, releases, submits, retries, purges, caps,
  compacts,
}
use rc_wnzzer.Program.Sound.{loop_sends, handlers, Sound, held_task}
use rc_wnzzer.Program.Workers.{in_flight}
use rc_wnzzer.Program.Courses.{IsClean, drawn}
use rc_wnzzer.Program.Courses.Submits.{Handled, refuses, hands_on, handle_submit-Handled}
use rc_wnzzer.Program.Courses.Delivers.{deliver-Life}
use rc_wnzzer.Program.Courses.InTime.{IsDue, InTime}

Handled-Life :
    (c : Codec) {given : List Bytes} {q : Queue} {p : Parsers} {allow_private : Bool} {io : Io}
    {now : ℕ} {id : Bytes} {caller : Option Bytes} {request : Option SubmitRequest} {q' : Queue}
    → Life c given q
    → Handled c p allow_private io now id q caller request q'
    → io.fault ≡ none_fails
    → occurs id given ≡ 0
    → ((key_id : Bytes) (r : SubmitRequest)
        → caller ≡ some key_id
        → request ≡ some r
        → c.is_utf8 (enqueue_record io.ts (task_from now id key_id r)) ≡ true)
    → Life c (id ∷ given) q'
Handled-Life c {id = id} life refuses ok fresh text = Lives.draws life id
Handled-Life c {p = p} {allow_private} {io} {now} {id} life (hands_on key_id r a b e) ok fresh
      text =
    Lives.submits life io (task_from now id key_id r) ok (text key_id r a b)
      (validate-IsValid p r allow_private e).has_key fresh refl

retry-Life :
    (c : Codec) {given : List Bytes} {q : Queue} (io : Io) (now : ℕ) (b : Bool) (id : Bytes)
    → Life c given q
    → io.fault ≡ none_fails
    → c.is_utf8
        (attempt_record io.ts id 0 res_retry 0 (truncate (bytes "revived") err_field_max) now)
      ≡ true
    → Life c given (handle_retry c io now b id (λ x. x) q).0
unfolding handle_retry
retry-Life c io now false id life ok text = life
retry-Life c io now true id life ok text = Lives.revives life io now id ok text

module _ (c : Codec) (cfg : Settings) (parse : Bytes → Option Url) {given : List Bytes} {s : System}
    (v : Sound cfg s) (d : InTime s) (life : Life c given s.queue) where
  -- The loop gives its task back no earlier than it was due.
  defer-Life :
      (id : Bytes) (now next_at : ℕ)
      → loop_sends id s.loop ≡ 1
      → next_at_of s.queue.tasks id ≤ now
      → now ≤ next_at
      → Life c given (defer id next_at s.queue)
  unfolding handlers next_at_of
  defer-Life id now next_at mine due later =
      let (t, at, busy) = held_task cfg s v id (ground (arith, mine)) in
      Lives.defers life id t next_at at busy (ground (arith, due, at, later))

  choose_host-Life :
      (id : Bytes) (now : ℕ)
      → s.loop ≡ leased id now
      → Life c given (choose_host parse cfg id now s).queue
  unfolding choose_host
  choose_host-Life id now at =
      let host = host_of parse (url_of id s.queue) in
      let sem = host_sem_for host s.host_sem in
      elim (Bool-cases (ltb (taken host sem) cfg.host_concurrency)) [
        | inl free ↦ rw (free) life
        | inr full ↦ rw (full) (
            defer-Life id now (now + host_busy_delay) (ground (arith, at, eq_iff id id))
              (subst (IsDue s.queue.tasks) at d) (omega arith))
      ]

  pub Step-Life :
      {s' : System} (e : Step c cfg parse s s')
      → IsClean c cfg parse given e
      → Life c (drawn c cfg parse given e) s'.queue
  unfolding look start_worker give_up complete release compact_queue
  Step-Life (looks now at) k = Lives.leases life now
  Step-Life (stops at) k = life
  Step-Life (chooses id now at) k = choose_host-Life id now at
  Step-Life (starts id host now at free) k = life
  Step-Life (gives_up id host now at) k =
      defer-Life id now now (ground (arith, at, eq_iff id id)) (subst (IsDue s.queue.tasks) at d)
        (omega arith)
  Step-Life (finishes a i f here going) k =
      let (t, at, busy) = in_flight cfg s v i f here going in
      deliver-Life c life cfg.limits a k.0 f.id t at busy (k.1 t at)
  Step-Life (releases i f here over) k = life
  Step-Life (submits p allow_private io now id incoming fresh) k =
      Handled-Life c life (handle_submit-Handled c p allow_private io now id s.queue incoming) k.0
        k.1 k.2
  Step-Life (retries io now b id) k = retry-Life c io now b id life k.0 k.1
  Step-Life (purges now) k = Lives.purges life now
  Step-Life caps k = Lives.caps life
  Step-Life (compacts fault snap) k =
      subst (λ g. Life c given (compact_with c g snap s.queue).0) (sym k.0)
        (subst (λ r. Life c given (compact_with c CompactFault.no_fault r s.queue).0) (sym k.1)
          (Lives.compacts life k.2))
