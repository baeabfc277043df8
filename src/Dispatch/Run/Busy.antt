-- ===== src/Dispatch/Run/Busy.antt =====
-- What `Run` of internal/dispatch/dispatch.go does when the task's host is busy.
use rc_wnzzer.Base.{
  ℕ, ◌+◌, ◌≤◌, ◌≡◌, refl, ap, if◌then◌else◌, false, Bytes, Option, some, Option-cases, inl, inr,
  eq_iff, ltb, occurs, arith,
}
use rc_wnzzer.Base.Table.{Table, lookup, insert, lookup-insert}
use rc_wnzzer.Model.{Task, pending, sending}
use rc_wnzzer.Queue.Ops.{defer}
use rc_wnzzer.Queue.Invariant.{Inv}
use rc_wnzzer.Queue.Keeps.{defer-puts_back}
use rc_wnzzer.Dispatch.Target.{Url}
use rc_wnzzer.Dispatch.Run.{
  Settings, looking, holding, System, taken, host_sem_for, host_busy_delay, url_of, host_of,
  choose_host,
}

-- A new channel holds no token.
pub taken-host_sem_for : (host h : Bytes) (m : Table ℕ) → taken h (host_sem_for host m) ≡ taken h m
taken-host_sem_for host h m = elim (Option-cases (lookup host m)) [
  | inl e ↦ rw (e, host_sem_for) (ground (arith, lookup-insert host h 0 m, e, eq_iff host h))
  | inr (n, e) ↦ rw (e, host_sem_for) refl
]

-- In a state of the invariant, if all the tokens of its host are taken, a leased task is put off by
-- 200 ms: it is pending and otherwise as it was, no attempt counted, and due exactly once; the loop
-- looks for another task, and no token of any host is taken or given back.
pub choose_host-busy :
    (parse : Bytes → Option Url) (cfg : Settings) (id : Bytes) (now : ℕ) (t : Task) (s : System)
    → Inv s.queue
    → lookup id s.queue.tasks ≡ some t
    → t.state ≡ sending
    → cfg.host_concurrency ≤ taken (host_of parse (url_of id s.queue)) s.host_sem
    → let s' = choose_host parse cfg id now s in
      (lookup id s'.queue.tasks
        ≡ some (record t { state = pending; next_at = now + host_busy_delay }))
      × (occurs id s'.queue.due ≡ 1)
      × (s'.loop ≡ looking)
      × ((h : Bytes) → taken h s'.host_sem ≡ taken h s.host_sem)
choose_host-busy parse cfg id now t s v at busy full =
    let host = host_of parse (url_of id s.queue) in
    let same = λ (h : Bytes). taken-host_sem_for host h s.host_sem in
    let put_off : choose_host parse cfg id now s ≡ (record s {
      host_sem = host_sem_for host s.host_sem;
      queue = defer id (now + host_busy_delay) s.queue;
      loop = looking;
    }) =
      unfold choose_host in
      (ap
        (λ b.
          if b
          then record s {
            host_sem =
                insert host (taken host (host_sem_for host s.host_sem) + 1)
                  (host_sem_for host s.host_sem);
            loop = holding id host now;
          }
          else record s {
            host_sem = host_sem_for host s.host_sem;
            queue = defer id (now + host_busy_delay) s.queue;
            loop = looking;
          })
        (is_full host (same host) full)) in
    let deferred = defer-puts_back id t s.queue v at (now + host_busy_delay) busy in
    rw (put_off) (deferred.0, deferred.1, refl, same)
  where
    is_full :
        (host : Bytes)
        → taken host (host_sem_for host s.host_sem) ≡ taken host s.host_sem
        → cfg.host_concurrency ≤ taken host s.host_sem
        → ltb (taken host (host_sem_for host s.host_sem)) cfg.host_concurrency ≡ false
    is_full host e h = ground (arith, e, h)
