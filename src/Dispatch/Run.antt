-- ===== src/Dispatch/Run.antt =====
-- `Run`, `hostSemFor` and `hostOf` of internal/dispatch/dispatch.go: the scheduling loop, the
-- workers it starts, and the two semaphores between them.
pub mod Sums
pub mod Busy
use rc_wnzzer.Base.{
  ℕ, zero, suc, ◌+◌, ◌-◌, Bool, true, false, Bytes, str_eq, Option, none, some, List, [], ◌∷◌, set,
  ltb, if◌then◌else◌,
}
use rc_wnzzer.Base.Table.{Table, lookup, insert, weight_of}
use rc_wnzzer.Store.Codec.{Codec}
use rc_wnzzer.Queue.State.{Queue}
use rc_wnzzer.Queue.Ops.{lease, defer}
use rc_wnzzer.Dispatch.Deliver.{Limits, Attempt, deliver}
use rc_wnzzer.Dispatch.Target.{Url}

-- `Config`
pub record Settings : Type 0 where
  pub workers : ℕ
  pub host_concurrency : ℕ
  pub limits : Limits

-- Where `Run` is: before `Lease`, with a leased task and the time of the lease, with a token of the
-- task's host and in wait for a worker, or returned.
pub data Loop : Type 0 where
  looking stopped : Loop
  leased : (id : Bytes) (now : ℕ) → Loop
  holding : (id host : Bytes) (now : ℕ) → Loop

-- A goroutine of `Run`, from its start to its deferred calls; `is_done` is whether `deliver` has
-- returned.
pub record Flight : Type 0 where
  pub id : Bytes
  pub host : Bytes
  pub is_done : Bool

-- `slots` and the entries of `host_sem` are the numbers of tokens in the channels.
pub record System : Type 0 where
  pub queue : Queue
  pub loop : Loop
  pub slots : ℕ
  pub host_sem : Table ℕ
  pub flights : List Flight

-- `New`, over a queue.
abbrev pub started : Queue → System
started q = record { queue = q; loop = looking; slots = 0; host_sem = []; flights = [] }

-- How many tokens of a host are taken.
abbrev pub taken : Bytes → Table ℕ → ℕ
taken host m = weight_of (λ n. n) (lookup host m)

-- `hostSemFor`, for a host
abbrev pub host_sem_for : Bytes → Table ℕ → Table ℕ
host_sem_for host m = elim (lookup host m) [ none ↦ insert host 0 m | some n ↦ m ]

-- `<-hs`
abbrev pub release_host : Bytes → Table ℕ → Table ℕ
release_host host m = insert host (taken host m - 1) m

-- `hostBusyDelay`, in milliseconds
abbrev pub host_busy_delay : ℕ
host_busy_delay = 200

abbrev pub url_of : Bytes → Queue → Bytes
url_of id q = elim (lookup id q.tasks) [ none ↦ [] | some t ↦ t.target.url ]

-- `Lease`; with nothing due, `Run` waits and looks again.
abbrev pub after_lease : ℕ → Loop → Option Bytes → Loop
after_lease now l none = l
after_lease now l (some id) = leased id now

unfoldable pub look : ℕ → System → System
look now s =
    let r = lease now s.queue in record s { queue = r.0; loop = after_lease now s.loop r.1 }

module _ (parse : Bytes → Option Url) where
  -- `hostOf`
  unfoldable pub host_of : Bytes → Bytes
  host_of raw = elim (parse raw) [ none ↦ raw | some u ↦ if str_eq u.host [] then raw else u.host ]

  -- The first `select`: a token of the task's host, or the task is put off.
  unfoldable pub choose_host : Settings → (id : Bytes) (now : ℕ) → System → System
  choose_host cfg id now s =
      let host = host_of (url_of id s.queue) in
      let sem = host_sem_for host s.host_sem in
      if ltb (taken host sem) cfg.host_concurrency
      then record s { host_sem = insert host (taken host sem + 1) sem; loop = holding id host now }
      else record s {
        host_sem = sem;
        queue = defer id (now + host_busy_delay) s.queue;
        loop = looking;
      }

-- The second `select` with a free worker, and the start of the goroutine.
unfoldable pub start_worker : (id host : Bytes) → System → System
start_worker id host s = record s {
  slots = s.slots + 1;
  flights = (record { id = id; host = host; is_done = false }) ∷ s.flights;
  loop = looking;
}

-- The second `select` with a cancelled context.
unfoldable pub give_up : (id host : Bytes) (now : ℕ) → System → System
give_up id host now s = record s {
  host_sem = release_host host s.host_sem;
  queue = defer id now s.queue;
  loop = stopped;
}

-- `deliver` in the goroutine at index i.
unfoldable pub complete : Codec → Settings → Attempt → ℕ → Flight → System → System
complete c cfg a i f s = record s {
  queue = deliver c cfg.limits a f.id s.queue;
  flights = set s.flights i (record f { is_done = true });
}

abbrev pub without : ℕ → List Flight → List Flight
without i [] = []
without zero (f ∷ fs) = fs
without (suc i) (f ∷ fs) = f ∷ without i fs

-- The deferred calls of the goroutine at index i.
unfoldable pub release : ℕ → Flight → System → System
release i f s = record s {
  host_sem = release_host f.host s.host_sem;
  slots = s.slots - 1;
  flights = without i s.flights;
}
