-- ===== src/Program/Courses/Lives.antt =====
-- What a crash or a close at any moment of the program of cmd/notifyd/main.go leaves to the next start.
use rc_wnzzer.Base.{◌≤◌, ◌≡◌, refl, Bool, Bytes, Option, none, some, List, [], occurs, arith}
use rc_wnzzer.Base.Table.{Table, lookup, lookup-nil, weight_of}
use rc_wnzzer.Model.{Task}
use rc_wnzzer.Store.Codec.{Codec}
use rc_wnzzer.Store.Wal.{Fault, none_fails, open_wal, close_wal, sync_tick, Crash, reopen}
use rc_wnzzer.Store.Replay.{no_fault}
use rc_wnzzer.Queue.State.{Config, Queue, Err, new}
use rc_wnzzer.Queue.Invariant.{slots_of, live, new-Inv}
use rc_wnzzer.Queue.Sending.{sending_of}
use rc_wnzzer.Queue.Restore.{restore}
use rc_wnzzer.Queue.Ledger.{IsRecorded}
use rc_wnzzer.Queue.Ledger.Restarts.{Started}
use rc_wnzzer.Queue.Ledger.Upkeep.{store-Inv}
use rc_wnzzer.Queue.Lives.{Life, Life-Books, crash-loses_nothing, close-remembers}
use rc_wnzzer.Queue.Lives
use rc_wnzzer.Dispatch.Target.{Url}
use rc_wnzzer.Dispatch.Run.{Settings, System, started}
use rc_wnzzer.Program.Sound.{Sound, queue-Sound}
use rc_wnzzer.Program.Reach.{started-Sound}
use rc_wnzzer.Program.Kept.{Step-Sound}
use rc_wnzzer.Program.Courses.Continues.{Step-Life}
use rc_wnzzer.Program.Courses.{Course, boots, steps, ticks, crashes}
use rc_wnzzer.Program.Courses.InTime.{InTime, Step-InTime}

-- A start finds no task that is being sent.
Started-Sound :
    (c : Codec) (cfg : Settings) (parse : Bytes → Option Url) {given : List Bytes} {m : Table Task}
    {r : Queue × Option Err}
    → Started c given m r
    → Sound cfg (started r.0)
Started-Sound c cfg parse {r = r} s =
    started-Sound c cfg parse r.0 s.queue_Inv
      (λ j. none_sent j (lookup j r.0.tasks) (s.queue_Inv.due_once j) (s.due j))
  where
    none_sent :
        (j : Bytes) (o : Option Task)
        → occurs j r.0.due ≤ slots_of o
        → occurs j r.0.due ≡ weight_of live o
        → sending_of o ≡ 0
    none_sent j none h e = refl
    none_sent j (some t) h e = ground (arith, h, e)

module _ (c : Codec) (parse : Bytes → Option Url) where
  Course-Lives :
      {given : List Bytes} {cfg : Settings} {s : System}
      → Course c parse given cfg s
      → Sound cfg s × InTime s × Life c given s.queue
  Course-Lives (boots cfg qcfg) = (
    started-Sound c cfg parse (new qcfg (open_wal 0 [])) (new-Inv qcfg (open_wal 0 []))
        (λ j. unfold new in ground (arith, lookup-nil {V = Task} j)),
    tt,
    Lives.begins qcfg,
  )
  Course-Lives (steps {given} {cfg} {s} r e k) =
      let (v, d, life) = Course-Lives r in
      (
        Step-Sound c cfg parse v e,
        Step-InTime c cfg parse v d e,
        Step-Life c cfg parse v d life e k,
      )
  Course-Lives (ticks {given} {cfg} {s} r) =
      let (v, d, life) = Course-Lives r in
      let q = record s.queue { store = sync_tick none_fails s.queue.store } in
      (
        queue-Sound cfg s q v (store-Inv s.queue q.store v.queue_Inv) (λ j. refl),
        d,
        Lives.ticks life,
      )
  Course-Lives (crashes {given} {cfg} {s} r n cfg' qcfg io) =
      let (v, d, life) = Course-Lives r in
      (
        Started-Sound c cfg' parse (crash-loses_nothing c life n qcfg io),
        tt,
        Lives.crashes life n qcfg io,
      )

  module _ {given : List Bytes} {cfg : Settings} {s : System}
      (course : Course c parse given cfg s) where
    -- In every state of a course of the program: the queue is in a state of its invariant; a task is in
    -- state sending exactly if it is in one pair of hands, those of the loop or of a worker; the workers
    -- and the tokens of the hosts are within their bounds and belong to those that hold them; and the
    -- task in the loop's hands was due at the time that the loop has of the lease.
    pub Course-Sound : Sound cfg s × InTime s
    Course-Sound = let (v, d, life) = Course-Lives course in (v, d)

    module _ (n : Crash) (cfg' : Settings) (qcfg : Config) (io : Fault) where
      -- In a course of the program no call of the journal fails, what is written is read back as it was
      -- written, each submission has a new id, and nothing comes between the halves of a compaction. At
      -- whatever moment of a course the process is killed or the machine stops, in the middle of
      -- deliveries, requests and maintenance, and after any crashes before: a start of which no call fails
      -- succeeds; no task in memory is lost; its id, its idempotency key, its policy and its caller are as
      -- they were; its target is the same too, or is whole where that in memory had been stripped of its
      -- headers and body, or, if the task has succeeded, is equal once both are stripped; those tasks that
      -- have not ended are in the heap, each once, every idempotency key leads to a task, and the journal
      -- records the tasks; and the program goes on in a sound state.
      pub course_loses_nothing :
          let r = restore c no_fault io (new qcfg (reopen n s.queue.store)) in
          Started c given s.queue.tasks r × Sound cfg' (started r.0)
      course_loses_nothing =
          let (v, d, life) = Course-Lives course in
          let r = crash-loses_nothing c life n qcfg io in (r, Started-Sound c cfg' parse r)

      -- At whatever moment of a course the log is closed by a close that does not fail, after a crash at
      -- any moment then and a start of which no call fails: the start succeeds and loses nothing; each
      -- task that was in memory has the attempts that it had, its target, perhaps stripped once it has
      -- succeeded, and its end with the reason, or it has not ended, and the next attempt is no later
      -- than it was; and the program goes on in a sound state.
      pub course_remembers :
          (is_closed : Bool)
          → let w = (close_wal none_fails is_closed s.queue.store).0 in
            let r = restore c no_fault io (new qcfg (reopen n w)) in
            Started c given s.queue.tasks r
            × ((j : Bytes) → IsRecorded (lookup j s.queue.tasks) (lookup j r.0.tasks))
            × Sound cfg' (started r.0)
      course_remembers is_closed =
          let (v, d, life) = Course-Lives course in
          let (r, known) = close-remembers c life n qcfg io is_closed in
          (r, known, Started-Sound c cfg' parse r)
