-- ===== src/Program/Exits/Orderly.antt =====
-- What an orderly exit of cmd/notifyd/main.go leaves: nothing moves any more when the log is closed.
use rc_wnzzer.Base.{◌≡◌, refl, subst, true, false, Bytes, Option, List, [], arith}
use rc_wnzzer.Base.Table.{lookup}
use rc_wnzzer.Store.Codec.{Codec}
use rc_wnzzer.Store.Wal.{Fault, none_fails, close_wal, Crash, reopen}
use rc_wnzzer.Store.Replay.{no_fault}
use rc_wnzzer.Queue.State.{Config, Queue, new}
use rc_wnzzer.Queue.Sending.{sent_now}
use rc_wnzzer.Queue.Restore.{restore}
use rc_wnzzer.Queue.Ledger.{IsRecorded}
use rc_wnzzer.Queue.Ledger.Restarts.{Started}
use rc_wnzzer.Dispatch.Target.{Url}
use rc_wnzzer.Dispatch.Run.{Settings, stopped, System, started, complete, release}
use rc_wnzzer.Dispatch.Run.Sums.{sum}
use rc_wnzzer.Program.Steps.{
  Step, looks, stops, chooses, starts, gives_up, finishes, releases, submits, retries, purges, caps,
  compacts,
}
use rc_wnzzer.Program.Sound.{handlers, Sound}
use rc_wnzzer.Program.Courses
use rc_wnzzer.Program.Courses.{Course}
use rc_wnzzer.Program.Courses.Lives.{Course-Sound, course_remembers}
use rc_wnzzer.Program.Exits.{
  Phase, serving, shutting, joining, waiting, leaving, Process, May, Move, acts, cancels, fails,
  maintenance_ends, shuts, shuts_late, joins, waits, waits_late, IsCleanMove, drawn_by, Execution,
  begins, moves, ticks,
}

-- What has come to rest by the phase.
abbrev At : Phase → Process → Type 0
At serving p = Unit
At shutting p = Unit
At joining p = p.serves ≡ false
At waiting p = (p.serves ≡ false) × (p.maintains ≡ false) × (p.system.loop ≡ stopped)
At leaving p =
    (p.serves ≡ false) × (p.maintains ≡ false) × (p.system.loop ≡ stopped) × (p.system.flights ≡ [])

abbrev Rests : Process → Type 0
Rests p = p.on_time ≡ true → At p.phase p

module _ (c : Codec) (cfg : Settings) (parse : Bytes → Option Url) where
  -- A step with everything at rest but the workers leaves the loop.
  loop-rests :
      {s s' : System} (p : Process) (e : Step c cfg parse s s')
      → May c cfg parse p e
      → p.serves ≡ false
      → p.maintains ≡ false
      → s.loop ≡ stopped
      → s'.loop ≡ stopped
  unfolding complete release
  loop-rests p (looks now at) may a b h = absurd (ground (arith, at, h))
  loop-rests p (stops at) may a b h = refl
  loop-rests p (chooses id now at) may a b h = absurd (ground (arith, at, h))
  loop-rests p (starts id host now at free) may a b h = absurd (ground (arith, at, h))
  loop-rests p (gives_up id host now at) may a b h = absurd (ground (arith, at, h))
  loop-rests p (finishes _ i f here going) may a b h = h
  loop-rests p (releases i f here over) may a b h = h
  loop-rests p (submits _ _ _ _ _ _ _) may a b h = h
  loop-rests p (retries io now x id) may a b h = h
  loop-rests p (purges now) may a b h = h
  loop-rests p caps may a b h = h
  loop-rests p (compacts fault snap) may a b h = h

  -- With everything at rest there is no step.
  no-Step :
      {s s' : System} (p : Process) (e : Step c cfg parse s s')
      → May c cfg parse p e
      → p.serves ≡ false
      → p.maintains ≡ false
      → s.loop ≡ stopped
      → s.flights ≡ []
      → ⊥
  no-Step p (looks now at) may a b h g = ground (arith, at, h)
  no-Step p (stops at) may a b h g = ground (arith, at, h)
  no-Step p (chooses id now at) may a b h g = ground (arith, at, h)
  no-Step p (starts id host now at free) may a b h g = ground (arith, at, h)
  no-Step p (gives_up id host now at) may a b h g = ground (arith, at, h)
  no-Step p (finishes _ i f here going) may a b h g = ground (arith, here, g)
  no-Step p (releases i f here over) may a b h g = ground (arith, here, g)
  no-Step p (submits _ _ _ _ _ _ _) may a b h g = ground (arith, may, a)
  no-Step p (retries io now x id) may a b h g = ground (arith, may, a)
  no-Step p (purges now) may a b h g = ground (arith, may, b)
  no-Step p caps may a b h g = ground (arith, may, b)
  no-Step p (compacts fault snap) may a b h g = ground (arith, may, b)

  acts-At :
      (f : Phase) (p : Process) {s' : System} (e : Step c cfg parse p.system s')
      → May c cfg parse p e
      → At f p
      → At f (record p { system = s' })
  acts-At serving p e may r = tt
  acts-At shutting p e may r = tt
  acts-At joining p e may r = r
  acts-At waiting p e may r = (r.0, r.1, loop-rests p e may r.0 r.1 r.2)
  acts-At leaving p e may r = absurd (no-Step p e may r.0 r.1 r.2 r.3)

  ends-At : (f : Phase) (p : Process) → At f p → At f (record p { maintains = false })
  ends-At serving p r = tt
  ends-At shutting p r = tt
  ends-At joining p r = r
  ends-At waiting p r = (r.0, refl, r.2)
  ends-At leaving p r = (r.0, refl, r.2, r.3)

  ticks-At :
      (f : Phase) (p : Process) (q : Queue)
      → At f p
      → At f (record p { system = record p.system { queue = q } })
  ticks-At serving p q r = tt
  ticks-At shutting p q r = tt
  ticks-At joining p q r = r
  ticks-At waiting p q r = r
  ticks-At leaving p q r = r

  Move-Rests : {p p' : Process} → Rests p → Move c cfg parse p p' → Rests p'
  Move-Rests {p} r (acts e may) h = acts-At p.phase p e may (r h)
  Move-Rests r (cancels at) h = tt
  Move-Rests r (fails at) h = absurd (ground (arith, h))
  Move-Rests {p} r (maintenance_ends at) h = ends-At p.phase p (r h)
  Move-Rests r (shuts at) h = refl
  Move-Rests r (shuts_late at) h = absurd (ground (arith, h))
  Move-Rests {p} r (joins at l m) h = (subst (λ f. At f p) at (r h), m, l)
  Move-Rests {p} r (waits at g) h = let (a, b, l) = subst (λ f. At f p) at (r h) in (a, b, l, g)
  Move-Rests r (waits_late at) h = absurd (ground (arith, h))

  Execution-Rests : {given : List Bytes} {p : Process} → Execution c cfg parse given p → Rests p
  Execution-Rests (begins course) h = tt
  Execution-Rests (moves x m clean) h = Move-Rests (Execution-Rests x) m h
  Execution-Rests (ticks {given} {p} x) h =
      ticks-At p.phase p (record p.system.queue { store = _ }) (Execution-Rests x h)

  Execution-Course :
      {given : List Bytes} {p : Process}
      → Execution c cfg parse given p
      → Course c parse given cfg p.system
  Execution-Course (begins course) = course
  Execution-Course (moves x m clean) = step m clean (Execution-Course x)
    where
      step :
          {given : List Bytes} {p p' : Process} (m : Move c cfg parse p p')
          → IsCleanMove c cfg parse given m
          → Course c parse given cfg p.system
          → Course c parse (drawn_by c cfg parse given m) cfg p'.system
      step (acts e may) clean r = Courses.steps r e clean
      step (cancels at) clean r = r
      step (fails at) clean r = r
      step (maintenance_ends at) clean r = r
      step (shuts at) clean r = r
      step (shuts_late at) clean r = r
      step (joins at l m) clean r = r
      step (waits at g) clean r = r
      step (waits_late at) clean r = r
  Execution-Course (ticks x) = Courses.ticks (Execution-Course x)

  -- With everything at rest no move changes the queue.
  Move-stands :
      {p p' : Process} → At leaving p → Move c cfg parse p p' → p'.system.queue ≡ p.system.queue
  Move-stands {p} r (acts e may) = absurd (no-Step p e may r.0 r.1 r.2 r.3)
  Move-stands r (cancels at) = refl
  Move-stands r (fails at) = refl
  Move-stands r (maintenance_ends at) = refl
  Move-stands r (shuts at) = refl
  Move-stands r (shuts_late at) = refl
  Move-stands r (joins at l m) = refl
  Move-stands r (waits at g) = refl
  Move-stands r (waits_late at) = refl

  module _ {given : List Bytes} {p : Process} (x : Execution c cfg parse given p)
      (leaves : p.phase ≡ leaving) (punctual : p.on_time ≡ true) where
    resting : At leaving p
    resting = subst (λ f. At f p) leaves (Execution-Rests x punctual)

    none_sent : (j : Bytes) → sent_now p.system.queue j ≡ 0
    unfolding handlers sum
    none_sent j =
        let (a, b, l, g) = resting in
        ground (arith, (Course-Sound c parse (Execution-Course x)).0.tracked j, l, g)

    -- If in an execution after a course of the program, of which no call of the journal fails either,
    -- the program is about to return, and no wait came to its grace, then nothing changes the queue any
    -- more before the log is closed, no task is being sent, and after a close that does not fail, a
    -- crash at any moment and a start of which no call fails: the start succeeds and loses nothing; each
    -- task has the attempts that it had, its target, perhaps stripped once it has succeeded, and its
    -- end with the reason, or it has not ended, and the next attempt is no later than it was; and the
    -- program goes on in a sound state.
    pub leave_remembers :
        (n : Crash) (cfg' : Settings) (qcfg : Config) (io : Fault)
        → let w = (close_wal none_fails false p.system.queue.store).0 in
          let r = restore c no_fault io (new qcfg (reopen n w)) in
          ((p' : Process) → Move c cfg parse p p' → p'.system.queue ≡ p.system.queue)
          × ((j : Bytes) → sent_now p.system.queue j ≡ 0)
          × Started c given p.system.queue.tasks r
          × ((j : Bytes) → IsRecorded (lookup j p.system.queue.tasks) (lookup j r.0.tasks))
          × Sound cfg' (started r.0)
    leave_remembers n cfg' qcfg io =
        let (up, known, sound) =
          course_remembers c parse (Execution-Course x) n cfg' qcfg io false in
        (λ p' m. Move-stands resting m, none_sent, up, known, sound)
