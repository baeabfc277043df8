-- ===== src/Program/Exits.antt =====
-- `run` of cmd/notifyd/main.go from the start of its goroutines to its return: the program serves, a
-- signal cancels the context, the server is shut down, the loop and the maintenance are joined, the
-- workers are waited for, and the log is closed last.
pub mod Orderly
use rc_wnzzer.Base.{◌≡◌, Bool, true, false, Bytes, Option, List, []}
use rc_wnzzer.Store.Codec.{Codec}
use rc_wnzzer.Store.Wal.{none_fails, sync_tick}
use rc_wnzzer.Queue.State.{Queue}
use rc_wnzzer.Dispatch.Target.{Url}
use rc_wnzzer.Dispatch.Run.{Settings, stopped, System, started}
use rc_wnzzer.Program.Steps.{
  Step, looks, stops, chooses, starts, gives_up, finishes, releases, submits, retries, purges, caps,
  compacts,
}
use rc_wnzzer.Program.Courses.{IsClean, drawn, Course}

-- Where `run` is: in the `select`, in `Shutdown`, before the two channels, in `Wait`, and about to
-- return, when the deferred calls follow.
pub data Phase : Type 0 where
  serving shutting joining waiting leaving : Phase

abbrev pub is_cancelled : Phase → Bool
is_cancelled serving = false
is_cancelled _ = true

-- `serves` is whether a handler may still run, `maintains` whether the goroutine of the maintenance
-- does, and `on_time` whether the server has not failed and no wait has come to its grace.
pub record Process : Type 0 where
  pub system : System
  pub phase : Phase
  pub serves : Bool
  pub maintains : Bool
  pub on_time : Bool

-- The goroutines have started.
abbrev pub serving_from : Queue → Process
serving_from q = record {
  system = started q;
  phase = serving;
  serves = true;
  maintains = true;
  on_time = true;
}

module _ (c : Codec) (cfg : Settings) (parse : Bytes → Option Url) where
  -- The loop returns only after the signal; requests and maintenance end with their goroutines.
  abbrev pub May : {s s' : System} → Process → Step c cfg parse s s' → Type 0
  May p (stops at) = is_cancelled p.phase ≡ true
  May p (gives_up id host now at) = is_cancelled p.phase ≡ true
  May p (submits q allow_private io now id incoming fresh) = p.serves ≡ true
  May p (retries io now b id) = p.serves ≡ true
  May p (purges now) = p.maintains ≡ true
  May p caps = p.maintains ≡ true
  May p (compacts fault snap) = p.maintains ≡ true
  May p _ = Unit

-- `shuts_late` and `waits_late` are the ends of the grace, `fails` an error of the server.
pub data Move (c : Codec) (cfg : Settings) (parse : Bytes → Option Url) (p : Process)
    : Process → Type 0 where
  acts :
      {s' : System} (e : Step c cfg parse p.system s')
      → May c cfg parse p e
      → Move c cfg parse p (record p { system = s' })
  cancels : p.phase ≡ serving → Move c cfg parse p (record p { phase = shutting })
  fails : p.phase ≡ serving → Move c cfg parse p (record p { phase = leaving; on_time = false })
  maintenance_ends :
      is_cancelled p.phase ≡ true → Move c cfg parse p (record p { maintains = false })
  shuts : p.phase ≡ shutting → Move c cfg parse p (record p { phase = joining; serves = false })
  shuts_late :
      p.phase ≡ shutting → Move c cfg parse p (record p { phase = joining; on_time = false })
  joins :
      p.phase ≡ joining
      → p.system.loop ≡ stopped
      → p.maintains ≡ false
      → Move c cfg parse p (record p { phase = waiting })
  waits :
      p.phase ≡ waiting → p.system.flights ≡ [] → Move c cfg parse p (record p { phase = leaving })
  waits_late :
      p.phase ≡ waiting → Move c cfg parse p (record p { phase = leaving; on_time = false })

module _ (c : Codec) (cfg : Settings) (parse : Bytes → Option Url) where
  abbrev pub IsCleanMove : {p p' : Process} → List Bytes → Move c cfg parse p p' → Type 0
  IsCleanMove given (acts e may) = IsClean c cfg parse given e
  IsCleanMove given _ = Unit

  abbrev pub drawn_by : {p p' : Process} → List Bytes → Move c cfg parse p p' → List Bytes
  drawn_by given (acts e may) = drawn c cfg parse given e
  drawn_by given _ = given

-- What `run` comes to, from a start after any course of the program before, as long as no call of the
-- journal fails.
pub data Execution (c : Codec) (cfg : Settings) (parse : Bytes → Option Url)
    : List Bytes → Process → Type 0 where
  begins :
      {given : List Bytes} {q : Queue}
      → Course c parse given cfg (started q)
      → Execution c cfg parse given (serving_from q)
  moves :
      {given : List Bytes} {p p' : Process}
      → Execution c cfg parse given p
      → (m : Move c cfg parse p p') → IsCleanMove c cfg parse given m
      → Execution c cfg parse (drawn_by c cfg parse given m) p'
  ticks :
      {given : List Bytes} {p : Process}
      → Execution c cfg parse given p
      → Execution c cfg parse given (record p {
        system = record p.system {
          queue = record p.system.queue { store = sync_tick none_fails p.system.queue.store };
        };
      })
