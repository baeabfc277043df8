-- ===== src/Program/Shutdown.antt =====
-- The shutdown of cmd/notifyd/main.go: once the context is cancelled, `Run` of
-- internal/dispatch/dispatch.go returns and the workers end.
use rc_wnzzer.Base.{ℕ, suc, ◌+◌, ◌≡◌, Bytes, Option, if◌then◌else◌}
use rc_wnzzer.Store.Codec.{Codec}
use rc_wnzzer.Queue.State.{Queue}
use rc_wnzzer.Dispatch.Deliver.{Attempt}
use rc_wnzzer.Dispatch.Target.{Url}
use rc_wnzzer.Dispatch.Run.{Settings, Loop, looking, leased, holding, stopped, Flight, System}
use rc_wnzzer.Dispatch.Run.Sums.{sum}
use rc_wnzzer.Program.Steps.{Step, looks, submits, retries, purges, caps, compacts}
use rc_wnzzer.Program.Reach.{Reach}

-- Whose step it is: a lease of `Run`, any other step of `Run` or of a worker, or another goroutine's.
pub data Part : Type 0 where
  a_lease of_run of_others : Part

abbrev pub part :
    {c : Codec} {cfg : Settings} {parse : Bytes → Option Url} {s s' : System}
    → Step c cfg parse s s'
    → Part
part (looks now e) = a_lease
part (submits p allow_private io now id incoming new) = of_others
part (retries io now is_authed id) = of_others
part (purges now) = of_others
part caps = of_others
part (compacts fault snap) = of_others
part _ = of_run

-- The runs under a cancelled context, with the number of steps of `Run` and its workers: `Run` looks
-- at the context before each lease, so there are no more of them.
pub data Winding (c : Codec) (cfg : Settings) (parse : Bytes → Option Url)
    : ℕ → System → System → Type 0 where
  over : {s : System} → Winding c cfg parse 0 s s
  runs :
      {n : ℕ} {s s' s'' : System} (e : Step c cfg parse s s')
      → part e ≡ of_run
      → Winding c cfg parse n s' s''
      → Winding c cfg parse (suc n) s s''
  others :
      {n : ℕ} {s s' s'' : System} (e : Step c cfg parse s s')
      → part e ≡ of_others
      → Winding c cfg parse n s' s''
      → Winding c cfg parse n s s''

-- How many steps the loop and a worker still have, at most.
abbrev loop_left : Loop → ℕ
loop_left stopped = 0
loop_left looking = 1
loop_left (holding id host now) = 4
loop_left (leased id now) = 5

abbrev flight_left : Flight → ℕ
flight_left f = if f.is_done then 1 else 2

abbrev left : System → ℕ
left s = loop_left s.loop + sum flight_left s.flights

module _ (c : Codec) (cfg : Settings) (parse : Bytes → Option Url) where
  -- `Run` or a worker has a step, whatever the attempt of a delivery ends with.
  abbrev pub GoesOn : System → Type 0
  GoesOn s = (a : Attempt) → (s' : System) × (e : Step c cfg parse s s') × (part e ≡ of_run)
