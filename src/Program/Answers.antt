-- ===== src/Program/Answers.antt =====
-- The answers of internal/api/api.go to the submissions of a running program.
use rc_wnzzer.Base.{ℕ, ◌≢◌, Bool, Bytes, Option, arith}
use rc_wnzzer.Base.Table.{lookup-nil}
use rc_wnzzer.Model.{Task}
use rc_wnzzer.Store.Codec.{Codec}
use rc_wnzzer.Store.Wal.{Io, Wal}
use rc_wnzzer.Queue.State.{Config, new}
use rc_wnzzer.Queue.Invariant.{new-Inv}
use rc_wnzzer.Api.Validate.{Parsers}
use rc_wnzzer.Api.Submit.{Incoming, handle_submit, panics}
use rc_wnzzer.Api.Promises.{handle_submit-answers}
use rc_wnzzer.Dispatch.Target.{Url}
use rc_wnzzer.Dispatch.Run.{Settings, System}
use rc_wnzzer.Program.Reach.{Reach, Reach-Sound}

-- In every state that the program reaches from an empty queue, through any steps of the loop, the
-- workers, requests and maintenance and whatever fails in the journal, every submission gets an
-- answer: that to a duplicate is never made of a task that is missing.
pub always_answers :
    (c : Codec) (cfg : Settings) (parse : Bytes → Option Url) (qcfg : Config) (w : Wal) (s : System)
    (p : Parsers) (allow_private : Bool) (io : Io) (now : ℕ) (id : Bytes) (incoming : Incoming)
    → Reach c cfg parse (new qcfg w) s
    → (handle_submit c p allow_private io now id incoming s.queue).1 ≢ panics
always_answers c cfg parse qcfg w s p allow_private io now id incoming r =
    let sound =
      Reach-Sound c cfg parse (new qcfg w) (new-Inv qcfg w)
        (λ j. unfold new in ground (arith, lookup-nil {V = Task} j)) r in
    handle_submit-answers c p allow_private io now id s.queue incoming sound.queue_Inv
