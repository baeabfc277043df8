-- ===== src/Program/Steps.antt =====
-- The steps of the running program: those of `Run` and of its workers in
-- internal/dispatch/dispatch.go, those of requests in internal/api/api.go, and those of `Maintain`
-- in internal/queue/maintain.go. Each holds the queue's lock, or touches channels only.
use rc_wnzzer.Base.{ℕ, ◌<◌, ◌≡◌, Bool, true, false, Bytes, Option, none, some, List, get_elem?}
use rc_wnzzer.Base.Table.{lookup}
use rc_wnzzer.Store.Record.{Record}
use rc_wnzzer.Store.Codec.{Codec}
use rc_wnzzer.Store.Wal.{Io, CompactFault}
use rc_wnzzer.Queue.Maintain.{purge_expired, enforce_task_cap, compact_with}
use rc_wnzzer.Api.Validate.{Parsers}
use rc_wnzzer.Api.Submit.{Incoming, handle_submit, handle_retry}
use rc_wnzzer.Dispatch.Deliver.{Attempt}
use rc_wnzzer.Dispatch.Target.{Url}
use rc_wnzzer.Dispatch.Run.{
  Settings, looking, leased, holding, stopped, Flight, System, look, choose_host, start_worker,
  give_up, complete, release,
}

-- `fresh` is that `NewID` has not returned an id that the queue holds.
pub data Step (c : Codec) (cfg : Settings) (parse : Bytes → Option Url) (s : System)
    : System → Type 0 where
  looks : (now : ℕ) → s.loop ≡ looking → Step c cfg parse s (look now s)
  stops : s.loop ≡ looking → Step c cfg parse s (record s { loop = stopped })
  chooses :
      (id : Bytes) (now : ℕ)
      → s.loop ≡ leased id now
      → Step c cfg parse s (choose_host parse cfg id now s)
  starts :
      (id host : Bytes) (now : ℕ)
      → s.loop ≡ holding id host now
      → s.slots < cfg.workers
      → Step c cfg parse s (start_worker id host s)
  gives_up :
      (id host : Bytes) (now : ℕ)
      → s.loop ≡ holding id host now
      → Step c cfg parse s (give_up id host now s)
  finishes :
      (a : Attempt) (i : ℕ) (f : Flight)
      → get_elem? s.flights i ≡ some f
      → f.is_done ≡ false
      → Step c cfg parse s (complete c cfg a i f s)
  releases :
      (i : ℕ) (f : Flight)
      → get_elem? s.flights i ≡ some f
      → f.is_done ≡ true
      → Step c cfg parse s (release i f s)
  submits :
      (p : Parsers) (allow_private : Bool) (io : Io) (now : ℕ) (id : Bytes) (incoming : Incoming)
      → lookup id s.queue.tasks ≡ none
      → Step c cfg parse s
          (record s { queue = (handle_submit c p allow_private io now id incoming s.queue).0 })
  retries :
      (io : Io) (now : ℕ) (is_authed : Bool) (id : Bytes)
      → Step c cfg parse s
          (record s { queue = (handle_retry c io now is_authed id (λ x. x) s.queue).0 })
  purges : (now : ℕ) → Step c cfg parse s (record s { queue = purge_expired now s.queue })
  caps : Step c cfg parse s (record s { queue = enforce_task_cap s.queue })
  compacts :
      (fault : CompactFault) (snap : List Record)
      → Step c cfg parse s (record s { queue = (compact_with c fault snap s.queue).0 })
