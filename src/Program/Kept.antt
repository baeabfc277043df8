-- ===== src/Program/Kept.antt =====
-- Every step of the running program keeps what holds between two of them: `Run` and its workers,
-- requests, and maintenance.
use rc_wnzzer.Base.{ℕ, ◌≡◌, refl, Bool, true, false, Bytes, Option, none}
use rc_wnzzer.Base.Table.{lookup}
use rc_wnzzer.Store.Codec.{Codec}
use rc_wnzzer.Store.Wal.{Io}
use rc_wnzzer.Queue.State.{Queue}
use rc_wnzzer.Queue.Invariant.{Inv}
use rc_wnzzer.Queue.Keeps.{revive-Inv}
use rc_wnzzer.Queue.Purge.{purge_expired-Inv}
use rc_wnzzer.Queue.Cap.{enforce_task_cap-Inv}
use rc_wnzzer.Queue.Upkeep.{compact_with-Inv}
use rc_wnzzer.Queue.Sending.{
  sent_now, sent_now-submit, sent_now-revive, sent_now-purge, sent_now-cap, sent_now-compact,
}
use rc_wnzzer.Api.Validate.{Parsers}
use rc_wnzzer.Api.Submit.{Incoming, task_from, take_task, handle_submit, handle_retry}
use rc_wnzzer.Api.Promises.{handle_parts, handle_submit-Inv}
use rc_wnzzer.Dispatch.Target.{Url}
use rc_wnzzer.Dispatch.Run.{Settings, System}
use rc_wnzzer.Program.Steps.{
  Step, looks, stops, chooses, starts, gives_up, finishes, releases, submits, retries, purges, caps,
  compacts,
}
use rc_wnzzer.Program.Sound.{Sound, queue-Sound}
use rc_wnzzer.Program.Moves.{
  look-Sound, stop-Sound, choose_host-Sound, start_worker-Sound, give_up-Sound,
}
use rc_wnzzer.Program.Workers.{complete-Sound, release-Sound}

module _ (c : Codec) where
  sent_now-handle_submit :
      (p : Parsers) (allow_private : Bool) (io : Io) (now : ℕ) (id : Bytes) (incoming : Incoming)
      (q : Queue) (j : Bytes)
      → lookup id q.tasks ≡ none
      → sent_now (handle_submit c p allow_private io now id incoming q).0 j ≡ sent_now q j
  unfolding take_task
  sent_now-handle_submit p allow_private io now id incoming q j fresh =
      handle_parts c p allow_private io now id q (λ r. sent_now r.0 j ≡ sent_now q j)
        (λ status code. refl)
        (λ key_id r e. sent_now-submit c io (task_from now id key_id r) q j fresh) incoming.fits
        incoming.caller incoming.request

  handle_retry-Inv :
      (io : Io) (now : ℕ) (b : Bool) (id : Bytes) (q : Queue)
      → Inv q
      → Inv (handle_retry c io now b id (λ x. x) q).0
  unfolding handle_retry
  handle_retry-Inv io now false id q v = v
  handle_retry-Inv io now true id q v = revive-Inv c io now id q v

  sent_now-handle_retry :
      (io : Io) (now : ℕ) (b : Bool) (id : Bytes) (q : Queue) (j : Bytes)
      → sent_now (handle_retry c io now b id (λ x. x) q).0 j ≡ sent_now q j
  unfolding handle_retry
  sent_now-handle_retry io now false id q j = refl
  sent_now-handle_retry io now true id q j = sent_now-revive c io now id q j

  module _ (cfg : Settings) (parse : Bytes → Option Url) where
    -- Every step of the program, of the loop, the workers, the requests and the maintenance, keeps what
    -- holds between two steps.
    pub Step-Sound : {s s' : System} → Sound cfg s → Step c cfg parse s s' → Sound cfg s'
    Step-Sound {s} v (looks now at) = look-Sound cfg s v now at
    Step-Sound {s} v (stops at) = stop-Sound cfg s v at
    Step-Sound {s} v (chooses id now at) = choose_host-Sound cfg s v parse id now at
    Step-Sound {s} v (starts id host now at free) = start_worker-Sound cfg s v id host now at free
    Step-Sound {s} v (gives_up id host now at) = give_up-Sound cfg s v id host now at
    Step-Sound {s} v (finishes a i f here going) = complete-Sound cfg s v i f here c a going
    Step-Sound {s} v (releases i f here over) = release-Sound cfg s v i f here over
    Step-Sound {s} v (submits p allow_private io now id incoming fresh) =
        queue-Sound cfg s _ v
          (handle_submit-Inv c p allow_private io now id s.queue incoming v.queue_Inv fresh)
          (λ j. sent_now-handle_submit p allow_private io now id incoming s.queue j fresh)
    Step-Sound {s} v (retries io now b id) =
        queue-Sound cfg s _ v (handle_retry-Inv io now b id s.queue v.queue_Inv)
          (λ j. sent_now-handle_retry io now b id s.queue j)
    Step-Sound {s} v (purges now) =
        queue-Sound cfg s _ v (purge_expired-Inv now s.queue v.queue_Inv)
          (λ j. sent_now-purge now s.queue j v.queue_Inv)
    Step-Sound {s} v caps =
        queue-Sound cfg s _ v (enforce_task_cap-Inv s.queue v.queue_Inv)
          (λ j. sent_now-cap s.queue j v.queue_Inv)
    Step-Sound {s} v (compacts fault snap) =
        queue-Sound cfg s _ v (compact_with-Inv c fault snap s.queue v.queue_Inv)
          (λ j. sent_now-compact c fault snap s.queue j)
