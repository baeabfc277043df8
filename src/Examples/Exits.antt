-- ===== src/Examples/Exits.antt =====
-- An orderly exit of the program: the signal comes while a worker delivers.
use rc_wnzzer.Base.{◌≡◌, refl, true, false, Bytes, bytes, [], ◌∷◌, get_elem?, some, occurs-nil}
use rc_wnzzer.Base.Table.{lookup, insert}
use rc_wnzzer.Store.Wal.{none_fails, close_wal, append_enqueue, write, flush, reopen}
use rc_wnzzer.Store.Replay.{ReplayFault}
use rc_wnzzer.Queue.State.{new, schedule, update, next_at_of}
use rc_wnzzer.Queue.Heap.{push, pop, up, down, swap}
use rc_wnzzer.Queue.Ops.{submit, submit_new, lease}
use rc_wnzzer.Api.Validate.{validate}
use rc_wnzzer.Dispatch.Target.{validate_target_url}
use rc_wnzzer.Api.Submit.{handle_submit, take_request, take_task}
use rc_wnzzer.Queue.Sending.{sent_now}
use rc_wnzzer.Queue.Restore.{restore}
use rc_wnzzer.Queue.Ledger.{IsRecorded}
use rc_wnzzer.Queue.Ledger.Restarts.{Started}
use rc_wnzzer.Dispatch.Run.{
  Flight, System, started, looking, stopped, look, host_of, choose_host, complete, release,
  start_worker,
}
use rc_wnzzer.Program.Steps.{looks, chooses, starts, stops, finishes, releases, submits}
use rc_wnzzer.Program.Sound.{Sound}
use rc_wnzzer.Program.Courses.{boots}
use rc_wnzzer.Program.Exits.{
  leaving, Process, Move, acts, cancels, maintenance_ends, shuts, joins, waits, Execution, begins,
  moves,
}
use rc_wnzzer.Program.Exits.Orderly.{leave_remembers}
use rc_wnzzer.Examples.Json.{sample_codec}
use rc_wnzzer.Examples.Inputs.{killed, config, io}
use rc_wnzzer.Examples.Attempts.{failed}
use rc_wnzzer.Examples.Requests.{parsers, incoming}
use rc_wnzzer.Examples.Runs.{one_each, parse_all}
use rc_wnzzer.Examples.Courses.{
  sent, flight, is_utf8, failed-Writable, is_fresh, picked_loop, admitted_loop, worker_free, flying,
}

abbrev ended : Flight
ended = record flight { is_done = true }

-- The loop has returned, and the worker has ended.
abbrev done : System
done =
    release 0 ended
      (complete sample_codec one_each failed 0 flight (record sent { loop = stopped }))

ended_flies :
    get_elem?
      (complete sample_codec one_each failed 0 flight (record sent { loop = stopped })).flights
      0
    ≡ some ended
unfolding complete start_worker
ended_flies = refl

all_landed : done.flights ≡ []
unfolding release complete start_worker look choose_host host_of lease submit submit_new
    append_enqueue schedule new lookup insert update push pop next_at_of write flush up down swap
    handle_submit take_request take_task validate validate_target_url
all_landed = refl

sent_loop : sent.loop ≡ looking
unfolding start_worker
sent_loop = refl

abbrev at_end : Process
at_end = record {
  system = done;
  phase = leaving;
  serves = false;
  maintains = false;
  on_time = true;
}

execution : Execution sample_codec one_each parse_all (bytes "1" ∷ []) at_end
execution =
    let e₀ = begins (boots one_each config) in
    let e₁ =
      moves e₀ (acts (submits parsers false io 5 (bytes "1") incoming is_fresh) refl)
        (refl, occurs-nil (bytes "1"), λ key_id r e f. is_utf8 _) in
    let e₂ = moves e₁ (acts (looks 7 refl) tt) tt in
    let e₃ = moves e₂ (acts (chooses (bytes "1") 7 picked_loop) tt) tt in
    let e₄ = moves e₃ (acts (starts (bytes "1") (bytes "h") 7 admitted_loop worker_free) tt) tt in
    let e₅ = moves e₄ (cancels refl) tt in
    let e₆ = moves e₅ (acts (stops sent_loop) refl) tt in
    let e₇ = moves e₆ (shuts refl) tt in
    let e₈ = moves e₇ (maintenance_ends refl) tt in
    let e₉ = moves e₈ (joins refl refl refl) tt in
    let a₁ =
      moves e₉ (acts (finishes failed 0 flight flying refl) tt) (refl, λ t at. failed-Writable t) in
    let a₂ = moves a₁ (acts (releases 0 ended ended_flies refl) tt) tt in
    moves a₂ (waits refl all_landed) tt

leave_remembers_example :
    let q = done.queue in
    let w = (close_wal none_fails false q.store).0 in
    let r = restore sample_codec ReplayFault.no_fault none_fails (new config (reopen killed w)) in
    ((p' : Process) → Move sample_codec one_each parse_all at_end p' → p'.system.queue ≡ q)
    × ((j : Bytes) → sent_now q j ≡ 0)
    × Started sample_codec (bytes "1" ∷ []) q.tasks r
    × ((j : Bytes) → IsRecorded (lookup j q.tasks) (lookup j r.0.tasks))
    × Sound one_each (started r.0)
leave_remembers_example =
    leave_remembers sample_codec one_each parse_all execution refl refl killed one_each config
      none_fails
