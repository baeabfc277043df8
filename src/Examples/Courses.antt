-- ===== src/Examples/Courses.antt =====
-- A course of the program: a request is taken, its task is leased, one attempt on it fails, the log is
-- synchronised, and the program crashes.
use rc_wnzzer.Base.{
  ◌≡◌, ◌≢◌, refl, true, false, Bytes, bytes, [], ◌∷◌, get_elem?, some, none, occurs-nil, arith, ◌<◌,
}
use rc_wnzzer.Base.Table.{lookup, insert}
use rc_wnzzer.Model.{Task, pending}
use rc_wnzzer.Store.Record.{Record}
use rc_wnzzer.Store.Wal.{
  none_fails, open_wal, close_wal, sync_tick, append_enqueue, write, flush, reopen,
}
use rc_wnzzer.Store.Replay.{ReplayFault}
use rc_wnzzer.Queue.State.{new, schedule, update, next_at_of}
use rc_wnzzer.Queue.Heap.{push, pop, up, down, swap}
use rc_wnzzer.Queue.Ops.{submit, submit_new, lease}
use rc_wnzzer.Queue.Restore.{restore}
use rc_wnzzer.Queue.Ledger.{IsRecorded}
use rc_wnzzer.Queue.Ledger.Restarts.{Started}
use rc_wnzzer.Dispatch.Target.{validate_target_url}
use rc_wnzzer.Dispatch.Run.{
  leased, holding, Flight, System, started, look, host_of, choose_host, start_worker, complete,
}
use rc_wnzzer.Api.Validate.{validate}
use rc_wnzzer.Api.Submit.{submitted, panics, handle_submit, take_request, take_task}
use rc_wnzzer.Program.Steps.{looks, chooses, starts, finishes, submits}
use rc_wnzzer.Program.Sound.{Sound}
use rc_wnzzer.Program.Answers.{always_answers}
use rc_wnzzer.Program.Reach.{Reach, start, later}
use rc_wnzzer.Program.Courses.{Course, boots, steps, ticks, Writable}
use rc_wnzzer.Program.Courses.Lives.{course_loses_nothing, course_remembers}
use rc_wnzzer.Examples.Json.{sample_codec}
use rc_wnzzer.Examples.Inputs.{killed, config, io}
use rc_wnzzer.Examples.Attempts.{failed}
use rc_wnzzer.Examples.Requests.{parsers, incoming}
use rc_wnzzer.Examples.Runs.{one_each, parse_all}

pub is_utf8 : (r : Record) → sample_codec.is_utf8 r ≡ true
unfolding sample_codec
is_utf8 r = refl

pub failed-Writable : (t : Task) → Writable sample_codec failed t
failed-Writable t = record {
  again = λ next_at. is_utf8 _;
  success = is_utf8 _;
  permanent = is_utf8 _;
  max_attempts = is_utf8 _;
  deadline = is_utf8 _;
}

abbrev pub booted : System
booted = started (new config (open_wal 0 []))

abbrev pub requested : System
requested = record booted {
  queue = (handle_submit sample_codec parsers false io 5 (bytes "1") incoming booted.queue).0;
}

abbrev pub picked : System
picked = look 7 requested

abbrev pub admitted : System
admitted = choose_host parse_all one_each (bytes "1") 7 picked

abbrev pub sent : System
sent = start_worker (bytes "1") (bytes "h") admitted

abbrev pub flight : Flight
flight = record { id = bytes "1"; host = bytes "h"; is_done = false }

abbrev pub tried : System
tried = complete sample_codec one_each failed 0 flight sent

abbrev synced : System
synced = record tried {
  queue = record tried.queue { store = sync_tick none_fails tried.queue.store };
}

pub is_fresh : lookup (bytes "1") booted.queue.tasks ≡ none
unfolding new lookup
is_fresh = refl

pub picked_loop : picked.loop ≡ leased (bytes "1") 7
unfolding look lease submit submit_new append_enqueue schedule new lookup insert update push pop
    next_at_of write flush up down swap handle_submit take_request take_task validate
    validate_target_url
picked_loop = refl

pub admitted_loop : admitted.loop ≡ holding (bytes "1") (bytes "h") 7
unfolding look choose_host host_of lease submit submit_new append_enqueue schedule new lookup insert
    update push pop next_at_of write flush up down swap handle_submit take_request take_task
    validate validate_target_url
admitted_loop = refl

pub worker_free : admitted.slots < 2
unfolding look choose_host host_of lease submit submit_new append_enqueue schedule new lookup insert
    update push pop next_at_of write flush up down swap handle_submit take_request take_task
    validate validate_target_url
worker_free = omega arith

pub flying : get_elem? sent.flights 0 ≡ some flight
unfolding start_worker
flying = refl

course : Course sample_codec parse_all (bytes "1" ∷ []) one_each synced
course = ticks (
    steps
      (steps
        (steps
          (steps
            (steps (boots one_each config)
              (submits parsers false io 5 (bytes "1") incoming is_fresh)
              (refl, occurs-nil (bytes "1"), λ key_id r e f. is_utf8 _))
            (looks 7 refl) tt)
          (chooses (bytes "1") 7 picked_loop) tt)
        (starts (bytes "1") (bytes "h") 7 admitted_loop worker_free) tt)
      (finishes failed 0 flight flying refl) (refl, λ t at. failed-Writable t))

requested_reached : Reach sample_codec one_each parse_all (new config (open_wal 0 [])) requested
requested_reached = later start (submits parsers false io 5 (bytes "1") incoming is_fresh)

-- The key is known, so the answer is made of the task of the first request.
second_answer :
    (handle_submit sample_codec parsers false io 50 (bytes "2") incoming requested.queue).1
    ≡ submitted 200 (bytes "1") pending true 5
unfolding handle_submit take_request take_task validate validate_target_url submit submit_new
    append_enqueue schedule new lookup insert update push up down swap next_at_of write flush
second_answer = refl

always_answers_example :
    (handle_submit sample_codec parsers false io 50 (bytes "2") incoming requested.queue).1 ≢ panics
always_answers_example =
    always_answers sample_codec one_each parse_all config (open_wal 0 []) requested parsers false io
      50 (bytes "2") incoming requested_reached

course_loses_nothing_example :
    let r =
      restore sample_codec ReplayFault.no_fault none_fails
        (new config (reopen killed synced.queue.store)) in
    Started sample_codec (bytes "1" ∷ []) synced.queue.tasks r × Sound one_each (started r.0)
course_loses_nothing_example =
    course_loses_nothing sample_codec parse_all course killed one_each config none_fails

course_remembers_example :
    let w = (close_wal none_fails true synced.queue.store).0 in
    let r = restore sample_codec ReplayFault.no_fault none_fails (new config (reopen killed w)) in
    Started sample_codec (bytes "1" ∷ []) synced.queue.tasks r
    × ((j : Bytes) → IsRecorded (lookup j synced.queue.tasks) (lookup j r.0.tasks))
    × Sound one_each (started r.0)
course_remembers_example =
    course_remembers sample_codec parse_all course killed one_each config none_fails true
