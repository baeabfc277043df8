-- ===== src/Examples/Runs.antt =====
-- A run of the program that hands two tasks to workers.
use rc_wnzzer.Base.{
  ℕ, ◌+◌, ◌≤◌, ◌≡◌, ◌⊎◌, ◌∙◌, refl, true, false, Bytes, bytes, Option, some, [], ◌∷◌, length,
  get_elem?, occurs, arith,
}
use rc_wnzzer.Base.Table.{lookup, insert}
use rc_wnzzer.Model.{pending}
use rc_wnzzer.Store.Wal.{append_enqueue, write, flush}
use rc_wnzzer.Queue.Heap.{push, pop, up, down, swap}
use rc_wnzzer.Queue.State.{new, schedule, update, next_at_of}
use rc_wnzzer.Queue.Ops.{lease, submit, submit_new}
use rc_wnzzer.Queue.Sending.{sent_now, sent_now-submit}
use rc_wnzzer.Dispatch.Target.{Url}
use rc_wnzzer.Dispatch.Run.{
  Settings, looking, stopped, leased, holding, Flight, System, started, taken, url_of, host_of,
  look, choose_host, start_worker, complete, release,
}
use rc_wnzzer.Dispatch.Run.Busy.{choose_host-busy}
use rc_wnzzer.Dispatch.Run.Sums.{sum}
use rc_wnzzer.Program.Steps.{looks, chooses, starts}
use rc_wnzzer.Program.Sound.{is_at, loop_sends}
use rc_wnzzer.Program.Reach.{Reach, start, later, one_worker, load_bounds, in_hands}
use rc_wnzzer.Examples.Json.{sample_codec}
use rc_wnzzer.Examples.Inputs.{task, io, fresh_queue}
use rc_wnzzer.Examples.Attempts.{limits, failed}
use rc_wnzzer.Examples.Queues.{
  one_task, one_task-Inv, fresh_id, out_queue, out_queue-Inv, out_task, out_held,
}

abbrev pub one_each : Settings
one_each = record { workers = 2; host_concurrency = 1; limits = limits }

abbrev pub parse_all : Bytes → Option Url
parse_all raw = some (record { scheme = bytes "https"; host = bytes "h"; hostname = bytes "h" })

abbrev ready : System
ready = started one_task

abbrev picked : System
picked = look 7 ready

abbrev admitted : System
admitted = choose_host parse_all one_each task.id 7 picked

abbrev sent : System
sent = start_worker task.id (bytes "h") admitted

quiet : (j : Bytes) → sent_now one_task j ≡ 0
quiet j = sent_now-submit sample_codec io task fresh_queue j fresh_id ∙ unfold new lookup in refl

picked_loop : picked.loop ≡ leased task.id 7
unfolding look lease submit submit_new append_enqueue schedule new lookup insert update push pop
    next_at_of write flush up down swap
picked_loop = refl

admitted_loop : admitted.loop ≡ holding task.id (bytes "h") 7
unfolding look choose_host host_of lease submit submit_new append_enqueue schedule new lookup insert
    update push pop next_at_of write flush up down swap
admitted_loop = refl

sent_flight :
    get_elem? sent.flights 0 ≡ some (record { id = task.id; host = bytes "h"; is_done = false })
unfolding start_worker
sent_flight = refl

no_slot : admitted.slots ≡ 0
unfolding look choose_host host_of lease submit submit_new append_enqueue schedule new lookup insert
    update push pop next_at_of write flush up down swap
no_slot = refl

reached : Reach sample_codec one_each parse_all one_task sent
reached =
    later (later (later start (looks 7 refl)) (chooses task.id 7 picked_loop))
      (starts task.id (bytes "h") 7 admitted_loop (omega (arith, no_slot)))

abbrev flight : Flight
flight = record { id = task.id; host = bytes "h"; is_done = false }

one_worker_example : ◌≡◌ {A = ℕ} 0 0
one_worker_example =
    one_worker sample_codec one_each parse_all one_task one_task-Inv quiet sent 0 0 flight flight
      reached sent_flight sent_flight refl refl refl

load_bounds_example : (length sent.flights ≤ 2) × (sum (is_at (bytes "h")) sent.flights ≤ 1)
load_bounds_example =
    load_bounds sample_codec one_each parse_all one_task one_task-Inv quiet sent (bytes "h") reached

sent_held : lookup task.id sent.queue.tasks ≡ some out_task
unfolding start_worker look choose_host host_of lease submit submit_new append_enqueue schedule new
    lookup insert update push pop next_at_of write flush up down swap
sent_held = refl

in_hands_example :
    (loop_sends task.id sent.loop ≡ 1)
    ⊎ ((i : ℕ) × (f : Flight) × (get_elem? sent.flights i ≡ some f)
        × (f.is_done ≡ false)
        × (f.id ≡ task.id))
in_hands_example =
    in_hands sample_codec one_each parse_all one_task one_task-Inv quiet sent task.id out_task
      reached sent_held refl

-- The host's only token is taken.
abbrev crowded : System
crowded = record {
  queue = out_queue;
  loop = leased task.id 7;
  slots = 1;
  host_sem = (bytes "h", 1) ∷ [];
  flights = (record { id = bytes "0"; host = bytes "h"; is_done = true }) ∷ [];
}

crowded_host : 1 ≤ taken (host_of parse_all (url_of task.id crowded.queue)) crowded.host_sem
unfolding host_of lookup
crowded_host = omega arith

choose_host-busy_example :
    let s' = choose_host parse_all one_each task.id 7 crowded in
    (lookup task.id s'.queue.tasks ≡ some (record out_task { state = pending; next_at = 7 + 200 }))
    × (occurs task.id s'.queue.due ≡ 1)
    × (s'.loop ≡ looking)
    × ((h : Bytes) → taken h s'.host_sem ≡ taken h crowded.host_sem)
choose_host-busy_example =
    choose_host-busy parse_all one_each task.id 7 out_task crowded out_queue-Inv out_held refl
      crowded_host

abbrev ended : Flight
ended = record flight { is_done = true }

abbrev left_off : System
left_off = record sent { loop = stopped }

abbrev landed : System
landed = complete sample_codec one_each failed 0 flight left_off

abbrev at_rest : System
at_rest = release 0 ended landed
