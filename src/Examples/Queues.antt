-- ===== src/Examples/Queues.antt =====
-- The queue theorems at a queue that takes one task, hands it out and buries it.
use rc_wnzzer.Base.{◌≡◌, ◌≢◌, refl, bytes, none, some, [], arith}
use rc_wnzzer.Base.Table.{lookup, insert}
use rc_wnzzer.Model.{Task}
use rc_wnzzer.Store.Wal.{append_enqueue, append_done, append_dead, write, flush}
use rc_wnzzer.Queue.Heap.{push, pop, up, down, swap}
use rc_wnzzer.Queue.State.{Queue, new, schedule, update, next_at_of}
use rc_wnzzer.Queue.Ops.{enqueued, submit, submit_new, lease, on_success, on_dead}
use rc_wnzzer.Queue.Invariant.{Inv, new-Inv}
use rc_wnzzer.Queue.Keeps.{on_success-Inv, on_dead-Inv}
use rc_wnzzer.Queue.Admits.{submit-Inv}
use rc_wnzzer.Queue.Lease.{leased, lease-Inv}
use rc_wnzzer.Examples.Json.{sample_codec}
use rc_wnzzer.Examples.Inputs.{task, config, io, journal, fresh_queue}

abbrev pub one_task : Queue
one_task = (submit sample_codec io task fresh_queue).0

pub key_named : task.idem_key ≢ []
key_named = ground arith

pub fresh_id : lookup task.id fresh_queue.tasks ≡ none
unfolding new lookup
fresh_id = refl

pub one_task-Inv : Inv one_task
one_task-Inv =
    submit-Inv sample_codec io task fresh_queue (new-Inv config journal) key_named fresh_id

abbrev pub out_queue : Queue
out_queue = (lease 7 one_task).0

pub out_queue-Inv : Inv out_queue
out_queue-Inv = lease-Inv 7 one_task one_task-Inv

abbrev pub out_task : Task
out_task = leased 7 (enqueued task)

pub out_held : lookup task.id out_queue.tasks ≡ some out_task
unfolding lease submit submit_new append_enqueue schedule new lookup insert update push pop
    next_at_of write flush up down swap
out_held = refl

-- A succeeded, a dead and a pending task.
abbrev pub second : Task
second = record task { id = bytes "2"; idem_key = bytes "l"; created_at = 6 }

abbrev pub third : Task
third = record task { id = bytes "3"; idem_key = bytes "m"; created_at = 7 }

abbrev pub two_tasks : Queue
two_tasks = (submit sample_codec io second out_queue).0

abbrev pub two_out : Queue
two_out = (lease 7 two_tasks).0

abbrev pub one_done : Queue
one_done = (on_success sample_codec io 8 task.id 200 [] two_out).0

abbrev pub one_dead : Queue
one_dead = (on_dead sample_codec io 9 second.id 404 [] [] one_done).0

abbrev pub three_tasks : Queue
three_tasks = (submit sample_codec io third one_dead).0

two_tasks-Inv : Inv two_tasks
two_tasks-Inv = submit-Inv sample_codec io second out_queue out_queue-Inv (ground arith) (
    unfold lease submit submit_new append_enqueue schedule new lookup insert update push pop
      next_at_of write flush up down swap in
    refl)

pub two_out-Inv : Inv two_out
two_out-Inv = lease-Inv 7 two_tasks two_tasks-Inv

pub first_sent : lookup task.id two_out.tasks ≡ some out_task
unfolding lease submit submit_new append_enqueue schedule new lookup insert update push pop
    next_at_of write flush up down swap
first_sent = refl

pub one_done-Inv : Inv one_done
one_done-Inv =
    on_success-Inv sample_codec io 8 task.id out_task two_out two_out-Inv first_sent 200 [] refl

pub second_sent : lookup second.id one_done.tasks ≡ some (leased 7 (enqueued second))
unfolding lease submit submit_new append_enqueue on_success append_done schedule new lookup insert
    update push pop next_at_of write flush up down swap
second_sent = refl

one_dead-Inv : Inv one_dead
one_dead-Inv =
    on_dead-Inv sample_codec io 9 second.id (leased 7 (enqueued second)) one_done one_done-Inv
      second_sent 404 [] [] refl

third_is_fresh : lookup third.id one_dead.tasks ≡ none
unfolding lease submit submit_new append_enqueue on_success append_done on_dead append_dead schedule
    new lookup insert update push pop next_at_of write flush up down swap
third_is_fresh = refl

pub three_tasks-Inv : Inv three_tasks
three_tasks-Inv =
    submit-Inv sample_codec io third one_dead one_dead-Inv (ground arith) third_is_fresh
