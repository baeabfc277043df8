-- ===== src/Examples/Operations.antt =====
-- The operations of the queue at concrete inputs.
use rc_wnzzer.Base.{inl, ◌⊎◌, ◌≡◌, refl, none, some, length, [], arith, ◌≤◌, ◌<◌}
use rc_wnzzer.Base.Table.{lookup, insert, delete}
use rc_wnzzer.Model.{Task}
use rc_wnzzer.Store.Wal.{append_enqueue, append_done, append_dead, write, flush}
use rc_wnzzer.Queue.Heap.{push, pop, up, down, swap}
use rc_wnzzer.Queue.State.{Queue, new, schedule, update, next_at_of}
use rc_wnzzer.Queue.Ops.{
  enqueued, delivered, buried, submit, submit_new, lease, revive, on_success, on_dead,
}
use rc_wnzzer.Queue.Maintain.{
  purge_expired, enforce_task_cap, candidates, sorted, sort_in, cap_loop, drop_task,
}
use rc_wnzzer.Queue.Lease.{leased}
use rc_wnzzer.Queue.Lease.Least.{HandsOut, HandsNothing, lease-HandsOut, lease-HandsNothing}
use rc_wnzzer.Queue.Purge.{IsPast, purge_expired-IsPast}
use rc_wnzzer.Queue.Cap.{cap-keeps-active, cap-order, cap-length}
use rc_wnzzer.Queue.Ops.{revived, revive_dead, get}
use rc_wnzzer.Store.Wal.{append_attempt, truncate}
use rc_wnzzer.Base.{true}
use rc_wnzzer.Api.Submit.{viewed, handle_retry}
use rc_wnzzer.Api.Retry.{IsRenewed, handle_retry-views}
use rc_wnzzer.Examples.Json.{sample_codec}
use rc_wnzzer.Examples.Inputs.{task, config, io}
use rc_wnzzer.Examples.Queues.{
  one_task, one_task-Inv, out_task, second, third, three_tasks, three_tasks-Inv,
}

is_leased : (lease 7 one_task).1 ≡ some task.id
unfolding lease submit submit_new append_enqueue on_success append_done on_dead append_dead schedule
    new lookup insert update push pop next_at_of write flush up down swap
is_leased = refl

lease-HandsOut_example : HandsOut 7 one_task task.id (lease 7 one_task).0
lease-HandsOut_example = lease-HandsOut 7 one_task task.id one_task-Inv is_leased

is_early : (lease 4 one_task).1 ≡ none
unfolding lease submit submit_new append_enqueue on_success append_done on_dead append_dead schedule
    new lookup insert update push pop next_at_of write flush up down swap
is_early = refl

lease-HandsNothing_example : HandsNothing 4 one_task (lease 4 one_task).0 (lease 4 one_task).2
lease-HandsNothing_example = lease-HandsNothing 4 one_task one_task-Inv is_early

third_held : lookup third.id three_tasks.tasks ≡ some (enqueued third)
unfolding lease submit submit_new append_enqueue on_success append_done on_dead append_dead schedule
    new lookup insert update push pop next_at_of write flush up down swap
third_held = refl

cap-keeps-active_example :
    lookup third.id (enforce_task_cap three_tasks).tasks ≡ some (enqueued third)
cap-keeps-active_example =
    cap-keeps-active three_tasks three_tasks-Inv third.id (enqueued third) third_held refl

abbrev first_end : Task
first_end = delivered 8 200 [] out_task

abbrev pub second_end : Task
second_end = buried 9 404 [] [] (leased 7 (enqueued second))

first_held : lookup task.id three_tasks.tasks ≡ some first_end
unfolding lease submit submit_new append_enqueue on_success append_done on_dead append_dead schedule
    new lookup insert update push pop next_at_of write flush up down swap
first_held = refl

pub second_held : lookup second.id three_tasks.tasks ≡ some second_end
unfolding lease submit submit_new append_enqueue on_success append_done on_dead append_dead schedule
    new lookup insert update push pop next_at_of write flush up down swap
second_held = refl

purge_expired-IsPast_example :
    (IsPast config 200 first_end × (lookup task.id (purge_expired 200 three_tasks).tasks ≡ none))
    ⊎ ((¬ IsPast config 200 first_end)
        × (lookup task.id (purge_expired 200 three_tasks).tasks ≡ some first_end))
unfolding lease submit submit_new append_enqueue on_success append_done on_dead append_dead schedule
    new lookup insert update push pop next_at_of write flush up down swap
purge_expired-IsPast_example =
    purge_expired-IsPast 200 three_tasks task.id first_end three_tasks-Inv first_held

second_dropped : lookup second.id (enforce_task_cap three_tasks).tasks ≡ none
unfolding lease submit submit_new append_enqueue on_success append_done on_dead append_dead schedule
    new lookup insert update push pop next_at_of write flush up down swap enforce_task_cap
    candidates sorted sort_in cap_loop drop_task delete
second_dropped = refl

cap-order_example : lookup task.id (enforce_task_cap three_tasks).tasks ≡ none
cap-order_example =
    cap-order three_tasks three_tasks-Inv task.id second.id first_end second_end first_held
      second_held refl refl (inl (refl, refl)) second_dropped

one_active : three_tasks.active ≤ three_tasks.cfg.tasks_max
unfolding lease submit submit_new append_enqueue on_success append_done on_dead append_dead schedule
    new lookup insert update push pop next_at_of write flush up down swap
one_active = omega arith

one_allowed : 0 < three_tasks.cfg.tasks_max
unfolding lease submit submit_new append_enqueue on_success append_done on_dead append_dead schedule
    new lookup insert update push pop next_at_of write flush up down swap
one_allowed = omega arith

cap-length_example : length (enforce_task_cap three_tasks).tasks ≤ three_tasks.cfg.tasks_max
cap-length_example = cap-length three_tasks three_tasks-Inv one_allowed one_active

abbrev no_change : Queue → Queue
no_change q = q

retry_viewed :
    (handle_retry sample_codec io 20 true second.id no_change three_tasks).1
    ≡ viewed 202 (revived 20 second_end)
unfolding lease submit submit_new append_enqueue on_success append_done on_dead append_dead schedule
    new lookup insert update push pop next_at_of write flush up down swap handle_retry revive
    revive_dead append_attempt truncate get
retry_viewed = refl

handle_retry-views_example :
    let r = handle_retry sample_codec io 20 true second.id no_change three_tasks in
    (u : Task) × (lookup second.id (revive sample_codec io 20 second.id three_tasks).0.tasks
      ≡ some u)
    × IsRenewed 20 second_end u
    × ((lookup second.id r.0.tasks ≡ some (revived 20 second_end))
        ⊎ (lookup second.id r.0.tasks ≡ none))
handle_retry-views_example =
    handle_retry-views sample_codec io 20 second.id second_end three_tasks second_held no_change
      (revived 20 second_end) retry_viewed
