-- ===== src/Examples/Lists.antt =====
-- Lists of tasks at concrete inputs.
use rc_wnzzer.Base.{ℕ, ◌≡◌, ◌≤◌, ◌<◌, ◌⊎◌, refl, true, Bytes, bytes, some, [], length, get_elem?}
use rc_wnzzer.Base.Table.{lookup, insert}
use rc_wnzzer.Model.{Task}
use rc_wnzzer.Store.Wal.{append_enqueue, append_done, append_dead, write, flush}
use rc_wnzzer.Queue.Heap.{push, pop, up, down, swap}
use rc_wnzzer.Queue.State.{new, schedule, update, next_at_of}
use rc_wnzzer.Queue.Ops.{submit, submit_new, lease, on_success, on_dead, list_by_state, list_from}
use rc_wnzzer.Dispatch.RetryAfter.{atoi, digits_from}
use rc_wnzzer.Api.Reads.{view_of, state_of, limit_of, handle_list, shown}
use rc_wnzzer.Api.Reads.Lists.{IsAsked, Shows, handle_list-true, handle_list-all}
use rc_wnzzer.Examples.Operations.{second_end, second_held}
use rc_wnzzer.Examples.Queues.{second, three_tasks, three_tasks-Inv}

shown_first :
    get_elem? (shown (handle_list true [] (bytes "1") three_tasks)) 0 ≡ some (view_of second_end)
unfolding handle_list list_by_state list_from limit_of atoi digits_from state_of lease submit
    submit_new append_enqueue on_success append_done on_dead append_dead schedule new lookup insert
    update push pop next_at_of write flush up down swap
shown_first = refl

handle_list-true_example :
    ((id : Bytes) × (t : Task) × (lookup id three_tasks.tasks ≡ some t)
      × IsAsked [] t.state
      × Shows (view_of second_end) t)
    × (0 < limit_of (bytes "1"))
    × (limit_of (bytes "1") ≤ 1000)
handle_list-true_example =
    handle_list-true [] (bytes "1") three_tasks 0 (view_of second_end) three_tasks-Inv shown_first

is_dead_text : state_of (bytes "dead") ≡ some second_end.state
unfolding state_of
is_dead_text = refl

handle_list-all_example :
    ((i : ℕ) × (get_elem? (shown (handle_list true [] (bytes "1") three_tasks)) i
        ≡ some (view_of second_end)))
    ⊎ (length (shown (handle_list true [] (bytes "1") three_tasks)) ≡ limit_of (bytes "1"))
handle_list-all_example =
    handle_list-all [] (bytes "1") three_tasks second.id second_end second_held is_dead_text
