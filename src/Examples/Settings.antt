-- ===== src/Examples/Settings.antt =====
-- The configuration, the keys and the counters at concrete inputs.
use rc_wnzzer.Base.{
  str_less, ℕ, ◌+◌, ◌<◌, ◌≡◌, refl, Bool, Bytes, bytes, Option, none, some, [], ◌∷◌, str_eq, false,
  true, if◌then◌else◌, arith,
}
use rc_wnzzer.Base.Table.{lookup, insert, HasUniqueKeys}
use rc_wnzzer.Model.{Task, unset, pending, waiting, sending}
use rc_wnzzer.Store.Wal.{append_enqueue, write, flush}
use rc_wnzzer.Queue.Heap.{push, pop, up, down, swap}
use rc_wnzzer.Queue.State.{new, schedule, update, next_at_of}
use rc_wnzzer.Queue.Ops.{submit, submit_new, lease}
use rc_wnzzer.Queue.Counts.{counts, IsOldest, counts-active}
use rc_wnzzer.Dispatch.RetryAfter.{Int64}
use rc_wnzzer.Model.NewId.{new_id, new_id-order}
use rc_wnzzer.Config.{load}
use rc_wnzzer.Config.Checks.{IsValid, load-IsValid}
use rc_wnzzer.Config.Keys.{keys, load_keys}
use rc_wnzzer.Config.Keys.Printed.{IsEntry, print_keys, load_keys-print_keys}
use rc_wnzzer.Examples.Queues.{out_queue, out_queue-Inv}

-- One worker, and a float64 as thousandths.
abbrev getenv : Bytes → Bytes
getenv k = if str_eq k (bytes "NOTIFY_WORKERS") then bytes "1" else []

abbrev no_float : Bytes → Option ℕ
no_float s = none

abbrev no_bool : Bytes → Option Bool
no_bool s = none

abbrev no_duration : Bytes → Option Int64
no_duration s = none

load-IsValid_example :
    let r = load no_float no_bool no_duration 500 getenv in
    (r.1 ≡ none → IsValid r.0) × (IsValid r.0 → r.1 ≡ none)
load-IsValid_example = load-IsValid no_float no_bool no_duration 500 getenv

abbrev pub as_is : Bytes → Bytes
as_is s = s

abbrev pub entry : Bytes × Bytes
entry = (bytes "a", bytes "s:t")

pub entry-IsEntry : IsEntry as_is entry
entry-IsEntry = record {
  has_id = ground arith;
  has_secret = ground arith;
  id_line = (ground arith, tt);
  one_line = (ground arith, (ground arith, (ground arith, (ground arith, (ground arith, tt)))));
  no_comment = refl;
  fits = omega arith;
  trimmed = refl;
}

pub alone : HasUniqueKeys (entry ∷ [])
unfolding lookup
alone = (refl, tt)

load_keys-print_keys_example :
    load_keys as_is (some (print_keys (entry ∷ []))) false false ≡ keys (entry ∷ [])
load_keys-print_keys_example = load_keys-print_keys as_is entry [] (entry-IsEntry, tt) alone

none_unset : (counts out_queue).per_state unset ≡ 0
unfolding counts lease submit submit_new append_enqueue schedule new lookup insert update push pop
    next_at_of write flush up down swap
none_unset = refl

dated : (i : Bytes) (u : Task) → lookup i out_queue.tasks ≡ some u → 0 < u.created_at
unfolding lease submit submit_new append_enqueue schedule new lookup insert update push pop
    next_at_of write flush up down swap
dated i u e = ground (arith, e)

counts-active_example :
    ((counts out_queue).per_state pending
        + (counts out_queue).per_state waiting
        + (counts out_queue).per_state sending
      ≡ out_queue.active)
    × IsOldest out_queue.tasks (counts out_queue).oldest
counts-active_example = counts-active out_queue out_queue-Inv none_unset dated

new_id-order_example : str_less (new_id 1700000000000 77) (new_id 1700000000001 5) ≡ true
new_id-order_example =
    new_id-order 1700000000000 1700000000001 77 5 (omega arith) (omega arith) (omega arith)
      (omega arith)
