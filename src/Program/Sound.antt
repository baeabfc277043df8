-- ===== src/Program/Sound.antt =====
-- What holds of the running program between two steps, and that the steps of `Run` keep it.
use rc_wnzzer.Base.{
  ℕ, ◌+◌, ◌≤◌, ◌<◌, ◌≡◌, refl, sym, ◌∙◌, not, ◌&&◌, Bytes, str_eq, Option, none, some, length, bit,
  arith,
}
use rc_wnzzer.Base.Table.{lookup}
use rc_wnzzer.Model.{Task, sending}
use rc_wnzzer.Queue.State.{Queue}
use rc_wnzzer.Queue.Invariant.{Inv}
use rc_wnzzer.Queue.Sending.{sending_of, sent_now}
use rc_wnzzer.Dispatch.Run.{
  Settings, Loop, looking, leased, holding, stopped, Flight, System, taken,
}
use rc_wnzzer.Dispatch.Run.Sums.{sum}

-- 1 for a worker that delivers the task, and for one that holds a token of the host.
abbrev pub is_sending : Bytes → Flight → ℕ
is_sending j f = bit (not f.is_done && str_eq f.id j)

abbrev pub is_at : Bytes → Flight → ℕ
is_at h f = bit (str_eq f.host h)

abbrev pub loop_sends : Bytes → Loop → ℕ
loop_sends j looking = 0
loop_sends j stopped = 0
loop_sends j (leased id now) = bit (str_eq id j)
loop_sends j (holding id host now) = bit (str_eq id j)

abbrev pub loop_at : Bytes → Loop → ℕ
loop_at h (holding id host now) = bit (str_eq host h)
loop_at h _ = 0

-- How many of the loop and the workers have the task in hand.
unfoldable pub handlers : Bytes → System → ℕ
handlers j s = loop_sends j s.loop + sum (is_sending j) s.flights

pub record Sound (cfg : Settings) (s : System) : Type 0 where
  pub queue_Inv : Inv s.queue
  -- a task in state sending is in one pair of hands, any other task in none
  pub tracked : (j : Bytes) → handlers j s ≡ sent_now s.queue j
  pub counted : s.slots ≡ length s.flights
  pub slots_bound : s.slots ≤ cfg.workers
  -- the tokens of a host are its workers' and the loop's
  pub tokens : (h : Bytes) → taken h s.host_sem ≡ loop_at h s.loop + sum (is_at h) s.flights
  pub tokens_bound : (h : Bytes) → taken h s.host_sem ≤ cfg.host_concurrency

-- A step on the queue alone that changes for no task whether it is being sent.
pub queue-Sound :
    (cfg : Settings) (s : System) (q : Queue)
    → Sound cfg s
    → Inv q
    → ((j : Bytes) → sent_now q j ≡ sent_now s.queue j)
    → Sound cfg (record s { queue = q })
unfolding handlers
queue-Sound cfg s q v inv same = record {
  queue_Inv = inv;
  tracked = λ j. v.tracked j ∙ sym (same j);
  counted = v.counted;
  slots_bound = v.slots_bound;
  tokens = v.tokens;
  tokens_bound = v.tokens_bound;
}

module _ (cfg : Settings) (s : System) (v : Sound cfg s) where
  -- What is in hand is in the map, and is in state sending.
  pub held_task :
      (j : Bytes)
      → 0 < handlers j s
      → (t : Task) × (lookup j s.queue.tasks ≡ some t) × (t.state ≡ sending)
  held_task j h = at_least (lookup j s.queue.tasks) (omega (arith, h, v.tracked j))
    where
      at_least :
          (o : Option Task) → 0 < sending_of o → (t : Task) × (o ≡ some t) × (t.state ≡ sending)
      at_least none h = absurd (omega (arith, h))
      at_least (some t) h = (t, refl, ground (arith, h))

  -- No task is in more than one pair of hands.
  pub handlers_bound : (j : Bytes) → handlers j s ≤ 1
  handlers_bound j = at_most (lookup j s.queue.tasks) (v.tracked j)
    where
      at_most : (o : Option Task) → handlers j s ≡ sending_of o → handlers j s ≤ 1
      at_most none e = omega (arith, e)
      at_most (some t) e = ground (arith, e)
