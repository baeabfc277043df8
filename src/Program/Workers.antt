-- ===== src/Program/Workers.antt =====
-- The workers of internal/dispatch/dispatch.go keep what holds of the running program.
use rc_wnzzer.Base.{ℕ, ◌-◌, ◌≡◌, sym, ◌∙◌, true, false, eq_iff, some, get_elem?, length-set, arith}
use rc_wnzzer.Base.Table.{lookup, lookup-insert}
use rc_wnzzer.Model.{Task, sending}
use rc_wnzzer.Store.Codec.{Codec}
use rc_wnzzer.Dispatch.Deliver.{Attempt}
use rc_wnzzer.Dispatch.Deliver.Settles.{deliver-Inv}
use rc_wnzzer.Dispatch.Deliver.Frees.{sent_now-deliver}
use rc_wnzzer.Dispatch.Run.{Settings, Flight, System, taken, complete, release}
use rc_wnzzer.Dispatch.Run.Sums.{sum-set, sum-without, length-without}
use rc_wnzzer.Program.Sound.{is_sending, is_at, handlers, Sound, held_task}

module _ (cfg : Settings) (s : System) (v : Sound cfg s) (i : ℕ) (f : Flight)
    (here : get_elem? s.flights i ≡ some f) where
  -- A worker that still delivers has its task in hand.
  pub in_flight :
      f.is_done ≡ false → (t : Task) × (lookup f.id s.queue.tasks ≡ some t) × (t.state ≡ sending)
  unfolding handlers
  in_flight going =
      held_task cfg s v f.id
        (ground (arith, going, sum-without (is_sending f.id) s.flights i f here, eq_iff f.id f.id))

  pub complete-Sound :
      (c : Codec) (a : Attempt) → f.is_done ≡ false → Sound cfg (complete c cfg a i f s)
  unfolding complete handlers
  complete-Sound c a going =
      let (t, found, busy) = in_flight going in
      let f' = record f { is_done = true } in
      record {
        queue_Inv = deliver-Inv c cfg.limits a f.id t s.queue found v.queue_Inv busy;
        tracked = λ j. ground (
          arith,
          v.tracked j,
          sum-set (is_sending j) s.flights i f f' here,
          sent_now-deliver c cfg.limits a f.id t s.queue found j,
          eq_iff f.id j,
          found,
          busy,
          going,
        );
        counted = v.counted ∙ sym (length-set s.flights i f');
        slots_bound = v.slots_bound;
        tokens = λ h. omega (arith, v.tokens h, sum-set (is_at h) s.flights i f f' here);
        tokens_bound = v.tokens_bound;
      }

  pub release-Sound : f.is_done ≡ true → Sound cfg (release i f s)
  unfolding release handlers
  release-Sound over = record {
    queue_Inv = v.queue_Inv;
    tracked = λ j. ground (arith, v.tracked j, sum-without (is_sending j) s.flights i f here, over);
    counted = omega (arith, v.counted, length-without s.flights i f here);
    slots_bound = omega (arith, v.slots_bound);
    tokens = λ h. ground (
      arith,
      v.tokens h,
      sum-without (is_at h) s.flights i f here,
      lookup-insert f.host h (taken f.host s.host_sem - 1) s.host_sem,
      eq_iff f.host h,
    );
    tokens_bound = λ h. ground (
      arith,
      v.tokens_bound h,
      lookup-insert f.host h (taken f.host s.host_sem - 1) s.host_sem,
      eq_iff f.host h,
    );
  }
