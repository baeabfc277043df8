-- ===== src/Program/Moves.antt =====
-- The steps of `Run` in internal/dispatch/dispatch.go keep what holds of the running program.
use rc_wnzzer.Base.{
  ℕ, ◌+◌, ◌-◌, ◌<◌, ◌≡◌, refl, Bool-cases, Bytes, eq_iff, Option, none, some, inl, inr, ltb, arith,
}
use rc_wnzzer.Base.Table.{Table, lookup, insert, lookup-insert}
use rc_wnzzer.Model.{Task, sending}
use rc_wnzzer.Queue.Ops.{lease, defer}
use rc_wnzzer.Queue.Keeps.{defer-Inv}
use rc_wnzzer.Queue.Lease.{lease-Inv}
use rc_wnzzer.Queue.Sending.{sent_now-lease, unsent-lease, sent_now-lease-none, sent_now-defer}
use rc_wnzzer.Dispatch.Target.{Url}
use rc_wnzzer.Dispatch.Run.{
  Settings, after_lease, looking, leased, holding, stopped, System, taken, host_sem_for,
  host_busy_delay, url_of, look, host_of, choose_host, start_worker, give_up,
}
use rc_wnzzer.Dispatch.Run.Busy.{taken-host_sem_for}
use rc_wnzzer.Dispatch.Run.Sums.{sum}
use rc_wnzzer.Program.Sound.{handlers, Sound, queue-Sound, held_task}

module _ (cfg : Settings) (s : System) (v : Sound cfg s) where
  leased-Sound :
      (now : ℕ) (o : Option Bytes)
      → s.loop ≡ looking
      → (lease now s.queue).1 ≡ o
      → Sound cfg (record s { queue = (lease now s.queue).0; loop = after_lease now s.loop o })
  unfolding handlers
  leased-Sound now none at e =
      queue-Sound cfg s (lease now s.queue).0 v (lease-Inv now s.queue v.queue_Inv)
        (λ j. sent_now-lease-none now s.queue j v.queue_Inv e)
  leased-Sound now (some id) at e = record {
    queue_Inv = lease-Inv now s.queue v.queue_Inv;
    tracked = λ j. ground (
      arith,
      v.tracked j,
      at,
      sent_now-lease now s.queue id j v.queue_Inv e,
      unsent-lease now s.queue id v.queue_Inv e,
      eq_iff id j,
    );
    counted = v.counted;
    slots_bound = v.slots_bound;
    tokens = λ h. ground (arith, v.tokens h, at);
    tokens_bound = v.tokens_bound;
  }

  pub look-Sound : (now : ℕ) → s.loop ≡ looking → Sound cfg (look now s)
  unfolding look
  look-Sound now at = leased-Sound now (lease now s.queue).1 at refl

  pub stop-Sound : s.loop ≡ looking → Sound cfg (record s { loop = stopped })
  unfolding handlers
  stop-Sound at = record {
    queue_Inv = v.queue_Inv;
    tracked = λ j. ground (arith, v.tracked j, at);
    counted = v.counted;
    slots_bound = v.slots_bound;
    tokens = λ h. ground (arith, v.tokens h, at);
    tokens_bound = v.tokens_bound;
  }

  module _ (parse : Bytes → Option Url) (id : Bytes) (now : ℕ) (at : s.loop ≡ leased id now) where
    in_hand : (t : Task) × (lookup id s.queue.tasks ≡ some t) × (t.state ≡ sending)
    unfolding handlers
    in_hand = held_task cfg s v id (ground (arith, at, eq_iff id id))

    deferred-Sound :
        (sem : Table ℕ) (next_at : ℕ)
        → ((h : Bytes) → taken h sem ≡ taken h s.host_sem)
        → Sound cfg (record s { host_sem = sem; queue = defer id next_at s.queue; loop = looking })
    unfolding handlers
    deferred-Sound sem next_at same =
        let (t, found, busy) = in_hand in
        record {
          queue_Inv = defer-Inv id t s.queue v.queue_Inv found next_at busy;
          tracked = λ j. ground (
            arith,
            v.tracked j,
            at,
            sent_now-defer id next_at s.queue j,
            eq_iff id j,
            found,
            busy,
          );
          counted = v.counted;
          slots_bound = v.slots_bound;
          tokens = λ h. ground (arith, v.tokens h, at, same h);
          tokens_bound = λ h. ground (arith, v.tokens_bound h, same h);
        }

    held-Sound :
        (host : Bytes) (sem : Table ℕ)
        → ((h : Bytes) → taken h sem ≡ taken h s.host_sem)
        → taken host sem < cfg.host_concurrency
        → Sound cfg (record s {
          host_sem = insert host (taken host sem + 1) sem;
          loop = holding id host now;
        })
    unfolding handlers
    held-Sound host sem same free = record {
      queue_Inv = v.queue_Inv;
      tracked = λ j. ground (arith, v.tracked j, at);
      counted = v.counted;
      slots_bound = v.slots_bound;
      tokens = λ h. ground (
        arith,
        v.tokens h,
        at,
        same h,
        lookup-insert host h (taken host sem + 1) sem,
        eq_iff host h,
      );
      tokens_bound = λ h. ground (
        arith,
        v.tokens_bound h,
        same h,
        lookup-insert host h (taken host sem + 1) sem,
        eq_iff host h,
        free,
      );
    }

    pub choose_host-Sound : Sound cfg (choose_host parse cfg id now s)
    unfolding choose_host
    choose_host-Sound =
        let host = host_of parse (url_of id s.queue) in
        let sem = host_sem_for host s.host_sem in
        elim (Bool-cases (ltb (taken host sem) cfg.host_concurrency)) [
          | inl free ↦ rw (free) (
              held-Sound host sem (λ h. taken-host_sem_for host h s.host_sem)
                (ground (arith, free)))
          | inr full ↦ rw (full) (
              deferred-Sound sem (now + host_busy_delay)
                (λ h. taken-host_sem_for host h s.host_sem))
        ]

  module _ (id host : Bytes) (now : ℕ) (at : s.loop ≡ holding id host now) where
    pub start_worker-Sound : s.slots < cfg.workers → Sound cfg (start_worker id host s)
    unfolding start_worker handlers sum
    start_worker-Sound free = record {
      queue_Inv = v.queue_Inv;
      tracked = λ j. ground (arith, v.tracked j, at);
      counted = ground (arith, v.counted);
      slots_bound = ground (arith, free);
      tokens = λ h. ground (arith, v.tokens h, at);
      tokens_bound = v.tokens_bound;
    }

    pub give_up-Sound : Sound cfg (give_up id host now s)
    unfolding give_up handlers
    give_up-Sound =
        let (t, found, busy) =
          held_task cfg s v id (unfold handlers in ground (arith, at, eq_iff id id)) in
        record {
          queue_Inv = defer-Inv id t s.queue v.queue_Inv found now busy;
          tracked = λ j.
              ground
                (arith, v.tracked j, at, sent_now-defer id now s.queue j, eq_iff id j, found, busy);
          counted = v.counted;
          slots_bound = v.slots_bound;
          tokens = λ h. ground (
            arith,
            v.tokens h,
            at,
            lookup-insert host h (taken host s.host_sem - 1) s.host_sem,
            eq_iff host h,
          );
          tokens_bound = λ h. ground (
            arith,
            v.tokens_bound h,
            lookup-insert host h (taken host s.host_sem - 1) s.host_sem,
            eq_iff host h,
          );
        }
