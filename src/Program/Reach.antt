-- ===== src/Program/Reach.antt =====
-- Every state that the running program reaches is sound: the semaphores of
-- internal/dispatch/dispatch.go bound its workers, and no task is in two pairs of hands.
use rc_wnzzer.Base.{
  ℕ, zero, suc, ◌+◌, ◌≤◌, ◌<◌, ◌≡◌, refl, sym, ◌⊎◌, inl, inr, false, not, ◌&&◌, Bool-cases, Bytes,
  str_eq, eq_iff, Option, some, List, [], ◌∷◌, length, get_elem?, arith,
}
use rc_wnzzer.Base.Table.{lookup, lookup-nil}
use rc_wnzzer.Model.{Task, sending}
use rc_wnzzer.Store.Codec.{Codec}
use rc_wnzzer.Queue.State.{Queue}
use rc_wnzzer.Queue.Invariant.{Inv}
use rc_wnzzer.Queue.Sending.{sent_now}
use rc_wnzzer.Dispatch.Target.{Url}
use rc_wnzzer.Dispatch.Run.{Settings, Flight, System, started}
use rc_wnzzer.Dispatch.Run.Sums.{sum}
use rc_wnzzer.Program.Steps.{Step}
use rc_wnzzer.Program.Sound.{is_sending, is_at, loop_sends, handlers, handlers_bound, Sound}
use rc_wnzzer.Program.Kept.{Step-Sound}

-- The states that the program reaches from a queue.
pub data Reach (c : Codec) (cfg : Settings) (parse : Bytes → Option Url) (q : Queue)
    : System → Type 0 where
  start : Reach c cfg parse q (started q)
  later : {s s' : System} → Reach c cfg parse q s → Step c cfg parse s s' → Reach c cfg parse q s'

sum_two :
    (w : Flight → ℕ) (fs : List Flight) (i k : ℕ) (f g : Flight)
    → i < k
    → get_elem? fs i ≡ some f
    → get_elem? fs k ≡ some g
    → w f + w g ≤ sum w fs
unfolding sum
sum_two w [] i k f g h e e' = absurd (ground (arith, e))
sum_two w (x ∷ fs) i zero f g h e e' = absurd (omega (arith, h))
sum_two w (x ∷ fs) zero (suc k) f g h e e' = ground (arith, e, one fs k g e')
  where
    one : (fs : List Flight) (k : ℕ) (g : Flight) → get_elem? fs k ≡ some g → w g ≤ sum w fs
    one [] k g e = absurd (ground (arith, e))
    one (x ∷ fs) zero g e = ground (arith, e)
    one (x ∷ fs) (suc k) g e = omega (arith, one fs k g e)
sum_two w (x ∷ fs) (suc i) (suc k) f g h e e' =
    omega (arith, sum_two w fs i k f g (omega (arith, h)) e e')

find_sender :
    (j : Bytes) (fs : List Flight)
    → 0 < sum (is_sending j) fs
    → (i : ℕ) × (f : Flight) × (get_elem? fs i ≡ some f) × (f.is_done ≡ false) × (f.id ≡ j)
unfolding sum
find_sender j [] h = absurd (omega (arith, h))
find_sender j (f ∷ fs) h = elim (Bool-cases (not f.is_done && str_eq f.id j)) [
  | inl here ↦ (0, f, refl, ground (arith, here), ground (arith, here, eq_iff f.id j))
  | inr other ↦
      let (i, g, e, going, same) = find_sender j fs (ground (arith, h, other)) in
      (suc i, g, e, going, same)
]

module _ (c : Codec) (cfg : Settings) (parse : Bytes → Option Url) (q : Queue) (v : Inv q)
    (quiet : (j : Bytes) → sent_now q j ≡ 0) where
  pub started-Sound : Sound cfg (started q)
  unfolding handlers sum
  started-Sound = record {
    queue_Inv = v;
    tracked = λ j. ground (arith, quiet j);
    counted = refl;
    slots_bound = omega arith;
    tokens = λ h. ground (arith, lookup-nil {V = ℕ} h);
    tokens_bound = λ h. ground (arith, lookup-nil {V = ℕ} h);
  }

  pub Reach-Sound : {s : System} → Reach c cfg parse q s → Sound cfg s
  Reach-Sound start = started-Sound
  Reach-Sound (later r e) = Step-Sound c cfg parse (Reach-Sound r) e

  apart :
      {s : System} (i k : ℕ) (f g : Flight)
      → Reach c cfg parse q s
      → get_elem? s.flights i ≡ some f
      → get_elem? s.flights k ≡ some g
      → f.is_done ≡ false
      → g.is_done ≡ false
      → f.id ≡ g.id
      → ¬ (i < k)
  unfolding handlers
  apart {s} i k f g r ef eg bf bg same h = ground (
    arith,
    handlers_bound cfg s (Reach-Sound r) f.id,
    sum_two (is_sending f.id) s.flights i k f g h ef eg,
    eq_iff f.id f.id,
    eq_iff g.id f.id,
    same,
    bf,
    bg,
  )

  -- In every state that the program reaches from a queue of the invariant in which nothing is being
  -- sent, two workers that still deliver do not have the same task, whatever requests, maintenance
  -- and journal failures come between.
  pub one_worker :
      (s : System) (i k : ℕ) (f g : Flight)
      → Reach c cfg parse q s
      → get_elem? s.flights i ≡ some f
      → get_elem? s.flights k ≡ some g
      → f.is_done ≡ false
      → g.is_done ≡ false
      → f.id ≡ g.id
      → i ≡ k
  one_worker s i k f g r ef eg bf bg same =
      let before : ¬ (i < k) = apart i k f g r ef eg bf bg same in
      let after : ¬ (k < i) = apart k i g f r eg ef bg bf (sym same) in omega (arith, before, after)

  -- In every state that the program reaches from such a queue there are at most as many workers as
  -- configured, and at most as many for one host as configured for a host.
  pub load_bounds :
      (s : System) (h : Bytes)
      → Reach c cfg parse q s
      → (length s.flights ≤ cfg.workers) × (sum (is_at h) s.flights ≤ cfg.host_concurrency)
  load_bounds s h r =
      let v = Reach-Sound r in
      (omega (arith, v.counted, v.slots_bound), omega (arith, v.tokens h, v.tokens_bound h))

  -- In every state that the program reaches from such a queue, a task in state sending is in the hands
  -- of the loop, or of a worker that has not ended its delivery.
  pub in_hands :
      (s : System) (j : Bytes) (t : Task)
      → Reach c cfg parse q s
      → lookup j s.queue.tasks ≡ some t
      → t.state ≡ sending
      → (loop_sends j s.loop ≡ 1)
        ⊎ ((i : ℕ) × (f : Flight) × (get_elem? s.flights i ≡ some f)
            × (f.is_done ≡ false)
            × (f.id ≡ j))
  unfolding handlers
  in_hands s j t r at busy =
      let all = (Reach-Sound r).tracked j in
      let one : loop_sends j s.loop + sum (is_sending j) s.flights ≡ 1 =
        ground (arith, all, at, busy) in
      find (loop_sends j s.loop) one
    where
      find :
          (n : ℕ)
          → n + sum (is_sending j) s.flights ≡ 1
          → (n ≡ 1)
            ⊎ ((i : ℕ) × (f : Flight) × (get_elem? s.flights i ≡ some f)
                × (f.is_done ≡ false)
                × (f.id ≡ j))
      find zero e = inr (find_sender j s.flights (omega (arith, e)))
      find (suc n) e = inl (omega (arith, e))
