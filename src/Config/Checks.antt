-- ===== src/Config/Checks.antt =====
-- Which configurations `Load` of internal/config/config.go lets through.
use rc_wnzzer.Base.{
  ◌+◌, ◌≤◌, ◌≡◌, ◌⊎◌, refl, inl, inr, Bool, true, false, ◌&&◌, Bytes, Option, none, some,
  if◌then◌else◌, arith,
}
use rc_wnzzer.Dispatch.RetryAfter.{Int64, pos, neg}
use rc_wnzzer.Config.{ServiceConfig, ConfigError, int_less, check, read_env, load}

-- a ≤ b
abbrev pub AtMost : Int64 → Int64 → Type 0
AtMost (pos a) (pos b) = a ≤ b
AtMost (pos a) (neg b) = a + b ≤ 0
AtMost (neg a) (pos b) = Unit
AtMost (neg a) (neg b) = b ≤ a

not_less : (a b : Int64) → int_less a b ≡ false → AtMost b a
not_less (pos a) (pos b) h = ground (arith, h)
not_less (pos a) (neg b) h = tt
not_less (neg a) (pos b) h = ground (arith, h)
not_less (neg a) (neg b) h = ground (arith, h)

at_most : (a b : Int64) → AtMost b a → int_less a b ≡ false
at_most (pos a) (pos b) h = ground (arith, h)
at_most (pos a) (neg b) h = refl
at_most (neg a) (pos b) h = ground (arith, h)
at_most (neg a) (neg b) h = ground (arith, h)

room : (a b : Bool) → (a && b) ≡ false → (a ≡ false) ⊎ (b ≡ false)
room true true h = absurd (ground (arith, h))
room true false h = inr refl
room false b h = inl refl

no_room : (a b : Bool) → (a ≡ false) ⊎ (b ≡ false) → (a && b) ≡ false
no_room true b (inl h) = absurd (ground (arith, h))
no_room true b (inr h) = h
no_room false b h = refl

module _ {F : Type 0} where
  -- At least one of each, room in the map for all active tasks if it is capped, and dead tasks kept
  -- no shorter than succeeded ones.
  pub record IsValid (c : ServiceConfig F) : Type 0 where
    pub has_worker : AtMost (pos 1) c.workers
    pub has_connection : AtMost (pos 1) c.host_concurrency
    pub has_attempt : AtMost (pos 1) c.max_attempts
    pub has_room : AtMost c.tasks_max (pos 0) ⊎ AtMost c.queue_max c.tasks_max
    pub keeps_dead : AtMost c.retention c.dead_retention

  check-IsValid : (c : ServiceConfig F) → check c ≡ none → IsValid c
  unfolding check
  check-IsValid c h =
      let a = int_less c.workers (pos 1) in
      let b = int_less c.host_concurrency (pos 1) in
      let d = int_less c.max_attempts (pos 1) in
      let e = int_less (pos 0) c.tasks_max && int_less c.tasks_max c.queue_max in
      let f = int_less c.dead_retention c.retention in
      let all : (a ≡ false) × (b ≡ false) × (d ≡ false) × (e ≡ false) × (f ≡ false) =
        clear a b d e f h in
      record {
        has_worker = not_less c.workers (pos 1) all.0;
        has_connection = not_less c.host_concurrency (pos 1) all.1;
        has_attempt = not_less c.max_attempts (pos 1) all.2;
        has_room =
            either_room
              (room (int_less (pos 0) c.tasks_max) (int_less c.tasks_max c.queue_max) all.3);
        keeps_dead = not_less c.dead_retention c.retention all.4;
      }
    where
      clear :
          (a b d e f : Bool)
          → (if a
              then some ConfigError.few_workers
              else if b
              then some ConfigError.few_per_host
              else if d
              then some ConfigError.few_attempts
              else if e
              then some ConfigError.small_tasks_max
              else if f
              then some ConfigError.short_dead_retention
              else none)
            ≡ none
          → (a ≡ false) × (b ≡ false) × (d ≡ false) × (e ≡ false) × (f ≡ false)
      clear a b d e f h = ground (arith, h)

      either_room :
          (int_less (pos 0) c.tasks_max ≡ false) ⊎ (int_less c.tasks_max c.queue_max ≡ false)
          → AtMost c.tasks_max (pos 0) ⊎ AtMost c.queue_max c.tasks_max
      either_room (inl x) = inl (not_less (pos 0) c.tasks_max x)
      either_room (inr x) = inr (not_less c.tasks_max c.queue_max x)

  pub IsValid-check : (c : ServiceConfig F) → IsValid c → check c ≡ none
  unfolding check
  IsValid-check c v =
      let a = at_most c.workers (pos 1) v.has_worker in
      let b = at_most c.host_concurrency (pos 1) v.has_connection in
      let d = at_most c.max_attempts (pos 1) v.has_attempt in
      let e =
        no_room (int_less (pos 0) c.tasks_max) (int_less c.tasks_max c.queue_max)
          (either_room v.has_room) in
      let f = at_most c.dead_retention c.retention v.keeps_dead in rw (a, b, d, e, f) refl
    where
      either_room :
          AtMost c.tasks_max (pos 0) ⊎ AtMost c.queue_max c.tasks_max
          → (int_less (pos 0) c.tasks_max ≡ false) ⊎ (int_less c.tasks_max c.queue_max ≡ false)
      either_room (inl x) = inl (at_most (pos 0) c.tasks_max x)
      either_room (inr x) = inr (at_most c.tasks_max c.queue_max x)

  -- The environment is refused exactly if the configuration read from it, with a default for what is
  -- unset or cannot be parsed, has no worker, no connection for a host or no attempt, a cap on all
  -- tasks below that on active ones, or a longer retention of succeeded tasks than of dead ones.
  pub load-IsValid :
      (parse_float : Bytes → Option F) (parse_bool : Bytes → Option Bool)
      (parse_duration : Bytes → Option Int64) (half : F) (getenv : Bytes → Bytes)
      → let r = load parse_float parse_bool parse_duration half getenv in
        (r.1 ≡ none → IsValid r.0) × (IsValid r.0 → r.1 ≡ none)
  unfolding load
  load-IsValid parse_float parse_bool parse_duration half getenv =
      let c = read_env parse_float parse_bool parse_duration half getenv in
      (check-IsValid c, IsValid-check c)
