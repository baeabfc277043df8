-- ===== src/Api/Reads/Lists.antt =====
-- What `handleList` of internal/api/api.go shows.
use rc_wnzzer.Base.{
  ℕ, zero, suc, ◌≤◌, ◌<◌, ◌≡◌, ◌⊎◌, refl, sym, ap, ◌∙◌, bytes, eq_iff, subst, true, Bool-cases,
  Bytes, Option, none, some, Option-cases, inl, inr, List, [], ◌∷◌, map, length, get_elem?, ltb,
  arith,
}
use rc_wnzzer.Base.Table.{lookup}
use rc_wnzzer.Model.{State, unset, pending, waiting, sending, succeeded, dead, Task}
use rc_wnzzer.Queue.State.{Queue}
use rc_wnzzer.Queue.Ops.{list_by_state}
use rc_wnzzer.Queue.Invariant.{Inv}
use rc_wnzzer.Queue.Listing.{length-list_by_state, listed_from, all_listed}
use rc_wnzzer.Dispatch.RetryAfter.{Int64, pos, neg, atoi}
use rc_wnzzer.Api.Reads.{
  TaskView, view_of, limit_from, limit_of, state_of, state_param, tasks_in, handle_list, shown,
  max_list_limit,
}

limit_from_bounds : (o : Option Int64) → (0 < limit_from o) × (limit_from o ≤ max_list_limit)
unfolding limit_from
limit_from_bounds none = (omega arith, omega arith)
limit_from_bounds (some (neg n)) = (omega arith, omega arith)
limit_from_bounds (some (pos zero)) = (omega arith, omega arith)
limit_from_bounds (some (pos (suc n))) = ground arith

limit_of_bounds : (v : Bytes) → (0 < limit_of v) × (limit_of v ≤ max_list_limit)
unfolding limit_of
limit_of_bounds [] = (omega arith, omega arith)
limit_of_bounds (b ∷ v) = limit_from_bounds (atoi (b ∷ v))

get_elem?-map :
    {A B : Type 0} (f : A → B) (xs : List A) (i : ℕ) (y : B)
    → get_elem? (map f xs) i ≡ some y
    → (x : A) × (get_elem? xs i ≡ some x) × (y ≡ f x)
get_elem?-map f [] i y e = absurd (ground (arith, e))
get_elem?-map f (x ∷ xs) zero y e = (x, refl, ground (arith, e))
get_elem?-map f (x ∷ xs) (suc i) y e = get_elem?-map f xs i y e

map-get_elem? :
    {A B : Type 0} (f : A → B) (xs : List A) (i : ℕ) (x : A)
    → get_elem? xs i ≡ some x
    → get_elem? (map f xs) i ≡ some (f x)
map-get_elem? f [] i x e = absurd (ground (arith, e))
map-get_elem? f (y ∷ xs) zero x e = ground (arith, e)
map-get_elem? f (y ∷ xs) (suc i) x e = map-get_elem? f xs i x e

length-map : {A B : Type 0} (f : A → B) (xs : List A) → length (map f xs) ≡ length xs
length-map f [] = refl
length-map f (x ∷ xs) = ap suc (length-map f xs)

get_elem?-length :
    {A : Type 0} (xs : List A) (i : ℕ) (x : A) → get_elem? xs i ≡ some x → i < length xs
get_elem?-length [] i x e = absurd (ground (arith, e))
get_elem?-length (y ∷ xs) zero x e = omega arith
get_elem?-length (y ∷ xs) (suc i) x e = omega (arith, get_elem?-length xs i x e)

-- What a view shows of a task: every field that is not part of the request to send.
pub record Shows (v : TaskView) (t : Task) : Type 0 where
  pub id : v.id ≡ t.id
  pub idem_key : v.idem_key ≡ t.idem_key
  pub state : v.state ≡ t.state
  pub url : v.url ≡ t.target.url
  pub attempts : v.attempts ≡ t.attempts
  pub next_at : v.next_at ≡ t.next_at
  pub last_code : v.last_code ≡ t.last_code
  pub last_err : v.last_err ≡ t.last_err
  pub last_resp : v.last_resp ≡ t.last_resp
  pub dead_reason : v.dead_reason ≡ t.dead_reason
  pub created_at : v.created_at ≡ t.created_at
  pub updated_at : v.updated_at ≡ t.updated_at
  pub key_id : v.key_id ≡ t.key_id

view_of-Shows : (t : Task) → Shows (view_of t) t
view_of-Shows t = record {
  id = refl;
  idem_key = refl;
  state = refl;
  url = refl;
  attempts = refl;
  next_at = refl;
  last_code = refl;
  last_err = refl;
  last_resp = refl;
  dead_reason = refl;
  created_at = refl;
  updated_at = refl;
  key_id = refl;
}

-- The state that the text of the parameter names; an empty one asks for the dead tasks.
abbrev pub IsAsked : Bytes → State → Type 0
IsAsked text unset = ⊥
IsAsked text pending = text ≡ bytes "pending"
IsAsked text waiting = text ≡ bytes "waiting"
IsAsked text sending = text ≡ bytes "sending"
IsAsked text succeeded = text ≡ bytes "succeeded"
IsAsked text dead = (text ≡ bytes "dead") ⊎ (text ≡ [])

state_of-IsAsked : (text : Bytes) (s : State) → state_of text ≡ some s → IsAsked text s
unfolding state_of
state_of-IsAsked text unset h = ground (arith, h)
state_of-IsAsked text pending h = ground (arith, h, eq_iff text (bytes "pending"))
state_of-IsAsked text waiting h = ground (arith, h, eq_iff text (bytes "waiting"))
state_of-IsAsked text sending h = ground (arith, h, eq_iff text (bytes "sending"))
state_of-IsAsked text succeeded h = ground (arith, h, eq_iff text (bytes "succeeded"))
state_of-IsAsked text dead h = inl (ground (arith, h, eq_iff text (bytes "dead")))

state_param-IsAsked :
    (text : Bytes) (s : State) → state_of (state_param text) ≡ some s → IsAsked text s
unfolding state_of
state_param-IsAsked [] unset h = absurd (ground (arith, h))
state_param-IsAsked [] pending h = absurd (ground (arith, h))
state_param-IsAsked [] waiting h = absurd (ground (arith, h))
state_param-IsAsked [] sending h = absurd (ground (arith, h))
state_param-IsAsked [] succeeded h = absurd (ground (arith, h))
state_param-IsAsked [] dead h = inr refl
state_param-IsAsked (b ∷ text) s h = state_of-IsAsked (b ∷ text) s h

module _ (state limit : Bytes) (q : Queue) where
  -- In a state of the invariant, every entry that a list shows has each of its fields from a task of
  -- the queue, which is in the state whose name was asked for, or dead if none was; and there are no
  -- more than the limit, which is at most 1000.
  pub handle_list-true :
      (i : ℕ) (v : TaskView)
      → Inv q
      → get_elem? (shown (handle_list true state limit q)) i ≡ some v
      → ((id : Bytes) × (t : Task) × (lookup id q.tasks ≡ some t)
          × IsAsked state t.state
          × Shows v t)
        × (i < limit_of limit)
        × (limit_of limit ≤ 1000)
  unfolding handle_list
  handle_list-true i v inv e =
      let (positive, small) = limit_of_bounds limit in
      let (t, at, same) =
        get_elem?-map view_of (tasks_in (state_of (state_param state)) (limit_of limit) q) i v e in
      elim (Option-cases (state_of (state_param state))) [
        | inl unknown ↦ absurd (ground (arith, at, unknown))
        | inr (s, known) ↦
            let here : get_elem? (list_by_state s (limit_of limit) q) i ≡ some t =
              ground (arith, at, known) in
            let (id, found, in_state) = listed_from s (limit_of limit) q i t inv.unique here in
            (
              (
                id,
                t,
                found,
                state_param-IsAsked state t.state (known ∙ ap some (sym in_state)),
                subst (λ x. Shows x t) (sym same) (view_of-Shows t),
              ),
              omega (
                arith,
                get_elem?-length _ i t here,
                length-list_by_state s (limit_of limit) q positive,
              ),
              small,
            )
      ]

  -- Every task in the state that was asked for is in the list, or the list has exactly as many entries
  -- as the limit.
  pub handle_list-all :
      (id : Bytes) (t : Task)
      → lookup id q.tasks ≡ some t
      → state_of (state_param state) ≡ some t.state
      → ((i : ℕ) × (get_elem? (shown (handle_list true state limit q)) i ≡ some (view_of t)))
        ⊎ (length (shown (handle_list true state limit q)) ≡ limit_of limit)
  unfolding handle_list
  handle_list-all id t at known =
      let (positive, small) = limit_of_bounds limit in
      let ts = list_by_state t.state (limit_of limit) q in
      let bound = length-list_by_state t.state (limit_of limit) q positive in
      rw (known) (elim (Bool-cases (ltb (length ts) (limit_of limit))) [
        | inl below ↦
            let (i, e) =
              all_listed t.state (limit_of limit) q id t (ground (arith, below)) at refl in
            inl (i, map-get_elem? view_of ts i t e)
        | inr full ↦ inr (length-map view_of ts ∙ ground (arith, full, bound))
      ])
