-- ===== src/Queue/Ledger/Updates.antt =====
-- The callback of `Restore` in internal/queue/queue.go over records that are no submissions.
use rc_wnzzer.Base.{
  ◌⊎◌, ◌≡◌, refl, sym, ap, ◌∙◌, Bool, true, false, Bytes, str_eq, eq_iff, Option, none, some,
  Option-cases, inl, inr, List, [], ◌∷◌, if◌then◌else◌, subst, arith,
}
use rc_wnzzer.Base.Table.{lookup, lookup-insert}
use rc_wnzzer.Model.{Task, succeeded, strip, state_eq}
use rc_wnzzer.Store.Record.{Kind, Record, enq, att, done, other, on_wire}
use rc_wnzzer.Store.Codec.{Codec}
use rc_wnzzer.Store.Replay.Recovery.{fold_records}
use rc_wnzzer.Queue.State.{update}
use rc_wnzzer.Queue.Restore.{Maps, from_att, from_done, from_dead, restore_record}
use rc_wnzzer.Queue.Restore.Sound.{MapsInv, update-MapsInv}
use rc_wnzzer.Queue.Ledger.{SameSubmission, IsRecorded, IsHeld, is_update, AllUpdates}

abbrev pub SameAt : Option Task → Option Task → Type 0
SameAt none none = Unit
SameAt (some t) (some u) = SameSubmission t u
SameAt _ _ = ⊥

SameSubmission-refl : (t : Task) → SameSubmission t t
SameSubmission-refl t = record {
  same_id = refl;
  same_key = refl;
  same_policy = refl;
  same_caller = refl;
}

pub SameSubmission-trans :
    (t u v : Task) → SameSubmission t u → SameSubmission u v → SameSubmission t v
SameSubmission-trans t u v p q = record {
  same_id = q.same_id ∙ p.same_id;
  same_key = q.same_key ∙ p.same_key;
  same_policy = q.same_policy ∙ p.same_policy;
  same_caller = q.same_caller ∙ p.same_caller;
}

pub SameSubmission-sym : (t u : Task) → SameSubmission t u → SameSubmission u t
SameSubmission-sym t u p = record {
  same_id = sym p.same_id;
  same_key = sym p.same_key;
  same_policy = sym p.same_policy;
  same_caller = sym p.same_caller;
}

pub SameAt-refl : (o : Option Task) → SameAt o o
SameAt-refl none = tt
SameAt-refl (some t) = SameSubmission-refl t

pub SameAt-trans : (a b d : Option Task) → SameAt a b → SameAt b d → SameAt a d
SameAt-trans none none none p q = tt
SameAt-trans none none (some v) p q = q
SameAt-trans none (some u) d p q = absurd p
SameAt-trans (some t) none d p q = absurd p
SameAt-trans (some t) (some u) none p q = q
SameAt-trans (some t) (some u) (some v) p q = SameSubmission-trans t u v p q

pub SameAt-sym : (a b : Option Task) → SameAt a b → SameAt b a
SameAt-sym none none p = tt
SameAt-sym none (some u) p = p
SameAt-sym (some t) none p = p
SameAt-sym (some t) (some u) p = SameSubmission-sym t u p

-- The target is the same or stripped.
abbrev pub ShedsAt : Option Task → Option Task → Type 0
ShedsAt none o = Unit
ShedsAt (some t) none = ⊥
ShedsAt (some t) (some u) = (u.target ≡ t.target) ⊎ (u.target ≡ strip t.target)

pub ShedsAt-refl : (o : Option Task) → ShedsAt o o
ShedsAt-refl none = tt
ShedsAt-refl (some t) = inl refl

ShedsAt-trans : (a b d : Option Task) → ShedsAt a b → ShedsAt b d → ShedsAt a d
ShedsAt-trans none b d p q = tt
ShedsAt-trans (some t) none d p q = absurd p
ShedsAt-trans (some t) (some u) none p q = q
ShedsAt-trans (some t) (some u) (some v) (inl e) (inl f) = inl (f ∙ e)
ShedsAt-trans (some t) (some u) (some v) (inl e) (inr f) = inr (f ∙ ap strip e)
ShedsAt-trans (some t) (some u) (some v) (inr e) (inl f) = inr (f ∙ e)
ShedsAt-trans (some t) (some u) (some v) (inr e) (inr f) = inr (f ∙ ap strip e)

-- What is recorded of a task after some records is held after fewer.
pub IsHeld-before : (a b d : Option Task) → IsRecorded a b → SameAt b d → ShedsAt d b → IsHeld a d
IsHeld-before none b d r s k = tt
IsHeld-before (some t) none d r s k = absurd r
IsHeld-before (some t) (some u) none r s k = s
IsHeld-before (some t) (some u) (some v) r s k = record {
  submission = SameSubmission-trans t u v r.submission s;
  target = targets r.target k;
}
  where
    targets :
        ((u.target ≡ t.target)
          ⊎ ((state_eq t.state succeeded ≡ true) × (u.target ≡ strip t.target)))
        → ((u.target ≡ v.target) ⊎ (u.target ≡ strip v.target))
        → (v.target ≡ t.target)
          ⊎ ((strip v.target ≡ t.target)
              ⊎ ((state_eq t.state succeeded ≡ true) × (strip v.target ≡ strip t.target)))
    targets (inl e) (inl f) = inl (sym f ∙ e)
    targets (inl e) (inr f) = inr (inl (sym f ∙ e))
    targets (inr (ok, e)) (inl f) = inr (inr (ok, ap strip (sym f ∙ e)))
    targets (inr (ok, e)) (inr f) = inr (inr (ok, sym f ∙ e))

pub SameAt-none : (a b : Option Task) → SameAt a b → a ≡ none → b ≡ none
SameAt-none none none p e = refl
SameAt-none none (some u) p e = absurd p
SameAt-none (some t) b p e = absurd (ground (arith, e))

-- Maps that hold the same submissions.
pub record SameMaps (m m' : Maps) : Type 0 where
  pub at : (j : Bytes) → SameAt (lookup j m.tasks) (lookup j m'.tasks)
  pub sheds : (j : Bytes) → ShedsAt (lookup j m.tasks) (lookup j m'.tasks)
  pub index : m'.idem ≡ m.idem

pub record Updated (c : Codec) (rs : List Record) (m : Maps) : Type 0 where
  pub maps : Maps
  pub result : fold_records c restore_record rs m ≡ some maps
  pub still : MapsInv maps
  pub same : SameMaps m maps

module _ (m : Maps) (v : MapsInv m) where
  update-at :
      (R : Option Task → Option Task → Type 0)
      → ((o : Option Task) → R o o)
      → (id : Bytes) (f : Task → Task) → ((t : Task) → R (some t) (some (f t)))
      → (j : Bytes) → R (lookup j m.tasks) (lookup j (update id f m.tasks))
  unfolding update
  update-at R same id f keeps j = elim (Option-cases (lookup id m.tasks)) [
    | inl e ↦ rw (e, update) (same (lookup j m.tasks))
    | inr (t, e) ↦
        rw (e, update)
          (rw (lookup-insert id j (f t) m.tasks) (here t e (str_eq id j) (eq_iff id j).0))
  ]
    where
      here :
          (t : Task)
          → lookup id m.tasks ≡ some t
          → (b : Bool) → (b ≡ true → id ≡ j)
          → R (lookup j m.tasks) (if b then some (f t) else lookup j m.tasks)
      here t e true is_j =
          subst (λ o. R o (some (f t))) (sym e ∙ ap (λ i. lookup i m.tasks) (is_j refl)) (keeps t)
      here t e false is_j = same (lookup j m.tasks)

  one-Updated :
      (r : Record) (id : Bytes) (f : Task → Task)
      → restore_record r m ≡ some (record m { tasks = update id f m.tasks })
      → ((t : Task) → SameSubmission t (f t))
      → ((t : Task) → ShedsAt (some t) (some (f t)))
      → (m' : Maps) × (restore_record r m ≡ some m') × MapsInv m' × SameMaps m m'
  one-Updated r id f e keeps sheds = (
    record m { tasks = update id f m.tasks },
    e,
    update-MapsInv m v id f (λ t. (keeps t).same_id) (λ t. (keeps t).same_key),
    record {
      at = update-at SameAt SameAt-refl id f keeps;
      sheds = update-at ShedsAt ShedsAt-refl id f sheds;
      index = refl;
    },
  )

  kind-Updated :
      (k : Kind) (r : Record)
      → r.kind ≡ k
      → is_update k ≡ true
      → (m' : Maps) × (restore_record r m ≡ some m') × MapsInv m' × SameMaps m m'
  unfolding restore_record
  kind-Updated enq r e h = absurd (ground (arith, h))
  kind-Updated att r e h =
      one-Updated r r.id (from_att r) (rw (e, restore_record) refl) (λ t. kept t) (λ t. inl refl)
    where
      kept : (t : Task) → SameSubmission t (from_att r t)
      kept t = record { same_id = refl; same_key = refl; same_policy = refl; same_caller = refl }
  kind-Updated done r e h =
      one-Updated r r.id (from_done r) (rw (e, restore_record) refl) (λ t. kept t) (λ t. inr refl)
    where
      kept : (t : Task) → SameSubmission t (from_done r t)
      kept t = record { same_id = refl; same_key = refl; same_policy = refl; same_caller = refl }
  kind-Updated Kind.dead r e h =
      one-Updated r r.id (from_dead r) (rw (e, restore_record) refl) (λ t. kept t) (λ t. inl refl)
    where
      kept : (t : Task) → SameSubmission t (from_dead r t)
      kept t = record { same_id = refl; same_key = refl; same_policy = refl; same_caller = refl }
  kind-Updated (other s) r e h = (
    m,
    rw (e, restore_record) refl,
    v,
    record {
      at = λ j. SameAt-refl (lookup j m.tasks);
      sheds = λ j. ShedsAt-refl (lookup j m.tasks);
      index = refl;
    },
  )

-- Updates keep the submissions and what holds of the maps.
pub fold-Updated :
    (c : Codec) (rs : List Record) (m : Maps) → MapsInv m → AllUpdates c rs → Updated c rs m
fold-Updated c [] m v s = record {
  maps = m;
  result = refl;
  still = v;
  same = record {
    at = λ j. SameAt-refl (lookup j m.tasks);
    sheds = λ j. ShedsAt-refl (lookup j m.tasks);
    index = refl;
  };
}
fold-Updated c (r ∷ rs) m v s =
    let (m₁, e, v₁, same₁) = kind-Updated m v r.kind (on_wire r) refl s.1 in
    let rest = fold-Updated c rs m₁ v₁ s.2 in
    let one : restore_record (c.reread r) m ≡ some m₁ =
      ap (λ x. restore_record x m) (c.reread_utf8 r s.0) ∙ e in
    record {
      maps = rest.maps;
      result = rw (one, fold_records) rest.result;
      still = rest.still;
      same = record {
        at = λ j.
            SameAt-trans (lookup j m.tasks) (lookup j m₁.tasks) (lookup j rest.maps.tasks)
              (same₁.at j) (rest.same.at j);
        sheds = λ j.
            ShedsAt-trans (lookup j m.tasks) (lookup j m₁.tasks) (lookup j rest.maps.tasks)
              (same₁.sheds j) (rest.same.sheds j);
        index = rest.same.index ∙ same₁.index;
      };
    }
