-- ===== src/Queue/Restore/Sound.antt =====
-- `Restore` of internal/queue/queue.go over any sound journal leaves a queue of the invariant.
use rc_wnzzer.Base.{
  ◌≡◌, refl, ◌⊎◌, Bool, true, false, Bytes, eq_iff, Option, none, some, Option-cases, inl, inr,
  List, [], ◌∷◌, ◌||◌, if◌then◌else◌, str_eq, arith,
}
use rc_wnzzer.Base.Table.{
  Table, lookup, lookup-nil, insert, lookup-insert, HasUniqueKeys, insert-HasUniqueKeys,
}
use rc_wnzzer.Model.{Task}
use rc_wnzzer.Store.Record.{Kind, Record, enq, att, done, other}
use rc_wnzzer.Queue.State.{update}
use rc_wnzzer.Queue.Invariant.{idem_key_of}
use rc_wnzzer.Queue.Restore.{
  Maps, index_key, from_enq, from_att, from_done, from_dead, restore_record,
}

-- What holds of the maps between two records.
pub record MapsInv (m : Maps) : Type 0 where
  pub unique : HasUniqueKeys m.tasks
  pub keyed : (id : Bytes) (t : Task) → lookup id m.tasks ≡ some t → t.id ≡ id
  pub indexed :
      (k id : Bytes) → lookup k m.idem ≡ some id → idem_key_of (lookup id m.tasks) ≡ some k
  pub named : lookup [] m.idem ≡ none

pub empty-MapsInv : MapsInv (record { tasks = []; idem = [] })
empty-MapsInv = record {
  unique = tt;
  keyed = λ id t e. ground (arith, lookup-nil {V = Task} id, e);
  indexed = λ k id e. ground (arith, lookup-nil {V = Bytes} k, e);
  named = lookup-nil [];
}

pub lookup-index_key :
    (k id j : Bytes) (idem : Table Bytes)
    → lookup j (index_key k id idem)
      ≡ (if str_eq k [] then lookup j idem else if str_eq k j then some id else lookup j idem)
lookup-index_key [] id j idem = refl
lookup-index_key (b ∷ k) id j idem = lookup-insert (b ∷ k) j id idem

module _ (m : Maps) (v : MapsInv m) where
  -- A new task joins the maps.
  pub insert-MapsInv :
      (t t' : Task)
      → lookup t.id m.tasks ≡ none
      → t'.id ≡ t.id
      → t'.idem_key ≡ t.idem_key
      → MapsInv (record { tasks = insert t.id t' m.tasks; idem = index_key t.idem_key t.id m.idem })
  insert-MapsInv t t' fresh same_id same_key = record {
    unique = insert-HasUniqueKeys t.id t' m.tasks v.unique;
    keyed = λ id u e.
        ground (arith, lookup-insert t.id id t' m.tasks, eq_iff t.id id, e, same_id, v.keyed id u);
    indexed = λ k id e. ground (
      arith,
      lookup-insert t.id id t' m.tasks,
      lookup-index_key t.idem_key t.id k m.idem,
      eq_iff t.id id,
      eq_iff t.idem_key k,
      e,
      same_key,
      v.indexed k id,
      fresh,
    );
    named =
        ground (arith, lookup-index_key t.idem_key t.id [] m.idem, v.named, eq_iff t.idem_key []);
  }

  -- A record about a task that keeps its id and its key.
  pub update-MapsInv :
      (id : Bytes) (f : Task → Task)
      → ((t : Task) → (f t).id ≡ t.id)
      → ((t : Task) → (f t).idem_key ≡ t.idem_key)
      → MapsInv (record m { tasks = update id f m.tasks })
  unfolding update
  update-MapsInv id f same_id same_key = elim (Option-cases (lookup id m.tasks)) [
    | inl e ↦ rw (e, update) v
    | inr (t, e) ↦
        rw (e, update)
          (record {
            unique = insert-HasUniqueKeys id (f t) m.tasks v.unique;
            keyed = λ j u found. ground (
              arith,
              lookup-insert id j (f t) m.tasks,
              eq_iff id j,
              found,
              v.keyed j u,
              v.keyed id t,
              e,
              same_id t,
            );
            indexed = λ k j found. ground (
              arith,
              lookup-insert id j (f t) m.tasks,
              eq_iff id j,
              found,
              v.indexed k j,
              e,
              same_key t,
            );
            named = v.named;
          })
  ]

abbrev opens_task : Bytes → Option Task → Bool
opens_task id none = false
opens_task id (some t) = str_eq t.id id

abbrev kind_opens : Bytes → Kind → Record → Bool
kind_opens id enq r = opens_task id r.task
kind_opens id _ r = false

-- Whether a record is the submission of the task with this id.
abbrev pub opens : Bytes → Record → Bool
opens id r = kind_opens id r.kind r

abbrev pub opened : Bytes → List Record → Bool
opened id [] = false
opened id (r ∷ rs) = opens id r || opened id rs

-- No two submissions have the same id.
abbrev pub OpensOnce : List Record → Type 0
OpensOnce [] = Unit
OpensOnce (r ∷ rs) = ((id : Bytes) → opens id r ≡ true → opened id rs ≡ false) × OpensOnce rs

-- One record, whose id is new if it is a submission.
pub record Taken (r : Record) (m m' : Maps) : Type 0 where
  pub still : MapsInv m'
  pub absent :
      (id : Bytes) → lookup id m.tasks ≡ none → opens id r ≡ false → lookup id m'.tasks ≡ none

module _ (m m' : Maps) (v : MapsInv m) where
  update-Taken :
      (r : Record) (id : Bytes) (f : Task → Task)
      → ((t : Task) → (f t).id ≡ t.id)
      → ((t : Task) → (f t).idem_key ≡ t.idem_key)
      → Taken r m (record m { tasks = update id f m.tasks })
  unfolding update
  update-Taken r id f same_id same_key = record {
    still = update-MapsInv m v id f same_id same_key;
    absent = λ j e n. absent_after j e (Option-cases (lookup id m.tasks));
  }
    where
      absent_after :
          (j : Bytes)
          → lookup j m.tasks ≡ none
          → (lookup id m.tasks ≡ none) ⊎ ((t : Task) × (lookup id m.tasks ≡ some t))
          → lookup j (update id f m.tasks) ≡ none
      absent_after j e (inl n) = rw (n, update) e
      absent_after j e (inr (t, h)) =
          rw (h, update) (ground (arith, lookup-insert id j (f t) m.tasks, eq_iff id j, e, h))

  pub kind-Taken :
      (k : Kind) (o : Option Task) (r : Record)
      → r.kind ≡ k
      → r.task ≡ o
      → ((id : Bytes) → opens id r ≡ true → lookup id m.tasks ≡ none)
      → restore_record r m ≡ some m'
      → Taken r m m'
  unfolding restore_record
  kind-Taken enq none r ek eo fresh h = absurd (ground (arith, ek, eo, h))
  kind-Taken enq (some t) r ek eo fresh h =
      let new : lookup t.id m.tasks ≡ none =
        fresh t.id (ground (arith, ek, eo, eq_iff t.id t.id)) in
      let made : m' ≡ (record {
        tasks = insert t.id (from_enq r.ts t) m.tasks;
        idem = index_key t.idem_key t.id m.idem;
      }) =
        ground (arith, ek, eo, h) in
      rw (made) (record {
        still = insert-MapsInv m v t (from_enq r.ts t) new refl refl;
        absent =
            λ id e n. ground (arith, lookup-insert t.id id (from_enq r.ts t) m.tasks, e, n, ek, eo);
      })
  kind-Taken att o r ek eo fresh h =
      let made : m' ≡ (record m { tasks = update r.id (from_att r) m.tasks }) =
        ground (arith, ek, h) in
      rw (made) (update-Taken r r.id (from_att r) (λ t. refl) (λ t. refl))
  kind-Taken done o r ek eo fresh h =
      let made : m' ≡ (record m { tasks = update r.id (from_done r) m.tasks }) =
        ground (arith, ek, h) in
      rw (made) (update-Taken r r.id (from_done r) (λ t. refl) (λ t. refl))
  kind-Taken Kind.dead o r ek eo fresh h =
      let made : m' ≡ (record m { tasks = update r.id (from_dead r) m.tasks }) =
        ground (arith, ek, h) in
      rw (made) (update-Taken r r.id (from_dead r) (λ t. refl) (λ t. refl))
  kind-Taken (other x) o r ek eo fresh h =
      let made : m' ≡ m = ground (arith, ek, h) in
      rw (made) (record { still = v; absent = λ id e n. e })
