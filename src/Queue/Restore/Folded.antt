-- ===== src/Queue/Restore/Folded.antt =====
-- The first half of `Restore` of internal/queue/queue.go: the callback over the records of the
-- journal, and which tasks it leaves alone.
use rc_wnzzer.Base.{
  ◌≡◌, refl, ap, ◌∙◌, Bool, true, false, Bytes, str_eq, Option, none, some, Option-cases, inl, inr,
  List, [], ◌∷◌, ◌++◌, arith,
}
use rc_wnzzer.Base.Table.{lookup, insert, lookup-insert, HasUniqueKeys, insert-HasUniqueKeys}
use rc_wnzzer.Model.{Task}
use rc_wnzzer.Store.Record.{Kind, Record, enq, att, done, other, on_wire}
use rc_wnzzer.Store.Codec.{Codec}
use rc_wnzzer.Store.Replay.Recovery.{fold_records}
use rc_wnzzer.Queue.State.{update}
use rc_wnzzer.Queue.Restore.{
  Maps, index_key, from_enq, from_att, from_done, from_dead, restore_record,
}

abbrev pub task_is : Bytes → Option Task → Bool
task_is id none = false
task_is id (some t) = str_eq t.id id

abbrev pub kind_is_about : Bytes → Kind → Record → Bool
kind_is_about id enq r = task_is id r.task
kind_is_about id (other s) r = false
kind_is_about id _ r = str_eq r.id id

-- Whether a record is about the task with this id.
abbrev pub is_about : Bytes → Record → Bool
is_about id r = kind_is_about id r.kind r

abbrev pub is_some : Option Task → Bool
is_some none = false
is_some (some t) = true

abbrev pub kind_is_whole : Kind → Record → Bool
kind_is_whole enq r = is_some r.task
kind_is_whole _ r = true

-- Whether an enq record has its task.
abbrev pub is_whole : Record → Bool
is_whole r = kind_is_whole r.kind r

-- Whether each record is read back as it was written, and is whole.
abbrev pub AllSound : Codec → List Record → Type 0
AllSound c [] = Unit
AllSound c (r ∷ rs) = (c.is_utf8 r ≡ true) × (is_whole r ≡ true) × AllSound c rs

-- Whether no record is about the task with this id.
abbrev pub AllElsewhere : Bytes → List Record → Type 0
AllElsewhere id [] = Unit
AllElsewhere id (r ∷ rs) = (is_about id r ≡ false) × AllElsewhere id rs

-- What one record does to the maps.
record Restored (r : Record) (m : Maps) : Type 0 where
  pub maps : Maps
  pub result : restore_record r m ≡ some maps
  pub unique : HasUniqueKeys maps.tasks
  pub kept : (id : Bytes) → is_about id r ≡ false → lookup id maps.tasks ≡ lookup id m.tasks

module _ (m : Maps) (u : HasUniqueKeys m.tasks) where
  update-HasUniqueKeys : (id : Bytes) (f : Task → Task) → HasUniqueKeys (update id f m.tasks)
  unfolding update
  update-HasUniqueKeys id f = elim (Option-cases (lookup id m.tasks)) [
    | inl e ↦ rw (e, update) u
    | inr (t, e) ↦ rw (e, update) (insert-HasUniqueKeys id (f t) m.tasks u)
  ]

  lookup-update :
      (id j : Bytes) (f : Task → Task)
      → str_eq id j ≡ false
      → lookup j (update id f m.tasks) ≡ lookup j m.tasks
  unfolding update
  lookup-update id j f n = elim (Option-cases (lookup id m.tasks)) [
    | inl e ↦ rw (e, update) refl
    | inr (t, e) ↦ rw (e, update) (ground (arith, lookup-insert id j (f t) m.tasks, n))
  ]

  kind-Restored :
      (k : Kind) (o : Option Task) (r : Record)
      → r.kind ≡ k
      → r.task ≡ o
      → is_whole r ≡ true
      → Restored r m
  unfolding restore_record
  kind-Restored enq none r ek eo w = absurd (ground (arith, ek, eo, w))
  kind-Restored enq (some t) r ek eo w =
      let t' = from_enq r.ts t in
      record {
        maps = record { tasks = insert t.id t' m.tasks; idem = index_key t.idem_key t.id m.idem };
        result = rw (ek, restore_record) (rw (eo) refl);
        unique = insert-HasUniqueKeys t.id t' m.tasks u;
        kept = λ id n. ground (arith, lookup-insert t.id id t' m.tasks, n, ek, eo);
      }
  kind-Restored att o r ek eo w = record {
    maps = record m { tasks = update r.id (from_att r) m.tasks };
    result = rw (ek, restore_record) refl;
    unique = update-HasUniqueKeys r.id (from_att r);
    kept = λ id n. lookup-update r.id id (from_att r) (ground (arith, n, ek));
  }
  kind-Restored done o r ek eo w = record {
    maps = record m { tasks = update r.id (from_done r) m.tasks };
    result = rw (ek, restore_record) refl;
    unique = update-HasUniqueKeys r.id (from_done r);
    kept = λ id n. lookup-update r.id id (from_done r) (ground (arith, n, ek));
  }
  kind-Restored Kind.dead o r ek eo w = record {
    maps = record m { tasks = update r.id (from_dead r) m.tasks };
    result = rw (ek, restore_record) refl;
    unique = update-HasUniqueKeys r.id (from_dead r);
    kept = λ id n. lookup-update r.id id (from_dead r) (ground (arith, n, ek));
  }
  kind-Restored (other x) o r ek eo w = record {
    maps = m;
    result = rw (ek, restore_record) refl;
    unique = u;
    kept = λ id n. refl;
  }

-- The maps after all records of a list, read back.
pub record Folded (c : Codec) (rs : List Record) (m : Maps) : Type 0 where
  pub maps : Maps
  pub result : fold_records c restore_record rs m ≡ some maps
  pub unique : HasUniqueKeys maps.tasks
  pub kept : (id : Bytes) → AllElsewhere id rs → lookup id maps.tasks ≡ lookup id m.tasks

whole_on_wire :
    (k : Kind) (o : Option Task) (r : Record)
    → r.kind ≡ k
    → r.task ≡ o
    → is_whole (on_wire r) ≡ is_whole r
whole_on_wire enq none r ek eo = rw (ek) (rw (eo) refl)
whole_on_wire enq (some t) r ek eo = rw (ek) (rw (eo) refl)
whole_on_wire att o r ek eo = rw (ek) refl
whole_on_wire done o r ek eo = rw (ek) refl
whole_on_wire Kind.dead o r ek eo = rw (ek) refl
whole_on_wire (other x) o r ek eo = rw (ek) refl

about_on_wire :
    (id : Bytes) (k : Kind) (o : Option Task) (r : Record)
    → r.kind ≡ k
    → r.task ≡ o
    → is_about id (on_wire r) ≡ is_about id r
about_on_wire id enq none r ek eo = rw (ek) (rw (eo) refl)
about_on_wire id enq (some t) r ek eo = rw (ek) (rw (eo) refl)
about_on_wire id att o r ek eo = rw (ek) refl
about_on_wire id done o r ek eo = rw (ek) refl
about_on_wire id Kind.dead o r ek eo = rw (ek) refl
about_on_wire id (other x) o r ek eo = rw (ek) refl

pub fold-Folded :
    (c : Codec) (rs : List Record) (m : Maps)
    → HasUniqueKeys m.tasks
    → AllSound c rs
    → Folded c rs m
fold-Folded c [] m u s = record { maps = m; result = refl; unique = u; kept = λ id n. refl }
fold-Folded c (r ∷ rs) m u s =
    let back : c.reread r ≡ on_wire r = c.reread_utf8 r s.0 in
    let a =
      kind-Restored m u r.kind (on_wire r).task (on_wire r) refl refl
        (whole_on_wire r.kind r.task r refl refl ∙ s.1) in
    let one : restore_record (c.reread r) m ≡ some a.maps =
      ap (λ x. restore_record x m) back ∙ a.result in
    let b = fold-Folded c rs a.maps a.unique s.2 in
    record {
      maps = b.maps;
      result = rw (one, fold_records) b.result;
      unique = b.unique;
      kept = λ id n. b.kept id n.1 ∙ a.kept id (about_on_wire id r.kind r.task r refl refl ∙ n.0);
    }

pub fold-append :
    (c : Codec) (rs ss : List Record) (m m₁ : Maps)
    → fold_records c restore_record rs m ≡ some m₁
    → fold_records c restore_record (rs ++ ss) m ≡ fold_records c restore_record ss m₁
fold-append c [] ss m m₁ e = ground (arith, e)
fold-append c (r ∷ rs) ss m m₁ e = elim (Option-cases (restore_record (c.reread r) m)) [
  | inl f ↦ absurd (ground (arith, e, f))
  | inr (m₂, f) ↦ rw (f, fold_records) (fold-append c rs ss m₂ m₁ (ground (arith, e, f)))
]
