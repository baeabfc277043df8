-- ===== src/Queue/Ledger/Writes.antt =====
-- Writes to the journal and to the tasks in memory, after which the journal again records the tasks.
use rc_wnzzer.Base.{
  ◌≡◌, refl, ap, ◌∙◌, ◌⊎◌, Bool, true, false, Bytes, str_eq, eq_iff, Option, none, some,
  Option-cases, inl, inr, List, [], ◌∷◌, ◌++◌, occurs, if◌then◌else◌, subst, arith,
}
use rc_wnzzer.Base.Table.{Table, lookup, insert, lookup-insert}
use rc_wnzzer.Model.{Task}
use rc_wnzzer.Store.Record.{Record, on_wire}
use rc_wnzzer.Store.Codec.{Codec}
use rc_wnzzer.Store.Wal.{Wal, Io, none_fails, append, flush}
use rc_wnzzer.Store.Wal.Journal.{append-recent, flush-safe}
use rc_wnzzer.Store.Replay.Recovery.{fold_records}
use rc_wnzzer.Queue.State.{update}
use rc_wnzzer.Queue.Restore.{Maps, restore_record}
use rc_wnzzer.Queue.Restore.Folded.{fold-append}
use rc_wnzzer.Queue.Restore.Sound.{MapsInv}
use rc_wnzzer.Queue.Restore.Remembers.{KeyKnown}
use rc_wnzzer.Queue.Ledger.{Recorded, IsRecorded, is_update, AllUpdates, Ledger, no_maps}
use rc_wnzzer.Queue.Ledger.Updates.{SameMaps, fold-Updated}

AllUpdates-append :
    (c : Codec) (rs : List Record) (r : Record)
    → AllUpdates c rs
    → c.is_utf8 r ≡ true
    → is_update r.kind ≡ true
    → AllUpdates c (rs ++ r ∷ [])
AllUpdates-append c [] r s text h = (text, h, tt)
AllUpdates-append c (x ∷ rs) r s text h = (s.0, s.1, AllUpdates-append c rs r s.2 text h)

-- What is recorded of a task in memory has a task in the maps.
pub entry_of_task :
    (t : Task) (o : Option Task) → IsRecorded (some t) o → (u : Task) × (o ≡ some u) × Recorded t u
entry_of_task t none p = absurd p
entry_of_task t (some u) p = (u, refl, p)

module _ {c : Codec} {given : List Bytes} {w : Wal} {tasks : Table Task}
    (l : Ledger c given w tasks) where
  -- The maps are sound, and hold the submissions of the synced records.
  pub Ledger-maps : MapsInv l.maps × SameMaps l.base l.maps
  Ledger-maps =
      let up = fold-Updated c l.recent l.base l.base_Inv l.updates in
      let same : up.maps ≡ l.maps = ground (arith, up.result, l.folded) in
      (subst MapsInv same up.still, subst (SameMaps l.base) same up.same)

  entry_at :
      (id : Bytes) (t : Task)
      → lookup id tasks ≡ some t
      → (u : Task) × (lookup id l.maps.tasks ≡ some u) × Recorded t u
  entry_at id t at =
      entry_of_task t (lookup id l.maps.tasks)
        (subst (λ o. IsRecorded o (lookup id l.maps.tasks)) at (l.known id))

  pub Ledger-fresh : (j : Bytes) → occurs j given ≡ 0 → lookup j tasks ≡ none
  Ledger-fresh j e = elim (Option-cases (lookup j tasks)) [
    | inl n ↦ n
    | inr (t, f) ↦ absurd (
        subst (IsRecorded (some t)) (l.only j e)
          (subst (λ o. IsRecorded o (lookup j l.maps.tasks)) f (l.known j)))
  ]

  pub flush-Ledger : Ledger c given (flush none_fails w).0 tasks
  flush-Ledger = record {
    safe = l.safe ++ l.recent;
    recent = [];
    journal = flush-safe c l.journal;
    base = l.maps;
    base_folded = fold-append c l.safe l.recent no_maps l.base l.base_folded ∙ l.folded;
    base_Inv = Ledger-maps.0;
    updates = tt;
    maps = l.maps;
    folded = refl;
    known = l.known;
    keys = l.keys;
    only = l.only;
  }

  -- A write to a task in memory that the record of it allows.
  pub retask-Ledger :
      (id : Bytes) (t t' : Task)
      → lookup id tasks ≡ some t
      → ((u : Task) → Recorded t u → Recorded t' u)
      → Ledger c given w (insert id t' tasks)
  retask-Ledger id t t' at keeps = record {
    safe = l.safe;
    recent = l.recent;
    journal = l.journal;
    base = l.base;
    base_folded = l.base_folded;
    base_Inv = l.base_Inv;
    updates = l.updates;
    maps = l.maps;
    folded = l.folded;
    known = λ j. rw (lookup-insert id j t' tasks) (known j (str_eq id j) (eq_iff id j).0);
    keys = l.keys;
    only = l.only;
  }
    where
      own : IsRecorded (some t') (lookup id l.maps.tasks)
      own = let (u, e, r) = entry_at id t at in rw (e) (keeps u r)

      known :
          (j : Bytes) (b : Bool)
          → (b ≡ true → id ≡ j)
          → IsRecorded (if b then some t' else lookup j tasks) (lookup j l.maps.tasks)
      known j true same = subst (λ i. IsRecorded (some t') (lookup i l.maps.tasks)) (same refl) own
      known j false same = l.known j

  -- An update that is appended, and the write to the task that goes with it.
  pub append-Ledger :
      (io : Io) (r : Record) (f : Task → Task) (id : Bytes) (t t' : Task)
      → io.fault ≡ none_fails
      → c.is_utf8 r ≡ true
      → is_update r.kind ≡ true
      → restore_record (on_wire r) l.maps
        ≡ some (record l.maps { tasks = update id f l.maps.tasks })
      → lookup id tasks ≡ some t
      → ((u : Task) → Recorded t u → Recorded t' (f u))
      → ((u : Task) → (f u).idem_key ≡ u.idem_key)
      → Ledger c given (append c io r false w).0 (insert id t' tasks)
  unfolding update
  append-Ledger io r f id t t' ok text kind made at keeps key =
      let (u, e, old) = entry_at id t at in
      let tasks' = insert id (f u) l.maps.tasks in
      let m : Maps = record { tasks = tasks'; idem = l.maps.idem } in
      let wrote : restore_record (c.reread r) l.maps ≡ some m =
        ap (λ x. restore_record x l.maps) (c.reread_utf8 r text) ∙ made ∙ rw (e, update) refl in
      record {
        safe = l.safe;
        recent = l.recent ++ r ∷ [];
        journal = append-recent c io r ok l.journal;
        base = l.base;
        base_folded = l.base_folded;
        base_Inv = l.base_Inv;
        updates = AllUpdates-append c l.recent r l.updates text kind;
        maps = m;
        folded =
            fold-append c l.recent (r ∷ []) l.base l.maps l.folded ∙ rw (wrote, fold_records) refl;
        known = λ j.
            rw (lookup-insert id j t' tasks, lookup-insert id j (f u) l.maps.tasks)
              (both j u old (str_eq id j));
        keys = λ j. rw (lookup-insert id j (f u) l.maps.tasks) (keyed j u e (str_eq id j));
        only = λ j n.
            ground (arith, lookup-insert id j (f u) l.maps.tasks, eq_iff id j, l.only j n, e);
      }
    where
      both :
          (j : Bytes) (u : Task)
          → Recorded t u
          → (b : Bool)
          → IsRecorded
              (if b then some t' else lookup j tasks)
              (if b then some (f u) else lookup j l.maps.tasks)
      both j u old true = keeps u old
      both j u old false = l.known j

      keyed :
          (j : Bytes) (u : Task)
          → lookup id l.maps.tasks ≡ some u
          → (b : Bool) → KeyKnown (if b then some (f u) else lookup j l.maps.tasks) l.maps.idem
      keyed j u e true = rw (key u) (subst (λ o. KeyKnown o l.maps.idem) e (l.keys id))
      keyed j u e false = l.keys j

  -- Tasks that are dropped from memory.
  pub drop-Ledger :
      (tasks' : Table Task)
      → ((j : Bytes) → (lookup j tasks' ≡ lookup j tasks) ⊎ (lookup j tasks' ≡ none))
      → Ledger c given w tasks'
  drop-Ledger tasks' kept = record {
    safe = l.safe;
    recent = l.recent;
    journal = l.journal;
    base = l.base;
    base_folded = l.base_folded;
    base_Inv = l.base_Inv;
    updates = l.updates;
    maps = l.maps;
    folded = l.folded;
    known = λ j. elim (kept j) [ inl e ↦ rw (e) (l.known j) | inr e ↦ rw (e) tt ];
    keys = l.keys;
    only = l.only;
  }
