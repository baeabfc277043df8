-- ===== src/Queue/Ledger/Admits.antt =====
-- `Submit` of internal/queue/queue.go writes the submission to the journal.
use rc_wnzzer.Base.{
  ◌≡◌, refl, sym, ap, ◌∙◌, Bool, true, false, Bytes, str_eq, eq_iff, Option, none, some, inl, inr,
  List, [], ◌∷◌, ◌++◌, occurs, occurs-cons, if◌then◌else◌, Bool-cases, arith,
}
use rc_wnzzer.Base.Table.{Table, lookup, insert, lookup-insert}
use rc_wnzzer.Model.{Task, persisted}
use rc_wnzzer.Store.Codec.{Codec}
use rc_wnzzer.Store.Wal.{Wal, Io, none_fails, append, enqueue_record}
use rc_wnzzer.Store.Wal.Journal.{append-safe}
use rc_wnzzer.Store.Replay.Recovery.{fold_records}
use rc_wnzzer.Queue.Ops.{enqueued}
use rc_wnzzer.Queue.Restore.{Maps, index_key, from_enq, restore_record}
use rc_wnzzer.Queue.Restore.Folded.{fold-append}
use rc_wnzzer.Queue.Restore.Sound.{insert-MapsInv, lookup-index_key}
use rc_wnzzer.Queue.Restore.Remembers.{KeyKnown}
use rc_wnzzer.Queue.Ledger.{IsRecorded, Ledger, no_maps}
use rc_wnzzer.Queue.Ledger.Writes.{Ledger-maps}

module _ {c : Codec} {given : List Bytes} {w : Wal} {tasks : Table Task}
    (l : Ledger c given w tasks) where
  -- A submission under a new id, whose append is synced, makes all records safe.
  pub submit-Ledger :
      (io : Io) (t : Task)
      → io.fault ≡ none_fails
      → c.is_utf8 (enqueue_record io.ts t) ≡ true
      → occurs t.id given ≡ 0
      → t.attempts ≡ 0
      → Ledger c
          (t.id ∷ given)
          (append c io (enqueue_record io.ts t) true w).0
          (insert t.id (enqueued t) tasks)
  unfolding restore_record
  submit-Ledger io t ok text fresh new =
      let r = enqueue_record io.ts t in
      let u = from_enq io.ts (persisted t) in
      let m : Maps = record {
        tasks = insert t.id u l.maps.tasks;
        idem = index_key t.idem_key t.id l.maps.idem;
      } in
      let wrote : restore_record (c.reread r) l.maps ≡ some m =
        ap (λ x. restore_record x l.maps) (c.reread_utf8 r text) in
      let folded : fold_records c restore_record (l.safe ++ (l.recent ++ r ∷ [])) no_maps ≡ some m =
        fold-append c l.safe (l.recent ++ r ∷ []) no_maps l.base l.base_folded
        ∙ fold-append c l.recent (r ∷ []) l.base l.maps l.folded
        ∙ rw (wrote, fold_records) refl in
      record {
        safe = l.safe ++ (l.recent ++ r ∷ []);
        recent = [];
        journal = append-safe c io r ok l.journal;
        base = m;
        base_folded = folded;
        base_Inv =
            insert-MapsInv l.maps (Ledger-maps l).0 (persisted t) u (l.only t.id fresh) refl refl;
        updates = tt;
        maps = m;
        folded = refl;
        known = λ j.
            rw (lookup-insert t.id j (enqueued t) tasks, lookup-insert t.id j u l.maps.tasks)
              (both j (str_eq t.id j));
        keys = λ j. rw (lookup-insert t.id j u l.maps.tasks) (keyed j (str_eq t.id j));
        only = λ j n. ground (
          arith,
          lookup-insert t.id j u l.maps.tasks,
          eq_iff t.id j,
          occurs-cons j t.id given,
          l.only j,
          n,
        );
      }
    where
      both :
          (j : Bytes) (b : Bool)
          → IsRecorded
              (if b then some (enqueued t) else lookup j tasks)
              (if b then some (from_enq io.ts (persisted t)) else lookup j l.maps.tasks)
      both j true = record {
        submission = record {
          same_id = refl;
          same_key = refl;
          same_policy = refl;
          same_caller = refl;
        };
        attempts = sym new;
        target = inl refl;
        over = refl;
        end = inl refl;
        reason = inl refl;
        due = inr (omega arith);
      }
      both j false = l.known j

      indexed :
          (o : Option Task)
          → KeyKnown o l.maps.idem
          → KeyKnown o (index_key t.idem_key t.id l.maps.idem)
      indexed none k = tt
      indexed (some v) (inl e) = inl e
      indexed (some v) (inr n) =
          inr (ground (arith, lookup-index_key t.idem_key t.id v.idem_key l.maps.idem, n))

      keyed :
          (j : Bytes) (b : Bool)
          → KeyKnown
              (if b then some (from_enq io.ts (persisted t)) else lookup j l.maps.tasks)
              (index_key t.idem_key t.id l.maps.idem)
      keyed j true = elim (Bool-cases (str_eq t.idem_key [])) [
        | inl bare ↦ inl (ground (arith, bare, eq_iff t.idem_key []))
        | inr named ↦ inr (
            ground (
              arith,
              lookup-index_key t.idem_key t.id t.idem_key l.maps.idem,
              named,
              eq_iff t.idem_key t.idem_key,
            ))
      ]
      keyed j false = indexed (lookup j l.maps.tasks) (l.keys j)
