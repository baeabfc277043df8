-- ===== src/Examples/Logs.antt =====
-- The journal at concrete inputs.
use rc_wnzzer.Base.{length, ◌≤◌, ℕ, ◌≡◌, refl, false, bytes, [], ◌∷◌, ◌++◌, take}
use rc_wnzzer.Store.Record.{Record}
use rc_wnzzer.Store.Codec.{lines}
use rc_wnzzer.Store.Wal.{Wal, none_fails, no_fault, append, compact, done_record, reopen}
use rc_wnzzer.Store.Wal.Journal.{IsJournal, append-recent, compact-safe}
use rc_wnzzer.Store.Replay.{ReplayFault, replay}
use rc_wnzzer.Store.Replay.Recovery.{fold_records, recovered, replay_result, replay-crash}
use rc_wnzzer.Queue.Restore.{Maps, restore_record}
use rc_wnzzer.Examples.Json.{sample_codec}
use rc_wnzzer.Examples.Inputs.{killed, io, journal, enqueue}

abbrev done_line : Record
done_line = done_record 9 (bytes "1") 1 200 []

abbrev compacted : Wal
compacted = (compact sample_codec no_fault (enqueue ∷ []) journal).0

compacted-IsJournal : IsJournal sample_codec (enqueue ∷ []) [] compacted
compacted-IsJournal = compact-safe sample_codec (enqueue ∷ []) journal

abbrev written : Wal
written = (append sample_codec io done_line false compacted).0

written-IsJournal : IsJournal sample_codec (enqueue ∷ []) ([] ++ done_line ∷ []) written
written-IsJournal = append-recent sample_codec io done_line refl compacted-IsJournal

abbrev no_maps : Maps
no_maps = record { tasks = []; idem = [] }

replay-crash_example :
    (m : ℕ) × (k : ℕ) × (length (lines sample_codec (enqueue ∷ [])) ≤ k)
    × (k ≤ length (lines sample_codec ((enqueue ∷ []) ++ take m ([] ++ done_line ∷ []))))
    × (replay sample_codec restore_record ReplayFault.no_fault none_fails no_maps
          (reopen killed written)
        ≡ replay_result sample_codec restore_record
            (recovered sample_codec restore_record k
              ((enqueue ∷ []) ++ take m ([] ++ done_line ∷ [])))
            (fold_records sample_codec restore_record
              ((enqueue ∷ []) ++ take m ([] ++ done_line ∷ []))
              no_maps))
replay-crash_example =
    replay-crash sample_codec restore_record none_fails killed (enqueue ∷ []) ([] ++ done_line ∷ [])
      written no_maps written-IsJournal
