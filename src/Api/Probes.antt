-- ===== src/Api/Probes.antt =====
-- `handleHealth` and `handleMetrics` of internal/api/api.go.
use rc_wnzzer.Base.{ℕ, ◌≡◌, ap, Bool, Bytes, bytes, List, [], ◌∷◌}
use rc_wnzzer.Base.Table.{Table}
use rc_wnzzer.Queue.State.{Queue}
use rc_wnzzer.Queue.Counts.{counts}
use rc_wnzzer.Dispatch.RetryAfter.{Int64}
use rc_wnzzer.Metrics.{Registry, Observed, observe_all, how_many}
use rc_wnzzer.Metrics.Render.{Snapshot, render}
use rc_wnzzer.Metrics.Scrapes.{render-order}

-- The status and the fields of the JSON object.
abbrev pub handle_health : ℕ × Table Bytes
handle_health = (200, (bytes "status", bytes "ok") ∷ [])

abbrev pub snapshot_of : Queue → Snapshot
snapshot_of q = record {
  states = (counts q).per_state;
  queue_depth = (counts q).depth;
  journal_bytes = q.store.stats.bytes;
  oldest_pending = (counts q).oldest;
}

module _ {F : Type 0} (quote : Bytes → Bytes) (format_g : F → Bytes)
    (format_thousandths : Int64 → Bytes) where
  -- The status and the text; `now` is what `model.NowMS()` returns in `Render`.
  unfoldable pub handle_metrics : (now : ℕ) → Queue → Registry F → ℕ × Bytes
  handle_metrics now q r = (200, render quote format_g format_thousandths now (snapshot_of q) r)

  -- If of two sequences of calls of the registry every kind of call stands as often in one as in the
  -- other, and the seconds add up to the same float, then a scrape is answered by the same text after
  -- both.
  pub handle_metrics-order :
      (nothing : F) (add_seconds : F → ℕ → F) (os os' : List Observed) (now : ℕ) (q : Queue)
      → ((f : Observed → Bool) → how_many f os ≡ how_many f os')
      → (observe_all nothing add_seconds os).hist_sum
        ≡ (observe_all nothing add_seconds os').hist_sum
      → handle_metrics now q (observe_all nothing add_seconds os)
        ≡ handle_metrics now q (observe_all nothing add_seconds os')
  unfolding handle_metrics
  handle_metrics-order nothing add_seconds os os' now q same sums =
      ap (λ s. (200, s))
        (render-order nothing add_seconds quote format_g format_thousandths os os' now
          (snapshot_of q) same sums)
