-- ===== src/Examples/Scrapes.antt =====
-- Scrapes at concrete inputs. A float64 is a number of milliseconds.
use rc_wnzzer.Base.{ℕ, ◌+◌, ◌/◌, ◌≡◌, refl, Bool, Bytes, bytes, List, [], ◌∷◌, ◌++◌, arith}
use rc_wnzzer.Dispatch.RetryAfter.{pos}
use rc_wnzzer.Api.Auth.{format_int}
use rc_wnzzer.Api.Probes.{handle_metrics, handle_metrics-order}
use rc_wnzzer.Metrics.{Observed, submission, attempt, observe, observe_all, how_many}
use rc_wnzzer.Metrics.Counted.{Tallied, observe_all-Tallied}
use rc_wnzzer.Examples.Queues.{out_queue}

abbrev quote : Bytes → Bytes
quote s = b'"' ∷ (s ++ b'"' ∷ [])

abbrev as_number : ℕ → Bytes
as_number n = format_int (pos n)

abbrev add : ℕ → ℕ → ℕ
add sum elapsed = sum + elapsed / 1000000

abbrev calls : List Observed
calls =
    submission (bytes "accepted")
    ∷ attempt (bytes "retryable") 503 70000000
    ∷ attempt (bytes "success") 200 30000000
    ∷ []

abbrev other_order : List Observed
other_order =
    attempt (bytes "success") 200 30000000
    ∷ attempt (bytes "retryable") 503 70000000
    ∷ submission (bytes "accepted")
    ∷ []

as_often : (f : Observed → Bool) → how_many f calls ≡ how_many f other_order
unfolding how_many
as_often f = omega arith

same_sum : (observe_all 0 add calls).hist_sum ≡ (observe_all 0 add other_order).hist_sum
unfolding observe_all observe
same_sum = refl

handle_metrics-order_example :
    handle_metrics quote as_number format_int 9 out_queue (observe_all 0 add calls)
    ≡ handle_metrics quote as_number format_int 9 out_queue (observe_all 0 add other_order)
handle_metrics-order_example =
    handle_metrics-order quote as_number format_int 0 add calls other_order 9 out_queue as_often
      same_sum

observe_all-Tallied_example : Tallied 0 add calls (observe_all 0 add calls)
observe_all-Tallied_example = observe_all-Tallied 0 add calls
