-- ===== src/Program/Courses/Submits.antt =====
-- What `handleSubmit` of internal/api/api.go does to the queue: nothing, or one `Submit`.
use rc_wnzzer.Base.{
  ℕ, ◌≡◌, refl, inl, inr, Bool, true, false, Bytes, Option, Option-cases, none, some,
}
use rc_wnzzer.Store.Codec.{Codec}
use rc_wnzzer.Store.Wal.{Io}
use rc_wnzzer.Queue.State.{Queue}
use rc_wnzzer.Queue.Ops.{submit}
use rc_wnzzer.Api.Validate.{SubmitRequest, Parsers, validate}
use rc_wnzzer.Api.Submit.{Incoming, task_from, take_task, take_request, handle_submit}

module _ (c : Codec) (p : Parsers) (allow_private : Bool) (io : Io) (now : ℕ) (id : Bytes)
    (q : Queue) where
  -- The queue after a request, by what the request is.
  pub data Handled (caller : Option Bytes) (request : Option SubmitRequest) : Queue → Type 0 where
    refuses : Handled caller request q
    hands_on :
        (key_id : Bytes) (r : SubmitRequest)
        → caller ≡ some key_id
        → request ≡ some r
        → validate p r allow_private ≡ none
        → Handled caller request (submit c io (task_from now id key_id r) q).0

  parts-Handled :
      (fits : Bool) (caller : Option Bytes) (request : Option SubmitRequest)
      → Handled caller request
          (handle_submit c p allow_private io now id
            (record { fits = fits; caller = caller; request = request })
            q).0
  unfolding handle_submit take_request take_task
  parts-Handled false caller request = refuses
  parts-Handled true none request = refuses
  parts-Handled true (some key_id) none = refuses
  parts-Handled true (some key_id) (some r) = elim (Option-cases (validate p r allow_private)) [
    | inr (why, e) ↦ rw (e, take_request) refuses
    | inl e ↦ rw (e, take_request) (hands_on key_id r refl refl e)
  ]

  pub handle_submit-Handled :
      (incoming : Incoming)
      → Handled incoming.caller incoming.request
          (handle_submit c p allow_private io now id incoming q).0
  handle_submit-Handled incoming = parts-Handled incoming.fits incoming.caller incoming.request
