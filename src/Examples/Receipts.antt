-- ===== src/Examples/Receipts.antt =====
-- A signed submission at concrete inputs.
use rc_wnzzer.Base.{
  ◌≡◌, refl, false, Bytes, bytes, Option, none, some, [], ◌∷◌, str_eq, if◌then◌else◌,
}
use rc_wnzzer.Base.Table.{lookup}
use rc_wnzzer.Model.{pending}
use rc_wnzzer.Store.Wal.{append_enqueue, write, flush, sync_fails}
use rc_wnzzer.Store.Wal.Failures.{ticks}
use rc_wnzzer.Queue.State.{new, schedule}
use rc_wnzzer.Queue.Ops.{submit, submit_new}
use rc_wnzzer.Dispatch.Target.{validate_target_url}
use rc_wnzzer.Api.Validate.{SubmitRequest, validate}
use rc_wnzzer.Api.Submit.{submitted, take_task, take_request, handle_submit}
use rc_wnzzer.Api.Receive.{receive, handle_received, Promised, handle_received-Promised}
use rc_wnzzer.Examples.Json.{sample_codec}
use rc_wnzzer.Examples.Inputs.{io, fresh_queue}
use rc_wnzzer.Examples.Requests.{request, parsers}
use rc_wnzzer.Examples.Signatures.{
  sample_crypto, keys, since_now, signed_request, sign-verify_example,
}

abbrev decode : Bytes → Option SubmitRequest
decode s = if str_eq s (bytes "{}") then some request else none

is_received :
    (handle_received sample_crypto keys 5 since_now decode sample_codec parsers false io 5
      (bytes "1")
      fresh_queue
      signed_request
      (some (bytes "{}"))).1
    ≡ submitted 202 (bytes "1") pending false 5
unfolding handle_received receive handle_submit take_request take_task validate validate_target_url
    submit submit_new append_enqueue schedule new lookup write flush
is_received = rw (sign-verify_example) refl

handle_received-Promised_example :
    Promised sample_crypto keys 5 since_now decode sample_codec parsers false io 5
      (bytes "1")
      fresh_queue
      (ticks sync_fails ∷ [])
      2
      signed_request
      (some (bytes "{}"))
      (handle_received sample_crypto keys 5 since_now decode sample_codec parsers false io 5
        (bytes "1")
        fresh_queue
        signed_request
        (some (bytes "{}"))).0
handle_received-Promised_example =
    handle_received-Promised sample_crypto keys 5 since_now decode sample_codec parsers false io 5
      (bytes "1") fresh_queue (ticks sync_fails ∷ []) 2 signed_request (some (bytes "{}"))
      is_received
