-- ===== src/Api/Receive.antt =====
-- `handleSubmit` of internal/api/api.go with the limit of the body and with `Verify` in place of their
-- results. `json.Unmarshal` and what the connection delivers are arguments.
use rc_wnzzer.Base.{
  ℕ, ◌≡◌, ◌≤◌, ◌^◌, ◌++◌, refl, ap, ◌∙◌, Bool, Bool-cases, false, Bytes, Option, none, some, List,
  inl, inr, leb, length, arith,
}
use rc_wnzzer.Base.Table.{Table}
use rc_wnzzer.Model.{State}
use rc_wnzzer.Store.Codec.{Codec, line}
use rc_wnzzer.Store.Wal.{Io, enqueue_record, crash}
use rc_wnzzer.Store.Wal.Failures.{WalOp, run_ops}
use rc_wnzzer.Queue.State.{Queue}
use rc_wnzzer.Dispatch.RetryAfter.{Int64}
use rc_wnzzer.Api.Validate.{SubmitRequest, Parsers, validate}
use rc_wnzzer.Api.Submit.{Response, submitted, Incoming, task_from, handle_submit}
use rc_wnzzer.Api.Auth.{Crypto, Signed, Verified, verified, unauthorized, verify}
use rc_wnzzer.Api.Auth.Verify.{Genuine, verify-Genuine}
use rc_wnzzer.Api.Promises.{handle_submit-durable}

abbrev pub max_body_bytes : ℕ
max_body_bytes = 2 ^ 20

abbrev pub caller_of : Verified → Option Bytes
caller_of (verified key_id) = some key_id
caller_of (unauthorized why) = none

caller_of-some : (v : Verified) (k : Bytes) → caller_of v ≡ some k → v ≡ verified k
caller_of-some (verified j) k h = ground (arith, h)
caller_of-some (unauthorized why) k h = absurd (ground (arith, h))

module _ (y : Crypto) (keys : Table Bytes) (skew : ℕ) (since : Int64 → Int64)
    (decode : Bytes → Option SubmitRequest) where
  -- What the handler makes of a request; the body is `none` if the connection breaks off.
  unfoldable pub receive : Signed → Option Bytes → Incoming
  receive r none = record { fits = false; caller = none; request = none }
  receive r (some body) = record {
    fits = leb (length body) max_body_bytes;
    caller = caller_of (verify y keys skew since r body);
    request = decode body;
  }

  module _ (c : Codec) (p : Parsers) (allow_private : Bool) (io : Io) (now : ℕ) (id : Bytes)
      (q : Queue) where
    -- `handleSubmit` on a request as it comes in.
    unfoldable pub handle_received : Signed → Option Bytes → Queue × Response
    handle_received r sent = handle_submit c p allow_private io now id (receive r sent) q

    module _ (ops : List WalOp) (n : ℕ) where
      -- What a 202 stands for.
      pub record Promised (r : Signed) (sent : Option Bytes) (q' : Queue) : Type 0 where
        pub body : Bytes
        pub request : SubmitRequest
        pub rest : Bytes
        pub arrived : sent ≡ some body
        pub within : length body ≤ max_body_bytes
        pub genuine : Genuine y keys skew since r body
        pub decoded : decode body ≡ some request
        pub valid : validate p request allow_private ≡ none
        pub durable :
            crash n (run_ops c ops q'.store)
            ≡ (q.store.file
                ++ (q.store.buf
                    ++ line c (enqueue_record io.ts (task_from now id r.key_id request))))
              ++ rest

      -- A submission that is answered 202 came with a body within the limit, under a known key, with a
      -- timestamp in the window, and signed with the key's secret over this body; the body decodes to a
      -- valid request; and whatever is appended and flushed later, and whichever of these calls fail, a
      -- crash at any moment leaves a file that begins with all that was written before and the record of
      -- the request's task under the name of that key.
      pub handle_received-Promised :
          (r : Signed) (sent : Option Bytes) {i : Bytes} {s : State} {d : Bool} {at : ℕ}
          → (handle_received r sent).1 ≡ submitted 202 i s d at
          → Promised r sent (handle_received r sent).0
      unfolding handle_received receive handle_submit
      handle_received-Promised r none {i} {s} {d} {at} h =
          let (k, u, rest, a, b, e, f) =
            handle_submit-durable c p allow_private io now id q ops n i s d at (receive r none) h in
          absurd (ground (arith, a))
      handle_received-Promised r (some body) {i} {s} {d} {at} h =
          elim (Bool-cases (leb (length body) max_body_bytes)) [
            | inr large ↦ absurd (ground (arith, large, h))
            | inl small ↦
                let (k, u, rest, a, b, e, f) =
                  handle_submit-durable c p allow_private io now id q ops n i s d at
                    (receive r (some body)) h in
                let (same, real) =
                  verify-Genuine y keys skew since r body k
                    (caller_of-some (verify y keys skew since r body) k a) in
                record {
                  body = body;
                  request = u;
                  rest = rest;
                  arrived = refl;
                  within = ground (arith, small);
                  genuine = real;
                  decoded = b;
                  valid = e;
                  durable =
                      f
                      ∙ ap
                          (λ x.
                            (q.store.file
                              ++ (q.store.buf
                                  ++ line c (enqueue_record io.ts (task_from now id x u))))
                            ++ rest)
                          same;
                }
          ]
