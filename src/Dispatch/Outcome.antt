-- ===== src/Dispatch/Outcome.antt =====
-- `Classify` of internal/dispatch/backoff.go and `permanentReason` of dispatch.go.
use rc_wnzzer.Base.{
  ℕ, ◌≤◌, ◌<◌, ◌≡◌, ◌≢◌, ◌&&◌, ◌||◌, Bytes, bytes, Option, none, some, ltb, leb, ◌==◌,
  if◌then◌else◌, arith,
}

pub data Outcome : Type 0 where
  success retryable permanent : Outcome

-- What `errors.Is` tells of the error of a request: one of the two sentinels, or any other.
pub data RequestError : Type 0 where
  blocked_target bad_request_spec other_error : RequestError

classify_error : RequestError → Outcome
classify_error blocked_target = permanent
classify_error bad_request_spec = permanent
classify_error other_error = retryable

classify_code : ℕ → Outcome
classify_code code =
    if leb 200 code && ltb code 300
    then success
    else if (code == 408) || (code == 429)
    then retryable
    else if leb 500 code
    then retryable
    else if leb 300 code && ltb code 400
    then permanent
    else if leb 400 code
    then permanent
    else retryable

-- `Classify`
unfoldable pub classify : ℕ → Option RequestError → Outcome
unfolding classify_error classify_code
classify code none = classify_code code
classify code (some e) = classify_error e

-- `permanentReason`
unfoldable pub permanent_reason : Option RequestError → Bytes
permanent_reason none = bytes "permanent_response"
permanent_reason (some blocked_target) = bytes "blocked_target"
permanent_reason (some bad_request_spec) = bytes "bad_request_spec"
permanent_reason (some other_error) = bytes "permanent_error"

-- The codes that the specification of the service lists as permanent: redirects, and client errors
-- other than 408 and 429.
abbrev pub IsPermanentCode : ℕ → Type 0
IsPermanentCode code = (300 ≤ code) × (code < 500) × (code ≢ 408) × (code ≢ 429)

-- An attempt is a success exactly if there is no error and the code is 2xx.
pub classify-success :
    (code : ℕ) (err : Option RequestError)
    → (classify code err ≡ success → (err ≡ none) × (200 ≤ code) × (code < 300))
      × (err ≡ none → 200 ≤ code → code < 300 → classify code err ≡ success)
unfolding classify
classify-success code none = ground arith
classify-success code (some blocked_target) = ground arith
classify-success code (some bad_request_spec) = ground arith
classify-success code (some other_error) = ground arith

-- A response is a permanent failure exactly if its code is a redirect or a client error other than
-- 408 and 429.
pub classify-permanent :
    (code : ℕ)
    → (classify code none ≡ permanent → IsPermanentCode code)
      × (IsPermanentCode code → classify code none ≡ permanent)
unfolding classify
classify-permanent code = ((λ h. ground (arith, h)), (λ h. ground (arith, h.0, h.1, h.2, h.3)))
