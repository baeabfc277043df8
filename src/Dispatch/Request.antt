-- ===== src/Dispatch/Request.antt =====
-- `doRequest` and `decodeBody` of internal/dispatch/dispatch.go. Arguments: `canon`, the form in which
-- net/http keeps a header's name; base64; what `http.NewRequest` refuses; and the answer to the request.
use rc_wnzzer.Base.{
  ℕ, ◌≡◌, ◌≢◌, ◌∙◌, Bytes, bytes, str_eq, eq_iff, Option, none, some, [], ◌∷◌, take, Bool-cases,
  if◌then◌else◌, inl, inr, arith,
}
use rc_wnzzer.Base.Table.{Table, lookup, insert, lookup-insert}
use rc_wnzzer.Model.{Target, Task}
use rc_wnzzer.Api.Auth.{format_int}
use rc_wnzzer.Dispatch.RetryAfter.{pos}
use rc_wnzzer.Dispatch.Outcome.{RequestError, bad_request_spec}
use rc_wnzzer.Dispatch.Deliver.{Reply}

-- A request as it is sent.
pub record Request : Type 0 where
  pub method : Bytes
  pub url : Bytes
  pub body : Bytes
  pub headers : Table Bytes

-- What `client.Do` returns: the text and the kind of an error, or a response.
pub data Sent : Type 0 where
  failed : (msg : Bytes) → RequestError → Sent
  responded : (code : ℕ) (retry_after body : Bytes) → Sent

abbrev pub body_snippet_max : ℕ
body_snippet_max = 512

-- `decodeBody`
unfoldable pub decode_body : (Bytes → Option Bytes) → Target → Option Bytes
decode_body base64 g =
    if str_eq g.body_encoding []
    then some g.body
    else if str_eq g.body_encoding (bytes "utf8")
    then some g.body
    else if str_eq g.body_encoding (bytes "base64")
    then base64 g.body
    else none

module _ (canon : Bytes → Bytes) where
  -- `Header.Set` and `Header.Get`
  abbrev pub set_header : Bytes → Bytes → Table Bytes → Table Bytes
  set_header k v h = insert (canon k) v h

  abbrev pub get_header : Bytes → Table Bytes → Bytes
  get_header k h = elim (lookup (canon k) h) [ none ↦ [] | some v ↦ v ]

  -- The caller's headers.
  abbrev set_all : Table Bytes → Table Bytes → Table Bytes
  set_all [] h = h
  set_all ((k, v) ∷ hs) h = set_all hs (set_header k v h)

  -- The service's own headers, set after the caller's.
  unfoldable pub request_headers : Task → ℕ → Table Bytes
  request_headers t attempt =
      let own = set_header (bytes "X-Notify-Id") t.id (set_all t.target.headers []) in
      let all = set_header (bytes "X-Notify-Attempt") (format_int (pos attempt)) own in
      if str_eq (get_header (bytes "User-Agent") all) []
      then set_header (bytes "User-Agent") (bytes "notifyd/1.0") all
      else all

  abbrev pub method_of : Target → Bytes
  method_of g = if str_eq g.method [] then bytes "POST" else g.method

  abbrev pub bad_request : Bytes → Reply
  bad_request msg = record {
    code = 0;
    retry_after = none;
    snippet = msg;
    err = some bad_request_spec;
  }

  unfoldable pub reply_of : Sent → Reply
  reply_of (failed msg e) = record { code = 0; retry_after = none; snippet = msg; err = some e }
  reply_of (responded code retry_after body) = record {
    code = code;
    retry_after = some retry_after;
    snippet = take body_snippet_max body;
    err = none;
  }

  -- `doRequest`; `undecodable` is the text of the error of a body that cannot be decoded.
  unfoldable pub do_request :
      (base64 : Bytes → Option Bytes) (undecodable : Bytes) (refuses : Bytes → Bytes → Option Bytes)
      (send : Request → Sent)
      → Task
      → ℕ
      → Reply
  unfolding reply_of
  do_request base64 undecodable refuses send t attempt = elim (decode_body base64 t.target) [
    | none ↦ bad_request undecodable
    | some body ↦ elim (refuses (method_of t.target) t.target.url) [
      | some msg ↦ bad_request msg
      | none ↦ reply_of (
          send (record {
            method = method_of t.target;
            url = t.target.url;
            body = body;
            headers = request_headers t attempt;
          }))
    ]
  ]

  get-set-same : (k v : Bytes) (h : Table Bytes) → get_header k (set_header k v h) ≡ v
  get-set-same k v h =
      ground (arith, lookup-insert (canon k) (canon k) v h, eq_iff (canon k) (canon k))

  get-set-other :
      (k j v : Bytes) (h : Table Bytes)
      → canon j ≢ canon k
      → get_header j (set_header k v h) ≡ get_header j h
  get-set-other k j v h n =
      ground (arith, lookup-insert (canon k) (canon j) v h, eq_iff (canon k) (canon j), n)

  -- Whatever headers the caller has set, a request carries the task's id and the number of the attempt
  -- under the names for them, and a User-Agent, if the names of these three headers are distinct.
  pub request_headers-own :
      (t : Task) (attempt : ℕ)
      → canon (bytes "X-Notify-Id") ≢ canon (bytes "X-Notify-Attempt")
      → canon (bytes "X-Notify-Id") ≢ canon (bytes "User-Agent")
      → canon (bytes "X-Notify-Attempt") ≢ canon (bytes "User-Agent")
      → let h = request_headers t attempt in
        (get_header (bytes "X-Notify-Id") h ≡ t.id)
        × (get_header (bytes "X-Notify-Attempt") h ≡ format_int (pos attempt))
        × (get_header (bytes "User-Agent") h ≢ [])
  unfolding request_headers
  request_headers-own t attempt a b d =
      let id = bytes "X-Notify-Id" in
      let number = bytes "X-Notify-Attempt" in
      let agent = bytes "User-Agent" in
      let own = set_header id t.id (set_all t.target.headers []) in
      let all = set_header number (format_int (pos attempt)) own in
      let has_id : get_header id all ≡ t.id =
        get-set-other number id (format_int (pos attempt)) own a
        ∙ get-set-same id t.id (set_all t.target.headers []) in
      let has_number : get_header number all ≡ format_int (pos attempt) =
        get-set-same number (format_int (pos attempt)) own in
      elim (Bool-cases (str_eq (get_header agent all) [])) [
        | inl bare ↦ rw (bare) (
          get-set-other agent id (bytes "notifyd/1.0") all b ∙ has_id,
          get-set-other agent number (bytes "notifyd/1.0") all d ∙ has_number,
          λ e. ground (arith, e, get-set-same agent (bytes "notifyd/1.0") all),
        )
        | inr given ↦
            rw (given) (has_id, has_number, ground (arith, given, eq_iff (get_header agent all) []))
      ]
