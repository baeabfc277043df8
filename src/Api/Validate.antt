-- ===== src/Api/Validate.antt =====
-- `validate` of internal/api/api.go. `strings.ToUpper` and the parsers of net are arguments.
use rc_wnzzer.Base.{
  ℕ, ◌≤◌, ◌≡◌, ◌≢◌, ◌⊎◌, Bool, true, not, ◌&&◌, ◌||◌, Bytes, bytes, str_eq, eq_iff, Option, none,
  some, [], length, ltb, if◌then◌else◌, arith,
}
use rc_wnzzer.Model.{Target, Policy}
use rc_wnzzer.Dispatch.Target.{Ip, Url, TargetError, blocked, validate_target_url}

pub record SubmitRequest : Type 0 where
  pub idem_key : Bytes
  pub target : Target
  pub policy : Policy

-- The codes of `validate`.
pub data Rejection : Type 0 where
  missing_idempotency_key idempotency_key_too_long missing_target_url method_not_allowed
        blocked_target invalid_target invalid_body_encoding :
      Rejection

abbrev pub max_idem_key_len : ℕ
max_idem_key_len = 128

-- `allowedMethods`
abbrev pub is_allowed_method : Bytes → Bool
is_allowed_method m =
    str_eq m (bytes "POST")
    || (str_eq m (bytes "PUT")
        || (str_eq m (bytes "PATCH") || (str_eq m (bytes "GET") || str_eq m (bytes "DELETE"))))

abbrev is_known_encoding : Bytes → Bool
is_known_encoding e = str_eq e [] || (str_eq e (bytes "utf8") || str_eq e (bytes "base64"))

-- The parts of the environment that `validate` calls.
pub record Parsers : Type 0 where
  pub to_upper : Bytes → Bytes
  pub parse_url : Bytes → Option Url
  pub parse_ip : Bytes → Option Ip

of_target : Option TargetError → Option Rejection
of_target none = none
of_target (some (blocked r)) = some blocked_target
of_target (some _) = some invalid_target

after_target : Bytes → Option Rejection → Option Rejection
after_target encoding (some r) = some r
after_target encoding none = if is_known_encoding encoding then none else some invalid_body_encoding

-- `validate`; `none` is the empty code.
unfoldable pub validate : Parsers → SubmitRequest → Bool → Option Rejection
unfolding of_target after_target
validate p r allow_private =
    if str_eq r.idem_key []
    then some missing_idempotency_key
    else if ltb max_idem_key_len (length r.idem_key)
    then some idempotency_key_too_long
    else if str_eq r.target.url []
    then some missing_target_url
    else if not (str_eq r.target.method []) && not (is_allowed_method (p.to_upper r.target.method))
    then some method_not_allowed
    else after_target r.target.body_encoding
        (of_target (validate_target_url p.parse_ip p.parse_url r.target.url allow_private))

-- What a valid request has.
pub record IsValid (p : Parsers) (r : SubmitRequest) (allow_private : Bool) : Type 0 where
  pub has_key : r.idem_key ≢ []
  pub short_key : length r.idem_key ≤ max_idem_key_len
  pub has_url : r.target.url ≢ []
  pub method : (r.target.method ≡ []) ⊎ (is_allowed_method (p.to_upper r.target.method) ≡ true)
  pub target : validate_target_url p.parse_ip p.parse_url r.target.url allow_private ≡ none
  pub encoding :
      (r.target.body_encoding ≡ [])
      ⊎ ((r.target.body_encoding ≡ bytes "utf8") ⊎ (r.target.body_encoding ≡ bytes "base64"))

-- A request that `validate` lets through has a key of at most 128 bytes, an address that
-- `ValidateTargetURL` lets through, no method or an allowed one, and a known encoding.
pub validate-IsValid :
    (p : Parsers) (r : SubmitRequest) (allow_private : Bool)
    → validate p r allow_private ≡ none
    → IsValid p r allow_private
unfolding validate
validate-IsValid p r allow_private h =
    let g = r.target in
    let key = eq_iff r.idem_key [] in
    let e = g.body_encoding in
    record {
      has_key = ground (arith, h, key);
      short_key = ground (arith, h);
      has_url = ground (arith, h, eq_iff g.url []);
      method = ground (arith, h, eq_iff g.method []);
      target = ground (arith, h);
      encoding = ground (arith, h, eq_iff e [], eq_iff e (bytes "utf8"), eq_iff e (bytes "base64"));
    }
