-- ===== src/Api/Auth.antt =====
-- internal/api/auth.go: signing and verifying requests. SHA-256 and HMAC are parameters; a digest is
-- a list of bytes below 256, and the mapping of a method to upper case makes no newline.
pub mod Decimal
pub mod Canonical
pub mod Verify
use rc_wnzzer.Base.{
  ℕ, zero, suc, ◌+◌, ◌/◌, ◌%◌, ◌<◌, Bool, true, false, Bytes, bytes, str_eq, Option, none, some,
  List, [], ◌∷◌, ◌++◌, ltb, if◌then◌else◌,
}
use rc_wnzzer.Base.Table.{Table, lookup}
use rc_wnzzer.Store.Codec.{newline, HasNoNewline}
use rc_wnzzer.Dispatch.RetryAfter.{Int64, pos, neg, atoi}

abbrev pub AreBytes : Bytes → Type 0
AreBytes [] = Unit
AreBytes (b ∷ s) = (b < 256) × AreBytes s

-- crypto/sha256, crypto/hmac and strings.ToUpper.
pub record Crypto : Type 0 where
  pub sha256 : Bytes → Bytes
  pub hmac : (secret msg : Bytes) → Bytes
  pub to_upper : Bytes → Bytes
  pub digest : (s : Bytes) → AreBytes (sha256 s)
  pub upper_line : (s : Bytes) → HasNoNewline s → HasNoNewline (to_upper s)

-- `hex.EncodeToString`
abbrev pub hex_digit : ℕ → ℕ
hex_digit n = if ltb n 10 then n + b'0' else n + 87

unfoldable pub hex : Bytes → Bytes
hex [] = []
hex (b ∷ s) = hex_digit (b / 16) ∷ hex_digit (b % 16) ∷ hex s

-- The decimal digits of a number below 10 ^ fuel.
unfoldable pub format_from : ℕ → ℕ → Bytes
format_from zero n = []
format_from (suc k) n =
    let rest = format_from k (n / 10) in
    if ltb n 10 then (n + b'0') ∷ [] else rest ++ (n % 10 + b'0') ∷ []

-- `strconv.FormatInt` in base 10; an int64 has at most 19 digits.
unfoldable pub format_int : Int64 → Bytes
format_int (pos n) = format_from 19 n
format_int (neg zero) = format_from 19 0
format_int (neg (suc n)) = b'-' ∷ format_from 19 (suc n)

-- `strings.Join`
unfoldable pub join : Bytes → List Bytes → Bytes
join sep [] = []
join sep (s ∷ []) = s
join sep (s ∷ t ∷ ss) = s ++ (sep ++ join sep (t ∷ ss))

abbrev pub sig_version : Bytes
sig_version = bytes "v1"

-- What `Verify` reads of a request; a missing header is empty.
pub record Signed : Type 0 where
  pub method : Bytes
  pub path : Bytes
  pub key_id : Bytes
  pub timestamp : Bytes
  pub signature : Bytes

pub data AuthError : Type 0 where
  unknown_key bad_timestamp out_of_window bad_signature : AuthError

pub data Verified : Type 0 where
  verified : (key_id : Bytes) → Verified
  unauthorized : AuthError → Verified

-- `d > a.skew || d < -a.skew`
abbrev pub is_skewed : ℕ → Int64 → Bool
is_skewed skew (pos d) = ltb skew d
is_skewed skew (neg d) = ltb skew d

module _ (y : Crypto) where
  -- `CanonicalString`
  unfoldable pub canonical_string : (method path : Bytes) (ts : Int64) (body : Bytes) → Bytes
  canonical_string method path ts body =
      join (newline ∷ [])
        (sig_version ∷ y.to_upper method ∷ path ∷ format_int ts ∷ hex (y.sha256 body) ∷ [])

  -- `Sign`
  unfoldable pub sign : (secret method path : Bytes) (ts : Int64) (body : Bytes) → Bytes
  sign secret method path ts body = hex (y.hmac secret (canonical_string method path ts body))

  -- `Verify` behind the window.
  check_signature : Bytes → Int64 → Signed → Bytes → Verified
  check_signature secret ts r body =
      if str_eq (sign secret r.method r.path ts body) r.signature
      then verified r.key_id
      else unauthorized bad_signature

  check_time : (Int64 → Int64) → ℕ → Bytes → Option Int64 → Signed → Bytes → Verified
  check_time since skew secret none r body = unauthorized bad_timestamp
  check_time since skew secret (some ts) r body =
      if is_skewed skew (since ts)
      then unauthorized out_of_window
      else check_signature secret ts r body

  -- `Verify`; `since` is `time.Since(time.Unix(ts, 0))`.
  unfoldable pub verify :
      (keys : Table Bytes) (skew : ℕ) (since : Int64 → Int64) → Signed → (body : Bytes) → Verified
  unfolding check_time check_signature
  verify keys skew since r body = elim (lookup r.key_id keys) [
    | none ↦ unauthorized unknown_key
    | some secret ↦ check_time since skew secret (atoi r.timestamp) r body
  ]

abbrev is_verified : Verified → Bool
is_verified (verified key_id) = true
is_verified (unauthorized why) = false

-- `authed`: a request without a body.
unfoldable pub authed :
    Crypto → (keys : Table Bytes) (skew : ℕ) (since : Int64 → Int64) → Signed → Bool
authed y keys skew since r = is_verified (verify y keys skew since r [])
