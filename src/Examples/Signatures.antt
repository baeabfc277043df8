-- ===== src/Examples/Signatures.antt =====
-- Signed requests at concrete inputs.
use rc_wnzzer.Base.{
  ℕ, ◌+◌, ◌-◌, ◌*◌, ◌%◌, ◌<◌, ◌≡◌, refl, leb, if◌then◌else◌, Bytes, bytes, some, [], ◌∷◌, arith,
}
use rc_wnzzer.Base.Table.{Table, lookup}
use rc_wnzzer.Store.Codec.{HasNoNewline}
use rc_wnzzer.Dispatch.RetryAfter.{Int64, pos, neg}
use rc_wnzzer.Api.Auth.{Crypto, Signed, verified, format_int, sign, verify}
use rc_wnzzer.Api.Auth.Canonical.{canonical_string-injective}
use rc_wnzzer.Api.Auth.Verify.{Genuine, verify-Genuine, sign-verify}

pub byte_sum : Bytes → ℕ
byte_sum [] = 7
byte_sum (b ∷ s) = (b + byte_sum s * 3) % 256

pub byte_sum_bound : (s : Bytes) → byte_sum s < 256
unfolding byte_sum
byte_sum_bound [] = omega arith
byte_sum_bound (b ∷ s) = omega arith

-- A stand-in for the hash functions.
abbrev pub sample_crypto : Crypto
sample_crypto = record {
  sha256 = λ s. byte_sum s ∷ [];
  hmac = λ secret msg. byte_sum secret ∷ byte_sum msg ∷ [];
  to_upper = λ s. s;
  digest = λ s. (byte_sum_bound s, tt);
  upper_line = λ s h. h;
}

abbrev pub keys : Table Bytes
keys = (bytes "a", bytes "s") ∷ []

abbrev pub since_now : Int64 → Int64
since_now (pos n) = if leb n 100 then pos (100 - n) else neg (n - 100)
since_now (neg n) = pos (100 + n)

abbrev pub signed_request : Signed
signed_request = record {
  method = bytes "POST";
  path = bytes "/v1";
  key_id = bytes "a";
  timestamp = format_int (pos 98);
  signature = sign sample_crypto (bytes "s") (bytes "POST") (bytes "/v1") (pos 98) (bytes "{}");
}

known : lookup signed_request.key_id keys ≡ some (bytes "s")
unfolding lookup
known = refl

pub sign-verify_example :
    verify sample_crypto keys 5 since_now signed_request (bytes "{}") ≡ verified (bytes "a")
sign-verify_example =
    sign-verify sample_crypto keys 5 since_now signed_request (bytes "{}") (bytes "s") (pos 98)
      known (omega arith) refl refl refl

verify-Genuine_example :
    (bytes "a" ≡ bytes "a") × Genuine sample_crypto keys 5 since_now signed_request (bytes "{}")
verify-Genuine_example =
    verify-Genuine sample_crypto keys 5 since_now signed_request (bytes "{}") (bytes "a")
      sign-verify_example

get_line : HasNoNewline (bytes "GET")
get_line = (ground arith, (ground arith, (ground arith, tt)))

canonical_string-injective_example :
    (bytes "GET" ≡ bytes "GET")
    × (bytes "/\n" ≡ bytes "/\n")
    × (pos 98 ≡ pos 98)
    × (sample_crypto.sha256 [] ≡ sample_crypto.sha256 [])
canonical_string-injective_example =
    canonical_string-injective sample_crypto (bytes "GET") (bytes "GET") (bytes "/\n") (bytes "/\n")
      (pos 98) (pos 98) [] [] get_line get_line (omega arith) (omega arith) refl
