-- ===== src/Api/Auth/Verify.antt =====
-- `Verify` of internal/api/auth.go: which requests it lets in.
use rc_wnzzer.Base.{
  ℕ, ◌≡◌, ap, ◌∙◌, Bytes, str_eq, eq_iff, Option-cases, Bool-cases, inl, inr, some, false, arith,
}
use rc_wnzzer.Base.Table.{Table, lookup}
use rc_wnzzer.Dispatch.RetryAfter.{Int64, atoi}
use rc_wnzzer.Api.Auth.{Crypto, Signed, verified, is_skewed, format_int, sign, verify}
use rc_wnzzer.Api.Auth.Decimal.{IsInt64, atoi-format_int}

module _ (y : Crypto) (keys : Table Bytes) (skew : ℕ) (since : Int64 → Int64) (r : Signed)
    (body : Bytes) where
  -- Why a request is let in.
  pub record Genuine : Type 0 where
    pub secret : Bytes
    pub ts : Int64
    pub known : lookup r.key_id keys ≡ some secret
    pub timed : atoi r.timestamp ≡ some ts
    pub recent : is_skewed skew (since ts) ≡ false
    pub signed : r.signature ≡ sign y secret r.method r.path ts body

  -- A request that is let in under a key id names that key, carries a timestamp within the window, and
  -- is signed with the key's secret over its own method, path, timestamp and body.
  pub verify-Genuine :
      (key_id : Bytes)
      → verify y keys skew since r body ≡ verified key_id
      → (key_id ≡ r.key_id) × Genuine
  unfolding verify
  verify-Genuine key_id h = elim (Option-cases (lookup r.key_id keys)) [
    | inl e ↦ absurd (ground (arith, e, h))
    | inr (secret, e) ↦ elim (Option-cases (atoi r.timestamp)) [
      | inl f ↦ absurd (ground (arith, e, f, h))
      | inr (ts, f) ↦ elim (Bool-cases (is_skewed skew (since ts))) [
        | inl late ↦ absurd (ground (arith, e, f, late, h))
        | inr soon ↦
            elim (Bool-cases (str_eq (sign y secret r.method r.path ts body) r.signature)) [
              | inr bad ↦ absurd (ground (arith, e, f, soon, bad, h))
              | inl good ↦ (
                ground (arith, e, f, soon, good, h),
                record {
                  secret = secret;
                  ts = ts;
                  known = e;
                  timed = f;
                  recent = soon;
                  signed =
                      ground
                        (arith, good, eq_iff (sign y secret r.method r.path ts body) r.signature);
                },
              )
            ]
      ]
    ]
  ]

  -- A request signed with the secret of a known key, with its own timestamp within the window, is let
  -- in under that key.
  pub sign-verify :
      (secret : Bytes) (ts : Int64)
      → lookup r.key_id keys ≡ some secret
      → IsInt64 ts
      → r.timestamp ≡ format_int ts
      → is_skewed skew (since ts) ≡ false
      → r.signature ≡ sign y secret r.method r.path ts body
      → verify y keys skew since r body ≡ verified r.key_id
  unfolding verify
  sign-verify secret ts e i t soon s =
      let read : atoi r.timestamp ≡ some ts = ap atoi t ∙ atoi-format_int ts i in
      ground (arith, e, read, soon, s, eq_iff (sign y secret r.method r.path ts body) r.signature)
