-- ===== src/Api/Auth/Canonical.antt =====
-- `CanonicalString` of internal/api/auth.go: what it covers.
use rc_wnzzer.Base.{◌≡◌, refl, sym, ap, ◌∙◌, subst, append_assoc, Bytes, some, [], ◌∷◌, ◌++◌, arith}
use rc_wnzzer.Store.Codec.{newline, HasNoNewline}
use rc_wnzzer.Dispatch.RetryAfter.{Int64, atoi}
use rc_wnzzer.Api.Auth.{Crypto, join, format_int, hex, sig_version, canonical_string}
use rc_wnzzer.Api.Auth.Decimal.{
  IsInt64, atoi-format_int, format_int-HasNoNewline, hex-HasNoNewline, hex-injective,
}

-- The first line of a text, and the last one, are determined by it.
split_first :
    (a b s t : Bytes)
    → HasNoNewline a
    → HasNoNewline b
    → a ++ newline ∷ s ≡ b ++ newline ∷ t
    → (a ≡ b) × (s ≡ t)
split_first [] [] s t h k e = (refl, ground (arith, e))
split_first [] (y ∷ b) s t h k e = absurd (ground (arith, e, k.0))
split_first (x ∷ a) [] s t h k e = absurd (ground (arith, e, h.0))
split_first (x ∷ a) (y ∷ b) s t h k e =
    let (p, q) = split_first a b s t h.1 k.1 (ground (arith, e)) in (ground (arith, e, p), q)

has_newline : (a s : Bytes) → ¬ HasNoNewline (a ++ newline ∷ s)
has_newline [] s h = h.0 refl
has_newline (x ∷ a) s h = has_newline a s h.1

split_last :
    (a b s t : Bytes)
    → HasNoNewline s
    → HasNoNewline t
    → a ++ newline ∷ s ≡ b ++ newline ∷ t
    → (a ≡ b) × (s ≡ t)
split_last [] [] s t h k e = (refl, ground (arith, e))
split_last [] (y ∷ b) s t h k e =
    absurd (has_newline b t (subst HasNoNewline (ground (arith, e)) h))
split_last (x ∷ a) [] s t h k e =
    absurd (has_newline a s (subst HasNoNewline (ground (arith, e)) k))
split_last (x ∷ a) (y ∷ b) s t h k e =
    let (p, q) = split_last a b s t h k (ground (arith, e)) in (ground (arith, e, p), q)

-- The text with its fixed first lines apart.
module _ (y : Crypto) where
  canonical-shape :
      (method path : Bytes) (ts : Int64) (body : Bytes)
      → canonical_string y method path ts body
        ≡ sig_version
          ++ newline
            ∷ (y.to_upper method
                ++ newline ∷ (((path ++ newline ∷ format_int ts) ++ newline ∷ hex (y.sha256 body))))
  unfolding canonical_string join
  canonical-shape method path ts body =
      ap (λ x. sig_version ++ newline ∷ (y.to_upper method ++ newline ∷ x))
        (sym (append_assoc path (newline ∷ format_int ts) (newline ∷ hex (y.sha256 body))))

  -- Two requests with the same canonical text have the same method up to case, the same path, the same
  -- timestamp and the same digest of the body, if the methods have no newline; the paths may have any.
  pub canonical_string-injective :
      (method method' path path' : Bytes) (ts ts' : Int64) (body body' : Bytes)
      → HasNoNewline method
      → HasNoNewline method'
      → IsInt64 ts
      → IsInt64 ts'
      → canonical_string y method path ts body ≡ canonical_string y method' path' ts' body'
      → (y.to_upper method ≡ y.to_upper method')
        × (path ≡ path')
        × (ts ≡ ts')
        × (y.sha256 body ≡ y.sha256 body')
  canonical_string-injective method method' path path' ts ts' body body' h h' i i' e =
      let flat =
        sym (canonical-shape method path ts body) ∙ e ∙ canonical-shape method' path' ts' body' in
      let (same_method, rest) =
        split_first (y.to_upper method) (y.to_upper method')
          ((path ++ newline ∷ format_int ts) ++ newline ∷ hex (y.sha256 body))
          ((path' ++ newline ∷ format_int ts') ++ newline ∷ hex (y.sha256 body'))
          (y.upper_line method h) (y.upper_line method' h') (ground (arith, flat)) in
      let (front, same_hex) =
        split_last (path ++ newline ∷ format_int ts) (path' ++ newline ∷ format_int ts')
          (hex (y.sha256 body)) (hex (y.sha256 body')) (hex-HasNoNewline (y.sha256 body))
          (hex-HasNoNewline (y.sha256 body')) rest in
      let (same_path, same_ts) =
        split_last path path' (format_int ts) (format_int ts') (format_int-HasNoNewline ts)
          (format_int-HasNoNewline ts') front in
      let read : some ts ≡ some ts' =
        sym (atoi-format_int ts i) ∙ ap atoi same_ts ∙ atoi-format_int ts' i' in
      (
        same_method,
        same_path,
        ground (arith, read),
        hex-injective (y.sha256 body) (y.sha256 body') (y.digest body) (y.digest body') same_hex,
      )
