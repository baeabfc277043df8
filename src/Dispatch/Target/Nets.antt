-- ===== src/Dispatch/Target/Nets.antt =====
-- Which addresses `blockedReason` of internal/dispatch/client.go refuses, as ranges.
use rc_wnzzer.Base.{
  ℕ, ◌+◌, ◌*◌, ◌/◌, ◌%◌, ◌^◌, ◌<◌, ◌≡◌, Bool, ◌||◌, ◌&&◌, leb, ltb, true, false, none, some, Option,
  arith,
}
use rc_wnzzer.Base.{Bytes, Option-cases, inl, inr}
use rc_wnzzer.Dispatch.Target.{
  Ip, Url, blocked, validate_target_url, dial_allowed, v4, v6, Reason, blocked_reason,
}

-- Whether n is one of the given number of addresses from the first one on.
abbrev pub within : (first size n : ℕ) → Bool
within first size n = leb first n && ltb n (first + size)

-- The address a.b.0.0.
abbrev pub address : ℕ → ℕ → ℕ
address a b = a * 2 ^ 24 + b * 2 ^ 16

-- 0.0.0.0, 127/8, 10/8, 172.16/12, 192.168/16, 169.254/16, 224/4 and 100.64/10.
abbrev pub is_internal : ℕ → Bool
is_internal n =
    within 0 1 n
    || (within (address 127 0) (2 ^ 24) n
        || (within (address 10 0) (2 ^ 24) n
            || (within (address 172 16) (2 ^ 20) n
                || (within (address 192 168) (2 ^ 16) n
                    || (within (address 169 254) (2 ^ 16) n
                        || (within (address 224 0) (2 ^ 28) n
                            || within (address 100 64) (2 ^ 22) n))))))

abbrev pub is_blocked : Option Reason → Bool
is_blocked none = false
is_blocked (some r) = true

-- An address of version 4 that is written as one of version 6 is judged as itself.
pub blocked_reason_mapped :
    (n : ℕ) → n < 2 ^ 32 → blocked_reason (v6 (0xffff * 2 ^ 32 + n)) ≡ blocked_reason (v4 n)
unfolding blocked_reason
blocked_reason_mapped n h =
    let high : (0xffff * 2 ^ 32 + n) / 2 ^ 32 ≡ 0xffff = omega (arith, h) in
    let low : (0xffff * 2 ^ 32 + n) % 2 ^ 32 ≡ n = omega (arith, h) in ground (arith, high, low)

-- An address that the check of a submission refuses as blocked is refused by the dialer too, when it
-- connects to the host of that address.
pub validate_target_url-dial_allowed :
    (parse_ip : Bytes → Option Ip) (parse : Bytes → Option Url) (split_host : Bytes → Option Bytes)
    (raw dialed : Bytes) (u : Url) (r : Reason)
    → parse raw ≡ some u
    → split_host dialed ≡ some u.hostname
    → validate_target_url parse_ip parse raw false ≡ some (blocked r)
    → dial_allowed parse_ip split_host dialed ≡ false
unfolding validate_target_url dial_allowed
validate_target_url-dial_allowed parse_ip parse split_host raw dialed u r e f h =
    elim (Option-cases (parse_ip u.hostname)) [
      | inl none_parsed ↦ ground (arith, e, f, h, none_parsed)
      | inr (ip, parsed) ↦ ground (arith, e, f, h, parsed)
    ]
