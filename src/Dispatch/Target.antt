-- ===== src/Dispatch/Target.antt =====
-- The address checks of internal/dispatch/client.go. An IP address is the number that its 4 or 16
-- bytes spell; `net.ParseIP`, `url.Parse` and `net.SplitHostPort` are arguments.
pub mod Nets
use rc_wnzzer.Base.{
  ℕ, ◌/◌, ◌%◌, ◌^◌, Bool, true, false, ◌&&◌, ◌||◌, not, Bytes, bytes, str_eq, Option, none, some,
  [], ◌==◌, if◌then◌else◌,
}

pub data Ip : Type 0 where
  v4 v6 : ℕ → Ip

-- The reasons of `blockedReason`, in the order of its cases.
pub data Reason : Type 0 where
  loopback unspecified private_net link_local multicast carrier_nat : Reason

-- `ip.To4()`, for an address that stands for itself if it is none of version 4.
abbrev pub normal : Ip → Ip
normal (v4 n) = v4 n
normal (v6 n) = if n / 2 ^ 32 == 0xffff then v4 (n % 2 ^ 32) else v6 n

-- The tests of `net.IP`, by the leading bits.
abbrev reason_v4 : ℕ → Option Reason
reason_v4 n =
    if n / 2 ^ 24 == 127
    then some loopback
    else if n == 0
    then some unspecified
    else if (n / 2 ^ 24 == 10) || ((n / 2 ^ 20 == 0xac1) || (n / 2 ^ 16 == 0xc0a8))
    then some private_net
    else if n / 2 ^ 16 == 0xa9fe
    then some link_local
    else if n / 2 ^ 28 == 0xe
    then some multicast
    else if n / 2 ^ 22 == 0x191
    then some carrier_nat
    else none

abbrev reason_v6 : ℕ → Option Reason
reason_v6 n =
    if n == 1
    then some loopback
    else if n == 0
    then some unspecified
    else if n / 2 ^ 121 == 0x7e
    then some private_net
    else if n / 2 ^ 118 == 0x3fa
    then some link_local
    else if n / 2 ^ 120 == 0xff
    then some multicast
    else none

reason_of : Ip → Option Reason
reason_of (v4 n) = reason_v4 n
reason_of (v6 n) = reason_v6 n

-- `blockedReason`; `none` is the empty text.
unfoldable pub blocked_reason : Ip → Option Reason
unfolding reason_of
blocked_reason ip = reason_of (normal ip)

-- What `url.Parse` tells: `hostname` is the host without its port.
pub record Url : Type 0 where
  pub scheme : Bytes
  pub host : Bytes
  pub hostname : Bytes

pub data TargetError : Type 0 where
  unparsable bad_scheme no_host : TargetError
  blocked : Reason → TargetError

abbrev to_error : Option Reason → Option TargetError
to_error none = none
to_error (some r) = some (blocked r)

module _ (parse_ip : Bytes → Option Ip) where
  check_ip : Option Ip → Option TargetError
  check_ip none = none
  check_ip (some ip) = to_error (blocked_reason ip)

  check_url : Bool → Url → Option TargetError
  check_url allow_private u =
      if not (str_eq u.scheme (bytes "http")) && not (str_eq u.scheme (bytes "https"))
      then some bad_scheme
      else if str_eq u.host []
      then some no_host
      else if allow_private
      then none
      else check_ip (parse_ip u.hostname)

  -- `ValidateTargetURL`; `none` is the error nil.
  unfoldable pub validate_target_url :
      (Bytes → Option Url) → (raw : Bytes) (allow_private : Bool) → Option TargetError
  unfolding check_url check_ip
  validate_target_url parse raw allow_private = elim (parse raw) [
    | none ↦ some unparsable
    | some u ↦ check_url allow_private u
  ]

  -- `blockPrivate`: whether the connection to the address is allowed.
  unfoldable pub dial_allowed : (Bytes → Option Bytes) → (address : Bytes) → Bool
  dial_allowed split_host address = elim (split_host address) [
    | none ↦ false
    | some host ↦ elim (parse_ip host) [
      | none ↦ false
      | some ip ↦ elim (blocked_reason ip) [ none ↦ true | some r ↦ false ]
    ]
  ]
