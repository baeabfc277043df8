-- ===== src/Examples/Requests.antt =====
-- Requests to the API, and target addresses, at concrete inputs.
use rc_wnzzer.Base.{◌≡◌, refl, true, false, bytes, none, some}
use rc_wnzzer.Base.{Bytes, Option}
use rc_wnzzer.Dispatch.Target.{
  Ip, Url, v4, blocked_reason, blocked, loopback, dial_allowed, validate_target_url,
}
use rc_wnzzer.Dispatch.Target.Nets.{validate_target_url-dial_allowed}
use rc_wnzzer.Api.Validate.{SubmitRequest, Parsers}
use rc_wnzzer.Api.Submit.{Incoming}
use rc_wnzzer.Examples.Inputs.{target, policy}

abbrev pub request : SubmitRequest
request = record { idem_key = bytes "k"; target = target; policy = policy }

abbrev pub parsers : Parsers
parsers = record {
  to_upper = λ s. s;
  parse_url = λ s. some (record { scheme = bytes "https"; host = s; hostname = s });
  parse_ip = λ s. none;
}

abbrev pub incoming : Incoming
incoming = record { fits = true; caller = some (bytes "a"); request = some request }

abbrev local_ip : Bytes → Option Ip
local_ip s = some (v4 2130706433)

abbrev local_url : Bytes → Option Url
local_url s = some (record { scheme = bytes "http"; host = bytes "h"; hostname = bytes "h" })

abbrev local_host : Bytes → Option Bytes
local_host s = some (bytes "h")

refused_early :
    validate_target_url local_ip local_url (bytes "http://h") false ≡ some (blocked loopback)
unfolding validate_target_url blocked_reason
refused_early = refl

validate_target_url-dial_allowed_example : dial_allowed local_ip local_host (bytes "h:80") ≡ false
validate_target_url-dial_allowed_example =
    validate_target_url-dial_allowed local_ip local_url local_host (bytes "http://h") (bytes "h:80")
      (record { scheme = bytes "http"; host = bytes "h"; hostname = bytes "h" }) loopback refl refl
      refused_early
