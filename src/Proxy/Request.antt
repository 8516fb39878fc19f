-- ===== src/Proxy/Request.antt =====
-- `classifyProxyRequestLine` of server-go/modules/sandbox/proxy_policy.go.
pub mod Cut
pub mod Grammar
pub mod Scan
pub mod Sound
pub mod Complete
use aimee_module_sandbox.Base.{
  ℕ, zero, suc, ◌+◌, ◌-◌, Bool, true, false, not, ◌&&◌, ◌||◌, Option, none, some, List, [], ◌∷◌,
  ltb, leb, ◌==◌, if◌then◌else◌, length, take, drop, get_or,
}
use mathlib.Core.Option
use aimee_module_sandbox.GoString.{
  Bytes, codes, equal, has_prefix, index_byte, last_index_byte, positive, slice,
}
use aimee_module_sandbox.Proxy.Host.{copy_proxy_host, parse_proxy_port}

pub data ProxyKind : Type 0 where
  invalid api connect absolute : ProxyKind

-- The numbers that the response carries.
pub kind_code : ProxyKind → ℕ
kind_code invalid = 0
kind_code api = 1
kind_code connect = 2
kind_code absolute = 3

-- The three results of `classifyProxyRequestLine`.
pub record Classified : Type 0 where
  pub kind : ProxyKind
  pub host : Bytes
  pub port : ℕ

abbrev pub invalid_request : Classified
invalid_request = record { kind = invalid; host = []; port = 0 }

abbrev pub api_request : Classified
api_request = record { kind = api; host = []; port = 0 }

infixl 5 ◌>>=◌
abbrev pub ◌>>=◌ {ℓ κ} : {A : Type ℓ} {B : Type κ} → Option A → (A → Option B) → Option B
none >>= f = none
some a >>= f = f a

-- The version test: HTTP/1.0 or HTTP/1.1, at the end of the line or before NUL, CR, LF or a blank.
unfoldable pub version_accepted : Bytes → Bool
version_accepted version = not (
    ltb (length version) 8
    || not (equal (take 7 version) (codes "HTTP/1."))
    || (not (get_or version 7 0 == b'0') && not (get_or version 7 0 == b'1'))
    || (ltb 8 (length version)
        && not (get_or version 8 0 == 0)
        && not (get_or version 8 0 == b'\r')
        && not (get_or version 8 0 == b'\n')
        && not (get_or version 8 0 == b' ')))

-- The index at which a scanning loop stops.
unfoldable pub scan : (ℕ → Bool) → Bytes → ℕ
scan stop [] = 0
scan stop (c ∷ s) = if stop c then 0 else suc (scan stop s)

-- `none` stands for the result (ProxyRequestInvalid, "", 0) here and below.
unfoldable pub classify_connect : Bytes → Option Classified
classify_connect target = do
  colon ← positive (last_index_byte target b':')
  port ← parse_proxy_port (drop (colon + 1) target)
  host ← copy_proxy_host (take colon target)
  some (record { kind = connect; host = host; port = port })

abbrev pub ends_host : ℕ → Bool
ends_host c = c == b'/' || c == b':'

-- The port of an authority whose host has `host_len` bytes.
unfoldable pub absolute_port : Bytes → ℕ → Option ℕ
absolute_port authority host_len =
    if ltb host_len (length authority) && get_or authority host_len 0 == b':'
    then parse_proxy_port (
        slice authority (host_len + 1)
          (host_len + 1 + scan (λ c. c == b'/') (drop (host_len + 1) authority)))
    else some 80

unfoldable pub classify_authority : Bytes → Option Classified
classify_authority authority = do
  port ← absolute_port authority (scan ends_host authority)
  host ← copy_proxy_host (take (scan ends_host authority) authority)
  some (record { kind = absolute; host = host; port = port })

unfoldable pub classify_absolute : Bytes → Option Classified
classify_absolute target =
    if leb (length target) 7 || not (has_prefix target (codes "http://"))
    then none
    else classify_authority (drop 7 target)

-- The part of the function behind the two blanks.
unfoldable pub classify_target : Bytes → Bytes → Bytes → Option Classified
classify_target method target version =
    if not (version_accepted version)
    then none
    else if equal method (codes "CONNECT")
    then classify_connect target
    else if has_prefix target (codes "/")
    then some api_request
    else classify_absolute target

unfoldable pub classify_parts : Bytes → Option Classified
classify_parts line = do
  first_space ← positive (index_byte line b' ')
  second_relative ← positive (index_byte (drop (first_space + 1) line) b' ')
  let second_space = first_space + 1 + second_relative
  classify_target (take first_space line) (slice line (first_space + 1) second_space)
      (drop (second_space + 1) line)

unfoldable pub classify_proxy_request_line : Bytes → Classified
classify_proxy_request_line line = Option.get_or (classify_parts line) invalid_request
