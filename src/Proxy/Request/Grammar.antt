-- ===== src/Proxy/Request/Grammar.antt =====
-- The request lines that `classifyProxyRequestLine` accepts, as a grammar.
use aimee_module_sandbox.Base.{ℕ, Bool, true, false, some, [], ◌∷◌, ◌++◌, ◌≡◌, ◌≢◌, All, ◌==◌}
use aimee_module_sandbox.GoString.{Bytes, codes}
use aimee_module_sandbox.Proxy.Host.{copy_proxy_host, parse_proxy_port}
use aimee_module_sandbox.Proxy.Request.{
  connect, absolute, Classified, api_request, version_accepted, ends_host,
}
use aimee_module_sandbox.Proxy.Request.Cut.{Without}

abbrev pub IsPort : ℕ → Bytes → Type 0
IsPort port text = parse_proxy_port text ≡ some port

abbrev pub IsHost : Bytes → Bytes → Type 0
IsHost host text = copy_proxy_host text ≡ some host

-- What follows is nothing or begins with a byte that passes the test.
abbrev pub Stops : (ℕ → Bool) → Bytes → Type 0
Stops stop [] = Unit
Stops stop (c ∷ rest) = stop c ≡ true

-- host [":" port] ["/" path]
pub data Authority (text host : Bytes) : ℕ → Type 0 where
  default_port :
      (name rest : Bytes) {port : ℕ}
      → text ≡ name ++ rest
      → All (λ c. ends_host c ≡ false) name
      → Stops (λ c. c == b'/') rest
      → IsHost host name
      → port ≡ 80
      → Authority text host port
  with_port :
      (name digits rest : Bytes) {port : ℕ}
      → text ≡ name ++ (b':' ∷ (digits ++ rest))
      → All (λ c. ends_host c ≡ false) name
      → All (λ c. (c == b'/') ≡ false) digits
      → Stops (λ c. c == b'/') rest
      → IsHost host name
      → IsPort port digits
      → Authority text host port

pub data Target (method target : Bytes) : Classified → Type 0 where
  tunnel :
      (name digits : Bytes) {host : Bytes} {port : ℕ}
      → method ≡ codes "CONNECT"
      → target ≡ name ++ b':' ∷ digits
      → name ≢ []
      → Without b':' digits
      → IsHost host name
      → IsPort port digits
      → Target method target (record { kind = connect; host = host; port = port })
  origin :
      (path : Bytes)
      → method ≢ codes "CONNECT"
      → target ≡ b'/' ∷ path
      → Target method target api_request
  full :
      (authority : Bytes) {host : Bytes} {port : ℕ}
      → method ≢ codes "CONNECT"
      → target ≡ codes "http://" ++ authority
      → authority ≢ []
      → Authority authority host port
      → Target method target (record { kind = absolute; host = host; port = port })

-- method " " target " " version
pub record RequestLine (line : Bytes) (r : Classified) : Type 0 where
  pub method : Bytes
  pub target : Bytes
  pub version : Bytes
  pub shape : line ≡ method ++ (b' ' ∷ (target ++ (b' ' ∷ version)))
  pub method_word : (method ≢ []) × Without b' ' method
  pub target_word : (target ≢ []) × Without b' ' target
  pub http_1 : version_accepted version ≡ true
  pub means : Target method target r
