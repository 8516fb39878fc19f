-- ===== src/Proxy/Request/Complete.antt =====
-- `classifyProxyRequestLine` on the lines of the grammar.
use aimee_module_sandbox.Base.{
  ℕ, ◌+◌, ◌-◌, true, false, some, [], ◌∷◌, ◌++◌, ◌≡◌, ◌≢◌, refl, arith, length, All, take, drop, ap,
  ◌∙◌,
}
use native.Mathlib.Nat.{add_assoc}
use aimee_module_sandbox.GoString.{Bytes, codes, has_prefix, index_byte, positive}
use aimee_module_sandbox.Proxy.Request.{
  connect, absolute, Classified, version_accepted, classify_connect, ends_host, classify_authority,
  classify_absolute, classify_target, classify_parts, classify_proxy_request_line,
}
use aimee_module_sandbox.Proxy.Request.Cut.{
  Without, index_byte_complete, last_index_byte_complete, take-length, drop-length, drop-drop,
}
use aimee_module_sandbox.Proxy.Request.Grammar.{
  IsPort, IsHost, Stops, Authority, default_port, with_port, Target, tunnel, origin, full,
  RequestLine,
}
use aimee_module_sandbox.GoString.Equal.{equal_refl, equal_ne}
use aimee_module_sandbox.Proxy.Request.Scan.{
  has_prefix_complete, scan_at, is_slash, port_behind, absolute_port_lem,
}

slash-Stops : (rest : Bytes) → Stops is_slash rest → Stops ends_host rest
slash-Stops [] h = tt
slash-Stops (c ∷ rest) h = ground arith

port_slash : (rest : Bytes) → Stops is_slash rest → port_behind rest ≡ some 80
port_slash [] h = refl
port_slash (c ∷ rest) h = ground arith

-- A text that begins with a host name that ends there.
authority_of :
    (name rest : Bytes) {port : ℕ} {host : Bytes}
    → All (λ c. ends_host c ≡ false) name
    → Stops ends_host rest
    → port_behind rest ≡ some port
    → IsHost host name
    → classify_authority (name ++ rest)
      ≡ some (record { kind = absolute; host = host; port = port })
unfolding classify_authority
authority_of name rest free stops p h =
    rw (scan_at ends_host name rest free stops, absolute_port_lem, p) (rw take-length (rw h refl))

classify_authority_complete :
    (text : Bytes) {host : Bytes} {port : ℕ}
    → Authority text host port
    → classify_authority text ≡ some (record { kind = absolute; host = host; port = port })
classify_authority_complete text (default_port name rest e free stops h eighty) =
    rw (e, eighty) (authority_of name rest free (slash-Stops rest stops) (port_slash rest stops) h)
classify_authority_complete text {port} (with_port name digits rest e free no_slash stops h p) =
    rw e (authority_of name (b':' ∷ (digits ++ rest)) free refl parsed h)
  where
    parsed : port_behind (b':' ∷ (digits ++ rest)) ≡ some port
    parsed = rw (scan_at is_slash digits rest no_slash stops, take-length) p

classify_connect_complete :
    (name digits : Bytes) {host : Bytes} {port : ℕ}
    → name ≢ []
    → Without b':' digits
    → IsHost host name
    → IsPort port digits
    → classify_connect (name ++ b':' ∷ digits)
      ≡ some (record { kind = connect; host = host; port = port })
unfolding classify_connect
classify_connect_complete [] digits ne free h p = absurd (ne refl)
classify_connect_complete (a ∷ name) digits ne free h p =
    rw (last_index_byte_complete (a ∷ name) b':' digits free) (
      rw (drop-length (a ∷ name) b':' digits, p)
        (rw (take-length (a ∷ name) (b':' ∷ digits), h) refl))

classify_absolute_complete :
    (authority : Bytes) {host : Bytes} {port : ℕ}
    → authority ≢ []
    → Authority authority host port
    → classify_absolute (codes "http://" ++ authority)
      ≡ some (record { kind = absolute; host = host; port = port })
unfolding classify_absolute
classify_absolute_complete [] ne a = absurd (ne refl)
classify_absolute_complete (c ∷ authority) ne a = ground (
  arith,
  has_prefix_complete (codes "http://") (c ∷ authority),
  classify_authority_complete (c ∷ authority) a,
)

classify_target_complete :
    (method target version : Bytes) {r : Classified}
    → version_accepted version ≡ true
    → Target method target r
    → classify_target method target version ≡ some r
unfolding classify_target
classify_target_complete method target version v (tunnel name digits m e ne free h p) = rw v (
    rw (m, e)
      (rw (equal_refl (codes "CONNECT")) (classify_connect_complete name digits ne free h p)))
classify_target_complete method target version v (origin path ne e) =
    rw (v, equal_ne method (codes "CONNECT") ne, e) (rw (has_prefix_complete (codes "/") path) refl)
classify_target_complete method target version v (full authority ne e nonempty a) =
    rw (v, equal_ne method (codes "CONNECT") ne, e)
      (unfold has_prefix in classify_absolute_complete authority nonempty a)

positive_index :
    (x : Bytes) (c : ℕ) (y : Bytes)
    → x ≢ []
    → Without c x
    → positive (index_byte (x ++ c ∷ y) c) ≡ some (length x)
positive_index [] c y ne free = absurd (ne refl)
positive_index (a ∷ x) c y ne free = rw (index_byte_complete (a ∷ x) c y free) refl

cancel : (i j : ℕ) → i + j - i ≡ j
cancel i j = omega arith

classify_parts_at :
    (method target version : Bytes)
    → (method ≢ []) × Without b' ' method
    → (target ≢ []) × Without b' ' target
    → classify_parts (method ++ (b' ' ∷ (target ++ (b' ' ∷ version))))
      ≡ classify_target method target version
unfolding classify_parts
classify_parts_at method target version m t = rw (positive_index method b' ' behind m.0 m.1) (
    rw (drop-length method b' ' behind) (
      rw (positive_index target b' ' version t.0 t.1)
        (rw (take-length method (b' ' ∷ behind), is_target, is_version) refl)))
  where
    behind : Bytes
    behind = target ++ (b' ' ∷ version)

    is_target : take (length method + 1 + length target - (length method + 1)) behind ≡ target
    is_target =
        ap (λ (k : ℕ). take k behind) (cancel (length method + 1) (length target))
        ∙ take-length target (b' ' ∷ version)

    is_version : drop (length method + 1 + length target + 1) (method ++ (b' ' ∷ behind)) ≡ version
    is_version =
        ap (λ (k : ℕ). drop k (method ++ (b' ' ∷ behind)))
          (add_assoc (length method + 1) (length target) 1)
        ∙ drop-drop (length method + 1) (length target + 1) (method ++ (b' ' ∷ behind))
        ∙ ap (drop (length target + 1)) (drop-length method b' ' behind)
        ∙ drop-length target b' ' version

-- A request line of the grammar is classified with the kind, host and port of the grammar.
pub classify_proxy_request_line_complete :
    (line : Bytes) (r : Classified) → RequestLine line r → classify_proxy_request_line line ≡ r
unfolding classify_proxy_request_line
classify_proxy_request_line_complete line r l =
    rw (l.shape, classify_parts_at l.method l.target l.version l.method_word l.target_word)
      (rw (classify_target_complete l.method l.target l.version l.http_1 l.means) refl)
