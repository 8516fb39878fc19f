-- ===== src/Proxy/Request/Sound.antt =====
-- The lines that `classifyProxyRequestLine` accepts, against the grammar.
use aimee_module_sandbox.Base.{
  ℕ, zero, suc, ◌+◌, ◌≤◌, ◌<◌, true, false, Option, none, some, [], ◌∷◌, ◌++◌, ◌≡◌, ◌≢◌, refl,
  arith, length, All, Bool-cases, Option-cases, inl, inr, take, drop, ◌==◌, ap, ==_iff, sym, ◌∙◌,
  take-append-drop, length-drop,
}
use mathlib.Core.Option.{some-injective}
use mathlib.Core.Path.{subst, subst₃}
use aimee_module_sandbox.GoString.{
  Bytes, codes, equal, has_prefix, index_byte, last_index_byte, positive, slice,
}
use aimee_module_sandbox.Proxy.Host.{copy_proxy_host, parse_proxy_port}
use aimee_module_sandbox.Proxy.Request.{
  invalid, absolute, Classified, ◌>>=◌, version_accepted, scan, classify_connect, ends_host,
  absolute_port, classify_authority, classify_absolute, classify_target, classify_parts,
  classify_proxy_request_line,
}
use aimee_module_sandbox.Proxy.Request.Cut.{
  index_byte_sound, last_index_byte_sound, take-length, drop-length, drop-drop,
}
use aimee_module_sandbox.Proxy.Request.Grammar.{
  IsHost, Stops, Authority, default_port, with_port, Target, tunnel, origin, full, RequestLine,
}
use aimee_module_sandbox.GoString.Equal.{equal_sound, equal_refl}
use aimee_module_sandbox.Proxy.Request.Scan.{
  has_prefix_sound, scan-All, scan-Stops, is_slash, port_behind, absolute_port_split, scan-le,
}

pub bind_some {ℓ κ} :
    {A : Type ℓ} {B : Type κ} (m : Option A) (f : A → Option B) {b : B}
    → (m >>= f) ≡ some b
    → (a : A) × (m ≡ some a) × (f a ≡ some b)
bind_some none f h = cc
bind_some (some a) f h = (a, refl, h)

positive-some : (o : Option ℕ) {i : ℕ} → positive o ≡ some i → (o ≡ some i) × (1 ≤ i)
positive-some none h = cc
positive-some (some zero) h = cc
positive-some (some (suc i)) h = ground arith

nonempty : (s : Bytes) → 1 ≤ length s → s ≢ []
nonempty [] h e = absurd (omega arith)
nonempty (x ∷ s) h e = cc

pub take_self : (x : Bytes) (c : ℕ) (y : Bytes) {s : Bytes} → s ≡ x ++ c ∷ y → take (length x) s ≡ x
take_self x c y e = rw e (take-length x (c ∷ y))

pub drop_self :
    (x : Bytes) (c : ℕ) (y : Bytes) {s : Bytes} → s ≡ x ++ c ∷ y → drop (length x + 1) s ≡ y
drop_self x c y e = rw e (drop-length x c y)

classify_connect_sound :
    (method target : Bytes) {r : Classified}
    → method ≡ codes "CONNECT"
    → classify_connect target ≡ some r
    → Target method target r
unfolding classify_connect
classify_connect_sound method target m e =
    let (i, found, e1) = bind_some (positive (last_index_byte target b':')) _ e in
    let (port, is_port, e2) = bind_some (parse_proxy_port (drop (i + 1) target)) _ e1 in
    let (host, is_host, e3) = bind_some (copy_proxy_host (take i target)) _ e2 in
    let (index, pos) = positive-some (last_index_byte target b':') found in
    let (x, y, cut, free) = last_index_byte_sound target b':' i index in
    subst (Target method target) (some-injective _ _ e3) (
      tunnel x y m cut.0 (nonempty x (omega (arith, cut.1, pos))) free
        (rw (← cut.1, take_self x b':' y cut.0) at is_host)
        (rw (← cut.1, drop_self x b':' y cut.0) at is_port))

-- What follows the host name decides the port.
Authority-after :
    (text name rest : Bytes) {port : ℕ} {host : Bytes}
    → text ≡ name ++ rest
    → All (λ c. ends_host c ≡ false) name
    → Stops ends_host rest
    → port_behind rest ≡ some port
    → IsHost host name
    → Authority text host port
Authority-after text name [] e free s p h =
    default_port name [] e free tt h (sym (some-injective _ _ p))
Authority-after text name (c ∷ rest) e free s p h = elim (Bool-cases (c == b':')) [
  | inl colon ↦
      with_port name (take (scan is_slash rest) rest) (drop (scan is_slash rest) rest)
        (rw (take-append-drop (scan is_slash rest) rest) (rw (← (==_iff c b':').0 colon) e)) free
        (scan-All is_slash rest) (scan-Stops is_slash rest) h (rw colon at p)
  | inr other ↦ default_port name (c ∷ rest) e free (ground arith) h (ground arith)
]

Authority-sound :
    (text : Bytes) {r : Classified}
    → classify_authority text ≡ some r
    → (host : Bytes) × (port : ℕ) × Authority text host port
      × (r ≡ record { kind = absolute; host = host; port = port })
unfolding classify_authority
Authority-sound text e =
    let n = scan ends_host text in
    let (port, is_port, e1) = bind_some (absolute_port text n) _ e in
    let (host, is_host, e2) = bind_some (copy_proxy_host (take n text)) _ e1 in
    (
      host,
      port,
      Authority-after text (take n text) (drop n text) (sym (take-append-drop n text))
          (scan-All ends_host text) (scan-Stops ends_host text)
          (sym (absolute_port_split n text (scan-le ends_host text)) ∙ is_port) is_host,
      sym (some-injective _ _ e2),
    )

classify_absolute_sound :
    (method target : Bytes) {r : Classified}
    → method ≢ codes "CONNECT"
    → classify_absolute target ≡ some r
    → Target method target r
unfolding classify_absolute
classify_absolute_sound method target {r} ne e =
    let (host, port, a, same) = Authority-sound (drop 7 target) (ground arith) in
    subst (Target method target) (sym same) (
      full (drop 7 target) ne (has_prefix_sound target (codes "http://") (ground arith))
        (nonempty _ (omega (arith, length-drop 7 target, long))) a)
  where
    long : 7 < length target
    long = ground arith

classify_target_sound :
    (method target version : Bytes) {r : Classified}
    → classify_target method target version ≡ some r
    → (version_accepted version ≡ true) × Target method target r
unfolding classify_target
classify_target_sound method target version {r} e = elim (Bool-cases (version_accepted version)) [
  | inr refused ↦ absurd (ground arith)
  | inl version_ok ↦ elim (Bool-cases (equal method (codes "CONNECT"))) [
    | inl same ↦
        (version_ok, classify_connect_sound method target (equal_sound _ _ same) (ground arith))
    | inr other ↦
        let ne : method ≢ codes "CONNECT" = λ q. absurd (connect_ne method q other) in
        elim (Bool-cases (has_prefix target (codes "/"))) [
          | inl slash ↦ (
            version_ok,
            subst (Target method target) (some-injective _ _ (ground arith))
                (origin (drop 1 target) ne (has_prefix_sound target (codes "/") slash)),
          )
          | inr no_slash ↦ (version_ok, classify_absolute_sound method target ne (ground arith))
        ]
  ]
]
  where
    connect_ne : (m : Bytes) → m ≡ codes "CONNECT" → equal m (codes "CONNECT") ≡ false → ⊥
    connect_ne m q h =
        absurd (cc (equal_refl (codes "CONNECT"), ap (λ (s : Bytes). equal s (codes "CONNECT")) q))

classify_parts_sound :
    (line : Bytes) {r : Classified} → classify_parts line ≡ some r → RequestLine line r
unfolding classify_parts
classify_parts_sound line {r} e =
    let (i, found, e1) = bind_some (positive (index_byte line b' ')) _ e in
    let (j, found', e2) = bind_some (positive (index_byte (drop (i + 1) line) b' ')) _ e1 in
    let (index, pos) = positive-some (index_byte line b' ') found in
    let (index', pos') = positive-some (index_byte (drop (i + 1) line) b' ') found' in
    let (method, behind, cut, free) = index_byte_sound line b' ' i index in
    let (target, version, cut', free') = index_byte_sound (drop (i + 1) line) b' ' j index' in
    let rest : drop (i + 1) line ≡ behind = rw (← cut.1) (drop_self method b' ' behind cut.0) in
    let is_method : take i line ≡ method = rw (← cut.1) (take_self method b' ' behind cut.0) in
    let is_target : slice line (i + 1) (i + 1 + j) ≡ target =
      ap (λ (k : ℕ). take k (drop (i + 1) line)) (omega (arith, cut'.1))
      ∙ take_self target b' ' version cut'.0 in
    let is_version : drop (i + 1 + j + 1) line ≡ version =
      ap (λ (k : ℕ). drop k line) (omega (arith, cut'.1))
      ∙ drop-drop (i + 1) (length target + 1) line
      ∙ drop_self target b' ' version cut'.0 in
    let checked =
      classify_target_sound method target version
        (subst₃ (λ m t v. classify_target m t v ≡ some r) is_method is_target is_version e2) in
    record {
      method = method;
      target = target;
      version = version;
      shape = cut.0 ∙ ap (λ (b : Bytes). method ++ (b' ' ∷ b)) (sym rest ∙ cut'.0);
      method_word = (nonempty method (omega (arith, cut.1, pos)), free);
      target_word = (nonempty target (omega (arith, cut'.1, pos')), free');
      http_1 = checked.0;
      means = checked.1;
    }

-- A line that is not classified as invalid is a request line of the grammar, with the kind, host
-- and port returned.
pub classify_proxy_request_line_sound :
    (line : Bytes)
    → (classify_proxy_request_line line).kind ≢ invalid
    → RequestLine line (classify_proxy_request_line line)
unfolding classify_proxy_request_line
classify_proxy_request_line_sound line h = elim (Option-cases (classify_parts line)) [
  | inl refused ↦ absurd (h (rw refused refl))
  | inr (r, accepted) ↦ rw accepted (classify_parts_sound line accepted)
]
