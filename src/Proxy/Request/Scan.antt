-- ===== src/Proxy/Request/Scan.antt =====
-- The scanning loops of `classifyProxyRequestLine`, and prefixes that are constants.
use aimee_module_sandbox.Base.{
  ℕ, suc, ◌+◌, ◌-◌, ◌≤◌, Bool, true, false, Option, some, [], ◌∷◌, ◌++◌, ◌≡◌, refl, arith, length,
  All, Bool-cases, inl, inr, take, drop, ◌==◌, if◌then◌else◌, ap, take-append-drop, get_or,
  length-append, length-take,
}
use mathlib.Core.Path.{ap₂, subst₂}
use aimee_module_sandbox.Proxy.Host.{parse_proxy_port}
use aimee_module_sandbox.Proxy.Request.Cut.{drop-length}
use aimee_module_sandbox.GoString.{Bytes, has_prefix}
use aimee_module_sandbox.Proxy.Request.{scan, absolute_port}
use aimee_module_sandbox.Proxy.Request.Grammar.{Stops}

pub has_prefix_sound : (s p : Bytes) → has_prefix s p ≡ true → s ≡ p ++ drop (length p) s
unfolding has_prefix
has_prefix_sound s [] h = refl
has_prefix_sound [] (b ∷ p) h = cc
has_prefix_sound (a ∷ s) (b ∷ p) h = ap₂ ◌∷◌ (ground arith) (has_prefix_sound s p (ground arith))

pub has_prefix_complete : (p rest : Bytes) → has_prefix (p ++ rest) p ≡ true
unfolding has_prefix
has_prefix_complete [] [] = refl
has_prefix_complete [] (c ∷ rest) = refl
has_prefix_complete (b ∷ p) rest = ground (arith, has_prefix_complete p rest)

module _ (stop : ℕ → Bool) where
  pub scan-All : (s : Bytes) → All (λ c. stop c ≡ false) (take (scan stop s) s)
  unfolding scan
  scan-All [] = tt
  scan-All (c ∷ s) = elim (Bool-cases (stop c)) [
    | inl here ↦ rw here tt
    | inr on ↦ rw on (on, scan-All s)
  ]

  pub scan-Stops : (s : Bytes) → Stops stop (drop (scan stop s) s)
  unfolding scan
  scan-Stops [] = tt
  scan-Stops (c ∷ s) = elim (Bool-cases (stop c)) [
    | inl here ↦ rw here here
    | inr on ↦ rw on (scan-Stops s)
  ]

  pub scan-le : (s : Bytes) → scan stop s ≤ length s
  unfolding scan
  scan-le [] = omega arith
  scan-le (c ∷ s) = ground (arith, scan-le s)

  -- The loop stops at the only place where it can.
  pub scan_at :
      (x rest : Bytes)
      → All (λ c. stop c ≡ false) x
      → Stops stop rest
      → scan stop (x ++ rest) ≡ length x
  unfolding scan
  scan_at [] [] h k = refl
  scan_at [] (c ∷ rest) h k = rw k refl
  scan_at (a ∷ x) rest h k = rw h.0 (ap suc (scan_at x rest h.1 k))

get_or-length : (x : Bytes) (c : ℕ) (y : Bytes) → get_or (x ++ c ∷ y) (length x) 0 ≡ c
get_or-length [] c y = refl
get_or-length (a ∷ x) c y = get_or-length x c y

abbrev pub is_slash : ℕ → Bool
is_slash c = c == b'/'

-- The port that the text behind the host name gives.
abbrev pub port_behind : Bytes → Option ℕ
port_behind [] = some 80
port_behind (c ∷ rest) =
    if c == b':' then parse_proxy_port (take (scan is_slash rest) rest) else some 80

pub absolute_port_lem : (x rest : Bytes) → absolute_port (x ++ rest) (length x) ≡ port_behind rest
unfolding absolute_port
absolute_port_lem x [] = ground (arith, length-append x [])
absolute_port_lem x (c ∷ rest) =
    rw (get_or-length x c rest, drop-length x c rest)
      (ground (arith, length-append x (c ∷ rest), cancel (scan is_slash rest)))
  where
    cancel : (k : ℕ) → length x + 1 + k - (length x + 1) ≡ k
    cancel k = omega arith

pub absolute_port_split :
    (n : ℕ) (text : Bytes) → n ≤ length text → absolute_port text n ≡ port_behind (drop n text)
absolute_port_split n text h =
    subst₂ (λ s k. absolute_port s k ≡ port_behind (drop n text)) (take-append-drop n text)
      (omega (arith, length-take n text)) (absolute_port_lem (take n text) (drop n text))
