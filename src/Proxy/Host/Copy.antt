-- ===== src/Proxy/Host/Copy.antt =====
-- `copyProxyHost` against a filter and a map over the bytes that its loop visits.
use aimee_module_sandbox.Base.{
  ℕ, suc, ◌+◌, ◌≤◌, ◌<◌, Bool, true, false, not, ◌&&◌, Option, none, some, [], ◌∷◌, ◌++◌, ◌≡◌, refl,
  ap, map, if◌then◌else◌, arith, ltb, leb, length, All, Bool-cases, inl, inr, ◌==◌, get_or,
  length-append,
}
use mathlib.Core.List.{append_assoc, append-nil}
use aimee_module_sandbox.GoString.{Bytes, rune_starts}
use aimee_module_sandbox.GoString.Runes.{length-rune_starts}
use aimee_module_sandbox.Proxy.Host.{
  copy_loop, copy_proxy_host, is_bracket, is_forbidden, lower_ascii, proxy_host_max,
}

-- What is left when the brackets of a bracketed host are dropped.
abbrev pub kept : Bool → Bytes → Bytes
kept bracketed [] = []
kept bracketed (c ∷ s) =
    if bracketed && is_bracket c then kept bracketed s else c ∷ kept bracketed s

abbrev pub is_clean : Bytes → Bool
is_clean [] = true
is_clean (c ∷ s) = not (is_forbidden c) && is_clean s

abbrev pub is_nil : Bytes → Bool
is_nil [] = true
is_nil (c ∷ s) = false

is_nil-append : (acc : Bytes) (x : ℕ) (s : Bytes) → is_nil (acc ++ x ∷ s) ≡ false
is_nil-append [] x s = refl
is_nil-append (a ∷ acc) x s = refl

-- What the loop returns from a result `acc`, on bytes that `range` visits.
abbrev copied : Bool → Bytes → Bytes → Option Bytes
copied bracketed acc s =
    if is_clean (kept bracketed s) && not (is_nil (acc ++ kept bracketed s))
    then some (acc ++ map lower_ascii (kept bracketed s))
    else none

copied_append :
    (bracketed : Bool) (acc : Bytes) (c : ℕ) (s : Bytes)
    → is_forbidden c ≡ false
    → (bracketed && is_bracket c) ≡ false
    → copied bracketed (acc ++ lower_ascii c ∷ []) s ≡ copied bracketed acc (c ∷ s)
copied_append bracketed acc c s clean plain = simp (
  plain,
  clean,
  append_assoc acc (lower_ascii c ∷ []) (kept bracketed s),
  append_assoc acc (lower_ascii c ∷ []) (map lower_ascii (kept bracketed s)),
  is_nil-append,
)

copy_loop_lem :
    (bracketed : Bool) (acc s : Bytes)
    → length acc + length s < proxy_host_max
    → copy_loop bracketed acc s ≡ copied bracketed acc s
unfolding copy_loop
copy_loop_lem bracketed [] [] h = refl
copy_loop_lem bracketed (a ∷ acc) [] h = rw append-nil (ground arith)
copy_loop_lem bracketed acc (c ∷ s) h = elim (Bool-cases (bracketed && is_bracket c)) [
  | inl bracket ↦ rw bracket (copy_loop_lem bracketed acc s (omega arith))
  | inr plain ↦ elim (Bool-cases (is_forbidden c)) [
    | inl bad ↦ rw (plain, bad) refl
    | inr clean ↦
        let fits : leb proxy_host_max (length acc + 1) ≡ false = ground arith in
        let longer = acc ++ lower_ascii c ∷ [] in
        let short : length longer + length s < proxy_host_max =
          omega (arith, length-append acc (lower_ascii c ∷ [])) in
        let rest = copy_loop_lem bracketed longer s short in
        ground (arith, plain, clean, fits, rest, copied_append bracketed acc c s clean plain)
  ]
]

-- `copyProxyHost` accepts a value of 1 to 255 bytes of which no byte that `range` visits is
-- forbidden and not all are brackets of a bracketed value, and returns those bytes without the
-- brackets and in lower case. Nothing else is accepted.
pub copy_proxy_host_lem :
    (value : Bytes)
    → let bytes = kept (get_or value 0 0 == b'[') (rune_starts 0 value) in
      copy_proxy_host value ≡ (
        if leb 1 (length value)
          && ltb (length value) proxy_host_max
          && is_clean bytes
          && not (is_nil bytes)
        then some (map lower_ascii bytes)
        else none)
unfolding copy_proxy_host
copy_proxy_host_lem value = elim (Bool-cases (leb proxy_host_max (length value))) [
  | inl long ↦ ground arith
  | inr short ↦
      let bound : length value < proxy_host_max = ground arith in
      let visited = rune_starts 0 value in
      ground (
        arith,
        copy_loop_lem (get_or value 0 0 == b'[') [] visited
            (omega (arith, length-rune_starts 0 value)),
      )
]

-- A byte of a host that `copyProxyHost` returned.
abbrev pub IsHostByte : ℕ → Type 0
IsHostByte c = (is_forbidden c ≡ false) × (lower_ascii c ≡ c)

lower_ascii-IsHostByte : (c : ℕ) → is_forbidden c ≡ false → IsHostByte (lower_ascii c)
unfolding lower_ascii
lower_ascii-IsHostByte c h = ground arith

lower-IsHostByte : (s : Bytes) → is_clean s ≡ true → All IsHostByte (map lower_ascii s)
lower-IsHostByte [] h = tt
lower-IsHostByte (c ∷ s) h = ground (arith, lower_ascii-IsHostByte c, lower-IsHostByte s)

length-kept : (bracketed : Bool) (s : Bytes) → length (kept bracketed s) ≤ length s
length-kept bracketed [] = omega arith
length-kept bracketed (c ∷ s) = ground (arith, length-kept bracketed s)

length-lower : (s : Bytes) → length (map lower_ascii s) ≡ length s
length-lower [] = refl
length-lower (c ∷ s) = ap suc (length-lower s)

is_nil-false : (s : Bytes) → is_nil s ≡ false → 1 ≤ length s
is_nil-false [] h = cc
is_nil-false (c ∷ s) h = omega arith

-- A host that is returned has 1 to 255 bytes, none of them a slash, blank, line end, `@` or NUL,
-- and none an upper-case letter.
pub copy_proxy_host_safe :
    (value : Bytes) {host : Bytes}
    → copy_proxy_host value ≡ some host
    → (1 ≤ length host) × (length host < proxy_host_max) × All IsHostByte host
copy_proxy_host_safe value {host} e = rw (← same) (
  omega (arith, length-lower bytes, is_nil-false bytes full),
  omega
      (arith, length-lower bytes, length-kept bracketed visited, length-rune_starts 0 value, short),
  lower-IsHostByte bytes clean,
)
  where
    bracketed : Bool
    bracketed = get_or value 0 0 == b'['

    visited : Bytes
    visited = rune_starts 0 value

    bytes : Bytes
    bytes = kept bracketed visited

    facts :
        (map lower_ascii bytes ≡ host)
        × (is_nil bytes ≡ false)
        × (is_clean bytes ≡ true)
        × (length value < proxy_host_max)
    facts = ground (arith, copy_proxy_host_lem value)

    same : map lower_ascii bytes ≡ host
    same = facts.0

    full : is_nil bytes ≡ false
    full = facts.1

    clean : is_clean bytes ≡ true
    clean = facts.2

    short : length value < proxy_host_max
    short = facts.3
