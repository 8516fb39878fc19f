-- ===== src/Proxy/Host/Suffix.antt =====
-- A host against the suffix of a wildcard entry, in `proxyHostAllowed`.
use aimee_module_sandbox.Base.{
  ℕ, zero, suc, ◌+◌, ◌-◌, ◌≤◌, ◌<◌, Bool, true, false, ◌&&◌, [], ◌∷◌, ◌++◌, ◌≡◌, ◌≢◌, refl, ap, ◌∙◌,
  ◌⊎◌, take, drop, arith, ltb, length, All, Bool-cases, inl, inr, ◌↔◌, ◌==◌, get_or, length-append,
  length-take,
}
use mathlib.Core.List.{map-append}
use aimee_module_sandbox.GoString.{Bytes}
use aimee_module_sandbox.Proxy.Host.{lower_ascii, equal_fold_ascii, suffix_allows, proxy_host_max}
use aimee_module_sandbox.Proxy.Host.Fold.{IsAscii, lower, length-lower, equal_fold_ascii_iff}

-- `host` is `suffix`, or labels in front of a dot and `suffix`, up to the case of letters.
abbrev pub IsUnder : Bytes → Bytes → Type 0
IsUnder host suffix =
    (lower host ≡ lower suffix)
    ⊎ ((labels : Bytes) × (labels ≢ []) × (lower host ≡ lower labels ++ b'.' ∷ lower suffix))

split_at : (i : ℕ) (s : Bytes) → i < length s → s ≡ take i s ++ get_or s i 0 ∷ drop (suc i) s
split_at i [] h = absurd (omega arith)
split_at zero (x ∷ s) h = refl
split_at (suc i) (x ∷ s) h = ap (◌∷◌ x) (split_at i s (omega arith))

lower_dot : (c : ℕ) → lower_ascii c ≡ b'.' → c ≡ b'.'
unfolding lower_ascii
lower_dot c h = ground arith

dot_lower : lower_ascii b'.' ≡ b'.'
unfolding lower_ascii
dot_lower = refl

nonempty : (s : Bytes) → 1 ≤ length s → s ≢ []
nonempty [] h e = absurd (omega arith)
nonempty (x ∷ s) h e = cc

lower-drop : (n : ℕ) (s : Bytes) → lower (drop n s) ≡ drop n (lower s)
lower-drop zero s = refl
lower-drop (suc n) [] = refl
lower-drop (suc n) (x ∷ s) = lower-drop n s

drop-append : (xs ys : Bytes) → drop (length xs) (xs ++ ys) ≡ ys
drop-append [] ys = refl
drop-append (x ∷ xs) ys = drop-append xs ys

get_or-lower :
    (s : Bytes) (i : ℕ) → i < length s → lower_ascii (get_or s i 0) ≡ get_or (lower s) i 0
get_or-lower [] i h = absurd (omega arith)
get_or-lower (x ∷ s) zero h = refl
get_or-lower (x ∷ s) (suc i) h = get_or-lower s i (omega arith)

get_or-append : (xs ys : Bytes) (y : ℕ) → get_or (xs ++ y ∷ ys) (length xs) 0 ≡ y
get_or-append [] ys y = refl
get_or-append (x ∷ xs) ys y = get_or-append xs ys y

-- The third disjunct of the wildcard test.
abbrev at_dot : Bytes → Bytes → Bool
at_dot host suffix =
    ltb (length suffix + 1) (length host)
    && get_or host (length host - length suffix - 1) 0 == b'.'
    && equal_fold_ascii (drop (length host - length suffix) host) suffix

at_dot_sound :
    (host suffix : Bytes)
    → All IsAscii suffix
    → at_dot host suffix ≡ true
    → (labels : Bytes) × (labels ≢ []) × (lower host ≡ lower labels ++ b'.' ∷ lower suffix)
at_dot_sound host suffix h e =
    (take i host, nonempty _ (omega (arith, length-take i host, room)), equation)
  where
    i : ℕ
    i = length host - length suffix - 1

    room : length suffix + 1 < length host
    room = ground arith

    dot : get_or host i 0 ≡ b'.'
    dot = ground arith

    next : suc i ≡ length host - length suffix
    next = omega (arith, room)

    tail : lower (drop (suc i) host) ≡ lower suffix
    tail = rw next ((equal_fold_ascii_iff _ suffix h).0 (ground arith))

    equation : lower host ≡ lower (take i host) ++ b'.' ∷ lower suffix
    equation =
        ap lower (split_at i host (omega (arith, room)))
        ∙ (map-append lower_ascii (take i host) (get_or host i 0 ∷ drop (suc i) host))
        ∙ rw (dot, dot_lower, tail) refl

at_dot_complete :
    (host suffix labels : Bytes)
    → All IsAscii suffix
    → labels ≢ []
    → lower host ≡ lower labels ++ b'.' ∷ lower suffix
    → at_dot host suffix ≡ true
at_dot_complete host suffix [] h ne e = absurd (ne refl)
at_dot_complete host suffix (l ∷ labels) h ne e = ground (
  arith,
  total,
  dot,
  (equal_fold_ascii_iff (drop (length host - length suffix) host) suffix h).1 tail,
)
  where
    n : ℕ
    n = length (l ∷ labels)

    total : length host ≡ n + length suffix + 1
    total = omega (
      arith,
      ap length e,
      length-append (lower (l ∷ labels)) (b'.' ∷ lower suffix),
      length-lower host,
      length-lower (l ∷ labels),
      length-lower suffix,
    )

    at : length host - length suffix - 1 ≡ length (lower (l ∷ labels))
    at = omega (arith, total, length-lower (l ∷ labels))

    dot : get_or host (length host - length suffix - 1) 0 ≡ b'.'
    dot = lower_dot _ (
        get_or-lower host (length host - length suffix - 1) (omega (arith, total))
        ∙ rw (at, e) (get_or-append (lower (l ∷ labels)) (lower suffix) b'.'))

    behind : (xs ys : Bytes) (y : ℕ) → drop (suc (length xs)) (xs ++ y ∷ ys) ≡ ys
    behind [] ys y = refl
    behind (x ∷ xs) ys y = behind xs ys y

    from : length host - length suffix ≡ suc (length (lower (l ∷ labels)))
    from = omega (arith, total, length-lower (l ∷ labels))

    tail : lower (drop (length host - length suffix) host) ≡ lower suffix
    tail =
        lower-drop (length host - length suffix) host
        ∙ rw (from, e) (behind (lower (l ∷ labels)) (lower suffix) b'.')

pub suffix_allows_iff :
    (host suffix : Bytes)
    → All IsAscii suffix
    → (suffix_allows host suffix ≡ true)
      ↔ ((1 ≤ length suffix) × (length suffix < proxy_host_max) × IsUnder host suffix)
suffix_allows_iff host suffix h = (forth, back)
  where
    same : (equal_fold_ascii host suffix ≡ true) ↔ (lower host ≡ lower suffix)
    same = equal_fold_ascii_iff host suffix h

    forth :
        suffix_allows host suffix ≡ true
        → (1 ≤ length suffix) × (length suffix < proxy_host_max) × IsUnder host suffix
    forth e = elim (Bool-cases (equal_fold_ascii host suffix)) [
      | inl eq ↦ (bounds.0, bounds.1, inl (same.0 eq))
      | inr ne ↦ (bounds.0, bounds.1, inr (at_dot_sound host suffix h (dotted ne)))
    ]
      where
        bounds : (1 ≤ length suffix) × (length suffix < proxy_host_max)
        bounds = unfold suffix_allows in ground arith

        dotted : equal_fold_ascii host suffix ≡ false → at_dot host suffix ≡ true
        dotted ne = unfold suffix_allows in ground arith

    back :
        (1 ≤ length suffix) × (length suffix < proxy_host_max) × IsUnder host suffix
        → suffix_allows host suffix ≡ true
    back (lo, hi, inl eq) = unfold suffix_allows in ground (arith, same.1 eq)
    back (lo, hi, inr (labels, ne, e)) =
        unfold suffix_allows in ground (arith, at_dot_complete host suffix labels h ne e)
