-- ===== src/Proxy/Host/Fold.antt =====
-- `equalFoldASCII` against equality of the lower-case forms.
use aimee_module_sandbox.Base.{
  ℕ, zero, suc, ◌-◌, ◌≤◌, ◌<◌, true, [], ◌∷◌, ◌≡◌, refl, ap, map, arith, length, All, ◌↔◌,
}
use mathlib.Core.Path.{ap₂}
use aimee_module_sandbox.GoString.{Bytes, rune_width}
use aimee_module_sandbox.GoString.Runes.{rune_width_ascii}
use aimee_module_sandbox.Proxy.Host.{lower_ascii, fold_loop, equal_fold_ascii}

abbrev pub IsAscii : ℕ → Type 0
IsAscii b = b < 128

abbrev pub lower : Bytes → Bytes
lower = map lower_ascii

lower_ascii-IsAscii : (a b : ℕ) → lower_ascii a ≡ lower_ascii b → b < 128 → a < 128
unfolding lower_ascii
lower_ascii-IsAscii a b e h = ground arith

pub length-lower : (s : Bytes) → length (lower s) ≡ length s
length-lower [] = refl
length-lower (c ∷ s) = ap suc (length-lower s)

fold_loop_sound :
    (left right : Bytes)
    → All IsAscii right
    → length left ≡ length right
    → fold_loop 0 left right ≡ true
    → lower left ≡ lower right
unfolding fold_loop
fold_loop_sound [] [] h len e = refl
fold_loop_sound [] (b ∷ right) h len e = absurd (omega arith)
fold_loop_sound (a ∷ left) [] h len e = absurd (omega arith)
fold_loop_sound (a ∷ left) (b ∷ right) h len e =
    ap₂ ◌∷◌ heads (fold_loop_sound left right h.1 (omega arith) (rw one at tails))
  where
    heads : lower_ascii a ≡ lower_ascii b
    heads = ground arith

    one : rune_width a left ≡ 1
    one = rune_width_ascii a left (lower_ascii-IsAscii a b heads h.0)

    tails : fold_loop (rune_width a left - 1) left right ≡ true
    tails = ground arith

-- The loop sees equal bytes wherever the lower-case forms are equal, ASCII or not.
fold_loop_complete :
    (skip : ℕ) (left right : Bytes) → lower left ≡ lower right → fold_loop skip left right ≡ true
unfolding fold_loop
fold_loop_complete skip [] right e = refl
fold_loop_complete skip (a ∷ left) [] e = refl
fold_loop_complete (suc skip) (a ∷ left) (b ∷ right) e = fold_loop_complete skip left right (cc)
fold_loop_complete zero (a ∷ left) (b ∷ right) e =
    let heads : lower_ascii a ≡ lower_ascii b = cc in
    let tails : lower left ≡ lower right = cc in
    ground (arith, heads, fold_loop_complete (rune_width a left - 1) left right tails)

-- Against an ASCII text the comparison is equality up to the case of letters.
pub equal_fold_ascii_iff :
    (left right : Bytes)
    → All IsAscii right
    → (equal_fold_ascii left right ≡ true) ↔ (lower left ≡ lower right)
unfolding equal_fold_ascii
equal_fold_ascii_iff left right h = (
  λ e. fold_loop_sound left right h (ground arith) (ground arith),
  λ e.
      let len : length left ≡ length right =
        omega (arith, ap length e, length-lower left, length-lower right) in
      ground (arith, len, fold_loop_complete 0 left right e),
)

-- Two texts that differ in the second byte of a two-byte rune are taken for equal.
pub equal_fold_ascii_skips :
    (a x y : ℕ) (s : Bytes)
    → 0xc2 ≤ a
    → a < 0xe0
    → 0x80 ≤ x
    → x < 0xc0
    → equal_fold_ascii (a ∷ x ∷ s) (a ∷ y ∷ s) ≡ true
unfolding equal_fold_ascii fold_loop
equal_fold_ascii_skips a x y s ha hb hx hy =
    let two : rune_width a (x ∷ s) ≡ 2 = unfold rune_width in ground arith in
    ground (arith, two, fold_loop_complete 0 s s refl)
