-- ===== src/Proxy/Rewrite/Cuts.antt =====
-- The cuts of `rewriteProxyHead`: the slices of a head at its first line feed and at the blanks of
-- its first line.
use aimee_module_sandbox.Base.{
  ℕ, ◌+◌, ◌-◌, ◌∷◌, ◌++◌, ◌≡◌, arith, length, take, drop, ap, sym, ◌∙◌, length-append,
}
use mathlib.Core.Path.{ap₂}
use mathlib.Core.List.{append_assoc}
use aimee_module_sandbox.GoString.{Bytes, slice}
use aimee_module_sandbox.Proxy.Request.Cut.{take-length, drop-length}

sub_self_add : (i j : ℕ) → i + j - i ≡ j
sub_self_add i j = omega arith

-- What stands between a byte and the end of the line.
slice_line :
    (x : Bytes) (c : ℕ) (y tail : Bytes)
    → slice ((x ++ c ∷ y) ++ tail) (length x + 1) (length (x ++ c ∷ y)) ≡ y
slice_line x c y tail =
    ap (λ (s : Bytes). slice s (length x + 1) (length (x ++ c ∷ y))) (append_assoc x (c ∷ y) tail)
    ∙ ap (λ (s : Bytes). take (length (x ++ c ∷ y) - (length x + 1)) s)
        (drop-length x c (y ++ tail))
    ∙ ap (λ (n : ℕ). take n (y ++ tail)) (omega (arith, length-append x (c ∷ y)))
    ∙ take-length y tail

-- The word behind a byte.
slice_word :
    (x : Bytes) (c : ℕ) (y tail : Bytes)
    → slice (x ++ (c ∷ (y ++ tail))) (length x + 1) (length x + 1 + length y) ≡ y
slice_word x c y tail =
    ap (λ (s : Bytes). take (length x + 1 + length y - (length x + 1)) s)
      (drop-length x c (y ++ tail))
    ∙ ap (λ (n : ℕ). take n (y ++ tail)) (sub_self_add (length x + 1) (length y))
    ∙ take-length y tail

-- A head that is cut at its first line feed and the first two blanks of that line.
abbrev pub head_of : Bytes → Bytes → Bytes → Bytes → Bytes
head_of method target version rest =
    (method ++ (b' ' ∷ (target ++ (b' ' ∷ version)))) ++ (b'\n' ∷ rest)

module _ (method target version rest : Bytes) where
  abbrev pub line : Bytes
  line = method ++ (b' ' ∷ (target ++ (b' ' ∷ version)))

  abbrev pub head : Bytes
  head = head_of method target version rest

  pub head_method : take (length method) head ≡ method
  head_method =
      ap (take (length method))
        (append_assoc method (b' ' ∷ (target ++ (b' ' ∷ version))) (b'\n' ∷ rest))
      ∙ take-length method _

  pub head_target : slice head (length method + 1) (length method + 1 + length target) ≡ target
  head_target =
      ap (λ (s : Bytes). slice s (length method + 1) (length method + 1 + length target))
        (append_assoc method (b' ' ∷ (target ++ (b' ' ∷ version))) (b'\n' ∷ rest)
          ∙ ap (λ (s : Bytes). method ++ (b' ' ∷ s))
              (append_assoc target (b' ' ∷ version) (b'\n' ∷ rest)))
      ∙ slice_word method b' ' target ((b' ' ∷ version) ++ (b'\n' ∷ rest))

  pub head_version : slice head (length method + 1 + length target + 1) (length line) ≡ version
  head_version =
      ap₂ (λ (n : ℕ) (s : Bytes). slice (s ++ (b'\n' ∷ rest)) (n + 1) (length s)) lengths regrouped
      ∙ slice_line (method ++ (b' ' ∷ target)) b' ' version (b'\n' ∷ rest)
    where
      lengths : length method + 1 + length target ≡ length (method ++ (b' ' ∷ target))
      lengths = omega (arith, length-append method (b' ' ∷ target))

      regrouped : line ≡ (method ++ (b' ' ∷ target)) ++ (b' ' ∷ version)
      regrouped = sym (append_assoc method (b' ' ∷ target) (b' ' ∷ version))

  pub head_rest : drop (length line + 1) head ≡ rest
  head_rest = drop-length line b'\n' rest

-- What stands behind a cut of the first line, up to its end.
pub behind_line :
    (whole l rest x y : Bytes) (eol i : ℕ)
    → whole ≡ l ++ b'\n' ∷ rest
    → length l ≡ eol
    → l ≡ x ++ b' ' ∷ y
    → length x ≡ i
    → slice whole (i + 1) eol ≡ y
behind_line whole l rest x y eol i p q r t =
    rw (p, ← q, ← t, r) (slice_line x b' ' y (b'\n' ∷ rest))
