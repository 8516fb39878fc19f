-- ===== src/GoString/Equal.antt =====
-- Comparison of strings, and membership in a list of them.
use aimee_module_sandbox.Base.{
  true, false, List, [], ◌∷◌, ◌++◌, ◌≡◌, ◌≢◌, refl, arith, Bool-cases, inl, inr,
}
use mathlib.Core.Path.{ap₂}
use aimee_module_sandbox.GoString.{Bytes, equal, one_of}

pub equal_sound : (x y : Bytes) → equal x y ≡ true → x ≡ y
unfolding equal
equal_sound [] [] h = refl
equal_sound (a ∷ x) (b ∷ y) h = ap₂ ◌∷◌ (ground arith) (equal_sound x y (ground arith))
equal_sound [] (b ∷ y) h = cc
equal_sound (a ∷ x) [] h = cc

pub equal_refl : (x : Bytes) → equal x x ≡ true
unfolding equal
equal_refl [] = refl
equal_refl (a ∷ x) = ground (arith, equal_refl x)

pub equal_ne : (x y : Bytes) → x ≢ y → equal x y ≡ false
equal_ne x y h = elim (Bool-cases (equal x y)) [
  | inl e ↦ absurd (h (equal_sound x y e))
  | inr e ↦ e
]

pub one_of-append :
    (name : Bytes) (xs ys : List Bytes) → one_of name xs ≡ true → one_of name (xs ++ ys) ≡ true
unfolding one_of
one_of-append name [] ys h = absurd (ground arith)
one_of-append name (x ∷ xs) ys h = let ih = one_of-append name xs ys in ground (arith, ih)

pub one_of_last : (name : Bytes) (xs ys : List Bytes) → one_of name (xs ++ name ∷ ys) ≡ true
unfolding one_of
one_of_last name [] ys = rw (equal_refl name) refl
one_of_last name (x ∷ xs) ys = let ih = one_of_last name xs ys in ground (arith, ih)

pub one_of_here : (name : Bytes) (names : List Bytes) → one_of name (name ∷ names) ≡ true
one_of_here name names = one_of_last name [] names

pub one_of_there :
    (name x : Bytes) (names : List Bytes)
    → one_of name names ≡ true
    → one_of name (x ∷ names) ≡ true
unfolding one_of
one_of_there name x names h = ground (arith, h)
