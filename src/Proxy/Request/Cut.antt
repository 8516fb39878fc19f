-- ===== src/Proxy/Request/Cut.antt =====
-- Splitting a text at the first or the last occurrence of a byte.
use aimee_module_sandbox.Base.{
  ℕ, zero, suc, ◌+◌, none, some, [], ◌∷◌, ◌++◌, ◌≡◌, ◌≢◌, refl, arith, length, All, Bool-cases,
  Option-cases, inl, inr, take, drop, ◌==◌, ap,
}
use native.Mathlib.Nat.{zero-add, suc-add}
use native.Mathlib.Numerals.{add-one}
use aimee_module_sandbox.GoString.{Bytes, index_byte, last_index_byte}

abbrev pub Without : ℕ → Bytes → Type 0
Without c s = All (λ b. b ≢ c) s

-- `s` is cut in front of byte number `i`, which is `c`.
abbrev pub CutAt : Bytes → ℕ → ℕ → Bytes → Bytes → Type 0
CutAt s c i x y = (s ≡ x ++ c ∷ y) × (length x ≡ i)

-- The first `c` of a text: no byte before it is `c`.
pub index_byte_sound :
    (s : Bytes) (c i : ℕ)
    → index_byte s c ≡ some i
    → (x : Bytes) × (y : Bytes) × CutAt s c i x y × Without c x
unfolding index_byte
index_byte_sound [] c i e = cc
index_byte_sound (b ∷ s) c i e = elim (Bool-cases (b == c)) [
  | inl here ↦ ([], s, ground arith, tt)
  | inr away ↦ elim (Option-cases (index_byte s c)) [
    | inl missing ↦ absurd (ground arith)
    | inr (j, found) ↦
        let (x, y, cut, free) = index_byte_sound s c j found in
        (b ∷ x, y, (ap (◌∷◌ b) cut.0, ground arith), (ground arith, free))
  ]
]

pub index_byte_complete :
    (x : Bytes) (c : ℕ) (y : Bytes) → Without c x → index_byte (x ++ c ∷ y) c ≡ some (length x)
unfolding index_byte
index_byte_complete [] c y h = ground arith
index_byte_complete (a ∷ x) c y h = ground (arith, index_byte_complete x c y)

last_index_byte-none : (s : Bytes) (c : ℕ) → last_index_byte s c ≡ none → Without c s
unfolding last_index_byte
last_index_byte-none [] c h = tt
last_index_byte-none (b ∷ s) c h = elim (Option-cases (last_index_byte s c)) [
  | inl missing ↦ (ground arith, last_index_byte-none s c missing)
  | inr (j, found) ↦ absurd (ground arith)
]

last_index_byte_free : (s : Bytes) (c : ℕ) → Without c s → last_index_byte s c ≡ none
unfolding last_index_byte
last_index_byte_free [] c h = refl
last_index_byte_free (b ∷ s) c h = ground (arith, last_index_byte_free s c)

-- The last `c` of a text: no byte behind it is `c`.
pub last_index_byte_sound :
    (s : Bytes) (c i : ℕ)
    → last_index_byte s c ≡ some i
    → (x : Bytes) × (y : Bytes) × CutAt s c i x y × Without c y
unfolding last_index_byte
last_index_byte_sound [] c i e = cc
last_index_byte_sound (b ∷ s) c i e = elim (Option-cases (last_index_byte s c)) [
  | inl missing ↦ ([], s, ground arith, last_index_byte-none s c missing)
  | inr (j, found) ↦
      let (x, y, cut, free) = last_index_byte_sound s c j found in
      (b ∷ x, y, (ap (◌∷◌ b) cut.0, ground arith), free)
]

pub last_index_byte_complete :
    (x : Bytes) (c : ℕ) (y : Bytes) → Without c y → last_index_byte (x ++ c ∷ y) c ≡ some (length x)
unfolding last_index_byte
last_index_byte_complete [] c y h = ground (arith, last_index_byte_free y c h)
last_index_byte_complete (a ∷ x) c y h = ground (arith, last_index_byte_complete x c y)

pub take-length : (x y : Bytes) → take (length x) (x ++ y) ≡ x
take-length [] y = refl
take-length (a ∷ x) y = ap (◌∷◌ a) (take-length x y)

pub drop-length : (x : Bytes) (c : ℕ) (y : Bytes) → drop (length x + 1) (x ++ c ∷ y) ≡ y
drop-length x c y = rw add-one (behind x)
  where
    behind : (x : Bytes) → drop (suc (length x)) (x ++ c ∷ y) ≡ y
    behind [] = refl
    behind (a ∷ x) = behind x

pub drop-drop : (i j : ℕ) (s : Bytes) → drop (i + j) s ≡ drop j (drop i s)
drop-drop zero j s = rw zero-add refl
drop-drop (suc i) zero [] = rw suc-add refl
drop-drop (suc i) (suc j) [] = rw suc-add refl
drop-drop (suc i) j (x ∷ s) = rw suc-add (drop-drop i j s)
