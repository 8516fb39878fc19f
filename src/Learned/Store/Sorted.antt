-- ===== src/Learned/Store/Sorted.antt =====
-- `sort.Strings`: the order and the elements of its result.
use aimee_module_sandbox.Base.{
  suc, true, false, List, [], ◌∷◌, ◌≡◌, refl, arith, length, All, All-map, Bool-cases, inl, inr,
}
use mathlib.Core.List.{Permᴰ}
use mathlib.Core.List.Permᴰ
use aimee_module_sandbox.GoString.{Bytes}
use aimee_module_sandbox.Learned.Store.{string_le, insert, sort_strings}

abbrev pub IsSorted : List Bytes → Type 0
IsSorted [] = Unit
IsSorted (s ∷ ss) = All (λ t. string_le s t ≡ true) ss × IsSorted ss

string_le_trans :
    (s t w : Bytes) → string_le s t ≡ true → string_le t w ≡ true → string_le s w ≡ true
unfolding string_le
string_le_trans [] t w h k = refl
string_le_trans (a ∷ s) [] w h k = absurd (ground arith)
string_le_trans (a ∷ s) (b ∷ t) [] h k = absurd (ground arith)
string_le_trans (a ∷ s) (b ∷ t) (c ∷ w) h k = let ih = string_le_trans s t w in ground (arith, ih)

string_le_total : (s t : Bytes) → string_le s t ≡ false → string_le t s ≡ true
unfolding string_le
string_le_total [] t h = absurd (ground arith)
string_le_total (a ∷ s) [] h = refl
string_le_total (a ∷ s) (b ∷ t) h = let ih = string_le_total s t in ground (arith, ih)

All-insert :
    (P : Bytes → Type 0) (s : Bytes) (ts : List Bytes) → P s → All P ts → All P (insert s ts)
unfolding insert
All-insert P s [] h k = (h, tt)
All-insert P s (t ∷ ts) h k = elim (Bool-cases (string_le s t)) [
  | inl le ↦ rw le (h, k)
  | inr gt ↦ rw gt (k.0, All-insert P s ts h k.1)
]

insert-IsSorted : (s : Bytes) (ts : List Bytes) → IsSorted ts → IsSorted (insert s ts)
unfolding insert
insert-IsSorted s [] h = (tt, tt)
insert-IsSorted s (t ∷ ts) h = elim (Bool-cases (string_le s t)) [
  | inl le ↦ rw le (
    (
      le,
      All-map (λ w. string_le t w ≡ true) (λ w. string_le s w ≡ true)
          (λ w. string_le_trans s t w le) ts h.0,
    ),
    h,
  )
  | inr gt ↦ rw gt (
    All-insert (λ w. string_le t w ≡ true) s ts (string_le_total s t gt) h.0,
    insert-IsSorted s ts h.1,
  )
]

pub sort_strings-IsSorted : (ss : List Bytes) → IsSorted (sort_strings ss)
unfolding sort_strings
sort_strings-IsSorted [] = tt
sort_strings-IsSorted (s ∷ ss) = insert-IsSorted s (sort_strings ss) (sort_strings-IsSorted ss)

insert-Perm : (s : Bytes) (ts : List Bytes) → Permᴰ (insert s ts) (s ∷ ts)
unfolding insert
insert-Perm s [] = Permᴰ.refl (s ∷ [])
insert-Perm s (t ∷ ts) = elim (Bool-cases (string_le s t)) [
  | inl le ↦ rw le (Permᴰ.refl (s ∷ t ∷ ts))
  | inr gt ↦ rw gt (Permᴰ.trans (Permᴰ.cons refl (insert-Perm s ts)) (Permᴰ.swap refl refl))
]

pub sort_strings-Perm : (ss : List Bytes) → Permᴰ (sort_strings ss) ss
unfolding sort_strings
sort_strings-Perm [] = Permᴰ.nil
sort_strings-Perm (s ∷ ss) =
    Permᴰ.trans (insert-Perm s (sort_strings ss)) (Permᴰ.cons refl (sort_strings-Perm ss))

pub sort_strings-All : (P : Bytes → Type 0) (ss : List Bytes) → All P ss → All P (sort_strings ss)
unfolding sort_strings
sort_strings-All P [] h = tt
sort_strings-All P (s ∷ ss) h = All-insert P s (sort_strings ss) h.0 (sort_strings-All P ss h.1)

length-insert : (s : Bytes) (ts : List Bytes) → length (insert s ts) ≡ suc (length ts)
unfolding insert
length-insert s [] = refl
length-insert s (t ∷ ts) = elim (Bool-cases (string_le s t)) [
  | inl le ↦ rw (le, insert) refl
  | inr gt ↦ rw (gt, insert) (omega (arith, length-insert s ts))
]

pub length-sort_strings : (ss : List Bytes) → length (sort_strings ss) ≡ length ss
unfolding sort_strings
length-sort_strings [] = refl
length-sort_strings (s ∷ ss) =
    omega (arith, length-insert s (sort_strings ss), length-sort_strings ss)
