-- ===== src/Learned/Store/Loaded.antt =====
-- `Load`: what may reach a generated Dockerfile.
use aimee_module_sandbox.Base.{
  ℕ, zero, suc, ◌-◌, ◌≤◌, ◌<◌, false, ◌||◌, List, [], ◌∷◌, ◌++◌, ◌≡◌, refl, arith, leb, ◌==◌,
  if◌then◌else◌, length, take, All, All-take, Bool-cases, inl, inr, ◌∙◌, sym, ap, length-append,
  length-take, if_elim,
}
use mathlib.Core.List.{Permᴰ, append-nil, append_assoc}
use aimee_module_sandbox.GoString.{Bytes}
use aimee_module_sandbox.Learned.Grammar.{package_valid, IsPackageName, package_valid_iff}
use aimee_module_sandbox.Learned.Store.{Codec, Faults, Disk, names_of, valid_names, read, load}
use aimee_module_sandbox.Learned.Store.Sorted.{
  IsSorted, sort_strings-IsSorted, sort_strings-Perm, sort_strings-All, length-sort_strings,
}

-- The names of the grammar, in their order.
abbrev pub valid_only : List Bytes → List Bytes
valid_only [] = []
valid_only (name ∷ names) = if package_valid name then name ∷ valid_only names else valid_only names

valid_only-All : (names : List Bytes) → All IsPackageName (valid_only names)
valid_only-All [] = tt
valid_only-All (name ∷ names) = elim (Bool-cases (package_valid name)) [
  | inl good ↦ rw good ((package_valid_iff name).0 good, valid_only-All names)
  | inr bad ↦ rw bad (valid_only-All names)
]

take_none : (n : ℕ) → take {A = Bytes} n [] ≡ []
take_none zero = refl
take_none (suc n) = refl

take_zero : (n : ℕ) (xs : List Bytes) → n ≡ 0 → take n xs ≡ []
take_zero zero xs h = refl
take_zero (suc n) xs h = absurd (omega arith)

take-suc : (n k : ℕ) (x : Bytes) (xs : List Bytes) → n ≡ suc k → take n (x ∷ xs) ≡ x ∷ take k xs
take-suc n k x xs h = rw h refl

valid_names_lem :
    (max : ℕ) (out names : List Bytes)
    → valid_names max out names ≡ out ++ take (max - length out) (valid_only names)
unfolding valid_names
valid_names_lem max out [] =
    sym (ap (λ s. out ++ s) (take_none (max - length out)) ∙ append-nil out)
valid_names_lem max out (name ∷ names) = elim (Bool-cases (leb max (length out))) [
  | inl full ↦
      rw (full, valid_names)
        (sym (
          ap (λ s. out ++ s)
            (take_zero (max - length out) (valid_only (name ∷ names)) (ground arith))
          ∙ append-nil out))
  | inr room ↦
      rw (room, valid_names)
        (elim (Bool-cases (package_valid name)) [
          | inr bad ↦ rw bad (valid_names_lem max out names)
          | inl good ↦ rw good (
              valid_names_lem max (out ++ name ∷ []) names
              ∙ append_assoc out (name ∷ [])
                  (take (max - length (out ++ name ∷ [])) (valid_only names))
              ∙ ap (λ s. out ++ s)
                  (sym (
                    take-suc (max - length out) (max - length (out ++ name ∷ [])) name
                      (valid_only names) (fewer room))))
        ])
]
  where
    fewer : leb max (length out) ≡ false → max - length out ≡ suc (max - length (out ++ name ∷ []))
    fewer room = ground (arith, length-append out (name ∷ []))

-- The set that `Load` returns from a document.
abbrev pub IsLoaded : ℕ → List Bytes → List Bytes → Type 0
IsLoaded max names out =
    Permᴰ out (take max (valid_only names))
    × IsSorted out
    × All IsPackageName out
    × (length out ≤ max)

-- A call of `Load` that names a root and asks for a name at least returns, in order, the first
-- `max` names of the root in the document that are in the grammar, whatever the disk holds.
pub load-IsLoaded :
    (json : Codec) (faults : Faults) (disk : Disk) (root : Bytes) (max : ℕ)
    → 0 < length root
    → IsLoaded max (names_of (read json faults disk) root) (load json faults disk root max)
unfolding load
load-IsLoaded json faults disk root max h =
    if_elim (IsLoaded max names) (length root == 0 || max == 0) {x = []}
      (λ none_asked.
        let none_left = take_zero max (valid_only names) (ground arith) in
        (rw none_left Permᴰ.nil, tt, tt, omega arith))
      λ asked. rw all_kept (
        sort_strings-Perm kept,
        sort_strings-IsSorted kept,
        sort_strings-All IsPackageName kept
            (All-take IsPackageName max (valid_only names) (valid_only-All names)),
        omega (arith, length-sort_strings kept, length-take max (valid_only names)),
      )
  where
    names : List Bytes
    names = names_of (read json faults disk) root

    kept : List Bytes
    kept = take max (valid_only names)

    all_kept : valid_names max [] names ≡ kept
    all_kept = valid_names_lem max [] names ∙ ap (λ n. take n (valid_only names)) (omega arith)
