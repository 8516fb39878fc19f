-- ===== src/Proxy/Rewrite/Lines.antt =====
-- The lines of a head, and the loop that takes them one by one.
use aimee_module_sandbox.Base.{
  ℕ, zero, suc, ◌+◌, ◌≤◌, ◌<◌, Option, none, some, List, [], ◌∷◌, ◌++◌, ◌≡◌, refl, arith, leb,
  length, Bool-cases, Option-cases, inl, inr, take, ◌==◌, if◌then◌else◌, ap, sym, ◌∙◌,
  length-append,
}
use mathlib.Core.Path.{subst}
use mathlib.Core.List.{append-nil, append_assoc}
use native.Mathlib.Numerals.{add-one}
use aimee_module_sandbox.GoString.{Bytes, Unicode, index_byte}
use aimee_module_sandbox.Proxy.Request.{◌>>=◌}
use aimee_module_sandbox.Proxy.Request.Cut.{Without, index_byte_sound, drop-length}
use aimee_module_sandbox.Proxy.Rewrite.{next_line, Collected, done, refused, collect, read_header}

abbrev onto_first : ℕ → List Bytes → List Bytes
onto_first c [] = (c ∷ []) ∷ []
onto_first c (line ∷ lines) = (c ∷ line) ∷ lines

-- The lines of a text, each with its line feed.
abbrev pub lines_of : Bytes → List Bytes
lines_of [] = []
lines_of (c ∷ s) = if c == b'\n' then (c ∷ []) ∷ lines_of s else onto_first c (lines_of s)

-- The lines in front of the first one of at most two bytes.
abbrev pub until_short : List Bytes → List Bytes
until_short [] = []
until_short (line ∷ lines) = if leb (length line) 2 then [] else line ∷ until_short lines

-- The header lines of what stands behind the request line.
abbrev pub header_lines : Bytes → List Bytes
header_lines s = until_short (lines_of s)

lines_of_cut :
    (x y : Bytes) → Without b'\n' x → lines_of (x ++ b'\n' ∷ y) ≡ (x ++ b'\n' ∷ []) ∷ lines_of y
lines_of_cut [] y h = refl
lines_of_cut (c ∷ x) y h = ground (arith, h.0, lines_of_cut x y h.1)

lines_of_last : (c : ℕ) (x : Bytes) → Without b'\n' (c ∷ x) → lines_of (c ∷ x) ≡ (c ∷ x) ∷ []
lines_of_last c [] h = ground (arith, h.0)
lines_of_last c (d ∷ x) h = ground (arith, h.0, lines_of_last d x h.1)

index_byte-none : (s : Bytes) (c : ℕ) → index_byte s c ≡ none → Without c s
unfolding index_byte
index_byte-none [] c h = tt
index_byte-none (b ∷ s) c h = elim (Option-cases (index_byte s c)) [
  | inl missing ↦ (ground arith, index_byte-none s c missing)
  | inr (j, found) ↦ absurd (ground arith)
]

take-suc : (x : Bytes) (c : ℕ) (y : Bytes) → take (length x + 1) (x ++ c ∷ y) ≡ x ++ c ∷ []
take-suc x c y = rw add-one (through x)
  where
    through : (x : Bytes) → take (suc (length x)) (x ++ c ∷ y) ≡ x ++ c ∷ []
    through [] = refl
    through (a ∷ x) = ap (◌∷◌ a) (through x)

next_line_last : (s : Bytes) → index_byte s b'\n' ≡ none → next_line s ≡ (s, [])
unfolding next_line
next_line_last s e = rw (e, next_line) refl

next_line_found :
    (x y : Bytes)
    → index_byte (x ++ b'\n' ∷ y) b'\n' ≡ some (length x)
    → next_line (x ++ b'\n' ∷ y) ≡ (x ++ b'\n' ∷ [], y)
unfolding next_line
next_line_found x y e = rw (e, next_line) (rw (take-suc x b'\n' y, drop-length x b'\n' y) refl)

-- `s` begins with `line`, its first line, and goes on with `rest`.
abbrev pub FirstLine : Bytes → Bytes × Bytes → Type 0
FirstLine s (line, rest) = (lines_of s ≡ line ∷ lines_of rest) × (length rest < length s)

-- One round takes the first of the lines, and what is left is shorter.
pub next_line-FirstLine : (c : ℕ) (s : Bytes) → FirstLine (c ∷ s) (next_line (c ∷ s))
next_line-FirstLine c s = elim (Option-cases (index_byte (c ∷ s) b'\n')) [
  | inl missing ↦
      subst (FirstLine (c ∷ s)) (sym (next_line_last (c ∷ s) missing))
        (lines_of_last c s (index_byte-none (c ∷ s) b'\n' missing), omega arith)
  | inr (i, found) ↦
      let (x, y, cut, free) = index_byte_sound (c ∷ s) b'\n' i found in
      let found' =
        ap (λ (t : Bytes). index_byte t b'\n') (sym cut.0) ∙ found ∙ ap some (sym cut.1) in
      subst (λ t. FirstLine t (next_line t)) (sym cut.0)
        (subst (FirstLine (x ++ b'\n' ∷ y)) (sym (next_line_found x y found'))
          (lines_of_cut x y free, omega (arith, length-append x (b'\n' ∷ y))))
]

module _ (u : Unicode) where
  -- The header lines read in turn; `none` where one of them is refused.
  abbrev pub read_all : List Bytes → List Bytes → Option (List Bytes)
  read_all [] nominated = some nominated
  read_all (line ∷ lines) nominated = read_header u line nominated >>= read_all lines

  abbrev pub collected : List Bytes → Option (List Bytes) → Collected
  collected headers none = refused
  collected headers (some nominated) = done headers nominated

  -- With as much fuel as there are bytes the loop reads exactly the header lines, in order.
  pub collect_lem :
      (fuel : ℕ) (s : Bytes) (headers nominated : List Bytes)
      → length s ≤ fuel
      → collect u fuel s headers nominated
        ≡ collected (headers ++ header_lines s) (read_all (header_lines s) nominated)
  unfolding collect
  collect_lem fuel [] headers nominated h = rw append-nil refl
  collect_lem zero (c ∷ s) headers nominated h = absurd (omega arith)
  collect_lem (suc fuel) (c ∷ s) headers nominated h =
      subst
        (λ lines.
          collect u (suc fuel) (c ∷ s) headers nominated
          ≡ collected (headers ++ until_short lines) (read_all (until_short lines) nominated))
        (sym first.0)
        (elim (Bool-cases (leb (length line) 2)) [
          | inl short ↦ rw short (rw append-nil refl)
          | inr long ↦ elim (Option-cases (read_header u line nominated)) [
            | inl refusal ↦ rw (long, refusal) refl
            | inr (nominated', accepted) ↦
                rw (long, accepted)
                  (collect_lem fuel rest (headers ++ line ∷ []) nominated' (omega (arith, first.1))
                    ∙ rw (append_assoc headers (line ∷ []) (header_lines rest)) refl)
          ]
        ])
    where
      line : Bytes
      line = (next_line (c ∷ s)).0

      rest : Bytes
      rest = (next_line (c ∷ s)).1

      first : FirstLine (c ∷ s) (line, rest)
      first = next_line-FirstLine c s
