-- ===== src/Proxy/Rewrite/Headers.antt =====
-- What the loops of `rewriteProxyHead` over header lines and connection options find out.
use aimee_module_sandbox.Base.{
  ℕ, zero, suc, ◌+◌, ◌≤◌, ◌<◌, true, not, Option, none, some, List, [], ◌∷◌, ◌++◌, ◌≡◌, ◌≢◌, refl,
  arith, All, Bool-cases, Option-cases, inl, inr, take, drop, if◌then◌else◌, ap, sym, ◌∙◌, ◌↔◌,
  All-map,
}
use mathlib.Core.Option
use mathlib.Core.Path.{subst}
use mathlib.Core.Bool.{false≢true}
use mathlib.Core.Option.{some-injective}
use aimee_module_sandbox.GoString.{
  Bytes, Unicode, index_byte, positive, to_lower, trim_space, one_of, rune_starts,
}
use aimee_module_sandbox.GoString.Runes.{All-rune_starts, rune_starts-All}
use aimee_module_sandbox.Proxy.Request.{◌>>=◌}
use aimee_module_sandbox.Proxy.Request.Cut.{index_byte_sound, take-length}
use aimee_module_sandbox.GoString.Equal.{one_of_here, one_of_there}
use aimee_module_sandbox.Proxy.Rewrite.{
  name_bytes_valid, valid_proxy_header_name, read_header, add_options, options_of, is_connection,
  header_name,
}
use aimee_module_sandbox.Proxy.Rewrite.Lines.{read_all}

-- A byte of a header name: no control byte, no blank, no DEL.
abbrev pub IsNameByte : ℕ → Type 0
IsNameByte c = (0x20 < c) × (c ≢ 0x7f)

name_bytes_valid_iff : (s : Bytes) → (name_bytes_valid s ≡ true) ↔ All IsNameByte s
unfolding name_bytes_valid
name_bytes_valid_iff [] = (λ h. tt, λ h. refl)
name_bytes_valid_iff (c ∷ s) =
    let rest = name_bytes_valid_iff s in
    (λ h. (ground arith, rest.0 (ground arith)), λ h. ground (arith, rest.1 h.1))

high-IsNameByte : (b : ℕ) → 128 ≤ b → IsNameByte b
high-IsNameByte b h = omega arith

-- A header name is accepted exactly when it is not empty and all of its bytes, those that the loop
-- over runes does not visit included, are name bytes.
pub valid_proxy_header_name_iff :
    (name : Bytes) → (valid_proxy_header_name name ≡ true) ↔ ((name ≢ []) × All IsNameByte name)
unfolding valid_proxy_header_name
valid_proxy_header_name_iff [] = (λ h. cc, λ h. absurd (h.0 refl))
valid_proxy_header_name_iff (c ∷ s) = (
  λ h. (
    λ e. cc,
    All-rune_starts IsNameByte high-IsNameByte 0 (c ∷ s) tt
        ((name_bytes_valid_iff (rune_starts 0 (c ∷ s))).0 (ground arith)),
  ),
  λ h.
      let visited =
        (name_bytes_valid_iff (rune_starts 0 (c ∷ s))).1
          (rune_starts-All IsNameByte 0 (c ∷ s) h.1) in
      ground (arith, visited),
)

module _ (u : Unicode) where
  abbrev pub option_name : Bytes → Bytes
  option_name option = to_lower u (trim_space u option)

  abbrev pub colon_of : Bytes → ℕ
  colon_of line = Option.get_or (index_byte line b':') 0

  -- The text behind the colon.
  abbrev pub header_value : Bytes → Bytes
  header_value line = drop (colon_of line + 1) line

  -- A line with a name that is valid and a colon behind it.
  abbrev pub IsHeader : Bytes → Type 0
  IsHeader line =
      (name : Bytes) × (value : Bytes) × (line ≡ name ++ b':' ∷ value)
      × (name ≢ [])
      × All IsNameByte name

  -- The name is among those that the connection headers have nominated.
  abbrev pub Nominated : List Bytes → Bytes → Type 0
  Nominated nominated name = one_of name nominated ≡ true

  -- All options of a connection header are nominated.
  abbrev pub AreNominated : List Bytes → Bytes → Type 0
  AreNominated nominated line =
      is_connection (header_name u line) ≡ true
      → All (λ option. Nominated nominated (option_name option)) (options_of (header_value line))

  abbrev Keeps : List Bytes → List Bytes → Type 0
  Keeps before after = (name : Bytes) → Nominated before name → Nominated after name

  add_options_lem :
      (before options after : List Bytes)
      → add_options u before options ≡ some after
      → Keeps before after × All (λ option. Nominated after (option_name option)) options
  unfolding add_options
  add_options_lem before [] after e = (λ name h. rw (← e') h, tt)
    where
      e' : before ≡ after
      e' = some-injective _ _ e
  add_options_lem before (option ∷ options) after e =
      let (keeps, all) =
        add_options_lem (option_name option ∷ before) options after (ground arith) in
      (
        λ name h. keeps name (one_of_there name (option_name option) before h),
        (keeps _ (one_of_here (option_name option) before), all),
      )

  -- The guards of one header line, at the name and the value that the colon separates.
  abbrev read_parts : Bytes → Bytes → List Bytes → Option (List Bytes)
  read_parts name value before =
      if not (valid_proxy_header_name name)
      then none
      else if is_connection (to_lower u name)
      then add_options u before (options_of value)
      else some before

  read_parts_lem :
      (name value : Bytes) (before after : List Bytes)
      → read_parts name value before ≡ some after
      → (valid_proxy_header_name name ≡ true)
        × Keeps before after
        × (is_connection (to_lower u name) ≡ true
            → All (λ option. Nominated after (option_name option)) (options_of value))
  read_parts_lem name value before after e = elim (Bool-cases (valid_proxy_header_name name)) [
    | inr bad ↦ absurd (ground arith)
    | inl good ↦ elim (Bool-cases (is_connection (to_lower u name))) [
      | inl yes_connection ↦
          let found =
            add_options_lem before (options_of value) after (rw (good, yes_connection) at e) in
          (good, found.0, λ c. found.1)
      | inr other ↦
          let same : before ≡ after = some-injective _ _ (rw (good, other) at e) in
          (good, λ name h. rw (← same) h, λ c. absurd (false≢true (sym other ∙ c)))
    ]
  ]

  read_header_at :
      (line : Bytes) (i : ℕ) (before : List Bytes)
      → index_byte line b':' ≡ some (suc i)
      → read_header u line before ≡ read_parts (take (suc i) line) (drop (suc i + 1) line) before
  unfolding read_header
  read_header_at line i before found = rw found refl

  colon_at : (line : Bytes) (i : ℕ) → index_byte line b':' ≡ some i → colon_of line ≡ i
  colon_at line i found = ap (λ o. Option.get_or o 0) found

  header_name_at :
      (line : Bytes) (i : ℕ)
      → index_byte line b':' ≡ some (suc i)
      → header_name u line ≡ to_lower u (take (suc i) line)
  unfolding header_name
  header_name_at line i found = ap (λ k. to_lower u (take k line)) (colon_at line (suc i) found)

  -- One header line that is read: it is a header, and what it nominates is added.
  read_header_lem :
      (line : Bytes) (before after : List Bytes)
      → read_header u line before ≡ some after
      → IsHeader line × Keeps before after × AreNominated after line
  read_header_lem line before after e = elim (Option-cases (index_byte line b':')) [
    | inl missing ↦ absurd (no_header (rw missing at (opened e)))
    | inr (zero, found) ↦ absurd (no_header (rw found at (opened e)))
    | inr (suc i, found) ↦
        let (name, value, cut, free) = index_byte_sound line b':' (suc i) found in
        let parts =
          read_parts_lem (take (suc i) line) (drop (suc i + 1) line) before after
            (sym (read_header_at line i before found) ∙ e) in
        let is_name : take (suc i) line ≡ name =
          rw (← cut.1, cut.0) (take-length name (b':' ∷ value)) in
        let valid = (valid_proxy_header_name_iff name).0 (rw (← is_name) parts.0) in
        (
          (name, value, cut.0, valid.0, valid.1),
          parts.1,
          λ c.
              subst
                (λ k.
                  All (λ option. Nominated after (option_name option))
                    (options_of (drop (k + 1) line)))
                (sym (colon_at line (suc i) found))
                (parts.2 (rw (header_name_at line i found) at c)),
        )
  ]
    where
      no_header : ◌≡◌ {A = Option (List Bytes)} none (some after) → ⊥
      no_header e = cc

      opened :
          read_header u line before ≡ some after
          → (positive (index_byte line b':') >>= λ colon.
              if not (valid_proxy_header_name (take colon line))
              then none
              else if is_connection (to_lower u (take colon line))
              then add_options u before (options_of (drop (colon + 1) line))
              else some before)
            ≡ some after
      opened e = unfold read_header in e

  AreNominated-mono :
      (mid after : List Bytes) (line : Bytes)
      → Keeps mid after
      → AreNominated mid line
      → AreNominated after line
  AreNominated-mono mid after line keeps h c =
      All-map _ _ (λ option m. keeps (option_name option) m) (options_of (header_value line)) (h c)

  -- The names nominated by all the lines.
  pub read_all_lem :
      (lines : List Bytes) (before after : List Bytes)
      → read_all u lines before ≡ some after
      → Keeps before after × All IsHeader lines × All (AreNominated after) lines
  read_all_lem [] before after e =
      let same : before ≡ after = some-injective _ _ e in (λ name h. rw (← same) h, tt, tt)
  read_all_lem (line ∷ lines) before after e = elim (Option-cases (read_header u line before)) [
    | inl refusal ↦ absurd (ground arith)
    | inr (mid, read) ↦
        let (header, keeps, named) = read_header_lem line before mid read in
        let (keeps', headers, named') = read_all_lem lines mid after (rw read at e) in
        (
          λ name h. keeps' name (keeps name h),
          (header, headers),
          (AreNominated-mono mid after line keeps' named, named'),
        )
  ]
