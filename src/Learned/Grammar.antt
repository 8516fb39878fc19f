-- ===== src/Learned/Grammar.antt =====
-- `packageValid` and `isAlnum` of server-go/modules/sandbox/sandbox.go.
use aimee_module_sandbox.Base.{
  ℕ, ◌≤◌, Bool, true, false, ◌&&◌, ◌||◌, [], ◌∷◌, ◌≡◌, refl, arith, leb, ◌==◌, if◌then◌else◌,
  length, All, ◌↔◌, ◌⊎◌, inl, inr, get_or, Bool-cases,
}
use mathlib.Core.Bool.{false≢true}
use aimee_module_sandbox.GoString.{Bytes}

unfoldable pub is_alnum : ℕ → Bool
is_alnum c = (leb b'0' c && leb c b'9') || (leb b'a' c && leb c b'z') || (leb b'A' c && leb c b'Z')

-- The test of one byte in the loop of `packageValid`.
unfoldable pub is_package_byte : ℕ → Bool
is_package_byte c = is_alnum c || c == b'.' || c == b'_' || c == b'+' || c == b':' || c == b'-'

unfoldable pub package_bytes_valid : Bytes → Bool
package_bytes_valid [] = true
package_bytes_valid (c ∷ s) = if is_package_byte c then package_bytes_valid s else false

unfoldable pub package_valid : Bytes → Bool
package_valid s =
    if length s == 0
    then false
    else if is_alnum (get_or s 0 0)
    then package_bytes_valid s
    else false

abbrev pub IsAlnum : ℕ → Type 0
IsAlnum c = ((b'0' ≤ c) × (c ≤ b'9')) ⊎ ((b'a' ≤ c) × (c ≤ b'z')) ⊎ ((b'A' ≤ c) × (c ≤ b'Z'))

abbrev pub IsPackageByte : ℕ → Type 0
IsPackageByte c = IsAlnum c ⊎ (c ≡ b'.') ⊎ (c ≡ b'_') ⊎ (c ≡ b'+') ⊎ (c ≡ b':') ⊎ (c ≡ b'-')

-- A name of the grammar: a letter or digit, then letters, digits and five marks.
pub data IsPackageName : Bytes → Type 0 where
  package_name : {c : ℕ} {s : Bytes} → IsAlnum c → All IsPackageByte s → IsPackageName (c ∷ s)

is_alnum_iff : (c : ℕ) → (is_alnum c ≡ true) ↔ IsAlnum c
unfolding is_alnum
is_alnum_iff c = ground arith

is_package_byte_iff : (c : ℕ) → (is_package_byte c ≡ true) ↔ IsPackageByte c
unfolding is_package_byte is_alnum
is_package_byte_iff c = ground arith

package_bytes_valid_iff : (s : Bytes) → (package_bytes_valid s ≡ true) ↔ All IsPackageByte s
unfolding package_bytes_valid
package_bytes_valid_iff [] = (λ h. tt, λ h. refl)
package_bytes_valid_iff (c ∷ s) =
    let rest = package_bytes_valid_iff s in
    (
      λ h. elim (Bool-cases (is_package_byte c)) [
        | inl good ↦ ((is_package_byte_iff c).0 good, rest.0 (rw good at h))
        | inr bad ↦ absurd (false≢true (rw bad at h))
      ],
      λ h. rw ((is_package_byte_iff c).1 h.0) (rest.1 h.1),
    )

-- The test accepts exactly a letter or digit, of either case, followed by letters, digits and the
-- marks . _ + : and -; the upper-case letters among them are not in the grammar of
-- docs/modules/sandbox.md.
pub package_valid_iff : (s : Bytes) → (package_valid s ≡ true) ↔ IsPackageName s
package_valid_iff s = (forth s, back)
  where
    forth : (s : Bytes) → package_valid s ≡ true → IsPackageName s
    forth [] h = absurd (false≢true (unfold package_valid in h))
    forth (c ∷ s) h =
        let parts : (is_alnum c ≡ true) × (package_bytes_valid (c ∷ s) ≡ true) =
          unfold package_valid in ground arith in
        package_name ((is_alnum_iff c).0 parts.0) ((package_bytes_valid_iff (c ∷ s)).0 parts.1).1

    back : {s : Bytes} → IsPackageName s → package_valid s ≡ true
    back (package_name {c} {s} first rest) =
        let bytes = (package_bytes_valid_iff (c ∷ s)).1 (inl first, rest) in
        let alnum = (is_alnum_iff c).1 first in unfold package_valid in ground arith
