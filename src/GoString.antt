-- ===== src/GoString.antt =====
-- Go strings as byte lists, and the functions of the language and of package `strings` that the
-- sources call. `for i := range s` steps by runes: it visits the first byte of each rune alone.
pub mod Runes
pub mod Search
pub mod Equal
use aimee_module_sandbox.Base.{
  ℕ, zero, suc, ◌+◌, ◌-◌, ◌*◌, ◌%◌, ◌<◌, Bool, true, false, not, ◌&&◌, ◌||◌, Option, none, some,
  List, [], ◌∷◌, ◌++◌, map, ltb, leb, ◌==◌, if◌then◌else◌, length, take, drop,
}
use Prim.Native.Char.{code}
use Prim.Native.String.{String}
use mathlib.Core.Option

abbrev pub Bytes : Type 0
Bytes = List ℕ

abbrev pub IsByte : ℕ → Type 0
IsByte b = b < 256

-- The bytes of a literal; every literal of the development is ASCII.
abbrev pub codes : String → Bytes
codes String.[] = []
codes (String.◌∷◌ c s) = code c ∷ codes s

-- `a == b` on strings.
unfoldable pub equal : Bytes → Bytes → Bool
equal [] [] = true
equal (x ∷ xs) (y ∷ ys) = x == y && equal xs ys
equal [] (y ∷ ys) = false
equal (x ∷ xs) [] = false

-- A `switch` on string constants, and `contains` of sandbox.go: is the string one of these?
unfoldable pub one_of : Bytes → List Bytes → Bool
unfolding equal
one_of s [] = false
one_of s (t ∷ ts) = equal t s || one_of s ts

unfoldable pub has_prefix : Bytes → Bytes → Bool
has_prefix s [] = true
has_prefix [] (p ∷ ps) = false
has_prefix (x ∷ s) (p ∷ ps) = x == p && has_prefix s ps

-- `strings.IndexByte`; `none` is -1.
unfoldable pub index_byte : Bytes → ℕ → Option ℕ
index_byte [] c = none
index_byte (x ∷ s) c = if x == c then some 0 else Option.map suc (index_byte s c)

abbrev after_head : Bool → Option ℕ → Option ℕ
after_head here (some i) = some (suc i)
after_head here none = if here then some 0 else none

-- `strings.LastIndexByte`.
unfoldable pub last_index_byte : Bytes → ℕ → Option ℕ
last_index_byte [] c = none
last_index_byte (x ∷ s) c = after_head (x == c) (last_index_byte s c)

-- The test `i <= 0` on an index that may be -1: only a positive index passes.
abbrev pub positive : Option ℕ → Option ℕ
positive none = none
positive (some zero) = none
positive (some (suc i)) = some (suc i)

-- `s[i:j]`.
abbrev pub slice : Bytes → ℕ → ℕ → Bytes
slice s i j = take (j - i) (drop i s)

abbrev is_continuation : ℕ → Bool
is_continuation c = leb 0x80 c && leb c 0xbf

abbrev two_bytes : ℕ → Bytes → ℕ
two_bytes a [] = 1
two_bytes a (b ∷ s) = if is_continuation b && ltb 0x7f (a % 32 * 64 + b % 64) then 2 else 1

abbrev three_byte_rune : ℕ → ℕ → ℕ → ℕ
three_byte_rune a b c = a % 16 * 4096 + b % 64 * 64 + c % 64

abbrev is_surrogate : ℕ → Bool
is_surrogate r = leb 0xd800 r && leb r 0xdfff

abbrev three_bytes : ℕ → Bytes → ℕ
three_bytes a [] = 1
three_bytes a (b ∷ []) = 1
three_bytes a (b ∷ c ∷ s) =
    if is_continuation b
      && is_continuation c
      && ltb 0x7ff (three_byte_rune a b c)
      && not (is_surrogate (three_byte_rune a b c))
    then 3
    else 1

abbrev four_byte_rune : ℕ → ℕ → ℕ → ℕ → ℕ
four_byte_rune a b c d = a % 8 * 262144 + b % 64 * 4096 + c % 64 * 64 + d % 64

abbrev four_bytes : ℕ → Bytes → ℕ
four_bytes a [] = 1
four_bytes a (b ∷ []) = 1
four_bytes a (b ∷ c ∷ []) = 1
four_bytes a (b ∷ c ∷ d ∷ s) =
    if is_continuation b
      && is_continuation c
      && is_continuation d
      && ltb 0xffff (four_byte_rune a b c d)
      && leb (four_byte_rune a b c d) 0x10ffff
    then 4
    else 1

-- The width of the rune that starts with byte `a` before `s`; 1 where the bytes are no UTF-8.
unfoldable pub rune_width : ℕ → Bytes → ℕ
rune_width a s =
    if leb 0xc0 a && ltb a 0xe0
    then two_bytes a s
    else if leb 0xe0 a && ltb a 0xf0
    then three_bytes a s
    else if leb 0xf0 a && ltb a 0xf8
    then four_bytes a s
    else 1

-- The bytes `s[i]` that `for i := range s` reads; the number is what is left of the current rune.
unfoldable pub rune_starts : ℕ → Bytes → Bytes
unfolding rune_width
rune_starts skip [] = []
rune_starts (suc skip) (a ∷ s) = rune_starts skip s
rune_starts zero (a ∷ s) = a ∷ rune_starts (rune_width a s - 1) s

-- Put the field that was being read before the later ones, unless it is empty.
abbrev pub flush : Bytes → List Bytes → List Bytes
flush [] rest = rest
flush (c ∷ cur) rest = (c ∷ cur) ∷ rest

-- The field that runs on into `s`, and the fields behind it.
unfoldable pub split_fields : (ℕ → Bool) → Bytes → Bytes × List Bytes
split_fields sep [] = ([], [])
split_fields sep (x ∷ s) =
    let (cur, rest) = split_fields sep s in if sep x then ([], flush cur rest) else (x ∷ cur, rest)

-- `strings.FieldsFunc` for a test that only ASCII passes: no byte of a longer rune is ASCII.
unfoldable pub fields : (ℕ → Bool) → Bytes → List Bytes
unfolding split_fields
fields sep s = let (cur, rest) = split_fields sep s in flush cur rest

unfoldable pub is_ascii : Bytes → Bool
is_ascii [] = true
is_ascii (c ∷ s) = ltb c 0x80 && is_ascii s

-- What package `strings` does to a text that is not ASCII, which rests on the tables of Unicode.
pub record Unicode : Type 0 where
  pub lower : Bytes → Bytes
  pub trim : Bytes → Bytes

unfoldable pub lower_byte : ℕ → ℕ
lower_byte c = if leb b'A' c && leb c b'Z' then c + 32 else c

-- `strings.ToLower`
unfoldable pub to_lower : Unicode → Bytes → Bytes
to_lower u s = if is_ascii s then map lower_byte s else u.lower s

abbrev pub is_ascii_space : ℕ → Bool
is_ascii_space c = c == b' ' || (leb 9 c && leb c 13)

unfoldable pub trim_left : (ℕ → Bool) → Bytes → Bytes
trim_left cut [] = []
trim_left cut (c ∷ s) = if cut c then trim_left cut s else c ∷ s

abbrev keep_or_cut : Bool → ℕ → Bytes → Bytes
keep_or_cut cut c [] = if cut then [] else c ∷ []
keep_or_cut cut c (d ∷ s) = c ∷ d ∷ s

-- `strings.TrimRight`, for a cut set of ASCII bytes.
unfoldable pub trim_right : (ℕ → Bool) → Bytes → Bytes
trim_right cut [] = []
trim_right cut (c ∷ s) = keep_or_cut (cut c) c (trim_right cut s)

-- `strings.TrimSpace`
unfoldable pub trim_space : Unicode → Bytes → Bytes
trim_space u s =
    if is_ascii s then trim_right is_ascii_space (trim_left is_ascii_space s) else u.trim s

abbrev extend : Bool → ℕ → List Bytes → List Bytes
extend cut c [] = []
extend true c (part ∷ parts) = [] ∷ part ∷ parts
extend false c (part ∷ parts) = (c ∷ part) ∷ parts

-- `strings.Split` at a one-byte separator.
unfoldable pub split_on : ℕ → Bytes → List Bytes
split_on sep [] = [] ∷ []
split_on sep (c ∷ s) = extend (c == sep) c (split_on sep s)

-- `strings.TrimSuffix` of a one-byte suffix.
unfoldable pub trim_suffix : ℕ → Bytes → Bytes
trim_suffix c [] = []
trim_suffix c (x ∷ []) = if x == c then [] else x ∷ []
trim_suffix c (x ∷ y ∷ s) = x ∷ trim_suffix c (y ∷ s)
