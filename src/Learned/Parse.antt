-- ===== src/Learned/Parse.antt =====
-- `ParseApt`, `isEnvAssign`, `aptOptionTakesArg` and `contains` of
-- server-go/modules/sandbox/sandbox.go. The index into the tokens is the list of the tokens left
-- together with the token before them, which the loop looks back at.
pub mod Safe
pub mod Fuel
use aimee_module_sandbox.Base.{
  ℕ, zero, suc, ◌+◌, ◌-◌, Bool, true, false, not, ◌&&◌, ◌||◌, Option, none, some, List, [], ◌∷◌,
  ◌++◌, ltb, leb, ◌==◌, if◌then◌else◌, length, take,
}
use aimee_module_sandbox.GoString.{Bytes, codes, equal, one_of, has_prefix, index_byte}
use aimee_module_sandbox.Learned.Grammar.{is_alnum, package_valid}
use aimee_module_sandbox.Learned.Tokens.{is_operator, tokenize}

abbrev pub package_name_max : ℕ
package_name_max = 64

abbrev pub learn_max : ℕ
learn_max = 128

unfoldable pub variable_bytes : Bytes → Bool
variable_bytes [] = true
variable_bytes (c ∷ s) = if not (is_alnum c) && not (c == b'_') then false else variable_bytes s

abbrev assigns_at : Bytes → Option ℕ → Bool
assigns_at tok none = false
assigns_at tok (some zero) = false
assigns_at tok (some (suc i)) = variable_bytes (take (suc i) tok)

unfoldable pub is_env_assign : Bytes → Bool
is_env_assign tok = assigns_at tok (index_byte tok b'=')

abbrev pub options_with_argument : List Bytes
options_with_argument =
    codes "-t"
    ∷ codes "-o"
    ∷ codes "-c"
    ∷ codes "-a"
    ∷ codes "--target-release"
    ∷ codes "--default-release"
    ∷ codes "--option"
    ∷ codes "--config-file"
    ∷ codes "--arch"
    ∷ []

unfoldable pub apt_option_takes_arg : Bytes → Bool
apt_option_takes_arg tok = one_of tok options_with_argument

-- `contains`
unfoldable pub contains : List Bytes → Bytes → Bool
contains list want = one_of want list

abbrev pub is_flag : Bytes → Bool
is_flag tok = has_prefix tok (codes "-")

abbrev pub cut_at : Bytes → Option ℕ → Bytes
cut_at name none = name
cut_at name (some i) = take i name

abbrev pub shorten : Bytes → Bytes
shorten name = if leb package_name_max (length name) then take (package_name_max - 1) name else name

-- The name in a token: what stands in front of `=`, cut to 63 bytes.
unfoldable pub package_name : Bytes → Bytes
package_name t = shorten (cut_at t (index_byte t b'='))

abbrev pub has_slash : Option ℕ → Bool
has_slash none = false
has_slash (some i) = true

-- The end of the inner loop: a token behind `install` that is no flag.
unfoldable pub add_package : List Bytes → Bytes → List Bytes
add_package found t =
    if has_slash (index_byte t b'/')
    then found
    else if package_valid (package_name t) && not (contains found (package_name t))
    then found ++ package_name t ∷ []
    else found

-- What the inner loop makes of a token that takes no value: whether `install` has been seen and
-- the names found, or `none` at another subcommand, where the loop ends.
unfoldable pub argument : Bool → List Bytes → Bytes → Option (Bool × List Bytes)
argument false found t =
    if equal t (codes "install")
    then some (true, found)
    else if is_flag t
    then some (false, found)
    else none
argument true found t = if is_flag t then some (true, found) else some (true, add_package found t)

-- `strings.HasPrefix(t, "-") && aptOptionTakesArg(t)`
abbrev pub takes_value : Bytes → Bool
takes_value t = is_flag t && apt_option_takes_arg t

-- Names found, the token before those left, the tokens left.
pub record Cursor : Type 0 where
  pub found : List Bytes
  pub before : Option Bytes
  pub rest : List Bytes

abbrev pub after_sudo : Option Bytes → Bytes → Bool
after_sudo none t = false
after_sudo (some p) t = equal p (codes "sudo") && is_flag t

-- The loop over assignments, sudo and its flags at the start of a segment.
unfoldable pub segment_start : List Bytes → Option Bytes → List Bytes → Cursor
segment_start found before [] = record { found = found; before = before; rest = [] }
segment_start found before (t ∷ rest) =
    elim (is_env_assign t || equal t (codes "sudo") || after_sudo before t) [
      | true ↦ segment_start found (some t) rest
      | false ↦ record { found = found; before = before; rest = t ∷ rest }
    ]

-- The loop to the next operator, and the step over it.
unfoldable pub next_segment : List Bytes → Option Bytes → List Bytes → Cursor
next_segment found before [] = record { found = found; before = before; rest = [] }
next_segment found before (t ∷ rest) = elim (is_operator t) [
  | true ↦ record { found = found; before = some t; rest = rest }
  | false ↦ next_segment found (some t) rest
]

-- The step over an operator behind the inner loop.
abbrev pub skip_operator : List Bytes → Option Bytes → List Bytes → Cursor
skip_operator found before [] = record { found = found; before = before; rest = [] }
skip_operator found before (t ∷ rest) =
    if is_operator t
    then record { found = found; before = some t; rest = rest }
    else record { found = found; before = before; rest = t ∷ rest }

abbrev pub is_apt : Bytes → Bool
is_apt t = equal t (codes "apt") || equal t (codes "apt-get")

module _ (max : ℕ) where
  -- The test of the inner loop on a token.
  abbrev pub goes_on : List Bytes → Bytes → Bool
  goes_on found t = not (is_operator t) && ltb (length found) max

  -- The inner loop, over the arguments of apt.
  unfoldable pub arguments : Bool → List Bytes → Option Bytes → List Bytes → Cursor
  arguments seen found before [] = record { found = found; before = before; rest = [] }
  arguments seen found before (t ∷ []) =
      if goes_on found t
      then (if takes_value t
          then record { found = found; before = some t; rest = [] }
          else elim (argument seen found t) [
            | none ↦ record { found = found; before = some t; rest = [] }
            | some (seen', found') ↦ record { found = found'; before = some t; rest = [] }
          ])
      else record { found = found; before = before; rest = t ∷ [] }
  arguments seen found before (t ∷ n ∷ rest) = elim (goes_on found t) [
    | false ↦ record { found = found; before = before; rest = t ∷ n ∷ rest }
    | true ↦ elim (takes_value t) [
      | true ↦ elim (is_operator n) [
        | false ↦ arguments seen found (some n) rest
        | true ↦ arguments seen found (some t) (n ∷ rest)
      ]
      | false ↦ elim (argument seen found t) [
        | none ↦ record { found = found; before = some t; rest = n ∷ rest }
        | some (seen', found') ↦ arguments seen' found' (some t) (n ∷ rest)
      ]
    ]
  ]

  abbrev pub apt_segment : List Bytes → Bytes → List Bytes → Cursor
  apt_segment found t rest =
      let c = arguments false found (some t) rest in skip_operator c.found c.before c.rest

  -- The body of the outer loop behind the start of a segment.
  unfoldable pub segment : List Bytes → Option Bytes → List Bytes → Cursor
  segment found before [] = record { found = found; before = before; rest = [] }
  segment found before (t ∷ rest) =
      if is_apt t then apt_segment found t rest else next_segment found before (t ∷ rest)

  -- One round of the outer loop.
  unfoldable pub round : List Bytes → Option Bytes → List Bytes → Cursor
  round found before tokens =
      let c = segment_start found before tokens in segment c.found c.before c.rest

  -- The outer loop. A round takes a token at least, so `length tokens` rounds suffice.
  unfoldable pub segments : ℕ → List Bytes → Option Bytes → List Bytes → List Bytes
  segments fuel found before [] = found
  segments zero found before (t ∷ rest) = found
  segments (suc fuel) found before (t ∷ rest) =
      let c = round found before (t ∷ rest) in
      let more = segments fuel c.found c.before c.rest in
      if ltb (length found) max then more else found

  -- A `max` of 0 stands for every number that is not positive.
  unfoldable pub parse_apt : Bytes → List Bytes
  parse_apt cmd =
      if length cmd == 0 || max == 0
      then []
      else segments (length (tokenize cmd)) [] none (tokenize cmd)
