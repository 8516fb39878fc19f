-- ===== src/Proxy/Rewrite.antt =====
-- `proxyHeaderShouldStrip`, `validProxyHeaderName` and `rewriteProxyHead` of
-- server-go/modules/sandbox/proxy_policy.go.
pub mod Lines
pub mod Headers
pub mod Safe
pub mod Cuts
pub mod Spec
use aimee_module_sandbox.Base.{
  ℕ, zero, suc, ◌+◌, ◌-◌, Bool, true, false, not, ◌&&◌, ◌||◌, Option, none, some, List, [], ◌∷◌,
  ◌++◌, map, ltb, leb, ◌==◌, if◌then◌else◌, length, take, drop,
}
use mathlib.Core.Option
use aimee_module_sandbox.GoString.{
  Bytes, codes, equal, one_of, has_prefix, index_byte, positive, slice, rune_starts, Unicode,
  to_lower, trim_space, trim_right, trim_suffix, split_on,
}
use aimee_module_sandbox.Proxy.Request.{◌>>=◌, scan}

abbrev pub stripped_names : List Bytes
stripped_names =
    codes "connection"
    ∷ codes "proxy-connection"
    ∷ codes "keep-alive"
    ∷ codes "transfer-encoding"
    ∷ codes "te"
    ∷ codes "trailer"
    ∷ codes "upgrade"
    ∷ codes "authorization"
    ∷ codes "proxy-authorization"
    ∷ codes "cookie"
    ∷ []

unfoldable pub name_bytes_valid : Bytes → Bool
name_bytes_valid [] = true
name_bytes_valid (c ∷ s) = if leb c 0x20 || c == 0x7f then false else name_bytes_valid s

unfoldable pub valid_proxy_header_name : Bytes → Bool
valid_proxy_header_name name =
    if length name == 0 then false else name_bytes_valid (rune_starts 0 name)

-- The next line with its line feed, and what is behind it.
unfoldable pub next_line : Bytes → Bytes × Bytes
next_line remaining = elim (index_byte remaining b'\n') [
  | some next ↦ (take (next + 1) remaining, drop (next + 1) remaining)
  | none ↦ (remaining, [])
]

abbrev pub close_header : Bytes
close_header = codes "Connection: close\r\n\r\n"

-- How the loop over the header lines ends: by the end of the head, or by a refusal. `stuck` is no
-- result of the program: the fuel of the model ran out.
pub data Collected : Type 0 where
  done : List Bytes → List Bytes → Collected
  refused stuck : Collected

abbrev pub is_line_end : ℕ → Bool
is_line_end c = c == b'\r' || c == b'\n'

abbrev pub is_connection : Bytes → Bool
is_connection name = equal name (codes "connection") || equal name (codes "proxy-connection")

-- The options that the value of a line lists.
unfoldable pub options_of : Bytes → List Bytes
options_of value = split_on b',' (trim_right is_line_end value)

-- The request line in origin form.
abbrev pub start_line : Bytes → Bytes → Bytes → Bytes
start_line method path version =
    method ++ (b' ' ∷ (path ++ (b' ' ∷ (take 8 version ++ codes "\r\n"))))

-- The path of an absolute target.
unfoldable pub origin_path : Bytes → Bytes
origin_path target =
    let path_start = 7 + scan (λ c. c == b'/') (drop 7 target) in
    if ltb path_start (length target) then drop path_start target else codes "/"

module _ (u : Unicode) where
  unfoldable pub proxy_header_should_strip : Bytes → Bool
  proxy_header_should_strip name = one_of (to_lower u name) stripped_names

  -- The part of a line in front of the colon, in lower case.
  unfoldable pub header_name : Bytes → Bytes
  header_name line = to_lower u (take (Option.get_or (index_byte line b':') 0) line)

  -- The loop over the options of a Connection header; `none` is the refusal of the head.
  unfoldable pub add_options : List Bytes → List Bytes → Option (List Bytes)
  add_options nominated [] = some nominated
  add_options nominated (option ∷ options) =
      let rest = add_options (to_lower u (trim_space u option) ∷ nominated) options in
      if valid_proxy_header_name (trim_space u option) then rest else none

  -- One header line, given the names nominated before it.
  unfoldable pub read_header : Bytes → List Bytes → Option (List Bytes)
  read_header line nominated = do
    colon ← positive (index_byte line b':')
    if not (valid_proxy_header_name (take colon line))
        then none
        else if is_connection (to_lower u (take colon line))
        then add_options nominated (options_of (drop (colon + 1) line))
        else some nominated

  -- `for len(remaining) > 0`; a line takes a byte at least, so `length remaining` rounds suffice.
  unfoldable pub collect : ℕ → Bytes → List Bytes → List Bytes → Collected
  collect fuel [] headers nominated = done headers nominated
  collect zero (c ∷ s) headers nominated = stuck
  collect (suc fuel) (c ∷ s) headers nominated =
      let (line, rest) = next_line (c ∷ s) in
      if leb (length line) 2 then done headers nominated else elim (read_header line nominated) [
        | none ↦ refused
        | some nominated' ↦ collect fuel rest (headers ++ line ∷ []) nominated'
      ]

  -- `!proxyHeaderShouldStrip(name) && !nominated`
  unfoldable pub survives : List Bytes → Bytes → Bool
  survives nominated line =
      not (proxy_header_should_strip (header_name line))
      && not (one_of (header_name line) nominated)

  -- The loop that writes the lines which survive.
  unfoldable pub emit : List Bytes → List Bytes → Bytes
  emit nominated [] = []
  emit nominated (line ∷ lines) =
      (if survives nominated line then line else []) ++ emit nominated lines

  abbrev pub finish : Bytes → Collected → Option Bytes
  finish start (done headers nominated) = some (start ++ (emit nominated headers ++ close_header))
  finish start refused = none
  finish start stuck = none

  -- The function behind the cuts of the request line.
  unfoldable pub rewrite_request : Bytes → Bytes → Bytes → Bytes → Option Bytes
  rewrite_request method target version remaining =
      if not (has_prefix target (codes "http://")) || ltb (length version) 8
      then none
      else finish (start_line method (origin_path target) version)
          (collect (length remaining) remaining [] [])

  unfoldable pub rewrite_proxy_head : Bytes → Option Bytes
  rewrite_proxy_head head = do
    eol ← index_byte head b'\n'
    first_space ← index_byte (take eol head) b' '
    second_relative ← index_byte (slice head (first_space + 1) eol) b' '
    let second_space = first_space + 1 + second_relative
    rewrite_request (take first_space head) (slice head (first_space + 1) second_space)
        (trim_suffix b'\r' (slice head (second_space + 1) eol)) (drop (eol + 1) head)
