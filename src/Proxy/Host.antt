-- ===== src/Proxy/Host.antt =====
-- `equalFoldASCII`, `proxyHostAllowed`, `lowerASCII`, `copyProxyHost` and `parseProxyPort` of
-- server-go/modules/sandbox/proxy_policy.go.
pub mod Fold
pub mod Suffix
pub mod Allow
pub mod Copy
pub mod Port
use aimee_module_sandbox.Base.{
  ℕ, zero, suc, ◌+◌, ◌-◌, ◌*◌, Bool, true, false, ◌&&◌, ◌||◌, Option, none, some, List, [], ◌∷◌,
  ◌++◌, ltb, leb, ◌==◌, if◌then◌else◌, length, drop, get_or,
}
use aimee_module_sandbox.GoString.{Bytes, codes, rune_width, rune_starts, has_prefix, fields}

abbrev pub proxy_host_max : ℕ
proxy_host_max = 256

-- `DefaultPackageAllowlist`
abbrev pub default_package_allowlist : Bytes
default_package_allowlist =
    codes
      "deb.debian.org,security.debian.org,*.archive.ubuntu.com,security.ubuntu.com,registry.npmjs.org,pypi.org,files.pythonhosted.org"

unfoldable pub lower_ascii : ℕ → ℕ
lower_ascii value = if leb b'A' value && leb value b'Z' then value + (b'a' - b'A') else value

-- The loop of `equalFoldASCII`: it ranges over the runes of `left` and reads both strings there.
unfoldable pub fold_loop : ℕ → Bytes → Bytes → Bool
fold_loop skip [] right = true
fold_loop skip (a ∷ left) [] = true
fold_loop (suc skip) (a ∷ left) (b ∷ right) = fold_loop skip left right
fold_loop zero (a ∷ left) (b ∷ right) =
    lower_ascii a == lower_ascii b && fold_loop (rune_width a left - 1) left right

unfoldable pub equal_fold_ascii : Bytes → Bytes → Bool
equal_fold_ascii left right = if length left == length right then fold_loop 0 left right else false

-- The function that `FieldsFunc` is given.
abbrev pub is_separator : ℕ → Bool
is_separator value =
    value == b',' || value == b' ' || value == b'\t' || value == b'\n' || value == b'\r'

-- A host against the suffix of an entry "*." ++ suffix.
unfoldable pub suffix_allows : Bytes → Bytes → Bool
suffix_allows host suffix =
    if length suffix == 0 || leb proxy_host_max (length suffix)
    then false
    else equal_fold_ascii host suffix
      || (ltb (length suffix + 1) (length host)
          && get_or host (length host - length suffix - 1) 0 == b'.'
          && equal_fold_ascii (drop (length host - length suffix) host) suffix)

-- One round of the loop of `proxyHostAllowed`.
unfoldable pub entry_allows : Bytes → Bytes → Bool
entry_allows host entry =
    if has_prefix entry (codes "*.")
    then suffix_allows host (drop 2 entry)
    else equal_fold_ascii host entry

unfoldable pub some_entry_allows : Bytes → List Bytes → Bool
some_entry_allows host [] = false
some_entry_allows host (entry ∷ entries) = entry_allows host entry || some_entry_allows host entries

unfoldable pub proxy_host_allowed : Bytes → Bytes → Bool
proxy_host_allowed host allowlist =
    if length host == 0 || length allowlist == 0
    then false
    else some_entry_allows host (fields is_separator allowlist)

abbrev pub is_bracket : ℕ → Bool
is_bracket c = c == b'[' || c == b']'

-- The bytes that end `copyProxyHost` with a refusal.
abbrev pub is_forbidden : ℕ → Bool
is_forbidden c = c == b'/' || c == b' ' || c == b'\r' || c == b'\n' || c == b'@' || c == 0

-- The loop of `copyProxyHost` over the bytes that `range value` visits.
unfoldable pub copy_loop : Bool → Bytes → Bytes → Option Bytes
copy_loop bracketed result [] = if length result == 0 then none else some result
copy_loop bracketed result (current ∷ rest) =
    let passed = copy_loop bracketed result rest in
    let appended = copy_loop bracketed (result ++ lower_ascii current ∷ []) rest in
    if bracketed && is_bracket current
    then passed
    else if is_forbidden current
    then none
    else if leb proxy_host_max (length result + 1)
    then none
    else appended

-- `none` stands for a result ("", false).
unfoldable pub copy_proxy_host : Bytes → Option Bytes
copy_proxy_host value =
    if length value == 0 || leb proxy_host_max (length value)
    then none
    else copy_loop (get_or value 0 0 == b'[') [] (rune_starts 0 value)

unfoldable pub port_loop : ℕ → Bytes → Option ℕ
port_loop port [] = if port == 0 then none else some port
port_loop port (c ∷ rest) =
    let more = port_loop (port * 10 + (c - b'0')) rest in
    if ltb c b'0' || ltb b'9' c
    then none
    else if ltb 65535 (port * 10 + (c - b'0'))
    then none
    else more

unfoldable pub parse_proxy_port : Bytes → Option ℕ
parse_proxy_port value = if length value == 0 then none else port_loop 0 (rune_starts 0 value)
