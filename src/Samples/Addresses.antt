-- ===== src/Samples/Addresses.antt =====
-- `proxyIPBlocked` and the host rules at concrete addresses and names.
use aimee_module_sandbox.Base.{
  ℕ, ◌≤◌, ◌<◌, true, false, none, some, [], ◌∷◌, ◌≡◌, ◌≢◌, refl, arith, ◌↔◌, ◌⊎◌, inl, length, All,
  Any, get_or, leb, ltb, not, ◌&&◌, ◌==◌, if◌then◌else◌, map,
}
use aimee_module_sandbox.GoString.{Bytes, codes, fields, rune_starts, rune_width}
use aimee_module_sandbox.Proxy.Address.{
  ipv4_blocked, proxy_ip_blocked, big_endian_u32, in_ranges, mask, in_range,
}
use aimee_module_sandbox.Proxy.Address.Ranges.{InSome, non_public, ipv4_blocked-InSome}
use aimee_module_sandbox.Proxy.Address.Embedded.{
  mapped, compatible, translated, six_to_four, proxy_ip_blocked_embedded, proxy_ip_blocked_native,
}
use aimee_module_sandbox.Proxy.Host.{
  equal_fold_ascii, proxy_host_allowed, is_separator, copy_proxy_host, proxy_host_max, lower_ascii,
  parse_proxy_port, copy_loop, is_forbidden,
}
use aimee_module_sandbox.Proxy.Host.Fold.{
  IsAscii, lower, equal_fold_ascii_iff, equal_fold_ascii_skips,
}
use aimee_module_sandbox.Proxy.Host.Allow.{Admits, proxy_host_allowed_iff}
use aimee_module_sandbox.Proxy.Host.Copy.{
  kept, is_clean, is_nil, IsHostByte, copy_proxy_host_lem, copy_proxy_host_safe,
}
use aimee_module_sandbox.Proxy.Host.Port.{IsDigit, decimal, parse_proxy_port_iff}

ipv4_blocked-InSome_example : (ipv4_blocked 0x0a000001 ≡ true) ↔ InSome non_public 0x0a000001
ipv4_blocked-InSome_example = ipv4_blocked-InSome 0x0a000001 (omega arith)

private_blocked : ipv4_blocked 0x0a000001 ≡ true
unfolding ipv4_blocked in_ranges in_range mask
private_blocked = refl

public_allowed : ipv4_blocked 0x08080808 ≡ false
unfolding ipv4_blocked in_ranges in_range mask
public_allowed = refl

abbrev loopback : Bytes
loopback = 127 ∷ 0 ∷ 0 ∷ 1 ∷ []

abbrev ten_zeros : Bytes
ten_zeros = 0 ∷ 0 ∷ 0 ∷ 0 ∷ 0 ∷ 0 ∷ 0 ∷ 0 ∷ 0 ∷ 0 ∷ []

proxy_ip_blocked_embedded_example :
    let verdict = ipv4_blocked (big_endian_u32 loopback) in
    (proxy_ip_blocked (some loopback) ≡ verdict)
    × (proxy_ip_blocked (some (mapped loopback)) ≡ verdict)
    × (proxy_ip_blocked (some (compatible loopback)) ≡ verdict)
    × (proxy_ip_blocked (some (translated loopback)) ≡ verdict)
    × (proxy_ip_blocked (some (six_to_four loopback ten_zeros)) ≡ verdict)
proxy_ip_blocked_embedded_example = proxy_ip_blocked_embedded 127 0 0 1 ten_zeros refl

abbrev fourteen_zeros : Bytes
fourteen_zeros = 0 ∷ 0 ∷ 0 ∷ 0 ∷ ten_zeros

abbrev link_byte : ℕ
link_byte = 0xfe

proxy_ip_blocked_native_example :
    (proxy_ip_blocked (some (link_byte ∷ 0x80 ∷ fourteen_zeros)) ≡ true) ↔ (
      (link_byte ≡ 0xfc)
      ⊎ (link_byte ≡ 0xfd)
      ⊎ ((link_byte ≡ 0xfe) × (0x80 ≤ 0x80) × (0x80 ≤ 0xbf))
      ⊎ (link_byte ≡ 0xff))
proxy_ip_blocked_native_example =
    proxy_ip_blocked_native 0xfe 0x80 fourteen_zeros (omega arith) (omega arith) refl (omega arith)
      (inl (omega arith))

abbrev allowlist : Bytes
allowlist = codes "*.debian.org, pypi.org"

allowlist-IsAscii : All IsAscii allowlist
allowlist-IsAscii = grind arith

proxy_host_allowed_iff_example : (proxy_host_allowed (codes "deb.debian.org") allowlist ≡ true) ↔ (
    (codes "deb.debian.org" ≢ [])
    × Any (Admits (codes "deb.debian.org")) (fields is_separator allowlist))
proxy_host_allowed_iff_example =
    proxy_host_allowed_iff (codes "deb.debian.org") allowlist allowlist-IsAscii

abbrev host_value : Bytes
host_value = codes "Deb.Debian.Org"

copy_proxy_host_lem_example :
    let bytes = kept (get_or host_value 0 0 == b'[') (rune_starts 0 host_value) in
    copy_proxy_host host_value ≡ (
      if leb 1 (length host_value)
        && ltb (length host_value) proxy_host_max
        && is_clean bytes
        && not (is_nil bytes)
      then some (map lower_ascii bytes)
      else none)
copy_proxy_host_lem_example = copy_proxy_host_lem host_value

host_copied : copy_proxy_host host_value ≡ some (codes "deb.debian.org")
unfolding copy_proxy_host copy_loop rune_starts rune_width is_forbidden lower_ascii
host_copied = refl

copy_proxy_host_safe_example :
    (1 ≤ length (codes "deb.debian.org"))
    × (length (codes "deb.debian.org") < proxy_host_max)
    × All IsHostByte (codes "deb.debian.org")
copy_proxy_host_safe_example = copy_proxy_host_safe host_value host_copied

parse_proxy_port_iff_example : (parse_proxy_port (codes "443") ≡ some 443) ↔ (
    (codes "443" ≢ [])
    × All IsDigit (codes "443")
    × (decimal 0 (codes "443") ≡ 443)
    × (1 ≤ 443)
    × (443 ≤ 65535))
parse_proxy_port_iff_example = parse_proxy_port_iff (codes "443") 443

pypi-IsAscii : All IsAscii (codes "pypi")
pypi-IsAscii = grind arith

equal_fold_ascii_iff_example :
    (equal_fold_ascii (codes "PyPI") (codes "pypi") ≡ true)
    ↔ (lower (codes "PyPI") ≡ lower (codes "pypi"))
equal_fold_ascii_iff_example = equal_fold_ascii_iff (codes "PyPI") (codes "pypi") pypi-IsAscii

equal_fold_ascii_skips_example : equal_fold_ascii (0xc3 ∷ 0xa9 ∷ []) (0xc3 ∷ 0xa8 ∷ []) ≡ true
equal_fold_ascii_skips_example =
    equal_fold_ascii_skips 0xc3 0xa9 0xa8 [] (omega arith) (omega arith) (omega arith) (omega arith)
